-- ===== src/Strings/Keyspace.antt =====
-- commands/basic.py: PING, ECHO, TYPE, KEYS, SCAN, TOUCH and DBSIZE. Whether a pattern matches a
-- key is a parameter, since Python's `fnmatch` does it.
use kagni.Prelude.{
  ℤ, pos, ltb_ℤ, is_neg, beq_ℤ, Bool, true, false, not, ◌&&◌, Option, none, some, is_none, List, [],
  ◌∷◌, Bytes, ◌==◌, bytes_eq, if◌then◌else◌, is_empty,
}
use kagni.Data
use kagni.Data.{Clock, Data}
use kagni.Text.{codes, upper, lower, decode_ascii}
use kagni.Resp.{Error, Reply, Replies}
use kagni.Common.Errors.{arity, not_int, syntax, invalid_cursor}
use kagni.Common.{
  Stored, Kind, kind_of, Command, Result, ok, err, pure, call, raise_if, ◌>>=◌, ◌>>◌, string2ll,
}
use kagni.Lists.{bulks}
use kagni.Strings.Basic.{count_live, lift}

-- `TYPE_NAMES`
abbrev pub type_name : Kind → Bytes
type_name Kind.kind_string = codes "string"
type_name Kind.kind_list = codes "list"
type_name Kind.kind_hash = codes "hash"
type_name Kind.kind_set = codes "set"
type_name Kind.kind_zset = codes "zset"
type_name Kind.kind_bitmap = codes "string"

unfoldable pub ping : {V : Type 0} → Option Bytes → Command V Reply
ping none = pure Reply.pong
ping (some message) = pure (Reply.bulk message)

unfoldable pub echo : {V : Type 0} → Bytes → Command V Reply
echo message = pure (Reply.bulk message)

unfoldable pub dbsize : {V : Type 0} → Command V Reply
dbsize = call Data.len >>= λ n. pure (Reply.num (pos n))

-- The options of SCAN: the pattern and the name of a type.
pub record Filter : Type 0 where
  pub pattern : Option Bytes
  pub type_filter : Option Bytes

abbrev pub no_filter : Filter
no_filter = record { pattern = none; type_filter = none }

pub data ScanOption : Type 0 where
  match_option count_option type_option unknown_option : ScanOption

unfoldable pub scan_option : Bytes → ScanOption
scan_option opt =
    if opt == codes "MATCH"
    then match_option
    else if opt == codes "COUNT"
    then count_option
    else if opt == codes "TYPE"
    then type_option
    else unknown_option

-- COUNT is tested and not used.
unfoldable pub count_error : Bytes → Option Error
unfolding string2ll
count_error value = elim (string2ll value) [
  | none ↦ some not_int
  | some n ↦ if ltb_ℤ n (pos 1) then some syntax else none
]

-- the option loop of SCAN, with the filter so far
unfoldable pub scan_options : List Bytes → Filter → Result Filter
unfolding upper lower decode_ascii scan_option count_error
scan_options [] f = ok f
scan_options (opt ∷ []) f = err syntax
scan_options (opt ∷ value ∷ rest) f = elim (scan_option (upper opt)) [
  | match_option ↦ scan_options rest (record f { pattern = some value })
  | count_option ↦ elim (count_error value) [ none ↦ scan_options rest f | some e ↦ err e ]
  | type_option ↦ scan_options rest (record f { type_filter = some (decode_ascii (lower value)) })
  | unknown_option ↦ err syntax
]

unfoldable pub cursor_of : Bytes → Result ℤ
unfolding string2ll
cursor_of cursor = elim (string2ll cursor) [
  | none ↦ err invalid_cursor
  | some n ↦ if is_neg n then err invalid_cursor else ok n
]

abbrev pub scan_reply : List Bytes → Reply
scan_reply keys =
    Reply.arr
      (Replies.item (Reply.bulk (codes "0")) (Replies.item (Reply.arr (bulks keys)) Replies.empty))

module _ {Score : Type 0} where
  unfoldable pub type_command : Bytes → Command (Stored Score) Reply
  unfolding kind_of
  type_command key = call (Data.get key) >>= λ val. elim val [
    | none ↦ pure (Reply.simple (codes "none"))
    | some v ↦ pure (Reply.simple (type_name (kind_of v)))
  ]

  unfoldable pub touch : List Bytes → Command (Stored Score) Reply
  unfolding count_live
  touch keys = raise_if (is_empty keys) (arity (codes "touch")) >> λ c d.
      (ok (Reply.num (pos (count_live keys c d))), d)

  abbrev pub has_type : Bytes → Option (Stored Score) → Bool
  has_type name none = false
  has_type name (some v) = type_name (kind_of v) == name

  abbrev pub typed : Option Bytes → Option (Stored Score) → Bool
  typed none val = true
  typed (some name) val = has_type name val

module _ (matches : Bytes → Bytes → Bool) where
  unfoldable pub matching : Bytes → List Bytes → List Bytes
  matching pattern [] = []
  matching pattern (key ∷ rest) =
      let more = matching pattern rest in if matches pattern key then key ∷ more else more

  abbrev pub allows : Option Bytes → Bytes → Bool
  allows none key = true
  allows (some pattern) key = matches pattern key

module _ {Score : Type 0} (matches : Bytes → Bytes → Bool) where
  unfoldable pub keys_command : Bytes → Command (Stored Score) Reply
  unfolding matching bulks
  keys_command pattern =
      call Data.iter >>= λ keys. pure (Reply.arr (bulks (matching matches pattern keys)))

  -- the loop of SCAN over the keys
  unfoldable pub scan_keys :
      Filter → List Bytes → Clock → Data (Stored Score) → List Bytes × Data (Stored Score)
  unfolding kind_of
  scan_keys f [] c d = ([], d)
  scan_keys f (key ∷ rest) c d =
      let fits = allows matches f.pattern key in
      let (val, read) = Data.get key c d in
      let (more, last) =
        scan_keys f rest c (if fits && not (is_none f.type_filter) then read else d) in
      (if fits && typed f.type_filter val then key ∷ more else more, last)

  unfoldable pub scan : Bytes → List Bytes → Command (Stored Score) Reply
  unfolding cursor_of scan_options scan_keys bulks
  scan cursor options = do
    at ← lift (cursor_of cursor)
    if not (beq_ℤ at (pos 0)) then pure (scan_reply []) else (do
      f ← lift (scan_options options no_filter)
      keys ← call Data.iter
      found ← call (scan_keys f keys)
      pure (scan_reply found))

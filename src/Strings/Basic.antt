-- ===== src/Strings/Basic.antt =====
-- commands/basic.py: GET, SETNX, GETDEL, GETSET, APPEND, STRLEN, GETRANGE, SUBSTR, SETRANGE, DEL,
-- EXISTS, TOUCH, and the counters.
use kagni.Prelude.{
  ℕ, zero, suc, ◌+◌, ◌-◌, ◌*◌, ℤ, pos, negsuc, pos_part, ◌+ℤ◌, neg, is_neg, ltb, ltb_ℤ, min, Bool,
  true, false, not, ◌||◌, Option, none, some, List, [], ◌∷◌, ◌++◌, Bytes, ◌==◌, nat_eq, bytes_eq,
  if◌then◌else◌, length, take, drop, is_empty,
}
use kagni.Events.{Event}
use kagni.Data
use kagni.Data.{Clock, Data}
use kagni.Text.{codes, int, print_int, all_digits}
use kagni.Resp.{Error, Reply}
use kagni.Common.Errors.{err_error, wrongtype, not_int, overflow, arity}
use kagni.Common.{
  Stored, string, kind_string, kind_of, Command, Result, ok, err, pure, raise, call, modify,
  raise_if, ◌>>=◌, ◌>>◌, expect_kind, after_write, remove, int64_min, int64_max,
}

abbrev pub max_string_size : ℕ
max_string_size = 512 * 1024 * 1024

abbrev pub string_overflow : Error
string_overflow = err_error (codes "string exceeds maximum allowed size (proto-max-bulk-len)")

abbrev pub range_offset : Error
range_offset = err_error (codes "offset is out of range")

abbrev pub string_of : {Score : Type 0} → Option (Stored Score) → Option Bytes
string_of (some (string b)) = some b
string_of _ = none

abbrev pub bulk_or_null : Option Bytes → Reply
bulk_or_null none = Reply.nil
bulk_or_null (some b) = Reply.bulk b

-- An index of a Python slice, within a sequence of `n` elements.
unfoldable pub slice_index : ℤ → ℕ → ℕ
slice_index i n = if is_neg i then pos_part (i +ℤ pos n) else min (pos_part i) n

-- `val[start:stop]`
unfoldable pub py_slice : ℤ → ℤ → Bytes → Bytes
unfolding slice_index
py_slice start stop val =
    let s = slice_index start (length val) in take (slice_index stop (length val) - s) (drop s val)

-- `_getrange` of a string
unfoldable pub getrange_of : ℤ → ℤ → Bytes → Bytes
unfolding py_slice
getrange_of start end val =
    py_slice start (if is_neg end then pos (length val) +ℤ end +ℤ pos 1 else end +ℤ pos 1) val

unfoldable pub zeros : ℕ → Bytes
zeros zero = []
zeros (suc n) = 0 ∷ zeros n

-- the new string of SETRANGE
unfoldable pub setrange_of : ℕ → Bytes → Bytes → Bytes
unfolding zeros
setrange_of offset value val =
    if ltb (length val) offset
    then val ++ zeros (offset - length val) ++ value
    else take offset val ++ value ++ drop (offset + length value) val

-- `RE_NUMERIC`
unfoldable pub is_numeric : Bytes → Bool
unfolding all_digits
is_numeric [] = false
is_numeric (c ∷ cs) =
    if c == b'-' then (if is_empty cs then false else all_digits cs) else all_digits (c ∷ cs)

abbrev pub fits : ℤ → Bool
fits n = not (ltb_ℤ n int64_min || ltb_ℤ int64_max n)

module _ {Score : Type 0} where
  -- `_string`
  unfoldable pub string_at : Bytes → Command (Stored Score) (Option Bytes)
  unfolding expect_kind
  string_at key = expect_kind key kind_string >>= λ found. pure (string_of found)

  -- `self.data.set(key, val, keep_ttl=keep)`, or without it `self.data[key] = val`
  abbrev pub set_string : Bytes → Bytes → Bool → Command (Stored Score) (Unit {0})
  set_string key val keep c d = (ok tt, Data.set_value key (string val) none keep c d)

  abbrev pub too_long : Bytes → Command (Stored Score) (Unit {0})
  too_long val = raise_if (ltb max_string_size (length val)) string_overflow

  unfoldable pub get : Bytes → Command (Stored Score) Reply
  unfolding string_at
  get key = string_at key >>= λ val. pure (bulk_or_null val)

  unfoldable pub setnx : Bytes → Bytes → Command (Stored Score) Reply
  unfolding after_write
  setnx key val = call (λ c d. (Data.is_live key c d, d)) >>= λ there.
      if there then pure (Reply.num (pos 0)) else do
        too_long val
        set_string key val false
        modify (after_write key Event.set)
        pure (Reply.num (pos 1))

  unfoldable pub getdel : Bytes → Command (Stored Score) Reply
  unfolding string_at after_write
  getdel key = string_at key >>= λ val. elim val [
    | none ↦ pure Reply.nil
    | some v ↦ do remove key; modify (after_write key Event.del); pure (Reply.bulk v)
  ]

  unfoldable pub getset : Bytes → Bytes → Command (Stored Score) Reply
  unfolding string_at after_write
  getset key val = string_at key >>= λ old. do
    too_long val
    modify (Data.set_item key (string val))
    modify (after_write key Event.set)
    pure (bulk_or_null old)

  unfoldable pub append : Bytes → Bytes → Command (Stored Score) Reply
  unfolding string_at after_write
  append key val = string_at key >>= λ current.
      let value : Bytes = elim current [ none ↦ val | some v ↦ v ++ val ] in
      do
        too_long value
        set_string key value true
        modify (after_write key Event.append)
        pure (Reply.num (pos (length value)))

  unfoldable pub strlen : Bytes → Command (Stored Score) Reply
  unfolding string_at
  strlen key = string_at key >>= λ val.
      pure (Reply.num (elim val [ none ↦ pos 0 | some v ↦ pos (length v) ]))

  -- GETRANGE, and SUBSTR with the same body
  unfoldable pub getrange : Bytes → ℤ → ℤ → Command (Stored Score) Reply
  unfolding string_at getrange_of
  getrange key start end = string_at key >>= λ val.
      pure (Reply.bulk (elim val [ none ↦ [] | some v ↦ getrange_of start end v ]))

  unfoldable pub setrange : Bytes → ℤ → Bytes → Command (Stored Score) Reply
  unfolding string_at setrange_of after_write
  setrange key offset value = do
    raise_if (is_neg offset) range_offset
    found ← string_at key
    let old : Bytes = elim found [ none ↦ [] | some v ↦ v ] in
        let val = setrange_of (pos_part offset) value old in
        do
          raise_if (ltb max_string_size (pos_part offset + length value)) string_overflow
          set_string key val true
          modify (after_write key Event.setrange)
          pure (Reply.num (pos (length val)))

  -- The number that a counter has. Where `int` refuses more digits than Python converts, the
  -- dispatcher answers with an internal error.
  unfoldable pub counter_of : Option (Stored Score) → Result ℤ
  unfolding is_numeric int kind_of
  counter_of none = ok (pos 0)
  counter_of (some (string b)) =
      if not (is_numeric b)
      then err not_int
      else elim (int b) [ none ↦ err (err_error (codes "internal error")) | some n ↦ ok n ]
  counter_of (some _) = err wrongtype

  abbrev pub lift : {A : Type 0} → Result A → Command (Stored Score) A
  lift r c d = (r, d)

  -- `_bump`
  unfoldable pub bump : Bytes → ℤ → Command (Stored Score) Reply
  unfolding counter_of after_write print_int
  bump key by = call (Data.get key) >>= λ val. lift (counter_of val) >>= λ current.
      if not (fits (current +ℤ by)) then raise overflow else do
        set_string key (print_int (current +ℤ by)) true
        modify (after_write key Event.incrby)
        pure (Reply.num (current +ℤ by))

  unfoldable pub incrby : Bytes → ℤ → Command (Stored Score) Reply
  unfolding bump
  incrby key i = bump key i

  unfoldable pub incr : Bytes → Command (Stored Score) Reply
  unfolding bump
  incr key = bump key (pos 1)

  unfoldable pub decrby : Bytes → ℤ → Command (Stored Score) Reply
  unfolding bump
  decrby key i = bump key (neg i)

  unfoldable pub decr : Bytes → Command (Stored Score) Reply
  unfolding bump
  decr key = bump key (negsuc 0)

  -- the loop of DEL
  unfoldable pub del_keys : List Bytes → ℕ → Command (Stored Score) Reply
  unfolding after_write
  del_keys [] removed = pure (Reply.num (pos removed))
  del_keys (key ∷ rest) removed =
      let hit : Command (Stored Score) Reply = del_keys rest (removed + 1) in
      let miss : Command (Stored Score) Reply = del_keys rest removed in
      remove key >>= λ n. if n == 0 then miss else (modify (after_write key Event.del) >> hit)

  unfoldable pub del : List Bytes → Command (Stored Score) Reply
  unfolding del_keys
  del keys = raise_if (is_empty keys) (arity (codes "del")) >> del_keys keys 0

  unfoldable pub count_live : List Bytes → Clock → Data (Stored Score) → ℕ
  count_live [] c d = 0
  count_live (key ∷ rest) c d =
      let n = count_live rest c d in if Data.is_live key c d then n + 1 else n

  -- EXISTS
  unfoldable pub exists : List Bytes → Command (Stored Score) Reply
  unfolding count_live
  exists keys = raise_if (is_empty keys) (arity (codes "exists")) >> λ c d.
      (ok (Reply.num (pos (count_live keys c d))), d)

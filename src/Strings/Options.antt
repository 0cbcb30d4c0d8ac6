-- ===== src/Strings/Options.antt =====
-- commands/basic.py: SET with its options, GETEX, SETEX and PSETEX.
use kagni.Prelude.{
  ◌/◌, ◌-◌, ◌^◌, ℤ, pos, ◌+ℤ◌, ◌*ℤ◌, leb_ℤ, ltb_ℤ, floor_div, Bool, true, false, not, ◌&&◌, ◌||◌,
  Option, none, some, is_none, List, [], ◌∷◌, ◌++◌, Bytes, ◌==◌, bytes_eq, if◌then◌else◌,
}
use kagni.Events.{Event}
use kagni.Data
use kagni.Data.{Clock, Data}
use kagni.Text.{codes, upper, print_int}
use kagni.Resp.{Error, Reply}
use kagni.Common.Errors.{err_error, not_int, syntax}
use kagni.Common.{
  Stored, string, Command, Result, ok, err, pure, call, ◌>>=◌, ◌>>◌, after_write, notify, string2ll,
}
use kagni.Strings.Basic.{string_at, too_long, bulk_or_null, lift}

pub data TimeUnit : Type 0 where
  ex px exat pxat : TimeUnit

-- The flags that were seen, and the unit with its raw value.
pub record Options : Type 0 where
  pub nx : Bool
  pub xx : Bool
  pub get : Bool
  pub keep_ttl : Bool
  pub persist : Bool
  pub unit : Option (TimeUnit × Bytes)

abbrev pub no_options : Options
no_options = record {
  nx = false;
  xx = false;
  get = false;
  keep_ttl = false;
  persist = false;
  unit = none;
}

-- the branches of the loop that take one argument
unfoldable pub flag_step : Bool → Bytes → Options → Option Options
flag_step is_set opt o =
    if opt == codes "NX" && is_set && not o.xx
    then some (record o { nx = true })
    else if opt == codes "XX" && is_set && not o.nx
    then some (record o { xx = true })
    else if opt == codes "GET" && is_set
    then some (record o { get = true })
    else if opt == codes "KEEPTTL" && is_set && not o.persist && is_none o.unit
    then some (record o { keep_ttl = true })
    else if opt == codes "PERSIST" && not is_set && not o.keep_ttl && is_none o.unit
    then some (record o { persist = true })
    else none

unfoldable pub unit_of : Bytes → Option TimeUnit
unit_of opt =
    if opt == codes "EX"
    then some ex
    else if opt == codes "PX"
    then some px
    else if opt == codes "EXAT"
    then some exat
    else if opt == codes "PXAT"
    then some pxat
    else none

abbrev same_unit : TimeUnit → TimeUnit → Bool
same_unit ex ex = true
same_unit px px = true
same_unit exat exat = true
same_unit pxat pxat = true
same_unit _ _ = false

abbrev pub no_other_unit : TimeUnit → Option (TimeUnit × Bytes) → Bool
no_other_unit u none = true
no_other_unit u (some (v, _)) = same_unit v u

-- the branch that takes the next argument too
unfoldable pub unit_step : Bytes → Bytes → Options → Option Options
unfolding unit_of
unit_step opt raw o = elim (unit_of opt) [
  | none ↦ none
  | some u ↦
      if not o.keep_ttl && not o.persist && no_other_unit u o.unit
      then some (record o { unit = some (u, raw) })
      else none
]

-- `_parse_extended_options`, with what was seen so far; `true` is SET and `false` GETEX.
unfoldable pub parse_extended_options : Bool → List Bytes → Options → Result Options
unfolding upper flag_step unit_step
parse_extended_options is_set [] o = ok o
parse_extended_options is_set (opt ∷ []) o = elim (flag_step is_set (upper opt) o) [
  | some next ↦ ok next
  | none ↦ err syntax
]
parse_extended_options is_set (opt ∷ raw ∷ rest) o = elim (flag_step is_set (upper opt) o) [
  | some next ↦ parse_extended_options is_set (raw ∷ rest) next
  | none ↦ elim (unit_step (upper opt) raw o) [
    | some next ↦ parse_extended_options is_set rest next
    | none ↦ err syntax
  ]
]

-- `_expire_time_error`
abbrev pub expire_time_error : Bytes → Error
expire_time_error command =
    err_error (codes "invalid expire time in '" ++ command ++ codes "' command")

abbrev pub in_seconds : TimeUnit → Bool
in_seconds ex = true
in_seconds px = false
in_seconds exat = true
in_seconds pxat = false

-- the deadline in milliseconds, of a value in its unit
unfoldable pub deadline_ms : TimeUnit → ℤ → ℤ → ℤ
unfolding floor_div ◌+ℤ◌ ◌*ℤ◌
deadline_ms ex value wall = value *ℤ pos 1000 +ℤ floor_div wall 1_000_000
deadline_ms px value wall = value +ℤ floor_div wall 1_000_000
deadline_ms exat value wall = value *ℤ pos 1000
deadline_ms pxat value wall = value

-- `_expire_wall_deadline`
unfoldable pub expire_wall_deadline : Bytes → TimeUnit → Bytes → ℤ → Result ℤ
unfolding string2ll deadline_ms
expire_wall_deadline command u raw wall = elim (string2ll raw) [
  | none ↦ err not_int
  | some value ↦
      if leb_ℤ value (pos 0) || (in_seconds u && ltb_ℤ (pos ((2 ^ 63 - 1) / 1000)) value)
      then err (expire_time_error command)
      else ok (deadline_ms u value wall *ℤ pos 1_000_000)
]

abbrev pub with_some : Result ℤ → Result (Option ℤ)
with_some (ok t) = ok (some t)
with_some (err e) = err e

unfoldable pub option_deadline : Bytes → Options → ℤ → Result (Option ℤ)
unfolding expire_wall_deadline
option_deadline command o wall = elim o.unit [
  | none ↦ ok none
  | some (u, raw) ↦ with_some (expire_wall_deadline command u raw wall)
]

-- the reply of a SET that has written
abbrev pub set_reply : Bool → Option Bytes → Reply
set_reply asked (some v) = Reply.bulk v
set_reply asked none = if asked then Reply.nil else Reply.ok

abbrev pub blocked : Options → Bool → Bool
blocked o found = (o.nx && found) || (o.xx && not found)

-- a change of the store that reads the clocks
abbrev pub write : {V : Type 0} → (Clock → Data V → Data V) → Command V (Unit {0})
write f c d = (ok tt, f c d)

module _ {Score : Type 0} where
  abbrev pub noted : Bytes → Option ℤ → Data (Stored Score) → Data (Stored Score)
  noted key none d = d
  noted key (some _) d = notify key Event.expire d

  -- the write of a SET that no option blocks
  unfoldable pub write_string :
      Bytes → Bytes → Option ℤ → Bool → Clock → Data (Stored Score) → Data (Stored Score)
  unfolding after_write notify
  write_string key val deadline keep c d =
      noted key deadline
        (after_write key Event.set (Data.set_value key (string val) deadline keep c d))

  unfoldable pub set_command : Bytes → Bytes → List Bytes → Command (Stored Score) Reply
  unfolding parse_extended_options option_deadline string_at write_string
  set_command key val options = do
    o ← lift (parse_extended_options true options no_options)
    deadline ← (λ c d. (option_deadline (codes "set") o c.wall, d))
    old ← (if o.get then string_at key else pure none)
    found ← call (λ c d. (Data.is_live key c d, d))
    if blocked o found then pure (bulk_or_null old) else (do
      too_long val
      write (write_string key val deadline o.keep_ttl)
      pure (set_reply o.get old))

  abbrev with_ttl : Bytes → Bytes → Bytes → TimeUnit → ℤ → Command (Stored Score) Reply
  with_ttl command key val u n = do
    deadline ← (λ c d. (expire_wall_deadline command u (print_int n) c.wall, d))
    write (write_string key val (some deadline) false)
    pure Reply.ok

  unfoldable pub setex : Bytes → ℤ → Bytes → Command (Stored Score) Reply
  unfolding expire_wall_deadline write_string print_int
  setex key secs val = with_ttl (codes "setex") key val ex secs

  unfoldable pub psetex : Bytes → ℤ → Bytes → Command (Stored Score) Reply
  unfolding expire_wall_deadline write_string print_int
  psetex key ms val = with_ttl (codes "psetex") key val px ms

  -- GETEX of a value that was found, with a unit
  unfoldable pub reset_deadline : Bytes → Bytes → TimeUnit → Bytes → Command (Stored Score) Reply
  unfolding expire_wall_deadline after_write
  reset_deadline key val u raw = do
    deadline ← (λ c d. (expire_wall_deadline (codes "getex") u raw c.wall, d))
    write (λ c d.
        if leb_ℤ deadline c.wall
        then after_write key Event.del (Data.remove key c d).1
        else after_write key Event.expire
            (Data.set_value key (string val) (some deadline) false c d))
    pure (Reply.bulk val)

  unfoldable pub getex : Bytes → List Bytes → Command (Stored Score) Reply
  unfolding parse_extended_options string_at reset_deadline after_write
  getex key options = do
    o ← lift (parse_extended_options false options no_options)
    found ← string_at key
    elim found [
      | none ↦ pure Reply.nil
      | some val ↦
          if o.persist
          then (λ c d.
              (ok (Reply.bulk val), after_write key Event.persist (Data.persist key c d).1))
          else elim o.unit [
            | none ↦ pure (Reply.bulk val)
            | some (u, raw) ↦ reset_deadline key val u raw
          ]
    ]

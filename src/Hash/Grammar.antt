-- ===== src/Hash/Grammar.antt =====
-- commands/hash.py: the arguments of HEXPIRE and its kin, and of HTTL and its kin.
use kagni.Prelude.{
  ℕ, ◌-◌, ◌^◌, ℤ, pos, pos_part, ◌-ℤ◌, ◌*ℤ◌, ltb_ℤ, beq_ℤ, is_neg, nat_beq, floor_div, Bool, true,
  false, not, Option, none, some, List, [], ◌∷◌, ◌++◌, Bytes, bytes_eq, ◌==◌, if◌then◌else◌, length,
}
use kagni.Text.{codes, upper}
use kagni.Resp.{Error}
use kagni.Common.Errors.{err_error, arity, not_int}
use kagni.Common.{Result, ok, err, string2ll}

abbrev pub field_ttl_max_ms : ℤ
field_ttl_max_ms = pos (2 ^ 46 - 1)

pub data ExpireCommand : Type 0 where
  hexpire hpexpire hexpireat hpexpireat : ExpireCommand

abbrev pub command_name : ExpireCommand → Bytes
command_name hexpire = codes "hexpire"
command_name hpexpire = codes "hpexpire"
command_name hexpireat = codes "hexpireat"
command_name hpexpireat = codes "hpexpireat"

-- `_FIELD_TTL_COMMANDS`, as the number of milliseconds of a unit
abbrev pub unit_ms : ExpireCommand → ℕ
unit_ms hexpire = 1000
unit_ms hpexpire = 1
unit_ms hexpireat = 1000
unit_ms hpexpireat = 1

abbrev pub absolute : ExpireCommand → Bool
absolute hexpire = false
absolute hpexpire = false
absolute hexpireat = true
absolute hpexpireat = true

-- at most one of `nx`, `xx`, `gt` and `lt`
pub data Flag : Type 0 where
  no_flag nx xx gt lt : Flag

unfoldable pub flag_of : Bytes → Option Flag
flag_of opt =
    if opt == codes "NX"
    then some nx
    else if opt == codes "XX"
    then some xx
    else if opt == codes "GT"
    then some gt
    else if opt == codes "LT"
    then some lt
    else none

abbrev pub fields_missing : Error
fields_missing =
    err_error (codes "Mandatory argument FIELDS is missing or not at the right position")

abbrev pub numfields_positive : Error
numfields_positive = err_error (codes "Parameter `numFields` should be greater than 0")

abbrev pub numfields_integer : Error
numfields_integer = err_error (codes "Number of fields must be a positive integer")

abbrev pub numfields_match : Error
numfields_match = err_error (codes "The `numfields` parameter must match the number of arguments")

abbrev pub expire_negative : Error
expire_negative = err_error (codes "invalid expire time, must be >= 0")

abbrev pub expire_invalid : Bytes → Error
expire_invalid command =
    err_error (codes "invalid expire time in '" ++ command ++ codes "' command")

-- The fields after their number, of which the command wants exactly so many.
unfoldable pub counted_fields : Bytes → Error → List Bytes → Result (List Bytes)
unfolding string2ll
counted_fields command bad [] = err (arity command)
counted_fields command bad (raw ∷ rest) = elim (string2ll raw) [
  | none ↦ err bad
  | some numfields ↦
      if beq_ℤ numfields (pos 0)
      then err (arity command)
      else if is_neg numfields
      then err bad
      else if nat_beq (length rest) (pos_part numfields)
      then ok rest
      else err numfields_match
]

-- The loop over the tokens before FIELDS, `flag` being what it has seen, and the fields after it.
unfoldable pub parse_flags : Bytes → Flag → List Bytes → Result (Flag × List Bytes)
unfolding upper flag_of counted_fields
parse_flags command flag [] = err (arity command)
parse_flags command flag (arg ∷ rest) =
    let first : Flag = elim (flag_of (upper arg)) [ none ↦ no_flag | some f ↦ f ] in
    let more = parse_flags command first rest in
    if upper arg == codes "FIELDS"
    then elim (counted_fields command numfields_positive rest) [
      | ok fields ↦ ok (flag, fields)
      | err e ↦ err e
    ]
    else elim (flag_of (upper arg)) [
      | none ↦ err fields_missing
      | some f ↦ elim flag [ no_flag ↦ more | _ ↦ err fields_missing ]
    ]

pub record FieldTtl : Type 0 where
  pub when_ms : ℤ
  pub flag : Flag
  pub fields : List Bytes

abbrev pub with_when : ℤ → Result (Flag × List Bytes) → Result FieldTtl
with_when when_ms (err e) = err e
with_when when_ms (ok (flag, fields)) =
    ok (record { when_ms = when_ms; flag = flag; fields = fields })

-- `_parse_field_ttl_args`, at a wall clock that shows `now` nanoseconds
unfoldable pub parse_field_ttl_args : List Bytes → ExpireCommand → ℤ → Result FieldTtl
unfolding string2ll floor_div parse_flags
parse_field_ttl_args [] command now = err (arity (command_name command))
parse_field_ttl_args (raw ∷ rest) command now = elim (string2ll raw) [
  | none ↦ err not_int
  | some when ↦
      let when_ms = when *ℤ pos (unit_ms command) in
      let ceiling : ℤ =
        if absolute command then field_ttl_max_ms else field_ttl_max_ms -ℤ floor_div now (10 ^ 6) in
      if is_neg when
      then err expire_negative
      else if ltb_ℤ ceiling when_ms
      then err (expire_invalid (command_name command))
      else with_when when_ms (parse_flags (command_name command) no_flag rest)
]

-- the grammar `FIELDS numfields field ...`
unfoldable pub parse_fields : Bytes → List Bytes → Result (List Bytes)
unfolding upper counted_fields
parse_fields command [] = err (arity command)
parse_fields command (word ∷ []) = err (arity command)
parse_fields command (word ∷ raw ∷ rest) =
    if not (upper word == codes "FIELDS")
    then err (arity command)
    else counted_fields command numfields_integer (raw ∷ rest)

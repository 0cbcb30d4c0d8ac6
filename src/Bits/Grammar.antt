-- ===== src/Bits/Grammar.antt =====
-- commands/bit.py: the arguments of BITFIELD.
use kagni.Prelude.{
  ℕ, ◌-◌, ◌*◌, ◌^◌, ltb, ℤ, pos, negsuc, Bool, not, ◌&&◌, ◌||◌, Option, none, some, List, [], ◌∷◌,
  Bytes, ◌==◌, nat_eq, bytes_eq, is_empty, if◌then◌else◌,
}
use kagni.Text.{codes, upper, all_digits, digits_value}
use kagni.Resp.{Error}
use kagni.Common.Errors.{err_error, not_int, syntax}
use kagni.Common.{Result, ok, err, string2ll}
use kagni.Bits.Field.{Overflow, wrap, sat, fail, Sub, get_sub, set_sub, incrby_sub}

abbrev pub bit_offset : Error
bit_offset = err_error (codes "bit offset is not an integer or out of range")

abbrev bitfield_type_invalid : Error
bitfield_type_invalid = err_error (
    codes
      "Invalid bitfield type. Use something like i16 u8. Note that u64 is not supported but i64 is.")

abbrev bitfield_mode : Error
bitfield_mode = err_error (codes "Invalid OVERFLOW type specified")

abbrev ro_only : Error
ro_only = err_error (codes "BITFIELD_RO only supports the GET subcommand")

abbrev pub max_offset : ℕ
max_offset = 2 ^ 32 - 1

-- `_bitfield_type`: the sign and the width
unfoldable pub bitfield_type : Bytes → Option (Bool × ℕ)
unfolding all_digits digits_value
bitfield_type [] = none
bitfield_type (c ∷ digits) =
    let signed = c == b'i' in
    let width = digits_value digits 0 in
    if not (signed || c == b'u') || is_empty digits || not (all_digits digits)
    then none
    else if ltb width 1 || ltb 64 width || (not signed && width == 64)
    then none
    else some (signed, width)

unfoldable pub offset_value : Option ℤ → Result ℕ
offset_value none = err bit_offset
offset_value (some (pos offset)) = if ltb max_offset offset then err bit_offset else ok offset
offset_value (some (negsuc _)) = err bit_offset

-- `_bitfield_offset`
unfoldable pub bitfield_offset : Bytes → ℕ → Result ℕ
unfolding string2ll offset_value
bitfield_offset [] width = offset_value (string2ll [])
bitfield_offset (c ∷ raw) width =
    if c == b'#'
    then elim (offset_value (string2ll raw)) [ ok n ↦ ok (n * width) | err e ↦ err e ]
    else offset_value (string2ll (c ∷ raw))

unfoldable pub mode_of : Bytes → Option Overflow
mode_of name =
    if name == codes "WRAP"
    then some wrap
    else if name == codes "SAT"
    then some sat
    else if name == codes "FAIL"
    then some fail
    else none

pub data OptionName : Type 0 where
  overflow_option get_option set_option incrby_option unknown_option : OptionName

unfoldable pub option_name : Bytes → OptionName
option_name opt =
    if opt == codes "OVERFLOW"
    then overflow_option
    else if opt == codes "GET"
    then get_option
    else if opt == codes "SET"
    then set_option
    else if opt == codes "INCRBY"
    then incrby_option
    else unknown_option

-- the type and the offset of a subcommand
unfoldable pub sub_place : Bytes → Bytes → Result ((Bool × ℕ) × ℕ)
unfolding bitfield_type bitfield_offset
sub_place kind offset = elim (bitfield_type kind) [
  | none ↦ err bitfield_type_invalid
  | some (signed, width) ↦ elim (bitfield_offset offset width) [
    | ok n ↦ ok ((signed, width), n)
    | err e ↦ err e
  ]
]

unfoldable pub read_sub : Bytes → Bytes → Result Sub
unfolding sub_place
read_sub kind offset = elim (sub_place kind offset) [
  | ok ((signed, width), n) ↦ ok (get_sub signed width n)
  | err e ↦ err e
]

unfoldable pub write_sub :
    Bool → (Bool → ℕ → ℕ → ℤ → Overflow → Sub) → Overflow → Bytes → Bytes → Bytes → Result Sub
unfolding sub_place string2ll
write_sub ro make mode kind offset raw = elim (sub_place kind offset) [
  | ok ((signed, width), n) ↦ if ro then err ro_only else (elim (string2ll raw) [
    | none ↦ err not_int
    | some amount ↦ ok (make signed width n amount mode)
  ])
  | err e ↦ err e
]

abbrev followed_by : Result Sub → Result (List Sub) → Result (List Sub)
followed_by (err e) more = err e
followed_by (ok sub) (err e) = err e
followed_by (ok sub) (ok more) = ok (sub ∷ more)

-- The parse loop of `_bitfield`, with the OVERFLOW mode so far.
unfoldable pub parse_subs : Bool → Overflow → List Bytes → Result (List Sub)
unfolding upper option_name mode_of read_sub write_sub
parse_subs ro mode [] = ok []
parse_subs ro mode (opt ∷ []) = err syntax
parse_subs ro mode (opt ∷ a ∷ []) = elim (option_name (upper opt)) [
  | overflow_option ↦ elim (mode_of (upper a)) [ none ↦ err bitfield_mode | some _ ↦ ok [] ]
  | get_option ↦ err syntax
  | set_option ↦ err syntax
  | incrby_option ↦ err syntax
  | unknown_option ↦ err syntax
]
parse_subs ro mode (opt ∷ a ∷ b ∷ []) = elim (option_name (upper opt)) [
  | overflow_option ↦ elim (mode_of (upper a)) [ none ↦ err bitfield_mode | some _ ↦ err syntax ]
  | get_option ↦ followed_by (read_sub a b) (ok [])
  | set_option ↦ err syntax
  | incrby_option ↦ err syntax
  | unknown_option ↦ err syntax
]
parse_subs ro mode (opt ∷ a ∷ b ∷ e ∷ rest) = elim (option_name (upper opt)) [
  | overflow_option ↦ elim (mode_of (upper a)) [
    | none ↦ err bitfield_mode
    | some next ↦ parse_subs ro next (b ∷ e ∷ rest)
  ]
  | get_option ↦ followed_by (read_sub a b) (parse_subs ro mode (e ∷ rest))
  | set_option ↦ followed_by (write_sub ro set_sub mode a b e) (parse_subs ro mode rest)
  | incrby_option ↦ followed_by (write_sub ro incrby_sub mode a b e) (parse_subs ro mode rest)
  | unknown_option ↦ err syntax
]

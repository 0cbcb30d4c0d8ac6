-- ===== src/Common/Integer.antt =====
-- commands/common.py: `string2ll`, the integer arguments of the commands.
use kagni.Prelude.{
  ◌-◌, ◌^◌, ℤ, pos, negsuc, neg, ltb_ℤ, Bool, ◌||◌, not, Option, none, some, [], ◌∷◌, Bytes, ◌==◌,
  nat_eq, bytes_eq, if◌then◌else◌,
}
use kagni.Text.{codes, all_digits, digits_value}

abbrev pub int64_min : ℤ
int64_min = negsuc (2 ^ 63 - 1)

abbrev pub int64_max : ℤ
int64_max = pos (2 ^ 63 - 1)

-- The tests of `string2ll` on the digits, and the range of the result.
unfoldable pub digits_ll : Bool → Bytes → Option ℤ
digits_ll negative [] = none
digits_ll negative (d ∷ ds) =
    if d == b'0'
    then none
    else if not (all_digits (d ∷ ds))
    then none
    else let value : ℤ =
        if negative then neg (pos (digits_value (d ∷ ds) 0)) else pos (digits_value (d ∷ ds) 0) in
      if ltb_ℤ value int64_min || ltb_ℤ int64_max value then none else some value

-- `none` is the ValueError.
unfoldable pub string2ll : Bytes → Option ℤ
unfolding digits_ll
string2ll [] = none
string2ll (c ∷ cs) =
    if (c ∷ cs) == codes "0"
    then some (pos 0)
    else if c == b'-'
    then digits_ll Bool.true cs
    else digits_ll Bool.false (c ∷ cs)

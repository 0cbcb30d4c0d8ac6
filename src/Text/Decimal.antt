-- ===== src/Text/Decimal.antt =====
-- Decimal numbers as Python reads and writes them: `int(raw)` and `b"%d" % n`.
use kagni.Prelude.{
  ℕ, zero, suc, ◌+◌, ◌-◌, ◌*◌, ◌/◌, ◌%◌, ℤ, pos, negsuc, neg, Bool, true, false, ◌&&◌, ◌||◌, Option,
  none, some, [], ◌∷◌, Bytes, leb, ltb, ◌==◌, nat_eq, if◌then◌else◌, ◌≡◌, refl,
}
use kagni.Text.Ascii.{strip, codes}

unfoldable pub is_digit : ℕ → Bool
is_digit c = leb b'0' c && leb c b'9'

unfoldable pub all_digits : Bytes → Bool
unfolding is_digit
all_digits [] = true
all_digits (c ∷ s) = is_digit c && all_digits s

-- The number that a row of digits stands for, read on from `n`.
unfoldable pub digits_value : Bytes → ℕ → ℕ
digits_value [] n = n
digits_value (c ∷ s) n = digits_value s (n * 10 + (c - b'0'))

-- The digits of `n` before `out`; `n` rounds are enough, since each divides by ten.
unfoldable pub print_digits : ℕ → ℕ → Bytes → Bytes
print_digits zero n out = out
print_digits (suc f) n out =
    let rest = print_digits f (n / 10) ((b'0' + n % 10) ∷ out) in if n == 0 then out else rest

unfoldable pub print_ℕ : ℕ → Bytes
unfolding print_digits
print_ℕ n = if n == 0 then b'0' ∷ [] else print_digits n n []

-- `b"%d" % n`
unfoldable pub print_int : ℤ → Bytes
unfolding print_ℕ
print_int (pos n) = print_ℕ n
print_int (negsuc n) = b'-' ∷ print_ℕ (suc n)

-- The digits of `int(raw)`, with single underscores between digits; `after_digit` says whether a
-- digit has just been read.
unfoldable pub scan_digits : Bool → Bytes → ℕ → Option ℕ
unfolding is_digit
scan_digits after_digit [] n = if after_digit then some n else none
scan_digits after_digit (c ∷ s) n =
    let rest = scan_digits (is_digit c) s (if is_digit c then n * 10 + (c - b'0') else n) in
    if is_digit c || (c == b'_' && after_digit) then rest else none

unfoldable pub count_digits : Bytes → ℕ
unfolding is_digit
count_digits [] = 0
count_digits (c ∷ s) = (if is_digit c then 1 else 0) + count_digits s

-- Python refuses to convert more than 4300 digits.
unfoldable pub scan_number : Bytes → Option ℕ
unfolding scan_digits count_digits
scan_number s = if ltb 4300 (count_digits s) then none else scan_digits false s 0

unfoldable pub scan_signed : Bytes → Option ℤ
unfolding scan_number
scan_signed [] = none
scan_signed (c ∷ s) =
    if c == b'-'
    then elim (scan_number s) [ none ↦ none | some n ↦ some (neg (pos n)) ]
    else if c == b'+'
    then elim (scan_number s) [ none ↦ none | some n ↦ some (pos n) ]
    else elim (scan_number (c ∷ s)) [ none ↦ none | some n ↦ some (pos n) ]

-- `int(raw)`; `none` is the ValueError.
unfoldable pub int : Bytes → Option ℤ
unfolding strip scan_signed
int raw = scan_signed (strip raw)

int_runs : int (codes " -1_0\r") ≡ some (negsuc 9)
unfolding int
int_runs = refl

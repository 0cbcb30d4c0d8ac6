-- ===== src/Text/Print.antt =====
-- What is printed in decimal reads back.
use native.Mathlib.Nat.{pow-suc}
use mathlib.Core.List.{reverse-cons, reverse-reverse}
use kagni.Prelude.{
  ℕ, zero, suc, ◌+◌, ◌-◌, ◌*◌, ◌/◌, ◌%◌, ◌≤◌, ◌<◌, ◌^◌, ℤ, pos, negsuc, Bool, true, not, ◌&&◌, some,
  [], ◌∷◌, ◌++◌, Bytes, bytes_eq, nat_eq, nat_beq, ◌≡◌, refl, arith, Bool-cases, inl, inr, length,
  reverse, ◌∙◌, ap,
}
use kagni.Text.Decimal.{
  is_digit, all_digits, digits_value, print_digits, print_ℕ, print_int, scan_digits, count_digits,
  scan_number, scan_signed, int,
}
use kagni.Text.Ascii.{is_space, strip_left, strip}

digits_value-print_digits :
    (f n : ℕ) (out : Bytes) → n ≤ f → digits_value (print_digits f n out) 0 ≡ digits_value out n
unfolding digits_value print_digits
digits_value-print_digits zero n out h = ap (digits_value out) (omega arith)
digits_value-print_digits (suc f) n out h = elim (Bool-cases (nat_beq n 0)) [
  | inl done ↦ rw done (ap (digits_value out) (ground arith))
  | inr more ↦ rw more (
      digits_value-print_digits f (n / 10) ((b'0' + n % 10) ∷ out) (ground arith)
      ∙ ap (digits_value out) (omega arith))
]

all_digits-print_digits :
    (f n : ℕ) (out : Bytes) → all_digits (print_digits f n out) ≡ all_digits out
unfolding all_digits print_digits
all_digits-print_digits zero n out = refl
all_digits-print_digits (suc f) n out =
    ground (arith, all_digits-print_digits f (n / 10) ((b'0' + n % 10) ∷ out))

-- the first digit, if there is one
abbrev pub head_or : ℕ → Bytes → ℕ
head_or d [] = d
head_or d (c ∷ s) = c

pub print_digits-zero : (f : ℕ) (out : Bytes) → print_digits f 0 out ≡ out
unfolding print_digits
print_digits-zero zero out = refl
print_digits-zero (suc f) out = refl

-- A positive number is printed without a leading zero.
pub print_digits_leading :
    (f n : ℕ) (out : Bytes)
    → n ≤ f
    → 0 < n
    → (b'0' < head_or 0 (print_digits f n out)) × (head_or 0 (print_digits f n out) ≤ b'9')
unfolding print_digits
print_digits_leading zero n out h p = absurd (omega arith)
print_digits_leading (suc f) n out h p = elim (Bool-cases (nat_beq (n / 10) 0)) [
  | inl last ↦ let e : n / 10 ≡ 0 = ground arith in rw (e, print_digits-zero) (ground arith)
  | inr more ↦ ground (arith, print_digits_leading f (n / 10) ((b'0' + n % 10) ∷ out))
]

tenth_below : (k n : ℕ) → n < 10 ^ suc k → n / 10 < 10 ^ k
tenth_below k n h = omega (arith, pow-suc 10 k)

length-print_digits :
    (k f n : ℕ) (out : Bytes) → n < 10 ^ k → length (print_digits f n out) ≤ k + length out
unfolding print_digits
length-print_digits k zero n out h = omega arith
length-print_digits zero (suc f) n out h = ground arith
length-print_digits (suc k) (suc f) n out h =
    ground (arith, length-print_digits k f (n / 10) ((b'0' + n % 10) ∷ out) (tenth_below k n h))

no_spaces : Bytes → Bool
no_spaces [] = true
no_spaces (c ∷ s) = not (is_space c) && no_spaces s

no_spaces-append : (s t : Bytes) → no_spaces (s ++ t) ≡ (no_spaces s && no_spaces t)
unfolding no_spaces
no_spaces-append [] t = refl
no_spaces-append (c ∷ s) t = ground (arith, no_spaces-append s t)

no_spaces-reverse : (s : Bytes) → no_spaces (reverse s) ≡ no_spaces s
unfolding no_spaces
no_spaces-reverse [] = refl
no_spaces-reverse (c ∷ s) =
    rw (reverse-cons, no_spaces-append) (ground (arith, no_spaces-reverse s))

strip_left-no_spaces : (s : Bytes) → no_spaces s ≡ true → strip_left s ≡ s
unfolding no_spaces strip_left
strip_left-no_spaces [] h = refl
strip_left-no_spaces (c ∷ s) h = ground arith

strip-no_spaces : (s : Bytes) → no_spaces s ≡ true → strip s ≡ s
unfolding strip
strip-no_spaces s h =
    rw (strip_left-no_spaces s h, strip_left-no_spaces (reverse s) (no_spaces-reverse s ∙ h))
      (reverse-reverse s)

all_digits-no_spaces : (s : Bytes) → all_digits s ≡ true → no_spaces s ≡ true
unfolding no_spaces all_digits is_digit is_space
all_digits-no_spaces [] h = refl
all_digits-no_spaces (c ∷ s) h = ground (arith, all_digits-no_spaces s)

scan_digits-eq :
    (s : Bytes) (n : ℕ) → all_digits s ≡ true → scan_digits true s n ≡ some (digits_value s n)
unfolding scan_digits all_digits digits_value
scan_digits-eq [] n h = refl
scan_digits-eq (c ∷ s) n h = ground (arith, scan_digits-eq s (n * 10 + (c - b'0')))

count_digits-le : (s : Bytes) → count_digits s ≤ length s
unfolding count_digits
count_digits-le [] = omega arith
count_digits-le (c ∷ s) = ground (arith, count_digits-le s)

scan_number-digits :
    (s : Bytes)
    → all_digits s ≡ true
    → 0 < length s
    → length s ≤ 4300
    → scan_number s ≡ some (digits_value s 0)
unfolding scan_number scan_digits all_digits digits_value
scan_number-digits [] h p q = absurd (omega arith)
scan_number-digits (c ∷ s) h p q =
    ground (arith, count_digits-le (c ∷ s), scan_digits-eq s (0 * 10 + (c - b'0')))

pub all_digits-print_ℕ : (n : ℕ) → all_digits (print_ℕ n) ≡ true
unfolding print_ℕ all_digits is_digit
all_digits-print_ℕ n = ground (arith, all_digits-print_digits n n [])

pub digits_value-print_ℕ : (n : ℕ) → digits_value (print_ℕ n) 0 ≡ n
unfolding print_ℕ digits_value
digits_value-print_ℕ n = ground (arith, digits_value-print_digits n n [])

head_or-nonempty : (s : Bytes) → b'0' < head_or 0 s → 0 < length s
head_or-nonempty [] h = absurd (omega arith)
head_or-nonempty (c ∷ s) h = omega arith

pub print_ℕ-nonempty : (n : ℕ) → 0 < length (print_ℕ n)
unfolding print_ℕ
print_ℕ-nonempty n =
    ground (arith, print_digits_leading n n [], head_or-nonempty (print_digits n n []))

scan_number-print_ℕ : (n : ℕ) → length (print_ℕ n) ≤ 4300 → scan_number (print_ℕ n) ≡ some n
scan_number-print_ℕ n h =
    scan_number-digits (print_ℕ n) (all_digits-print_ℕ n) (print_ℕ-nonempty n) h
    ∙ ap some (digits_value-print_ℕ n)

scan_signed-digits :
    (s : Bytes) (n : ℕ)
    → all_digits s ≡ true
    → 0 < length s
    → scan_number s ≡ some n
    → scan_signed s ≡ some (pos n)
unfolding scan_signed all_digits is_digit
scan_signed-digits [] n h p e = absurd (omega arith)
scan_signed-digits (c ∷ s) n h p e = ground arith

-- `int(b"%d" % n)` is `n`, for every integer that Python converts (4300 characters at most).
pub int-print_int : (v : ℤ) → length (print_int v) ≤ 4300 → int (print_int v) ≡ some v
unfolding int print_int scan_signed
int-print_int (pos n) h =
    rw (strip-no_spaces (print_ℕ n) (all_digits-no_spaces (print_ℕ n) (all_digits-print_ℕ n))) (
      scan_signed-digits (print_ℕ n) n (all_digits-print_ℕ n) (print_ℕ-nonempty n)
        (scan_number-print_ℕ n h))
int-print_int (negsuc n) h =
    rw
      (
        strip-no_spaces (b'-' ∷ print_ℕ (suc n)) (
            unfold no_spaces is_space in
            all_digits-no_spaces (print_ℕ (suc n)) (all_digits-print_ℕ (suc n))),
        scan_number-print_ℕ (suc n) (omega arith),
      )
      (ground arith)

-- Every integer of 64 bits is printed in 20 characters at most.
pub length-print_ℕ : (n : ℕ) → n < 2 ^ 64 → length (print_ℕ n) ≤ 20
unfolding print_ℕ
length-print_ℕ n h = ground (arith, length-print_digits 20 n n [] (omega arith))

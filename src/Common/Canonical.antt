-- ===== src/Common/Canonical.antt =====
-- `string2ll` reads exactly the decimal notation that Python prints, of the integers of 64 bits.
use mathlib.Core.List.{append-nil}
use kagni.Prelude.{
  ℕ, zero, suc, ◌+◌, ◌-◌, ◌*◌, ◌/◌, ◌%◌, ◌≤◌, ◌<◌, ℤ, pos, negsuc, neg, Bool, true, false, some, [],
  ◌∷◌, ◌++◌, Bytes, ◌==◌, nat_eq, bytes_eq, bytes_beq, bytes_beq_iff, nat_beq, ◌≡◌, ◌≢◌, ◌↔◌, refl,
  sym, ap, ◌∙◌, arith, if◌then◌else◌, ◌≤ℤ◌, Bool-cases, inl, inr,
}
use kagni.Text.{codes, is_digit, all_digits, digits_value, print_digits, print_ℕ, print_int}
use kagni.Text.Print.{
  all_digits-print_ℕ, digits_value-print_ℕ, head_or, print_digits-zero, print_digits_leading,
}
use kagni.Common.Integer.{digits_ll, string2ll, int64_min, int64_max}

print_digits_fuel :
    (f g n : ℕ) (out : Bytes) → n ≤ f → n ≤ g → print_digits f n out ≡ print_digits g n out
unfolding print_digits
print_digits_fuel zero zero n out a b = refl
print_digits_fuel zero (suc g) n out a b = ground arith
print_digits_fuel (suc f) zero n out a b = ground arith
print_digits_fuel (suc f) (suc g) n out a b =
    ground (arith, print_digits_fuel f g (n / 10) ((b'0' + n % 10) ∷ out))

digits_value_mono : (s : Bytes) (n : ℕ) → n ≤ digits_value s n
unfolding digits_value
digits_value_mono [] n = omega arith
digits_value_mono (c ∷ s) n = omega (arith, digits_value_mono s (n * 10 + (c - b'0')))

-- One more digit is printed last.
print_digits_step :
    (f n c : ℕ) (out : Bytes)
    → is_digit c ≡ true
    → 0 < n * 10 + (c - b'0')
    → n * 10 + (c - b'0') ≤ f
    → print_digits f (n * 10 + (c - b'0')) out ≡ print_digits f n (c ∷ out)
unfolding print_digits is_digit
print_digits_step zero n c out d p b = absurd (omega arith)
print_digits_step (suc f) n c out d p b =
    let m = n * 10 + (c - b'0') in
    let some_digit : nat_beq m 0 ≡ false = ground arith in
    let quotient : m / 10 ≡ n = ground arith in
    let digit : b'0' + m % 10 ≡ c = ground arith in
    rw (some_digit, quotient, digit)
      (print_digits_fuel f (suc f) n (c ∷ out) (omega arith) (omega arith))

print_digits-digits_value :
    (s : Bytes) (n f : ℕ) (out : Bytes)
    → all_digits s ≡ true
    → 0 < n
    → digits_value s n ≤ f
    → print_digits f (digits_value s n) out ≡ print_digits f n (s ++ out)
unfolding digits_value all_digits
print_digits-digits_value [] n f out d p b = refl
print_digits-digits_value (c ∷ s) n f out d p b =
    let m = n * 10 + (c - b'0') in
    print_digits-digits_value s m f out (ground arith) (omega arith) b
    ∙ print_digits_step f n c (s ++ out) (ground arith) (omega arith)
        (omega (arith, digits_value_mono s m))

-- A row of digits without a leading zero is printed from its value.
print_ℕ-digits_value :
    (d : ℕ) (s : Bytes)
    → all_digits (d ∷ s) ≡ true
    → b'0' < d
    → (print_ℕ (digits_value (d ∷ s) 0) ≡ d ∷ s) × (0 < digits_value (d ∷ s) 0)
unfolding digits_value all_digits is_digit print_ℕ
print_ℕ-digits_value d s h p =
    let n = 0 * 10 + (d - b'0') in
    let v = digits_value s n in
    let positive : 0 < v = omega (arith, digits_value_mono s n) in
    let nonzero : nat_beq v 0 ≡ false = ground arith in
    let digits : all_digits s ≡ true = ground arith in
    let first : is_digit d ≡ true = ground arith in
    (
      rw nonzero (
          print_digits-digits_value s n v [] digits (omega arith) (omega arith)
          ∙ print_digits_step v 0 d (s ++ []) first (omega arith)
              (omega (arith, digits_value_mono s n))
          ∙ print_digits-zero v (d ∷ s ++ [])
          ∙ ap (λ t. d ∷ t) (append-nil s)),
      positive,
    )

abbrev pub IsInt64 : ℤ → Type 0
IsInt64 n = (int64_min ≤ℤ n) × (n ≤ℤ int64_max)

abbrev signed : Bool → ℕ → ℤ
signed negative v = if negative then neg (pos v) else pos v

first_digit : (d : ℕ) (ds : Bytes) → all_digits (d ∷ ds) ≡ true → d ≢ b'0' → b'0' < d
unfolding all_digits is_digit
first_digit d ds h ne = ground arith

digits_ll_sound :
    (negative : Bool) (ds : Bytes) (n : ℤ)
    → digits_ll negative ds ≡ some n
    → (v : ℕ) × (0 < v) × (ds ≡ print_ℕ v) × (n ≡ signed negative v) × IsInt64 n
unfolding digits_ll
digits_ll_sound negative [] n h = cc
digits_ll_sound negative (d ∷ ds) n h =
    let v = digits_value (d ∷ ds) 0 in
    let digits : all_digits (d ∷ ds) ≡ true = ground arith in
    let first : b'0' < d = first_digit d ds digits (ground arith) in
    let (printed, positive) = print_ℕ-digits_value d ds digits first in
    let value : n ≡ signed negative v = ground arith in
    (v, positive, sym printed, value, (ground arith, ground arith))

digits_ll_complete :
    (negative : Bool) (ds : Bytes)
    → all_digits ds ≡ true
    → b'0' < head_or 0 ds
    → IsInt64 (signed negative (digits_value ds 0))
    → digits_ll negative ds ≡ some (signed negative (digits_value ds 0))
unfolding digits_ll
digits_ll_complete negative [] h p r = absurd (omega arith)
digits_ll_complete negative (d ∷ ds) h p r = ground arith

print_ℕ_leading : (v : ℕ) → 0 < v → b'0' < head_or 0 (print_ℕ v)
unfolding print_ℕ
print_ℕ_leading v p = ground (arith, print_digits_leading v v [])

digits_ll-print :
    (negative : Bool) (v : ℕ)
    → 0 < v
    → IsInt64 (signed negative v)
    → digits_ll negative (print_ℕ v) ≡ some (signed negative v)
digits_ll-print negative v p r =
    let e = digits_value-print_ℕ v in
    digits_ll_complete negative (print_ℕ v) (all_digits-print_ℕ v) (print_ℕ_leading v p) (rw e r)
    ∙ ap (λ k. some (signed negative k)) e

-- a printed positive number is neither "0" nor negative
print_ℕ_first :
    (s : Bytes) → all_digits s ≡ true → b'0' < head_or 0 s → string2ll s ≡ digits_ll false s
unfolding string2ll all_digits is_digit bytes_beq
print_ℕ_first [] h p = absurd (omega arith)
print_ℕ_first (c ∷ cs) h p = ground arith

neg_pos : (v : ℕ) → neg (pos (suc v)) ≡ negsuc v
neg_pos v = ground arith

string2ll-print_int : (n : ℤ) → IsInt64 n → string2ll (print_int n) ≡ some n
unfolding print_int string2ll
string2ll-print_int (pos zero) r = unfold print_ℕ bytes_beq in refl
string2ll-print_int (pos (suc v)) r =
    print_ℕ_first (print_ℕ (suc v)) (all_digits-print_ℕ (suc v))
      (print_ℕ_leading (suc v) (omega arith))
    ∙ digits_ll-print false (suc v) (omega arith) r
string2ll-print_int (negsuc v) r =
    unfold bytes_beq in
    digits_ll-print true (suc v) (omega arith) (rw neg_pos r) ∙ ap some (neg_pos v)

print_signed :
    (negative : Bool) (v : ℕ)
    → 0 < v
    → print_int (signed negative v) ≡ (if negative then b'-' ∷ print_ℕ v else print_ℕ v)
unfolding print_int
print_signed true zero p = absurd (omega arith)
print_signed true (suc v) p = rw neg_pos
print_signed false v p = refl

string2ll_sound : (raw : Bytes) (n : ℤ) → string2ll raw ≡ some n → IsInt64 n × (raw ≡ print_int n)
unfolding string2ll
string2ll_sound [] n h = cc
string2ll_sound (c ∷ cs) n h = elim (Bool-cases ((c ∷ cs) == codes "0")) [
  | inl e ↦
      let zero_is : n ≡ pos 0 = ground arith in
      rw zero_is (
        unfold print_int print_ℕ in
        ((omega arith, omega arith), (bytes_beq_iff (c ∷ cs) (codes "0")).0 e))
  | inr other ↦ elim (Bool-cases (c == b'-')) [
    | inl minus ↦
        let (v, p, printed, value, range) = digits_ll_sound true cs n (ground arith) in
        let sign : c ≡ b'-' = ground arith in
        let text : (c ∷ cs) ≡ b'-' ∷ print_ℕ v = cc in
        (range, text ∙ sym (print_signed true v p) ∙ sym (ap print_int value))
    | inr plain ↦
        let (v, p, printed, value, range) = digits_ll_sound false (c ∷ cs) n (ground arith) in
        (range, printed ∙ sym (print_signed false v p) ∙ sym (ap print_int value))
  ]
]

-- `string2ll` accepts a byte string exactly when it is the decimal notation that Python prints for
-- an integer of 64 bits, and its result is that integer.
pub string2ll_iff :
    (raw : Bytes) (n : ℤ) → (string2ll raw ≡ some n) ↔ (IsInt64 n × (raw ≡ print_int n))
string2ll_iff raw n = (string2ll_sound raw n, λ h. rw h.1 (string2ll-print_int n h.0))

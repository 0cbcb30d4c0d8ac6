-- ===== src/Sets/Cardinality.antt =====
-- commands/set.py: SADD's reply, and SINTERCARD with its limit.
use kagni.Prelude.{
  ℕ, suc, ◌+◌, ◌<◌, min, leb, nat_beq, false, List, [], ◌∷◌, Bytes, bytes_eq, if◌then◌else◌, length,
  ◌≡◌, refl, ap, ◌∙◌, arith, Bool-cases, inl, inr,
}
use kagni.Sets.Algebra.{intersection, reduce_sets}
use kagni.Sets.Store.{in_all, count_common, card_common}

-- how many of the members are in every set
common : List Bytes → List (List Bytes) → ℕ
common [] others = 0
common (x ∷ xs) others = (if in_all x others then 1 else 0) + common xs others

-- A limit of 0 is no limit.
abbrev pub capped_at : ℕ → ℕ → ℕ
capped_at limit n = if nat_beq limit 0 then n else min limit n

count_common-eq :
    (xs : List Bytes) (others : List (List Bytes)) (limit count : ℕ)
    → (nat_beq limit 0 ≡ false → count < limit)
    → count_common xs others limit count ≡ capped_at limit (count + common xs others)
unfolding count_common common
count_common-eq [] others limit count h = ground (arith, h)
count_common-eq (x ∷ xs) others limit count h = elim (Bool-cases (in_all x others)) [
  | inl here ↦ elim (Bool-cases (nat_beq limit 0)) [
    | inl unlimited ↦ ground (
      arith,
      here,
      unlimited,
      count_common-eq xs others limit (suc count) (λ e. absurd (ground (arith, unlimited, e))),
    )
    | inr limited ↦ elim (Bool-cases (leb limit (suc count))) [
      | inl last ↦ ground (arith, here, limited, last, h limited)
      | inr more ↦ ground (
        arith,
        here,
        limited,
        more,
        count_common-eq xs others limit (suc count) (λ _. ground (arith, more)),
      )
    ]
  ]
  | inr not_here ↦ ground (arith, not_here, count_common-eq xs others limit count h)
]

length-intersections :
    (rest : List (List Bytes)) (acc : List Bytes)
    → length (reduce_sets intersection (acc ∷ rest)) ≡ common acc rest
unfolding reduce_sets common in_all intersection
length-intersections [] acc = all_common acc
  where
    all_common : (xs : List Bytes) → length xs ≡ common xs []
    all_common [] = refl
    all_common (x ∷ xs) = omega (arith, all_common xs)
length-intersections (s ∷ rest) acc = length-intersections rest (intersection acc s) ∙ split acc
  where
    split : (xs : List Bytes) → common (intersection xs s) rest ≡ common xs (s ∷ rest)
    split [] = refl
    split (x ∷ xs) = ground (arith, split xs)

-- SINTERCARD, which stops as soon as it has counted as many as its limit, answers with the size of
-- the intersection or with the limit, whichever is smaller; limit 0 is no limit.
pub card_common_lem :
    (limit : ℕ) (first : List Bytes) (others : List (List Bytes))
    → card_common limit (first ∷ others)
      ≡ capped_at limit (length (reduce_sets intersection (first ∷ others)))
unfolding card_common
card_common_lem limit [] others =
    rw (length-intersections others []) (unfold common in ground arith)
card_common_lem limit (x ∷ first) others =
    count_common-eq (x ∷ first) others limit 0 (λ e. ground (arith, e))
    ∙ ap (capped_at limit) (omega (arith, length-intersections others (x ∷ first)))

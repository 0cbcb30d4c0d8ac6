-- ===== src/Zset/Order.antt =====
-- How Python compares scores, members and the pairs of them. A score is a float that is never NaN:
-- `<` is all that the program asks of it, and `==` holds where neither is smaller.
use kagni.Prelude.{
  ℤ, ltb, ltb_ℤ, Bool, true, false, not, ◌&&◌, [], ◌∷◌, Bytes, if◌then◌else◌, ◌≡◌, refl, arith,
}

-- Equal scores need not be identical: `-0.0 == 0.0`.
pub record ScoreOrder (Score : Type 0) : Type 0 where
  pub less : Score → Score → Bool
  pub irrefl : (a : Score) → less a a ≡ false
  pub trans : (a b c : Score) → less a b ≡ true → less b c ≡ true → less a c ≡ true
  pub negtrans : (a b c : Score) → less a b ≡ false → less b c ≡ false → less a c ≡ false

pub ltb_ℤ_irrefl : (a : ℤ) → ltb_ℤ a a ≡ false
ltb_ℤ_irrefl a = ground arith

pub ltb_ℤ_trans : (a b c : ℤ) → ltb_ℤ a b ≡ true → ltb_ℤ b c ≡ true → ltb_ℤ a c ≡ true
ltb_ℤ_trans a b c p q = ground (arith, p, q)

pub ltb_ℤ_negtrans : (a b c : ℤ) → ltb_ℤ a b ≡ false → ltb_ℤ b c ≡ false → ltb_ℤ a c ≡ false
ltb_ℤ_negtrans a b c p q = ground (arith, p, q)

-- scores that are compared by a number
abbrev pub by_value : {Score : Type 0} → (Score → ℤ) → ScoreOrder Score
by_value value = record {
  less = λ a b. ltb_ℤ (value a) (value b);
  irrefl = λ a. ltb_ℤ_irrefl (value a);
  trans = λ a b c. ltb_ℤ_trans (value a) (value b) (value c);
  negtrans = λ a b c. ltb_ℤ_negtrans (value a) (value b) (value c);
}

-- `<` of bytes
unfoldable pub bytes_less : Bytes → Bytes → Bool
bytes_less [] [] = false
bytes_less [] (y ∷ ys) = true
bytes_less (x ∷ xs) [] = false
bytes_less (x ∷ xs) (y ∷ ys) =
    let rest = bytes_less xs ys in if ltb x y then true else if ltb y x then false else rest

pub bytes_less_irrefl : (a : Bytes) → bytes_less a a ≡ false
unfolding bytes_less
bytes_less_irrefl [] = refl
bytes_less_irrefl (x ∷ xs) = ground (arith, bytes_less_irrefl xs)

pub bytes_less_trans :
    (a b c : Bytes) → bytes_less a b ≡ true → bytes_less b c ≡ true → bytes_less a c ≡ true
unfolding bytes_less
bytes_less_trans [] [] c p q = absurd (cc)
bytes_less_trans [] (y ∷ ys) [] p q = absurd (cc)
bytes_less_trans [] (y ∷ ys) (z ∷ zs) p q = refl
bytes_less_trans (x ∷ xs) [] c p q = absurd (cc)
bytes_less_trans (x ∷ xs) (y ∷ ys) [] p q = absurd (cc)
bytes_less_trans (x ∷ xs) (y ∷ ys) (z ∷ zs) p q = ground (arith, p, q, bytes_less_trans xs ys zs)

pub bytes_less_total : (a b : Bytes) → bytes_less a b ≡ false → bytes_less b a ≡ false → a ≡ b
unfolding bytes_less
bytes_less_total [] [] p q = refl
bytes_less_total [] (y ∷ ys) p q = absurd (cc)
bytes_less_total (x ∷ xs) [] p q = absurd (cc)
bytes_less_total (x ∷ xs) (y ∷ ys) p q = ground (arith, p, q, bytes_less_total xs ys)

module _ {Score : Type 0} ⦃o : ScoreOrder Score⦄ where
  -- `==` of scores
  abbrev pub same_score : Score → Score → Bool
  same_score a b = not (o.less a b) && not (o.less b a)

  -- `<` of the tuples `(score, member)`
  unfoldable pub pair_less : Score × Bytes → Score × Bytes → Bool
  unfolding bytes_less
  pair_less (s, m) (t, n) = if same_score s t then bytes_less m n else o.less s t

  pub pair_less_irrefl : (x : Score × Bytes) → pair_less x x ≡ false
  unfolding pair_less
  pair_less_irrefl (s, m) = ground (arith, o.irrefl s, bytes_less_irrefl m)

  -- Pairs of different members are comparable.
  pub pair_less_total :
      (s t : Score) (m n : Bytes)
      → pair_less (s, m) (t, n) ≡ false
      → pair_less (t, n) (s, m) ≡ false
      → m ≡ n
  unfolding pair_less
  pair_less_total s t m n p q = ground (arith, p, q, bytes_less_total m n)

  pub pair_less_trans :
      (x y z : Score × Bytes) → pair_less x y ≡ true → pair_less y z ≡ true → pair_less x z ≡ true
  unfolding pair_less
  pair_less_trans (s, m) (t, n) (u, k) p q = ground (
    arith,
    p,
    q,
    bytes_less_trans m n k,
    o.trans s t u,
    o.negtrans s t u,
    o.negtrans u t s,
    o.negtrans s u t,
    o.negtrans t s u,
    o.negtrans t u s,
    o.negtrans u s t,
  )

  -- A smaller pair has no greater score.
  pub pair_less-score : (x y : Score × Bytes) → pair_less x y ≡ true → o.less y.0 x.0 ≡ false
  unfolding pair_less
  pair_less-score (s, m) (t, n) p = ground (arith, p, o.trans s t s, o.irrefl s)

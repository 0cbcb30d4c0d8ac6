-- ===== src/Zset/Insert.antt =====
-- zset.py: `bisect.insort` into an ordered list.
use kagni.Prelude.{
  true, false, none, some, List, [], ◌∷◌, Bytes, bytes_eq, ◌==◌, if◌then◌else◌, ◌≡◌, refl, ap, ◌∙◌,
  arith, Bool-cases, inl, inr,
}
use kagni.Zset.Order.{ScoreOrder, pair_less, pair_less_total, pair_less_trans}
use kagni.Zset.Index.{prefix, insert_at, insort}
use kagni.Zset.Ranked.{score_in, IsBelow, IsRanked}

module _ {Score : Type 0} ⦃o : ScoreOrder Score⦄ where
  -- the insertion in one pass
  ordered_insert : Score × Bytes → List (Score × Bytes) → List (Score × Bytes)
  ordered_insert x [] = x ∷ []
  ordered_insert x (y ∷ ys) =
      let rest = ordered_insert x ys in if pair_less x y then x ∷ y ∷ ys else y ∷ rest

  insort-eq : (x : Score × Bytes) (l : List (Score × Bytes)) → insort x l ≡ ordered_insert x l
  unfolding insort prefix insert_at ordered_insert
  insort-eq x [] = refl
  insort-eq x (y ∷ ys) = elim (Bool-cases (pair_less x y)) [
    | inl before ↦ rw (before) refl
    | inr after ↦ rw (after) (ap (λ r. y ∷ r) (insort-eq x ys))
  ]

  score_in-ordered_insert :
      (s : Score) (m j : Bytes) (l : List (Score × Bytes))
      → score_in m l ≡ none
      → score_in j (ordered_insert (s, m) l) ≡ (if m == j then some s else score_in j l)
  unfolding ordered_insert score_in
  score_in-ordered_insert s m j [] h = ground arith
  score_in-ordered_insert s m j ((t, n) ∷ rest) h = ground (
    arith,
    h,
    bytes_eq.equals_iff m j,
    bytes_eq.equals_iff n m,
    bytes_eq.equals_iff n j,
    score_in-ordered_insert s m j rest,
  )

  IsBelow-trans :
      (x y : Score × Bytes) (l : List (Score × Bytes))
      → pair_less x y ≡ true
      → IsBelow y l
      → IsBelow x l
  IsBelow-trans x y [] p h = tt
  IsBelow-trans x y (z ∷ l) p h = (pair_less_trans x y z p h.0, IsBelow-trans x y l p h.1)

  IsBelow-ordered_insert :
      (z x : Score × Bytes) (l : List (Score × Bytes))
      → pair_less z x ≡ true
      → IsBelow z l
      → IsBelow z (ordered_insert x l)
  unfolding ordered_insert
  IsBelow-ordered_insert z x [] p h = (p, tt)
  IsBelow-ordered_insert z x (y ∷ ys) p h = elim (Bool-cases (pair_less x y)) [
    | inl before ↦ rw (before) (p, h)
    | inr after ↦ rw (after) (h.0, IsBelow-ordered_insert z x ys p h.1)
  ]

  -- two pairs of different members, in the one order or the other
  other_way :
      (s t : Score) (m n : Bytes)
      → pair_less (s, m) (t, n) ≡ false
      → (n == m) ≡ false
      → pair_less (t, n) (s, m) ≡ true
  other_way s t m n p differ = elim (Bool-cases (pair_less (t, n) (s, m))) [
    | inl before ↦ before
    | inr neither ↦
        absurd (ground (arith, differ, bytes_eq.equals_iff n m, pair_less_total s t m n p neither))
  ]

  ordered_insert-IsRanked :
      (s : Score) (m : Bytes) (l : List (Score × Bytes))
      → score_in m l ≡ none
      → IsRanked l
      → IsRanked (ordered_insert (s, m) l)
  unfolding ordered_insert score_in
  ordered_insert-IsRanked s m [] h r = (tt, refl, tt)
  ordered_insert-IsRanked s m ((t, n) ∷ rest) h (below, once, ranked) =
      let differ : (n == m) ≡ false = ground (arith, h) in
      let new : score_in m rest ≡ none = ground (arith, h, differ) in
      let differ' : (m == n) ≡ false =
        ground (arith, differ, bytes_eq.equals_iff m n, bytes_eq.equals_iff n m) in
      elim (Bool-cases (pair_less (s, m) (t, n))) [
        | inl before ↦ rw (before) (
          (before, IsBelow-trans (s, m) (t, n) rest before below),
          rw (differ) new,
          (below, once, ranked),
        )
        | inr after ↦ rw (after) (
          IsBelow-ordered_insert (t, n) (s, m) rest (other_way s t m n after differ) below,
          score_in-ordered_insert s m n rest new ∙ rw (differ') once,
          ordered_insert-IsRanked s m rest new ranked,
        )
      ]

  pub insort-IsRanked :
      (s : Score) (m : Bytes) (l : List (Score × Bytes))
      → score_in m l ≡ none
      → IsRanked l
      → IsRanked (insort (s, m) l)
  insort-IsRanked s m l h r = rw insort-eq (ordered_insert-IsRanked s m l h r)

  pub score_in-insort :
      (s : Score) (m j : Bytes) (l : List (Score × Bytes))
      → score_in m l ≡ none
      → score_in j (insort (s, m) l) ≡ (if m == j then some s else score_in j l)
  score_in-insort s m j l h = rw insort-eq (score_in-ordered_insert s m j l h)

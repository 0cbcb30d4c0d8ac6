-- ===== src/Zset/Ranked.antt =====
-- zset.py: ordered lists of pairs, in which each member stands once, and how the two positions that
-- `bisect` finds change them.
use kagni.Prelude.{
  true, false, Option, none, some, List, [], ◌∷◌, Bytes, bytes_eq, ◌==◌, if◌then◌else◌, ◌≡◌, refl,
  sym, ap, ◌∙◌, arith, Bool-cases, inl, inr,
}
use kagni.Zset.Order.{ScoreOrder, pair_less, pair_less_irrefl}
use kagni.Zset.Index.{prefix, delete_at, bisect_left}

module _ {Score : Type 0} where
  -- the score that the list has for a member
  unfoldable pub score_in : Bytes → List (Score × Bytes) → Option Score
  score_in m [] = none
  score_in m ((s, n) ∷ rest) = if n == m then some s else score_in m rest

  -- the list without a member
  unfoldable pub without : Bytes → List (Score × Bytes) → List (Score × Bytes)
  without m [] = []
  without m ((s, n) ∷ rest) = let more = without m rest in if n == m then more else (s, n) ∷ more

  pub score_in-without :
      (m j : Bytes) (l : List (Score × Bytes))
      → score_in j (without m l) ≡ (if m == j then none else score_in j l)
  unfolding score_in without
  score_in-without m j [] = ground arith
  score_in-without m j ((s, n) ∷ rest) = ground (
    arith,
    bytes_eq.equals_iff m j,
    bytes_eq.equals_iff n m,
    bytes_eq.equals_iff n j,
    score_in-without m j rest,
  )

  pub without-missing :
      (m : Bytes) (l : List (Score × Bytes)) → score_in m l ≡ none → without m l ≡ l
  unfolding score_in without
  without-missing m [] h = refl
  without-missing m ((s, n) ∷ rest) h = ground (arith, h, without-missing m rest)

module _ {Score : Type 0} ⦃o : ScoreOrder Score⦄ where
  -- smaller than every entry
  abbrev pub IsBelow : Score × Bytes → List (Score × Bytes) → Type 0
  IsBelow x [] = Unit
  IsBelow x (y ∷ ys) = (pair_less x y ≡ true) × IsBelow x ys

  -- ascending, and no member twice
  abbrev pub IsRanked : List (Score × Bytes) → Type 0
  IsRanked [] = Unit
  IsRanked ((s, m) ∷ rest) = IsBelow (s, m) rest × (score_in m rest ≡ none) × IsRanked rest

  pub IsBelow-score_in :
      (x : Score × Bytes) (m : Bytes) (s : Score) (l : List (Score × Bytes))
      → IsBelow x l
      → score_in m l ≡ some s
      → pair_less x (s, m) ≡ true
  unfolding score_in
  IsBelow-score_in x m s [] h e = absurd (cc)
  IsBelow-score_in x m s ((t, n) ∷ rest) h e =
      ground (arith, e, h.0, bytes_eq.equals_iff n m, IsBelow-score_in x m s rest h.1)

  IsBelow-without :
      (x : Score × Bytes) (m : Bytes) (l : List (Score × Bytes))
      → IsBelow x l
      → IsBelow x (without m l)
  unfolding without
  IsBelow-without x m [] h = tt
  IsBelow-without x m ((t, n) ∷ rest) h = ground (arith, h.0, IsBelow-without x m rest h.1)

  pub without-IsRanked :
      (m : Bytes) (l : List (Score × Bytes)) → IsRanked l → IsRanked (without m l)
  unfolding without
  without-IsRanked m [] h = tt
  without-IsRanked m ((t, n) ∷ rest) (below, once, ranked) = ground (
    arith,
    IsBelow-without (t, n) m rest below,
    score_in-without m n rest,
    once,
    without-IsRanked m rest ranked,
  )

  -- `bisect_left` finds the entry of a member, which `del` then takes out.
  pub delete_at-bisect_left :
      (m : Bytes) (s : Score) (l : List (Score × Bytes))
      → IsRanked l
      → score_in m l ≡ some s
      → delete_at (bisect_left (s, m) l) l ≡ without m l
  unfolding delete_at bisect_left prefix score_in without
  delete_at-bisect_left m s [] h e = refl
  delete_at-bisect_left m s ((t, n) ∷ rest) (below, once, ranked) e = elim (Bool-cases (n == m)) [
    | inl same ↦
        let name : n ≡ m = (bytes_eq.equals_iff n m).0 same in
        let value : t ≡ s = ground (arith, e, same) in
        let least : pair_less (t, n) (s, m) ≡ false =
          ground (arith, name, value, pair_less_irrefl (s, m)) in
        rw (least, same)
          (sym (without-missing m rest (ap (λ k. score_in k rest) (sym name) ∙ once)))
    | inr other ↦
        let there : score_in m rest ≡ some s = ground (arith, e, other) in
        rw (IsBelow-score_in (t, n) m s rest below there, other)
          (ap (λ r. (t, n) ∷ r) (delete_at-bisect_left m s rest ranked there))
  ]

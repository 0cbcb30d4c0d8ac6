-- ===== src/Zset/Rank.antt =====
-- zset.py: `rank`, found by `bisect_left`.
use mathlib.Core.Path.{ap₂}
use mathlib.Core.Option
use kagni.Prelude.{
  ℕ, ◌+◌, true, false, Option, none, some, List, [], ◌∷◌, Bytes, bytes_eq, ◌==◌, if◌then◌else◌,
  get_elem?, ◌≡◌, refl, sym, ap, ◌∙◌, arith, Bool-cases, inl, inr,
}
use kagni.Dict.{lookup}
use kagni.Common.{ZSet}
use kagni.Zset.Order.{ScoreOrder, pair_less, pair_less_irrefl, pair_less_trans}
use kagni.Zset.Index.{prefix, bisect_left, rank, score}
use kagni.Zset.Ranked.{score_in, IsBelow, IsBelow-score_in, IsRanked}
use kagni.Zset.Agree.{IsIndex}

module _ {Score : Type 0} ⦃o : ScoreOrder Score⦄ where
  -- how many entries are smaller, wherever they stand
  unfoldable pub count_below : Score × Bytes → List (Score × Bytes) → ℕ
  unfolding pair_less
  count_below x [] = 0
  count_below x (y ∷ ys) = (if pair_less y x then 1 else 0) + count_below x ys

  asymmetric : (x y : Score × Bytes) → pair_less x y ≡ true → pair_less y x ≡ false
  asymmetric x y p = elim (Bool-cases (pair_less y x)) [
    | inl both ↦ absurd (ground (arith, pair_less_trans x y x p both, pair_less_irrefl x))
    | inr only ↦ only
  ]

  count_below-IsBelow :
      (x : Score × Bytes) (l : List (Score × Bytes)) → IsBelow x l → count_below x l ≡ 0
  unfolding count_below
  count_below-IsBelow x [] h = refl
  count_below-IsBelow x (y ∷ l) h = omega (
    arith,
    ap (λ b. if◌then◌else◌ {A = ℕ} b 1 0) (asymmetric x y h.0),
    count_below-IsBelow x l h.1,
  )

  bisect_left-rank :
      (m : Bytes) (s : Score) (l : List (Score × Bytes))
      → IsRanked l
      → score_in m l ≡ some s
      → (get_elem? l (bisect_left (s, m) l) ≡ some (s, m))
        × (bisect_left (s, m) l ≡ count_below (s, m) l)
  unfolding bisect_left prefix score_in count_below
  bisect_left-rank m s [] h e = absurd (cc)
  bisect_left-rank m s ((t, n) ∷ rest) (below, once, ranked) e = elim (Bool-cases (n == m)) [
    | inl same ↦
        let name : n ≡ m = (bytes_eq.equals_iff n m).0 same in
        let value : t ≡ s = ground (arith, e, same) in
        let least : pair_less (t, n) (s, m) ≡ false =
          ground (arith, name, value, pair_less_irrefl (s, m)) in
        let none_below : count_below (s, m) rest ≡ 0 =
          ap (λ (x : Score × Bytes). count_below x rest)
            (ap₂ (λ a b. (a, b)) (sym value) (sym name))
          ∙ count_below-IsBelow (t, n) rest below in
        rw (least) (ap₂ (λ a b. some (a, b)) value name, omega (arith, none_below))
    | inr other ↦
        let there : score_in m rest ≡ some s = ground (arith, e, other) in
        let (found, counted) = bisect_left-rank m s rest ranked there in
        rw (IsBelow-score_in (t, n) m s rest below there) (found, omega (arith, counted))
  ]

  abbrev pub entry_at : Option ℕ → List (Score × Bytes) → Option (Score × Bytes)
  entry_at none l = none
  entry_at (some i) l = get_elem? l i

  -- The rank of a member is the number of entries below it by score and member, and the entry at
  -- that place of the ordered list is the member with its score; an absent member has no rank.
  pub rank_lem :
      (m : Bytes) (z : ZSet Score)
      → IsIndex z
      → (rank m z ≡ Option.map (λ s. count_below (s, m) z.sorted) (score m z))
        × (entry_at (rank m z) z.sorted ≡ Option.map (λ s. (s, m)) (score m z))
  unfolding score rank
  rank_lem m z h = go (lookup m z.scores) refl
    where
      ranked : Option Score → Option ℕ
      ranked o = elim o [ none ↦ none | some s ↦ some (bisect_left (s, m) z.sorted) ]

      go :
          (found : Option Score)
          → lookup m z.scores ≡ found
          → (ranked found ≡ Option.map (λ s. count_below (s, m) z.sorted) found)
            × (entry_at (ranked found) z.sorted ≡ Option.map (λ s. (s, m)) found)
      go none e = (refl, refl)
      go (some s) e =
          let (there, counted) = bisect_left-rank m s z.sorted h.ranked (sym (h.agrees m) ∙ e) in
          (ap some counted, there)

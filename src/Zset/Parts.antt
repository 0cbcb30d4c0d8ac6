-- ===== src/Zset/Parts.antt =====
-- zset.py: `remove_rank`, `remove_score` and `remove_member`, which take a part out of the list and
-- out of the dict.
use mathlib.Core.Path.{subst}
use kagni.Prelude.{
  ℕ, zero, suc, ◌+◌, ◌-◌, ◌≤◌, ℤ, pos, pos_part, ◌+ℤ◌, is_neg, leb, ltb_ℤ, leb_ℤ, Bool, true, false,
  not, ◌&&◌, ◌||◌, none, List, [], ◌∷◌, ◌++◌, Bytes, bytes_eq, ◌==◌, if◌then◌else◌, is_some, elem,
  length, take, drop, take-append-drop, ◌≡◌, refl, sym, ap, ◌∙◌, arith, Bool-cases, inl, inr,
}
use kagni.Dict.{Dict, lookup, erase, lookup-erase, HasDistinctKeys, erase-HasDistinctKeys}
use kagni.Common.{ZSet}
use kagni.Zset.Order.{ScoreOrder}
use kagni.Zset.Index.{
  members_of, forget, LexWindow, outside, inside_pairs, outside_pairs, remove_member, cut,
  remove_rank, remove_score, Window, score_bounds,
}
use kagni.Zset.Ranked.{score_in, IsBelow, IsRanked}
use kagni.Zset.Agree.{IsIndex}

module _ {Score : Type 0} where
  pub lookup-forget :
      (l : List (Score × Bytes)) (j : Bytes) (scores : Dict Bytes Score)
      → lookup j (forget l scores) ≡ (if elem j (members_of l) then none else lookup j scores)
  unfolding forget elem
  lookup-forget [] j scores = refl
  lookup-forget ((s, m) ∷ rest) j scores =
      ground (arith, lookup-forget rest j (erase m scores), lookup-erase m j scores)

  forget-HasDistinctKeys :
      (l : List (Score × Bytes)) (scores : Dict Bytes Score)
      → HasDistinctKeys scores
      → HasDistinctKeys (forget l scores)
  unfolding forget
  forget-HasDistinctKeys [] scores h = h
  forget-HasDistinctKeys ((s, m) ∷ rest) scores h =
      forget-HasDistinctKeys rest (erase m scores) (erase-HasDistinctKeys m scores h)

  score_in-outside :
      (w : LexWindow) (j : Bytes) (l : List (Score × Bytes))
      → score_in j (outside_pairs w l) ≡ (if outside w j then score_in j l else none)
  unfolding score_in outside_pairs
  score_in-outside w j [] = ground arith
  score_in-outside w j ((s, m) ∷ rest) =
      ground (arith, bytes_eq.equals_iff m j, ap (outside w), score_in-outside w j rest)

  pub elem-inside :
      (w : LexWindow) (j : Bytes) (l : List (Score × Bytes))
      → elem j (members_of (inside_pairs w l)) ≡ (not (outside w j) && is_some (score_in j l))
  unfolding score_in inside_pairs elem
  elem-inside w j [] = ground arith
  elem-inside w j ((s, m) ∷ rest) =
      ground (arith, bytes_eq.equals_iff m j, ap (outside w), elem-inside w j rest)

  score_in-append :
      (j : Bytes) (a c : List (Score × Bytes))
      → score_in j a ≡ none
      → score_in j (a ++ c) ≡ score_in j c
  unfolding score_in
  score_in-append j [] c h = refl
  score_in-append j ((s, m) ∷ a) c h = ground (arith, h, score_in-append j a c)

  missing-append :
      (j : Bytes) (a c : List (Score × Bytes))
      → score_in j (a ++ c) ≡ none
      → (score_in j a ≡ none) × (score_in j c ≡ none)
  unfolding score_in
  missing-append j [] c h = (refl, h)
  missing-append j ((s, m) ∷ a) c h = ground (arith, h, missing-append j a c)

  missing-elem :
      (j : Bytes) (b : List (Score × Bytes)) → score_in j b ≡ none → elem j (members_of b) ≡ false
  unfolding score_in elem
  missing-elem j [] h = refl
  missing-elem j ((s, m) ∷ b) h = ground (arith, h, missing-elem j b)

not_negative : (s : ℤ) → is_neg (if is_neg s then pos 0 else s) ≡ false
not_negative s = ground arith

-- what the guards of `remove_rank` leave
rank_range :
    (n : ℕ) (first e : ℤ)
    → is_neg first ≡ false
    → (ltb_ℤ e first || leb_ℤ (pos n) first) ≡ false
    → pos_part first ≤ (if leb_ℤ (pos n) e then n - 1 else pos_part e) + 1
rank_range n first e p b = ground (arith, p, b)

module _ {Score : Type 0} ⦃o : ScoreOrder Score⦄ where
  IsBelow-outside :
      (x : Score × Bytes) (w : LexWindow) (l : List (Score × Bytes))
      → IsBelow x l
      → IsBelow x (outside_pairs w l)
  unfolding outside_pairs
  IsBelow-outside x w [] h = tt
  IsBelow-outside x w ((t, n) ∷ rest) h = ground (arith, h.0, IsBelow-outside x w rest h.1)

  outside-IsRanked :
      (w : LexWindow) (l : List (Score × Bytes)) → IsRanked l → IsRanked (outside_pairs w l)
  unfolding outside_pairs
  outside-IsRanked w [] h = tt
  outside-IsRanked w ((t, n) ∷ rest) (below, once, ranked) = ground (
    arith,
    IsBelow-outside (t, n) w rest below,
    score_in-outside w n rest,
    once,
    outside-IsRanked w rest ranked,
  )

  pub remove_member-IsIndex :
      (w : LexWindow) (z : ZSet Score) → IsIndex z → IsIndex (remove_member w z).1
  unfolding remove_member
  remove_member-IsIndex w z h = record {
    ranked = outside-IsRanked w z.sorted h.ranked;
    distinct = forget-HasDistinctKeys (inside_pairs w z.sorted) z.scores h.distinct;
    agrees = λ j. ground (
      arith,
      h.agrees j,
      lookup-forget (inside_pairs w z.sorted) j z.scores,
      elem-inside w j z.sorted,
      score_in-outside w j z.sorted,
    );
  }

  tail-IsRanked : (b c : List (Score × Bytes)) → IsRanked (b ++ c) → IsRanked c
  tail-IsRanked [] c h = h
  tail-IsRanked ((s, m) ∷ b) c (below, once, ranked) = tail-IsRanked b c ranked

  tail-IsBelow : (x : Score × Bytes) (b c : List (Score × Bytes)) → IsBelow x (b ++ c) → IsBelow x c
  tail-IsBelow x [] c h = h
  tail-IsBelow x (y ∷ b) c h = tail-IsBelow x b c h.1

  middle-IsBelow :
      (x : Score × Bytes) (a b c : List (Score × Bytes))
      → IsBelow x (a ++ (b ++ c))
      → IsBelow x (a ++ c)
  middle-IsBelow x [] b c h = tail-IsBelow x b c h
  middle-IsBelow x (y ∷ a) b c h = (h.0, middle-IsBelow x a b c h.1)

  score_in-tail :
      (j : Bytes) (b c : List (Score × Bytes))
      → IsRanked (b ++ c)
      → score_in j c ≡ (if elem j (members_of b) then none else score_in j (b ++ c))
  unfolding score_in elem
  score_in-tail j [] c h = refl
  score_in-tail j ((s, m) ∷ b) c (below, once, ranked) = elim (Bool-cases (m == j)) [
    | inl same ↦
        let name : m ≡ j = (bytes_eq.equals_iff m j).0 same in
        rw (same) (ap (λ k. score_in k c) (sym name) ∙ (missing-append m b c once).1)
    | inr other ↦ rw (other) (score_in-tail j b c ranked)
  ]

  score_in-middle :
      (j : Bytes) (a b c : List (Score × Bytes))
      → IsRanked (a ++ (b ++ c))
      → score_in j (a ++ c) ≡ (if elem j (members_of b) then none else score_in j (a ++ (b ++ c)))
  unfolding score_in
  score_in-middle j [] b c h = score_in-tail j b c h
  score_in-middle j ((s, m) ∷ a) b c (below, once, ranked) = elim (Bool-cases (m == j)) [
    | inl same ↦
        let name : m ≡ j = (bytes_eq.equals_iff m j).0 same in
        let gone = (missing-append m b c (missing-append m a (b ++ c) once).1).0 in
        rw (same, sym name, missing-elem m b gone) refl
    | inr other ↦ rw (other) (score_in-middle j a b c ranked)
  ]

  middle-IsRanked : (a b c : List (Score × Bytes)) → IsRanked (a ++ (b ++ c)) → IsRanked (a ++ c)
  middle-IsRanked [] b c h = tail-IsRanked b c h
  middle-IsRanked ((s, m) ∷ a) b c (below, once, ranked) =
      let (left, right) = missing-append m a (b ++ c) once in
      (
        middle-IsBelow (s, m) a b c below,
        score_in-append m a c left ∙ (missing-append m b c right).1,
        middle-IsRanked a b c ranked,
      )

  drop-nil : (i : ℕ) (l : List (Score × Bytes)) → l ≡ [] → drop i l ≡ []
  drop-nil zero l h = h
  drop-nil (suc i) [] h = refl
  drop-nil (suc i) (x ∷ l) h = absurd (cc)

  drop-drop : (k n : ℕ) (l : List (Score × Bytes)) → drop k (drop n l) ≡ drop (n + k) l
  drop-drop k zero l = ap (λ i. drop i l) (omega arith)
  drop-drop k (suc n) [] = drop-nil k [] refl ∙ sym (drop-nil (suc n + k) [] refl)
  drop-drop k (suc n) (x ∷ l) =
      drop-drop k n l ∙ ap (λ i. drop i (x ∷ l)) {x = suc (n + k)} (omega arith)

  -- the list, cut at two places
  three_parts :
      (start end : ℕ) (l : List (Score × Bytes))
      → start ≤ end
      → take start l ++ (take (end - start) (drop start l) ++ drop end l) ≡ l
  three_parts start end l h =
      let rest : drop (end - start) (drop start l) ≡ drop end l =
        drop-drop (end - start) start l ∙ ap (λ i. drop i l) (omega (arith, h)) in
      ap (λ r. take start l ++ (take (end - start) (drop start l) ++ r)) (sym rest)
      ∙ ap (λ r. take start l ++ r) (take-append-drop (end - start) (drop start l))
      ∙ take-append-drop start l

  pub cut-IsIndex :
      (start end : ℕ) (z : ZSet Score) → start ≤ end → IsIndex z → IsIndex (cut start end z)
  unfolding cut
  cut-IsIndex start end z h i =
      let a = take start z.sorted in
      let b = take (end - start) (drop start z.sorted) in
      let c = drop end z.sorted in
      let whole : a ++ (b ++ c) ≡ z.sorted = three_parts start end z.sorted h in
      let ranked : IsRanked (a ++ (b ++ c)) = subst IsRanked (sym whole) i.ranked in
      record {
        ranked = middle-IsRanked a b c ranked;
        distinct = forget-HasDistinctKeys b z.scores i.distinct;
        agrees = λ j.
            lookup-forget b j z.scores
            ∙ ap (λ o. if elem j (members_of b) then none else o)
                (i.agrees j ∙ ap (score_in j) (sym whole))
            ∙ sym (score_in-middle j a b c ranked);
      }

  guarded :
      (b : Bool) (n start end : ℕ) (z : ZSet Score)
      → (b ≡ false → start ≤ end)
      → IsIndex z
      → IsIndex ((λ (r : ℕ × ZSet Score). r.1) (if b then (0, z) else (n, cut start end z)))
  guarded true n start end z k h = h
  guarded false n start end z k h = cut-IsIndex start end z (k refl) h

  pub remove_rank-IsIndex :
      (start end : ℤ) (z : ZSet Score) → IsIndex z → IsIndex (remove_rank start end z).1
  unfolding remove_rank
  remove_rank-IsIndex start end z h =
      let n = length z.sorted in
      let s = if is_neg start then start +ℤ pos n else start in
      let e = if is_neg end then end +ℤ pos n else end in
      let first = if is_neg s then pos 0 else s in
      let last = if leb_ℤ (pos n) e then n - 1 else pos_part e in
      guarded (ltb_ℤ e first || leb_ℤ (pos n) first) (last - pos_part first + 1) (pos_part first)
        (last + 1) z (λ b. rank_range n first e (not_negative s) b) h

  pub remove_score-IsIndex :
      (w : Window Score) (z : ZSet Score) → IsIndex z → IsIndex (remove_score w z).1
  unfolding remove_score
  remove_score-IsIndex w z h =
      let (start, end) = score_bounds w z in
      guarded (leb end start) (end - start) start end z (λ b. ground (arith, b)) h

-- ===== src/Zset/Scores.antt =====
-- zset.py: the container as a map from members to scores.
use kagni.Prelude.{
  ℕ, ◌-◌, leb, Bool, true, false, Option, none, some, List, [], ◌∷◌, Bytes, bytes_eq, ◌==◌,
  if◌then◌else◌, elem, take, drop, ◌≡◌, refl, sym, ap, ◌∙◌, arith, Option-cases, inl, inr,
}
use kagni.Dict.{lookup}
use kagni.Common.{ZSet}
use kagni.Zset.Order.{ScoreOrder}
use kagni.Zset.Lexical.{in_lex_window, outside_lem}
use kagni.Zset.Index.{
  Window, LexWindow, inside_pairs, score, score_bounds, score_pairs, remove_score, remove_member,
  cut, members_of, empty_zset,
}
use kagni.Zset.Ranked.{score_in, IsRanked}
use kagni.Zset.Agree.{IsIndex, added, score-add, score-remove}
use kagni.Zset.Parts.{lookup-forget, elem-inside}
use kagni.Zset.Windows.{keep, in_window, score_pairs_lem}
use kagni.Zset.Calls.{
  ZCall, add_call, remove_call, remove_rank_call, remove_score_call, remove_member_call, run_zcall,
  run_zcalls, run_zcall-IsIndex, empty-IsIndex,
}

abbrev pub Scores : Type 0 → Type 0
Scores Score = Bytes → Option Score

abbrev pub spare : {Score : Type 0} → (Score → Bool) → Option Score → Option Score
spare gone none = none
spare gone (some s) = if gone s then none else some s

-- the scores of the members that a test does not take away
unfoldable pub spared : {Score : Type 0} → (Bytes → Score → Bool) → Scores Score → Scores Score
spared gone scores j = spare (gone j) (scores j)

module _ {Score : Type 0} ⦃o : ScoreOrder Score⦄ where
  -- What the methods promise of the scores.
  unfoldable pub spec_zcall : ZCall Score → Scores Score → Scores Score
  unfolding added spared in_window in_lex_window
  spec_zcall (add_call member s) scores = added member s scores
  spec_zcall (remove_call member) scores = λ j. if member == j then none else scores j
  spec_zcall (remove_rank_call start end) scores = scores
  spec_zcall (remove_score_call w) scores = spared (λ j s. in_window w s) scores
  spec_zcall (remove_member_call w) scores = spared (λ j s. in_lex_window w j) scores

  unfoldable pub spec_zcalls : List (ZCall Score) → Scores Score → Scores Score
  unfolding spec_zcall
  spec_zcalls [] scores = scores
  spec_zcalls (call ∷ rest) scores = spec_zcalls rest (spec_zcall call scores)

  -- no call removes by rank
  abbrev pub IsByMember : List (ZCall Score) → Type 0
  IsByMember [] = Unit
  IsByMember (remove_rank_call start end ∷ rest) = ⊥
  IsByMember (call ∷ rest) = IsByMember rest

  -- a member is among the entries that a test keeps
  elem-keep :
      (p : Score → Bool) (j : Bytes) (l : List (Score × Bytes))
      → IsRanked l
      → elem j (members_of (keep (λ x. p x.0) l))
        ≡ (elim (score_in j l) [ none ↦ false | some s ↦ p s ])
  unfolding elem keep score_in
  elem-keep p j [] h = refl
  elem-keep p j ((s, m) ∷ rest) (below, once, ranked) =
      ground
        (arith, once, bytes_eq.equals_iff m j, ap (λ k. score_in k rest), elem-keep p j rest ranked)

  score-remove_member :
      (w : LexWindow) (z : ZSet Score) (j : Bytes)
      → IsIndex z
      → score j (remove_member w z).1 ≡ spared (λ j s. in_lex_window w j) (λ k. score k z) j
  unfolding remove_member score spared
  score-remove_member w z j h = elim (Option-cases (lookup j z.scores)) [
    | inl missing ↦ ground (
      arith,
      missing,
      h.agrees j,
      lookup-forget (inside_pairs w z.sorted) j z.scores,
      elem-inside w j z.sorted,
      outside_lem w j,
    )
    | inr (s, there) ↦ ground (
      arith,
      there,
      h.agrees j,
      lookup-forget (inside_pairs w z.sorted) j z.scores,
      elem-inside w j z.sorted,
      outside_lem w j,
    )
  ]

  forgotten :
      (start end : ℕ) (b : Bool) (z : ZSet Score) (j : Bytes)
      → leb end start ≡ b
      → lookup j (
          (λ (r : ℕ × ZSet Score). r.1.scores)
            (if b then (0, z) else (end - start, cut start end z)))
        ≡ (if elem j (members_of (take (end - start) (drop start z.sorted)))
            then none
            else lookup j z.scores)
  unfolding cut elem
  forgotten start end true z j e =
      let nothing : end - start ≡ 0 = ground (arith, e) in rw (nothing) refl
  forgotten start end false z j e =
      lookup-forget (take (end - start) (drop start z.sorted)) j z.scores

  score-remove_score :
      (w : Window Score) (z : ZSet Score) (j : Bytes)
      → IsIndex z
      → score j (remove_score w z).1 ≡ spared (λ j s. in_window w s) (λ k. score k z) j
  unfolding remove_score score spared score_pairs
  score-remove_score w z j h =
      let (start, end) = score_bounds w z in
      let taken : elem j (members_of (score_pairs w z))
          ≡ (elim (score_in j z.sorted) [ none ↦ false | some s ↦ in_window w s ]) =
        ap (λ l. elem j (members_of l)) (score_pairs_lem w z h)
        ∙ elem-keep (in_window w) j z.sorted h.ranked in
      forgotten start end (leb end start) z j refl
      ∙ ap (λ b. if b then none else lookup j z.scores) taken
      ∙ ap (λ o. if found o then none else lookup j z.scores) (sym (h.agrees j))
      ∙ same (lookup j z.scores)
    where
      found : Option Score → Bool
      found o = elim o [ none ↦ false | some s ↦ in_window w s ]

      same : (o : Option Score) → (if found o then none else o) ≡ spare (in_window w) o
      same none = refl
      same (some s) = refl

  step-refines :
      (call : ZCall Score) (rest : List (ZCall Score)) (z : ZSet Score)
      → IsByMember (call ∷ rest)
      → IsIndex z
      → (j : Bytes) → score j (run_zcall call z) ≡ spec_zcall call (λ k. score k z) j
  unfolding run_zcall spec_zcall
  step-refines (add_call member s) rest z b h j = (score-add member s z j).1
  step-refines (remove_call member) rest z b h j = (score-remove member z j).1
  step-refines (remove_rank_call start end) rest z b h j = absurd b
  step-refines (remove_score_call w) rest z b h j = score-remove_score w z j h
  step-refines (remove_member_call w) rest z b h j = score-remove_member w z j h

  -- the methods depend on the scores alone
  spec_same :
      (call : ZCall Score) (a b : Scores Score)
      → ((j : Bytes) → a j ≡ b j)
      → (j : Bytes) → spec_zcall call a j ≡ spec_zcall call b j
  unfolding spec_zcall spared added
  spec_same (add_call member s) a b h j = rw (h member, h j) refl
  spec_same (remove_call member) a b h j = rw (h j) refl
  spec_same (remove_rank_call start end) a b h j = h j
  spec_same (remove_score_call w) a b h j = ap (spare (λ s. in_window w s)) (h j)
  spec_same (remove_member_call w) a b h j = ap (spare (λ s. in_lex_window w j)) (h j)

  rest_IsByMember :
      (call : ZCall Score) (rest : List (ZCall Score)) → IsByMember (call ∷ rest) → IsByMember rest
  rest_IsByMember (add_call member s) rest b = b
  rest_IsByMember (remove_call member) rest b = b
  rest_IsByMember (remove_rank_call start end) rest b = absurd b
  rest_IsByMember (remove_score_call w) rest b = b
  rest_IsByMember (remove_member_call w) rest b = b

  refined :
      (calls : List (ZCall Score)) (z : ZSet Score) (scores : Scores Score)
      → IsByMember calls
      → IsIndex z
      → ((j : Bytes) → score j z ≡ scores j)
      → (j : Bytes) → score j (run_zcalls calls z) ≡ spec_zcalls calls scores j
  unfolding run_zcalls spec_zcalls
  refined [] z scores b h e j = e j
  refined (call ∷ rest) z scores b h e j =
      refined rest (run_zcall call z) (spec_zcall call scores) (rest_IsByMember call rest b)
        (run_zcall-IsIndex call z h)
        (λ k. step-refines call rest z b h k ∙ spec_same call (λ i. score i z) scores e k) j

  -- From an empty sorted set on, after any calls of `add`, `remove`, `remove_score` and
  -- `remove_member`, the score of each member is that of a map under the specified operations: an
  -- equal score is not written again, and a window takes away exactly the members inside it.
  pub run_zcalls-refines :
      (calls : List (ZCall Score))
      → IsByMember calls
      → (j : Bytes) → score j (run_zcalls calls empty_zset) ≡ spec_zcalls calls (λ _. none) j
  run_zcalls-refines calls b j = refined calls empty_zset (λ _. none) b empty-IsIndex nothing j
    where
      nothing : (k : Bytes) → score k (empty_zset {Score = Score}) ≡ none
      nothing k = unfold score lookup in refl

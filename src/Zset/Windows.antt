-- ===== src/Zset/Windows.antt =====
-- zset.py: the ranges by score, found by `bisect` with a key, against a filter of the whole list.
use kagni.Prelude.{
  suc, ◌-◌, Bool, true, false, not, ◌&&◌, List, [], ◌∷◌, Bytes, bytes_eq, if◌then◌else◌, take, drop,
  ◌≡◌, refl, sym, ap, ◌∙◌, arith, Bool-cases, inl, inr,
}
use kagni.Common.{ZSet}
use kagni.Zset.Order.{ScoreOrder, pair_less, pair_less-score}
use kagni.Zset.Index.{prefix, Window, before, score_bounds, score_pairs}
use kagni.Zset.Ranked.{IsBelow, IsRanked}
use kagni.Zset.Agree.{IsIndex}

module _ {ℓ} {A : Type ℓ} where
  unfoldable pub keep : (A → Bool) → List A → List A
  keep p [] = []
  keep p (x ∷ xs) = let rest = keep p xs in if p x then x ∷ rest else rest

  abbrev AllFalse : (A → Bool) → List A → Type 0
  AllFalse p [] = Unit
  AllFalse p (x ∷ xs) = (p x ≡ false) × AllFalse p xs

  -- the test holds for a part at the front, and for nothing after it
  abbrev IsFront : (A → Bool) → List A → Type 0
  IsFront p [] = Unit
  IsFront p (x ∷ xs) = (p x ≡ false → AllFalse p xs) × IsFront p xs

  prefix-AllFalse : (p : A → Bool) (l : List A) → AllFalse p l → prefix p l ≡ 0
  unfolding prefix
  prefix-AllFalse p [] h = refl
  prefix-AllFalse p (x ∷ xs) h = rw (h.0) refl

  keep-AllFalse : (p q : A → Bool) (l : List A) → AllFalse q l → keep (λ x. not (p x) && q x) l ≡ []
  unfolding keep
  keep-AllFalse p q [] h = refl
  keep-AllFalse p q (x ∷ xs) h = elim (Bool-cases (p x)) [
    | inl before ↦ rw (before) (keep-AllFalse p q xs h.1)
    | inr after ↦ rw (after, h.0) (keep-AllFalse p q xs h.1)
  ]

  -- The slice from where `p` ends to where `q` ends.
  slice-keep :
      (p q : A → Bool) (l : List A)
      → IsFront p l
      → IsFront q l
      → take (prefix q l - prefix p l) (drop (prefix p l) l) ≡ keep (λ x. not (p x) && q x) l
  unfolding prefix keep
  slice-keep p q [] hp hq = refl
  slice-keep p q (x ∷ xs) hp hq = elim (Bool-cases (p x)) [
    | inl a ↦ elim (Bool-cases (q x)) [
      | inl b ↦
          rw (a, b)
            (ap (λ k. take k (drop (prefix p xs) xs)) {x = suc (prefix q xs) - suc (prefix p xs)}
                (omega arith)
              ∙ slice-keep p q xs hp.1 hq.1)
      | inr b ↦
          rw (a, b)
            (ap (λ k. take k (drop (prefix p xs) xs)) {x = 0 - suc (prefix p xs)} {y = 0}
                (omega arith)
              ∙ sym (keep-AllFalse p q xs (hq.0 b)))
    ]
    | inr a ↦
        let none_before : prefix p xs ≡ 0 = prefix-AllFalse p xs (hp.0 a) in
        elim (Bool-cases (q x)) [
          | inl b ↦
              rw (a, b)
                (ap (λ k. take k (x ∷ xs)) {x = suc (prefix q xs) - 0} {y = suc (prefix q xs)}
                    (omega arith)
                  ∙ ap (λ r. x ∷ r)
                      (ap (λ k. take k xs) {y = prefix q xs - 0} (omega arith)
                        ∙ ap (λ k. take (prefix q xs - k) (drop k xs)) (sym none_before)
                        ∙ slice-keep p q xs hp.1 hq.1))
          | inr b ↦ rw (a, b) (sym (keep-AllFalse p q xs (hq.0 b)))
        ]
  ]

module _ {Score : Type 0} ⦃o : ScoreOrder Score⦄ where
  -- the documented meaning of a window
  unfoldable pub in_window : Window Score → Score → Bool
  in_window w s =
      (if w.low_open then o.less w.low s else not (o.less s w.low))
      && (if w.high_open then o.less s w.high else not (o.less w.high s))

  -- the test whose front `before` measures
  abbrev within : Score → Bool → Score × Bytes → Bool
  within bound inclusive y = if inclusive then not (o.less bound y.0) else o.less y.0 bound

  before-prefix :
      (bound : Score) (inclusive : Bool) (l : List (Score × Bytes))
      → before bound inclusive l ≡ prefix (within bound inclusive) l
  unfolding before
  before-prefix bound true l = refl
  before-prefix bound false l = refl

  within-later :
      (bound : Score) (inclusive : Bool) (x y : Score × Bytes)
      → pair_less x y ≡ true
      → within bound inclusive x ≡ false
      → within bound inclusive y ≡ false
  within-later bound true (s, m) (t, n) p h =
      ground (arith, h, pair_less-score (s, m) (t, n) p, o.negtrans bound t s)
  within-later bound false (s, m) (t, n) p h =
      ground (arith, h, pair_less-score (s, m) (t, n) p, o.negtrans t s bound)

  within-AllFalse :
      (bound : Score) (inclusive : Bool) (x : Score × Bytes) (l : List (Score × Bytes))
      → IsBelow x l
      → within bound inclusive x ≡ false
      → AllFalse (within bound inclusive) l
  within-AllFalse bound inclusive x [] h e = tt
  within-AllFalse bound inclusive x (y ∷ l) h e =
      (within-later bound inclusive x y h.0 e, within-AllFalse bound inclusive x l h.1 e)

  within-IsFront :
      (bound : Score) (inclusive : Bool) (l : List (Score × Bytes))
      → IsRanked l
      → IsFront (within bound inclusive) l
  within-IsFront bound inclusive [] h = tt
  within-IsFront bound inclusive ((s, m) ∷ rest) (below, once, ranked) = (
    within-AllFalse bound inclusive (s, m) rest below,
    within-IsFront bound inclusive rest ranked,
  )

  keep-same :
      (p q : Score × Bytes → Bool) (l : List (Score × Bytes))
      → ((x : Score × Bytes) → p x ≡ q x)
      → keep p l ≡ keep q l
  unfolding keep
  keep-same p q [] h = refl
  keep-same p q (x ∷ l) h = rw (h x, keep-same p q l h) refl

  window_tests :
      (w : Window Score) (x : Score × Bytes)
      → (not (within w.low w.low_open x) && within w.high (not w.high_open) x) ≡ in_window w x.0
  unfolding in_window
  window_tests w x = ground arith

  -- A range by score, cut out of the ordered list between two positions, is what a filter of the
  -- whole list would give: the entries whose score lies in the window, in rank order.
  pub score_pairs_lem :
      (w : Window Score) (z : ZSet Score)
      → IsIndex z
      → score_pairs w z ≡ keep (λ x. in_window w x.0) z.sorted
  unfolding score_pairs score_bounds
  score_pairs_lem w z h =
      let l = z.sorted in
      ap (λ k. take (before w.high (not w.high_open) l - k) (drop k l))
        (before-prefix w.low w.low_open l)
      ∙ ap
          (λ k.
            take (k - prefix (within w.low w.low_open) l)
              (drop (prefix (within w.low w.low_open) l) l))
          (before-prefix w.high (not w.high_open) l)
      ∙ slice-keep (within w.low w.low_open) (within w.high (not w.high_open)) l
          (within-IsFront w.low w.low_open l h.ranked)
          (within-IsFront w.high (not w.high_open) l h.ranked)
      ∙ keep-same (λ x. not (within w.low w.low_open x) && within w.high (not w.high_open) x)
          (λ x. in_window w x.0) l (window_tests w)

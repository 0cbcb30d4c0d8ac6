-- ===== src/Zset/Agree.antt =====
-- zset.py: the dict of scores and the ordered list agree, and `add` and `remove` keep it so.
use kagni.Prelude.{
  Bool, true, false, not, Option, none, some, List, Bytes, bytes_eq, ◌==◌, if◌then◌else◌, is_some,
  ◌≡◌, refl, sym, ◌∙◌, arith, Bool-cases, Option-cases, inl, inr, bytes_beq_refl, if-elim,
}
use kagni.Dict.{
  Dict, lookup, insert, erase, lookup-insert, lookup-erase, HasDistinctKeys, insert-HasDistinctKeys,
  erase-HasDistinctKeys,
}
use kagni.Common.{ZSet}
use kagni.Zset.Order.{ScoreOrder, same_score}
use kagni.Zset.Index.{bisect_left, insort, delete_at, add, remove, score}
use kagni.Zset.Ranked.{
  score_in, without, score_in-without, IsRanked, without-IsRanked, delete_at-bisect_left,
}
use kagni.Zset.Insert.{insort-IsRanked, score_in-insort}

module _ {Score : Type 0} ⦃o : ScoreOrder Score⦄ where
  -- The entries ascend by score and member, each member stands once, and the dict has the scores
  -- of the list.
  pub record IsIndex (z : ZSet Score) : Type 0 where
    pub ranked : IsRanked z.sorted
    pub distinct : HasDistinctKeys z.scores
    pub agrees : (m : Bytes) → lookup m z.scores ≡ score_in m z.sorted

  -- the container after `insort` of a member that was not in it
  inserted :
      (m : Bytes) (s : Score) (scores : Dict Bytes Score) (l : List (Score × Bytes))
      → IsRanked l
      → HasDistinctKeys scores
      → ((j : Bytes) → (m == j) ≡ false → lookup j scores ≡ score_in j l)
      → score_in m l ≡ none
      → IsIndex (record { scores = insert m s scores; sorted = insort (s, m) l })
  inserted m s scores l ranked distinct agrees new = record {
    ranked = insort-IsRanked s m l new ranked;
    distinct = insert-HasDistinctKeys m s scores distinct;
    agrees = λ j. ground (arith, lookup-insert m j s scores, score_in-insort s m j l new, agrees j);
  }

  -- Where the score changes, the old entry goes and a new one is put in.
  replaced :
      (m : Bytes) (s current : Score) (z : ZSet Score)
      → lookup m z.scores ≡ some current
      → IsIndex z
      → IsIndex (record {
        scores = insert m s z.scores;
        sorted = insort (s, m) (delete_at (bisect_left (current, m) z.sorted) z.sorted);
      })
  replaced m s current z there h =
      let found : score_in m z.sorted ≡ some current = sym (h.agrees m) ∙ there in
      rw (delete_at-bisect_left m current z.sorted h.ranked found) (
        inserted m s z.scores (without m z.sorted) (without-IsRanked m z.sorted h.ranked) h.distinct
          (λ j other. ground (arith, other, h.agrees j, score_in-without m j z.sorted))
          (ground (arith, bytes_beq_refl m, score_in-without m m z.sorted)))

  -- the score that `add` leaves a member with
  unfoldable pub added : Bytes → Score → (Bytes → Option Score) → Bytes → Option Score
  added m s scores j =
      if m == j
      then (elim (scores m) [
        | none ↦ some s
        | some current ↦ if same_score current s then some current else some s
      ])
      else scores j

  -- whether `add` changes a score
  unfoldable pub changes : Option Score → Score → Bool
  changes none s = true
  changes (some current) s = not (same_score current s)

  pub add-IsIndex : (m : Bytes) (s : Score) (z : ZSet Score) → IsIndex z → IsIndex (add m s z).1
  unfolding add
  add-IsIndex m s z h = go (lookup m z.scores) refl
    where
      go :
          (found : Option Score)
          → lookup m z.scores ≡ found
          → IsIndex (
              (elim found as (λ _. Bool × ZSet Score) [
                | none ↦
                    (true, record { scores = insert m s z.scores; sorted = insort (s, m) z.sorted })
                | some current ↦ if same_score current s then (false, z) else (
                  true,
                  record {
                    scores = insert m s z.scores;
                    sorted = insort (s, m) (delete_at (bisect_left (current, m) z.sorted) z.sorted);
                  },
                )
              ]).1)
      go none e =
          inserted m s z.scores z.sorted h.ranked h.distinct (λ j _. h.agrees j)
            (sym (h.agrees m) ∙ e)
      go (some current) e =
          if-elim (λ (r : Bool × ZSet Score). IsIndex r.1) (same_score current s) h
            (replaced m s current z e h)

  -- `add` reports a change, and leaves the scores, as the map of the scores says.
  pub score-add :
      (m : Bytes) (s : Score) (z : ZSet Score) (j : Bytes)
      → ((add m s z).0 ≡ changes (score m z) s)
        × (score j (add m s z).1 ≡ added m s (λ k. score k z) j)
  unfolding add score changes added
  score-add m s z j = elim (Option-cases (lookup m z.scores)) [
    | inl missing ↦ ground (arith, missing, lookup-insert m j s z.scores)
    | inr (current, there) ↦ elim (Bool-cases (same_score current s)) [
      | inl same ↦ ground (arith, there, same, bytes_eq.equals_iff m j)
      | inr differ ↦ ground (arith, there, differ, lookup-insert m j s z.scores)
    ]
  ]

  removed_at :
      (m : Bytes) (s : Score) (z : ZSet Score)
      → lookup m z.scores ≡ some s
      → IsIndex z
      → IsIndex (record {
        scores = erase m z.scores;
        sorted = delete_at (bisect_left (s, m) z.sorted) z.sorted;
      })
  removed_at m s z there h =
      let found : score_in m z.sorted ≡ some s = sym (h.agrees m) ∙ there in
      rw (delete_at-bisect_left m s z.sorted h.ranked found) (record {
        ranked = without-IsRanked m z.sorted h.ranked;
        distinct = erase-HasDistinctKeys m z.scores h.distinct;
        agrees = λ j.
            ground (arith, h.agrees j, lookup-erase m j z.scores, score_in-without m j z.sorted);
      })

  pub remove-IsIndex : (m : Bytes) (z : ZSet Score) → IsIndex z → IsIndex (remove m z).1
  unfolding remove
  remove-IsIndex m z h = go (lookup m z.scores) refl
    where
      go :
          (found : Option Score)
          → lookup m z.scores ≡ found
          → IsIndex (
              (elim found as (λ _. Bool × ZSet Score) [
                | none ↦ (false, z)
                | some s ↦ (
                  true,
                  record {
                    scores = erase m z.scores;
                    sorted = delete_at (bisect_left (s, m) z.sorted) z.sorted;
                  },
                )
              ]).1)
      go none e = h
      go (some s) e = removed_at m s z e h

  pub score-remove :
      (m : Bytes) (z : ZSet Score) (j : Bytes)
      → ((remove m z).0 ≡ is_some (score m z))
        × (score j (remove m z).1 ≡ (if m == j then none else score j z))
  unfolding remove score
  score-remove m z j = elim (Option-cases (lookup m z.scores)) [
    | inl missing ↦ ground (arith, missing, bytes_eq.equals_iff m j)
    | inr (s, there) ↦ ground (arith, there, lookup-erase m j z.scores)
  ]

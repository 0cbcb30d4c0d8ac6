-- ===== src/Zset/Index.antt =====
-- zset.py: the class `ZSet`. Of `bisect` the model takes what it documents for an ordered list: the
-- position before, or after, the entries that are equal to the one that is looked for.
use kagni.Prelude.{
  ℕ, zero, suc, ◌+◌, ◌-◌, ℤ, pos, pos_part, ◌+ℤ◌, is_neg, leb_ℤ, ltb_ℤ, leb, Bool, true, false, not,
  ◌||◌, ◌&&◌, Option, none, some, List, [], ◌∷◌, ◌++◌, Bytes, bytes_eq, ◌==◌, if◌then◌else◌, length,
  take, drop,
}
use kagni.Dict.{Dict, lookup, contains, insert, erase}
use kagni.Common.{ZSet}
use kagni.Zset.Order.{ScoreOrder, same_score, bytes_less, pair_less}

-- How many entries stand before the first that fails the test.
unfoldable pub prefix {ℓ} : {A : Type ℓ} → (A → Bool) → List A → ℕ
prefix p [] = 0
prefix p (x ∷ xs) = let rest = prefix p xs in if p x then suc rest else 0

-- `del xs[i]`
unfoldable pub delete_at {ℓ} : {A : Type ℓ} → ℕ → List A → List A
delete_at i [] = []
delete_at zero (x ∷ xs) = xs
delete_at (suc i) (x ∷ xs) = x ∷ delete_at i xs

-- `xs.insert(i, x)`
unfoldable pub insert_at {ℓ} : {A : Type ℓ} → ℕ → A → List A → List A
insert_at zero x xs = x ∷ xs
insert_at (suc i) x [] = x ∷ []
insert_at (suc i) x (y ∷ ys) = y ∷ insert_at i x ys

-- The scores from `low` to `high`, each end of the window open or closed.
pub record Window (Score : Type 0) : Type 0 where
  pub low : Score
  pub low_open : Bool
  pub high : Score
  pub high_open : Bool

-- The members from `min_member` to `max_member`; `none` is no bound.
pub record LexWindow : Type 0 where
  pub min_member : Option Bytes
  pub min_open : Bool
  pub max_member : Option Bytes
  pub max_open : Bool

-- the two tests of `member_pairs`, whose loop goes on if one of them holds
unfoldable pub outside : LexWindow → Bytes → Bool
unfolding bytes_less
outside w member =
    (elim w.min_member [
      | none ↦ false
      | some low ↦ bytes_less member low || (w.min_open && member == low)
    ])
    || (elim w.max_member [
      | none ↦ false
      | some high ↦ bytes_less high member || (w.max_open && member == high)
    ])

module _ {Score : Type 0} where
  abbrev pub empty_zset : ZSet Score
  empty_zset = record { scores = []; sorted = [] }

  -- `__len__`
  unfoldable pub card : ZSet Score → ℕ
  card z = length z.sorted

  -- `__contains__`
  unfoldable pub has : Bytes → ZSet Score → Bool
  has member z = contains member z.scores

  unfoldable pub score : Bytes → ZSet Score → Option Score
  score member z = lookup member z.scores

  abbrev pub members_of : List (Score × Bytes) → List Bytes
  members_of [] = []
  members_of ((s, m) ∷ rest) = m ∷ members_of rest

  -- `del self._scores[member]` for each entry of a part of the list
  unfoldable pub forget : List (Score × Bytes) → Dict Bytes Score → Dict Bytes Score
  forget [] scores = scores
  forget ((s, m) ∷ rest) scores = forget rest (erase m scores)

  -- the loops of `member_pairs` and `remove_member`: the entries inside, and those that are kept
  unfoldable pub inside_pairs : LexWindow → List (Score × Bytes) → List (Score × Bytes)
  unfolding outside
  inside_pairs w [] = []
  inside_pairs w ((s, m) ∷ rest) =
      let more = inside_pairs w rest in if outside w m then more else (s, m) ∷ more

  unfoldable pub outside_pairs : LexWindow → List (Score × Bytes) → List (Score × Bytes)
  unfolding outside
  outside_pairs w [] = []
  outside_pairs w ((s, m) ∷ rest) =
      let more = outside_pairs w rest in if outside w m then (s, m) ∷ more else more

  unfoldable pub member_pairs : LexWindow → ZSet Score → List (Score × Bytes)
  unfolding inside_pairs
  member_pairs w z = inside_pairs w z.sorted

  unfoldable pub remove_member : LexWindow → ZSet Score → ℕ × ZSet Score
  unfolding inside_pairs outside_pairs forget
  remove_member w z = (
    length (inside_pairs w z.sorted),
    record {
      scores = forget (inside_pairs w z.sorted) z.scores;
      sorted = outside_pairs w z.sorted;
    },
  )

  -- `del self._sorted[start:end]`, with the scores of the entries, for `start < end`
  unfoldable pub cut : ℕ → ℕ → ZSet Score → ZSet Score
  unfolding forget
  cut start end z = record {
    scores = forget (take (end - start) (drop start z.sorted)) z.scores;
    sorted = take start z.sorted ++ drop end z.sorted;
  }

  unfoldable pub remove_rank : ℤ → ℤ → ZSet Score → ℕ × ZSet Score
  unfolding cut
  remove_rank start end z =
      let n = pos (length z.sorted) in
      let s = if is_neg start then start +ℤ n else start in
      let e = if is_neg end then end +ℤ n else end in
      let first = if is_neg s then pos 0 else s in
      if ltb_ℤ e first || leb_ℤ n first
      then (0, z)
      else let last = if leb_ℤ n e then length z.sorted - 1 else pos_part e in
        (last - pos_part first + 1, cut (pos_part first) (last + 1) z)

module _ {Score : Type 0} ⦃o : ScoreOrder Score⦄ where
  unfoldable pub bisect_left : Score × Bytes → List (Score × Bytes) → ℕ
  unfolding prefix pair_less
  bisect_left x l = prefix (λ y. pair_less y x) l

  -- `insort`, which inserts after the entries that are not greater
  unfoldable pub insort : Score × Bytes → List (Score × Bytes) → List (Score × Bytes)
  unfolding prefix pair_less insert_at
  insort x l = insert_at (prefix (λ y. not (pair_less x y)) l) x l

  unfoldable pub rank : Bytes → ZSet Score → Option ℕ
  unfolding bisect_left
  rank member z = elim (lookup member z.scores) [
    | none ↦ none
    | some s ↦ some (bisect_left (s, member) z.sorted)
  ]

  unfoldable pub add : Bytes → Score → ZSet Score → Bool × ZSet Score
  unfolding bisect_left insort delete_at
  add member s z = elim (lookup member z.scores) [
    | none ↦
        (true, record { scores = insert member s z.scores; sorted = insort (s, member) z.sorted })
    | some current ↦ if same_score current s then (false, z) else (
      true,
      record {
        scores = insert member s z.scores;
        sorted = insort (s, member) (delete_at (bisect_left (current, member) z.sorted) z.sorted);
      },
    )
  ]

  unfoldable pub remove : Bytes → ZSet Score → Bool × ZSet Score
  unfolding bisect_left delete_at
  remove member z = elim (lookup member z.scores) [
    | none ↦ (false, z)
    | some s ↦ (
      true,
      record {
        scores = erase member z.scores;
        sorted = delete_at (bisect_left (s, member) z.sorted) z.sorted;
      },
    )
  ]

  -- `bisect_left` or `bisect_right` by the score alone
  unfoldable pub before : Score → Bool → List (Score × Bytes) → ℕ
  unfolding prefix
  before bound inclusive l =
      if inclusive then prefix (λ y. not (o.less bound y.0)) l else prefix (λ y. o.less y.0 bound) l

  -- `_score_bounds`
  unfoldable pub score_bounds : Window Score → ZSet Score → ℕ × ℕ
  unfolding before
  score_bounds w z = (before w.low w.low_open z.sorted, before w.high (not w.high_open) z.sorted)

  unfoldable pub score_pairs : Window Score → ZSet Score → List (Score × Bytes)
  unfolding score_bounds
  score_pairs w z = let (start, end) = score_bounds w z in take (end - start) (drop start z.sorted)

  unfoldable pub remove_score : Window Score → ZSet Score → ℕ × ZSet Score
  unfolding score_bounds cut
  remove_score w z =
      let (start, end) = score_bounds w z in
      if leb end start then (0, z) else (end - start, cut start end z)

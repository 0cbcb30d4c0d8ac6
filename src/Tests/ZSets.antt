-- ===== src/Tests/ZSets.antt =====
-- The theorems on sorted sets at concrete inputs. The scores are integers and a negative zero.
use mathlib.Core.Path.{subst}
use mathlib.Core.Option
use kagni.Prelude.{
  ℕ, ℤ, pos, negsuc, Bool, true, false, Option, none, some, List, [], ◌∷◌, Bytes, ◌≡◌, refl,
}
use kagni.Text.{codes}
use kagni.Common.{ZSet}
use kagni.Zset.{ScoreOrder, by_value, Window, LexWindow, empty_zset, score, rank, score_pairs}
use kagni.Zset.Agree.{IsIndex}
use kagni.Zset.Calls.{
  ZCall, add_call, remove_rank_call, remove_score_call, run_zcalls, run_zcalls-IsIndex,
}
use kagni.Zset.Rank.{count_below, entry_at, rank_lem}
use kagni.Zset.Windows.{keep, in_window, score_pairs_lem}
use kagni.Zset.Scores.{spec_zcalls, run_zcalls-refines}

data Number : Type 0 where
  whole : ℤ → Number
  negative_zero : Number

abbrev value : Number → ℤ
value (whole n) = n
value negative_zero = pos 0

instance abbrev number_order : ScoreOrder Number
number_order = by_value value

-- `-0.0` does not replace the equal score of `a`.
abbrev additions : List (ZCall Number)
additions =
    add_call (codes "b") (whole (pos 2))
    ∷ add_call (codes "a") (whole (pos 0))
    ∷ add_call (codes "c") (whole (pos 2))
    ∷ add_call (codes "a") negative_zero
    ∷ add_call (codes "c") (whole (negsuc 0))
    ∷ []

abbrev from_zero : Window Number
from_zero = record { low = negative_zero; low_open = false; high = whole (pos 2); high_open = true }

abbrev up_to_b : LexWindow
up_to_b = record {
  min_member = none;
  min_open = false;
  max_member = some (codes "b");
  max_open = true;
}

abbrev index : ZSet Number
index = record {
  scores =
      (codes "b", whole (pos 2)) ∷ (codes "a", whole (pos 0)) ∷ (codes "c", whole (negsuc 0)) ∷ [];
  sorted =
      (whole (negsuc 0), codes "c") ∷ (whole (pos 0), codes "a") ∷ (whole (pos 2), codes "b") ∷ [];
}

run_zcalls-IsIndex_example :
    IsIndex
      (run_zcalls (remove_rank_call (pos 0) (negsuc 1) ∷ additions) (empty_zset {Score = Number}))
run_zcalls-IsIndex_example = run_zcalls-IsIndex (remove_rank_call (pos 0) (negsuc 1) ∷ additions)

run_zcalls-refines_example :
    score (codes "a") (
      run_zcalls
        (add_call (codes "a") negative_zero ∷ remove_score_call from_zero ∷ additions)
        (empty_zset {Score = Number}))
    ≡ spec_zcalls
        (add_call (codes "a") negative_zero ∷ remove_score_call from_zero ∷ additions)
        (λ _. none)
        (codes "a")
run_zcalls-refines_example =
    run_zcalls-refines
      (add_call (codes "a") negative_zero ∷ remove_score_call from_zero ∷ additions) tt (codes "a")

index-eq : run_zcalls additions empty_zset ≡ index
unfolding run_zcalls kagni.Dict.lookup kagni.Dict.insert kagni.Prelude.bytes_beq
index-eq = refl

index-IsIndex : IsIndex index
index-IsIndex = subst IsIndex index-eq (run_zcalls-IsIndex additions)

rank_lem_example :
    (rank (codes "a") index
      ≡ Option.map (λ s. count_below (s, codes "a") index.sorted) (score (codes "a") index))
    × (entry_at (rank (codes "a") index) index.sorted
        ≡ Option.map (λ s. (s, codes "a")) (score (codes "a") index))
rank_lem_example = rank_lem (codes "a") index index-IsIndex

score_pairs_lem_example :
    score_pairs from_zero index ≡ keep (λ x. in_window from_zero x.0) index.sorted
score_pairs_lem_example = score_pairs_lem from_zero index index-IsIndex

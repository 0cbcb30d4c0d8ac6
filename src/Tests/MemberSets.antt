-- ===== src/Tests/MemberSets.antt =====
-- The theorems on sets at concrete inputs.
use kagni.Prelude.{
  ℕ, pos, Bool, true, false, not, ◌&&◌, ◌||◌, Option, none, some, List, [], ◌∷◌, Bytes, bytes_eq,
  elem, length, ◌≡◌, refl,
}
use kagni.Text.{codes}
use kagni.Dict.{lookup}
use kagni.Data
use kagni.Data.{Clock, Data}
use kagni.Common.{Stored, members}
use kagni.Sets.{difference, intersection, union, reduce_sets, in_all, card_common, smove}
use kagni.Sets.Laws.{in_some, reduce_sets_lem}
use kagni.Sets.Cardinality.{capped_at, card_common_lem}
use kagni.Sets.Moves.{Moves, smove-Moves}

abbrev now : Clock
now = record { mono = pos 10; wall = pos 1010 }

abbrev evens : List Bytes
evens = codes "2" ∷ codes "4" ∷ codes "6" ∷ []

abbrev threes : List Bytes
threes = codes "3" ∷ codes "6" ∷ codes "9" ∷ []

reduce_sets_lem_example :
    (elem (codes "6") (reduce_sets difference (evens ∷ threes ∷ []))
      ≡ (elem (codes "6") evens && not (in_some (codes "6") (threes ∷ []))))
    × (elem (codes "6") (reduce_sets intersection (evens ∷ threes ∷ []))
        ≡ in_all (codes "6") (evens ∷ threes ∷ []))
    × (elem (codes "6") (reduce_sets union (evens ∷ threes ∷ []))
        ≡ in_some (codes "6") (evens ∷ threes ∷ []))
reduce_sets_lem_example = reduce_sets_lem evens (threes ∷ []) (codes "6")

card_common_lem_example :
    card_common 2 (evens ∷ evens ∷ [])
    ≡ capped_at 2 (length (reduce_sets intersection (evens ∷ evens ∷ [])))
card_common_lem_example = card_common_lem 2 evens (evens ∷ [])

abbrev one_set : Data (Stored ℕ)
one_set = record Data.init {
  storage = (codes "s", record { value = members evens; expires_at = none }) ∷ [];
}

-- from a set onto itself
smove-Moves_example :
    Moves
      (codes "s")
      (codes "s")
      (codes "4")
      now
      evens
      evens
      (smove (codes "s") (codes "s") (codes "4") now one_set)
unfolding Data.get_item Data.live lookup kagni.Prelude.bytes_beq elem
smove-Moves_example =
    smove-Moves (codes "s") (codes "s") (codes "4") now one_set evens evens refl refl refl

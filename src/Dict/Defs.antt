-- ===== src/Dict/Defs.antt =====
-- The operations of the dict.
use kagni.Prelude.{Eq, ◌==◌, Bool, true, false, Option, none, some, List, [], ◌∷◌, if◌then◌else◌}

abbrev pub Dict {ℓ κ} : Type ℓ → Type κ → Type (ℓ ⊔ κ)
Dict K V = List (K × V)

module _ {ℓ κ} {K : Type ℓ} ⦃e : Eq K⦄ {V : Type κ} where
  -- `d.get(k)`
  unfoldable pub lookup : K → Dict K V → Option V
  lookup k [] = none
  lookup k ((j, v) ∷ d) = if j == k then some v else lookup k d

  -- `k in d`
  unfoldable pub contains : K → Dict K V → Bool
  contains k [] = false
  contains k ((j, v) ∷ d) = if j == k then true else contains k d

  -- `d[k] = v`
  unfoldable pub insert : K → V → Dict K V → Dict K V
  insert k v [] = (k, v) ∷ []
  insert k v ((j, w) ∷ d) = if j == k then (j, v) ∷ d else (j, w) ∷ insert k v d

  -- `d.pop(k, None)`, without its result
  unfoldable pub erase : K → Dict K V → Dict K V
  erase k [] = []
  erase k ((j, v) ∷ d) = let rest = erase k d in if j == k then rest else (j, v) ∷ rest

  -- `d.keys()`
  unfoldable pub keys : Dict K V → List K
  keys [] = []
  keys ((j, v) ∷ d) = j ∷ keys d

-- ===== src/Dict/Keys.antt =====
-- No key stands twice in a dict, and every operation keeps it so.
use kagni.Prelude.{Eq, ◌≡◌, refl, none, [], ◌∷◌, arith}
use kagni.Dict.Defs.{Dict, lookup, insert, erase}
use kagni.Dict.Laws.{lookup-insert, lookup-erase}

module _ {ℓ κ} {K : Type ℓ} ⦃e : Eq K⦄ {V : Type κ} where
  abbrev pub HasDistinctKeys : Dict K V → Type κ
  HasDistinctKeys [] = Unit
  HasDistinctKeys ((j, v) ∷ d) = (lookup j d ≡ none) × HasDistinctKeys d

  pub insert-HasDistinctKeys :
      (k : K) (v : V) (d : Dict K V) → HasDistinctKeys d → HasDistinctKeys (insert k v d)
  unfolding lookup insert
  insert-HasDistinctKeys k v [] h = (refl, tt)
  insert-HasDistinctKeys k v ((j, w) ∷ d) h = ground (
    arith,
    e.equals_iff j k,
    e.equals_iff k j,
    insert-HasDistinctKeys k v d h.1,
    lookup-insert k j v d,
  )

  pub erase-HasDistinctKeys :
      (k : K) (d : Dict K V) → HasDistinctKeys d → HasDistinctKeys (erase k d)
  unfolding lookup erase
  erase-HasDistinctKeys k [] h = tt
  erase-HasDistinctKeys k ((j, w) ∷ d) h =
      ground (arith, erase-HasDistinctKeys k d h.1, lookup-erase k j d)

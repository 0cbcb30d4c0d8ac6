-- ===== src/Dict/Laws.antt =====
-- What `lookup` finds after each operation, in a form without side conditions.
use kagni.Prelude.{Eq, ◌==◌, ◌≡◌, none, some, [], ◌∷◌, arith, if◌then◌else◌, is_some}
use kagni.Dict.Defs.{Dict, lookup, contains, insert, erase}

module _ {ℓ κ} {K : Type ℓ} ⦃e : Eq K⦄ {V : Type κ} where
  pub lookup-insert :
      (k j : K) (v : V) (d : Dict K V)
      → lookup j (insert k v d) ≡ (if k == j then some v else lookup j d)
  unfolding lookup insert
  lookup-insert k j v [] = ground arith
  lookup-insert k j v ((i, w) ∷ d) =
      ground (arith, e.equals_iff k j, e.equals_iff i k, e.equals_iff i j, lookup-insert k j v d)

  pub lookup-erase :
      (k j : K) (d : Dict K V) → lookup j (erase k d) ≡ (if k == j then none else lookup j d)
  unfolding lookup erase
  lookup-erase k j [] = ground arith
  lookup-erase k j ((i, w) ∷ d) =
      ground (arith, e.equals_iff k j, e.equals_iff i k, e.equals_iff i j, lookup-erase k j d)

  pub contains-eq : (k : K) (d : Dict K V) → contains k d ≡ is_some (lookup k d)
  unfolding lookup contains
  contains-eq k [] = ground arith
  contains-eq k ((i, w) ∷ d) = ground (arith, contains-eq k d)

pub ruleset dict_laws = (lookup-insert, lookup-erase, contains-eq)

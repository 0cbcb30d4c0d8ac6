-- ===== src/Lists/Range.antt =====
-- commands/lists.py: which elements LRANGE, LINDEX and LSET address.
use kagni.Prelude.{
  ℕ, zero, suc, ◌<◌, ℤ, pos_part, some, List, [], ◌∷◌, ◌≡◌, refl, length, get_elem?, set, arith,
}
use kagni.Lists.Deque.{from_tail}

module _ {ℓ} {A : Type ℓ} where
  get_elem?-set : (l : List A) (i : ℕ) (v : A) → i < length l → get_elem? (set l i v) i ≡ some v
  get_elem?-set [] i v h = elim h [ ]
  get_elem?-set (x ∷ l) zero v h = refl
  get_elem?-set (x ∷ l) (suc i) v h = get_elem?-set l i v (omega arith)

-- A start before the head is the head.
abbrev pub first_index : ℤ → ℕ → ℕ
first_index start n = pos_part (from_tail start n)

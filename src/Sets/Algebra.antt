-- ===== src/Sets/Algebra.antt =====
-- Python's sets: `add`, `discard`, `update`, and the operators `-`, `&` and `|`. The order of the
-- members, which Python leaves open, is here the order of insertion.
use kagni.Prelude.{
  ℕ, ◌%◌, List, [], ◌∷◌, ◌++◌, Bytes, bytes_eq, ◌==◌, elem, if◌then◌else◌, length, get_elem?,
  Option, none, some,
}

unfoldable pub include : Bytes → List Bytes → List Bytes
unfolding elem
include x l = if elem x l then l else l ++ x ∷ []

unfoldable pub discard : Bytes → List Bytes → List Bytes
discard x [] = []
discard x (y ∷ l) = let rest = discard x l in if y == x then rest else y ∷ rest

-- `cur.update(vals)`
unfoldable pub update_set : List Bytes → List Bytes → List Bytes
unfolding include
update_set [] l = l
update_set (x ∷ xs) l = update_set xs (include x l)

-- `a - b`
unfoldable pub difference : List Bytes → List Bytes → List Bytes
unfolding elem
difference [] b = []
difference (x ∷ a) b = let rest = difference a b in if elem x b then rest else x ∷ rest

-- `a & b`
unfoldable pub intersection : List Bytes → List Bytes → List Bytes
unfolding elem
intersection [] b = []
intersection (x ∷ a) b = let rest = intersection a b in if elem x b then x ∷ rest else rest

-- `a | b`
unfoldable pub union : List Bytes → List Bytes → List Bytes
unfolding update_set
union a b = update_set b a

-- `reduce(op, sets[1:], set(sets[0]) if sets else set())`
unfoldable pub reduce_sets : (List Bytes → List Bytes → List Bytes) → List (List Bytes) → List Bytes
reduce_sets op [] = []
reduce_sets op (first ∷ rest) = go rest first
  where
    go : List (List Bytes) → List Bytes → List Bytes
    go [] acc = acc
    go (s ∷ more) acc = go more (op acc s)

-- `set.pop`: the member that goes is the one at place `i`, which the caller does not choose
unfoldable pub pop_at : ℕ → List Bytes → Option (Bytes × List Bytes)
unfolding discard
pop_at i l = elim (get_elem? l (i % length l)) [ none ↦ none | some x ↦ some (x, discard x l) ]

-- ===== src/Sets/Laws.antt =====
-- commands/set.py: the operators on sets, against membership.
use kagni.Prelude.{
  Bool, true, false, not, ◌&&◌, ◌||◌, List, [], ◌∷◌, ◌++◌, Bytes, bytes_eq, ◌==◌, elem,
  if◌then◌else◌, ◌≡◌, refl, ap, ◌∙◌, arith,
}
use kagni.Sets.Algebra.{include, discard, update_set, difference, intersection, union, reduce_sets}
use kagni.Sets.Store.{in_all}

elem-append :
    (y : Bytes) (a b : List Bytes) → elem y (a ++ b) ≡ (if elem y a then true else elem y b)
unfolding elem
elem-append y [] b = refl
elem-append y (x ∷ a) b = ground (arith, elem-append y a b)

pub elem-include : (x y : Bytes) (l : List Bytes) → elem y (include x l) ≡ ((x == y) || elem y l)
unfolding include elem
elem-include x y l =
    ground (arith, elem-append y l (x ∷ []), bytes_eq.equals_iff x y, ap (λ k. elem k l))

pub elem-discard :
    (x y : Bytes) (l : List Bytes) → elem y (discard x l) ≡ (not (x == y) && elem y l)
unfolding discard elem
elem-discard x y [] = ground arith
elem-discard x y (z ∷ l) = ground (
  arith,
  elem-discard x y l,
  bytes_eq.equals_iff x y,
  bytes_eq.equals_iff z x,
  bytes_eq.equals_iff z y,
)

pub elem-update_set :
    (xs : List Bytes) (y : Bytes) (l : List Bytes)
    → elem y (update_set xs l) ≡ (elem y xs || elem y l)
unfolding update_set elem
elem-update_set [] y l = refl
elem-update_set (x ∷ xs) y l =
    ground (arith, elem-update_set xs y (include x l), elem-include x y l)

pub elem-difference :
    (a b : List Bytes) (y : Bytes) → elem y (difference a b) ≡ (elem y a && not (elem y b))
unfolding difference elem
elem-difference [] b y = refl
elem-difference (x ∷ a) b y =
    ground (arith, elem-difference a b y, bytes_eq.equals_iff x y, ap (λ k. elem k b))

pub elem-intersection :
    (a b : List Bytes) (y : Bytes) → elem y (intersection a b) ≡ (elem y a && elem y b)
unfolding intersection elem
elem-intersection [] b y = refl
elem-intersection (x ∷ a) b y =
    ground (arith, elem-intersection a b y, bytes_eq.equals_iff x y, ap (λ k. elem k b))

-- in one of the sets
unfoldable pub in_some : Bytes → List (List Bytes) → Bool
unfolding elem
in_some y [] = false
in_some y (s ∷ rest) = elem y s || in_some y rest

difference_all :
    (rest : List (List Bytes)) (acc : List Bytes) (y : Bytes)
    → elem y (reduce_sets difference (acc ∷ rest)) ≡ (elem y acc && not (in_some y rest))
unfolding reduce_sets in_some
difference_all [] acc y = ground arith
difference_all (s ∷ rest) acc y =
    difference_all rest (difference acc s) y ∙ ground (arith, elem-difference acc s y)

intersection_all :
    (rest : List (List Bytes)) (acc : List Bytes) (y : Bytes)
    → elem y (reduce_sets intersection (acc ∷ rest)) ≡ (elem y acc && in_all y rest)
unfolding reduce_sets in_all
intersection_all [] acc y = ground arith
intersection_all (s ∷ rest) acc y =
    intersection_all rest (intersection acc s) y ∙ ground (arith, elem-intersection acc s y)

union_all :
    (rest : List (List Bytes)) (acc : List Bytes) (y : Bytes)
    → elem y (reduce_sets union (acc ∷ rest)) ≡ (elem y acc || in_some y rest)
unfolding reduce_sets in_some union
union_all [] acc y = ground arith
union_all (s ∷ rest) acc y =
    union_all rest (update_set s acc) y ∙ ground (arith, elem-update_set s y acc)

-- SDIFF, SINTER and SUNION of one set or more: a member is in the result exactly if it is in the
-- first set and in none of the others, in all of them, or in one of them.
pub reduce_sets_lem :
    (first : List Bytes) (rest : List (List Bytes)) (y : Bytes)
    → (elem y (reduce_sets difference (first ∷ rest)) ≡ (elem y first && not (in_some y rest)))
      × (elem y (reduce_sets intersection (first ∷ rest)) ≡ in_all y (first ∷ rest))
      × (elem y (reduce_sets union (first ∷ rest)) ≡ in_some y (first ∷ rest))
unfolding in_all in_some
reduce_sets_lem first rest y =
    (difference_all rest first y, intersection_all rest first y, union_all rest first y)

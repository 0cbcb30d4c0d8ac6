-- ===== src/Lists/Occurrences.antt =====
-- commands/lists.py: LREM against the occurrences of its value.
use kagni.Prelude.{
  ℕ, zero, suc, ◌+◌, ◌≤◌, ℤ, pos, negsuc, min, Bool, true, false, Option, none, some, List, [], ◌∷◌,
  ◌++◌, reverse, ◌≡◌, refl, ap, ◌∙◌, Bytes, ◌==◌, bytes_eq, nat_eq, if◌then◌else◌, length, arith,
  ltb, Bool-cases, inl, inr, reverse-cons, length-reverse, reverse-reverse, reverse-append,
  append-nil, sym,
}
use kagni.Lists.Edit.{lrem_from, lrem_list}

abbrev pub occurrences : Bytes → List Bytes → ℕ
occurrences val [] = 0
occurrences val (x ∷ l) = let n = occurrences val l in if x == val then suc n else n

-- the elements that are not `val`
abbrev pub others : Bytes → List Bytes → List Bytes
others val [] = []
others val (x ∷ l) = let kept = others val l in if x == val then kept else x ∷ kept

abbrev pub capped : Option ℕ → ℕ → ℕ
capped none n = n
capped (some k) n = min k n

lrem_from-others :
    (val : Bytes) (limit : Option ℕ) (r : ℕ) (l : List Bytes)
    → others val (lrem_from val limit r l).1 ≡ others val l
unfolding lrem_from
lrem_from-others val limit r [] = refl
lrem_from-others val limit r (x ∷ l) =
    ground (arith, lrem_from-others val limit r l, lrem_from-others val limit (r + 1) l)

lrem_from-count :
    (val : Bytes) (k r : ℕ) (l : List Bytes)
    → r ≤ k
    → (lrem_from val (some k) r l).0 ≡ min k (r + occurrences val l)
unfolding lrem_from
lrem_from-count val k r [] h = omega arith
lrem_from-count val k r (x ∷ l) h =
    ground (arith, lrem_from-count val k r l, lrem_from-count val k (r + 1) l)

lrem_from-all :
    (val : Bytes) (r : ℕ) (l : List Bytes)
    → lrem_from val none r l ≡ (r + occurrences val l, others val l)
unfolding lrem_from
lrem_from-all val r [] = ground arith
lrem_from-all val r (x ∷ l) = ground (arith, lrem_from-all val r l, lrem_from-all val (r + 1) l)

lrem_from-length :
    (val : Bytes) (limit : Option ℕ) (r : ℕ) (l : List Bytes)
    → (lrem_from val limit r l).0 + length (lrem_from val limit r l).1 ≡ r + length l
unfolding lrem_from
lrem_from-length val limit r [] = refl
lrem_from-length val limit r (x ∷ l) =
    ground (arith, lrem_from-length val limit r l, lrem_from-length val limit (r + 1) l)

lrem_from-done :
    (val : Bytes) (k r : ℕ) (l : List Bytes) → k ≤ r → (lrem_from val (some k) r l).1 ≡ l
unfolding lrem_from
lrem_from-done val k r [] h = refl
lrem_from-done val k r (x ∷ l) h = ground (arith, lrem_from-done val k r l h)

-- the occurrences in a first part of the list are gone, the rest is as it was
abbrev pub IsHeadCut : Bytes → List Bytes → List Bytes → Type 0
IsHeadCut val l kept =
    (a : List Bytes) × (b : List Bytes) × (l ≡ a ++ b) × (kept ≡ others val a ++ b)

abbrev pub IsTailCut : Bytes → List Bytes → List Bytes → Type 0
IsTailCut val l kept =
    (a : List Bytes) × (b : List Bytes) × (l ≡ a ++ b) × (kept ≡ a ++ others val b)

lrem_from-IsHeadCut :
    (val : Bytes) (k r : ℕ) (l : List Bytes) → IsHeadCut val l (lrem_from val (some k) r l).1
unfolding lrem_from
lrem_from-IsHeadCut val k r [] = ([], [], refl, refl)
lrem_from-IsHeadCut val k r (x ∷ l) = elim (Bool-cases (ltb r k)) [
  | inl below ↦
      let (a, b, p, q) = lrem_from-IsHeadCut val k r l in
      let (a', b', p', q') = lrem_from-IsHeadCut val k (r + 1) l in
      elim (Bool-cases (x == val)) [
        | inl hit ↦ (x ∷ a', b', ap (λ t. x ∷ t) p', ground (arith, below, hit, q'))
        | inr miss ↦ (x ∷ a, b, ap (λ t. x ∷ t) p, ground (arith, below, miss, q))
      ]
  | inr over ↦ ([], x ∷ l, refl, ground (arith, over, lrem_from-done val k r l))
]

others-append :
    (val : Bytes) (a b : List Bytes) → others val (a ++ b) ≡ others val a ++ others val b
others-append val [] b = refl
others-append val (x ∷ a) b = ground (arith, others-append val a b)

reverse_if :
    (hit : Bool) (x : Bytes) (kept : List Bytes)
    → reverse kept ++ (if hit then [] else x ∷ []) ≡ reverse (if hit then kept else x ∷ kept)
reverse_if true x kept = append-nil (reverse kept)
reverse_if false x kept = sym (reverse-cons x kept)

others-reverse : (val : Bytes) (l : List Bytes) → others val (reverse l) ≡ reverse (others val l)
others-reverse val [] = refl
others-reverse val (x ∷ l) =
    rw (reverse-cons x l, others-append val (reverse l) (x ∷ []), others-reverse val l)
      (reverse_if (x == val) x (others val l))

occurrences-length :
    (val : Bytes) (l : List Bytes) → occurrences val l + length (others val l) ≡ length l
occurrences-length val [] = refl
occurrences-length val (x ∷ l) = ground (arith, occurrences-length val l)

occurrences-reverse :
    (val : Bytes) (l : List Bytes) → occurrences val (reverse l) ≡ occurrences val l
occurrences-reverse val l = omega (
  arith,
  occurrences-length val (reverse l),
  occurrences-length val l,
  ap length (others-reverse val l),
  length-reverse (others val l),
  length-reverse l,
)

-- What LREM with this count has removed, and what it has kept.
abbrev pub IsCut : ℤ → Bytes → List Bytes → List Bytes → Type 0
IsCut (pos zero) val l kept = kept ≡ others val l
IsCut (pos (suc n)) val l kept = IsHeadCut val l kept
IsCut (negsuc n) val l kept = IsTailCut val l kept

abbrev pub lrem_limit : ℤ → Option ℕ
lrem_limit (pos zero) = none
lrem_limit (pos (suc n)) = some (suc n)
lrem_limit (negsuc n) = some (suc n)

IsTailCut-reverse :
    (val : Bytes) (l kept : List Bytes)
    → IsHeadCut val (reverse l) kept
    → IsTailCut val l (reverse kept)
IsTailCut-reverse val l kept (a, b, p, q) = (
  reverse b,
  reverse a,
  (sym (reverse-reverse l) ∙ ap reverse p ∙ reverse-append a b),
  (ap reverse q
      ∙ reverse-append (others val a) b
      ∙ ap (λ t. reverse b ++ t) (sym (others-reverse val a))),
)

-- LREM removes as many occurrences of its value as the list has, and at most the absolute value of
-- a count other than 0; it reports that number, removes that many elements and no others, and takes
-- them from the head of the list for a positive count and from the tail for a negative one.
pub lrem_list_lem :
    (count : ℤ) (val : Bytes) (l : List Bytes)
    → ((lrem_list count val l).0 ≡ capped (lrem_limit count) (occurrences val l))
      × ((lrem_list count val l).0 + length (lrem_list count val l).1 ≡ length l)
      × IsCut count val l (lrem_list count val l).1
unfolding lrem_list
lrem_list_lem (pos zero) val l = (
  omega (arith, ap (λ r. r.0) (lrem_from-all val 0 l)),
  omega (arith, lrem_from-length val none 0 l),
  ap (λ r. r.1) (lrem_from-all val 0 l),
)
lrem_list_lem (pos (suc n)) val l = (
  omega (arith, lrem_from-count val (suc n) 0 l (omega arith)),
  omega (arith, lrem_from-length val (some (suc n)) 0 l),
  lrem_from-IsHeadCut val (suc n) 0 l,
)
lrem_list_lem (negsuc n) val l = (
  omega (arith, lrem_from-count val (suc n) 0 (reverse l) (omega arith), occurrences-reverse val l),
  omega (
    arith,
    lrem_from-length val (some (suc n)) 0 (reverse l),
    length-reverse (lrem_from val (some (suc n)) 0 (reverse l)).1,
    length-reverse l,
  ),
  IsTailCut-reverse val l (lrem_from val (some (suc n)) 0 (reverse l)).1
      (lrem_from-IsHeadCut val (suc n) 0 (reverse l)),
)

-- ===== src/Lists/Deque.antt =====
-- commands/lists.py: what the commands do to a deque, and how they read index arguments.
use kagni.Prelude.{
  ℕ, zero, suc, ◌+◌, ◌-◌, ℤ, pos, pos_part, ◌+ℤ◌, ltb_ℤ, leb_ℤ, is_neg, ◌||◌, Bool, true, false,
  Option, none, some, List, [], ◌∷◌, ◌++◌, reverse, if◌then◌else◌, length, take, drop,
}

-- A negative index counts from the tail.
unfoldable pub from_tail : ℤ → ℕ → ℤ
from_tail i length = if is_neg i then i +ℤ pos length else i

-- The start and the inclusive end of LRANGE and LTRIM within a list of `length` elements; `none` if
-- the range is empty.
unfoldable pub clamp : ℤ → ℤ → ℕ → Option (ℕ × ℕ)
clamp s e length =
    let s' : ℤ = if is_neg s then pos 0 else s in
    if ltb_ℤ e s' || leb_ℤ (pos length) s'
    then none
    else some (pos_part s', if leb_ℤ (pos length) e then length - 1 else pos_part e)

unfoldable pub window : ℤ → ℤ → ℕ → Option (ℕ × ℕ)
unfolding from_tail clamp
window start end length = clamp (from_tail start length) (from_tail end length) length

-- The position of LINDEX and LSET; `none` if it is out of range.
unfoldable pub position : ℤ → ℕ → Option ℕ
unfolding from_tail
position index length =
    let i = from_tail index length in
    if is_neg i || leb_ℤ (pos length) i then none else some (pos_part i)

module _ {ℓ} {A : Type ℓ} where
  -- `list(islice(lst, start, end + 1))`
  unfoldable pub slice : ℕ → ℕ → List A → List A
  slice start end l = take (end + 1 - start) (drop start l)

  -- `extendleft` and `extend`
  unfoldable pub extend : Bool → List A → List A → List A
  extend left vals l = if left then reverse vals ++ l else l ++ vals

  -- `pop()` of the deque that has `x` and then `l`
  unfoldable pub pop_last : A → List A → A × List A
  pop_last x [] = (x, [])
  pop_last x (y ∷ l) = let (v, rest) = pop_last y l in (v, x ∷ rest)

  -- `popleft()` or `pop()`; none if the deque is empty
  unfoldable pub pop_one : Bool → List A → Option (A × List A)
  unfolding pop_last
  pop_one left [] = none
  pop_one true (x ∷ l) = some (x, l)
  pop_one false (x ∷ l) = some (pop_last x l)

  -- `[popfn() for _ in range(n)]`, and the deque that is left
  unfoldable pub pop_many : Bool → ℕ → List A → List A × List A
  unfolding pop_one
  pop_many left zero l = ([], l)
  pop_many left (suc n) l = elim (pop_one left l) [
    | none ↦ ([], l)
    | some (v, rest) ↦ let (vs, last) = pop_many left n rest in (v ∷ vs, last)
  ]

  -- `appendleft` or `append`
  unfoldable pub push_one : Bool → A → List A → List A
  push_one left v l = if left then v ∷ l else l ++ v ∷ []

  -- `lst.insert(i, val)`
  unfoldable pub insert_at : ℕ → A → List A → List A
  insert_at zero v l = v ∷ l
  insert_at (suc i) v [] = v ∷ []
  insert_at (suc i) v (x ∷ l) = x ∷ insert_at i v l

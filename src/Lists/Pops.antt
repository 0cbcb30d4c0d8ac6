-- ===== src/Lists/Pops.antt =====
-- commands/lists.py: what the pops of LPOP, RPOP and LMPOP take from a list and leave of it.
use kagni.Prelude.{
  ℕ, zero, suc, Bool, true, false, List, [], ◌∷◌, ◌++◌, reverse, ◌≡◌, refl, ap, ◌∙◌, if◌then◌else◌,
  take, drop, some, reverse-cons, reverse-reverse, sym,
}
use kagni.Lists.Deque.{pop_last, pop_one, pop_many}

module _ {ℓ} {A : Type ℓ} where
  pop_last-snoc : (x : A) (l : List A) (y : A) → pop_last x (l ++ y ∷ []) ≡ (y, x ∷ l)
  unfolding pop_last
  pop_last-snoc x [] y = refl
  pop_last-snoc x (z ∷ l) y = rw (pop_last-snoc z l y)

  pop_one-snoc : (l : List A) (y : A) → pop_one false (l ++ y ∷ []) ≡ some (y, l)
  unfolding pop_one
  pop_one-snoc [] y = refl
  pop_one-snoc (x ∷ l) y = rw (pop_last-snoc x l y)

  pop_many-head : (n : ℕ) (l : List A) → pop_many true n l ≡ (take n l, drop n l)
  unfolding pop_many pop_one
  pop_many-head zero l = refl
  pop_many-head (suc n) [] = refl
  pop_many-head (suc n) (x ∷ l) = rw (pop_many-head n l)

  pop_many-reversed :
      (n : ℕ) (l : List A) → pop_many false n (reverse l) ≡ (take n l, reverse (drop n l))
  unfolding pop_many
  pop_many-reversed zero l = refl
  pop_many-reversed (suc n) [] = refl
  pop_many-reversed (suc n) (x ∷ l) =
      rw (reverse-cons x l, pop_many, pop_one-snoc (reverse l) x, pop_many-reversed n l)

  -- the list as the pops go through it: from the head, or from the tail
  abbrev pub from_side : Bool → List A → List A
  from_side left l = if left then l else reverse l

  -- The pops take the first `n` elements in the order from their side of the list, or all of them
  -- if there are fewer, report them in that order, and leave the others as they stood.
  pub pop_many_lem :
      (left : Bool) (n : ℕ) (l : List A)
      → pop_many left n l ≡ (take n (from_side left l), from_side left (drop n (from_side left l)))
  pop_many_lem true n l = pop_many-head n l
  pop_many_lem false n l =
      ap (pop_many false n) (sym (reverse-reverse l)) ∙ pop_many-reversed n (reverse l)

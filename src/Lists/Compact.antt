-- ===== src/Lists/Compact.antt =====
-- commands/lists.py: every list command leaves no empty list behind, returned or raised.
pub mod Edits
pub mod Moves
pub mod Calls
use kagni.Prelude.{
  ℕ, zero, suc, ◌+◌, ◌-◌, ℤ, pos, negsuc, ◌≡◌, refl, Bool, true, false, not, ◌&&◌, Option, none,
  some, List, [], ◌∷◌, ◌++◌, reverse, Bytes, ◌==◌, nat_eq, bytes_eq, if◌then◌else◌, is_empty,
  length, set, arith, min, pos_part, reverse-cons,
}
use kagni.Events.{Event}
use kagni.Data
use kagni.Data.{Clock, Entry, Data}
use kagni.Resp.{Reply}
use kagni.Common.{
  Stored, elements, Command, Result, ok, err, pure, raise, raise_if, modify, ◌>>=◌, ◌>>◌,
  after_write, notify, update, remove,
}
use kagni.Common.Errors.{nokey, index_range, not_positive, arity}
use kagni.Common.Keeps.{
  Keeps, Keeps-bind, Keeps-if, Keeps-pure, Keeps-raise, Keeps-raise_if, Keeps-modify, Keeps-lift,
  Keeps-assoc,
}
use kagni.Lists.Deque.{
  window, position, slice, extend, pop_last, pop_one, pop_many, push_one, insert_at,
}
use kagni.Lists.Basic.{
  list_at, store_list, drop_empty, pop_notify, push_event, pop_event, push_onto, push, lpush, rpush,
  lpushx, rpushx, llen, lrange, lindex, pop_from, pop_list, pop, lpop, rpop, is_zero_count,
  nil_or_array, bulks, require_value, is_negative_count,
}
use kagni.Lists.Edit.{lset, ltrim, lrem, linsert_into, linsert}
use kagni.Lists.Move.{
  rotate, transfer, move_popped, move, lmove, rpoplpush, lmpop_from, lmpop_keys, lmpop,
}
use kagni.Lists.Search.{lpos}
use kagni.Common.NonEmpty.{
  Scope, IsCompact, insert-IsCompact, notify-IsCompact, after_write-IsCompact, update-IsCompact,
  remove-IsCompact, set_item-fills, remove-drops,
}
use kagni.Lists.NonEmpty.{
  full_list, list_at-IsCompact, stored-IsCompact, pop_notify-IsCompact, push_onto-IsCompact,
}

is_empty-append_right : (l r : List Bytes) → is_empty r ≡ false → is_empty (l ++ r) ≡ false
is_empty-append_right [] r p = p
is_empty-append_right (x ∷ l) r p = refl

is_empty-append_left : (l r : List Bytes) → is_empty l ≡ false → is_empty (l ++ r) ≡ false
is_empty-append_left [] r p = absurd (ground (arith, p))
is_empty-append_left (x ∷ l) r p = refl

is_empty-reverse : (l : List Bytes) → is_empty l ≡ false → is_empty (reverse l) ≡ false
is_empty-reverse [] p = p
is_empty-reverse (x ∷ l) p = rw (reverse-cons x l) (is_empty-append_right (reverse l) (x ∷ []) refl)

is_empty-extend :
    (left : Bool) (vals l : List Bytes)
    → is_empty vals ≡ false
    → is_empty (extend left vals l) ≡ false
unfolding extend
is_empty-extend true vals l p = is_empty-append_left (reverse vals) l (is_empty-reverse vals p)
is_empty-extend false vals l p = is_empty-append_right l vals p

pub is_empty-insert_at : (i : ℕ) (v : Bytes) (l : List Bytes) → is_empty (insert_at i v l) ≡ false
unfolding insert_at
is_empty-insert_at zero v l = refl
is_empty-insert_at (suc i) v [] = refl
is_empty-insert_at (suc i) v (x ∷ l) = refl

pub is_empty-push_one :
    (left : Bool) (v : Bytes) (l : List Bytes) → is_empty (push_one left v l) ≡ false
unfolding push_one
is_empty-push_one true v l = refl
is_empty-push_one false v l = is_empty-append_right l (v ∷ []) refl

is_empty-set :
    (l : List Bytes) (i : ℕ) (v : Bytes) → is_empty l ≡ false → is_empty (set l i v) ≡ false
is_empty-set [] i v p = p
is_empty-set (x ∷ l) zero v p = refl
is_empty-set (x ∷ l) (suc i) v p = refl

position-empty : (i : ℤ) → position i 0 ≡ none
unfolding position
position-empty i = ground arith

module _ {Score : Type 0} where
  abbrev set_at : Bytes → Bytes → List Bytes → Option ℕ → Command (Stored Score) Reply
  set_at key v l none = raise index_range
  set_at key v l (some i) = do
    store_list key (set l i v)
    modify (after_write key Event.lset)
    pure Reply.ok

  abbrev set_in : Bytes → ℤ → Bytes → List Bytes → Command (Stored Score) Reply
  set_in key i v l = set_at key v l (position i (length l))

module _ {Score : Type 0} {scope : Scope} where
  pub popped-IsCompact :
      {A : Type 0} (key : Bytes) (left : Bool) (rest : List Bytes) (a : A)
      → Keeps
          (IsCompact scope)
          (do store_list {Score = Score} key rest; drop_empty key rest; pop_notify key left; pure a)
  popped-IsCompact key left rest a =
      Keeps-assoc (IsCompact scope) (store_list key rest) (drop_empty key rest)
        (pop_notify key left >> pure a)
        (Keeps-bind (store_list key rest >> drop_empty key rest)
          (λ _. pop_notify key left >> pure a) (stored-IsCompact key rest)
          λ _.
            Keeps-bind (pop_notify key left) (λ _. pure a) (pop_notify-IsCompact key left)
              (λ _. Keeps-pure a))

  fresh-IsCompact :
      (key : Bytes) (vals : List Bytes) (left : Bool)
      → is_empty (extend left vals []) ≡ false
      → Keeps
          (IsCompact scope)
          (modify (Data.set_item key (elements [])) >> push_onto {Score = Score} key vals left [])
  unfolding push_onto
  fresh-IsCompact key vals left full = record {
    at = λ c d h. after_write-IsCompact key (push_event left) _ (
        set_item-fills d key (elements (extend left vals [])) (elements [])
          (full_list Score scope _ full) h);
  }

  -- a command that reads a list and goes on from it
  pub found-IsCompact :
      (key : Bytes) (n : Command (Stored Score) Reply)
      (s : List Bytes → Command (Stored Score) Reply)
      → Keeps (IsCompact scope) n
      → ((l : List Bytes) → Keeps (IsCompact scope) (s l))
      → Keeps (IsCompact scope) (list_at key >>= λ found. elim found [ none ↦ n | some l ↦ s l ])
  found-IsCompact key n s kn ks =
      Keeps-bind (list_at key) (λ found. elim found [ none ↦ n | some l ↦ s l ])
        (list_at-IsCompact key) λ found. cases found
    where
      cases :
          (found : Option (List Bytes))
          → Keeps
              (IsCompact scope)
              (elim found as (λ _. Command (Stored Score) Reply) [ none ↦ n | some l ↦ s l ])
      cases none = kn
      cases (some l) = ks l

  -- a list that is stored with a notification
  pub written-IsCompact :
      {A : Type 0} (key : Bytes) (l : List Bytes) (ev : Event) (a : A)
      → is_empty l ≡ false
      → Keeps
          (IsCompact scope)
          (do store_list {Score = Score} key l; modify (after_write key ev); pure a)
  written-IsCompact key l ev a full =
      Keeps-bind (store_list key l) (λ _. modify (after_write key ev) >> pure a)
        (Keeps-modify (update key (elements l))
          λ d h. update-IsCompact d key (elements l) (full_list Score scope l full) h)
        λ _.
          Keeps-bind (modify (after_write key ev)) (λ _. pure a)
            (Keeps-modify (after_write key ev) (after_write-IsCompact key ev)) λ _. Keeps-pure a

  pub removed-IsCompact :
      {A : Type 0} (key : Bytes) (a : A)
      → Keeps (IsCompact scope) (remove {V = Stored Score} key >> pure a)
  removed-IsCompact key a =
      Keeps-bind (remove key) (λ _. pure a) (remove-IsCompact key) (λ _. Keeps-pure a)

  pop_from-IsCompact :
      (key : Bytes) (count : Option ℤ) (left : Bool) (l : List Bytes)
      → Keeps (IsCompact scope) (pop_from {Score = Score} key count left l)
  unfolding pop_from pop_one
  pop_from-IsCompact key none true [] = Keeps-pure Reply.nil
  pop_from-IsCompact key none false [] = Keeps-pure Reply.nil
  pop_from-IsCompact key none true (x ∷ l) = popped-IsCompact key true l (Reply.bulk x)
  pop_from-IsCompact key none false (x ∷ l) =
      popped-IsCompact key false (pop_last x l).1 (Reply.bulk (pop_last x l).0)
  pop_from-IsCompact key (some count) left l =
      let (popped, rest) = pop_many left (min (pos_part count) (length l)) l in
      popped-IsCompact key left rest (Reply.arr (bulks popped))

  pop_list-IsCompact :
      (key : Bytes) (count : Option ℤ) (left : Bool) (l : List Bytes)
      → Keeps (IsCompact scope) (pop_list {Score = Score} key count left l)
  unfolding pop_list
  pop_list-IsCompact key count left l = Keeps-if (is_zero_count count) _ _ (Keeps-pure _) (
      Keeps-if (is_empty l) _ _ (removed-IsCompact key (nil_or_array count))
        (pop_from-IsCompact key count left l))

  pub pop-IsCompact :
      (key : Bytes) (count : Option ℤ) (left : Bool)
      → Keeps (IsCompact scope) (pop {Score = Score} key count left)
  unfolding pop
  pop-IsCompact key count left =
      let n : Command (Stored Score) Reply = pure (nil_or_array count) in
      Keeps-bind (raise_if (is_negative_count count) not_positive)
        (λ _. list_at key >>= λ found. elim found [ none ↦ n | some l ↦ pop_list key count left l ])
        (Keeps-raise_if (is_negative_count count) not_positive)
        λ _.
          found-IsCompact key n (λ l. pop_list key count left l) (Keeps-pure (nil_or_array count))
            λ l. pop_list-IsCompact key count left l

  push-IsCompact :
      (key : Bytes) (vals : List Bytes) (left xx : Bool)
      → is_empty vals ≡ false
      → Keeps (IsCompact scope) (push {Score = Score} key vals left xx)
  unfolding push
  push-IsCompact key vals left xx full =
      found-IsCompact key _ (λ l. push_onto key vals left l)
        (Keeps-if xx _ _ (Keeps-pure _)
          (fresh-IsCompact key vals left (is_empty-extend left vals [] full)))
        λ l. push_onto-IsCompact key vals left l (is_empty-extend left vals l full)

  pub required-IsCompact :
      (key : Bytes) (vals : List Bytes) (left xx : Bool) (command : Bytes)
      → Keeps
          (IsCompact scope)
          (require_value {Score = Score} vals command >> push key vals left xx)
  required-IsCompact key [] left xx command = record { at = λ c d h. h }
  required-IsCompact key (v ∷ vals) left xx command =
      Keeps-bind (require_value (v ∷ vals) command) (λ _. push key (v ∷ vals) left xx)
        (Keeps-raise_if false (arity command)) λ _. push-IsCompact key (v ∷ vals) left xx refl

  set_at-IsCompact :
      (key : Bytes) (l : List Bytes) (v : Bytes) (o : Option ℕ)
      → is_empty l ≡ false
      → Keeps (IsCompact {Score = Score} scope) (set_at key v l o)
  set_at-IsCompact key l v none full = Keeps-raise index_range
  set_at-IsCompact key l v (some i) full =
      written-IsCompact key (set l i v) Event.lset Reply.ok (is_empty-set l i v full)

  pub lset-IsCompact :
      (key : Bytes) (i : ℤ) (v : Bytes) → Keeps (IsCompact scope) (lset {Score = Score} key i v)
  unfolding lset
  lset-IsCompact key i v =
      found-IsCompact key (raise nokey) (set_in key i v) (Keeps-raise nokey) λ l. in_list l
    where
      in_list : (l : List Bytes) → Keeps (IsCompact {Score = Score} scope) (set_in key i v l)
      in_list [] = rw (position-empty i) (Keeps-raise index_range)
      in_list (x ∷ l) = set_at-IsCompact key (x ∷ l) v (position i (length (x ∷ l))) refl

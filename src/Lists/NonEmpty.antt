-- ===== src/Lists/NonEmpty.antt =====
-- "Empty lists are deleted immediately": the steps of the list commands.
pub mod TwoLists
use kagni.Prelude.{
  ◌≡◌, refl, Bool, true, false, not, Option, none, some, List, [], ◌∷◌, Bytes, bytes_eq,
  if◌then◌else◌, is_empty, arith,
}
use kagni.Events.{Event}
use kagni.Data
use kagni.Data.{Clock, Data}
use kagni.Common.{Stored, elements, pure, ◌>>◌, after_write, notify, update, expect_kind, kind_list}
use kagni.Common.Keeps.{Keeps, Keeps-bind, Keeps-pure}
use kagni.Common.NonEmpty.{
  Scope, has_elements, IsCompact, notify-IsCompact, after_write-IsCompact, expect_kind-IsCompact,
  remove-drops, update-IsCompact,
}
use kagni.Lists.Basic.{
  deque_of, list_at, store_list, drop_empty, pop_notify, push_onto, push_event, pop_event,
}
use kagni.Lists.Deque.{extend}

pub full_list :
    (Score : Type 0) (scope : Scope) (l : List Bytes)
    → is_empty l ≡ false
    → has_elements {Score = Score} scope (elements l) ≡ true
full_list Score scope [] p = absurd (ground (arith, p))
full_list Score scope (x ∷ l) p = refl

module _ {Score : Type 0} {scope : Scope} where
  pub list_at-IsCompact : (k : Bytes) → Keeps (IsCompact scope) (list_at {Score = Score} k)
  unfolding list_at
  list_at-IsCompact k =
      Keeps-bind (expect_kind k kind_list) (λ found. pure (deque_of found))
        (expect_kind-IsCompact k kind_list) (λ a. Keeps-pure (deque_of a))

  -- a list that is stored, and dropped if it is empty
  pub stored-IsCompact :
      (key : Bytes) (l : List Bytes)
      → Keeps (IsCompact scope) (store_list {Score = Score} key l >> drop_empty key l)
  stored-IsCompact key [] = record { at = λ c d h. remove-drops key (elements []) c d h }
  stored-IsCompact key (v ∷ l) = record {
    at = λ c d h. update-IsCompact d key (elements (v ∷ l)) refl h;
  }

  notified_if :
      (b : Bool) (key : Bytes) (d : Data (Stored Score))
      → IsCompact scope d
      → IsCompact scope (if b then notify key Event.del d else d)
  notified_if true key d h = notify-IsCompact key Event.del d h
  notified_if false key d h = h

  pub pop_notify-IsCompact :
      (key : Bytes) (left : Bool) → Keeps (IsCompact scope) (pop_notify {Score = Score} key left)
  pop_notify-IsCompact key left = record {
    at = λ c d h.
        notified_if (not (Data.is_live key c (after_write key (pop_event left) d))) key
          (after_write key (pop_event left) d) (after_write-IsCompact key (pop_event left) d h);
  }

  pub push_onto-IsCompact :
      (key : Bytes) (vals : List Bytes) (left : Bool) (l : List Bytes)
      → is_empty (extend left vals l) ≡ false
      → Keeps (IsCompact scope) (push_onto {Score = Score} key vals left l)
  unfolding push_onto
  push_onto-IsCompact key vals left l full = record {
    at = λ c d h.
        after_write-IsCompact key (push_event left) (update key (elements (extend left vals l)) d) (
          update-IsCompact d key (elements (extend left vals l))
            (full_list Score scope (extend left vals l) full) h);
  }

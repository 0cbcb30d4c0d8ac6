-- ===== src/Lists/Basic.antt =====
-- commands/lists.py: LPUSH, RPUSH, LPUSHX, RPUSHX, LLEN, LRANGE, LINDEX, LPOP and RPOP.
use kagni.Prelude.{
  ℤ, pos, is_neg, beq_ℤ, min, Bool, true, false, not, Option, none, some, List, [], ◌∷◌, Bytes,
  if◌then◌else◌, length, get_elem?, is_empty, pos_part,
}
use kagni.Events.{Event}
use kagni.Data
use kagni.Data.{Clock, Data}
use kagni.Text.{codes}
use kagni.Resp.{Reply, Replies}
use kagni.Common.Errors.{arity, not_positive}
use kagni.Common.{
  Stored, elements, kind_list, Command, ok, pure, modify, raise_if, ◌>>=◌, ◌>>◌, expect_kind,
  after_write, notify, update, remove,
}
use kagni.Lists.Deque.{window, position, slice, extend, pop_one, pop_many}

unfoldable pub bulks : List Bytes → Replies
bulks [] = Replies.empty
bulks (b ∷ bs) = Replies.item (Reply.bulk b) (bulks bs)

-- The deque of a stored value that has passed the test for its kind.
abbrev pub deque_of : {Score : Type 0} → Option (Stored Score) → Option (List Bytes)
deque_of (some (elements l)) = some l
deque_of _ = none

abbrev pub push_event : Bool → Event
push_event true = Event.lpush
push_event false = Event.rpush

abbrev pub pop_event : Bool → Event
pop_event true = Event.lpop
pop_event false = Event.rpop

abbrev pub is_negative_count : Option ℤ → Bool
is_negative_count none = false
is_negative_count (some n) = is_neg n

abbrev pub is_zero_count : Option ℤ → Bool
is_zero_count none = false
is_zero_count (some n) = beq_ℤ n (pos 0)

unfoldable pub lrange_of : ℤ → ℤ → List Bytes → List Bytes
unfolding window slice
lrange_of start end l = elim (window start end (length l)) [ none ↦ [] | some (s, e) ↦ slice s e l ]

unfoldable pub lindex_of : ℤ → List Bytes → Option Bytes
unfolding position
lindex_of index l = elim (position index (length l)) [ none ↦ none | some i ↦ get_elem? l i ]

abbrev pub bulk_or_nil : Option Bytes → Reply
bulk_or_nil none = Reply.nil
bulk_or_nil (some b) = Reply.bulk b

abbrev pub nil_or_array : Option ℤ → Reply
nil_or_array none = Reply.nil
nil_or_array (some n) = Reply.nil_array

module _ {Score : Type 0} where
  -- `_list`
  unfoldable pub list_at : Bytes → Command (Stored Score) (Option (List Bytes))
  unfolding expect_kind
  list_at key = expect_kind key kind_list >>= λ found. pure (deque_of found)

  -- the deque under `key` after it was changed in place
  abbrev pub store_list : Bytes → List Bytes → Command (Stored Score) (Unit {0})
  store_list key l = modify (update key (elements l))

  abbrev pub drop_empty : Bytes → List Bytes → Command (Stored Score) (Unit {0})
  drop_empty key l = if is_empty l then (remove key >> pure tt) else pure tt

  abbrev pub pop_notify : Bytes → Bool → Command (Stored Score) (Unit {0})
  pop_notify key left c d =
      let d' = after_write key (pop_event left) d in
      (ok tt, if not (Data.is_live key c d') then notify key Event.del d' else d')

  -- the rest of `_push`, once there is a deque
  unfoldable pub push_onto : Bytes → List Bytes → Bool → List Bytes → Command (Stored Score) Reply
  unfolding extend update after_write
  push_onto key vals left l = do
    store_list key (extend left vals l)
    modify (after_write key (push_event left))
    pure (Reply.num (pos (length (extend left vals l))))

  unfoldable pub push : Bytes → List Bytes → Bool → Bool → Command (Stored Score) Reply
  unfolding list_at push_onto
  push key vals left xx = list_at key >>= λ found. elim found [
    | none ↦
        if xx
        then pure (Reply.num (pos 0))
        else (modify (Data.set_item key (elements [])) >> push_onto key vals left [])
    | some l ↦ push_onto key vals left l
  ]

  -- `_require_value`
  abbrev pub require_value : List Bytes → Bytes → Command (Stored Score) (Unit {0})
  require_value vals command = raise_if (is_empty vals) (arity command)

  unfoldable pub lpush : Bytes → List Bytes → Command (Stored Score) Reply
  unfolding push
  lpush key vals = do require_value vals (codes "lpush"); push key vals true false

  unfoldable pub rpush : Bytes → List Bytes → Command (Stored Score) Reply
  unfolding push
  rpush key vals = do require_value vals (codes "rpush"); push key vals false false

  unfoldable pub lpushx : Bytes → List Bytes → Command (Stored Score) Reply
  unfolding push
  lpushx key vals = do require_value vals (codes "lpushx"); push key vals true true

  unfoldable pub rpushx : Bytes → List Bytes → Command (Stored Score) Reply
  unfolding push
  rpushx key vals = do require_value vals (codes "rpushx"); push key vals false true

  unfoldable pub llen : Bytes → Command (Stored Score) Reply
  unfolding list_at
  llen key = list_at key >>= λ found.
      pure (Reply.num (elim found [ none ↦ pos 0 | some l ↦ pos (length l) ]))

  unfoldable pub lrange : Bytes → ℤ → ℤ → Command (Stored Score) Reply
  unfolding list_at lrange_of bulks
  lrange key start end = list_at key >>= λ found. pure (elim found [
    | none ↦ Reply.arr Replies.empty
    | some l ↦ Reply.arr (bulks (lrange_of start end l))
  ])

  unfoldable pub lindex : Bytes → ℤ → Command (Stored Score) Reply
  unfolding list_at lindex_of
  lindex key index = list_at key >>= λ found.
      pure (elim found [ none ↦ Reply.nil | some l ↦ bulk_or_nil (lindex_of index l) ])

  -- the pop of `n` elements, or of one where no count was given
  unfoldable pub pop_from : Bytes → Option ℤ → Bool → List Bytes → Command (Stored Score) Reply
  unfolding pop_one pop_many update after_write notify
  pop_from key none left l = elim (pop_one left l) [
    | none ↦ pure Reply.nil
    | some (val, rest) ↦ do
      store_list key rest
      drop_empty key rest
      pop_notify key left
      pure (Reply.bulk val)
  ]
  pop_from key (some count) left l =
      let (popped, rest) = pop_many left (min (pos_part count) (length l)) l in
      do
        store_list key rest
        drop_empty key rest
        pop_notify key left
        pure (Reply.arr (bulks popped))

  unfoldable pub pop_list : Bytes → Option ℤ → Bool → List Bytes → Command (Stored Score) Reply
  unfolding pop_from
  pop_list key count left l =
      if is_zero_count count
      then pure (Reply.arr Replies.empty)
      else if is_empty l
      then (remove key >> pure (nil_or_array count))
      else pop_from key count left l

  unfoldable pub pop : Bytes → Option ℤ → Bool → Command (Stored Score) Reply
  unfolding list_at pop_list
  pop key count left = do
    raise_if (is_negative_count count) not_positive
    found ← list_at key
    elim found [ none ↦ pure (nil_or_array count) | some l ↦ pop_list key count left l ]

  unfoldable pub lpop : Bytes → Option ℤ → Command (Stored Score) Reply
  unfolding pop
  lpop key count = pop key count true

  unfoldable pub rpop : Bytes → Option ℤ → Command (Stored Score) Reply
  unfolding pop
  rpop key count = pop key count false

-- ===== src/Lists/Move.antt =====
-- commands/lists.py: LMOVE, RPOPLPUSH and LMPOP.
use kagni.Prelude.{
  ℕ, ◌+◌, ℤ, pos, pos_part, ltb, ltb_ℤ, min, Bool, true, false, Option, none, some, List, [], ◌∷◌,
  Bytes, ◌==◌, bytes_eq, if◌then◌else◌, length, is_empty, get_elem?, take, drop,
}
use kagni.Events.{Event}
use kagni.Data
use kagni.Text.{codes, upper}
use kagni.Resp.{Reply, Replies}
use kagni.Common.Errors.{syntax, not_int, numkeys_positive, count_positive}
use kagni.Common.{
  Stored, elements, Command, Result, ok, err, pure, raise, modify, raise_if, ◌>>=◌, ◌>>◌,
  after_write, notify, update, remove, string2ll,
}
use kagni.Lists.Deque.{pop_one, pop_many, push_one}
use kagni.Lists.Basic.{bulks, push_event, pop_event, list_at, store_list, drop_empty, pop_notify}

-- `_list_side`: true for LEFT
unfoldable pub list_side : Bytes → Option Bool
unfolding upper
list_side place =
    if upper place == codes "LEFT"
    then some true
    else if upper place == codes "RIGHT"
    then some false
    else none

-- The options of LMPOP after the side; the count is 1 unless it is given, once.
unfoldable pub lmpop_count : List Bytes → Result ℕ
unfolding upper string2ll
lmpop_count [] = ok 1
lmpop_count (option ∷ []) = err syntax
lmpop_count (option ∷ raw ∷ rest) =
    if upper option == codes "COUNT"
    then elim (string2ll raw) [
      | none ↦ err not_int
      | some n ↦
          if ltb_ℤ n (pos 1)
          then err count_positive
          else if is_empty rest
          then ok (pos_part n)
          else err syntax
    ]
    else err syntax

module _ {Score : Type 0} where
  -- the element goes back into the list that it came from
  unfoldable pub rotate : Bytes → Bool → Bool → Bytes → List Bytes → Command (Stored Score) Reply
  unfolding push_one update after_write
  rotate key from_left to_left value rest = do
    store_list key (push_one to_left value rest)
    modify (after_write key (push_event to_left))
    modify (after_write key (pop_event from_left))
    pure (Reply.bulk value)

  unfoldable pub transfer :
      Bytes
      → Bytes
      → Bool
      → Bool
      → Bytes
      → List Bytes
      → Option (List Bytes)
      → Command (Stored Score) Reply
  unfolding push_one update after_write notify
  transfer source destination from_left to_left value rest dst = do
    store_list source rest
    elim dst [ none ↦ modify (Data.set_item destination (elements [])) | some _ ↦ pure tt ]
    store_list destination (push_one to_left value (elim dst [ none ↦ [] | some l ↦ l ]))
    modify (after_write destination (push_event to_left))
    modify (after_write source (pop_event from_left))
    if is_empty rest then (remove source >> modify (notify source Event.del)) else pure tt
    pure (Reply.bulk value)

  unfoldable pub move_popped :
      Bytes → Bytes → Bool → Bool → Option (Bytes × List Bytes) → Command (Stored Score) Reply
  unfolding list_at rotate transfer
  move_popped source destination from_left to_left none = remove source >> pure Reply.nil
  move_popped source destination from_left to_left (some (value, rest)) =
      if destination == source
      then rotate source from_left to_left value rest
      else list_at destination >>= λ dst.
          transfer source destination from_left to_left value rest dst

  -- `_move`. The destination is read before the pop, which changes nothing but the source.
  unfoldable pub move : Bytes → Bytes → Bool → Bool → Command (Stored Score) Reply
  unfolding list_at pop_one move_popped
  move source destination from_left to_left = list_at source >>= λ src. elim src [
    | none ↦ pure Reply.nil
    | some l ↦ move_popped source destination from_left to_left (pop_one from_left l)
  ]

  abbrev pub side_or_raise : Bytes → Command (Stored Score) Bool
  side_or_raise place = elim (list_side place) [ none ↦ raise syntax | some left ↦ pure left ]

  unfoldable pub lmove : Bytes → Bytes → Bytes → Bytes → Command (Stored Score) Reply
  unfolding list_side move
  lmove source destination wherefrom whereto = side_or_raise wherefrom >>= λ from_left.
      side_or_raise whereto >>= λ to_left. move source destination from_left to_left

  unfoldable pub rpoplpush : Bytes → Bytes → Command (Stored Score) Reply
  unfolding move
  rpoplpush source destination = move source destination false true

  unfoldable pub lmpop_from : Bytes → Bool → ℕ → List Bytes → Command (Stored Score) Reply
  unfolding pop_many update after_write notify bulks
  lmpop_from key from_left count l =
      let (popped, rest) = pop_many from_left (min count (length l)) l in
      do
        store_list key rest
        drop_empty key rest
        pop_notify key from_left
        pure (
            Reply.arr (
              Replies.item (Reply.bulk key)
                (Replies.item (Reply.arr (bulks popped)) Replies.empty)))

  -- `for key in keys`
  unfoldable pub lmpop_keys : Bool → ℕ → List Bytes → Command (Stored Score) Reply
  unfolding list_at lmpop_from
  lmpop_keys from_left count [] = pure Reply.nil_array
  lmpop_keys from_left count (key ∷ keys) =
      let later = lmpop_keys from_left count keys in
      list_at key >>= λ found. elim found [
        | none ↦ later
        | some l ↦ if is_empty l then (remove key >> later) else lmpop_from key from_left count l
      ]

  abbrev pub lift : {A : Type 0} → Result A → Command (Stored Score) A
  lift r c d = (r, d)

  unfoldable pub lmpop : ℤ → List Bytes → Command (Stored Score) Reply
  unfolding list_side lmpop_count lmpop_keys
  lmpop numkeys rest =
      let n = pos_part numkeys in
      do
        raise_if (ltb_ℤ numkeys (pos 1)) numkeys_positive
        raise_if (ltb (length rest) (n + 1)) syntax
        from_left ← side_or_raise (elim (get_elem? rest n) [ none ↦ [] | some place ↦ place ])
        count ← lift (lmpop_count (drop (n + 1) rest))
        lmpop_keys from_left count (take n rest)

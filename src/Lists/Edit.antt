-- ===== src/Lists/Edit.antt =====
-- commands/lists.py: LSET, LTRIM, LREM and LINSERT.
use kagni.Prelude.{
  ℕ, zero, suc, ◌+◌, ◌-◌, ℤ, pos, negsuc, ltb, true, ◌&&◌, Option, none, some, List, [], ◌∷◌,
  reverse, Bytes, ◌==◌, nat_eq, bytes_eq, if◌then◌else◌, length, set, is_empty,
}
use kagni.Events.{Event}
use kagni.Data
use kagni.Text.{codes, upper}
use kagni.Resp.{Reply}
use kagni.Common.Errors.{nokey, index_range, syntax}
use kagni.Common.{
  Stored, elements, Command, ok, pure, raise, modify, ◌>>=◌, ◌>>◌, after_write, notify, update,
  remove,
}
use kagni.Lists.Deque.{window, position, slice, insert_at}
use kagni.Lists.Basic.{list_at, store_list}

-- The loop of LREM over the elements in the order in which it visits them: how many it removed,
-- and the elements that it kept, in that order. `limit` is none for a count of 0.
unfoldable pub lrem_from : Bytes → Option ℕ → ℕ → List Bytes → ℕ × List Bytes
lrem_from val limit removed [] = (removed, [])
lrem_from val limit removed (item ∷ rest) =
    let hit = item == val && elim limit [ none ↦ true | some k ↦ ltb removed k ] in
    let (n, kept) = lrem_from val limit (if hit then removed + 1 else removed) rest in
    (n, if hit then kept else item ∷ kept)

-- A negative count goes over the deque from the tail, and builds the kept elements with
-- `appendleft`.
unfoldable pub lrem_list : ℤ → Bytes → List Bytes → ℕ × List Bytes
unfolding lrem_from
lrem_list (pos zero) val l = lrem_from val none 0 l
lrem_list (pos (suc n)) val l = lrem_from val (some (suc n)) 0 l
lrem_list (negsuc n) val l =
    let (removed, kept) = lrem_from val (some (suc n)) 0 (reverse l) in (removed, reverse kept)

-- The first element that equals the pivot, by its index.
unfoldable pub index_of : Bytes → List Bytes → Option ℕ
index_of pivot [] = none
index_of pivot (item ∷ rest) =
    let later : Option ℕ = elim (index_of pivot rest) [ none ↦ none | some i ↦ some (suc i) ] in
    if item == pivot then some 0 else later

-- 0 for BEFORE and 1 for AFTER
unfoldable pub insert_offset : Bytes → Option ℕ
unfolding upper
insert_offset place =
    if upper place == codes "BEFORE"
    then some 0
    else if upper place == codes "AFTER"
    then some 1
    else none

module _ {Score : Type 0} where
  unfoldable pub lset : Bytes → ℤ → Bytes → Command (Stored Score) Reply
  unfolding list_at position update after_write
  lset key index val = list_at key >>= λ found. elim found [
    | none ↦ raise nokey
    | some l ↦ elim (position index (length l)) [
      | none ↦ raise index_range
      | some i ↦ do store_list key (set l i val); modify (after_write key Event.lset); pure Reply.ok
    ]
  ]

  unfoldable pub ltrim : Bytes → ℤ → ℤ → Command (Stored Score) Reply
  unfolding list_at window slice after_write
  ltrim key start end = list_at key >>= λ found. elim found [
    | none ↦ pure Reply.ok
    | some l ↦ elim (window start end (length l)) [
      | none ↦ remove key >> pure Reply.ok
      | some (s, e) ↦
          modify (after_write key Event.ltrim)
          >> (if s == 0 && e == length l - 1 then pure Reply.ok else λ c d.
              (ok Reply.ok, Data.set_value key (elements (slice s e l)) none true c d))
    ]
  ]

  unfoldable pub lrem : Bytes → ℤ → Bytes → Command (Stored Score) Reply
  unfolding list_at lrem_list after_write notify
  lrem key count val = list_at key >>= λ found. elim found [
    | none ↦ pure (Reply.num (pos 0))
    | some l ↦
        let (removed, kept) = lrem_list count val l in
        if removed == 0
        then pure (Reply.num (pos removed))
        else modify (after_write key Event.lrem)
          >> (if is_empty kept then (remove key >> modify (notify key Event.del)) else λ c d.
              (ok tt, Data.set_value key (elements kept) none true c d))
          >> pure (Reply.num (pos removed))
  ]

  unfoldable pub linsert_into :
      Bytes → ℕ → Bytes → Bytes → List Bytes → Command (Stored Score) Reply
  unfolding index_of insert_at update after_write
  linsert_into key offset pivot val l = elim (index_of pivot l) [
    | none ↦ pure (Reply.num (negsuc 0))
    | some i ↦ do
      store_list key (insert_at (i + offset) val l)
      modify (after_write key Event.linsert)
      pure (Reply.num (pos (length (insert_at (i + offset) val l))))
  ]

  unfoldable pub linsert : Bytes → Bytes → Bytes → Bytes → Command (Stored Score) Reply
  unfolding list_at insert_offset linsert_into
  linsert key place pivot val = elim (insert_offset place) [
    | none ↦ raise syntax
    | some offset ↦ list_at key >>= λ found. elim found [
      | none ↦ pure (Reply.num (pos 0))
      | some l ↦ linsert_into key offset pivot val l
    ]
  ]

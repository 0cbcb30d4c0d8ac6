-- ===== src/Lists/Compact/Edits.antt =====
-- commands/lists.py: LTRIM, LREM and LINSERT leave no empty list behind.
use kagni.Prelude.{
  ℕ, ◌+◌, ◌-◌, ℤ, pos, negsuc, ◌≡◌, refl, true, false, ◌&&◌, Option, none, some, List, [], ◌∷◌,
  Bytes, ◌==◌, nat_eq, bytes_eq, if◌then◌else◌, is_empty, length, arith,
}
use kagni.Events.{Event}
use kagni.Data
use kagni.Data.{Clock, Entry, Data}
use kagni.Resp.{Reply}
use kagni.Common.{
  Stored, elements, Command, ok, pure, raise, modify, ◌>>=◌, ◌>>◌, after_write, notify, remove,
}
use kagni.Common.Keeps.{Keeps, Keeps-bind, Keeps-if, Keeps-pure, Keeps-raise, Keeps-modify}
use kagni.Lists.Deque.{window, slice, insert_at}
use kagni.Lists.Basic.{list_at, store_list}
use kagni.Lists.Edit.{ltrim, lrem, linsert_into, linsert}
use kagni.Common.NonEmpty.{
  Scope, IsCompact, insert-IsCompact, notify-IsCompact, after_write-IsCompact, remove-IsCompact,
}
use kagni.Lists.NonEmpty.{full_list}
use kagni.Lists.Deque.{clamp, from_tail}
use kagni.Common.Errors.{syntax}
use kagni.Lists.Edit.{lrem_list, index_of, insert_offset}
use kagni.Lists.Compact.{is_empty-insert_at, found-IsCompact, written-IsCompact, removed-IsCompact}
use kagni.Prelude.{length-take, drop, length-drop, ◌<◌, ◌≤◌}

is_empty-length : (l : List Bytes) → 0 < length l → is_empty l ≡ false
is_empty-length [] p = absurd (omega (arith, p))
is_empty-length (x ∷ l) p = refl

clamp-bounds : (s e : ℤ) (n a b : ℕ) → clamp s e n ≡ some (a, b) → (a ≤ b) × (a < n)
unfolding clamp
clamp-bounds (pos s) (pos e) n a b p = ground (arith, p)
clamp-bounds (pos s) (negsuc e) n a b p = ground (arith, p)
clamp-bounds (negsuc s) (pos e) n a b p = ground (arith, p)
clamp-bounds (negsuc s) (negsuc e) n a b p = ground (arith, p)

is_empty-slice : (a b : ℕ) (l : List Bytes) → a ≤ b → a < length l → is_empty (slice a b l) ≡ false
unfolding slice
is_empty-slice a b l p q =
    is_empty-length _ (omega (arith, length-take (b + 1 - a) (drop a l), length-drop a l))

module _ {Score : Type 0} where
  abbrev replace_by : {A : Type 0} → Bytes → List Bytes → A → Command (Stored Score) A
  replace_by key l a c d = (ok a, Data.set_value key (elements l) none true c d)

  abbrev trimmed : Bytes → List Bytes → Option (ℕ × ℕ) → Command (Stored Score) Reply
  trimmed key l none = remove key >> pure Reply.ok
  trimmed key l (some (s, e)) =
      modify (after_write key Event.ltrim)
      >> (if s == 0 && e == length l - 1
          then pure Reply.ok
          else replace_by key (slice s e l) Reply.ok)

  abbrev kept_or_removed : Bytes → List Bytes → Command (Stored Score) (Unit {0})
  kept_or_removed key kept =
      if is_empty kept then (remove key >> modify (notify key Event.del)) else λ c d.
      (ok tt, Data.set_value key (elements kept) none true c d)

module _ {Score : Type 0} where
  abbrev lrem_in : Bytes → ℤ → Bytes → List Bytes → Command (Stored Score) Reply
  lrem_in key count val l =
      let (removed, kept) = lrem_list count val l in
      if removed == 0
      then pure (Reply.num (pos removed))
      else modify (after_write key Event.lrem)
        >> kept_or_removed key kept
        >> pure (Reply.num (pos removed))

  abbrev inserted : Bytes → ℕ → Bytes → List Bytes → Option ℕ → Command (Stored Score) Reply
  inserted key offset val l none = pure (Reply.num (negsuc 0))
  inserted key offset val l (some i) = do
    store_list key (insert_at (i + offset) val l)
    modify (after_write key Event.linsert)
    pure (Reply.num (pos (length (insert_at (i + offset) val l))))

module _ {Score : Type 0} {scope : Scope} where
  set_value-IsCompact :
      (key : Bytes) (l : List Bytes)
      → is_empty l ≡ false
      → (c : Clock) (d : Data (Stored Score)) → IsCompact scope d
      → IsCompact scope (Data.set_value key (elements l) none true c d)
  unfolding Data.set_value
  set_value-IsCompact key l full c d h = insert-IsCompact d key _ (full_list Score scope l full) h

  trimmed-IsCompact :
      (key : Bytes) (l : List Bytes) (w : Option (ℕ × ℕ))
      → ((a b : ℕ) → w ≡ some (a, b) → (a ≤ b) × (a < length l))
      → Keeps (IsCompact {Score = Score} scope) (trimmed key l w)
  trimmed-IsCompact key l none h = removed-IsCompact key Reply.ok
  trimmed-IsCompact key l (some (s, e)) h =
      Keeps-bind (modify (after_write key Event.ltrim))
        (λ _.
          if s == 0 && e == length l - 1
          then pure Reply.ok
          else replace_by key (slice s e l) Reply.ok)
        (Keeps-modify (after_write key Event.ltrim) (after_write-IsCompact key Event.ltrim))
        λ _.
          Keeps-if (s == 0 && e == length l - 1) (pure Reply.ok)
            (replace_by key (slice s e l) Reply.ok) (Keeps-pure Reply.ok)
            (record {
              at =
                  set_value-IsCompact key (slice s e l)
                    (is_empty-slice s e l (h s e refl).0 (h s e refl).1);
            })

  pub ltrim-IsCompact :
      (key : Bytes) (start end : ℤ) → Keeps (IsCompact scope) (ltrim {Score = Score} key start end)
  unfolding ltrim window
  ltrim-IsCompact key start end =
      found-IsCompact key (pure Reply.ok) (λ l. trimmed key l (window start end (length l)))
        (Keeps-pure Reply.ok)
        λ l.
          trimmed-IsCompact key l (window start end (length l))
            (clamp-bounds (from_tail start (length l)) (from_tail end (length l)) (length l))

  kept_or_removed-IsCompact :
      (key : Bytes) (kept : List Bytes)
      → Keeps (IsCompact {Score = Score} scope) (kept_or_removed key kept)
  kept_or_removed-IsCompact key [] =
      Keeps-bind (remove key) (λ _. modify (notify key Event.del)) (remove-IsCompact key)
        λ _. Keeps-modify (notify key Event.del) (notify-IsCompact key Event.del)
  kept_or_removed-IsCompact key (x ∷ kept) = record { at = set_value-IsCompact key (x ∷ kept) refl }

  lrem_in-IsCompact :
      (key : Bytes) (count : ℤ) (val : Bytes) (l : List Bytes)
      → Keeps (IsCompact {Score = Score} scope) (lrem_in key count val l)
  lrem_in-IsCompact key count val l =
      let (removed, kept) = lrem_list count val l in
      Keeps-if (removed == 0) _ _ (Keeps-pure (Reply.num (pos removed))) (
        Keeps-bind (modify (after_write key Event.lrem) >> kept_or_removed key kept)
          (λ _. pure (Reply.num (pos removed)))
          (Keeps-bind (modify (after_write key Event.lrem)) (λ _. kept_or_removed key kept)
            (Keeps-modify (after_write key Event.lrem) (after_write-IsCompact key Event.lrem))
            λ _. kept_or_removed-IsCompact key kept)
          λ _. Keeps-pure (Reply.num (pos removed)))

  pub lrem-IsCompact :
      (key : Bytes) (count : ℤ) (val : Bytes)
      → Keeps (IsCompact scope) (lrem {Score = Score} key count val)
  unfolding lrem
  lrem-IsCompact key count val =
      found-IsCompact key (pure (Reply.num (pos 0))) (lrem_in key count val)
        (Keeps-pure (Reply.num (pos 0))) λ l. lrem_in-IsCompact key count val l

  inserted-IsCompact :
      (key : Bytes) (offset : ℕ) (val : Bytes) (l : List Bytes) (at : Option ℕ)
      → Keeps (IsCompact {Score = Score} scope) (inserted key offset val l at)
  inserted-IsCompact key offset val l none = Keeps-pure (Reply.num (negsuc 0))
  inserted-IsCompact key offset val l (some i) =
      written-IsCompact key (insert_at (i + offset) val l) Event.linsert
        (Reply.num (pos (length (insert_at (i + offset) val l))))
        (is_empty-insert_at (i + offset) val l)

  linsert_into-IsCompact :
      (key : Bytes) (offset : ℕ) (pivot val : Bytes) (l : List Bytes)
      → Keeps (IsCompact scope) (linsert_into {Score = Score} key offset pivot val l)
  unfolding linsert_into
  linsert_into-IsCompact key offset pivot val l =
      inserted-IsCompact key offset val l (index_of pivot l)

  pub linsert-IsCompact :
      (key place pivot val : Bytes)
      → Keeps (IsCompact scope) (linsert {Score = Score} key place pivot val)
  unfolding linsert
  linsert-IsCompact key place pivot val = placed (insert_offset place)
    where
      placed :
          (o : Option ℕ)
          → Keeps (IsCompact scope) (elim o as (λ _. Command (Stored Score) Reply) [
            | none ↦ raise syntax
            | some offset ↦ list_at key >>= λ found. elim found [
              | none ↦ pure (Reply.num (pos 0))
              | some l ↦ linsert_into key offset pivot val l
            ]
          ])
      placed none = Keeps-raise syntax
      placed (some offset) =
          found-IsCompact key (pure (Reply.num (pos 0))) (linsert_into key offset pivot val)
            (Keeps-pure (Reply.num (pos 0))) λ l. linsert_into-IsCompact key offset pivot val l

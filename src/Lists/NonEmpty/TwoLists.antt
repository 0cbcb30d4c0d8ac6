-- ===== src/Lists/NonEmpty/TwoLists.antt =====
-- "Empty lists are deleted immediately", where a command changes two lists.
use kagni.Prelude.{
  ◌≡◌, true, false, none, some, Bytes, bytes_eq, ◌==◌, arith, Option-cases, Bool-cases, inl, inr,
}
use kagni.Dict.{lookup, lookup-insert}
use kagni.Events.{Event}
use kagni.Data
use kagni.Data.{Clock, Entry, Data}
use kagni.Common.{Stored, after_write, update}
use kagni.Common.NonEmpty.{
  Scope, has_elements, equal_keys, IsCompact, IsCompactBut, lookup-update, lookup-remove,
}

-- two lists are changed: what the other keys hold is as before
abbrev pub IsCompactBoth : {Score : Type 0} → Scope → Bytes → Bytes → Data (Stored Score) → Type 0
IsCompactBoth {Score = Score} scope k m d =
    (j : Bytes) (e : Entry (Stored Score))
    → (k == j) ≡ false
    → (m == j) ≡ false
    → lookup j d.storage ≡ some e
    → has_elements scope e.value ≡ true

module _ {Score : Type 0} where
  pub set_item-IsCompactBoth :
      (scope : Scope) (k m : Bytes) (v : Stored Score) (d : Data (Stored Score))
      → IsCompactBoth scope k m d
      → IsCompactBoth scope k m (Data.set_item m v d)
  unfolding Data.set_item
  set_item-IsCompactBoth scope k m v d h j e p q r = ground (
    arith,
    p,
    q,
    r,
    lookup-insert m j (record { value = v; expires_at = none }) d.storage,
    h j e p q,
  )

module _ {Score : Type 0} {scope : Scope} where
  pub update-IsCompactBoth :
      (k m : Bytes) (v : Stored Score) (d : Data (Stored Score))
      → IsCompact scope d
      → IsCompactBoth scope k m (update k v d)
  update-IsCompactBoth k m v d h j e p q r =
      ground (arith, p, r, lookup-update k j v d p, h.at_key j e)

  pub update-fills_but :
      (k m : Bytes) (v : Stored Score) (d : Data (Stored Score))
      → has_elements scope v ≡ true
      → IsCompactBoth scope k m d
      → IsCompactBut scope k (update m v d)
  unfolding update
  update-fills_but k m v d full h = elim (Option-cases (lookup m d.storage)) [
    | inl none_there ↦ record {
      at_other = λ j x p q. elim (Bool-cases (m == j)) [
        | inl same ↦ ground (arith, none_there, q, equal_keys m j same)
        | inr other ↦ ground (arith, none_there, p, q, other, h j x p)
      ];
    }
    | inr (e, there) ↦ record {
      at_other = λ j x p q.
          ground
            (arith, there, p, q, lookup-insert m j (record e { value = v }) d.storage, h j x p);
    }
  ]

  pub remove-IsCompactBut :
      (k : Bytes) (c : Clock) (d : Data (Stored Score))
      → IsCompactBut scope k d
      → IsCompact scope (Data.remove k c d).1
  remove-IsCompactBut k c d h = record {
    at_key = λ j x q. elim (Bool-cases (k == j)) [
      | inl same ↦ ground (arith, same, q, lookup-remove k j c d)
      | inr other ↦ ground (arith, other, q, lookup-remove k j c d, h.at_other j x)
    ];
  }

  pub after_write-IsCompactBut :
      (k m : Bytes) (ev : Event) (d : Data (Stored Score))
      → IsCompactBut scope k d
      → IsCompactBut scope k (after_write m ev d)
  unfolding after_write Data.touch
  after_write-IsCompactBut k m ev d h = record { at_other = h.at_other }

-- ===== src/Common/NonEmpty.antt =====
-- "Empty lists are deleted immediately", and so is every other empty collection: the invariant and
-- how the methods of the store keep it.
use kagni.Prelude.{
  ◌≡◌, sym, ap, ◌∙◌, Bool, true, false, not, ◌||◌, Option, none, some, [], Bytes, bytes_eq,
  bytes_beq_iff, ◌==◌, if◌then◌else◌, is_empty, arith, Option-cases, Bool-cases, inl, inr,
}
use kagni.Dict.{lookup, insert, erase, lookup-insert, lookup-erase}
use kagni.Events.{Event}
use kagni.Data
use kagni.Data.{Clock, Entry, Data}
use kagni.Common.Values.{Stored, elements, hash, members, ranked, Kind}
use kagni.Common.Running.{after_write, notify, update, remove, expect_kind, check_kind}
use kagni.Common.Keeps.{Keeps}

-- The collections that must have an element: lists alone, or all of them.
pub data Scope : Type 0 where
  lists_alone all_collections : Scope

abbrev pub spares_others : Scope → Bool
spares_others lists_alone = true
spares_others all_collections = false

abbrev pub has_elements : {Score : Type 0} → Scope → Stored Score → Bool
has_elements scope (elements []) = false
has_elements scope (hash []) = spares_others scope
has_elements scope (members []) = spares_others scope
has_elements scope (ranked z) = spares_others scope || not (is_empty z.sorted)
has_elements scope _ = true

pub equal_keys : (k j : Bytes) → (k == j) ≡ true → k ≡ j
equal_keys k j same = (bytes_beq_iff k j).0 same

-- every collection of the scope in the table has an element
pub record IsCompact {Score : Type 0} (scope : Scope) (d : Data (Stored Score)) : Type 0 where
  pub at_key :
      (k : Bytes) (e : Entry (Stored Score))
      → lookup k d.storage ≡ some e
      → has_elements scope e.value ≡ true

-- every collection but the one under `k`
pub record IsCompactBut {Score : Type 0} (scope : Scope) (k : Bytes) (d : Data (Stored Score))
    : Type 0 where
  pub at_other :
      (j : Bytes) (e : Entry (Stored Score))
      → (k == j) ≡ false
      → lookup j d.storage ≡ some e
      → has_elements scope e.value ≡ true

module _ {Score : Type 0} where
  pub lookup-update :
      (k j : Bytes) (v : Stored Score) (d : Data (Stored Score))
      → (k == j) ≡ false
      → lookup j (update k v d).storage ≡ lookup j d.storage
  unfolding update
  lookup-update k j v d other = elim (Option-cases (lookup k d.storage)) [
    | inl p ↦ ground (arith, p)
    | inr (e, p) ↦ ground (arith, p, other, lookup-insert k j (record e { value = v }) d.storage)
  ]

  pub lookup-remove :
      (k j : Bytes) (c : Clock) (d : Data (Stored Score))
      → lookup j (Data.remove k c d).1.storage ≡ (if k == j then none else lookup j d.storage)
  unfolding Data.remove
  lookup-remove k j c d = elim (Bool-cases (k == j)) [
    | inl same ↦ ground (arith, same, lookup-erase k j d.storage, equal_keys k j same)
    | inr other ↦ ground (arith, other, lookup-erase k j d.storage)
  ]

module _ {Score : Type 0} {scope : Scope} where
  pub insert-IsCompact :
      (d : Data (Stored Score)) (k : Bytes) (e : Entry (Stored Score))
      → has_elements scope e.value ≡ true
      → IsCompact scope d
      → IsCompact scope (record d { storage = insert k e d.storage })
  insert-IsCompact d k e full h = record {
    at_key = λ j x p. ground (arith, lookup-insert k j e d.storage, h.at_key j x);
  }

  erase-IsCompact :
      (d : Data (Stored Score)) (k : Bytes)
      → IsCompact scope d
      → IsCompact scope (record d { storage = erase k d.storage })
  erase-IsCompact d k h = record {
    at_key = λ j x p. ground (arith, lookup-erase k j d.storage, h.at_key j x);
  }

  pub notify-IsCompact :
      (k : Bytes) (ev : Event) (d : Data (Stored Score))
      → IsCompact scope d
      → IsCompact scope (notify k ev d)
  unfolding notify
  notify-IsCompact k ev d h = record { at_key = h.at_key }

  pub after_write-IsCompact :
      (k : Bytes) (ev : Event) (d : Data (Stored Score))
      → IsCompact scope d
      → IsCompact scope (after_write k ev d)
  unfolding after_write Data.touch
  after_write-IsCompact k ev d h = record { at_key = h.at_key }

  checked :
      (kind : Kind) (r : Option (Stored Score) × Data (Stored Score))
      → IsCompact scope r.1
      → IsCompact scope (check_kind kind r).1
  checked kind (none, d) h = h
  checked kind (some v, d) h = h

  pub remove-IsCompact : (k : Bytes) → Keeps (IsCompact scope) (remove {V = Stored Score} k)
  unfolding Data.remove
  remove-IsCompact k = record {
    at = λ c d h. record {
      at_key = λ j x q. ground (arith, lookup-erase k j d.storage, h.at_key j x);
    };
  }

  get-IsCompact :
      (k : Bytes) (c : Clock) (d : Data (Stored Score))
      → IsCompact scope d
      → IsCompact scope (Data.get k c d).1
  unfolding Data.get Data.purge_key
  get-IsCompact k c d h = record {
    at_key = λ j x q. ground (arith, lookup-erase k j d.storage, h.at_key j x);
  }

  pub update-fills :
      (d : Data (Stored Score)) (k : Bytes) (v : Stored Score)
      → has_elements scope v ≡ true
      → IsCompactBut scope k d
      → IsCompact scope (update k v d)
  unfolding update
  update-fills d k v full h = elim (Option-cases (lookup k d.storage)) [
    | inl p ↦ record {
      at_key = λ j x q. elim (Bool-cases (k == j)) [
        | inl same ↦ ground (arith, p, q, equal_keys k j same)
        | inr other ↦ ground (arith, p, q, other, h.at_other j x)
      ];
    }
    | inr (e, p) ↦ record {
      at_key = λ j x q.
          ground
            (arith, p, q, lookup-insert k j (record e { value = v }) d.storage, h.at_other j x);
    }
  ]

  pub update-IsCompact :
      (d : Data (Stored Score)) (k : Bytes) (v : Stored Score)
      → has_elements scope v ≡ true
      → IsCompact scope d
      → IsCompact scope (update k v d)
  update-IsCompact d k v full h =
      update-fills d k v full (record { at_other = λ j e other p. h.at_key j e p })

  pub set_item-IsCompact :
      (d : Data (Stored Score)) (k : Bytes) (v : Stored Score)
      → has_elements scope v ≡ true
      → IsCompact scope d
      → IsCompact scope (Data.set_item k v d)
  unfolding Data.set_item
  set_item-IsCompact d k v full h =
      insert-IsCompact d k (record { value = v; expires_at = none }) full h

  pub set_item-fills :
      (d : Data (Stored Score)) (k : Bytes) (v w : Stored Score)
      → has_elements scope v ≡ true
      → IsCompact scope d
      → IsCompact scope (update k v (Data.set_item k w d))
  unfolding Data.set_item
  set_item-fills d k v w full h = update-fills (Data.set_item k w d) k v full (record {
    at_other = λ j x other p. ground (
      arith,
      other,
      p,
      lookup-insert k j (record { value = w; expires_at = none }) d.storage,
      h.at_key j x,
    );
  })

  pub remove-drops :
      (k : Bytes) (v : Stored Score) (c : Clock) (d : Data (Stored Score))
      → IsCompact scope d
      → IsCompact scope (Data.remove k c (update k v d)).1
  remove-drops k v c d h = record {
    at_key = λ j x q. elim (Bool-cases (k == j)) [
      | inl same ↦ ground (arith, same, q, lookup-remove k j c (update k v d))
      | inr other ↦ ground (
        arith,
        other,
        q,
        lookup-remove k j c (update k v d),
        lookup-update k j v d other,
        h.at_key j x,
      )
    ];
  }

  pub expect_kind-IsCompact :
      (k : Bytes) (kind : Kind) → Keeps (IsCompact scope) (expect_kind {Score = Score} k kind)
  unfolding expect_kind
  expect_kind-IsCompact k kind = record {
    at = λ c d h. checked kind (Data.get k c d) (get-IsCompact k c d h);
  }

  -- the table counts alone
  pub same_storage :
      (d d' : Data (Stored Score)) → d'.storage ≡ d.storage → IsCompact scope d → IsCompact scope d'
  same_storage d d' e h = record { at_key = λ k x p. h.at_key k x (ap (lookup k) (sym e) ∙ p) }

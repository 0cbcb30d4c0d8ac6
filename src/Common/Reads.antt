-- ===== src/Common/Reads.antt =====
-- What `get_item` reads after the writes of a command.
use kagni.Prelude.{
  ◌≡◌, refl, false, none, some, Bytes, bytes_eq, bytes_beq_refl, ◌==◌, arith, Option-cases, inl,
  inr, if◌then◌else◌,
}
use kagni.Dict.{lookup, lookup-insert, lookup-erase}
use kagni.Events.{Event}
use kagni.Data
use kagni.Data.{Clock, Data}
use kagni.Common.Values.{Stored}
use kagni.Common.Running.{update, notify, after_write}

module _ {Score : Type 0} where
  pub get_item-update :
      (key : Bytes) (v w : Stored Score) (c : Clock) (d : Data (Stored Score))
      → Data.get_item key c d ≡ some w
      → Data.get_item key c (update key v d) ≡ some v
  unfolding Data.get_item update Data.live
  get_item-update key v w c d h = elim (Option-cases (lookup key d.storage)) [
    | inl missing ↦ ground (arith, missing, h)
    | inr (e, there) ↦ ground (
      arith,
      there,
      h,
      bytes_beq_refl key,
      lookup-insert key key (record e { value = v }) d.storage,
    )
  ]

  pub get_item-set_item :
      (key : Bytes) (v : Stored Score) (c : Clock) (d : Data (Stored Score))
      → Data.get_item key c (Data.set_item key v d) ≡ some v
  unfolding Data.get_item Data.set_item Data.live
  get_item-set_item key v c d = ground (
    arith,
    bytes_beq_refl key,
    lookup-insert key key (record { value = v; expires_at = none }) d.storage,
  )

  -- the other keys
  pub get_item-update_other :
      (k j : Bytes) (v : Stored Score) (c : Clock) (d : Data (Stored Score))
      → (k == j) ≡ false
      → Data.get_item j c (update k v d) ≡ Data.get_item j c d
  unfolding Data.get_item update
  get_item-update_other k j v c d other = elim (Option-cases (lookup k d.storage)) [
    | inl missing ↦ ground (arith, missing)
    | inr (e, there) ↦
        ground (arith, there, other, lookup-insert k j (record e { value = v }) d.storage)
  ]

  pub get_item-set_item_other :
      (k j : Bytes) (v : Stored Score) (c : Clock) (d : Data (Stored Score))
      → (k == j) ≡ false
      → Data.get_item j c (Data.set_item k v d) ≡ Data.get_item j c d
  unfolding Data.get_item Data.set_item
  get_item-set_item_other k j v c d other =
      ground (arith, other, lookup-insert k j (record { value = v; expires_at = none }) d.storage)

  pub get_item-remove :
      (k j : Bytes) (c : Clock) (d : Data (Stored Score))
      → Data.get_item j c (Data.remove k c d).1 ≡ (if k == j then none else Data.get_item j c d)
  unfolding Data.get_item Data.remove
  get_item-remove k j c d = elim (Option-cases (lookup k d.storage)) [
    | inl missing ↦ ground (arith, missing, bytes_eq.equals_iff k j)
    | inr (e, there) ↦ ground (arith, there, lookup-erase k j d.storage)
  ]

  -- What is notified or touched does not change what is stored.
  pub get_item-after_write :
      (k j : Bytes) (ev : Event) (c : Clock) (d : Data (Stored Score))
      → Data.get_item j c (after_write k ev d) ≡ Data.get_item j c d
  unfolding Data.get_item after_write Data.touch
  get_item-after_write k j ev c d = refl

  pub get_item-notify :
      (k j : Bytes) (ev : Event) (c : Clock) (d : Data (Stored Score))
      → Data.get_item j c (notify k ev d) ≡ Data.get_item j c d
  unfolding Data.get_item notify
  get_item-notify k j ev c d = refl

  -- `get` purges a key that has expired, which `get_item` does not see.
  pub get_item-get :
      (k j : Bytes) (c : Clock) (d : Data (Stored Score))
      → Data.get_item j c (Data.get k c d).1 ≡ Data.get_item j c d
  unfolding Data.get_item Data.get Data.purge_key Data.live
  get_item-get k j c d = elim (Option-cases (lookup k d.storage)) [
    | inl missing ↦ ground (arith, missing)
    | inr (e, there) ↦ ground (arith, there, lookup-erase k j d.storage, bytes_eq.equals_iff k j)
  ]

  pub get-get_item :
      (k : Bytes) (c : Clock) (d : Data (Stored Score)) → (Data.get k c d).0 ≡ Data.get_item k c d
  unfolding Data.get_item Data.get Data.live
  get-get_item k c d = elim (Option-cases (lookup k d.storage)) [
    | inl missing ↦ ground (arith, missing)
    | inr (e, there) ↦ ground (arith, there)
  ]

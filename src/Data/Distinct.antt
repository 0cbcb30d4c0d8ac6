-- ===== src/Data/Distinct.antt =====
-- The table of the store is a dict: every method of data.py leaves it with distinct keys.
use kagni.Prelude.{
  ℤ, pos, ◌+ℤ◌, ◌*ℤ◌, none, some, [], ◌∷◌, List, Bytes, bytes_eq, arith, Option-cases, inl, inr,
}
use kagni.Dict
use kagni.Dict.{lookup, HasDistinctKeys, insert-HasDistinctKeys, erase-HasDistinctKeys}
use kagni.Data.Store.{
  Clock, Entry, Data, purge_key, purge_all, dead_keys, mono_deadline, get, sweep, set_value,
  set_item, touch, remove, set_expiry,
}
use kagni.Data.Expiry.{expire, expire_at, wall_expiry, persist}
use kagni.Data.Spec.{
  Op, get_op, sweep_op, set_op, set_item_op, touch_op, remove_op, expire_op, expire_at_op,
  wall_expiry_op, persist_op, run_op,
}

module _ {V : Type 0} where
  abbrev pub IsDict : Data V → Type 0
  IsDict d = HasDistinctKeys d.storage

  pub purge_all-IsDict : (ks : List Bytes) (d : Data V) → IsDict d → IsDict (purge_all ks d)
  unfolding purge_all
  purge_all-IsDict [] d h = h
  purge_all-IsDict (k ∷ ks) d h =
      purge_all-IsDict ks (purge_key k d) (erase-HasDistinctKeys k d.storage h)

module _ {V : Type 0} (c : Clock) (d : Data V) (h : IsDict d) (k : Bytes) where
  put-IsDict : (e : Entry V) → HasDistinctKeys (Dict.insert k e d.storage)
  put-IsDict e = insert-HasDistinctKeys k e d.storage h

  cut-IsDict : HasDistinctKeys (Dict.erase k d.storage)
  cut-IsDict = erase-HasDistinctKeys k d.storage h

  expire-IsDict : (secs : ℤ) → IsDict (expire k secs c d).1
  unfolding expire
  expire-IsDict secs = elim (Option-cases (lookup k d.storage)) [
    | inl missing ↦ ground arith
    | inr (e, there) ↦ ground (
      arith,
      cut-IsDict,
      put-IsDict (record e { expires_at = some (c.mono +ℤ secs *ℤ pos 1_000_000_000) }),
    )
  ]

  expire_at-IsDict : (t : ℤ) → IsDict (expire_at k t c d).1
  unfolding expire_at
  expire_at-IsDict t = elim (Option-cases (lookup k d.storage)) [
    | inl missing ↦ ground arith
    | inr (e, there) ↦
        ground (arith, cut-IsDict, put-IsDict (record e { expires_at = some (mono_deadline c t) }))
  ]

  persist-IsDict : IsDict (persist k c d).1
  unfolding persist
  persist-IsDict = elim (Option-cases (lookup k d.storage)) [
    | inl missing ↦ ground arith
    | inr (e, there) ↦ ground (arith, cut-IsDict, put-IsDict (record e { expires_at = none }))
  ]

module _ {V : Type 0} (c : Clock) (d : Data V) where
  -- Every method of the store but `clear`, which empties it, keeps the keys of its table distinct.
  pub run_op-IsDict : (op : Op V) → IsDict d → IsDict (run_op op c d)
  unfolding run_op get sweep set_value set_item touch remove wall_expiry
  run_op-IsDict (get_op k) h = ground (arith, cut-IsDict c d h k)
  run_op-IsDict sweep_op h = purge_all-IsDict (dead_keys c.mono d.storage) d h
  run_op-IsDict (set_op k v deadline keep) h =
      put-IsDict c d h k
        (record { value = v; expires_at = set_expiry (lookup k d.storage) c deadline keep })
  run_op-IsDict (set_item_op k v) h = put-IsDict c d h k (record { value = v; expires_at = none })
  run_op-IsDict (touch_op k) h = h
  run_op-IsDict (remove_op k) h = ground (arith, cut-IsDict c d h k)
  run_op-IsDict (expire_op k secs) h = expire-IsDict c d h k secs
  run_op-IsDict (expire_at_op k t) h = expire_at-IsDict c d h k t
  run_op-IsDict (wall_expiry_op k) h = ground (arith, cut-IsDict c d h k)
  run_op-IsDict (persist_op k) h = persist-IsDict c d h k

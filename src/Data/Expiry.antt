-- ===== src/Data/Expiry.antt =====
-- data.py: the methods that set, read and drop the deadline of a key.
use kagni.Prelude.{
  ℕ, ℤ, pos, negsuc, ◌+ℤ◌, ◌-ℤ◌, ◌*ℤ◌, leb_ℤ, not, Option, none, some, Bytes, bytes_eq,
  if◌then◌else◌, is_none,
}
use kagni.Dict.{lookup, insert, erase}
use kagni.Data.Store.{Clock, Entry, Data, live, purge_key, mono_deadline}

module _ {V : Type 0} where
  -- `del self._storage[key]`
  unfoldable pub drop_key : Bytes → Data V → Data V
  drop_key key d = record d { storage = erase key d.storage }

  -- `entry["expires_at"] = …`, in place
  unfoldable pub set_deadline : Bytes → Entry V → Option ℤ → Data V → Data V
  set_deadline key entry expires_at d = record d {
    storage = insert key (record entry { expires_at = expires_at }) d.storage;
  }

  unfoldable pub expire : Bytes → ℤ → Clock → Data V → ℕ × Data V
  unfolding live purge_key drop_key set_deadline
  expire key expire_secs c d = elim (lookup key d.storage) [
    | none ↦ (0, d)
    | some entry ↦
        if not (live entry c.mono)
        then (0, purge_key key d)
        else if leb_ℤ expire_secs (pos 0)
        then (1, drop_key key d)
        else (1, set_deadline key entry (some (c.mono +ℤ expire_secs *ℤ pos 1_000_000_000)) d)
  ]

  unfoldable pub expire_at : Bytes → ℤ → Clock → Data V → ℕ × Data V
  unfolding live purge_key drop_key set_deadline
  expire_at key wall_deadline c d = elim (lookup key d.storage) [
    | none ↦ (0, d)
    | some entry ↦
        if not (live entry c.mono)
        then (0, purge_key key d)
        else if leb_ℤ (mono_deadline c wall_deadline) c.mono
        then (1, drop_key key d)
        else (1, set_deadline key entry (some (mono_deadline c wall_deadline)) d)
  ]

  unfoldable pub wall_expiry : Bytes → Clock → Data V → ℤ × Data V
  unfolding purge_key
  wall_expiry key c d = elim (lookup key d.storage) [
    | none ↦ (negsuc 1, d)
    | some entry ↦ elim entry.expires_at [
      | none ↦ (negsuc 0, d)
      | some t ↦
          if leb_ℤ t c.mono then (negsuc 1, purge_key key d) else (c.wall +ℤ (t -ℤ c.mono), d)
    ]
  ]

  unfoldable pub persist : Bytes → Clock → Data V → ℕ × Data V
  unfolding live drop_key set_deadline
  persist key c d = elim (lookup key d.storage) [
    | none ↦ (0, d)
    | some entry ↦
        if not (live entry c.mono)
        then (0, drop_key key d)
        else if is_none entry.expires_at
        then (0, d)
        else (1, set_deadline key entry none d)
  ]

-- ===== src/Data/Spec.antt =====
-- What the store promises: each method as an operation on a map from keys to live entries. The map
-- forgets the expired entries that are still in the table and the order of the keys.
use kagni.Prelude.{
  ℤ, pos, ◌+ℤ◌, ◌*ℤ◌, ◌==◌, Bool, true, Option, none, some, Bytes, bytes_eq, if◌then◌else◌,
}
use kagni.Data.Store.{
  Clock, Entry, Data, mono_deadline, get, sweep, set_value, set_item, touch, remove,
}
use kagni.Data.Expiry.{expire, expire_at, wall_expiry, persist}
use kagni.Data.View.{at_time}

pub data Op (V : Type 0) : Type 0 where
  get_op : Bytes → Op V
  sweep_op : Op V
  set_op : Bytes → V → Option ℤ → Bool → Op V
  set_item_op : Bytes → V → Op V
  touch_op : Bytes → Op V
  remove_op : Bytes → Op V
  expire_op : Bytes → ℤ → Op V
  expire_at_op : Bytes → ℤ → Op V
  wall_expiry_op : Bytes → Op V
  persist_op : Bytes → Op V

module _ {V : Type 0} where
  -- The store that the method leaves.
  unfoldable pub run_op : Op V → Clock → Data V → Data V
  run_op (get_op k) c d = (get k c d).1
  run_op sweep_op c d = (sweep c d).1
  run_op (set_op k v deadline keep) c d = set_value k v deadline keep c d
  run_op (set_item_op k v) c d = set_item k v d
  run_op (touch_op k) c d = touch k d
  run_op (remove_op k) c d = (remove k c d).1
  run_op (expire_op k secs) c d = (expire k secs c d).1
  run_op (expire_at_op k t) c d = (expire_at k t c d).1
  run_op (wall_expiry_op k) c d = (wall_expiry k c d).1
  run_op (persist_op k) c d = (persist k c d).1

  abbrev put_entry :
      Bytes → Option (Entry V) → (Bytes → Option (Entry V)) → Bytes → Option (Entry V)
  put_entry k o m j = if k == j then o else m j

  -- A deadline that is not later than now removes the entry.
  abbrev with_deadline : ℤ → ℤ → Option (Entry V) → Option (Entry V)
  with_deadline now t none = none
  with_deadline now t (some entry) = at_time now (some (record entry { expires_at = some t }))

  abbrev without_deadline : Option (Entry V) → Option (Entry V)
  without_deadline none = none
  without_deadline (some entry) = some (record entry { expires_at = none })

  abbrev set_deadline_of : Clock → Option (Entry V) → Option ℤ → Bool → Option ℤ
  set_deadline_of c (some entry) deadline true = entry.expires_at
  set_deadline_of c old none keep = none
  set_deadline_of c old (some t) keep = some (mono_deadline c t)

  -- The same method on the map of the live entries.
  unfoldable pub spec_op : Op V → Clock → (Bytes → Option (Entry V)) → Bytes → Option (Entry V)
  unfolding at_time
  spec_op (set_op k v deadline keep) c m =
      put_entry k
        (at_time c.mono
          (some (record { value = v; expires_at = set_deadline_of c (m k) deadline keep })))
        m
  spec_op (set_item_op k v) c m = put_entry k (some (record { value = v; expires_at = none })) m
  spec_op (remove_op k) c m = put_entry k none m
  spec_op (expire_op k secs) c m =
      put_entry k (with_deadline c.mono (c.mono +ℤ secs *ℤ pos 1_000_000_000) (m k)) m
  spec_op (expire_at_op k t) c m = put_entry k (with_deadline c.mono (mono_deadline c t) (m k)) m
  spec_op (persist_op k) c m = put_entry k (without_deadline (m k)) m
  spec_op (get_op k) c m = m
  spec_op sweep_op c m = m
  spec_op (touch_op k) c m = m
  spec_op (wall_expiry_op k) c m = m

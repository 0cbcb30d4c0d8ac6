-- ===== src/Data/Snapshot.antt =====
-- data.py: `snapshot` and `restore`. A stored value is a value of the model, so the copy that
-- `_copy_value` takes of it is the value itself.
use kagni.Prelude.{
  ℤ, ◌+ℤ◌, ◌-ℤ◌, leb_ℤ, not, Option, none, some, [], ◌∷◌, Bytes, bytes_eq, if◌then◌else◌,
}
use kagni.Dict.{Dict, insert}
use kagni.Data.Store.{Clock, Entry, Data, live, dead_keys, purge_all, mono_deadline}

-- A row: the value and its wall-clock deadline.
abbrev pub Rows : Type 0 → Type 0
Rows V = Dict Bytes (V × Option ℤ)

module _ {V : Type 0} where
  unfoldable pub wall_deadline : Clock → Entry V → Option ℤ
  wall_deadline c entry = elim entry.expires_at [
    | none ↦ none
    | some t ↦ some (c.wall +ℤ (t -ℤ c.mono))
  ]

  -- the rows that the loop of `snapshot` collects
  unfoldable pub snapshot_rows : Clock → Dict Bytes (Entry V) → Rows V
  unfolding live wall_deadline
  snapshot_rows c [] = []
  snapshot_rows c ((key, entry) ∷ rest) =
      let more = snapshot_rows c rest in
      if not (live entry c.mono) then more else (key, (entry.value, wall_deadline c entry)) ∷ more

  unfoldable pub snapshot : Clock → Data V → Rows V × Data V
  unfolding snapshot_rows dead_keys purge_all
  snapshot c d = (snapshot_rows c d.storage, purge_all (dead_keys c.mono d.storage) d)

  -- one turn of the loop of `restore`, on a row with its deadline
  unfoldable pub restore_row : Clock → Bytes → V → Option ℤ → Data V → Data V
  restore_row c key value deadline d = elim deadline [
    | none ↦ record d {
      storage = insert key (record { value = value; expires_at = none }) d.storage;
    }
    | some t ↦ if leb_ℤ (mono_deadline c t) c.mono then d else record d {
      storage =
          insert key (record { value = value; expires_at = some (mono_deadline c t) }) d.storage;
    }
  ]

  unfoldable pub restore : Clock → Rows V → Data V → Data V
  unfolding restore_row
  restore c [] d = d
  restore c ((key, (value, deadline)) ∷ rest) d =
      restore c rest (restore_row c key value deadline d)

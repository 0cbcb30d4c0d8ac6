-- ===== src/Data/Recovery.antt =====
-- A snapshot that is restored after a restart: the monotonic clock is another one by then, so the
-- deadlines travel by the wall clock.
use kagni.Prelude.{ℤ, ◌≤ℤ◌, ◌≡◌, Option, none, some, Bytes, bytes_eq, is_some, true}
use kagni.Dict.{Dict, lookup}
use kagni.Data.Store.{Clock, Entry, Data, mono_deadline}
use kagni.Data.Snapshot.{Rows, wall_deadline}
use kagni.Data.View.{at_time, view}

module _ {V : Type 0} where
  abbrev row_of : Clock → Option (Entry V) → Option (V × Option ℤ)
  row_of c none = none
  row_of c (some e) = some (e.value, wall_deadline c e)

  -- The entry that a row becomes.
  abbrev pub entry_of : Clock → V × Option ℤ → Entry V
  entry_of c (v, none) = record { value = v; expires_at = none }
  entry_of c (v, some t) = record { value = v; expires_at = some (mono_deadline c t) }

  abbrev merged : ℤ → Clock → Option (V × Option ℤ) → Option (Entry V) → Option (Entry V)
  merged t c none old = old
  merged t c (some row) old = at_time t (some (entry_of c row))

module _ {V : Type 0} (c : Clock) (t : ℤ) (later : c.mono ≤ℤ t) where
  -- no row of the snapshot has a live key in the store yet
  abbrev IsFresh : Rows V → Data V → Type 0
  IsFresh rows d = (j : Bytes) → is_some (lookup j rows) ≡ true → view t d j ≡ none

module _ {V : Type 0} where
  -- An entry as it comes back: its deadline is as far from the new wall clock as it was.
  abbrev pub carried : Clock → Clock → Option (Entry V) → Option (Entry V)
  carried c c' none = none
  carried c c' (some e) = some (entry_of c' (e.value, wall_deadline c e))

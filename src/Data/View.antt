-- ===== src/Data/View.antt =====
-- data.py, as its clients see it: the entries that have not expired.
use kagni.Prelude.{Option, none, some, Bytes, bytes_eq, ℤ, if◌then◌else◌}
use kagni.Dict.{lookup}
use kagni.Data.Store.{Entry, Data, live}

module _ {V : Type 0} where
  -- What is left of an entry at the time `now`.
  unfoldable pub at_time : ℤ → Option (Entry V) → Option (Entry V)
  unfolding live
  at_time now none = none
  at_time now (some entry) = if live entry now then some entry else none

  unfoldable pub view : ℤ → Data V → Bytes → Option (Entry V)
  unfolding at_time
  view now d key = at_time now (lookup key d.storage)

-- ===== src/Data/Trace.antt =====
-- A whole run of the store against its specification, while the clock moves on between the calls.
use kagni.Prelude.{ℤ, ◌≤ℤ◌, ◌≡◌, Option, [], ◌∷◌, List, Bytes, ◌∙◌, ap, fun_ext}
use kagni.Data.Store.{Clock, Entry, Data}
use kagni.Data.View.{at_time, view}
use kagni.Data.Spec.{
  Op, get_op, sweep_op, set_op, set_item_op, touch_op, remove_op, expire_op, expire_at_op,
  wall_expiry_op, persist_op, run_op, spec_op,
}
use kagni.Data.Distinct.{IsDict, run_op-IsDict}
use kagni.Data.Refine.{
  get-Refines, sweep-Refines, set-Refines, set_item-Refines, touch-Refines, remove-Refines,
  expire-Refines, expire_at-Refines, wall_expiry-Refines, persist-Refines,
}

abbrev pub Calls : Type 0 → Type 0
Calls V = List (Op V × Clock)

-- The clock never goes back.
abbrev pub IsAscending : {V : Type 0} → ℤ → Calls V → Type 0
IsAscending now [] = Unit
IsAscending now ((op, c) ∷ rest) = (now ≤ℤ c.mono) × IsAscending c.mono rest

module _ {V : Type 0} where
  unfoldable pub run_ops : Calls V → Data V → Data V
  run_ops [] d = d
  run_ops ((op, c) ∷ rest) d = run_ops rest (run_op op c d)

  -- The specification lets the map age up to the time of each call.
  unfoldable pub spec_ops : Calls V → (Bytes → Option (Entry V)) → Bytes → Option (Entry V)
  spec_ops [] m = m
  spec_ops ((op, c) ∷ rest) m = spec_ops rest (spec_op op c (λ j. at_time c.mono (m j)))

  abbrev pub last_time : ℤ → Calls V → ℤ
  last_time now [] = now
  last_time now ((op, c) ∷ rest) = last_time c.mono rest

  run_op-refines :
      (op : Op V) (c : Clock) (t : ℤ) (later : c.mono ≤ℤ t) (d : Data V)
      → IsDict d
      → (j : Bytes) → view t (run_op op c d) j ≡ at_time t (spec_op op c (view c.mono d) j)
  run_op-refines (get_op k) c t later d h j = get-Refines c t later d j k
  run_op-refines sweep_op c t later d h j = sweep-Refines c t later d j j h
  run_op-refines (set_op k v deadline keep) c t later d h j =
      set-Refines c t later d j k v deadline keep
  run_op-refines (set_item_op k v) c t later d h j = set_item-Refines c t later d j k v
  run_op-refines (touch_op k) c t later d h j = touch-Refines c t later d j k
  run_op-refines (remove_op k) c t later d h j = remove-Refines c t later d j k
  run_op-refines (expire_op k secs) c t later d h j = expire-Refines c t later d j k secs
  run_op-refines (expire_at_op k at) c t later d h j = expire_at-Refines c t later d j k at
  run_op-refines (wall_expiry_op k) c t later d h j = wall_expiry-Refines c t later d j k
  run_op-refines (persist_op k) c t later d h j = persist-Refines c t later d j k

  -- The store shows the map `m`, now and later.
  abbrev pub Shows : ℤ → Data V → (Bytes → Option (Entry V)) → Type 0
  Shows now d m = (t : ℤ) → now ≤ℤ t → (j : Bytes) → view t d j ≡ at_time t (m j)

  Shows-run_ops :
      (now : ℤ) (calls : Calls V) (d : Data V) (m : Bytes → Option (Entry V))
      → IsDict d
      → IsAscending now calls
      → Shows now d m
      → Shows (last_time now calls) (run_ops calls d) (spec_ops calls m)
  unfolding run_ops spec_ops
  Shows-run_ops now [] d m h asc s = s
  Shows-run_ops now ((op, c) ∷ rest) d m h asc s =
      Shows-run_ops c.mono rest (run_op op c d) (spec_op op c (λ j. at_time c.mono (m j)))
        (run_op-IsDict c d op h) asc.1
        λ t later j.
          run_op-refines op c t later d h j
          ∙ ap (λ v. at_time t (spec_op op c v j)) (fun_ext (s c.mono asc.0))

  -- If a store with distinct keys shows a map from some time on, then after any sequence of calls
  -- of its methods other than `clear`, `snapshot` and `restore`, with a clock that does not go back, what it shows at a time
  -- after the last call is what the specification makes of the map by the same calls.
  pub run_ops-refines :
      (now : ℤ) (calls : Calls V) (d : Data V) (m : Bytes → Option (Entry V))
      → IsDict d
      → IsAscending now calls
      → Shows now d m
      → (t : ℤ) (later : last_time now calls ≤ℤ t) (j : Bytes)
      → view t (run_ops calls d) j ≡ at_time t (spec_ops calls m j)
  run_ops-refines = Shows-run_ops

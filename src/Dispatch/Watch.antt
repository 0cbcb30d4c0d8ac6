-- ===== src/Dispatch/Watch.antt =====
-- commands/__init__.py and commands/basic.py: WATCH, writes by others, and the EXEC that follows.
use kagni.Prelude.{
  ℕ, suc, ◌+◌, ◌≤◌, ◌<◌, Bool, true, false, ◌||◌, Option, some, List, [], ◌∷◌, Bytes, ◌==◌,
  bytes_eq, nat_eq, bytes_beq_iff, if◌then◌else◌, elem, ◌≡◌, refl, arith, Bool-cases, inl, inr,
}
use kagni.Dict.{Dict, lookup, insert, lookup-insert}
use kagni.Data
use kagni.Data.{Clock, Data}
use kagni.Data.Spec.{
  Op, get_op, sweep_op, set_op, set_item_op, touch_op, remove_op, expire_op, expire_at_op,
  wall_expiry_op, persist_op, run_op,
}
use kagni.Data.Trace.{Calls, run_ops}
use kagni.Resp.{Reply}
use kagni.Dispatch.State.{World, Handler, watch, with_session}
use kagni.Dispatch.Checks.{answer, leave_multi, is_dirty}
use kagni.Dispatch.Run.{exec}

-- a call that bumps the generation of `k`
abbrev pub writes : {V : Type 0} → Bytes → Calls V → Bool
writes k [] = false
writes k ((touch_op j, c) ∷ rest) = k == j || writes k rest
writes k ((_, c) ∷ rest) = writes k rest

module _ {V : Type 0} (k : Bytes) where
  generation-purge_all :
      (ks : List Bytes) (d : Data V) → Data.generation k (Data.purge_all ks d) ≡ Data.generation k d
  unfolding Data.generation Data.purge_all Data.purge_key
  generation-purge_all [] d = refl
  generation-purge_all (j ∷ ks) d = generation-purge_all ks (Data.purge_key j d)

  generation-touch :
      (j : Bytes) (d : Data V)
      → Data.generation k (Data.touch j d)
        ≡ (if k == j then suc (Data.generation k d) else Data.generation k d)
  unfolding Data.generation Data.touch
  generation-touch j d = ground (
    arith,
    bytes_beq_iff j k,
    bytes_beq_iff k j,
    lookup-insert j k (Data.generation j d + 1) d.generations,
  )

  generation-run_op :
      (op : Op V) (c : Clock) (d : Data V) → Data.generation k d ≤ Data.generation k (run_op op c d)
  unfolding run_op Data.generation Data.get Data.purge_key Data.sweep Data.set_value Data.set_item
      Data.remove Data.expire Data.expire_at Data.drop_key Data.set_deadline Data.wall_expiry
      Data.persist
  generation-run_op (get_op j) c d = ground arith
  generation-run_op sweep_op c d =
      ground (arith, generation-purge_all (Data.dead_keys c.mono d.storage) d)
  generation-run_op (set_op j v deadline keep) c d = ground arith
  generation-run_op (set_item_op j v) c d = ground arith
  generation-run_op (touch_op j) c d = ground (arith, generation-touch j d)
  generation-run_op (remove_op j) c d = ground arith
  generation-run_op (expire_op j secs) c d = ground arith
  generation-run_op (expire_at_op j at) c d = ground arith
  generation-run_op (wall_expiry_op j) c d = ground arith
  generation-run_op (persist_op j) c d = ground arith

  generation-run_ops :
      (calls : Calls V) (d : Data V) → Data.generation k d ≤ Data.generation k (run_ops calls d)
  unfolding run_ops
  generation-run_ops [] d = omega arith
  generation-run_ops ((op, c) ∷ rest) d =
      omega (arith, generation-run_op op c d, generation-run_ops rest (run_op op c d))

  generation_later :
      (op : Op V) (c : Clock) (rest : Calls V) (d : Data V)
      → Data.generation k (run_op op c d) < Data.generation k (run_ops rest (run_op op c d))
      → Data.generation k d < Data.generation k (run_ops rest (run_op op c d))
  generation_later op c rest d h = omega (arith, h, generation-run_op op c d)

  touched :
      (j : Bytes) (d : Data V)
      → (k == j) ≡ true
      → Data.generation k d < Data.generation k (Data.touch j d)
  touched j d same = ground (arith, same, generation-touch j d)

  generation-writes :
      (calls : Calls V) (d : Data V)
      → writes k calls ≡ true
      → Data.generation k d < Data.generation k (run_ops calls d)
  unfolding run_ops run_op
  generation-writes [] d h = absurd (ground (arith, h))
  generation-writes ((get_op j, c) ∷ rest) d h =
      generation_later (get_op j) c rest d (generation-writes rest (run_op (get_op j) c d) h)
  generation-writes ((sweep_op, c) ∷ rest) d h =
      generation_later sweep_op c rest d (generation-writes rest (run_op sweep_op c d) h)
  generation-writes ((set_op j v deadline keep, c) ∷ rest) d h =
      generation_later (set_op j v deadline keep) c rest d
        (generation-writes rest (run_op (set_op j v deadline keep) c d) h)
  generation-writes ((set_item_op j v, c) ∷ rest) d h =
      generation_later (set_item_op j v) c rest d
        (generation-writes rest (run_op (set_item_op j v) c d) h)
  generation-writes ((remove_op j, c) ∷ rest) d h =
      generation_later (remove_op j) c rest d (generation-writes rest (run_op (remove_op j) c d) h)
  generation-writes ((expire_op j secs, c) ∷ rest) d h =
      generation_later (expire_op j secs) c rest d
        (generation-writes rest (run_op (expire_op j secs) c d) h)
  generation-writes ((expire_at_op j at, c) ∷ rest) d h =
      generation_later (expire_at_op j at) c rest d
        (generation-writes rest (run_op (expire_at_op j at) c d) h)
  generation-writes ((wall_expiry_op j, c) ∷ rest) d h =
      generation_later (wall_expiry_op j) c rest d
        (generation-writes rest (run_op (wall_expiry_op j) c d) h)
  generation-writes ((persist_op j, c) ∷ rest) d h =
      generation_later (persist_op j) c rest d
        (generation-writes rest (run_op (persist_op j) c d) h)
  generation-writes ((touch_op j, c) ∷ rest) d h = elim (Bool-cases (k == j)) [
    | inl same ↦ omega (arith, touched j d same, generation-run_ops rest (Data.touch j d))
    | inr other ↦
        generation_later (touch_op j) c rest d
          (generation-writes rest (Data.touch j d) (ground (arith, h, other)))
  ]

module _ {V : Type 0} (k : Bytes) where
  is_dirty-lookup :
      (watched : Dict Bytes (ℕ × Bool)) (c : Clock) (d : Data V) (generation : ℕ) (was_live : Bool)
      → lookup k watched ≡ some (generation, was_live)
      → generation < Data.generation k d
      → is_dirty watched c d ≡ true
  unfolding is_dirty lookup
  is_dirty-lookup [] c d g l p q = absurd (ground (arith, p))
  is_dirty-lookup ((j, (g', l')) ∷ rest) c d g l p q =
      ground (arith, p, q, bytes_beq_iff j k, bytes_beq_iff k j, is_dirty-lookup rest c d g l)

module _ {V Hub : Type 0} where
  watch-store : (keys : List Bytes) (c : Clock) (w : World V Hub) → (watch keys c w).store ≡ w.store
  unfolding watch
  watch-store [] c w = refl
  watch-store (key ∷ keys) c w = watch-store keys c _

  lookup-watch :
      (k : Bytes) (keys : List Bytes) (c : Clock) (w : World V Hub)
      → lookup k (watch keys c w).session.watched ≡ (
          if elem k keys
          then some (Data.generation k w.store, Data.is_live k c w.store)
          else lookup k w.session.watched)
  unfolding watch elem
  lookup-watch k [] c w = refl
  lookup-watch k (key ∷ keys) c w =
      let entry : ℕ × Bool = (Data.generation key w.store, Data.is_live key c w.store) in
      ground (
        arith,
        lookup-watch k keys c
            (with_session (λ s. record s { watched = insert key entry s.watched }) w),
        lookup-insert key k entry w.session.watched,
        bytes_beq_iff key k,
      )

  -- If a key was watched, and the calls of the store's methods since, with no `clear` among them,
  -- have touched it, EXEC
  -- answers with the null array, runs none of the queued commands, and leaves the transaction.
  pub exec-watch :
      (handlers : Bytes → Option (Handler V Hub)) (clocks : ℕ → Clock) (k : Bytes)
      (keys : List Bytes) (c : Clock) (before : World V Hub) (calls : Calls V) (w : World V Hub)
      → elem k keys ≡ true
      → writes k calls ≡ true
      → w.session.watched ≡ (watch keys c before).session.watched
      → w.store ≡ run_ops calls before.store
      → exec handlers clocks w ≡ (answer Reply.nil_array, with_session leave_multi w)
  unfolding exec
  exec-watch handlers clocks k keys c before calls w there written watched store =
      let dirty : is_dirty w.session.watched (clocks 0) w.store ≡ true =
        is_dirty-lookup k w.session.watched (clocks 0) w.store (Data.generation k before.store)
          (Data.is_live k c before.store)
          (ground (arith, there, watched, lookup-watch k keys c before))
          (ground (arith, store, generation-writes k calls before.store written)) in
      rw dirty refl

-- ===== src/Data/Refine.antt =====
-- The methods of data.py refine the specification, seen at the time of the call or later.
use kagni.Prelude.{
  ℤ, pos, ◌+ℤ◌, ◌*ℤ◌, ◌≤ℤ◌, ◌≡◌, refl, Bool, false, not, Option, none, some, [], ◌∷◌, List, Bytes,
  bytes_eq, bytes_beq_iff, if◌then◌else◌, arith, elem, Option-cases, inl, inr, *ℤ_parts, +ℤ_parts,
}
use kagni.Dict.{Dict, lookup, lookup-insert, lookup-erase, HasDistinctKeys}
use kagni.Data.Store.{
  Clock, Entry, Data, live, purge_key, purge_all, dead_keys, mono_deadline, get, sweep, set_value,
  set_item, touch, remove, set_expiry,
}
use kagni.Data.Expiry.{expire, expire_at, wall_expiry, persist}
use kagni.Data.View.{at_time, view}
use kagni.Data.Spec.{
  Op, get_op, sweep_op, set_op, set_item_op, touch_op, remove_op, expire_op, expire_at_op,
  wall_expiry_op, persist_op, run_op, spec_op,
}

module _ {V : Type 0} where
  pub lookup-purge_all :
      (j : Bytes) (ks : List Bytes) (d : Data V)
      → lookup j (purge_all ks d).storage ≡ (if elem j ks then none else lookup j d.storage)
  unfolding purge_all elem
  lookup-purge_all j [] d = refl
  lookup-purge_all j (k ∷ ks) d =
      ground (arith, lookup-purge_all j ks (purge_key k d), lookup-erase k j d.storage)

  abbrev pub is_dead : ℤ → Option (Entry V) → Bool
  is_dead now none = false
  is_dead now (some e) = not (live e now)

  pub elem-dead_keys :
      (j : Bytes) (now : ℤ) (s : Dict Bytes (Entry V))
      → HasDistinctKeys s
      → elem j (dead_keys now s) ≡ is_dead now (lookup j s)
  unfolding dead_keys elem lookup
  elem-dead_keys j now [] h = refl
  elem-dead_keys j now ((k, e) ∷ s) h =
      ground (arith, elem-dead_keys j now s h.1, bytes_beq_iff k j)

module _ {V : Type 0} (c : Clock) (t : ℤ) (later : c.mono ≤ℤ t) (d : Data V) (j k : Bytes) where
  abbrev pub Refines : Op V → Type 0
  Refines op = view t (run_op op c d) j ≡ at_time t (spec_op op c (view c.mono d) j)

  pub get-Refines : Refines (get_op k)
  unfolding run_op spec_op get view
  get-Refines = ground (arith, lookup-erase k j d.storage, bytes_beq_iff k j)

  pub wall_expiry-Refines : Refines (wall_expiry_op k)
  unfolding run_op spec_op wall_expiry view
  wall_expiry-Refines = ground (arith, lookup-erase k j d.storage, bytes_beq_iff k j)

  pub touch-Refines : Refines (touch_op k)
  unfolding run_op spec_op touch view
  touch-Refines = ground arith

  pub remove-Refines : Refines (remove_op k)
  unfolding run_op spec_op remove view
  remove-Refines = ground (arith, lookup-erase k j d.storage, bytes_beq_iff k j)

  pub set_item-Refines : (v : V) → Refines (set_item_op k v)
  unfolding run_op spec_op set_item view
  set_item-Refines v = ground (
    arith,
    lookup-insert k j (record { value = v; expires_at = none }) d.storage,
    bytes_beq_iff k j,
  )

  pub set-Refines : (v : V) (deadline : Option ℤ) (keep : Bool) → Refines (set_op k v deadline keep)
  unfolding run_op spec_op set_value view
  set-Refines v deadline keep = ground (
    arith,
    lookup-insert k j
        (record { value = v; expires_at = set_expiry (lookup k d.storage) c deadline keep })
        d.storage,
    bytes_beq_iff k j,
  )

  pub persist-Refines : Refines (persist_op k)
  unfolding run_op spec_op persist view
  persist-Refines = elim (Option-cases (lookup k d.storage)) [
    | inl missing ↦ ground (arith, bytes_beq_iff k j)
    | inr (e, there) ↦ ground (
      arith,
      bytes_beq_iff k j,
      lookup-erase k j d.storage,
      lookup-insert k j (record e { expires_at = none }) d.storage,
    )
  ]

  pub expire_at-Refines : (at : ℤ) → Refines (expire_at_op k at)
  unfolding run_op spec_op expire_at view
  expire_at-Refines at = elim (Option-cases (lookup k d.storage)) [
    | inl missing ↦ ground (arith, bytes_beq_iff k j)
    | inr (e, there) ↦ ground (
      arith,
      bytes_beq_iff k j,
      lookup-erase k j d.storage,
      lookup-insert k j (record e { expires_at = some (mono_deadline c at) }) d.storage,
    )
  ]

  pub expire-Refines : (secs : ℤ) → Refines (expire_op k secs)
  unfolding run_op spec_op expire view
  expire-Refines secs = elim (Option-cases (lookup k d.storage)) [
    | inl missing ↦ ground (arith, bytes_beq_iff k j)
    | inr (e, there) ↦
        let at : ℤ = c.mono +ℤ secs *ℤ pos 1_000_000_000 in
        ground (
          arith,
          bytes_beq_iff k j,
          *ℤ_parts secs 1_000_000_000,
          +ℤ_parts c.mono (secs *ℤ pos 1_000_000_000),
          lookup-erase k j d.storage,
          lookup-insert k j (record e { expires_at = some at }) d.storage,
        )
  ]

  pub sweep-Refines : HasDistinctKeys d.storage → Refines sweep_op
  unfolding run_op spec_op sweep view
  sweep-Refines h = ground (
    arith,
    lookup-purge_all j (dead_keys c.mono d.storage) d,
    elem-dead_keys j c.mono d.storage h,
  )

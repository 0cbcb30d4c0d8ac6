-- ===== src/Dispatch/Forgotten.antt =====
-- commands/__init__.py and data.py: FLUSHALL forgets the generations that WATCH has recorded.
use kagni.Prelude.{
  ℕ, suc, Option, List, is_empty, true, false, none, [], ◌∷◌, Bytes, bytes_eq, bytes_beq_refl, ◌≡◌,
  arith,
}
use kagni.Dict.{lookup, insert}
use kagni.Events.{Event}
use kagni.Data
use kagni.Data.{Clock, Data}
use kagni.Common.{after_write}
use kagni.Resp.{Reply}
use kagni.Dispatch.State.{World, Handler, with_session}
use kagni.Dispatch.Checks.{is_dirty, answer, leave_multi}
use kagni.Dispatch.Run.{exec}
use kagni.Dispatch.Replay.{Runs, replies_of, exec-Runs}

is_dirty-clear :
    (V : Type 0) (k : Bytes) (v : V) (ev : Event) (watched now c : Clock) (d : Data V)
    → Data.generation k d ≡ 1
    → Data.is_live k watched d ≡ true
    → is_dirty
        ((k, (Data.generation k d, Data.is_live k watched d)) ∷ [])
        now
        (after_write k ev (Data.set_value k v none false c (Data.clear d)))
      ≡ false
unfolding is_dirty Data.generation Data.is_live after_write Data.touch Data.set_value
    Data.set_expiry Data.clear Data.live lookup insert
is_dirty-clear V k v ev watched now c d first there = ground (arith, first, there, bytes_beq_refl k)

-- A key that was watched live at its first generation, and was then flushed and set again, does not
-- count as written: if the session watches it alone, and the queued commands each answer with one
-- frame and push nothing, EXEC runs them, answers with their replies and leaves the state that the
-- last one leaves.
pub exec-clear :
    (V Hub : Type 0) (handlers : Bytes → Option (Handler V Hub)) (clocks : ℕ → Clock) (k : Bytes)
    (v : V) (ev : Event) (watched c : Clock) (d : Data V) (w : World V Hub) (rs : List Reply)
    (last : World V Hub)
    → Data.generation k d ≡ 1
    → Data.is_live k watched d ≡ true
    → w.session.watched ≡ (k, (Data.generation k d, Data.is_live k watched d)) ∷ []
    → w.store ≡ after_write k ev (Data.set_value k v none false c (Data.clear d))
    → is_empty w.session.queue ≡ false
    → Runs handlers w.session.queue (λ i. clocks (suc i)) (with_session leave_multi w) rs last
    → exec handlers clocks w ≡ (answer (Reply.arr (replies_of rs)), last)
exec-clear V Hub handlers clocks k v ev watched c d w rs last first there seen store some_queued
      runs =
    let clean : is_dirty w.session.watched (clocks 0) w.store ≡ false =
      rw (seen, store) (is_dirty-clear V k v ev watched (clocks 0) c d first there) in
    exec-Runs handlers clocks w rs last clean some_queued runs

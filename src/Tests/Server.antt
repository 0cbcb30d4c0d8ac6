-- ===== src/Tests/Server.antt =====
-- The theorems on transactions and on the backend at concrete inputs.
use kagni.Prelude.{
  ℕ, ◌+◌, elem, ℤ, pos, Option, none, some, Bool, true, false, List, [], ◌∷◌, ◌++◌, Bytes, ◌≡◌,
  refl, ◌==◌, nat_eq, bytes_eq, ◌||◌, is_empty, arith,
}
use kagni.Text.{codes, print_int}
use kagni.Common.{Stored, string, ok, after_write}
use kagni.Strings.{getrange_of, setrange_of}
use kagni.Strings.Ranges.{getrange_of-setrange_of}
use kagni.Data
use kagni.Data.{Clock, Data}
use kagni.Data.Spec.{Op}
use kagni.Data.Trace.{Calls, run_ops}
use kagni.Resp.{Reply, Value, Values}
use kagni.Dispatch.{
  Request, Session, World, Handler, Ran, new_session, watch, with_session, Outcome, answer,
  leave_multi, exec, dispatch, dispatch_direct,
}
use kagni.Events.{Event}
use kagni.Dispatch.{is_dirty}
use kagni.Dispatch.Watch.{exec-watch}
use kagni.Dispatch.Forgotten.{exec-clear}
use kagni.Dispatch.Replay.{Runs, replies_of, exec-Runs}
use kagni.Dispatch.Isolation.{dispatch-isolated}
use kagni.Dispatch.Idle.{IsIdle, dispatch-IsIdle}
use kagni.PubSub.{PubSubHub, new_hub, publish, build_message, subscribers_of}
use kagni.PubSub.Members.{TableCall, is_member, run_calls, spec_calls, is_member-run_calls}
use kagni.PubSub.Publish.{to_each, sends, matched, publish-sends}
use kagni.Persist.{Backend, start, take_snapshot, clear_memory, flush}

abbrev tick : ℕ → Clock
tick t = record { mono = pos t; wall = pos (1000 + t) }

abbrev key : Bytes
key = codes "k"

-- a handler that writes
abbrev toucher : Handler ℕ ℕ
toucher = record {
  min_args = 0;
  max_args = some 1;
  run = λ args c w. (Ran.replied Reply.ok, record w { store = Data.touch key w.store });
}

abbrev table : Bytes → Option (Handler ℕ ℕ)
table name = some toucher

abbrev fresh : World ℕ ℕ
fresh = record { store = Data.init; hub = 0; session = new_session }

abbrev touch_request : Request
touch_request = (codes "set", Value.bytes key ∷ [])

abbrev queued_world : World ℕ ℕ
queued_world = with_session (λ s. record s { in_multi = true; queue = touch_request ∷ [] }) fresh

abbrev one_write : Calls ℕ
one_write = (Op.touch_op key, tick 5) ∷ []

abbrev watched_world : World ℕ ℕ
watched_world = record queued_world {
  store = run_ops one_write Data.init;
  session = record queued_world.session {
    watched = (watch (key ∷ []) (tick 1) fresh).session.watched;
  };
}

exec-watch_example :
    exec table tick watched_world ≡ (answer Reply.nil_array, with_session leave_multi watched_world)
unfolding elem kagni.Prelude.bytes_beq
exec-watch_example =
    exec-watch table tick key (key ∷ []) (tick 1) fresh one_write watched_world refl refl refl refl

after_touch :
    dispatch_direct table true touch_request (tick 1) (with_session leave_multi queued_world) ≡ (
      answer Reply.ok,
      record (with_session leave_multi queued_world) { store = Data.touch key Data.init },
    )
unfolding dispatch_direct kagni.Prelude.bytes_beq
after_touch = refl

exec-Runs_example : exec table tick queued_world ≡ (
  answer (Reply.arr (replies_of (Reply.ok ∷ []))),
  record (with_session leave_multi queued_world) { store = Data.touch key Data.init },
)
unfolding kagni.Dispatch.is_dirty
exec-Runs_example =
    exec-Runs table tick queued_world (Reply.ok ∷ [])
      (record (with_session leave_multi queued_world) { store = Data.touch key Data.init }) refl
      refl (Runs.next after_touch refl Runs.nothing)

abbrev touch_value : Value
touch_value =
    Value.list (Values.cons (Value.bytes (codes "set")) (Values.cons (Value.bytes key) Values.nil))

dispatch-isolated_example :
    ((dispatch table touch_value tick queued_world).1.store ≡ Data.init)
    × ((dispatch table touch_value tick queued_world).1.hub ≡ 0)
unfolding kagni.Dispatch.Isolation.is_exec kagni.Prelude.bytes_beq kagni.Text.upper
    kagni.Text.decode_ascii
dispatch-isolated_example = dispatch-isolated table touch_value tick queued_world refl refl

dispatch-IsIdle_example : IsIdle (dispatch table touch_value tick queued_world).1.session
dispatch-IsIdle_example =
    dispatch-IsIdle table (λ name h found args c w idle. ground (arith, found, idle)) touch_value
      tick queued_world refl

abbrev after_flush : Backend ℕ
after_flush = flush (clear_memory (take_snapshot (start (1 ∷ []))))

abbrev some_calls : List TableCall
some_calls =
    TableCall.subscribe_call 1 key ∷ TableCall.subscribe_call 2 key ∷ TableCall.remove_call 1 ∷ []

is_member-run_calls_example :
    is_member 2 key (run_calls some_calls []) ≡ spec_calls 2 key some_calls (is_member 2 key [])
is_member-run_calls_example = is_member-run_calls some_calls [] 2 key tt

abbrev busy_hub : PubSubHub
busy_hub = record new_hub { channels = (key, 1 ∷ 2 ∷ []) ∷ []; patterns = (codes "*", 2 ∷ []) ∷ [] }

-- every glob matches
publish-sends_example :
    publish (λ p c. true) key (codes "hi") busy_hub
    ≡ sends
        (to_each (build_message key (codes "hi")) (subscribers_of key busy_hub.channels)
          ++ matched (λ p c. true) key (codes "hi") busy_hub.patterns)
        (0, busy_hub)
publish-sends_example = publish-sends (λ p c. true) key (codes "hi") busy_hub

abbrev at_ten : Data (Stored ℕ)
at_ten = record Data.init {
  storage = (key, record { value = string (print_int (pos 10)); expires_at = some (pos 99) }) ∷ [];
}

-- the value is written past the end of the string
getrange_of-setrange_of_example :
    getrange_of (pos 5) (pos (5 + 1)) (setrange_of 5 (codes "xy") (codes "abc")) ≡ codes "xy"
getrange_of-setrange_of_example = getrange_of-setrange_of 5 1 (codes "xy") (codes "abc") refl

abbrev set_once : Data ℕ
set_once = record Data.init {
  storage = (key, record { value = 1; expires_at = none }) ∷ [];
  generations = (key, 1) ∷ [];
}

-- set once and watched, flushed, and set again
abbrev flushed_world : World ℕ ℕ
flushed_world = record queued_world {
  store =
      after_write key Event.set (Data.set_value key 2 none false (tick 3) (Data.clear set_once));
  session = record queued_world.session {
    watched = (key, (Data.generation key set_once, Data.is_live key (tick 1) set_once)) ∷ [];
  };
}

abbrev flushed_last : World ℕ ℕ
flushed_last = record (with_session leave_multi flushed_world) {
  store = Data.touch key flushed_world.store;
}

flushed_touch :
    dispatch_direct table true touch_request (tick 1) (with_session leave_multi flushed_world)
    ≡ (answer Reply.ok, flushed_last)
unfolding dispatch_direct kagni.Prelude.bytes_beq
flushed_touch = refl

exec-clear_example :
    exec table tick flushed_world ≡ (answer (Reply.arr (replies_of (Reply.ok ∷ []))), flushed_last)
unfolding Data.generation Data.is_live Data.live kagni.Dict.lookup kagni.Prelude.bytes_beq
exec-clear_example =
    exec-clear ℕ ℕ table tick key 2 Event.set (tick 1) (tick 3) set_once flushed_world
      (Reply.ok ∷ []) flushed_last refl refl refl refl refl
      (Runs.next flushed_touch refl Runs.nothing)

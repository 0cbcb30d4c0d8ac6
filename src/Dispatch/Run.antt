-- ===== src/Dispatch/Run.antt =====
-- commands/__init__.py: `dispatch`, `_dispatch_direct` and `_dispatch_queued`. The handlers are a
-- parameter: what `getattr(self, name)` finds.
use kagni.Prelude.{
  ℕ, suc, Bool, true, false, not, ◌&&◌, ◌||◌, Option, none, some, List, [], ◌∷◌, ◌++◌, Bytes, ◌==◌,
  bytes_eq, nat_eq, if◌then◌else◌, length, is_empty, pos,
}
use kagni.Text.{codes, upper, lower, decode_ascii, print_int}
use kagni.Data.{Clock}
use kagni.Resp.{Reply, Replies, Value, crlf, protocol_builder}
use kagni.Common.Errors.{arity}
use kagni.Dispatch.Frames.{error_frame, gate_text, gate_label, unknown_command_frame}
use kagni.Dispatch.State.{Request, subscribed, World, Handler, with_session}
use kagni.Dispatch.Checks.{
  Outcome, is_crash, answer, refuse, frame_or_crash, gate, name_of, is_dirty, Replayed, collect,
  leave_multi, concat, request_of, bad_arity, run_handler, frame, silent, crashed, frames, broken,
  no_request, bad_request, good_request,
}

module _ {V Hub : Type 0} (handlers : Bytes → Option (Handler V Hub)) where
  unfoldable pub dispatch_direct : Bool → Request → Clock → World V Hub → Outcome × World V Hub
  unfolding run_handler gate_label unknown_command_frame upper decode_ascii protocol_builder
  dispatch_direct bypass_gate (command, args) c w =
      let name = name_of command in
      let sub = subscribed w.session in
      if not bypass_gate && sub && (name == codes "MULTI" || name == codes "DISCARD")
      then (gate command args, w)
      else if name == codes "MULTI"
      then (answer Reply.ok, with_session (λ s. record s { in_multi = true; queue = [] }) w)
      else if name == codes "EXEC"
      then (
        (if sub
            then frame (
                error_frame (record {
                  class = codes "EXECABORT";
                  message = codes "Transaction discarded because of: " ++ gate_text (codes "exec");
                }))
            else refuse (codes "EXEC without MULTI")),
        w,
      )
      else if name == codes "DISCARD"
      then (refuse (codes "DISCARD without MULTI"), w)
      else elim (handlers name) [
        | none ↦ (frame_or_crash (unknown_command_frame command args), w)
        | some h ↦ run_handler h bypass_gate (command, args) c w
      ]

  -- The loop of EXEC over the queue, the k-th command at the k-th clock. What a command pushes is
  -- collected apart from the frames that were sent before.
  unfoldable pub replay : List Request → (ℕ → Clock) → World V Hub → Replayed × World V Hub
  unfolding dispatch_direct
  replay [] clocks w = (frames [] [], w)
  replay (request ∷ rest) clocks w =
      let sent = w.session.outbox in
      let (out, w') =
        dispatch_direct true request (clocks 0) (with_session (λ s. record s { outbox = [] }) w) in
      let restored = with_session (λ s. record s { outbox = sent }) w' in
      let (later, last) = replay rest (λ k. clocks (suc k)) restored in
      if is_crash out then (broken, restored) else (collect out w'.session.outbox later, last)

  abbrev pub exec_frame : ℕ → Replayed → Outcome
  exec_frame n (frames parts trailing) =
      frame (b'*' ∷ print_int (pos n) ++ crlf ++ concat parts ++ concat trailing)
  exec_frame n broken = crashed

  unfoldable pub exec : (ℕ → Clock) → World V Hub → Outcome × World V Hub
  unfolding is_dirty replay protocol_builder print_int
  exec clocks w =
      let queued = w.session.queue in
      let w' = with_session leave_multi w in
      let (replayed, last) = replay queued (λ k. clocks (suc k)) w' in
      if is_dirty w.session.watched (clocks 0) w.store
      then (answer Reply.nil_array, w')
      else if is_empty queued
      then (answer (Reply.arr Replies.empty), w')
      else (exec_frame (length queued) replayed, last)

  unfoldable pub dispatch_queued : Request → (ℕ → Clock) → World V Hub → Outcome × World V Hub
  unfolding exec unknown_command_frame upper lower decode_ascii protocol_builder
  dispatch_queued (command, args) clocks w =
      let name = name_of command in
      if name == codes "EXEC"
      then exec clocks w
      else if name == codes "DISCARD"
      then (answer Reply.ok, with_session leave_multi w)
      else if name == codes "MULTI"
      then (refuse (codes "MULTI calls can not be nested"), w)
      else if name == codes "WATCH"
      then (refuse (codes "WATCH inside MULTI is not allowed"), w)
      else elim (handlers name) [
        | none ↦ (frame_or_crash (unknown_command_frame command args), w)
        | some h ↦ if bad_arity h args then (frame (error_frame (arity (lower name))), w) else (
          answer Reply.queued,
          with_session (λ s. record s { queue = s.queue ++ (command, args) ∷ [] }) w,
        )
      ]

  -- `dispatch` of a connection's session
  unfoldable pub dispatch : Value → (ℕ → Clock) → World V Hub → Outcome × World V Hub
  unfolding dispatch_direct dispatch_queued protocol_builder request_of
  dispatch request clocks w = elim (request_of request) [
    | no_request ↦ (silent, w)
    | bad_request ↦ (refuse (codes "invalid request"), w)
    | good_request r ↦
        if w.session.in_multi
        then dispatch_queued r clocks w
        else dispatch_direct false r (clocks 0) w
  ]

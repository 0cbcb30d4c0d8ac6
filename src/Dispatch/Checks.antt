-- ===== src/Dispatch/Checks.antt =====
-- commands/__init__.py: how a request ends, the tests on it, and the run of one handler.
use kagni.Prelude.{
  ℕ, Bool, true, false, not, ◌&&◌, ◌||◌, Option, none, some, List, [], ◌∷◌, ◌++◌, Bytes, ◌==◌,
  bytes_eq, nat_eq, if◌then◌else◌, ltb, length, elem,
}
use kagni.Dict.{Dict}
use kagni.Text.{codes, upper, lower, decode_ascii}
use kagni.Data
use kagni.Data.{Clock, Data}
use kagni.Resp.{Reply, Replies, Value, Values, bytes, list, nil, cons, protocol_builder}
use kagni.Common.Errors.{err_error, arity}
use kagni.Dispatch.Frames.{error_frame, allowed_while_subscribed, gate_text, gate_label, to_reply}
use kagni.Dispatch.State.{
  Request, Session, subscribed, World, Ran, replied, unanswered, failed, raised, Handler,
}

-- What a request ends with: a frame, no frame of its own, or an exception that leaves `dispatch`.
pub data Outcome : Type 0 where
  frame : Bytes → Outcome
  silent crashed : Outcome

abbrev pub is_crash : Outcome → Bool
is_crash crashed = true
is_crash _ = false

abbrev pub answer : Reply → Outcome
answer r = frame (protocol_builder r)

abbrev pub refuse : Bytes → Outcome
refuse message = frame (error_frame (err_error message))

abbrev pub frame_or_crash : Option Bytes → Outcome
frame_or_crash none = crashed
frame_or_crash (some f) = frame f

abbrev pub outcome_of : Ran → Outcome
outcome_of (replied r) = answer r
outcome_of unanswered = silent
outcome_of (raised e) = frame (error_frame e)
outcome_of failed = refuse (codes "internal error")

abbrev pub gate : Bytes → List Value → Outcome
gate command args = elim (gate_label command args) [
  | none ↦ crashed
  | some label ↦ refuse (gate_text label)
]

abbrev pub name_of : Bytes → Bytes
name_of command = upper (decode_ascii command)

abbrev pub over : ℕ → Option ℕ → Bool
over n none = false
over n (some k) = ltb k n

-- `[b"pong", args[0] if args else b""]`
abbrev pub pong_reply : List Value → Outcome
pong_reply [] = answer (
    Reply.arr
      (Replies.item (Reply.bulk (codes "pong")) (Replies.item (Reply.bulk []) Replies.empty)))
pong_reply (first ∷ rest) = elim (to_reply first) [
  | none ↦ crashed
  | some r ↦
      answer (Reply.arr (Replies.item (Reply.bulk (codes "pong")) (Replies.item r Replies.empty)))
]

abbrev pub differs : Bool → Bool → Bool
differs true b = not b
differs false b = b

module _ {V : Type 0} where
  -- a watched key was written, or expired, or is live now and was not
  unfoldable pub is_dirty : Dict Bytes (ℕ × Bool) → Clock → Data V → Bool
  unfolding Data.generation Data.is_live
  is_dirty [] c d = false
  is_dirty ((key, (generation, was_live)) ∷ rest) c d =
      not (Data.generation key d == generation)
      || differs (Data.is_live key c d) was_live
      || is_dirty rest c d

-- The frames of a replay: one part of the array for each command, and what is sent after it.
pub data Replayed : Type 0 where
  frames : List Bytes → List Bytes → Replayed
  broken : Replayed

abbrev pub add_part : Bytes → List Bytes → Replayed → Replayed
add_part part more (frames parts trailing) = frames (part ∷ parts) (more ++ trailing)
add_part part more broken = broken

-- `parts` and `trailing` for one command; the join fails on a missing frame
abbrev pub collect : Outcome → List Bytes → Replayed → Replayed
collect crashed pushed later = broken
collect (frame f) [] later = add_part f [] later
collect silent [] later = broken
collect _ (first ∷ rest) later = add_part first rest later

abbrev pub leave_multi : Session → Session
leave_multi s = record s { in_multi = false; queue = []; watched = [] }

-- `b"".join`
abbrev pub concat : List Bytes → Bytes
concat [] = []
concat (b ∷ bs) = b ++ concat bs

-- The tests of `dispatch` on what was parsed: nothing to do for anything but a list with an element.
pub data Checked : Type 0 where
  no_request bad_request : Checked
  good_request : Request → Checked

abbrev pub value_list : Values → List Value
value_list nil = []
value_list (cons v vs) = v ∷ value_list vs

unfoldable pub request_of : Value → Checked
request_of (list (cons (bytes command) args)) = good_request (command, value_list args)
request_of (list (cons _ args)) = bad_request
request_of _ = no_request

module _ {V Hub : Type 0} where
  abbrev pub bad_arity : Handler V Hub → List Value → Bool
  bad_arity h args = ltb (length args) h.min_args || over (length args) h.max_args

  -- from the arity test of `_dispatch_direct` on
  unfoldable pub run_handler :
      Handler V Hub → Bool → Request → Clock → World V Hub → Outcome × World V Hub
  unfolding upper lower decode_ascii gate_label to_reply protocol_builder
  run_handler h bypass_gate (command, args) c w =
      let name = name_of command in
      let sub = subscribed w.session in
      if bad_arity h args
      then (frame (error_frame (arity (lower name))), w)
      else if not bypass_gate && sub && not (elem name allowed_while_subscribed)
      then (gate command args, w)
      else if sub && name == codes "PING"
      then (
        (if ltb 1 (length args)
            then frame (error_frame (arity (codes "ping")))
            else pong_reply args),
        w,
      )
      else let (ran, w') = h.run args c w in (outcome_of ran, w')

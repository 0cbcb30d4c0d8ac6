-- ===== src/Dispatch/Replay.antt =====
-- commands/__init__.py: what EXEC answers when each queued command answers with one frame.
use kagni.Prelude.{
  ℕ, suc, true, false, Option, List, [], ◌∷◌, ◌++◌, Bytes, ◌≡◌, refl, ap, ◌∙◌, length, is_empty,
  append-nil, pos,
}
use kagni.Data.{Clock}
use kagni.Text.{print_int}
use kagni.Resp.{
  Reply, Replies, length_replies, resp_dumps, dumps_items, join_lines, crlf, protocol_builder,
}
use kagni.Resp.RoundTrip.{join_lines-append}
use kagni.Dispatch.State.{Request, World, Handler, with_session}
use kagni.Dispatch.Checks.{frame, answer, frames, concat, leave_multi, is_dirty}
use kagni.Dispatch.Run.{dispatch_direct, replay, exec}

abbrev pub replies_of : List Reply → Replies
replies_of [] = Replies.empty
replies_of (r ∷ rs) = Replies.item r (replies_of rs)

abbrev pub built : List Reply → List Bytes
built [] = []
built (r ∷ rs) = protocol_builder r ∷ built rs

concat-built : (rs : List Reply) → concat (built rs) ≡ join_lines (dumps_items (replies_of rs))
unfolding protocol_builder join_lines dumps_items
concat-built [] = refl
concat-built (r ∷ rs) =
    rw (join_lines-append (resp_dumps r) (dumps_items (replies_of rs)), concat-built rs) refl

-- the encoding of an array, from its header and the encodings of its elements
array_frame :
    (rs : List Reply)
    → b'*' ∷ print_int (pos (length_replies (replies_of rs)))
        ++ crlf
        ++ concat (built rs)
        ++ concat []
      ≡ protocol_builder (Reply.arr (replies_of rs))
unfolding protocol_builder join_lines resp_dumps
array_frame rs =
    let header = print_int (pos (length_replies (replies_of rs))) ++ crlf in
    ap (λ t. b'*' ∷ t)
      (append-nil (header ++ concat (built rs)) ∙ ap (λ t. header ++ t) (concat-built rs))

module _ {V Hub : Type 0} (handlers : Bytes → Option (Handler V Hub)) where
  -- The commands run one after another, each with one frame as its answer and nothing pushed.
  pub data Runs : List Request → (ℕ → Clock) → World V Hub → List Reply → World V Hub → Type 0 where
    nothing : {clocks : ℕ → Clock} {w : World V Hub} → Runs [] clocks w [] w
    next :
        {r : Request} {rest : List Request} {clocks : ℕ → Clock} {w w' last : World V Hub}
        {reply : Reply} {rs : List Reply}
        → dispatch_direct handlers true r
            (clocks 0)
            (with_session (λ s. record s { outbox = [] }) w)
          ≡ (answer reply, w')
        → w'.session.outbox ≡ []
        → Runs rest
            (λ k. clocks (suc k))
            (with_session (λ s. record s { outbox = w.session.outbox }) w')
            rs
            last
        → Runs (r ∷ rest) clocks w (reply ∷ rs) last

  replay-Runs :
      (queue : List Request) (clocks : ℕ → Clock) (w : World V Hub) (rs : List Reply)
      (last : World V Hub)
      → Runs queue clocks w rs last
      → replay handlers queue clocks w ≡ (frames (built rs) [], last)
  unfolding replay
  replay-Runs queue clocks w rs last nothing = refl
  replay-Runs queue clocks w rs last
        (next {rest = rest} {w' = w'} {rs = tail} answered quiet runs) =
      rw
        (
          answered,
          quiet,
          replay-Runs rest (λ k. clocks (suc k))
              (with_session (λ s. record s { outbox = w.session.outbox }) w') tail last runs,
        )
        refl

  length-Runs :
      (queue : List Request) (clocks : ℕ → Clock) (w : World V Hub) (rs : List Reply)
      (last : World V Hub)
      → Runs queue clocks w rs last
      → length queue ≡ length_replies (replies_of rs)
  length-Runs queue clocks w rs last nothing = refl
  length-Runs queue clocks w rs last
        (next {rest = rest} {w' = w'} {rs = tail} answered quiet runs) =
      ap suc (
        length-Runs rest (λ k. clocks (suc k))
          (with_session (λ s. record s { outbox = w.session.outbox }) w') tail last runs)

  -- If the transaction is not dirty, and the queued commands, run one after another in the order
  -- in which they were queued, each answer with one frame and push nothing, then EXEC answers with
  -- the encoding of the array of their replies, and leaves the state that the last one leaves.
  pub exec-Runs :
      (clocks : ℕ → Clock) (w : World V Hub) (rs : List Reply) (last : World V Hub)
      → is_dirty w.session.watched (clocks 0) w.store ≡ false
      → is_empty w.session.queue ≡ false
      → Runs w.session.queue (λ k. clocks (suc k)) (with_session leave_multi w) rs last
      → exec handlers clocks w ≡ (answer (Reply.arr (replies_of rs)), last)
  unfolding exec
  exec-Runs clocks w rs last clean some_queued runs =
      rw
        (
          clean,
          some_queued,
          replay-Runs w.session.queue (λ k. clocks (suc k)) (with_session leave_multi w) rs last
              runs,
          length-Runs w.session.queue (λ k. clocks (suc k)) (with_session leave_multi w) rs last
              runs,
        )
        (ap (λ f. (frame f, last)) (array_frame rs))

-- ===== src/Dispatch/Idle.antt =====
-- commands/__init__.py: commands are queued only while a transaction is open.
use kagni.Prelude.{
  ℕ, suc, Bool, true, false, ◌||◌, Option, some, List, [], ◌∷◌, Bytes, bytes_eq, ◌≡◌, refl, arith,
  is_empty, if-elim, Option-cases, inl, inr,
}
use kagni.Data.{Clock}
use kagni.Resp.{Value}
use kagni.Dispatch.State.{Request, Session, World, Handler, with_session}
use kagni.Dispatch.Checks.{
  Replayed, Checked, no_request, bad_request, good_request, request_of, name_of, leave_multi,
  run_handler, is_crash,
}
use kagni.Dispatch.Run.{dispatch_direct, replay, exec, dispatch_queued, dispatch}

-- no command waits outside a transaction
abbrev pub IsIdle : Session → Type 0
IsIdle s = (s.in_multi || is_empty s.queue) ≡ true

module _ {V Hub : Type 0} (handlers : Bytes → Option (Handler V Hub))
    (keeps : (name : Bytes) (h : Handler V Hub)
      → handlers name ≡ some h
      → (args : List Value) (c : Clock) (w : World V Hub) → IsIdle w.session
      → IsIdle (h.run args c w).1.session) where
  direct-IsIdle :
      (bypass : Bool) (r : Request) (c : Clock) (w : World V Hub)
      → IsIdle w.session
      → IsIdle (dispatch_direct handlers bypass r c w).1.session
  unfolding dispatch_direct run_handler
  direct-IsIdle bypass (command, args) c w idle = elim (Option-cases (handlers (name_of command))) [
    | inl missing ↦ ground (arith, missing, idle)
    | inr (h, found) ↦ ground (arith, found, idle, keeps (name_of command) h found args c w idle)
  ]

  replay-IsIdle :
      (queue : List Request) (clocks : ℕ → Clock) (w : World V Hub)
      → IsIdle w.session
      → IsIdle (replay handlers queue clocks w).1.session
  unfolding replay
  replay-IsIdle [] clocks w idle = idle
  replay-IsIdle (r ∷ rest) clocks w idle =
      let cleared = with_session (λ s. record s { outbox = [] }) w in
      let (out, w') = dispatch_direct handlers true r (clocks 0) cleared in
      let restored : World V Hub = with_session (λ s. record s { outbox = w.session.outbox }) w' in
      let idle' : IsIdle restored.session = direct-IsIdle true r (clocks 0) cleared idle in
      if-elim (λ (r : Replayed × World V Hub). IsIdle r.1.session) (is_crash out) idle'
        (replay-IsIdle rest (λ k. clocks (suc k)) restored idle')

  queued-IsIdle :
      (r : Request) (clocks : ℕ → Clock) (w : World V Hub)
      → w.session.in_multi ≡ true
      → IsIdle (dispatch_queued handlers r clocks w).1.session
  unfolding dispatch_queued exec
  queued-IsIdle r clocks w opened = ground (
    arith,
    opened,
    replay-IsIdle w.session.queue (λ k. clocks (suc k)) (with_session leave_multi w) refl,
  )

  checked-IsIdle :
      (q : Checked) (v : Value) (clocks : ℕ → Clock) (w : World V Hub)
      → request_of v ≡ q
      → IsIdle w.session
      → IsIdle (dispatch handlers v clocks w).1.session
  unfolding dispatch
  checked-IsIdle no_request v clocks w p idle = ground (arith, p, idle)
  checked-IsIdle bad_request v clocks w p idle = ground (arith, p, idle)
  checked-IsIdle (good_request r) v clocks w p idle =
      ground (arith, p, idle, queued-IsIdle r clocks w, direct-IsIdle false r (clocks 0) w idle)

  -- Outside a transaction the queue of a session is empty: dispatch keeps that for every request,
  -- if each handler of the table keeps it.
  pub dispatch-IsIdle :
      (v : Value) (clocks : ℕ → Clock) (w : World V Hub)
      → IsIdle w.session
      → IsIdle (dispatch handlers v clocks w).1.session
  dispatch-IsIdle v clocks w idle = checked-IsIdle (request_of v) v clocks w refl idle

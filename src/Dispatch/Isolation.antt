-- ===== src/Dispatch/Isolation.antt =====
-- commands/__init__.py: a transaction that is open changes nothing but its session.
use kagni.Prelude.{ℕ, Bool, true, false, Option, Bytes, ◌==◌, bytes_eq, ◌≡◌, refl, arith}
use kagni.Text.{codes}
use kagni.Data.{Clock}
use kagni.Resp.{Value}
use kagni.Dispatch.State.{Request, World, Handler}
use kagni.Dispatch.Checks.{Checked, no_request, bad_request, good_request, request_of, name_of}
use kagni.Dispatch.Run.{dispatch_queued, dispatch}

unfoldable pub is_exec : Value → Bool
unfolding request_of
is_exec v = elim (request_of v) [ good_request r ↦ name_of r.0 == codes "EXEC" | _ ↦ false ]

module _ {V Hub : Type 0} (handlers : Bytes → Option (Handler V Hub)) where
  queued-isolated :
      (r : Request) (clocks : ℕ → Clock) (w : World V Hub)
      → (name_of r.0 == codes "EXEC") ≡ false
      → ((dispatch_queued handlers r clocks w).1.store ≡ w.store)
        × ((dispatch_queued handlers r clocks w).1.hub ≡ w.hub)
  unfolding dispatch_queued
  queued-isolated r clocks w other = ground (arith, other)

  checked-isolated :
      (q : Checked) (v : Value) (clocks : ℕ → Clock) (w : World V Hub)
      → request_of v ≡ q
      → w.session.in_multi ≡ true
      → is_exec v ≡ false
      → ((dispatch handlers v clocks w).1.store ≡ w.store)
        × ((dispatch handlers v clocks w).1.hub ≡ w.hub)
  unfolding dispatch is_exec
  checked-isolated no_request v clocks w p opened other = ground (arith, p)
  checked-isolated bad_request v clocks w p opened other = ground (arith, p)
  checked-isolated (good_request r) v clocks w p opened other =
      ground (arith, p, opened, other, queued-isolated r clocks w)

  -- While a transaction is open, no request but EXEC changes the store or the hub, whatever it is
  -- and however it ends.
  pub dispatch-isolated :
      (v : Value) (clocks : ℕ → Clock) (w : World V Hub)
      → w.session.in_multi ≡ true
      → is_exec v ≡ false
      → ((dispatch handlers v clocks w).1.store ≡ w.store)
        × ((dispatch handlers v clocks w).1.hub ≡ w.hub)
  dispatch-isolated v clocks w opened other =
      checked-isolated (request_of v) v clocks w refl opened other

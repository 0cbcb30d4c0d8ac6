-- ===== src/Common/Keeps.antt =====
-- Invariants of commands, one rule for each way to build a command.
use kagni.Prelude.{◌≡◌, refl, Bool, true, false, if◌then◌else◌}
use kagni.Data.{Clock, Data}
use kagni.Resp.{Error}
use kagni.Common.Running.{Result, ok, err, Command, pure, raise, modify, raise_if, ◌>>=◌, ◌>>◌}

-- `m` keeps `P`, whether it returns or raises.
pub record Keeps {V A : Type 0} (P : Data V → Type 0) (m : Command V A) : Type 0 where
  pub at : (c : Clock) (d : Data V) → P d → P (m c d).1

module _ {V A : Type 0} {P : Data V → Type 0} where
  pub Keeps-pure : (a : A) → Keeps P (pure a)
  Keeps-pure a = record { at = λ c d h. h }

  pub Keeps-raise : (e : Error) → Keeps {A = A} P (raise e)
  Keeps-raise e = record { at = λ c d h. h }

  pub Keeps-lift : (r : Result A) → Keeps P (λ c d. (r, d))
  Keeps-lift r = record { at = λ c d h. h }

  pub Keeps-if :
      (b : Bool) (m n : Command V A) → Keeps P m → Keeps P n → Keeps P (if b then m else n)
  Keeps-if true m n km kn = km
  Keeps-if false m n km kn = kn

module _ {V : Type 0} {P : Data V → Type 0} where
  pub Keeps-raise_if : (b : Bool) (e : Error) → Keeps P (raise_if b e)
  Keeps-raise_if b e = record { at = λ c d h. h }

  pub Keeps-modify : (f : Data V → Data V) → ((d : Data V) → P d → P (f d)) → Keeps P (modify f)
  Keeps-modify f k = record { at = λ c d h. k d h }

module _ {V A B : Type 0} {P : Data V → Type 0} where
  bind_at :
      (r : Result A) (c : Clock) (d : Data V) (f : A → Command V B)
      → P d
      → ((a : A) → r ≡ ok a → Keeps P (f a))
      → P (((λ _ _. (r, d)) >>= f) c d).1
  bind_at (ok a) c d f h k = (k a refl).at c d h
  bind_at (err e) c d f h k = h

  pub Keeps-bind :
      (m : Command V A) (f : A → Command V B)
      → Keeps P m
      → ((a : A) → Keeps P (f a))
      → Keeps P (m >>= f)
  Keeps-bind m f km kf = record {
    at = λ c d h. let (r, d') = m c d in bind_at r c d' f (km.at c d h) (λ a _. kf a);
  }

module _ {V A B C : Type 0} where
  assoc_at :
      (P : Data V → Type 0) (r : Result A) (c : Clock) (d : Data V) (n : Command V B)
      (k : Command V C)
      → P ((((λ _ _. (r, d)) >> n) >> k) c d).1
      → P (((λ _ _. (r, d)) >> (n >> k)) c d).1
  assoc_at P (ok a) c d n k h = h
  assoc_at P (err e) c d n k h = h

  pub Keeps-assoc :
      (P : Data V → Type 0) (m : Command V A) (n : Command V B) (k : Command V C)
      → Keeps P ((m >> n) >> k)
      → Keeps P (m >> (n >> k))
  Keeps-assoc P m n k h = record {
    at = λ c d p. let (r, d') = m c d in assoc_at P r c d' n k (h.at c d p);
  }

pub ruleset keeps_rules =
    (Keeps-pure, Keeps-raise, Keeps-lift, Keeps-if, Keeps-raise_if, Keeps-modify, Keeps-bind)

-- ===== src/Common/Running.antt =====
-- How a command runs: against the store, at the clocks of the call, to a value or a raised error.
-- What was written before a raise stays written.
use kagni.Prelude.{ℕ, Bool, Option, none, some, [], ◌∷◌, ◌++◌, Bytes, bytes_eq, if◌then◌else◌}
use kagni.Dict.{lookup, insert}
use kagni.Events.{Event}
use kagni.Data
use kagni.Data.{Clock, Entry, Data}
use kagni.Resp.{Error}
use kagni.Common.Errors.{wrongtype}
use kagni.Common.Values.{Stored, Kind, kind_of, same_kind}

pub data Result {ℓ} (A : Type ℓ) : Type ℓ where
  ok : A → Result A
  err : Error → Result A

abbrev pub Command {ℓ} : Type 0 → Type ℓ → Type ℓ
Command V A = Clock → Data V → Result A × Data V

module _ {ℓ} {V : Type 0} {A : Type ℓ} where
  abbrev pub pure : A → Command V A
  pure a c d = (ok a, d)

  abbrev pub raise : Error → Command V A
  raise e c d = (err e, d)

  -- a method of the store that cannot raise
  abbrev pub call : (Clock → Data V → A × Data V) → Command V A
  call f c d = let (a, d') = f c d in (ok a, d')

module _ {ℓ κ} {V : Type 0} {A : Type ℓ} {B : Type κ} where
  infixl 10 ◌>>=◌ ◌>>◌
  abbrev pub ◌>>=◌ : Command V A → (A → Command V B) → Command V B
  ◌>>=◌ m f c d = let (r, d') = m c d in elim r [ ok a ↦ f a c d' | err e ↦ (err e, d') ]

  abbrev pub ◌>>◌ : Command V A → Command V B → Command V B
  m >> k = m >>= λ _. k

module _ {V : Type 0} where
  abbrev pub modify : (Data V → Data V) → Command V (Unit {0})
  modify f c d = (ok tt, f d)

  abbrev pub raise_if : Bool → Error → Command V (Unit {0})
  raise_if b e c d = (if b then err e else ok tt, d)

  -- `_notify`: what it publishes is decided from the entry that it logs here.
  unfoldable pub notify : Bytes → Event → Data V → Data V
  notify key event d = record d { notified = d.notified ++ (key, event) ∷ [] }

  unfoldable pub after_write : Bytes → Event → Data V → Data V
  unfolding notify
  after_write key event d = notify key event (Data.touch key d)

  -- A stored object that is changed in place: its entry keeps its deadline.
  unfoldable pub update : Bytes → V → Data V → Data V
  update key value d = elim (lookup key d.storage) [
    | none ↦ d
    | some entry ↦ record d { storage = insert key (record entry { value = value }) d.storage }
  ]

  abbrev pub remove : Bytes → Command V ℕ
  remove key = call (Data.remove key)

module _ {Score : Type 0} where
  abbrev pub check_kind :
      Kind
      → Option (Stored Score) × Data (Stored Score)
      → Result (Option (Stored Score)) × Data (Stored Score)
  check_kind kind (none, d) = (ok none, d)
  check_kind kind (some v, d) =
      (if same_kind (kind_of v) kind then ok (some v) else err wrongtype, d)

  unfoldable pub expect_kind : Bytes → Kind → Command (Stored Score) (Option (Stored Score))
  unfolding kind_of
  expect_kind key kind c d = check_kind kind (Data.get key c d)

-- ===== src/Persist/Fresh.antt =====
-- db.py: "a flush can never interleave with a commit": flushed rows do not come back.
use kagni.Prelude.{◌≤◌, some, List, [], ◌∷◌, ◌≡◌, Bool, true, false, ◌⊎◌}
use kagni.Persist.Steps.{Snapshot, Backend, Step, cleared}

module _ {Row : Type 0} where
  abbrev pub is_clear : {a b : Backend Row} → Step a b → Bool
  is_clear cleared = true
  is_clear _ = false

  -- Steps among which the store is not cleared.
  pub data Quiet (a : Backend Row) : Backend Row → Type 0 where
    still : Quiet a a
    after : {b c : Backend Row} → Quiet a b → (s : Step b c) → is_clear s ≡ false → Quiet a c

  -- The rows are those that the store had at some moment since it was last cleared.
  pub record WasSince (rows : List Row) (b : Backend Row) : Type 0 where
    pub moment : Backend Row
    pub had : moment.memory ≡ rows
    pub since : Quiet moment b

  -- A snapshot is not from a later epoch, and one from this epoch was taken since the last clear.
  record IsTaken (b : Backend Row) (s : Snapshot Row) : Type 0 where
    earlier : s.epoch ≤ b.epoch
    current : s.epoch ≡ b.epoch → WasSince s.rows b

  abbrev AllTaken : Backend Row → List (Snapshot Row) → Type 0
  AllTaken b [] = Unit
  AllTaken b (s ∷ rest) = IsTaken b s × AllTaken b rest

  record IsFresh (b : Backend Row) : Type 0 where
    waiting_fresh : AllTaken b b.waiting
    holder_fresh : (s : Snapshot Row) → b.holder ≡ some s → b.wipes ≡ 0 → WasSince s.rows b
    table_fresh : b.wipes ≡ 0 → (b.table ≡ []) ⊎ WasSince b.table b

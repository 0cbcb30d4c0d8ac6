-- ===== src/Persist/Steps.antt =====
-- db.py: `dump` and `flush`, cut where another thread can run in between; FLUSHDB of
-- commands/basic.py. What is in the table is a list of rows of any type.
use kagni.Prelude.{
  ℕ, ◌+◌, ◌-◌, Option, none, some, List, [], ◌∷◌, ◌++◌, ◌==◌, nat_eq, not, if◌then◌else◌, ◌≡◌,
}

-- The snapshot that a dump is to write, with the epoch in which it was taken.
pub record Snapshot (Row : Type 0) : Type 0 where
  pub rows : List Row
  pub epoch : ℕ

pub record Backend (Row : Type 0) : Type 0 where
  -- the rows that a snapshot of the store would have now, and `data.epoch`
  pub memory : List Row
  pub epoch : ℕ
  -- the table
  pub table : List Row
  -- dumps that wait for the lock, and the one that has it and has passed the test of the epoch
  pub waiting : List (Snapshot Row)
  pub holder : Option (Snapshot Row)
  -- calls of `flush` that wait for the lock
  pub wipes : ℕ

module _ {Row : Type 0} where
  abbrev pub start : List Row → Backend Row
  start rows = record {
    memory = rows;
    epoch = 0;
    table = [];
    waiting = [];
    holder = none;
    wipes = 0;
  }

  -- a snapshot is taken on the event loop, and handed to a worker thread
  unfoldable pub take_snapshot : Backend Row → Backend Row
  take_snapshot b = record b { waiting = record { rows = b.memory; epoch = b.epoch } ∷ b.waiting }

  -- `dump` with the lock up to the test of the epoch: a stale snapshot stands down. The dumpers
  -- pass the store and the epoch; a dump without them, which tests nothing, is not modelled.
  unfoldable pub begin_dump : Snapshot Row → Backend Row → Backend Row
  begin_dump s b = record b { holder = if not (b.epoch == s.epoch) then none else some s }

  -- the transaction of `dump`, which replaces the table, and the release of the lock
  unfoldable pub commit_dump : Snapshot Row → Backend Row → Backend Row
  commit_dump s b = record b { table = s.rows; holder = none }

  -- `self.data.clear()` of FLUSHDB; its `flush` follows
  unfoldable pub clear_memory : Backend Row → Backend Row
  clear_memory b = record b { memory = []; epoch = b.epoch + 1; wipes = b.wipes + 1 }

  -- `flush`, under the lock
  unfoldable pub flush : Backend Row → Backend Row
  flush b = record b { table = []; wipes = b.wipes - 1 }

  -- commands change the store
  unfoldable pub write_memory : List Row → Backend Row → Backend Row
  write_memory rows b = record b { memory = rows }

  -- One step of the threads. The lock serves one of them at a time.
  pub data Step : Backend Row → Backend Row → Type 0 where
    taken : {b : Backend Row} → Step b (take_snapshot b)
    begun :
        {b : Backend Row} (s : Snapshot Row) (earlier later : List (Snapshot Row))
        → b.waiting ≡ earlier ++ s ∷ later
        → b.holder ≡ none
        → Step b (record (begin_dump s b) { waiting = earlier ++ later })
    committed : {b : Backend Row} (s : Snapshot Row) → b.holder ≡ some s → Step b (commit_dump s b)
    cleared : {b : Backend Row} → Step b (clear_memory b)
    flushed : {b : Backend Row} → b.holder ≡ none → Step b (flush b)
    written : {b : Backend Row} (rows : List Row) → Step b (write_memory rows b)

  pub data Reach : Backend Row → Backend Row → Type 0 where
    here : {b : Backend Row} → Reach b b
    there : {a b c : Backend Row} → Step a b → Reach b c → Reach a c

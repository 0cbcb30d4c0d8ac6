-- ===== src/Strings/Counters.antt =====
-- commands/basic.py: the counters stay within 64 bits, and read back what they wrote.
use kagni.Prelude.{ℤ, ◌+ℤ◌, true, not, Option, none, some, Bytes, bytes_eq, nat_eq, if◌then◌else◌}
use kagni.Dict.{lookup}
use kagni.Events.{Event}
use kagni.Data
use kagni.Data.{Clock, Data}
use kagni.Text.{print_int}
use kagni.Resp.{Reply}
use kagni.Common.{Stored, string, Result, pure, raise, modify, ◌>>=◌, ◌>>◌, after_write}
use kagni.Common.Errors.{overflow}
use kagni.Strings.Basic.{fits, set_string}

-- the deadline of the entry under a key
abbrev pub deadline_of : {V : Type 0} → Bytes → Data V → Option ℤ
deadline_of key d = elim (lookup key d.storage) [ none ↦ none | some e ↦ e.expires_at ]

-- the number after the command: the sum, or the old one if the sum does not fit in 64 bits
abbrev pub bumped : ℤ → ℤ → ℤ
bumped n by = if fits (n +ℤ by) then n +ℤ by else n

module _ {Score : Type 0} where
  abbrev written : Bytes → ℤ → Clock → Data (Stored Score) → Data (Stored Score)
  written key m c d =
      after_write key Event.incrby (Data.set_value key (string (print_int m)) none true c d)

  -- what `_bump` does with the value that it has read
  abbrev counted :
      Bytes → ℤ → Clock → Data (Stored Score) → Result ℤ → Result Reply × Data (Stored Score)
  counted key by c d r =
      ((λ _ _. (r, d)) >>= λ current. if not (fits (current +ℤ by)) then raise overflow else do
        set_string key (print_int (current +ℤ by)) true
        modify (after_write key Event.incrby)
        pure (Reply.num (current +ℤ by)))
        c d

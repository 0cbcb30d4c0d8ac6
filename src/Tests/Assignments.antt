-- ===== src/Tests/Assignments.antt =====
-- The theorem on SET at a concrete request, and what the words of that request are.
use kagni.Prelude.{
  ℕ, pos, ◌+◌, ◌*◌, ◌-◌, ◌^◌, ◌≤◌, Option, none, some, List, [], ◌∷◌, Bytes, bytes_eq, ◌≡◌, refl,
  arith, length, is_none, not, true, false,
}
use kagni.Text.{codes}
use kagni.Dict.{lookup}
use kagni.Data
use kagni.Data.{Clock, Data}
use kagni.Common.{Stored, string}
use kagni.Strings.Options.{set_command, ex}
use kagni.Strings.Request.{Request, Meets, carried_out, words, outcome}
use kagni.Strings.Request.Outcomes.{set_command-Meets}

abbrev now : Clock
now = record { mono = pos 10; wall = pos 2_000_000 }

abbrev one_string : Data (Stored ℕ)
one_string = record Data.init {
  storage = (codes "k", record { value = string (codes "old"); expires_at = none }) ∷ [];
}

-- SET k new GET EX 10
abbrev request : Request
request = record { nx = false; xx = false; get = true; keep_ttl = false; time = some (ex, pos 10) }

words-request : words request ≡ codes "GET" ∷ codes "EX" ∷ codes "10" ∷ []
unfolding kagni.Text.print_int
words-request = refl

outcome-request : outcome request now.wall ≡ carried_out (some (pos 10_002_000_000))
unfolding kagni.Prelude.◌*ℤ◌ kagni.Prelude.◌+ℤ◌ kagni.Prelude.floor_div
outcome-request = refl

set_command-Meets_example :
    Meets request
      (codes "k")
      (codes "new")
      (some (codes "old"))
      now
      one_string
      (outcome request now.wall)
      (set_command (codes "k") (codes "new") (words request) now one_string)
unfolding Data.get_item Data.live lookup kagni.Prelude.bytes_beq
set_command-Meets_example =
    set_command-Meets request (codes "k") (codes "new") (some (codes "old")) now one_string
      (omega arith) (omega arith) refl

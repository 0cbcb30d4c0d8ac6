-- ===== src/Tests/Hashes.antt =====
-- The theorems on hashes at concrete inputs.
use kagni.Prelude.{
  ℕ, ◌+◌, ℤ, pos, Option, none, some, Bool, true, false, List, [], ◌∷◌, Bytes, bytes_eq, ◌≡◌, refl,
  arith, is_some,
}
use kagni.Text.{codes}
use kagni.Dict.{Dict, lookup, HasDistinctKeys}
use kagni.Data
use kagni.Data.{Clock, Data}
use kagni.Resp.{Reply}
use kagni.Common.{Field, Stored, hash, ok}
use kagni.Common.NonEmpty.{all_collections, IsCompact}
use kagni.Hash.{expired, pairs_of, hset, hget, hlen, gt}
use kagni.Hash.View.{view, assigned}
use kagni.Hash.Count.{live_count}
use kagni.Hash.Refine.{Holds}
use kagni.Hash.Loops.{Refines}
use kagni.Hash.Trace.{
  HashCall, set_call, expire_call, read_call, list_call, run_calls, spec_calls, run_calls-Refines,
}
use kagni.Hash.Calls.{hdel_command, run_hash}
use kagni.Hash.Compact.{run_hash-IsCompact}
use kagni.Hash.Replies.{hget-hset, hlen-hset, hget-leaves_empty}
use kagni.Hash.{bulk_or_none}

abbrev now : Clock
now = record { mono = pos 10; wall = pos 1010 }

abbrev key : Bytes
key = codes "h"

-- one field for good, one that expired at 1005
abbrev old_hash : Dict Bytes Field
old_hash =
    (codes "f", record { content = codes "1"; deadline = none })
    ∷ (codes "g", record { content = codes "2"; deadline = some (pos 1005) })
    ∷ []

abbrev one_expired : Field
one_expired = record { content = codes "2"; deadline = some (pos 1005) }

abbrev store_of : Dict Bytes Field → Data (Stored ℕ)
store_of cur = record Data.init {
  storage = (key, record { value = hash cur; expires_at = none }) ∷ [];
}

old_hash-distinct : HasDistinctKeys old_hash
unfolding lookup kagni.Prelude.bytes_beq
old_hash-distinct = (refl, (refl, tt))

old_hash-Holds : Holds (pos 1000) old_hash (λ j. view j (pos 1000) old_hash)
old_hash-Holds = record { fields = λ j. refl; distinct = old_hash-distinct }

-- The field `g` gets a new deadline, then `f` is written, and both are read after the deadline.
abbrev calls : List (ℤ × HashCall)
calls =
    (pos 1001, expire_call gt (pos 1008) (codes "g" ∷ []))
    ∷ (pos 1002, set_call ((codes "f", codes "3") ∷ []))
    ∷ (pos 1009, read_call (codes "f" ∷ codes "g" ∷ []))
    ∷ (pos 1010, list_call)
    ∷ []

run_calls-Refines_example :
    Refines
      (pos 1010)
      (run_calls calls old_hash)
      (spec_calls calls (λ j. view j (pos 1000) old_hash))
run_calls-Refines_example =
    run_calls-Refines calls (pos 1000) old_hash (λ j. view j (pos 1000) old_hash) old_hash-Holds
      (omega arith, (omega arith, (omega arith, (omega arith, tt))))

store-IsCompact : IsCompact all_collections (store_of old_hash)
unfolding lookup
store-IsCompact = record { at_key = λ k e p. ground (arith, p) }

-- HDEL of the live field leaves the expired one, and of both leaves nothing.
run_hash-IsCompact_example :
    IsCompact all_collections
      (run_hash (hdel_command key (codes "f" ∷ codes "g" ∷ [])) now (store_of old_hash)).1
run_hash-IsCompact_example =
    run_hash-IsCompact (hdel_command key (codes "f" ∷ codes "g" ∷ [])) refl now (store_of old_hash)
      store-IsCompact

abbrev written : List Bytes
written = codes "g" ∷ codes "5" ∷ codes "x" ∷ codes "6" ∷ codes "g" ∷ codes "7" ∷ []

there : Data.get_item key now (store_of old_hash) ≡ some (hash old_hash)
unfolding Data.get_item Data.live lookup kagni.Prelude.bytes_beq
there = refl

hget-hset_example :
    (hget key (codes "g") now (hset key written now (store_of old_hash)).1).0
    ≡ ok (
        bulk_or_none
          (assigned (pairs_of written) (codes "g") (view (codes "g") (pos 1010) old_hash)))
unfolding Data.get_item Data.live lookup kagni.Prelude.bytes_beq
hget-hset_example = hget-hset key (codes "g") written now (store_of old_hash) old_hash refl refl

hlen-hset_example :
    (n : ℕ) × ((hset key written now (store_of old_hash)).0 ≡ ok (Reply.num (pos n)))
    × ((hlen key now (hset key written now (store_of old_hash)).1).0
        ≡ ok (Reply.num (pos (n + live_count (pos 1010) old_hash))))
unfolding Data.get_item Data.live lookup kagni.Prelude.bytes_beq
hlen-hset_example =
    hlen-hset key written now (store_of old_hash) old_hash refl refl old_hash-distinct

hget-leaves_empty_example :
    ((hget key (codes "g") now (store_of ((codes "g", one_expired) ∷ []))).0 ≡ ok Reply.nil)
    × (Data.get_item key now (hget key (codes "g") now (store_of ((codes "g", one_expired) ∷ []))).1
        ≡ some (hash []))
unfolding Data.get_item Data.live lookup kagni.Prelude.bytes_beq expired
hget-leaves_empty_example =
    hget-leaves_empty key (codes "g") one_expired now (store_of ((codes "g", one_expired) ∷ []))
      refl refl

-- ===== src/Tests.antt =====
-- The theorems at concrete inputs.
mod Server
mod MemberSets
mod ZSets
mod Assignments
mod Bitfields
mod Hashes
use kagni.Prelude.{
  ℕ, ℤ, pos, negsuc, Option, none, some, Bool, true, false, List, [], ◌∷◌, ◌++◌, Bytes, ◌≡◌, refl,
  length, ◌+◌, drop, take, arith, ◌≤ℤ◌, ◌↔◌,
}
use kagni.Data
use kagni.Data.{Clock, Entry, Data}
use kagni.Data.View.{view, at_time}
use kagni.Data.Spec.{Op, run_op}
use kagni.Data.Distinct.{run_op-IsDict}
use kagni.Data.Trace.{Calls, run_ops, spec_ops, run_ops-refines}
use kagni.Text.{codes, int, print_int}
use kagni.Text.Print.{int-print_int}
use kagni.Resp
use kagni.Resp.{Reply, Replies, Value, Values, Parsed, done, protocol_builder, parse_message, feed}
use kagni.Resp.Chunks.{IsSplit, feed-append}
use kagni.Resp.Fuel.{parse_message_fuel}
use kagni.Resp.RoundTrip.{value_of, parse-protocol_builder}
use kagni.Common.{Stored, elements, hash, string2ll}
use kagni.Common.Canonical.{IsInt64, string2ll_iff}
use kagni.Dict.{lookup}
use kagni.Lists.{lrem_list, pop_many}
use kagni.Lists.Calls.{ListCall, run_list}
use kagni.Common.NonEmpty.{lists_alone, IsCompact}
use kagni.Lists.Compact.Calls.{run_list-IsCompact}
use kagni.Lists.Occurrences.{occurrences, capped, lrem_limit, IsCut, lrem_list_lem}
use kagni.Lists.Pops.{from_side, pop_many_lem}

abbrev clock_at : ℕ → Clock
clock_at t = record { mono = pos t; wall = pos (1000 + t) }

abbrev key : Bytes
key = codes "k"

-- a key that expires at 20 on the monotonic clock, and is written again with KEEPTTL
abbrev calls : Calls ℕ
calls =
    (Op.set_op key 1 (some (pos 1020)) false, clock_at 10)
    ∷ (Op.set_op key 2 none true, clock_at 15)
    ∷ (Op.get_op key, clock_at 18)
    ∷ []

init-shows :
    (t : ℤ) (later : pos 0 ≤ℤ t) (j : Bytes) → view t (Data.init {V = ℕ}) j ≡ at_time t none
unfolding view at_time lookup
init-shows t later j = refl

run_ops-refines_example :
    view (pos 19) (run_ops calls Data.init) key ≡ at_time (pos 19) (spec_ops calls (λ _. none) key)
run_ops-refines_example =
    run_ops-refines (pos 0) calls Data.init (λ _. none) tt
      (omega arith, (omega arith, (omega arith, tt))) init-shows (pos 19) (omega arith) key

abbrev saved : Data ℕ
saved = record Data.init {
  storage =
      (key, record { value = 1; expires_at = some (pos 20) })
      ∷ (codes "j", record { value = 2; expires_at = none })
      ∷ [];
}

-- Restored 5 ns after the snapshot by the wall clock, with another monotonic clock.
abbrev after_restart : Clock
after_restart = record { mono = pos 3; wall = pos 1015 }

feed-append_example :
    IsSplit
      (78 ∷ 71 ∷ 13 ∷ 10 ∷ [])
      (feed (codes "PI" ++ 78 ∷ 71 ∷ 13 ∷ 10 ∷ []) [])
      (feed (codes "PI") [])
feed-append_example = feed-append (codes "PI") (78 ∷ 71 ∷ 13 ∷ 10 ∷ []) [] (omega arith)

abbrev sample_reply : Reply
sample_reply = Reply.arr (
    Replies.item (Reply.num (negsuc 6))
      (Replies.item (Reply.bulk (codes "ab")) (Replies.item Reply.ok Replies.empty)))

parse-protocol_builder_example :
    parse_message
      (length (protocol_builder sample_reply ++ codes "x"))
      (protocol_builder sample_reply ++ codes "x")
    ≡ done (value_of sample_reply) (codes "x")
unfolding kagni.Resp.RoundTrip.IsFramed
parse-protocol_builder_example =
    parse-protocol_builder sample_reply (codes "x")
      (omega arith, (omega arith, (omega arith, (tt, tt))))

parse_message_fuel_example :
    parse_message 9 (codes "PING" ++ 13 ∷ 10 ∷ []) ≡ parse_message 6 (codes "PING" ++ 13 ∷ 10 ∷ [])
parse_message_fuel_example =
    parse_message_fuel 9 6 (codes "PING" ++ 13 ∷ 10 ∷ []) (omega arith) (omega arith)

string2ll_iff_example :
    (string2ll (codes "-12") ≡ some (negsuc 11))
    ↔ (IsInt64 (negsuc 11) × (codes "-12" ≡ print_int (negsuc 11)))
string2ll_iff_example = string2ll_iff (codes "-12") (negsuc 11)

abbrev letters : List Bytes
letters = codes "a" ∷ codes "b" ∷ codes "a" ∷ codes "c" ∷ codes "a" ∷ []

-- a list, and a hash that is empty, which the theorem allows
abbrev one_list : Data (Stored ℕ)
one_list = record Data.init {
  storage =
      (key, record { value = elements (codes "a" ∷ []); expires_at = none })
      ∷ (codes "h", record { value = hash []; expires_at = none })
      ∷ [];
}

one_list-IsCompact : IsCompact lists_alone one_list
unfolding lookup
one_list-IsCompact = record { at_key = λ k e p. ground (arith, p) }

-- the last element is popped
run_list-IsCompact_example :
    IsCompact lists_alone
      (run_list (ListCall.lrem_call key (pos 0) (codes "a")) (clock_at 10) one_list).1
run_list-IsCompact_example =
    run_list-IsCompact (ListCall.lrem_call key (pos 0) (codes "a")) (clock_at 10) one_list
      one_list-IsCompact

lrem_list_example :
    ((lrem_list (negsuc 1) (codes "a") letters).0
      ≡ capped (lrem_limit (negsuc 1)) (occurrences (codes "a") letters))
    × ((lrem_list (negsuc 1) (codes "a") letters).0
          + length (lrem_list (negsuc 1) (codes "a") letters).1
        ≡ length letters)
    × IsCut (negsuc 1) (codes "a") letters (lrem_list (negsuc 1) (codes "a") letters).1
lrem_list_example = lrem_list_lem (negsuc 1) (codes "a") letters

pop_many_example :
    pop_many false 2 letters
    ≡ (take 2 (from_side false letters), from_side false (drop 2 (from_side false letters)))
pop_many_example = pop_many_lem false 2 letters

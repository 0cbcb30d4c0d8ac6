-- ===== src/Hash/Trace.antt =====
-- commands/hash.py: sequences of accesses to one hash, while fields expire in between.
use kagni.Prelude.{
  ℕ, ℤ, ◌≤ℤ◌, Bool, Option, none, some, List, [], ◌∷◌, Bytes, bytes_eq, ◌≡◌, refl, ap, ◌∙◌, arith,
}
use kagni.Dict.{Dict, lookup}
use kagni.Common.{Field}
use kagni.Hash.Fields.{expired, set_pairs, delete_fields, read_fields, live_pairs}
use kagni.Hash.View.{visible}
use kagni.Hash.Purge.{lookup-live_pairs, live_pairs-HasDistinctKeys}
use kagni.Hash.Grammar.{Flag}
use kagni.Hash.Expiry.{Expiring, Reading, expire_fields, read_deadlines}
use kagni.Hash.Spec.{
  Fields, each, name_itself, set_step, delete_step, read_step, expire_step, deadline_step,
  count_true,
}
use kagni.Hash.Refine.{Holds}
use kagni.Hash.Loops.{
  Refines, replies, any_true, set_pairs-Refines, delete_fields-Refines, read_fields-Refines,
  expire_fields-Refines, read_deadlines-Refines,
}

-- What a command does with the fields of its hash; `list` is the purge of HLEN, HKEYS and HGETALL.
pub data HashCall : Type 0 where
  set_call : List (Bytes × Bytes) → HashCall
  delete_call read_call : List Bytes → HashCall
  expire_call : Flag → ℤ → List Bytes → HashCall
  deadline_call : Reading → List Bytes → HashCall
  list_call : HashCall

pub data HashReply : Type 0 where
  counted : ℕ → HashReply
  found : List (Option Field) → HashReply
  expiries : List Expiring → HashReply
  deadlines : List ℤ × Bool → HashReply
  purged : HashReply

abbrev with_reply {ℓ κ} : {R : Type ℓ} {S : Type κ} → (R → HashReply) → R × S → HashReply × S
with_reply f (r, s) = (f r, s)

unfoldable pub run_call : HashCall → ℤ → Dict Bytes Field → HashReply × Dict Bytes Field
unfolding set_pairs delete_fields read_fields expire_fields read_deadlines live_pairs
run_call (set_call pairs) now cur = with_reply counted (set_pairs pairs now cur)
run_call (delete_call names) now cur = with_reply counted (delete_fields names now cur)
run_call (read_call names) now cur = with_reply found (read_fields names now cur)
run_call (expire_call flag deadline names) now cur =
    with_reply expiries (expire_fields flag deadline names now cur)
run_call (deadline_call kind names) now cur =
    with_reply deadlines (read_deadlines kind names now cur)
run_call list_call now cur = (purged, live_pairs now cur)

unfoldable pub spec_call : HashCall → ℤ → Fields → HashReply × Fields
unfolding each count_true expire_step deadline_step
spec_call (set_call pairs) now m =
    with_reply (λ out. counted (count_true out)) (each (λ p. p.0) set_step pairs m)
spec_call (delete_call names) now m =
    with_reply (λ out. counted (count_true out)) (each name_itself delete_step names m)
spec_call (read_call names) now m = with_reply found (each name_itself read_step names m)
spec_call (expire_call flag deadline names) now m =
    with_reply expiries (each name_itself (expire_step flag deadline now) names m)
spec_call (deadline_call kind names) now m =
    with_reply (λ out. deadlines (replies out, any_true out))
      (each name_itself (deadline_step kind now) names m)
spec_call list_call now m = (purged, m)

unfoldable pub run_calls :
    List (ℤ × HashCall) → Dict Bytes Field → List HashReply × Dict Bytes Field
unfolding run_call
run_calls [] cur = ([], cur)
run_calls ((now, call) ∷ rest) cur =
    let (reply, next) = run_call call now cur in
    let (more, done) = run_calls rest next in (reply ∷ more, done)

-- The map loses the fields that have expired before each access.
unfoldable pub spec_calls : List (ℤ × HashCall) → Fields → List HashReply × Fields
unfolding spec_call visible
spec_calls [] m = ([], m)
spec_calls ((now, call) ∷ rest) m =
    let (reply, next) = spec_call call now (λ j. visible now (m j)) in
    let (more, done) = spec_calls rest next in (reply ∷ more, done)

-- the wall clock does not run backwards
abbrev pub IsAscending : ℤ → List (ℤ × HashCall) → Type 0
IsAscending now [] = Unit
IsAscending now ((t, call) ∷ rest) = (now ≤ℤ t) × IsAscending t rest

abbrev pub last_time : ℤ → List (ℤ × HashCall) → ℤ
last_time now [] = now
last_time now ((t, call) ∷ rest) = last_time t rest

visible-visible :
    (now later : ℤ) (o : Option Field)
    → now ≤ℤ later
    → visible later o ≡ visible later (visible now o)
unfolding visible expired
visible-visible now later none h = refl
visible-visible now later (some raw) h = ground (arith, h)

Holds-later :
    (now later : ℤ) (cur : Dict Bytes Field) (m : Fields)
    → now ≤ℤ later
    → Holds now cur m
    → Holds later cur (λ j. visible later (m j))
Holds-later now later cur m p h = record {
  fields = λ j. visible-visible now later (lookup j cur) p ∙ ap (visible later) (h.fields j);
  distinct = h.distinct;
}

visible-fixed : (now : ℤ) (o : Option Field) → visible now (visible now o) ≡ visible now o
unfolding visible
visible-fixed now none = refl
visible-fixed now (some raw) = ground arith

run_call-Refines :
    (call : HashCall) (now : ℤ) (cur : Dict Bytes Field) (m : Fields)
    → Holds now cur m
    → Refines now (run_call call now cur) (spec_call call now m)
unfolding run_call spec_call
run_call-Refines (set_call pairs) now cur m h =
    let (r, done) = set_pairs-Refines pairs now cur m h in (ap counted r, done)
run_call-Refines (delete_call names) now cur m h =
    let (r, done) = delete_fields-Refines names now cur m h in (ap counted r, done)
run_call-Refines (read_call names) now cur m h =
    let (r, done) = read_fields-Refines names now cur m h in (ap found r, done)
run_call-Refines (expire_call flag deadline names) now cur m h =
    let (r, done) = expire_fields-Refines flag deadline names now cur m h in (ap expiries r, done)
run_call-Refines (deadline_call kind names) now cur m h =
    let (r, done) = read_deadlines-Refines kind names now cur m h in (ap deadlines r, done)
run_call-Refines list_call now cur m h = (
  refl,
  record {
    fields = λ j.
        ap (visible now) (lookup-live_pairs j now cur h.distinct)
        ∙ visible-fixed now (lookup j cur)
        ∙ h.fields j;
    distinct = live_pairs-HasDistinctKeys now cur h.distinct;
  },
)

-- A hash that no name occurs in twice behaves under any sequence of accesses as a map of its live
-- fields, from which each field vanishes at its deadline: every reply is that of the map, and
-- after the last access the live fields are the map's. The wall clock must not run backwards
-- between the accesses; when and in which order expired fields are purged does not matter.
pub run_calls-Refines :
    (calls : List (ℤ × HashCall)) (now : ℤ) (cur : Dict Bytes Field) (m : Fields)
    → Holds now cur m
    → IsAscending now calls
    → Refines (last_time now calls) (run_calls calls cur) (spec_calls calls m)
unfolding run_calls spec_calls
run_calls-Refines [] now cur m h a = (refl, h)
run_calls-Refines ((t, call) ∷ rest) now cur m h (p, a) =
    let aged : Fields = λ j. visible t (m j) in
    let (first, next) = run_call-Refines call t cur aged (Holds-later now t cur m p h) in
    let (more, done) =
      run_calls-Refines rest t (run_call call t cur).1 (spec_call call t aged).1 next a in
    (rw (first, more) refl, done)

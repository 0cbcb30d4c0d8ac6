-- ===== src/PubSub/Members.antt =====
-- pubsub.py: who is subscribed to what, after any sequence of calls.
use kagni.Prelude.{
  ℕ, Bool, true, false, not, ◌&&◌, ◌||◌, none, some, List, [], ◌∷◌, ◌++◌, Bytes, ◌==◌, bytes_eq,
  nat_eq, bytes_beq_iff, if◌then◌else◌, elem, is_empty, ◌≡◌, refl, ◌∙◌, ap, arith, Option-cases,
  inl, inr,
}
use kagni.Dict.{
  lookup, lookup-insert, lookup-erase, HasDistinctKeys, insert-HasDistinctKeys,
  erase-HasDistinctKeys,
}
use kagni.PubSub.Hub.{Subscribers, add, discard, subscribe_in, unsubscribe_in, remove_from}

abbrev pub is_member : ℕ → Bytes → Subscribers → Bool
unfolding elem lookup
is_member session name table = elim (lookup name table) [ none ↦ false | some l ↦ elem session l ]

elem-append : (s : ℕ) (l : List ℕ) (x : ℕ) → elem s (l ++ x ∷ []) ≡ (elem s l || x == s)
unfolding elem
elem-append s [] x = ground arith
elem-append s (y ∷ l) x = ground (arith, elem-append s l x)

elem-add : (s x : ℕ) (l : List ℕ) → elem s (add x l) ≡ (x == s || elem s l)
unfolding add
elem-add s x l = ground (arith, elem-append s l x)

elem-discard : (s x : ℕ) (l : List ℕ) → elem s (discard x l) ≡ (not (x == s) && elem s l)
unfolding discard elem
elem-discard s x [] = ground arith
elem-discard s x (y ∷ l) = ground (arith, elem-discard s x l)

discard-empty :
    (s x : ℕ) (l : List ℕ) → is_empty (discard x l) ≡ true → elem s l ≡ true → (x == s) ≡ true
unfolding discard elem
discard-empty s x [] p q = absurd (ground (arith, q))
discard-empty s x (y ∷ l) p q = ground (arith, p, q, discard-empty s x l)

is_member-subscribe_in :
    (s x : ℕ) (name j : Bytes) (t : Subscribers)
    → is_member s j (subscribe_in x name t) ≡ ((name == j && x == s) || is_member s j t)
unfolding is_member subscribe_in elem
is_member-subscribe_in s x name j t = elim (Option-cases (lookup name t)) [
  | inl none_yet ↦
      ground
        (arith, none_yet, bytes_beq_iff name j, lookup-insert name j (add x []) t, elem-add s x [])
  | inr (l, there) ↦
      ground (arith, there, bytes_beq_iff name j, lookup-insert name j (add x l) t, elem-add s x l)
]

is_member-unsubscribe_in :
    (s x : ℕ) (name j : Bytes) (t : Subscribers)
    → is_member s j (unsubscribe_in x name t) ≡ (not (name == j && x == s) && is_member s j t)
unfolding is_member unsubscribe_in
is_member-unsubscribe_in s x name j t = elim (Option-cases (lookup name t)) [
  | inl none_yet ↦ ground (arith, none_yet, bytes_beq_iff name j)
  | inr (l, there) ↦ ground (
    arith,
    there,
    bytes_beq_iff name j,
    lookup-insert name j (discard x l) t,
    lookup-erase name j t,
    elem-discard s x l,
    discard-empty s x l,
  )
]

lookup-remove_from :
    (x : ℕ) (j : Bytes) (t : Subscribers)
    → HasDistinctKeys t
    → lookup j (remove_from x t) ≡ (elim (lookup j t) [
      | none ↦ none
      | some l ↦ if is_empty (discard x l) then none else some (discard x l)
    ])
unfolding lookup remove_from
lookup-remove_from x j [] h = refl
lookup-remove_from x j ((name, l) ∷ t) h =
    ground (arith, bytes_beq_iff name j, lookup-remove_from x j t h.1, h.0)

remove_from-HasDistinctKeys :
    (x : ℕ) (t : Subscribers) → HasDistinctKeys t → HasDistinctKeys (remove_from x t)
unfolding remove_from
remove_from-HasDistinctKeys x [] h = tt
remove_from-HasDistinctKeys x ((name, l) ∷ t) h =
    ground (arith, h.0, remove_from-HasDistinctKeys x t h.1, lookup-remove_from x name t h.1)

is_member-remove_from :
    (s x : ℕ) (j : Bytes) (t : Subscribers)
    → HasDistinctKeys t
    → is_member s j (remove_from x t) ≡ (not (x == s) && is_member s j t)
unfolding is_member
is_member-remove_from s x j t h = elim (Option-cases (lookup j t)) [
  | inl missing ↦ ground (arith, missing, lookup-remove_from x j t h)
  | inr (l, there) ↦
      ground (arith, there, lookup-remove_from x j t h, elem-discard s x l, discard-empty s x l)
]

-- A call that changes one of the hub's two tables.
pub data TableCall : Type 0 where
  subscribe_call unsubscribe_call : ℕ → Bytes → TableCall
  remove_call : ℕ → TableCall

unfoldable pub run_calls : List TableCall → Subscribers → Subscribers
unfolding subscribe_in unsubscribe_in remove_from
run_calls [] t = t
run_calls (subscribe_call s name ∷ calls) t = run_calls calls (subscribe_in s name t)
run_calls (unsubscribe_call s name ∷ calls) t = run_calls calls (unsubscribe_in s name t)
run_calls (remove_call s ∷ calls) t = run_calls calls (remove_from s t)

-- What the calls make of the fact that session `s` is subscribed to `j`.
unfoldable pub spec_calls : ℕ → Bytes → List TableCall → Bool → Bool
spec_calls s j [] b = b
spec_calls s j (subscribe_call x name ∷ calls) b = spec_calls s j calls ((name == j && x == s) || b)
spec_calls s j (unsubscribe_call x name ∷ calls) b =
    spec_calls s j calls (not (name == j && x == s) && b)
spec_calls s j (remove_call x ∷ calls) b = spec_calls s j calls (not (x == s) && b)

unsubscribe_in-HasDistinctKeys :
    (x : ℕ) (name : Bytes) (t : Subscribers)
    → HasDistinctKeys t
    → HasDistinctKeys (unsubscribe_in x name t)
unfolding unsubscribe_in
unsubscribe_in-HasDistinctKeys x name t h = elim (Option-cases (lookup name t)) [
  | inl missing ↦ ground (arith, missing, h)
  | inr (l, there) ↦
      ground (
        arith,
        there,
        insert-HasDistinctKeys name (discard x l) t h,
        erase-HasDistinctKeys name t h,
      )
]

-- After any calls of the hub on a table with distinct names, a session is subscribed to a name
-- exactly if the calls, taken in order as facts about that session and that name, say so.
pub is_member-run_calls :
    (calls : List TableCall) (t : Subscribers) (s : ℕ) (j : Bytes)
    → HasDistinctKeys t
    → is_member s j (run_calls calls t) ≡ spec_calls s j calls (is_member s j t)
unfolding run_calls spec_calls
is_member-run_calls [] t s j h = refl
is_member-run_calls (subscribe_call x name ∷ calls) t s j h =
    is_member-run_calls calls (subscribe_in x name t) s j
      (unfold subscribe_in in insert-HasDistinctKeys name _ t h)
    ∙ ap (spec_calls s j calls) (is_member-subscribe_in s x name j t)
is_member-run_calls (unsubscribe_call x name ∷ calls) t s j h =
    is_member-run_calls calls (unsubscribe_in x name t) s j
      (unsubscribe_in-HasDistinctKeys x name t h)
    ∙ ap (spec_calls s j calls) (is_member-unsubscribe_in s x name j t)
is_member-run_calls (remove_call x ∷ calls) t s j h =
    is_member-run_calls calls (remove_from x t) s j (remove_from-HasDistinctKeys x t h)
    ∙ ap (spec_calls s j calls) (is_member-remove_from s x j t h)

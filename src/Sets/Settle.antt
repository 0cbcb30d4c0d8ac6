-- ===== src/Sets/Settle.antt =====
-- commands/set.py: what a set command reads and writes, and how SMOVE ends.
use kagni.Prelude.{
  pos, true, Option, none, some, List, [], ◌∷◌, Bytes, bytes_eq, ◌==◌, if◌then◌else◌, is_empty, ◌≡◌,
  refl, sym, ap, ◌∙◌, arith, Bool-cases, inl, inr, Option-cases,
}
use kagni.Dict.{lookup}
use kagni.Events.{Event}
use kagni.Data
use kagni.Data.{Clock, Data}
use kagni.Resp.{Reply}
use kagni.Common.{
  Stored, members, kind_of, Command, Result, ok, pure, modify, ◌>>=◌, ◌>>◌, expect_kind,
  after_write, notify, update,
}
use kagni.Common.Reads.{get_item-remove, get_item-after_write, get_item-notify}
use kagni.Sets.Algebra.{include, discard}
use kagni.Sets.Basic.{set_at, set_of, store_set, when, drop_set, current_set}

module _ {Score : Type 0} where
  -- the set that a command finds where the key holds no other kind of value
  abbrev pub set_or_none : Option (Stored Score) → Option (List Bytes)
  set_or_none none = some []
  set_or_none (some (members l)) = some l
  set_or_none (some _) = none

  abbrev pub members_in : Option (Stored Score) → List Bytes
  members_in o = elim (set_of o) [ none ↦ [] | some l ↦ l ]

  -- the members of the set under a key, none if there is no set
  unfoldable pub held : Bytes → Clock → Data (Stored Score) → List Bytes
  held key c d = members_in (Data.get_item key c d)

  pub set_at-stored :
      (key : Bytes) (c : Clock) (d : Data (Stored Score)) (l : List Bytes)
      → Data.get_item key c d ≡ some (members l)
      → set_at key c d ≡ (ok (some l), d)
  unfolding set_at expect_kind Data.get_item Data.get Data.live kind_of
  set_at-stored key c d l h = elim (Option-cases (lookup key d.storage)) [
    | inl missing ↦ ground (arith, missing, h)
    | inr (e, there) ↦ elim (Bool-cases (Data.live e c.mono)) [
      | inl alive ↦ ground (arith, there, alive, h)
      | inr dead ↦ ground (arith, there, dead, h)
    ]
  ]

  pub set_at-missing :
      (key : Bytes) (c : Clock) (d : Data (Stored Score))
      → Data.get_item key c d ≡ none
      → set_at key c d ≡ (ok none, (Data.get key c d).1)
  unfolding set_at expect_kind Data.get_item Data.get Data.live kind_of
  set_at-missing key c d h = elim (Option-cases (lookup key d.storage)) [
    | inl missing ↦ ground (arith, missing, h)
    | inr (e, there) ↦ elim (Bool-cases (Data.live e c.mono)) [
      | inl alive ↦ ground (arith, there, alive, h)
      | inr dead ↦ ground (arith, there, dead, h)
    ]
  ]

  -- the command after `_set(target)`
  abbrev pub rest_of :
      Bytes → Bytes → Bytes → List Bytes → Option (List Bytes) → Command (Stored Score) Reply
  rest_of source target val src dst = do
    store_set source (discard val src)
    elim dst as (λ _. Command (Stored Score) (Unit {0})) [
      | none ↦ modify (Data.set_item target (members []))
      | some l ↦ pure tt
    ]
    now ← current_set target
    store_set target (include val now)
    modify (after_write source Event.srem)
    left ← current_set source
    when (is_empty left) (drop_set source true)
    modify (after_write target Event.sadd)
    pure (Reply.num (pos 1))

  removed-held :
      (source j : Bytes) (c : Clock) (d : Data (Stored Score))
      → held source c d ≡ []
      → held j c (Data.remove source c d).1 ≡ held j c d
  unfolding held
  removed-held source j c d e = elim (Bool-cases (source == j)) [
    | inl same ↦
        ap members_in (get_item-remove source j c d)
        ∙ ap (λ b. members_in (if b then none else Data.get_item j c d)) same
        ∙ sym e
        ∙ ap (λ k. members_in (Data.get_item k c d)) ((bytes_eq.equals_iff source j).0 same)
    | inr other ↦
        ap members_in (get_item-remove source j c d)
        ∙ ap (λ b. members_in (if b then none else Data.get_item j c d)) other
  ]

  -- what is left of the source is dropped if it is empty
  abbrev pub settled :
      Bytes → Bytes → Clock → Data (Stored Score) → List Bytes → Result Reply × Data (Stored Score)
  settled source target c d left =
      (do
        when (is_empty left) (drop_set source true)
        modify (after_write target Event.sadd)
        pure (Reply.num (pos 1)))
        c d

  pub settled-held :
      (source target j : Bytes) (c : Clock) (d : Data (Stored Score)) (left : List Bytes)
      → held source c d ≡ left
      → ((settled source target c d left).0 ≡ ok (Reply.num (pos 1)))
        × (held j c (settled source target c d left).1 ≡ held j c d)
  unfolding held
  settled-held source target j c d [] e =
      let d' = (Data.remove source c d).1 in
      (
        refl,
        ap members_in (
              get_item-after_write target j Event.sadd c (notify source Event.del d')
              ∙ get_item-notify source j Event.del c d')
            ∙ removed-held source j c d e,
      )
  settled-held source target j c d (x ∷ left) e =
      (refl, ap members_in (get_item-after_write target j Event.sadd c d))

  pub held-stored :
      (key : Bytes) (c : Clock) (d : Data (Stored Score)) (l : List Bytes)
      → Data.get_item key c d ≡ some (members l)
      → held key c d ≡ l
  unfolding held
  held-stored key c d l h = ap members_in h

  -- the store before the emptied source is dropped
  abbrev pub moved : Bytes → Bytes → Bytes → List Bytes → Data (Stored Score) → Data (Stored Score)
  moved source target val now d =
      after_write source Event.srem (update target (members (include val now)) d)

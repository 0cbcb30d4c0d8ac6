-- ===== src/Sets/Moves.antt =====
-- commands/set.py: SMOVE, also where its two keys are one.
use mathlib.Core.Path.{subst}
use kagni.Prelude.{
  pos, Bool, true, false, not, ◌&&◌, ◌||◌, Option, none, some, List, [], Bytes, bytes_eq, ◌==◌,
  elem, if◌then◌else◌, ◌≡◌, refl, sym, ap, ◌∙◌, arith, Bool-cases, inl, inr,
}
use kagni.Events.{Event}
use kagni.Data
use kagni.Data.{Clock, Data}
use kagni.Resp.{Reply}
use kagni.Common.{
  Stored, string, hash, members, elements, ranked, bits, Result, ok, pure, ◌>>=◌, update,
}
use kagni.Common.Reads.{
  get_item-update, get_item-set_item, get_item-update_other, get_item-set_item_other,
  get_item-after_write, get_item-get,
}
use kagni.Sets.Algebra.{include, discard}
use kagni.Sets.Basic.{current_set, move_member, smove}
use kagni.Sets.Laws.{elem-include, elem-discard}
use kagni.Sets.Settle.{
  moved, set_or_none, members_in, held, set_at-stored, set_at-missing, rest_of, settled,
  settled-held, held-stored,
}

same_member :
    (val x : Bytes) (l : List Bytes) → elem val l ≡ true → ((val == x) || elem x l) ≡ elem x l
same_member val x l h = ground (arith, h, bytes_eq.equals_iff val x, ap (λ k. elem k l))

twice : (a b : Bool) → (a || (not a && b)) ≡ (a || b)
twice true b = refl
twice false b = refl

module _ {Score : Type 0} where
  source_now :
      (source target val : Bytes) (c : Clock) (d : Data (Stored Score)) (now : List Bytes)
      → ((target == source) ≡ true → target ≡ source)
      → Data.get_item target c (moved source target val now d) ≡ some (members (include val now))
      → held source c (moved source target val now d)
        ≡ (if target == source then include val now else held source c d)
  unfolding held
  source_now source target val c d now one stored = elim (Bool-cases (target == source)) [
    | inl same ↦
        ap (λ k. members_in (Data.get_item k c (moved source target val now d))) (sym (one same))
        ∙ ap members_in stored
        ∙ ap (λ b. if b then include val now else held source c d) (sym same)
    | inr other ↦
        ap members_in (
          get_item-after_write source source Event.srem c
            (update target (members (include val now)) d)
          ∙ get_item-update_other target source (members (include val now)) c d other)
        ∙ ap (λ b. if b then include val now else held source c d) (sym other)
  ]

  -- from the store in which the target is a set, once the member has left the source
  arrives :
      (source target val : Bytes) (c : Clock) (d : Data (Stored Score)) (now : List Bytes)
      → Data.get_item target c d ≡ some (members now)
      → let r =
          settled source target c
            (moved source target val now d)
            (held source c (moved source target val now d)) in
        (r.0 ≡ ok (Reply.num (pos 1)))
        × (held target c r.1 ≡ include val now)
        × (held source c r.1 ≡ (if target == source then include val now else held source c d))
  arrives source target val c d now h =
      let d' = moved source target val now d in
      let (reply, at_target) = settled-held source target target c d' (held source c d') refl in
      let (_, at_source) = settled-held source target source c d' (held source c d') refl in
      let stored : Data.get_item target c d' ≡ some (members (include val now)) =
        get_item-after_write source target Event.srem c
          (update target (members (include val now)) d)
        ∙ get_item-update target (members (include val now)) (members now) c d h in
      (
        reply,
        at_target ∙ held-stored target c d' (include val now) stored,
        at_source
            ∙ source_now source target val c d now (bytes_eq.equals_iff target source).0 stored,
      )

  -- what SMOVE promises
  abbrev pub Moves :
      Bytes
      → Bytes
      → Bytes
      → Clock
      → List Bytes
      → List Bytes
      → Result Reply × Data (Stored Score)
      → Type 0
  Moves source target val c src dst (reply, d) =
      (reply ≡ ok (Reply.num (pos 1)))
      × ((x : Bytes) → elem x (held target c d) ≡ ((val == x) || elem x dst))
      × ((x : Bytes)
          → elem x (held source c d)
            ≡ (if target == source then elem x src else not (val == x) && elem x src))

  -- the run after the member has left the source
  abbrev landed :
      Bytes
      → Bytes
      → Bytes
      → Clock
      → Data (Stored Score)
      → List Bytes
      → Result Reply × Data (Stored Score)
  landed source target val c d now =
      settled source target c (moved source target val now d)
        (held source c (moved source target val now d))

  landed-Moves :
      (source target val : Bytes) (c : Clock) (d : Data (Stored Score)) (src dst now : List Bytes)
      → Data.get_item target c d ≡ some (members now)
      → ((x : Bytes) → ((val == x) || elem x now) ≡ ((val == x) || elem x dst))
      → ((x : Bytes)
          → (if target == source then (val == x) || elem x now else elem x (held source c d))
            ≡ (if target == source then elem x src else not (val == x) && elem x src))
      → Moves source target val c src dst (landed source target val c d (held target c d))
  landed-Moves source target val c d src dst now h at_target at_source =
      let (reply, there, here) = arrives source target val c d now h in
      subst (λ l. Moves source target val c src dst (landed source target val c d l))
        (sym (held-stored target c d now h))
        (
          reply,
          λ x. ap (elem x) there ∙ elem-include val x now ∙ at_target x,
          λ x. ap (elem x) here ∙ inside x (target == source) ∙ at_source x,
        )
    where
      inside :
          (x : Bytes) (b : Bool)
          → elem x (if b then include val now else held source c d)
            ≡ (if b then (val == x) || elem x now else elem x (held source c d))
      inside x true = elem-include val x now
      inside x false = refl

  -- The target is a set, perhaps the source itself.
  to_set :
      (source target val : Bytes) (c : Clock) (d : Data (Stored Score)) (src dst : List Bytes)
      → Data.get_item source c d ≡ some (members src)
      → Data.get_item target c d ≡ some (members dst)
      → elem val src ≡ true
      → Moves source target val c src dst (rest_of source target val src (some dst) c d)
  unfolding current_set held
  to_set source target val c d src dst hs ht there = elim (Bool-cases (target == source)) [
    | inl same ↦
        let one : target ≡ source = (bytes_eq.equals_iff target source).0 same in
        let now = discard val src in
        let d2 = update source (members now) d in
        let stored : Data.get_item target c d2 ≡ some (members now) =
          ap (λ k. Data.get_item k c d2) one
          ∙ get_item-update source (members now) (members src) c d hs in
        let equal : src ≡ dst =
          sym (held-stored source c d src hs)
          ∙ ap (λ k. held k c d) (sym one)
          ∙ held-stored target c d dst ht in
        let back : (x : Bytes) → ((val == x) || elem x now) ≡ elem x src = λ x.
          ap (λ b. (val == x) || b) (elem-discard val x src)
          ∙ twice (val == x) (elem x src)
          ∙ same_member val x src there in
        landed-Moves source target val c d2 src dst now stored
          (λ x. back x ∙ sym (same_member val x src there) ∙ ap (λ l. (val == x) || elem x l) equal)
          (λ x. rw (same) (back x))
    | inr other ↦
        let other' : (source == target) ≡ false =
          ground
            (arith, other, bytes_eq.equals_iff source target, bytes_eq.equals_iff target source) in
        let d2 = update source (members (discard val src)) d in
        let stored : Data.get_item target c d2 ≡ some (members dst) =
          get_item-update_other source target (members (discard val src)) c d other' ∙ ht in
        let left : held source c d2 ≡ discard val src =
          held-stored source c d2 (discard val src)
            (get_item-update source (members (discard val src)) (members src) c d hs) in
        landed-Moves source target val c d2 src dst dst stored (λ x. refl)
          (λ x. rw (other) (ap (elem x) left ∙ elem-discard val x src))
  ]

  -- The target is missing.
  to_new :
      (source target val : Bytes) (c : Clock) (d : Data (Stored Score)) (src : List Bytes)
      → Data.get_item source c d ≡ some (members src)
      → (target == source) ≡ false
      → Moves source target val c src [] (rest_of source target val src none c d)
  unfolding current_set held
  to_new source target val c d src hs other =
      let other' : (source == target) ≡ false =
        ground
          (arith, other, bytes_eq.equals_iff source target, bytes_eq.equals_iff target source) in
      let d2 = update source (members (discard val src)) d in
      let d3 = Data.set_item target (members []) d2 in
      let left : held source c d3 ≡ discard val src = held-stored source c d3 (discard val src) (
        get_item-set_item_other target source (members []) c d2 other
        ∙ get_item-update source (members (discard val src)) (members src) c d hs) in
      landed-Moves source target val c d3 src [] [] (get_item-set_item target (members []) c d2)
        (λ x. refl) (λ x. rw (other) (ap (elem x) left ∙ elem-discard val x src))

  member_arrives :
      (source target val : Bytes) (c : Clock) (d : Data (Stored Score)) (src dst : List Bytes)
      (o : Option (Stored Score))
      → Data.get_item source c d ≡ some (members src)
      → Data.get_item target c d ≡ o
      → set_or_none o ≡ some dst
      → elem val src ≡ true
      → Moves source target val c src dst (move_member source target val src c d)
  unfolding move_member
  member_arrives source target val c d src dst none hs ht e there =
      let d1 = (Data.get target c d).1 in
      let run = set_at-missing target c d ht in
      let hs' : Data.get_item source c d1 ≡ some (members src) =
        get_item-get target source c d ∙ hs in
      subst
        (λ p.
          Moves source target val c src dst (((λ _ _. p) >>= rest_of source target val src) c d))
        (sym run)
        (subst (λ l. Moves source target val c src l (rest_of source target val src none c d1))
          (inject e) (to_new source target val c d1 src hs' (differ (target == source) refl)))
    where
      inject : some [] ≡ some dst → [] ≡ dst
      inject p = cc

      differ : (b : Bool) → (target == source) ≡ b → b ≡ false
      differ false q = refl
      differ true q =
          let clash : none ≡ some (members src) =
            sym ht ∙ ap (λ k. Data.get_item k c d) ((bytes_eq.equals_iff target source).0 q) ∙ hs in
          absurd (cc)
  member_arrives source target val c d src dst (some (members l)) hs ht e there =
      subst
        (λ p.
          Moves source target val c src dst (((λ _ _. p) >>= rest_of source target val src) c d))
        (sym (set_at-stored target c d l ht))
        (subst (λ k. Moves source target val c src k (rest_of source target val src (some l) c d))
          (inject e) (to_set source target val c d src l hs ht there))
    where
      inject : some l ≡ some dst → l ≡ dst
      inject p = cc
  member_arrives source target val c d src dst (some (string b)) hs ht e there = absurd (cc)
  member_arrives source target val c d src dst (some (hash b)) hs ht e there = absurd (cc)
  member_arrives source target val c d src dst (some (elements b)) hs ht e there = absurd (cc)
  member_arrives source target val c d src dst (some (ranked b)) hs ht e there = absurd (cc)
  member_arrives source target val c d src dst (some (bits b)) hs ht e there = absurd (cc)

  -- SMOVE of a member of the source answers 1 and puts the member into the target, whose other
  -- members stay; the source loses the member and keeps the others, and is as it was if it is the
  -- target itself. The source holds a set, and the target is missing or holds a set.
  pub smove-Moves :
      (source target val : Bytes) (c : Clock) (d : Data (Stored Score)) (src dst : List Bytes)
      → Data.get_item source c d ≡ some (members src)
      → set_or_none (Data.get_item target c d) ≡ some dst
      → elem val src ≡ true
      → Moves source target val c src dst (smove source target val c d)
  unfolding smove
  smove-Moves source target val c d src dst hs ht there =
      subst
        (λ (p : Result (Option (List Bytes)) × Data (Stored Score)).
          Moves source target val c src dst (
            ((λ _ _. p) >>= λ found. elim found [
              | none ↦ pure (Reply.num (pos 0))
              | some src ↦
                  if not (elem val src)
                  then pure (Reply.num (pos 0))
                  else move_member source target val src
            ])
              c d))
        (sym (set_at-stored source c d src hs))
        (rw (there) (
          member_arrives source target val c d src dst (Data.get_item target c d) hs refl ht there))

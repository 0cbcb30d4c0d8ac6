-- ===== src/Hash/Effects.antt =====
-- commands/hash.py: what HSET and HGET do to the hash under a key.
use mathlib.Core.Path.{subst}
use kagni.Prelude.{
  ℕ, Option, none, some, List, [], Bytes, bytes_eq, ◌≡◌, refl, sym, ap, ◌∙◌, arith, Option-cases,
  Bool-cases, inl, inr,
}
use kagni.Dict.{Dict, lookup}
use kagni.Data
use kagni.Data.{Clock, Entry, Data}
use kagni.Common.{
  Field, Stored, hash, string, members, elements, ranked, bits, Result, ok, err, pure, modify,
  ◌>>=◌, ◌>>◌, after_write, notify, expect_kind, kind_of,
}
use kagni.Common.Reads.{get_item-update, get_item-set_item}
use kagni.Hash.Fields.{set_pairs}
use kagni.Hash.Basic.{hash_at, hash_or_new, set_onto, hset_pairs}

module _ {Score : Type 0} where
  -- the hash that a command finds where the key holds no other kind of value
  abbrev pub hash_or_none : Option (Stored Score) → Option (Dict Bytes Field)
  hash_or_none none = some []
  hash_or_none (some (hash cur)) = some cur
  hash_or_none (some _) = none

  -- `_hash` finds what is stored
  pub hash_at-stored :
      (key : Bytes) (c : Clock) (d : Data (Stored Score)) (cur : Dict Bytes Field)
      → Data.get_item key c d ≡ some (hash cur)
      → hash_at key c d ≡ (ok (some cur), d)
  unfolding hash_at expect_kind Data.get_item Data.get Data.live kind_of
  hash_at-stored key c d cur h = elim (Option-cases (lookup key d.storage)) [
    | inl missing ↦ ground (arith, missing, h)
    | inr (e, there) ↦ elim (Bool-cases (Data.live e c.mono)) [
      | inl alive ↦ ground (arith, there, alive, h)
      | inr dead ↦ ground (arith, there, dead, h)
    ]
  ]

  hash_at-missing :
      (key : Bytes) (c : Clock) (d : Data (Stored Score))
      → Data.get_item key c d ≡ none
      → (hash_at key c d).0 ≡ ok none
  unfolding hash_at expect_kind Data.get_item Data.get Data.live
  hash_at-missing key c d h = elim (Option-cases (lookup key d.storage)) [
    | inl missing ↦ ground (arith, missing, h)
    | inr (e, there) ↦ elim (Bool-cases (Data.live e c.mono)) [
      | inl alive ↦ ground (arith, there, alive, h)
      | inr dead ↦ ground (arith, there, dead, h)
    ]
  ]

  -- what `_hset_pairs` leaves under the key, and its result
  abbrev pub Sets :
      Bytes
      → List (Bytes × Bytes)
      → Dict Bytes Field
      → Clock
      → Result ℕ × Data (Stored Score)
      → Type 0
  Sets key pairs cur c (r, d) =
      (r ≡ ok (set_pairs pairs c.wall cur).0)
      × (Data.get_item key c d ≡ some (hash (set_pairs pairs c.wall cur).1))

  set_onto-Sets :
      (key : Bytes) (pairs : List (Bytes × Bytes)) (cur : Dict Bytes Field) (c : Clock)
      (d : Data (Stored Score)) (w : Stored Score)
      → Data.get_item key c d ≡ some w
      → Sets key pairs cur c (set_onto key pairs cur c d)
  unfolding set_onto after_write notify Data.touch Data.get_item Data.live
  set_onto-Sets key pairs cur c d w h =
      (refl, get_item-update key (hash (set_pairs pairs c.wall cur).1) w c d h)

  -- the rest of `_hset_pairs`, once `_hash` has answered
  abbrev continued :
      Bytes
      → List (Bytes × Bytes)
      → Clock
      → Result (Option (Dict Bytes Field)) × Data (Stored Score)
      → Result ℕ × Data (Stored Score)
  continued key pairs c p =
      ((((λ _ _. p) >>= λ found. elim found [
        | none ↦ modify (Data.set_item key (hash [])) >> pure []
        | some cur ↦ pure cur
      ])
          >>= λ cur. set_onto key pairs cur))
        c p.1

  continued-missing :
      (key : Bytes) (pairs : List (Bytes × Bytes)) (c : Clock) (d : Data (Stored Score))
      (r : Result (Option (Dict Bytes Field)))
      → r ≡ ok none
      → Sets key pairs [] c (continued key pairs c (r, d))
  continued-missing key pairs c d (ok none) e =
      set_onto-Sets key pairs [] c (Data.set_item key (hash []) d) (hash [])
        (get_item-set_item key (hash []) c d)
  continued-missing key pairs c d (ok (some cur)) e = absurd (cc)
  continued-missing key pairs c d (err x) e = absurd (cc)

  pub hset_pairs-Sets :
      (key : Bytes) (pairs : List (Bytes × Bytes)) (cur : Dict Bytes Field) (c : Clock)
      (d : Data (Stored Score)) (o : Option (Stored Score))
      → Data.get_item key c d ≡ o
      → hash_or_none o ≡ some cur
      → Sets key pairs cur c (hset_pairs key pairs c d)
  unfolding hset_pairs hash_or_new
  hset_pairs-Sets key pairs cur c d none h e =
      subst (λ k. Sets key pairs k c (continued key pairs c (hash_at key c d))) (inject e)
        (continued-missing key pairs c (hash_at key c d).1 (hash_at key c d).0
          (hash_at-missing key c d h))
    where
      inject : some [] ≡ some cur → [] ≡ cur
      inject p = cc
  hset_pairs-Sets key pairs cur c d (some (hash old)) h e =
      subst (λ p. Sets key pairs cur c (continued key pairs c p))
        (sym (
          hash_at-stored key c d cur (
            h
            ∙ ap
                (λ o. elim o as (λ _. Option (Stored Score)) [
                  | none ↦ none
                  | some x ↦ some (hash x)
                ])
                e)))
        (set_onto-Sets key pairs cur c d (hash old) h)
  hset_pairs-Sets key pairs cur c d (some (string b)) h e = absurd (cc)
  hset_pairs-Sets key pairs cur c d (some (members b)) h e = absurd (cc)
  hset_pairs-Sets key pairs cur c d (some (elements b)) h e = absurd (cc)
  hset_pairs-Sets key pairs cur c d (some (ranked b)) h e = absurd (cc)
  hset_pairs-Sets key pairs cur c d (some (bits b)) h e = absurd (cc)

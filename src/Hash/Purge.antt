-- ===== src/Hash/Purge.antt =====
-- commands/hash.py: `_purge` and `_live_pairs` leave exactly the live fields.
use kagni.Prelude.{
  ℤ, Bool, true, false, Option, none, some, List, [], ◌∷◌, Bytes, bytes_eq, if◌then◌else◌, length,
  elem, is_some, ◌≡◌, refl, sym, ap, ◌∙◌, arith, Option-cases, inl, inr, beq_refl,
}
use kagni.Dict.{Dict, lookup, erase, lookup-erase, HasDistinctKeys, erase-HasDistinctKeys}
use kagni.Common.{Field}
use kagni.Hash.Fields.{expired, dead_fields, erase_all, purge, live_pairs}
use kagni.Hash.View.{visible, view, view-erase}
use kagni.Hash.Count.{bit, live_count, erase-count}

-- whether the entry that a lookup found has expired
abbrev dead : ℤ → Option Field → Bool
dead now none = false
dead now (some raw) = expired now raw

lookup-erase_all :
    (names : List Bytes) (j : Bytes) (cur : Dict Bytes Field)
    → lookup j (erase_all names cur) ≡ (if elem j names then none else lookup j cur)
unfolding erase_all elem
lookup-erase_all [] j cur = refl
lookup-erase_all (name ∷ rest) j cur =
    ground (arith, lookup-erase_all rest j (erase name cur), lookup-erase name j cur)

elem-dead_fields :
    (j : Bytes) (now : ℤ) (cur : Dict Bytes Field)
    → HasDistinctKeys cur
    → elem j (dead_fields now cur) ≡ dead now (lookup j cur)
unfolding elem dead_fields lookup
elem-dead_fields j now [] h = refl
elem-dead_fields j now ((name, raw) ∷ rest) h =
    ground (arith, h.0, bytes_eq.equals_iff name j, elem-dead_fields j now rest h.1)

-- After the purge a lookup finds the live field, or nothing.
pub lookup-live_pairs :
    (j : Bytes) (now : ℤ) (cur : Dict Bytes Field)
    → HasDistinctKeys cur
    → lookup j (live_pairs now cur) ≡ view j now cur
unfolding live_pairs purge visible
lookup-live_pairs j now cur h = elim (Option-cases (lookup j cur)) [
  | inl missing ↦
      ground
        (arith, missing, lookup-erase_all (dead_fields now cur) j cur, elem-dead_fields j now cur h)
  | inr (raw, there) ↦
      ground
        (arith, there, lookup-erase_all (dead_fields now cur) j cur, elem-dead_fields j now cur h)
]

erase_all-HasDistinctKeys :
    (names : List Bytes) (cur : Dict Bytes Field)
    → HasDistinctKeys cur
    → HasDistinctKeys (erase_all names cur)
unfolding erase_all
erase_all-HasDistinctKeys [] cur h = h
erase_all-HasDistinctKeys (name ∷ rest) cur h =
    erase_all-HasDistinctKeys rest (erase name cur) (erase-HasDistinctKeys name cur h)

pub live_pairs-HasDistinctKeys :
    (now : ℤ) (cur : Dict Bytes Field) → HasDistinctKeys cur → HasDistinctKeys (live_pairs now cur)
unfolding live_pairs purge
live_pairs-HasDistinctKeys now cur h = erase_all-HasDistinctKeys (dead_fields now cur) cur h

erase_all-count :
    (names : List Bytes) (now : ℤ) (cur : Dict Bytes Field)
    → HasDistinctKeys cur
    → ((j : Bytes) → elem j names ≡ true → view j now cur ≡ none)
    → live_count now (erase_all names cur) ≡ live_count now cur
unfolding erase_all elem
erase_all-count [] now cur h gone = refl
erase_all-count (name ∷ rest) now cur h gone =
    let first : view name now cur ≡ none = gone name (rw (beq_refl name) refl) in
    omega (
      arith,
      erase_all-count rest now (erase name cur) (erase-HasDistinctKeys name cur h)
          (λ j m. ground (arith, m, view-erase name j now cur, gone j)),
      erase-count name now cur h,
      ap (λ o. bit (is_some o)) first,
    )

all_live :
    (now : ℤ) (cur : Dict Bytes Field)
    → HasDistinctKeys cur
    → ((j : Bytes) → dead now (lookup j cur) ≡ false)
    → length cur ≡ live_count now cur
unfolding live_count lookup
all_live now [] h k = refl
all_live now ((name, raw) ∷ rest) h k = ground (
  arith,
  beq_refl name,
  k name,
  all_live now rest h.1 (λ j. ground (arith, k j, h.0, bytes_eq.equals_iff name j)),
)

visible-alive : (now : ℤ) (o : Option Field) → dead now (visible now o) ≡ false
unfolding visible
visible-alive now none = refl
visible-alive now (some raw) = ground arith

dead-invisible : (now : ℤ) (o : Option Field) → dead now o ≡ true → visible now o ≡ none
unfolding visible
dead-invisible now none h = refl
dead-invisible now (some raw) h = ground (arith, h)

-- HLEN counts the live fields.
pub length-live_pairs :
    (now : ℤ) (cur : Dict Bytes Field)
    → HasDistinctKeys cur
    → length (live_pairs now cur) ≡ live_count now cur
unfolding live_pairs purge
length-live_pairs now cur h =
    all_live now (live_pairs now cur) (live_pairs-HasDistinctKeys now cur h)
      (λ j. ap (dead now) (lookup-live_pairs j now cur h) ∙ visible-alive now (lookup j cur))
    ∙ erase_all-count (dead_fields now cur) now cur h
        (λ j m. dead-invisible now (lookup j cur) (sym (elem-dead_fields j now cur h) ∙ m))

-- ===== src/Hash/Count.antt =====
-- commands/hash.py: how many live fields a hash has, and what the purge leaves.
use kagni.Prelude.{
  ℕ, ◌+◌, ℤ, Bool, false, not, Option, none, some, List, [], ◌∷◌, Bytes, bytes_eq, if◌then◌else◌,
  is_none, is_some, ◌≡◌, refl, sym, ap, ◌∙◌, arith, Option-cases, inl, inr, if-elim,
}
use kagni.Dict.{
  Dict, lookup, insert, erase, HasDistinctKeys, insert-HasDistinctKeys, erase-HasDistinctKeys,
}
use kagni.Common.{Field}
use kagni.Hash.Fields.{expired, put, field, set_pairs, delete_fields}
use kagni.Hash.View.{visible, view, field-view, view-field}

abbrev pub bit : Bool → ℕ
bit b = if b then 1 else 0

unfoldable pub live_count : ℤ → Dict Bytes Field → ℕ
live_count now [] = 0
live_count now ((name, raw) ∷ rest) = bit (not (expired now raw)) + live_count now rest

pub insert-count :
    (name : Bytes) (raw : Field) (now : ℤ) (cur : Dict Bytes Field)
    → expired now raw ≡ false
    → live_count now (insert name raw cur) + bit (is_some (view name now cur))
      ≡ live_count now cur + 1
unfolding live_count insert lookup visible
insert-count name raw now [] fresh = ground (arith, fresh)
insert-count name raw now ((k, old) ∷ rest) fresh =
    ground (arith, fresh, insert-count name raw now rest fresh)

erase-missing :
    (name : Bytes) (now : ℤ) (cur : Dict Bytes Field)
    → lookup name cur ≡ none
    → live_count now (erase name cur) ≡ live_count now cur
unfolding live_count erase lookup
erase-missing name now [] h = refl
erase-missing name now ((k, old) ∷ rest) h = ground (arith, h, erase-missing name now rest)

pub erase-count :
    (name : Bytes) (now : ℤ) (cur : Dict Bytes Field)
    → HasDistinctKeys cur
    → live_count now (erase name cur) + bit (is_some (view name now cur)) ≡ live_count now cur
unfolding live_count erase lookup visible
erase-count name now [] h = refl
erase-count name now ((k, old) ∷ rest) h =
    ground (
      arith,
      bytes_eq.equals_iff k name,
      erase-missing k now rest h.0,
      erase-count name now rest h.1,
    )

field-count :
    (name : Bytes) (now : ℤ) (cur : Dict Bytes Field)
    → HasDistinctKeys cur
    → live_count now (field name now cur).1 ≡ live_count now cur
unfolding field visible
field-count name now cur h = elim (Option-cases (lookup name cur)) [
  | inl missing ↦ ground (arith, missing)
  | inr (raw, there) ↦ ground (arith, there, erase-count name now cur h)
]

pub field-HasDistinctKeys :
    (name : Bytes) (now : ℤ) (cur : Dict Bytes Field)
    → HasDistinctKeys cur
    → HasDistinctKeys (field name now cur).1
unfolding field
field-HasDistinctKeys name now cur h = kept (lookup name cur)
  where
    kept :
        (o : Option Field)
        → HasDistinctKeys (
            (elim o as (λ _. Option Field × Dict Bytes Field) [
              | none ↦ (none, cur)
              | some raw ↦ if expired now raw then (none, erase name cur) else (some raw, cur)
            ]).1)
    kept none = h
    kept (some raw) =
        if-elim (λ (r : Option Field × Dict Bytes Field). HasDistinctKeys r.1) (expired now raw)
          (erase-HasDistinctKeys name cur h) h

pub put-HasDistinctKeys :
    (name value : Bytes) (t : Option ℤ) (cur : Dict Bytes Field)
    → HasDistinctKeys cur
    → HasDistinctKeys (put name value t cur)
unfolding put
put-HasDistinctKeys name value t cur h =
    insert-HasDistinctKeys name (record { content = value; deadline = t }) cur h

new_bit : (o : Option Field) → (if is_none o then 1 else 0) + bit (is_some o) ≡ 1
new_bit none = refl
new_bit (some raw) = refl

after_delete :
    (old : Option Field) (name : Bytes) (seen : Dict Bytes Field)
    → HasDistinctKeys seen
    → HasDistinctKeys (if is_none old then seen else erase name seen)
after_delete none name seen h = h
after_delete (some raw) name seen h = erase-HasDistinctKeys name seen h

delete_count :
    (old : Option Field) (name : Bytes) (now : ℤ) (seen : Dict Bytes Field)
    → HasDistinctKeys seen
    → old ≡ view name now seen
    → live_count now (if is_none old then seen else erase name seen)
        + (if is_none old then 0 else 1)
      ≡ live_count now seen
delete_count none name now seen h e = omega arith
delete_count (some raw) name now seen h e =
    omega (arith, erase-count name now seen h, ap (λ o. bit (is_some o)) e)

pub set_pairs-count :
    (pairs : List (Bytes × Bytes)) (now : ℤ) (cur : Dict Bytes Field)
    → HasDistinctKeys cur
    → live_count now (set_pairs pairs now cur).1 ≡ (set_pairs pairs now cur).0 + live_count now cur
unfolding set_pairs put
set_pairs-count [] now cur h = omega arith
set_pairs-count ((name, value) ∷ rest) now cur h =
    let seen = (field name now cur).1 in
    let distinct = field-HasDistinctKeys name now cur h in
    let raw : Field = record { content = value; deadline = none } in
    omega (
      arith,
      set_pairs-count rest now (insert name raw seen)
          (insert-HasDistinctKeys name raw seen distinct),
      insert-count name raw now seen (unfold expired in refl),
      field-count name now cur h,
      new_bit (field name now cur).0,
      ap (λ o. bit (is_some o)) (field-view name now cur ∙ sym (view-field name name now cur)),
    )

pub delete_fields-count :
    (names : List Bytes) (now : ℤ) (cur : Dict Bytes Field)
    → HasDistinctKeys cur
    → live_count now (delete_fields names now cur).1 + (delete_fields names now cur).0
      ≡ live_count now cur
unfolding delete_fields
delete_fields-count [] now cur h = omega arith
delete_fields-count (name ∷ rest) now cur h =
    let seen = (field name now cur).1 in
    let distinct = field-HasDistinctKeys name now cur h in
    let next = after_delete (field name now cur).0 name seen distinct in
    omega (
      arith,
      delete_fields-count rest now
          (if is_none (field name now cur).0 then seen else erase name seen) next,
      delete_count (field name now cur).0 name now seen distinct
          (field-view name now cur ∙ sym (view-field name name now cur)),
      field-count name now cur h,
    )

pub set_pairs-HasDistinctKeys :
    (pairs : List (Bytes × Bytes)) (now : ℤ) (cur : Dict Bytes Field)
    → HasDistinctKeys cur
    → HasDistinctKeys (set_pairs pairs now cur).1
unfolding set_pairs
set_pairs-HasDistinctKeys [] now cur h = h
set_pairs-HasDistinctKeys ((name, value) ∷ rest) now cur h =
    let seen = (field name now cur).1 in
    set_pairs-HasDistinctKeys rest now (put name value none seen)
      (put-HasDistinctKeys name value none seen (field-HasDistinctKeys name now cur h))

-- ===== src/Hash/View.antt =====
-- commands/hash.py: the live fields of a hash as a map, and what the loops of the commands do to it.
use kagni.Prelude.{
  ℤ, Option, none, some, List, [], ◌∷◌, Bytes, bytes_eq, ◌==◌, if◌then◌else◌, map, elem, ◌≡◌, refl,
  sym, ap, ◌∙◌, arith, Option-cases, Bool-cases, inl, inr, is_none,
}
use kagni.Dict.{Dict, lookup, erase, lookup-insert, lookup-erase}
use kagni.Common.{Field}
use kagni.Hash.Fields.{expired, put, field, set_pairs, delete_fields, read_fields}

-- an expired field counts as missing
unfoldable pub visible : ℤ → Option Field → Option Field
unfolding expired
visible now none = none
visible now (some raw) = if expired now raw then none else some raw

-- the map of the live fields
abbrev pub view : Bytes → ℤ → Dict Bytes Field → Option Field
view name now cur = visible now (lookup name cur)

-- The fields that are set hold their last values, without a deadline.
unfoldable pub assigned : List (Bytes × Bytes) → Bytes → Option Field → Option Field
assigned [] j old = old
assigned ((name, value) ∷ rest) j old =
    assigned rest j (if name == j then some (record { content = value; deadline = none }) else old)

pub field-view :
    (name : Bytes) (now : ℤ) (cur : Dict Bytes Field) → (field name now cur).0 ≡ view name now cur
unfolding field visible
field-view name now cur = elim (Option-cases (lookup name cur)) [
  | inl missing ↦ ground (arith, missing)
  | inr (raw, there) ↦ ground (arith, there)
]

pub view-field :
    (name j : Bytes) (now : ℤ) (cur : Dict Bytes Field)
    → view j now (field name now cur).1 ≡ view j now cur
unfolding field visible
view-field name j now cur = elim (Option-cases (lookup name cur)) [
  | inl missing ↦ ground (arith, missing)
  | inr (raw, there) ↦ ground (arith, there, lookup-erase name j cur, bytes_eq.equals_iff name j)
]

pub view-erase :
    (name j : Bytes) (now : ℤ) (cur : Dict Bytes Field)
    → view j now (erase name cur) ≡ (if name == j then none else view j now cur)
unfolding visible
view-erase name j now cur = ground (arith, lookup-erase name j cur)

pub view-put :
    (name value j : Bytes) (now : ℤ) (cur : Dict Bytes Field)
    → view j now (put name value none cur)
      ≡ (if name == j then some (record { content = value; deadline = none }) else view j now cur)
unfolding put visible expired
view-put name value j now cur =
    ground (arith, lookup-insert name j (record { content = value; deadline = none }) cur)

pub set_pairs-view :
    (pairs : List (Bytes × Bytes)) (j : Bytes) (now : ℤ) (cur : Dict Bytes Field)
    → view j now (set_pairs pairs now cur).1 ≡ assigned pairs j (view j now cur)
unfolding set_pairs assigned
set_pairs-view [] j now cur = refl
set_pairs-view ((name, value) ∷ rest) j now cur =
    let seen = (field name now cur).1 in
    set_pairs-view rest j now (put name value none seen)
    ∙ ap (assigned rest j) (
        view-put name value j now seen
        ∙ ap (λ old. if name == j then some (record { content = value; deadline = none }) else old)
            (view-field name j now cur))

delete_one :
    (name j : Bytes) (now : ℤ) (cur : Dict Bytes Field) (old : Option Field)
    → old ≡ view name now cur
    → view j now (if is_none old then cur else erase name cur)
      ≡ (if name == j then none else view j now cur)
delete_one name j now cur none e = elim (Bool-cases (name == j)) [
  | inl same ↦
      rw (same) (ap (λ k. view k now cur) (sym ((bytes_eq.equals_iff name j).0 same)) ∙ sym e)
  | inr other ↦ rw (other) refl
]
delete_one name j now cur (some raw) e = view-erase name j now cur

pub delete_fields-view :
    (names : List Bytes) (j : Bytes) (now : ℤ) (cur : Dict Bytes Field)
    → view j now (delete_fields names now cur).1 ≡ (if elem j names then none else view j now cur)
unfolding delete_fields elem
delete_fields-view [] j now cur = refl
delete_fields-view (name ∷ rest) j now cur =
    let (old, seen) = field name now cur in
    ground (
      arith,
      delete_fields-view rest j now (if is_none old then seen else erase name seen),
      delete_one name j now seen old (field-view name now cur ∙ sym (view-field name name now cur)),
      view-field name j now cur,
    )

read_view :
    (names : List Bytes) (now : ℤ) (cur seen : Dict Bytes Field)
    → ((j : Bytes) → view j now seen ≡ view j now cur)
    → map (λ name. view name now seen) names ≡ map (λ name. view name now cur) names
read_view [] now cur seen h = refl
read_view (name ∷ rest) now cur seen h = rw (h name, read_view rest now cur seen h) refl

pub read_fields-view :
    (names : List Bytes) (now : ℤ) (cur : Dict Bytes Field)
    → (read_fields names now cur).0 ≡ map (λ name. view name now cur) names
unfolding read_fields
read_fields-view [] now cur = refl
read_fields-view (name ∷ rest) now cur =
    let seen = (field name now cur).1 in
    rw
      (
        field-view name now cur,
        read_fields-view rest now seen,
        read_view rest now cur seen (λ j. view-field name j now cur),
      )
      refl

pub view-read_fields :
    (names : List Bytes) (j : Bytes) (now : ℤ) (cur : Dict Bytes Field)
    → view j now (read_fields names now cur).1 ≡ view j now cur
unfolding read_fields
view-read_fields [] j now cur = refl
view-read_fields (name ∷ rest) j now cur =
    view-read_fields rest j now (field name now cur).1 ∙ view-field name j now cur

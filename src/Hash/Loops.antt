-- ===== src/Hash/Loops.antt =====
-- commands/hash.py: the loops over fields, against their specifications.
use kagni.Prelude.{
  arith, ap, ℕ, ℤ, Bool, false, ◌||◌, Option, none, some, List, [], ◌∷◌, Bytes, bytes_eq,
  if◌then◌else◌, is_none, is_some, ◌≡◌, refl, ◌∙◌,
}
use kagni.Dict.{Dict, erase}
use kagni.Common.{Field}
use kagni.Hash.Fields.{expired, put, field, set_pairs, delete_fields, read_fields}
use kagni.Hash.View.{field-view}
use kagni.Hash.Grammar.{Flag}
use kagni.Hash.Expiry.{expire_field, expire_fields, Reading, read_deadline, read_deadlines}
use kagni.Hash.Spec.{
  Fields, replace, each, name_itself, set_step, delete_step, read_step, expire_step, deadline_step,
  count_true,
}
use kagni.Hash.Refine.{
  Holds, Holds-field, Holds-same, Holds-erase, Holds-put, expire_field-Steps, read_deadline-Steps,
}

-- What the specification of a loop promises of it.
abbrev pub Refines {ℓ} : {R : Type ℓ} → ℤ → R × Dict Bytes Field → R × Fields → Type ℓ
Refines now (reply, cur) (expected, m) = (reply ≡ expected) × Holds now cur m

-- HEXPIRE answers field by field, and leaves the deadlines, as specified.
pub expire_fields-Refines :
    (flag : Flag) (deadline : ℤ) (names : List Bytes) (now : ℤ) (cur : Dict Bytes Field)
    (m : Fields)
    → Holds now cur m
    → Refines now
        (expire_fields flag deadline names now cur)
        (each name_itself (expire_step flag deadline now) names m)
unfolding expire_fields each
expire_fields-Refines flag deadline [] now cur m h = (refl, h)
expire_fields-Refines flag deadline (name ∷ rest) now cur m h =
    let (first, next) = expire_field-Steps flag deadline name now cur m h in
    let (more, done) =
      expire_fields-Refines flag deadline rest now (expire_field flag deadline name now cur).1
        (replace name (expire_step flag deadline now name (m name)).1 m) next in
    (rw (first, more) refl, done)

abbrev pub any_true : List (ℤ × Bool) → Bool
any_true [] = false
any_true ((n, b) ∷ rest) = b || any_true rest

abbrev pub replies : List (ℤ × Bool) → List ℤ
replies [] = []
replies ((n, b) ∷ rest) = n ∷ replies rest

pub read_deadlines-Refines :
    (kind : Reading) (names : List Bytes) (now : ℤ) (cur : Dict Bytes Field) (m : Fields)
    → Holds now cur m
    → let (out, expected) = each name_itself (deadline_step kind now) names m in
      Refines now (read_deadlines kind names now cur) ((replies out, any_true out), expected)
unfolding read_deadlines each
read_deadlines-Refines kind [] now cur m h = (refl, h)
read_deadlines-Refines kind (name ∷ rest) now cur m h =
    let (first, next) = read_deadline-Steps kind name now cur m h in
    let (more, done) =
      read_deadlines-Refines kind rest now (read_deadline kind name now cur).1
        (replace name (deadline_step kind now name (m name)).1 m) next in
    (rw (first, more) refl, done)

pub set_pairs-Refines :
    (pairs : List (Bytes × Bytes)) (now : ℤ) (cur : Dict Bytes Field) (m : Fields)
    → Holds now cur m
    → let (out, expected) = each (λ p. p.0) set_step pairs m in
      Refines now (set_pairs pairs now cur) (count_true out, expected)
unfolding set_pairs each count_true
set_pairs-Refines [] now cur m h = (refl, h)
set_pairs-Refines ((name, value) ∷ rest) now cur m h =
    let found : (field name now cur).0 ≡ m name = field-view name now cur ∙ h.fields name in
    let seen = (field name now cur).1 in
    let (more, done) =
      set_pairs-Refines rest now (put name value none seen)
        (replace name (some (record { content = value; deadline = none })) m)
        (Holds-put name value none now seen m (unfold expired in refl)
          (Holds-field name now cur m h)) in
    (rw (found, more) refl, done)

delete_live :
    (name : Bytes) (now : ℤ) (seen : Dict Bytes Field) (m : Fields) (live : Option Field)
    → live ≡ m name
    → Holds now seen m
    → Holds now (if is_none live then seen else erase name seen) (replace name none m)
delete_live name now seen m none e h = Holds-same name now seen m none e h
delete_live name now seen m (some raw) e h = Holds-erase name now seen m h

none_or_some :
    (o : Option Field) → if◌then◌else◌ {A = ℕ} (is_none o) 0 1 ≡ (if is_some o then 1 else 0)
none_or_some none = refl
none_or_some (some raw) = refl

pub delete_fields-Refines :
    (names : List Bytes) (now : ℤ) (cur : Dict Bytes Field) (m : Fields)
    → Holds now cur m
    → let (out, expected) = each name_itself delete_step names m in
      Refines now (delete_fields names now cur) (count_true out, expected)
unfolding delete_fields each count_true
delete_fields-Refines [] now cur m h = (refl, h)
delete_fields-Refines (name ∷ rest) now cur m h =
    let found : (field name now cur).0 ≡ m name = field-view name now cur ∙ h.fields name in
    let seen = (field name now cur).1 in
    let (more, done) =
      delete_fields-Refines rest now
        (if is_none (field name now cur).0 then seen else erase name seen) (replace name none m)
        (delete_live name now seen m (field name now cur).0 found (Holds-field name now cur m h)) in
    (
      omega (
        arith,
        ap (λ o. if◌then◌else◌ {A = ℕ} (is_none o) 0 1) found,
        none_or_some (m name),
        more,
      ),
      done,
    )

pub read_fields-Refines :
    (names : List Bytes) (now : ℤ) (cur : Dict Bytes Field) (m : Fields)
    → Holds now cur m
    → Refines now (read_fields names now cur) (each name_itself read_step names m)
unfolding read_fields each
read_fields-Refines [] now cur m h = (refl, h)
read_fields-Refines (name ∷ rest) now cur m h =
    let found : (field name now cur).0 ≡ m name = field-view name now cur ∙ h.fields name in
    let (more, done) =
      read_fields-Refines rest now (field name now cur).1 (replace name (m name) m) (
        Holds-same name now (field name now cur).1 m (m name) refl
          (Holds-field name now cur m h)) in
    (rw (found, more) refl, done)

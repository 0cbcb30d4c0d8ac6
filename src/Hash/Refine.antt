-- ===== src/Hash/Refine.antt =====
-- commands/hash.py: one round of a loop over fields, against its step on the live fields.
use mathlib.Core.Path.{subst}
use kagni.Prelude.{
  not, negsuc, ℤ, leb_ℤ, Bool, true, false, Option, none, some, Bytes, bytes_eq, if◌then◌else◌, ◌≡◌,
  refl, sym, ap, ◌∙◌, arith,
}
use kagni.Dict.{
  Dict, erase, lookup-insert, HasDistinctKeys, insert-HasDistinctKeys, erase-HasDistinctKeys,
}
use kagni.Common.{Field}
use kagni.Hash.Fields.{expired, put, field}
use kagni.Hash.View.{visible, view, field-view, view-field, view-erase}
use kagni.Hash.Count.{field-HasDistinctKeys}
use kagni.Hash.Grammar.{Flag, no_flag, nx, xx, gt, lt}
use kagni.Hash.Expiry.{
  blocks, expire_field, Expiring, missing, blocked, deleted, expiring, Reading, reading, persists,
  read_deadline,
}
use kagni.Hash.Spec.{lets, Fields, replace, expire_step, deadline_step}

-- The hash `cur` at `now` holds the live fields `m`, and no name twice.
pub record Holds (now : ℤ) (cur : Dict Bytes Field) (m : Fields) : Type 0 where
  pub fields : (j : Bytes) → view j now cur ≡ m j
  pub distinct : HasDistinctKeys cur

pub Holds-field :
    (name : Bytes) (now : ℤ) (cur : Dict Bytes Field) (m : Fields)
    → Holds now cur m
    → Holds now (field name now cur).1 m
Holds-field name now cur m h = record {
  fields = λ j. view-field name j now cur ∙ h.fields j;
  distinct = field-HasDistinctKeys name now cur h.distinct;
}

pub Holds-same :
    (name : Bytes) (now : ℤ) (cur : Dict Bytes Field) (m : Fields) (o : Option Field)
    → o ≡ m name
    → Holds now cur m
    → Holds now cur (replace name o m)
Holds-same name now cur m o e h = record {
  fields = λ j. ground (arith, h.fields j, e, bytes_eq.equals_iff name j, ap m);
  distinct = h.distinct;
}

pub Holds-erase :
    (name : Bytes) (now : ℤ) (cur : Dict Bytes Field) (m : Fields)
    → Holds now cur m
    → Holds now (erase name cur) (replace name none m)
Holds-erase name now cur m h = record {
  fields = λ j. ground (arith, h.fields j, view-erase name j now cur);
  distinct = erase-HasDistinctKeys name cur h.distinct;
}

pub Holds-put :
    (name value : Bytes) (t : Option ℤ) (now : ℤ) (cur : Dict Bytes Field) (m : Fields)
    → expired now (record { content = value; deadline = t }) ≡ false
    → Holds now cur m
    → Holds now
        (put name value t cur)
        (replace name (some (record { content = value; deadline = t })) m)
unfolding visible put
Holds-put name value t now cur m fresh h = record {
  fields = λ j. ground (
    arith,
    h.fields j,
    fresh,
    lookup-insert name j (record { content = value; deadline = t }) cur,
  );
  distinct = insert-HasDistinctKeys name (record { content = value; deadline = t }) cur h.distinct;
}

-- A reply and a hash are those of a step at `name` on the live fields.
abbrev pub Steps {ℓ} :
    {R : Type ℓ} → Bytes → ℤ → Fields → R × Dict Bytes Field → R × Option Field → Type ℓ
Steps name now m (reply, cur) (expected, o) = (reply ≡ expected) × Holds now cur (replace name o m)

if_both {ℓ κ ι} :
    {A : Type ℓ} {B : Type κ} (R : A → B → Type ι) (b : Bool) {x y : A} {x' y' : B}
    → (b ≡ true → R x x')
    → (b ≡ false → R y y')
    → R (if b then x else y) (if b then x' else y')
if_both R true p q = p refl
if_both R false p q = q refl

blocks_lem :
    (flag : Flag) (old : Option ℤ) (deadline : ℤ)
    → blocks flag old deadline ≡ not (lets flag old deadline)
unfolding blocks
blocks_lem no_flag old deadline = refl
blocks_lem nx none deadline = refl
blocks_lem nx (some t) deadline = refl
blocks_lem xx none deadline = refl
blocks_lem xx (some t) deadline = refl
blocks_lem gt none deadline = refl
blocks_lem gt (some t) deadline = ground arith
blocks_lem lt none deadline = refl
blocks_lem lt (some t) deadline = ground arith

expire_live :
    (flag : Flag) (deadline : ℤ) (name : Bytes) (now : ℤ) (seen : Dict Bytes Field) (m : Fields)
    (live : Option Field)
    → live ≡ m name
    → Holds now seen m
    → Steps name now m
        (elim live as (λ _. Expiring × Dict Bytes Field) [
          | none ↦ (missing, seen)
          | some raw ↦
              if blocks flag raw.deadline deadline
              then (blocked, seen)
              else if leb_ℤ deadline now
              then (deleted, erase name seen)
              else (expiring, put name raw.content (some deadline) seen)
        ])
        (expire_step flag deadline now name live)
unfolding expire_step
expire_live flag deadline name now seen m none e h = (refl, Holds-same name now seen m none e h)
expire_live flag deadline name now seen m (some raw) e h =
    subst
      (λ t.
        Steps name now m
          (if t
            then (blocked, seen)
            else if leb_ℤ deadline now
            then (deleted, erase name seen)
            else (expiring, put name raw.content (some deadline) seen))
          (if not (lets flag raw.deadline deadline)
            then (blocked, some raw)
            else if leb_ℤ deadline now
            then (deleted, none)
            else (expiring, some (record { content = raw.content; deadline = some deadline }))))
      (sym (blocks_lem flag raw.deadline deadline))
      (if_both (Steps name now m) (not (lets flag raw.deadline deadline))
        (λ _. (refl, Holds-same name now seen m (some raw) e h))
        (λ _.
          if_both (Steps name now m) (leb_ℤ deadline now)
            (λ _. (refl, Holds-erase name now seen m h))
            (λ late. (
              refl,
              Holds-put name raw.content (some deadline) now seen m (unfold expired in late) h,
            ))))

pub expire_field-Steps :
    (flag : Flag) (deadline : ℤ) (name : Bytes) (now : ℤ) (cur : Dict Bytes Field) (m : Fields)
    → Holds now cur m
    → Steps name now m
        (expire_field flag deadline name now cur)
        (expire_step flag deadline now name (m name))
unfolding expire_field
expire_field-Steps flag deadline name now cur m h =
    let found : (field name now cur).0 ≡ m name = field-view name now cur ∙ h.fields name in
    rw (sym found) (
      expire_live flag deadline name now (field name now cur).1 m (field name now cur).0 found
        (Holds-field name now cur m h))

deadline_live :
    (kind : Reading) (name : Bytes) (now : ℤ) (seen : Dict Bytes Field) (m : Fields)
    (live : Option Field)
    → live ≡ m name
    → Holds now seen m
    → Steps name now m
        (elim live as (λ _. (ℤ × Bool) × Dict Bytes Field) [
          | none ↦ ((negsuc 1, false), seen)
          | some raw ↦ elim raw.deadline [
            | none ↦ ((negsuc 0, false), seen)
            | some t ↦
                if persists kind
                then ((reading kind t now, true), put name raw.content none seen)
                else ((reading kind t now, false), seen)
          ]
        ])
        (deadline_step kind now name live)
unfolding deadline_step
deadline_live kind name now seen m none e h = (refl, Holds-same name now seen m none e h)
deadline_live kind name now seen m (some raw) e h = timed raw.deadline
  where
    timed :
        (t : Option ℤ)
        → Steps name now m
            (elim t as (λ _. (ℤ × Bool) × Dict Bytes Field) [
              | none ↦ ((negsuc 0, false), seen)
              | some t ↦
                  if persists kind
                  then ((reading kind t now, true), put name raw.content none seen)
                  else ((reading kind t now, false), seen)
            ])
            (elim t as (λ _. (ℤ × Bool) × Option Field) [
              | none ↦ ((negsuc 0, false), some raw)
              | some t ↦
                  if persists kind
                  then (
                    (reading kind t now, true),
                    some (record { content = raw.content; deadline = none }),
                  )
                  else ((reading kind t now, false), some raw)
            ])
    timed none = (refl, Holds-same name now seen m (some raw) e h)
    timed (some t) =
        if_both (Steps name now m) (persists kind)
          (λ _. (refl, Holds-put name raw.content none now seen m (unfold expired in refl) h))
          (λ _. (refl, Holds-same name now seen m (some raw) e h))

pub read_deadline-Steps :
    (kind : Reading) (name : Bytes) (now : ℤ) (cur : Dict Bytes Field) (m : Fields)
    → Holds now cur m
    → Steps name now m (read_deadline kind name now cur) (deadline_step kind now name (m name))
unfolding read_deadline
read_deadline-Steps kind name now cur m h =
    let found : (field name now cur).0 ≡ m name = field-view name now cur ∙ h.fields name in
    rw (sym found) (
      deadline_live kind name now (field name now cur).1 m (field name now cur).0 found
        (Holds-field name now cur m h))

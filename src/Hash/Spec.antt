-- ===== src/Hash/Spec.antt =====
-- commands/hash.py: the loops over fields, on a hash as a map from names to live fields.
use kagni.Prelude.{
  ℕ, ◌+◌, ℤ, leb_ℤ, ltb_ℤ, not, Bool, true, false, Option, none, some, List, [], ◌∷◌, Bytes,
  bytes_eq, ◌==◌, if◌then◌else◌, is_none, is_some, negsuc,
}
use kagni.Common.{Field}
use kagni.Hash.Grammar.{Flag, no_flag, nx, xx, gt, lt}
use kagni.Hash.Expiry.{Expiring, missing, blocked, deleted, expiring, Reading, reading, persists}

abbrev pub Fields : Type 0
Fields = Bytes → Option Field

abbrev pub replace : Bytes → Option Field → Fields → Fields
replace name value m j = if name == j then value else m j

-- A loop that looks at one field after another: `step` gives the reply and the field's new state.
unfoldable pub each {ℓ} :
    {I : Type 0} {R : Type ℓ}
    → (I → Bytes)
    → (I → Option Field → R × Option Field)
    → List I
    → Fields
    → List R × Fields
each name_of step [] m = ([], m)
each name_of step (item ∷ rest) m =
    let (reply, now) = step item (m (name_of item)) in
    let (more, done) = each name_of step rest (replace (name_of item) now m) in (reply ∷ more, done)

abbrev pub name_itself : Bytes → Bytes
name_itself name = name

-- HSET: the reply tells whether the field is new.
abbrev pub set_step : Bytes × Bytes → Option Field → Bool × Option Field
set_step (name, value) old = (is_none old, some (record { content = value; deadline = none }))

-- HDEL: the reply tells whether there was a field.
abbrev pub delete_step : Bytes → Option Field → Bool × Option Field
delete_step name old = (is_some old, none)

-- HMGET
abbrev pub read_step : Bytes → Option Field → Option Field × Option Field
read_step name old = (old, old)

-- A field without a deadline comes before every deadline.
abbrev is_sooner : Option ℤ → Option ℤ → Bool
is_sooner none none = false
is_sooner none (some t) = true
is_sooner (some s) none = false
is_sooner (some s) (some t) = ltb_ℤ s t

-- whether a flag lets a field with the deadline `old` have the deadline `deadline`
abbrev pub lets : Flag → Option ℤ → ℤ → Bool
lets no_flag old deadline = true
lets nx old deadline = is_none old
lets xx old deadline = is_some old
lets gt old deadline = is_sooner old (some deadline)
lets lt old deadline = is_sooner (some deadline) old

-- HEXPIRE to the deadline `deadline`
unfoldable pub expire_step : Flag → ℤ → ℤ → Bytes → Option Field → Expiring × Option Field
expire_step flag deadline now name none = (missing, none)
expire_step flag deadline now name (some raw) =
    if not (lets flag raw.deadline deadline)
    then (blocked, some raw)
    else if leb_ℤ deadline now
    then (deleted, none)
    else (expiring, some (record { content = raw.content; deadline = some deadline }))

-- HTTL and its kin: the reply, and whether a deadline was taken away.
unfoldable pub deadline_step : Reading → ℤ → Bytes → Option Field → (ℤ × Bool) × Option Field
unfolding reading
deadline_step kind now name none = ((negsuc 1, false), none)
deadline_step kind now name (some raw) = elim raw.deadline [
  | none ↦ ((negsuc 0, false), some raw)
  | some t ↦
      if persists kind
      then ((reading kind t now, true), some (record { content = raw.content; deadline = none }))
      else ((reading kind t now, false), some raw)
]

unfoldable pub count_true : List Bool → ℕ
count_true [] = 0
count_true (b ∷ rest) = (if b then 1 else 0) + count_true rest

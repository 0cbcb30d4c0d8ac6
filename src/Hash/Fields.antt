-- ===== src/Hash/Fields.antt =====
-- commands/hash.py: the fields of one hash, with their deadlines on the wall clock.
use kagni.Prelude.{
  ℕ, ◌+◌, ℤ, leb_ℤ, Bool, false, Option, none, some, List, [], ◌∷◌, Bytes, bytes_eq, if◌then◌else◌,
  length, is_none,
}
use kagni.Dict.{Dict, lookup, insert, erase}
use kagni.Common.{Field}

-- `deadline is not None and deadline <= now`
unfoldable pub expired : ℤ → Field → Bool
expired now raw = elim raw.deadline [ none ↦ false | some t ↦ leb_ℤ t now ]

-- `_put`
unfoldable pub put : Bytes → Bytes → Option ℤ → Dict Bytes Field → Dict Bytes Field
put name value deadline cur = insert name (record { content = value; deadline = deadline }) cur

-- `_field`: the live field, and the hash without it if it has expired
unfoldable pub field : Bytes → ℤ → Dict Bytes Field → Option Field × Dict Bytes Field
unfolding expired
field name now cur = elim (lookup name cur) [
  | none ↦ (none, cur)
  | some raw ↦ if expired now raw then (none, erase name cur) else (some raw, cur)
]

-- the list `dead` of `_purge`
unfoldable pub dead_fields : ℤ → Dict Bytes Field → List Bytes
unfolding expired
dead_fields now [] = []
dead_fields now ((name, raw) ∷ rest) =
    let more = dead_fields now rest in if expired now raw then name ∷ more else more

unfoldable pub erase_all : List Bytes → Dict Bytes Field → Dict Bytes Field
erase_all [] cur = cur
erase_all (name ∷ rest) cur = erase_all rest (erase name cur)

-- `_purge`, with the number that it returns
unfoldable pub purge : ℤ → Dict Bytes Field → ℕ × Dict Bytes Field
unfolding dead_fields erase_all
purge now cur = let dead = dead_fields now cur in (length dead, erase_all dead cur)

-- `_live_pairs`: the hash that is left, whose items are the triples of the list
unfoldable pub live_pairs : ℤ → Dict Bytes Field → Dict Bytes Field
unfolding purge
live_pairs now cur = let (n, left) = purge now cur in left

-- the loop of `_hset_pairs`: the number of new fields, and the hash
unfoldable pub set_pairs : List (Bytes × Bytes) → ℤ → Dict Bytes Field → ℕ × Dict Bytes Field
unfolding field put
set_pairs [] now cur = (0, cur)
set_pairs ((name, value) ∷ rest) now cur =
    let (old, seen) = field name now cur in
    let (n, done) = set_pairs rest now (put name value none seen) in
    ((if is_none old then 1 else 0) + n, done)

-- the loop of HDEL: the number of fields removed, and the hash
unfoldable pub delete_fields : List Bytes → ℤ → Dict Bytes Field → ℕ × Dict Bytes Field
unfolding field
delete_fields [] now cur = (0, cur)
delete_fields (name ∷ rest) now cur =
    let (old, seen) = field name now cur in
    let (n, done) = delete_fields rest now (if is_none old then seen else erase name seen) in
    ((if is_none old then 0 else 1) + n, done)

-- the loop of HMGET: the values found, in the order asked for, and the hash
unfoldable pub read_fields :
    List Bytes → ℤ → Dict Bytes Field → List (Option Field) × Dict Bytes Field
unfolding field
read_fields [] now cur = ([], cur)
read_fields (name ∷ rest) now cur =
    let (live, seen) = field name now cur in
    let (more, done) = read_fields rest now seen in (live ∷ more, done)

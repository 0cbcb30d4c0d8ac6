-- ===== src/Hash/Expiry.antt =====
-- commands/hash.py: HEXPIRE, HPEXPIRE, HEXPIREAT and HPEXPIREAT, HTTL, HPTTL, HPERSIST,
-- HEXPIRETIME and HPEXPIRETIME.
use kagni.Prelude.{
  floor_div, ◌^◌, ℤ, pos, negsuc, neg, ◌+ℤ◌, ◌-ℤ◌, ◌*ℤ◌, leb_ℤ, Bool, true, false, not, ◌||◌, ◌&&◌,
  Option, none, some, List, [], ◌∷◌, Bytes, bytes_eq, if◌then◌else◌, map, is_empty, is_some,
}
use kagni.Events.{Event}
use kagni.Dict.{Dict, erase}
use kagni.Text.{codes}
use kagni.Resp.{Reply, Replies}
use kagni.Common.{
  Field, Stored, Command, pure, modify, ◌>>=◌, ◌>>◌, after_write, notify, update, remove,
}
use kagni.Hash.Fields.{put, field}
use kagni.Hash.Basic.{hash_at, store_hash, drop_if_empty}
use kagni.Hash.Grammar.{
  Flag, no_flag, nx, xx, gt, lt, ExpireCommand, absolute, FieldTtl, parse_field_ttl_args,
  parse_fields,
}

-- The reply for one field: -2 for a missing one, 0 where the flag blocks it, 2 where it was
-- deleted, 1 where it has its new deadline.
pub data Expiring : Type 0 where
  missing blocked deleted expiring : Expiring

abbrev pub code_of : Expiring → ℤ
code_of missing = negsuc 1
code_of blocked = pos 0
code_of deleted = pos 2
code_of expiring = pos 1

-- the tests of `nx`, `xx`, `gt` and `lt` on the deadline that the field has
unfoldable pub blocks : Flag → Option ℤ → ℤ → Bool
blocks no_flag deadline new_deadline = false
blocks nx deadline new_deadline = is_some deadline
blocks xx deadline new_deadline = not (is_some deadline)
blocks gt none new_deadline = false
blocks gt (some t) new_deadline = leb_ℤ new_deadline t
blocks lt none new_deadline = true
blocks lt (some t) new_deadline = leb_ℤ t new_deadline

abbrev pub new_deadline : Bool → ℤ → ℤ → ℤ
new_deadline is_absolute when_ms now =
    if is_absolute then when_ms *ℤ pos (10 ^ 6) else now +ℤ when_ms *ℤ pos (10 ^ 6)

-- one round of the loop of `_hexpire`
unfoldable pub expire_field : Flag → ℤ → Bytes → ℤ → Dict Bytes Field → Expiring × Dict Bytes Field
unfolding field blocks put
expire_field flag deadline name now cur =
    let (live, seen) = field name now cur in
    elim live [
      | none ↦ (missing, seen)
      | some raw ↦
          if blocks flag raw.deadline deadline
          then (blocked, seen)
          else if leb_ℤ deadline now
          then (deleted, erase name seen)
          else (expiring, put name raw.content (some deadline) seen)
    ]

unfoldable pub expire_fields :
    Flag → ℤ → List Bytes → ℤ → Dict Bytes Field → List Expiring × Dict Bytes Field
unfolding expire_field
expire_fields flag deadline [] now cur = ([], cur)
expire_fields flag deadline (name ∷ rest) now cur =
    let (result, seen) = expire_field flag deadline name now cur in
    let (more, done) = expire_fields flag deadline rest now seen in (result ∷ more, done)

abbrev pub changed : Expiring → Bool
changed missing = false
changed blocked = false
changed deleted = true
changed expiring = true

unfoldable pub any_changed : List Expiring → Bool
any_changed [] = false
any_changed (r ∷ rest) = changed r || any_changed rest

abbrev pub numbers : List ℤ → Replies
numbers [] = Replies.empty
numbers (n ∷ rest) = Replies.item (Reply.num n) (numbers rest)

module _ {Score : Type 0} where
  unfoldable pub hexpire_on :
      Bytes → FieldTtl → Bool → Dict Bytes Field → Command (Stored Score) Reply
  unfolding expire_fields any_changed update after_write notify
  hexpire_on key ttl is_absolute cur c =
      let deadline = new_deadline is_absolute ttl.when_ms c.wall in
      let (out, left) = expire_fields ttl.flag deadline ttl.fields c.wall cur in
      (do
        store_hash key left
        (if any_changed out then modify (after_write key Event.hexpire) else pure tt)
        (if any_changed out && is_empty left then modify (notify key Event.del) else pure tt)
        drop_if_empty key left
        pure (Reply.arr (numbers (map code_of out))))
        c

  -- `_hexpire`, for all four commands
  unfoldable pub hexpire_family : ExpireCommand → Bytes → List Bytes → Command (Stored Score) Reply
  unfolding parse_field_ttl_args hash_at hexpire_on
  hexpire_family command key args =
      (λ c d. (parse_field_ttl_args args command c.wall, d)) >>= λ ttl. hash_at key >>= λ found.
      elim found [
        | none ↦ pure (Reply.arr (numbers (map (λ _. code_of missing) ttl.fields)))
        | some cur ↦ hexpire_on key ttl (absolute command) cur
      ]

pub data Reading : Type 0 where
  ttl pttl persist expiretime pexpiretime : Reading

abbrev pub reading_name : Reading → Bytes
reading_name ttl = codes "httl"
reading_name pttl = codes "hpttl"
reading_name persist = codes "hpersist"
reading_name expiretime = codes "hexpiretime"
reading_name pexpiretime = codes "hpexpiretime"

-- `-((deadline - now) // -10 ** 6)`, the milliseconds left, rounded up
unfoldable pub ceil_ms : ℤ → ℤ
unfolding floor_div
ceil_ms left = neg (floor_div (neg left) (10 ^ 6))

-- the reply for a live field that has a deadline; HPERSIST takes the deadline away
unfoldable pub reading : Reading → ℤ → ℤ → ℤ
unfolding ceil_ms floor_div
reading ttl deadline now = floor_div (ceil_ms (deadline -ℤ now) +ℤ pos 500) 1000
reading pttl deadline now = ceil_ms (deadline -ℤ now)
reading persist deadline now = pos 1
reading expiretime deadline now = floor_div deadline (10 ^ 9)
reading pexpiretime deadline now = floor_div deadline (10 ^ 6)

abbrev pub persists : Reading → Bool
persists persist = true
persists _ = false

-- one round of the loop of `_hexpire_read`: the reply, whether a deadline was taken away, the hash
unfoldable pub read_deadline :
    Reading → Bytes → ℤ → Dict Bytes Field → (ℤ × Bool) × Dict Bytes Field
unfolding field reading put
read_deadline kind name now cur =
    let (live, seen) = field name now cur in
    elim live [
      | none ↦ ((negsuc 1, false), seen)
      | some raw ↦ elim raw.deadline [
        | none ↦ ((negsuc 0, false), seen)
        | some t ↦
            if persists kind
            then ((reading kind t now, true), put name raw.content none seen)
            else ((reading kind t now, false), seen)
      ]
    ]

unfoldable pub read_deadlines :
    Reading → List Bytes → ℤ → Dict Bytes Field → (List ℤ × Bool) × Dict Bytes Field
unfolding read_deadline
read_deadlines kind [] now cur = (([], false), cur)
read_deadlines kind (name ∷ rest) now cur =
    let ((n, did), seen) = read_deadline kind name now cur in
    let ((more, later), done) = read_deadlines kind rest now seen in
    ((n ∷ more, did || later), done)

module _ {Score : Type 0} where
  -- `_hexpire_read`, for all five commands
  unfoldable pub hexpire_read : Reading → Bytes → List Bytes → Command (Stored Score) Reply
  unfolding parse_fields hash_at read_deadlines update after_write
  hexpire_read kind key args = (λ c d. (parse_fields (reading_name kind) args, d)) >>= λ fields.
      hash_at key >>= λ found. elim found [
        | none ↦ do remove key; pure (Reply.arr (numbers (map (λ _. negsuc 1) fields)))
        | some cur ↦ λ c.
            let ((out, persisted), left) = read_deadlines kind fields c.wall cur in
            (do
              store_hash key left
              (if persisted then modify (after_write key Event.hpersist) else pure tt)
              drop_if_empty key left
              pure (Reply.arr (numbers out)))
              c
      ]

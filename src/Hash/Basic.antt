-- ===== src/Hash/Basic.antt =====
-- commands/hash.py: HSET, HMSET, HSETNX, HGET, HMGET, HEXISTS, HDEL, HLEN, HKEYS, HVALS, HGETALL,
-- HSTRLEN and HINCRBY.
use kagni.Prelude.{
  ℕ, ◌%◌, ℤ, pos, ◌+ℤ◌, Bool, not, ◌||◌, ◌&&◌, bytes_eq, Option, none, some, List, [], ◌∷◌, Bytes,
  ltb, nat_beq, if◌then◌else◌, length, is_empty, is_some,
}
use kagni.Events.{Event}
use kagni.Dict.{Dict, keys}
use kagni.Data
use kagni.Data.{Clock, Data}
use kagni.Text.{codes, int, print_int}
use kagni.Resp.{Error, Reply, Replies}
use kagni.Common.Errors.{err_error, arity, overflow}
use kagni.Common.{
  Field, Stored, hash, kind_hash, Command, Result, ok, err, pure, raise, modify, raise_if, ◌>>=◌,
  ◌>>◌, expect_kind, after_write, notify, update, remove,
}
use kagni.Lists.{bulks}
use kagni.Strings.{is_numeric, fits}
use kagni.Hash.Fields.{put, field, live_pairs, set_pairs, delete_fields, read_fields}

abbrev pub hash_not_int : Error
hash_not_int = err_error (codes "hash value is not an integer")

abbrev pub hash_of : {Score : Type 0} → Option (Stored Score) → Option (Dict Bytes Field)
hash_of (some (hash cur)) = some cur
hash_of _ = none

abbrev pub bulk_or_none : Option Field → Reply
bulk_or_none none = Reply.nil
bulk_or_none (some live) = Reply.bulk live.content

abbrev pub slots : List (Option Field) → Replies
slots [] = Replies.empty
slots (o ∷ rest) = Replies.item (bulk_or_none o) (slots rest)

-- one nil for each field that is asked of a missing key
abbrev pub nils : List Bytes → Replies
nils [] = Replies.empty
nils (name ∷ rest) = Replies.item Reply.nil (nils rest)

abbrev pub contents : Dict Bytes Field → List Bytes
contents [] = []
contents ((name, raw) ∷ rest) = raw.content ∷ contents rest

abbrev pub flattened : Dict Bytes Field → List Bytes
flattened [] = []
flattened ((name, raw) ∷ rest) = name ∷ raw.content ∷ flattened rest

-- `field_values[i], field_values[i + 1]` for the even `i`
unfoldable pub pairs_of : List Bytes → List (Bytes × Bytes)
pairs_of [] = []
pairs_of (name ∷ []) = []
pairs_of (name ∷ value ∷ rest) = (name, value) ∷ pairs_of rest

abbrev pub bad_pairs : List Bytes → Bool
bad_pairs field_values = ltb (length field_values) 2 || nat_beq (length field_values % 2) 1

-- The value that HINCRBY starts from, with the deadline that it keeps. Where `int` refuses more
-- digits than Python converts, the dispatcher answers with an internal error.
unfoldable pub hash_counter : Option Field → Result (ℤ × Option ℤ)
unfolding is_numeric
hash_counter none = ok (pos 0, none)
hash_counter (some live) =
    if not (is_numeric live.content) then err hash_not_int else elim (int live.content) [
      | none ↦ err (err_error (codes "internal error"))
      | some n ↦ ok (n, live.deadline)
    ]

module _ {Score : Type 0} where
  -- `_hash`
  unfoldable pub hash_at : Bytes → Command (Stored Score) (Option (Dict Bytes Field))
  unfolding expect_kind
  hash_at key = expect_kind key kind_hash >>= λ found. pure (hash_of found)

  -- the dict under `key` after it was changed in place
  abbrev pub store_hash : Bytes → Dict Bytes Field → Command (Stored Score) (Unit {0})
  store_hash key cur = modify (update key (hash cur))

  -- `_drop_if_empty`
  abbrev pub drop_if_empty : Bytes → Dict Bytes Field → Command (Stored Score) (Unit {0})
  drop_if_empty key cur = if is_empty cur then (remove key >> pure tt) else pure tt

  -- the hash under `key`, put there if it is missing
  unfoldable pub hash_or_new : Bytes → Command (Stored Score) (Dict Bytes Field)
  unfolding hash_at
  hash_or_new key = hash_at key >>= λ found. elim found [
    | none ↦ modify (Data.set_item key (hash [])) >> pure []
    | some cur ↦ pure cur
  ]

  unfoldable pub set_onto :
      Bytes → List (Bytes × Bytes) → Dict Bytes Field → Command (Stored Score) ℕ
  unfolding set_pairs update after_write
  set_onto key pairs cur c =
      let (n, done) = set_pairs pairs c.wall cur in
      (do store_hash key done; modify (after_write key Event.hset); pure n) c

  -- `_hset_pairs`
  unfoldable pub hset_pairs : Bytes → List (Bytes × Bytes) → Command (Stored Score) ℕ
  unfolding hash_or_new set_onto
  hset_pairs key pairs = hash_or_new key >>= λ cur. set_onto key pairs cur

  unfoldable pub hset : Bytes → List Bytes → Command (Stored Score) Reply
  unfolding hset_pairs pairs_of
  hset key field_values = do
    raise_if (bad_pairs field_values) (arity (codes "hset"))
    n ← hset_pairs key (pairs_of field_values)
    pure (Reply.num (pos n))

  unfoldable pub hmset : Bytes → List Bytes → Command (Stored Score) Reply
  unfolding hset_pairs pairs_of
  hmset key field_values = do
    raise_if (bad_pairs field_values) (arity (codes "hmset"))
    hset_pairs key (pairs_of field_values)
    pure Reply.ok

  -- one field of the hash under `key`, which is purged if it has expired
  unfoldable pub field_at : Bytes → Bytes → Dict Bytes Field → Command (Stored Score) (Option Field)
  unfolding field update
  field_at key name cur c =
      let (live, seen) = field name c.wall cur in (store_hash key seen >> pure live) c

  unfoldable pub hsetnx : Bytes → Bytes → Bytes → Command (Stored Score) Reply
  unfolding hash_at field put update after_write
  hsetnx key name val = hash_at key >>= λ found. elim found [
    | none ↦ do
      modify (Data.set_item key (hash (put name val none [])))
      modify (after_write key Event.hset)
      pure (Reply.num (pos 1))
    | some cur ↦ λ c.
        let (live, seen) = field name c.wall cur in
        (if is_some live then (store_hash key seen >> pure (Reply.num (pos 0))) else do
          store_hash key (put name val none seen)
          modify (after_write key Event.hset)
          pure (Reply.num (pos 1)))
          c
  ]

  unfoldable pub hget : Bytes → Bytes → Command (Stored Score) Reply
  unfolding hash_at field_at
  hget key name = hash_at key >>= λ found. elim found [
    | none ↦ pure Reply.nil
    | some cur ↦ field_at key name cur >>= λ live. pure (bulk_or_none live)
  ]

  unfoldable pub hmget : Bytes → List Bytes → Command (Stored Score) Reply
  unfolding hash_at read_fields update
  hmget key fields = do
    raise_if (is_empty fields) (arity (codes "hmget"))
    found ← hash_at key
    elim found [
      | none ↦ pure (Reply.arr (nils fields))
      | some cur ↦ λ c.
          let (out, seen) = read_fields fields c.wall cur in
          (store_hash key seen >> pure (Reply.arr (slots out))) c
    ]

  unfoldable pub hexists : Bytes → Bytes → Command (Stored Score) Reply
  unfolding hash_at field_at
  hexists key name = hash_at key >>= λ found. elim found [
    | none ↦ pure (Reply.num (pos 0))
    | some cur ↦
        field_at key name cur >>= λ live. pure (Reply.num (if is_some live then pos 1 else pos 0))
  ]

  unfoldable pub hdel_from : Bytes → List Bytes → Dict Bytes Field → Command (Stored Score) Reply
  unfolding delete_fields update after_write notify
  hdel_from key fields cur c =
      let (removed, left) = delete_fields fields c.wall cur in
      let some_removed = ltb 0 removed in
      (do
        store_hash key left
        (if some_removed then modify (after_write key Event.hdel) else pure tt)
        drop_if_empty key left
        (if is_empty left && some_removed then modify (notify key Event.del) else pure tt)
        pure (Reply.num (pos removed)))
        c

  unfoldable pub hdel : Bytes → List Bytes → Command (Stored Score) Reply
  unfolding hash_at hdel_from
  hdel key fields = do
    raise_if (is_empty fields) (arity (codes "hdel"))
    found ← hash_at key
    elim found [ none ↦ pure (Reply.num (pos 0)) | some cur ↦ hdel_from key fields cur ]

  -- the commands that purge the hash, drop it if nothing is left, and answer from its live fields
  unfoldable pub from_live :
      Bytes → Reply → (Dict Bytes Field → Reply) → Command (Stored Score) Reply
  unfolding hash_at live_pairs update
  from_live key missing answer = hash_at key >>= λ found. elim found [
    | none ↦ pure missing
    | some cur ↦ λ c.
        let pairs = live_pairs c.wall cur in
        (do store_hash key pairs; drop_if_empty key pairs; pure (answer pairs)) c
  ]

  unfoldable pub hlen : Bytes → Command (Stored Score) Reply
  unfolding from_live
  hlen key = from_live key (Reply.num (pos 0)) (λ pairs. Reply.num (pos (length pairs)))

  unfoldable pub hkeys : Bytes → Command (Stored Score) Reply
  unfolding from_live bulks keys
  hkeys key = from_live key (Reply.arr Replies.empty) (λ pairs. Reply.arr (bulks (keys pairs)))

  unfoldable pub hvals : Bytes → Command (Stored Score) Reply
  unfolding from_live bulks
  hvals key = from_live key (Reply.arr Replies.empty) (λ pairs. Reply.arr (bulks (contents pairs)))

  unfoldable pub hgetall : Bytes → Command (Stored Score) Reply
  unfolding from_live bulks
  hgetall key =
      from_live key (Reply.arr Replies.empty) (λ pairs. Reply.arr (bulks (flattened pairs)))

  unfoldable pub hstrlen : Bytes → Bytes → Command (Stored Score) Reply
  unfolding hash_at field_at
  hstrlen key name = hash_at key >>= λ found. elim found [
    | none ↦ pure (Reply.num (pos 0))
    | some cur ↦ field_at key name cur >>= λ live.
        pure (Reply.num (elim live [ none ↦ pos 0 | some raw ↦ pos (length raw.content) ]))
  ]

  -- HINCRBY on the hash `cur`; what it has purged stays purged when it raises.
  unfoldable pub hincrby_on : Bytes → Bytes → ℤ → Dict Bytes Field → Command (Stored Score) Reply
  unfolding field hash_counter put update after_write
  hincrby_on key name increment cur c =
      let (live, seen) = field name c.wall cur in
      (do
        store_hash key seen
        (λ c d. (hash_counter live, d)) >>= λ (current, deadline).
            let result = current +ℤ increment in
            if not (fits result) then raise overflow else do
              store_hash key (put name (print_int result) deadline seen)
              modify (after_write key Event.hincrby)
              pure (Reply.num result))
        c

  unfoldable pub hincrby : Bytes → Bytes → ℤ → Command (Stored Score) Reply
  unfolding hash_or_new hincrby_on
  hincrby key name increment = hash_or_new key >>= λ cur. hincrby_on key name increment cur

-- ===== src/Hash/Compact.antt =====
-- commands/hash.py: no empty hash is left behind.
use kagni.Prelude.{
  ℕ, ltb, pos, Bool, true, false, ◌&&◌, none, some, List, [], ◌∷◌, Bytes, bytes_eq, if◌then◌else◌,
  is_empty, is_some, ◌≡◌, refl, length,
}
use kagni.Text.{codes}
use kagni.Events.{Event}
use kagni.Dict.{Dict, keys}
use kagni.Data
use kagni.Data.{Clock, Entry, Data}
use kagni.Resp.{Reply, Replies}
use kagni.Common.Errors.{arity}
use kagni.Common.{
  Field, Stored, hash, pure, modify, raise_if, ◌>>=◌, ◌>>◌, after_write, notify, update,
}
use kagni.Common.Keeps.{Keeps, Keeps-bind, Keeps-pure, Keeps-raise_if}
use kagni.Common.NonEmpty.{
  all_collections, IsCompact, after_write-IsCompact, notify-IsCompact, set_item-IsCompact,
}
use kagni.Hash.Fields.{put, field, set_pairs, delete_fields, live_pairs}
use kagni.Hash.Basic.{
  hash_at, store_hash, drop_if_empty, set_onto, hset_pairs, hset, hmset, hsetnx, hdel, hdel_from,
  from_live, hlen, hkeys, hvals, hgetall, pairs_of, bad_pairs, contents, flattened,
}
use kagni.Hash.NonEmpty.{
  put-filled, set_pairs-cons_filled, filled_hash, hash_or_new-IsCompact, store_new, store_filled,
  store_or_drop, field-filled, found-IsCompact,
}
use kagni.Hash.Calls.{
  HashCommand, hset_command, hmset_command, hmget_command, hdel_command, hsetnx_command,
  hget_command, hexists_command, hstrlen_command, hlen_command, hkeys_command, hvals_command,
  hgetall_command, hincrby_command, hexpire_command, hexpire_read_command, run_hash, drops_empty,
}
use kagni.Hash.Counters.{hincrby-IsCompact, hexpire-IsCompact, hexpire_read-IsCompact}
use kagni.Lists.{bulks}

module _ {Score : Type 0} where
  written :
      (key : Bytes) (ev : Event)
      → Keeps {V = Stored Score} (IsCompact all_collections) (modify (after_write key ev))
  written key ev = record { at = λ c d h. after_write-IsCompact key ev d h }

  set_onto-IsCompact :
      (key : Bytes) (p : Bytes × Bytes) (rest : List (Bytes × Bytes)) (cur : Dict Bytes Field)
      → Keeps {V = Stored Score} (IsCompact all_collections) (set_onto key (p ∷ rest) cur)
  unfolding set_onto
  set_onto-IsCompact key p rest cur = record {
    at = λ c d h.
        let done = (set_pairs (p ∷ rest) c.wall cur).1 in
        after_write-IsCompact key Event.hset (update key (hash done) d)
          ((store_filled key done (set_pairs-cons_filled p rest c.wall cur)).at c d h);
  }

  set_new-IsCompact :
      (key : Bytes) (p : Bytes × Bytes) (rest : List (Bytes × Bytes))
      → Keeps {V = Stored Score}
          (IsCompact all_collections)
          (modify (Data.set_item key (hash [])) >> set_onto key (p ∷ rest) [])
  unfolding set_onto
  set_new-IsCompact key p rest = record {
    at = λ c d h.
        let done = (set_pairs (p ∷ rest) c.wall []).1 in
        after_write-IsCompact key Event.hset
          (update key (hash done) (Data.set_item key (hash []) d))
          ((store_new key done (set_pairs-cons_filled p rest c.wall [])).at c d h);
  }

  hset_pairs-IsCompact :
      (key : Bytes) (p : Bytes × Bytes) (rest : List (Bytes × Bytes))
      → Keeps {V = Stored Score} (IsCompact all_collections) (hset_pairs key (p ∷ rest))
  unfolding hset_pairs
  hset_pairs-IsCompact key p rest =
      hash_or_new-IsCompact key (set_onto key (p ∷ rest)) (set_new-IsCompact key p rest)
        (set_onto-IsCompact key p rest)

  -- HSET and HMSET, which go on only if there is a pair
  paired-IsCompact :
      (key name : Bytes) (field_values : List Bytes) (k : ℕ → Reply)
      → Keeps {V = Stored Score} (IsCompact all_collections) (do
        raise_if (bad_pairs field_values) (arity name)
        n ← hset_pairs key (pairs_of field_values)
        pure (k n))
  unfolding pairs_of
  paired-IsCompact key name [] k = record { at = λ c d h. h }
  paired-IsCompact key name (x ∷ []) k = record { at = λ c d h. h }
  paired-IsCompact key name (x ∷ y ∷ rest) k =
      Keeps-bind (raise_if (bad_pairs (x ∷ y ∷ rest)) (arity name))
        (λ _. hset_pairs key (pairs_of (x ∷ y ∷ rest)) >>= λ n. pure (k n))
        (Keeps-raise_if (bad_pairs (x ∷ y ∷ rest)) (arity name))
        (λ _.
          Keeps-bind (hset_pairs key (pairs_of (x ∷ y ∷ rest))) (λ n. pure (k n))
            (hset_pairs-IsCompact key (x, y) (pairs_of rest)) (λ n. Keeps-pure (k n)))

  setnx_old :
      (key : Bytes) (there : Bool) (seen new : Dict Bytes Field)
      → is_empty new ≡ false
      → (there ≡ true → is_empty seen ≡ false)
      → Keeps {V = Stored Score} (IsCompact all_collections) (
          if there
          then (store_hash key seen >> pure (Reply.num (pos 0)))
          else do store_hash key new; modify (after_write key Event.hset); pure (Reply.num (pos 1)))
  setnx_old key true seen new full live =
      Keeps-bind (store_hash key seen) (λ _. pure (Reply.num (pos 0)))
        (store_filled key seen (live refl)) (λ _. Keeps-pure (Reply.num (pos 0)))
  setnx_old key false seen new full live =
      Keeps-bind (store_hash key new)
        (λ _. modify (after_write key Event.hset) >> pure (Reply.num (pos 1)))
        (store_filled key new full)
        (λ _.
          Keeps-bind (modify (after_write key Event.hset)) (λ _. pure (Reply.num (pos 1)))
            (written key Event.hset) (λ _. Keeps-pure (Reply.num (pos 1))))

  hsetnx-IsCompact :
      (key name val : Bytes)
      → Keeps {V = Stored Score} (IsCompact all_collections) (hsetnx key name val)
  unfolding hsetnx
  hsetnx-IsCompact key name val =
      found-IsCompact key
        (do
          modify (Data.set_item key (hash (put name val none [])))
          modify (after_write key Event.hset)
          pure (Reply.num (pos 1)))
        (λ cur c.
          let (live, seen) = field name c.wall cur in
          (if is_some live then (store_hash key seen >> pure (Reply.num (pos 0))) else do
            store_hash key (put name val none seen)
            modify (after_write key Event.hset)
            pure (Reply.num (pos 1)))
            c)
        fresh
        (λ cur. record {
          at = λ c d h.
              let (live, seen) = field name c.wall cur in
              (setnx_old key (is_some live) seen (put name val none seen)
                  (put-filled name val none seen) (field-filled name c.wall cur)).at
                c d h;
        })
    where
      fresh : Keeps {V = Stored Score} (IsCompact all_collections) (do
        modify (Data.set_item key (hash (put name val none [])))
        modify (after_write key Event.hset)
        pure (Reply.num (pos 1)))
      fresh = record {
        at = λ c d h.
            let new : Stored Score = hash (put name val none []) in
            after_write-IsCompact key Event.hset (Data.set_item key new d) (
              set_item-IsCompact d key new
                (filled_hash Score (put name val none []) (put-filled name val none [])) h);
      }

  deleted :
      (key : Bytes) (some_removed : Bool) (n : ℕ) (left : Dict Bytes Field)
      → Keeps {V = Stored Score} (IsCompact all_collections) (do
        store_hash key left
        (if some_removed then modify (after_write key Event.hdel) else pure tt)
        drop_if_empty key left
        (if is_empty left && some_removed then modify (notify key Event.del) else pure tt)
        pure (Reply.num (pos n)))
  unfolding after_write notify Data.touch
  deleted key true n [] = record {
    at = λ c d h.
        let (_, d') =
          (do store_hash key []; modify (after_write key Event.hdel); drop_if_empty key []) c d in
        notify-IsCompact key Event.del d'
          ((store_or_drop key [] (after_write key Event.hdel) (λ _. refl)).at c d h);
  }
  deleted key true n (x ∷ left) = record {
    at = λ c d h. (store_or_drop key (x ∷ left) (after_write key Event.hdel) (λ _. refl)).at c d h;
  }
  deleted key false n [] = record {
    at = λ c d h. (store_or_drop key [] (λ d. d) (λ _. refl)).at c d h;
  }
  deleted key false n (x ∷ left) = record {
    at = λ c d h. (store_or_drop key (x ∷ left) (λ d. d) (λ _. refl)).at c d h;
  }

  hdel-IsCompact :
      (key : Bytes) (fields : List Bytes)
      → Keeps {V = Stored Score} (IsCompact all_collections) (hdel key fields)
  unfolding hdel hdel_from
  hdel-IsCompact key fields =
      Keeps-bind (raise_if (is_empty fields) (arity (codes "hdel")))
        (λ _. hash_at key >>= λ found. elim found [
          | none ↦ pure (Reply.num (pos 0))
          | some cur ↦ hdel_from key fields cur
        ])
        (Keeps-raise_if (is_empty fields) (arity (codes "hdel")))
        (λ _.
          found-IsCompact key (pure (Reply.num (pos 0))) (hdel_from key fields)
            (Keeps-pure (Reply.num (pos 0)))
            (λ cur. record {
              at = λ c d h.
                  let (removed, left) = delete_fields fields c.wall cur in
                  (deleted key (ltb 0 removed) removed left).at c d h;
            }))

  listed :
      {A : Type 0} (key : Bytes) (pairs : Dict Bytes Field) (a : A)
      → Keeps {V = Stored Score}
          (IsCompact all_collections)
          (do store_hash key pairs; drop_if_empty key pairs; pure a)
  listed key [] a = record { at = λ c d h. (store_or_drop key [] (λ d. d) (λ _. refl)).at c d h }
  listed key (x ∷ pairs) a = record {
    at = λ c d h. (store_or_drop key (x ∷ pairs) (λ d. d) (λ _. refl)).at c d h;
  }

  from_live-IsCompact :
      (key : Bytes) (gone : Reply) (answer : Dict Bytes Field → Reply)
      → Keeps {V = Stored Score} (IsCompact all_collections) (from_live key gone answer)
  unfolding from_live
  from_live-IsCompact key gone answer =
      found-IsCompact key (pure gone)
        (λ cur c.
          let pairs = live_pairs c.wall cur in
          (do store_hash key pairs; drop_if_empty key pairs; pure (answer pairs)) c)
        (Keeps-pure gone)
        (λ cur. record {
          at = λ c d h.
              let pairs = live_pairs c.wall cur in (listed key pairs (answer pairs)).at c d h;
        })

  -- No hash command but HGET, HMGET, HEXISTS and HSTRLEN leaves an empty hash in the store, or any
  -- other empty collection, if there was none before, whether it returns or raises. HINCRBY is
  -- given an increment of 64 bits.
  pub run_hash-IsCompact :
      (call : HashCommand)
      → drops_empty call ≡ true
      → (c : Clock) (d : Data (Stored Score)) → IsCompact all_collections d
      → IsCompact all_collections (run_hash call c d).1
  unfolding run_hash hset hmset hlen hkeys hvals hgetall
  run_hash-IsCompact (hset_command key fvs) drops c d h =
      (paired-IsCompact key (codes "hset") fvs (λ n. Reply.num (pos n))).at c d h
  run_hash-IsCompact (hmset_command key fvs) drops c d h =
      (paired-IsCompact key (codes "hmset") fvs (λ n. Reply.ok)).at c d h
  run_hash-IsCompact (hmget_command key fields) drops c d h = absurd (cc)
  run_hash-IsCompact (hdel_command key fields) drops c d h = (hdel-IsCompact key fields).at c d h
  run_hash-IsCompact (hsetnx_command key name val) drops c d h =
      (hsetnx-IsCompact key name val).at c d h
  run_hash-IsCompact (hget_command key name) drops c d h = absurd (cc)
  run_hash-IsCompact (hexists_command key name) drops c d h = absurd (cc)
  run_hash-IsCompact (hstrlen_command key name) drops c d h = absurd (cc)
  run_hash-IsCompact (hlen_command key) drops c d h =
      (from_live-IsCompact key (Reply.num (pos 0)) (λ pairs. Reply.num (pos (length pairs)))).at c d
        h
  run_hash-IsCompact (hkeys_command key) drops c d h =
      (from_live-IsCompact key (Reply.arr Replies.empty)
          (λ pairs. Reply.arr (bulks (keys pairs)))).at
        c d h
  run_hash-IsCompact (hvals_command key) drops c d h =
      (from_live-IsCompact key (Reply.arr Replies.empty)
          (λ pairs. Reply.arr (bulks (contents pairs)))).at
        c d h
  run_hash-IsCompact (hgetall_command key) drops c d h =
      (from_live-IsCompact key (Reply.arr Replies.empty)
          (λ pairs. Reply.arr (bulks (flattened pairs)))).at
        c d h
  run_hash-IsCompact (hincrby_command key name increment) drops c d h =
      (hincrby-IsCompact key name increment drops).at c d h
  run_hash-IsCompact (hexpire_command command key args) drops c d h =
      (hexpire-IsCompact command key args).at c d h
  run_hash-IsCompact (hexpire_read_command kind key args) drops c d h =
      (hexpire_read-IsCompact kind key args).at c d h

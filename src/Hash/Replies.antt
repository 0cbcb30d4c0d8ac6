-- ===== src/Hash/Replies.antt =====
-- commands/hash.py: what HGET and HLEN answer after HSET, and after an expired field was read.
use kagni.Prelude.{
  ℕ, ◌+◌, ℤ, pos, true, false, Option, none, some, List, [], ◌∷◌, Bytes, bytes_eq, bytes_beq_refl,
  length, ◌≡◌, refl, ap, ◌∙◌, arith,
}
use kagni.Text.{codes}
use kagni.Dict.{Dict, lookup, erase, HasDistinctKeys}
use kagni.Data
use kagni.Data.{Clock, Data}
use kagni.Resp.{Reply}
use kagni.Common.Errors.{arity}
use kagni.Common.{Field, Stored, hash, Result, ok, err, pure, raise_if, ◌>>=◌, ◌>>◌, update}
use kagni.Common.Reads.{get_item-update}
use kagni.Hash.Fields.{expired, field, set_pairs, live_pairs}
use kagni.Hash.Basic.{
  store_hash, drop_if_empty, hset, hset_pairs, pairs_of, bad_pairs, hget, field_at, bulk_or_none,
  hlen, from_live,
}
use kagni.Hash.View.{view, assigned, field-view, set_pairs-view}
use kagni.Hash.Count.{live_count, set_pairs-count, set_pairs-HasDistinctKeys}
use kagni.Hash.Purge.{length-live_pairs}
use kagni.Hash.Effects.{hash_or_none, hash_at-stored, hset_pairs-Sets}

alone-expired :
    (name : Bytes) (raw : Field) (now : ℤ)
    → expired now raw ≡ true
    → field name now ((name, raw) ∷ []) ≡ (none, [])
unfolding field lookup erase
alone-expired name raw now dead = ground (arith, dead, bytes_beq_refl name)

module _ {Score : Type 0} where
  hget-stored :
      (key j : Bytes) (c : Clock) (d : Data (Stored Score)) (cur : Dict Bytes Field)
      → Data.get_item key c d ≡ some (hash cur)
      → (hget key j c d).0 ≡ ok (bulk_or_none (view j c.wall cur))
  unfolding hget field_at
  hget-stored key j c d cur h =
      ap
        (λ (p : Result (Option (Dict Bytes Field)) × Data (Stored Score)).
          (((λ _ _. p) >>= λ found. elim found [
            | none ↦ pure Reply.nil
            | some cur ↦ field_at key j cur >>= λ live. pure (bulk_or_none live)
          ])
            c d).0)
        (hash_at-stored key c d cur h)
      ∙ ap (λ o. ok (bulk_or_none o)) (field-view j c.wall cur)

  abbrev replied : Result ℕ × Data (Stored Score) → Result Reply × Data (Stored Score)
  replied (r, d) = (elim r [ ok n ↦ ok (Reply.num (pos n)) | err e ↦ err e ], d)

  replied-hset :
      (key : Bytes) (fvs : List Bytes) (c : Clock) (d : Data (Stored Score))
      → bad_pairs fvs ≡ false
      → hset key fvs c d ≡ replied (hset_pairs key (pairs_of fvs) c d)
  unfolding hset
  replied-hset key fvs c d good =
      ap
        (λ b.
          (do
            raise_if b (arity (codes "hset"))
            n ← hset_pairs key (pairs_of fvs)
            pure (Reply.num (pos n)))
            c d)
        good
      ∙ same (hset_pairs key (pairs_of fvs) c d)
    where
      same :
          (p : Result ℕ × Data (Stored Score))
          → ((λ _ _. p) >>= λ n. pure (Reply.num (pos n))) c d ≡ replied p
      same (ok n, d') = refl
      same (err e, d') = refl

  -- After HSET of field-value pairs on a key that is missing or holds a hash, HGET of a field
  -- answers with the last value that the pairs give it; for a field that is not among them it
  -- answers as it would have before, with nil if the field is missing or has expired.
  pub hget-hset :
      (key j : Bytes) (fvs : List Bytes) (c : Clock) (d : Data (Stored Score))
      (cur : Dict Bytes Field)
      → bad_pairs fvs ≡ false
      → hash_or_none (Data.get_item key c d) ≡ some cur
      → (hget key j c (hset key fvs c d).1).0
        ≡ ok (bulk_or_none (assigned (pairs_of fvs) j (view j c.wall cur)))
  hget-hset key j fvs c d cur good there =
      let (_, after) =
        hset_pairs-Sets key (pairs_of fvs) cur c d (Data.get_item key c d) refl there in
      ap (λ (p : Result Reply × Data (Stored Score)). (hget key j c p.1).0)
        (replied-hset key fvs c d good)
      ∙ hget-stored key j c (hset_pairs key (pairs_of fvs) c d).1
          (set_pairs (pairs_of fvs) c.wall cur).1 after
      ∙ ap (λ o. ok (bulk_or_none o)) (set_pairs-view (pairs_of fvs) j c.wall cur)

  hlen-stored :
      (key : Bytes) (c : Clock) (d : Data (Stored Score)) (cur : Dict Bytes Field)
      → Data.get_item key c d ≡ some (hash cur)
      → HasDistinctKeys cur
      → (hlen key c d).0 ≡ ok (Reply.num (pos (live_count c.wall cur)))
  unfolding hlen from_live
  hlen-stored key c d cur h distinct =
      ap
        (λ (p : Result (Option (Dict Bytes Field)) × Data (Stored Score)).
          (((λ _ _. p) >>= λ found. elim found [
            | none ↦ pure (Reply.num (pos 0))
            | some cur ↦ λ c.
                let pairs = live_pairs c.wall cur in
                (do
                  store_hash key pairs
                  drop_if_empty key pairs
                  pure (Reply.num (pos (length pairs))))
                  c
          ])
            c d).0)
        (hash_at-stored key c d cur h)
      ∙ dropped (live_pairs c.wall cur)
      ∙ ap (λ n. ok (Reply.num (pos n))) (length-live_pairs c.wall cur distinct)
    where
      dropped :
          (pairs : Dict Bytes Field)
          → ((do
            store_hash key pairs
            drop_if_empty key pairs
            pure (Reply.num (pos (length pairs))))
              c d).0
            ≡ ok (Reply.num (pos (length pairs)))
      dropped [] = refl
      dropped (x ∷ pairs) = refl

  -- HSET on a key that is missing, or holds a hash with distinct fields, answers with a number `n`
  -- of new fields: HLEN answers after it with `n` more than the number of live fields before it.
  pub hlen-hset :
      (key : Bytes) (fvs : List Bytes) (c : Clock) (d : Data (Stored Score))
      (cur : Dict Bytes Field)
      → bad_pairs fvs ≡ false
      → hash_or_none (Data.get_item key c d) ≡ some cur
      → HasDistinctKeys cur
      → (n : ℕ) × ((hset key fvs c d).0 ≡ ok (Reply.num (pos n)))
        × ((hlen key c (hset key fvs c d).1).0 ≡ ok (Reply.num (pos (n + live_count c.wall cur))))
  hlen-hset key fvs c d cur good there distinct =
      let pairs = pairs_of fvs in
      let (counted, after) = hset_pairs-Sets key pairs cur c d (Data.get_item key c d) refl there in
      let run = replied-hset key fvs c d good in
      (
        (set_pairs pairs c.wall cur).0,
        ap (λ (p : Result Reply × Data (Stored Score)). p.0) run
            ∙ ap (λ r. (replied (r, d)).0) counted,
        ap (λ (p : Result Reply × Data (Stored Score)). (hlen key c p.1).0) run
            ∙ hlen-stored key c (hset_pairs key pairs c d).1 (set_pairs pairs c.wall cur).1 after
                (set_pairs-HasDistinctKeys pairs c.wall cur distinct)
            ∙ ap (λ n. ok (Reply.num (pos n))) (set_pairs-count pairs c.wall cur distinct),
      )

  -- HGET of the only field of a hash, when that field has expired, answers with nil and leaves an
  -- empty hash under the key: the key does not disappear with its last field.
  pub hget-leaves_empty :
      (key name : Bytes) (raw : Field) (c : Clock) (d : Data (Stored Score))
      → Data.get_item key c d ≡ some (hash ((name, raw) ∷ []))
      → expired c.wall raw ≡ true
      → ((hget key name c d).0 ≡ ok Reply.nil)
        × (Data.get_item key c (hget key name c d).1 ≡ some (hash []))
  unfolding hget field_at
  hget-leaves_empty key name raw c d h dead =
      let run : (hget key name c d) ≡ (ok Reply.nil, update key (hash []) d) =
        ap
          (λ (p : Result (Option (Dict Bytes Field)) × Data (Stored Score)).
            ((λ _ _. p) >>= λ found. elim found [
              | none ↦ pure Reply.nil
              | some cur ↦ field_at key name cur >>= λ live. pure (bulk_or_none live)
            ])
              c d)
          (hash_at-stored key c d ((name, raw) ∷ []) h)
        ∙ ap
            (λ (p : Option Field × Dict Bytes Field).
              (ok (bulk_or_none p.0), update key (hash p.1) d))
            (alone-expired name raw c.wall dead) in
      (
        ap (λ (p : Result Reply × Data (Stored Score)). p.0) run,
        ap (λ (p : Result Reply × Data (Stored Score)). Data.get_item key c p.1) run
            ∙ get_item-update key (hash []) (hash ((name, raw) ∷ [])) c d h,
      )

-- ===== src/Hash/NonEmpty.antt =====
-- commands/hash.py: "a hash whose last field expires or is deleted disappears", in the steps of the
-- commands.
use kagni.Prelude.{
  ℤ, true, false, Option, none, some, List, [], ◌∷◌, Bytes, bytes_eq, is_empty, is_some, ◌≡◌, refl,
  arith, Bool-cases, Option-cases, inl, inr,
}
use kagni.Dict.{Dict, lookup, insert, lookup-insert}
use kagni.Data
use kagni.Data.{Clock, Data}
use kagni.Common.{
  Field, Stored, hash, Command, Result, ok, err, pure, modify, ◌>>=◌, ◌>>◌, update, kind_hash,
  expect_kind,
}
use kagni.Common.Keeps.{Keeps, Keeps-bind, Keeps-pure}
use kagni.Common.NonEmpty.{
  all_collections, has_elements, IsCompact, expect_kind-IsCompact, remove-drops, update-IsCompact,
  set_item-fills, lookup-remove, update-fills, lookup-update, same_storage,
}
use kagni.Hash.Fields.{expired, put, field, set_pairs}
use kagni.Hash.Basic.{hash_at, hash_of, hash_or_new, store_hash, drop_if_empty}

insert-filled :
    (name : Bytes) (raw : Field) (cur : Dict Bytes Field) → is_empty (insert name raw cur) ≡ false
unfolding insert
insert-filled name raw [] = refl
insert-filled name raw ((k, old) ∷ rest) = ground arith

pub put-filled :
    (name value : Bytes) (t : Option ℤ) (cur : Dict Bytes Field)
    → is_empty (put name value t cur) ≡ false
unfolding put
put-filled name value t cur = insert-filled name (record { content = value; deadline = t }) cur

set_pairs-filled :
    (pairs : List (Bytes × Bytes)) (now : ℤ) (cur : Dict Bytes Field)
    → is_empty cur ≡ false
    → is_empty (set_pairs pairs now cur).1 ≡ false
unfolding set_pairs
set_pairs-filled [] now cur h = h
set_pairs-filled ((name, value) ∷ rest) now cur h =
    let seen = (field name now cur).1 in
    set_pairs-filled rest now (put name value none seen) (put-filled name value none seen)

pub set_pairs-cons_filled :
    (p : Bytes × Bytes) (rest : List (Bytes × Bytes)) (now : ℤ) (cur : Dict Bytes Field)
    → is_empty (set_pairs (p ∷ rest) now cur).1 ≡ false
unfolding set_pairs
set_pairs-cons_filled (name, value) rest now cur =
    let seen = (field name now cur).1 in
    set_pairs-filled rest now (put name value none seen) (put-filled name value none seen)

-- A hash in which a live field was found has a field.
pub field-filled :
    (name : Bytes) (now : ℤ) (cur : Dict Bytes Field)
    → is_some (field name now cur).0 ≡ true
    → is_empty (field name now cur).1 ≡ false
unfolding field lookup
field-filled name now [] h = absurd (ground (arith, h))
field-filled name now (x ∷ cur) h = elim (Option-cases (lookup name (x ∷ cur))) [
  | inl missing ↦ ground (arith, missing, h)
  | inr (raw, there) ↦ elim (Bool-cases (expired now raw)) [
    | inl dead ↦ ground (arith, there, dead, h)
    | inr alive ↦ ground (arith, there, alive)
  ]
]

pub filled_hash :
    (Score : Type 0) (cur : Dict Bytes Field)
    → is_empty cur ≡ false
    → has_elements {Score = Score} all_collections (hash cur) ≡ true
filled_hash Score [] p = absurd (ground (arith, p))
filled_hash Score (x ∷ cur) p = refl

module _ {Score : Type 0} where
  pub hash_at-IsCompact :
      (key : Bytes) → Keeps (IsCompact all_collections) (hash_at {Score = Score} key)
  unfolding hash_at
  hash_at-IsCompact key =
      Keeps-bind (expect_kind key kind_hash) (λ found. pure (hash_of found))
        (expect_kind-IsCompact key kind_hash) (λ a. Keeps-pure (hash_of a))

  -- What the commands do that write into the hash under a key, or into a new one.
  pub hash_or_new-IsCompact :
      {A : Type 0} (key : Bytes) (k : Dict Bytes Field → Command (Stored Score) A)
      → Keeps (IsCompact all_collections) (modify (Data.set_item key (hash [])) >> k [])
      → ((cur : Dict Bytes Field) → Keeps (IsCompact all_collections) (k cur))
      → Keeps (IsCompact all_collections) (hash_or_new key >>= k)
  unfolding hash_or_new
  hash_or_new-IsCompact {A} key k fresh old = record {
    at = λ c d h. let (r, d') = hash_at key c d in go r c d' ((hash_at-IsCompact key).at c d h);
  }
    where
      go :
          (r : Result (Option (Dict Bytes Field))) (c : Clock) (d : Data (Stored Score))
          → IsCompact all_collections d
          → IsCompact all_collections
              ((((λ _ _. (r, d)) >>= λ found. elim found [
                | none ↦ modify (Data.set_item key (hash [])) >> pure []
                | some cur ↦ pure cur
              ])
                  >>= k)
                c d).1
      go (err e) c d h = h
      go (ok none) c d h = fresh.at c d h
      go (ok (some cur)) c d h = (old cur).at c d h

  -- a hash that is stored with a field in it
  pub store_new :
      (key : Bytes) (cur : Dict Bytes Field)
      → is_empty cur ≡ false
      → Keeps {V = Stored Score}
          (IsCompact all_collections)
          (modify (Data.set_item key (hash [])) >> store_hash key cur)
  store_new key cur full = record {
    at = λ c d h. set_item-fills d key (hash cur) (hash []) (filled_hash Score cur full) h;
  }

  pub store_filled :
      (key : Bytes) (cur : Dict Bytes Field)
      → is_empty cur ≡ false
      → Keeps {V = Stored Score} (IsCompact all_collections) (store_hash key cur)
  store_filled key cur full = record {
    at = λ c d h. update-IsCompact d key (hash cur) (filled_hash Score cur full) h;
  }

  -- what was stored meanwhile under the key does not matter
  pub store_again :
      (key : Bytes) (old cur : Dict Bytes Field)
      → is_empty cur ≡ false
      → Keeps {V = Stored Score}
          (IsCompact all_collections)
          (store_hash key old >> store_hash key cur)
  store_again key old cur full = record {
    at = λ c d h.
        update-fills (update key (hash old) d) key (hash cur) (filled_hash Score cur full) (record {
          at_other = λ j e other p.
              ground (arith, p, lookup-update key j (hash old) d other, h.at_key j e);
        });
  }

  pub store_over_new :
      (key : Bytes) (old cur : Dict Bytes Field)
      → is_empty cur ≡ false
      → Keeps {V = Stored Score}
          (IsCompact all_collections)
          (do modify (Data.set_item key (hash [])); store_hash key old; store_hash key cur)
  unfolding Data.set_item
  store_over_new key old cur full = record {
    at = λ c d h.
        let d' = Data.set_item key (hash []) d in
        let empty : Stored Score = hash [] in
        update-fills (update key (hash old) d') key (hash cur) (filled_hash Score cur full)
          (record {
            at_other = λ j e other p. ground (
              arith,
              other,
              p,
              lookup-update key j (hash old) d' other,
              lookup-insert key j (record { value = empty; expires_at = none }) d.storage,
              h.at_key j e,
            );
          });
  }

  -- A hash that is stored, written about or not, and dropped if it is empty.
  pub store_or_drop :
      (key : Bytes) (cur : Dict Bytes Field) (f : Data (Stored Score) → Data (Stored Score))
      → ((d : Data (Stored Score)) → (f d).storage ≡ d.storage)
      → Keeps (IsCompact all_collections) (do store_hash key cur; modify f; drop_if_empty key cur)
  store_or_drop key [] f same = record {
    at = λ c d h. dropped (f (update key (hash []) d)) c d (same (update key (hash []) d)) h;
  }
    where
      dropped :
          (d' : Data (Stored Score)) (c : Clock) (d : Data (Stored Score))
          → d'.storage ≡ (update key (hash []) d).storage
          → IsCompact all_collections d
          → IsCompact all_collections (Data.remove key c d').1
      dropped d' c d e h = record {
        at_key = λ j x p. (remove-drops key (hash []) c d h).at_key j x (
            ground (
              arith,
              p,
              e,
              lookup-remove key j c d',
              lookup-remove key j c (update key (hash []) d),
            ));
      }
  store_or_drop key (x ∷ cur) f same = record {
    at = λ c d h.
        same_storage (update key (hash (x ∷ cur)) d) (f (update key (hash (x ∷ cur)) d))
          (same (update key (hash (x ∷ cur)) d)) (update-IsCompact d key (hash (x ∷ cur)) refl h);
  }

  -- a command that looks up the hash and answers at once if there is none
  pub found-IsCompact :
      {A : Type 0} (key : Bytes) (gone : Command (Stored Score) A)
      (k : Dict Bytes Field → Command (Stored Score) A)
      → Keeps (IsCompact all_collections) gone
      → ((cur : Dict Bytes Field) → Keeps (IsCompact all_collections) (k cur))
      → Keeps
          (IsCompact all_collections)
          (hash_at key >>= λ found. elim found [ none ↦ gone | some cur ↦ k cur ])
  found-IsCompact {A} key gone k kept old =
      Keeps-bind (hash_at key) (λ found. elim found [ none ↦ gone | some cur ↦ k cur ])
        (hash_at-IsCompact key) each
    where
      each :
          (found : Option (Dict Bytes Field))
          → Keeps
              (IsCompact all_collections)
              (elim found as (λ _. Command (Stored Score) A) [ none ↦ gone | some cur ↦ k cur ])
      each none = kept
      each (some cur) = old cur

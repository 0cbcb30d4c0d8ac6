-- ===== src/Hash/Counters.antt =====
-- commands/hash.py: HINCRBY and the HEXPIRE and HTTL families leave no empty hash behind.
use kagni.Prelude.{
  ℤ, pos, ◌+ℤ◌, Bool, true, false, not, ◌&&◌, Option, none, some, List, [], ◌∷◌, Bytes, bytes_eq,
  if◌then◌else◌, is_empty, is_some, map, ◌≡◌, refl, ap, ◌∙◌, arith, negsuc,
}
use kagni.Text.{print_int}
use kagni.Events.{Event}
use kagni.Dict.{Dict, lookup}
use kagni.Data
use kagni.Data.{Data}
use kagni.Resp.{Reply}
use kagni.Common.Errors.{overflow}
use kagni.Common.{
  Field, Stored, hash, Command, pure, raise, modify, ◌>>=◌, ◌>>◌, after_write, notify, update,
  remove,
}
use kagni.Common.Keeps.{Keeps, Keeps-bind, Keeps-pure, Keeps-lift, Keeps-raise}
use kagni.Common.NonEmpty.{all_collections, IsCompact, after_write-IsCompact, remove-IsCompact}
use kagni.Strings.{fits}
use kagni.Hash.Fields.{put, field}
use kagni.Hash.Basic.{hash_at, store_hash, drop_if_empty, hincrby, hincrby_on, hash_counter}
use kagni.Hash.NonEmpty.{
  put-filled, hash_or_new-IsCompact, found-IsCompact, store_filled, store_again, store_over_new,
  store_or_drop, field-filled,
}
use kagni.Hash.Grammar.{absolute, ExpireCommand, parse_field_ttl_args, parse_fields}
use kagni.Hash.Expiry.{
  hexpire_on, hexpire_family, hexpire_read, new_deadline, expire_fields, any_changed, numbers,
  code_of, missing, Reading, reading_name, read_deadlines,
}

zero_plus : (n : ℤ) → pos 0 +ℤ n ≡ n
unfolding ◌+ℤ◌
zero_plus (pos n) = ground arith
zero_plus (negsuc n) = ground arith

first_fits : (increment : ℤ) → fits increment ≡ true → not (fits (pos 0 +ℤ increment)) ≡ false
first_fits increment h = ap (λ n. not (fits n)) (zero_plus increment) ∙ ap not h

module _ {Score : Type 0} where
  -- the sum of HINCRBY, written down if it fits
  abbrev counted :
      Bytes → Bytes → ℤ → Dict Bytes Field → ℤ × Option ℤ → Command (Stored Score) Reply
  counted key name increment seen (current, deadline) =
      let result = current +ℤ increment in
      if not (fits result) then raise overflow else do
        store_hash key (put name (print_int result) deadline seen)
        modify (after_write key Event.hincrby)
        pure (Reply.num result)

  counted-IsCompact :
      (key name : Bytes) (increment : ℤ) (seen : Dict Bytes Field) (p : ℤ × Option ℤ)
      → Keeps (IsCompact all_collections) (counted key name increment seen p)
  counted-IsCompact key name increment seen (current, deadline) =
      sum (not (fits (current +ℤ increment)))
    where
      sum :
          (b : Bool)
          → Keeps {V = Stored Score} (IsCompact all_collections) (
              if b then raise overflow else do
                store_hash key (put name (print_int (current +ℤ increment)) deadline seen)
                modify (after_write key Event.hincrby)
                pure (Reply.num (current +ℤ increment)))
      sum true = Keeps-raise overflow
      sum false = record {
        at = λ c d h.
            let new = put name (print_int (current +ℤ increment)) deadline seen in
            after_write-IsCompact key Event.hincrby (update key (hash new) d) (
              (store_filled key new
                  (put-filled name (print_int (current +ℤ increment)) deadline seen)).at
                c d h);
      }

  -- the first number of a new counter fits
  abbrev first : Bool → Bytes → Bytes → ℤ → Dict Bytes Field → Command (Stored Score) Reply
  first bad key name increment seen =
      let result = pos 0 +ℤ increment in
      if bad then raise overflow else do
        store_hash key (put name (print_int result) none seen)
        modify (after_write key Event.hincrby)
        pure (Reply.num result)

  first_old :
      (bad : Bool) (key name : Bytes) (increment : ℤ) (seen : Dict Bytes Field)
      → bad ≡ false
      → Keeps (IsCompact all_collections) (store_hash key seen >> first bad key name increment seen)
  first_old true key name increment seen e = absurd (cc)
  first_old false key name increment seen e = record {
    at = λ c d h.
        let text = print_int (pos 0 +ℤ increment) in
        let new = put name text none seen in
        after_write-IsCompact key Event.hincrby (update key (hash new) (update key (hash seen) d))
          ((store_again key seen new (put-filled name text none seen)).at c d h);
  }

  first_new :
      (bad : Bool) (key name : Bytes) (increment : ℤ) (seen : Dict Bytes Field)
      → bad ≡ false
      → Keeps (IsCompact all_collections) (do
        modify (Data.set_item key (hash []))
        store_hash key seen
        first bad key name increment seen)
  first_new true key name increment seen e = absurd (cc)
  first_new false key name increment seen e = record {
    at = λ c d h.
        let text = print_int (pos 0 +ℤ increment) in
        let new = put name text none seen in
        after_write-IsCompact key Event.hincrby
          (update key (hash new) (update key (hash seen) (Data.set_item key (hash []) d)))
          ((store_over_new key seen new (put-filled name text none seen)).at c d h);
  }

  counter_old :
      (key name : Bytes) (increment : ℤ) (live : Option Field) (seen : Dict Bytes Field)
      → fits increment ≡ true
      → (is_some live ≡ true → is_empty seen ≡ false)
      → Keeps (IsCompact all_collections) (do
        store_hash key seen
        (λ c d. (hash_counter live, d)) >>= counted key name increment seen)
  unfolding hash_counter
  counter_old key name increment none seen small full =
      first_old (not (fits (pos 0 +ℤ increment))) key name increment seen
        (first_fits increment small)
  counter_old key name increment (some raw) seen small full =
      Keeps-bind (store_hash key seen)
        (λ _. (λ c d. (hash_counter (some raw), d)) >>= counted key name increment seen)
        (store_filled key seen (full refl))
        (λ _.
          Keeps-bind (λ c d. (hash_counter (some raw), d)) (counted key name increment seen)
            (Keeps-lift (hash_counter (some raw))) (counted-IsCompact key name increment seen))

  counter_new :
      (key name : Bytes) (increment : ℤ)
      → fits increment ≡ true
      → Keeps {V = Stored Score}
          (IsCompact all_collections)
          (modify (Data.set_item key (hash [])) >> hincrby_on key name increment [])
  unfolding hincrby_on field hash_counter lookup
  counter_new key name increment small =
      first_new (not (fits (pos 0 +ℤ increment))) key name increment [] (first_fits increment small)

  pub hincrby-IsCompact :
      (key name : Bytes) (increment : ℤ)
      → fits increment ≡ true
      → Keeps {V = Stored Score} (IsCompact all_collections) (hincrby key name increment)
  unfolding hincrby hincrby_on
  hincrby-IsCompact key name increment small =
      hash_or_new-IsCompact key (hincrby_on key name increment)
        (counter_new key name increment small)
        (λ cur. record {
          at = λ c d h.
              let (live, seen) = field name c.wall cur in
              (counter_old key name increment live seen small (field-filled name c.wall cur)).at c d
                h;
        })

  expired_some :
      (key : Bytes) (any : Bool) (left : Dict Bytes Field) (reply : Reply)
      → Keeps {V = Stored Score} (IsCompact all_collections) (do
        store_hash key left
        (if any then modify (after_write key Event.hexpire) else pure tt)
        (if any && is_empty left then modify (notify key Event.del) else pure tt)
        drop_if_empty key left
        pure reply)
  unfolding after_write notify Data.touch
  expired_some key true [] reply = record {
    at = λ c d h.
        (store_or_drop key [] (λ d. notify key Event.del (after_write key Event.hexpire d))
            (λ _. refl)).at
          c d h;
  }
  expired_some key true (x ∷ left) reply = record {
    at = λ c d h.
        (store_or_drop key (x ∷ left) (after_write key Event.hexpire) (λ _. refl)).at c d h;
  }
  expired_some key false [] reply = record {
    at = λ c d h. (store_or_drop key [] (λ d. d) (λ _. refl)).at c d h;
  }
  expired_some key false (x ∷ left) reply = record {
    at = λ c d h. (store_or_drop key (x ∷ left) (λ d. d) (λ _. refl)).at c d h;
  }

  pub hexpire-IsCompact :
      (command : ExpireCommand) (key : Bytes) (args : List Bytes)
      → Keeps {V = Stored Score} (IsCompact all_collections) (hexpire_family command key args)
  unfolding hexpire_family hexpire_on
  hexpire-IsCompact command key args =
      Keeps-bind (λ c d. (parse_field_ttl_args args command c.wall, d))
        (λ ttl. hash_at key >>= λ found. elim found [
          | none ↦ pure (Reply.arr (numbers (map (λ _. code_of missing) ttl.fields)))
          | some cur ↦ hexpire_on key ttl (absolute command) cur
        ])
        (record { at = λ c d h. h })
        (λ ttl.
          let gone = Reply.arr (numbers (map (λ _. code_of missing) ttl.fields)) in
          found-IsCompact key (pure gone) (hexpire_on key ttl (absolute command)) (Keeps-pure gone)
            (λ cur. record {
              at = λ c d h.
                  let deadline = new_deadline (absolute command) ttl.when_ms c.wall in
                  let (out, left) = expire_fields ttl.flag deadline ttl.fields c.wall cur in
                  (expired_some key (any_changed out) left
                      (Reply.arr (numbers (map code_of out)))).at
                    c d h;
            }))

  persisted_some :
      (key : Bytes) (any : Bool) (left : Dict Bytes Field) (reply : Reply)
      → Keeps {V = Stored Score} (IsCompact all_collections) (do
        store_hash key left
        (if any then modify (after_write key Event.hpersist) else pure tt)
        drop_if_empty key left
        pure reply)
  unfolding after_write notify Data.touch
  persisted_some key true [] reply = record {
    at = λ c d h. (store_or_drop key [] (after_write key Event.hpersist) (λ _. refl)).at c d h;
  }
  persisted_some key true (x ∷ left) reply = record {
    at = λ c d h.
        (store_or_drop key (x ∷ left) (after_write key Event.hpersist) (λ _. refl)).at c d h;
  }
  persisted_some key false [] reply = record {
    at = λ c d h. (store_or_drop key [] (λ d. d) (λ _. refl)).at c d h;
  }
  persisted_some key false (x ∷ left) reply = record {
    at = λ c d h. (store_or_drop key (x ∷ left) (λ d. d) (λ _. refl)).at c d h;
  }

  pub hexpire_read-IsCompact :
      (kind : Reading) (key : Bytes) (args : List Bytes)
      → Keeps {V = Stored Score} (IsCompact all_collections) (hexpire_read kind key args)
  unfolding hexpire_read
  hexpire_read-IsCompact kind key args =
      Keeps-bind (λ c d. (parse_fields (reading_name kind) args, d))
        (λ fields. hash_at key >>= λ found. elim found [
          | none ↦ do remove key; pure (Reply.arr (numbers (map (λ _. negsuc 1) fields)))
          | some cur ↦ λ c.
              let ((out, persisted), left) = read_deadlines kind fields c.wall cur in
              (do
                store_hash key left
                (if persisted then modify (after_write key Event.hpersist) else pure tt)
                drop_if_empty key left
                pure (Reply.arr (numbers out)))
                c
        ])
        (Keeps-lift (parse_fields (reading_name kind) args))
        (λ fields.
          let gone = Reply.arr (numbers (map (λ _. negsuc 1) fields)) in
          found-IsCompact key (remove key >> pure gone)
            (λ cur c.
              let ((out, persisted), left) = read_deadlines kind fields c.wall cur in
              (do
                store_hash key left
                (if persisted then modify (after_write key Event.hpersist) else pure tt)
                drop_if_empty key left
                pure (Reply.arr (numbers out)))
                c)
            (Keeps-bind (remove key) (λ _. pure gone) (remove-IsCompact key) (λ _. Keeps-pure gone))
            (λ cur. record {
              at = λ c d h.
                  let ((out, persisted), left) = read_deadlines kind fields c.wall cur in
                  (persisted_some key persisted left (Reply.arr (numbers out))).at c d h;
            }))

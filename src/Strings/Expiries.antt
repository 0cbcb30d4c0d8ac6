-- ===== src/Strings/Expiries.antt =====
-- commands/basic.py: the deadline of a key after a SET.
use kagni.Prelude.{
  ℤ, negsuc, ◌+ℤ◌, ◌-ℤ◌, leb_ℤ, Bool, true, false, not, ◌&&◌, ◌||◌, Option, none, some, is_none,
  List, Bytes, bytes_eq, bytes_beq_refl, length, ltb, ◌≤◌, if◌then◌else◌, ◌≡◌, refl, sym, ap, ◌∙◌,
  arith, Option-cases, inl, inr,
}
use kagni.Events.{Event}
use kagni.Text.{codes}
use kagni.Dict.{lookup, insert, lookup-insert, lookup-erase}
use kagni.Data
use kagni.Data.{Clock, Data, mono_deadline}
use kagni.Common.{Stored, string, ok, pure, raise_if, ◌>>◌, after_write, notify}
use kagni.Strings.Basic.{max_string_size, string_overflow}
use kagni.Strings.Held.{string_or_none, found_old, is_live-get_item}
use kagni.Strings.Options.{
  Options, no_options, parse_extended_options, option_deadline, set_reply, blocked, write,
  write_string, set_command,
}
use kagni.Strings.Assign.{asked, decided, read_store, read_old, set_command-decided}

-- how a deadline by the wall clock reads
abbrev pub read_limit : Option ℤ → ℤ → ℤ
read_limit none wall = negsuc 0
read_limit (some t) wall = if leb_ℤ t wall then negsuc 1 else t

-- the same, of the deadline that an entry keeps by the monotonic clock
abbrev deadline_expiry : Clock → Option ℤ → ℤ
deadline_expiry c none = negsuc 0
deadline_expiry c (some t) = if leb_ℤ t c.mono then negsuc 1 else c.wall +ℤ (t -ℤ c.mono)

fresh_expiry :
    (c : Clock) (t : ℤ) → deadline_expiry c (some (mono_deadline c t)) ≡ read_limit (some t) c.wall
unfolding ◌+ℤ◌ ◌-ℤ◌
fresh_expiry c t = ground arith

module _ {Score : Type 0} where
  abbrev expiry : Bytes → Clock → Data (Stored Score) → ℤ
  expiry key c d = (Data.wall_expiry key c d).0

  abbrev stored_expiry : Clock → Option (Data.Entry (Stored Score)) → ℤ
  stored_expiry c none = negsuc 1
  stored_expiry c (some e) = deadline_expiry c e.expires_at

  expiry_lem :
      (key : Bytes) (c : Clock) (d : Data (Stored Score))
      → expiry key c d ≡ stored_expiry c (lookup key d.storage)
  unfolding Data.wall_expiry
  expiry_lem key c d = elim (Option-cases (lookup key d.storage)) [
    | inl missing ↦ ground (arith, missing)
    | inr (e, there) ↦ ground (arith, there)
  ]

  abbrev is_kept : Clock → Option (Data.Entry (Stored Score)) → Bool
  is_kept c none = false
  is_kept c (some e) = Data.live e c.mono

  is_live_lem :
      (key : Bytes) (c : Clock) (d : Data (Stored Score))
      → Data.is_live key c d ≡ is_kept c (lookup key d.storage)
  unfolding Data.is_live
  is_live_lem key c d = elim (Option-cases (lookup key d.storage)) [
    | inl missing ↦ ground (arith, missing)
    | inr (e, there) ↦ ground (arith, there)
  ]

  expiry-set_expiry :
      (old : Option (Data.Entry (Stored Score))) (c : Clock) (deadline : Option ℤ) (keep : Bool)
      → deadline_expiry c (Data.set_expiry old c deadline keep)
        ≡ (if keep && is_kept c old then stored_expiry c old else read_limit deadline c.wall)
  unfolding Data.set_expiry
  expiry-set_expiry none c none true = refl
  expiry-set_expiry none c none false = refl
  expiry-set_expiry none c (some t) true = fresh_expiry c t
  expiry-set_expiry none c (some t) false = fresh_expiry c t
  expiry-set_expiry (some e) c none false = refl
  expiry-set_expiry (some e) c (some t) false = fresh_expiry c t
  expiry-set_expiry (some e) c none true = ground arith
  expiry-set_expiry (some e) c (some t) true = ground (arith, fresh_expiry c t)

  expiry-set_value :
      (key : Bytes) (v : Stored Score) (deadline : Option ℤ) (keep : Bool) (c : Clock)
      (d : Data (Stored Score))
      → expiry key c (Data.set_value key v deadline keep c d)
        ≡ (if keep && Data.is_live key c d then expiry key c d else read_limit deadline c.wall)
  unfolding Data.set_value
  expiry-set_value key v deadline keep c d =
      let new : Data.Entry (Stored Score) = record {
        value = v;
        expires_at = Data.set_expiry (lookup key d.storage) c deadline keep;
      } in
      let written : lookup key (insert key new d.storage) ≡ some new =
        ground (arith, bytes_beq_refl key, lookup-insert key key new d.storage) in
      expiry_lem key c (Data.set_value key v deadline keep c d)
      ∙ ap (stored_expiry c) written
      ∙ expiry-set_expiry (lookup key d.storage) c deadline keep
      ∙ ap
          (λ t.
            if keep && t
            then stored_expiry c (lookup key d.storage)
            else read_limit deadline c.wall)
          (sym (is_live_lem key c d))
      ∙ ap (λ t. if keep && Data.is_live key c d then t else read_limit deadline c.wall)
          (sym (expiry_lem key c d))

  expiry-get :
      (key : Bytes) (c : Clock) (d : Data (Stored Score))
      → expiry key c (Data.get key c d).1 ≡ expiry key c d
  unfolding Data.wall_expiry Data.get Data.purge_key Data.live
  expiry-get key c d = elim (Option-cases (lookup key d.storage)) [
    | inl missing ↦ ground (arith, missing)
    | inr (e, there) ↦ ground (arith, there, lookup-erase key key d.storage, bytes_beq_refl key)
  ]

  expiry-after_write :
      (key : Bytes) (ev : Event) (c : Clock) (d : Data (Stored Score))
      → expiry key c (after_write key ev d) ≡ expiry key c d
  unfolding Data.wall_expiry after_write Data.touch
  expiry-after_write key ev c d = elim (Option-cases (lookup key d.storage)) [
    | inl missing ↦ ground (arith, missing)
    | inr (e, there) ↦ ground (arith, there)
  ]

  expiry-notify :
      (key : Bytes) (ev : Event) (c : Clock) (d : Data (Stored Score))
      → expiry key c (notify key ev d) ≡ expiry key c d
  unfolding Data.wall_expiry notify
  expiry-notify key ev c d = elim (Option-cases (lookup key d.storage)) [
    | inl missing ↦ ground (arith, missing)
    | inr (e, there) ↦ ground (arith, there)
  ]

  expiry-write_string :
      (key val : Bytes) (deadline : Option ℤ) (keep : Bool) (c : Clock) (d : Data (Stored Score))
      → expiry key c (write_string key val deadline keep c d)
        ≡ (if keep && Data.is_live key c d then expiry key c d else read_limit deadline c.wall)
  unfolding write_string
  expiry-write_string key val none keep c d =
      expiry-after_write key Event.set c (Data.set_value key (string val) none keep c d)
      ∙ expiry-set_value key (string val) none keep c d
  expiry-write_string key val (some t) keep c d =
      expiry-notify key Event.expire c
        (after_write key Event.set (Data.set_value key (string val) (some t) keep c d))
      ∙ expiry-after_write key Event.set c (Data.set_value key (string val) (some t) keep c d)
      ∙ expiry-set_value key (string val) (some t) keep c d

  expiry-decided :
      (stopped : Bool) (key val : Bytes) (o : Options) (deadline : Option ℤ) (c : Clock)
      (d : Data (Stored Score)) (old : Option Bytes)
      → length val ≤ max_string_size
      → string_or_none (Data.get_item key c d) ≡ some old
      → expiry key c (decided stopped key val o deadline (asked o.get old) c d).1 ≡ (
          if stopped || (o.keep_ttl && not (is_none old))
          then expiry key c d
          else read_limit deadline c.wall)
  expiry-decided true key val o deadline c d old small h = refl
  expiry-decided false key val o deadline c d old small h =
      ap
        (λ t.
          expiry key c
            ((do
              raise_if t string_overflow
              write (write_string key val deadline o.keep_ttl)
              pure (set_reply o.get (asked o.get old)))
              c d).1)
        {x = ltb max_string_size (length val)} {y = false} (ground (arith, small))
      ∙ expiry-write_string key val deadline o.keep_ttl c d
      ∙ ap (λ t. if o.keep_ttl && t then expiry key c d else read_limit deadline c.wall)
          (is_live-get_item key c d ∙ ap not (found_old (Data.get_item key c d) old h))

  expiry-read_store :
      (asked : Bool) (key : Bytes) (c : Clock) (d : Data (Stored Score))
      → expiry key c (read_store asked key c d) ≡ expiry key c d
  expiry-read_store true key c d = expiry-get key c d
  expiry-read_store false key c d = refl

  -- The deadline that `wall_expiry` reads after a SET that is carried out: the one before if the SET
  -- is blocked or KEEPTTL finds the key there, and else the one that SET was given.
  pub wall_expiry-set_command :
      (key val : Bytes) (options : List Bytes) (o : Options) (deadline : Option ℤ)
      (old : Option Bytes) (c : Clock) (d : Data (Stored Score))
      → parse_extended_options true options no_options ≡ ok o
      → option_deadline (codes "set") o c.wall ≡ ok deadline
      → length val ≤ max_string_size
      → string_or_none (Data.get_item key c d) ≡ some old
      → (Data.wall_expiry key c (set_command key val options c d).1).0 ≡ (
          if blocked o (not (is_none old)) || (o.keep_ttl && not (is_none old))
          then (Data.wall_expiry key c d).0
          else read_limit deadline c.wall)
  wall_expiry-set_command key val options o deadline old c d parsed valid small h =
      let stopped = blocked o (not (is_none old)) in
      let before = read_store o.get key c d in
      ap (λ p. expiry key c p.1)
        (set_command-decided key val options o deadline old c d parsed valid h)
      ∙ expiry-decided stopped key val o deadline c before old small
          (read_old o.get key c d old h).1
      ∙ ap
          (λ t.
            if stopped || (o.keep_ttl && not (is_none old)) then t else read_limit deadline c.wall)
          (expiry-read_store o.get key c d)

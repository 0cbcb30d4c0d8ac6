-- ===== src/Strings/Assign.antt =====
-- commands/basic.py: what GET answers after SET with its options.
use mathlib.Core.Path.{subst}
use kagni.Prelude.{
  ◌≤◌, ℤ, ltb, Bool, true, false, not, ◌&&◌, ◌||◌, Option, none, some, is_none, List, Bytes,
  bytes_eq, length, if◌then◌else◌, ◌≡◌, refl, sym, ap, ◌∙◌, arith,
}
use kagni.Events.{Event}
use kagni.Data
use kagni.Data.{Clock, Data, mono_deadline}
use kagni.Text.{codes}
use kagni.Resp.{Reply}
use kagni.Common.{
  Stored, string, Command, Result, ok, pure, call, raise_if, ◌>>=◌, ◌>>◌, after_write,
}
use kagni.Common.Reads.{get_item-after_write, get_item-notify, get_item-get}
use kagni.Strings.Basic.{
  string_at, get, bulk_or_null, lift, too_long, max_string_size, string_overflow,
}
use kagni.Strings.Held.{
  string_or_none, found_old, is_ahead, is_live-get_item, get_item-set_value, string_at-found,
  get-found,
}
use kagni.Strings.Options.{
  Options, no_options, parse_extended_options, option_deadline, set_reply, blocked, write,
  write_string, set_command,
}

-- what a GET reads after a SET that is or is not blocked, where the key held the string `old` or
-- was missing
abbrev pub set_string_of : Bool → Clock → Bytes → Options → Option ℤ → Option Bytes → Option Bytes
set_string_of stopped c val o deadline old =
    if stopped
    then old
    else if (o.keep_ttl && not (is_none old)) || is_ahead c deadline
    then some val
    else none

-- the reply of a SET
abbrev pub set_answer : Bool → Options → Option Bytes → Reply
set_answer stopped o old =
    if o.get then bulk_or_null old else if stopped then Reply.nil else Reply.ok

abbrev pub asked : Bool → Option Bytes → Option Bytes
asked get old = if get then old else none

set_reply_lem :
    (get : Bool) (old : Option Bytes)
    → set_reply get (asked get old) ≡ (if get then bulk_or_null old else Reply.ok)
set_reply_lem true none = refl
set_reply_lem true (some v) = refl
set_reply_lem false old = refl

blocked_reply :
    (get : Bool) (old : Option Bytes)
    → bulk_or_null (asked get old) ≡ (if get then bulk_or_null old else Reply.nil)
blocked_reply true old = refl
blocked_reply false old = refl

shown :
    (Score : Type 0) (t : Bool) (val : Bytes)
    → string_or_none {Score = Score} (if t then some (string val) else none)
      ≡ some (if t then some val else none)
shown Score true val = refl
shown Score false val = refl

module _ {Score : Type 0} where
  get_item-write_string :
      (key val : Bytes) (deadline : Option ℤ) (keep : Bool) (c : Clock) (d : Data (Stored Score))
      → Data.get_item key c (write_string key val deadline keep c d) ≡ (
          if (keep && Data.is_live key c d) || is_ahead c deadline then some (string val) else none)
  unfolding write_string
  get_item-write_string key val none keep c d =
      get_item-after_write key key Event.set c (Data.set_value key (string val) none keep c d)
      ∙ get_item-set_value key (string val) none keep c d
  get_item-write_string key val (some t) keep c d =
      get_item-notify key key Event.expire c
        (after_write key Event.set (Data.set_value key (string val) (some t) keep c d))
      ∙ get_item-after_write key key Event.set c (Data.set_value key (string val) (some t) keep c d)
      ∙ get_item-set_value key (string val) (some t) keep c d

  -- what SET does once the options are read and the old string, if it is asked for
  abbrev pub decided :
      Bool → Bytes → Bytes → Options → Option ℤ → Option Bytes → Command (Stored Score) Reply
  decided stopped key val o deadline old = if stopped then pure (bulk_or_null old) else (do
    too_long val
    write (write_string key val deadline o.keep_ttl)
    pure (set_reply o.get old))

  -- The reply of a SET, and the string that the key then holds.
  abbrev pub Assigns :
      Bytes → Clock → Reply → Option Bytes → Result Reply × Data (Stored Score) → Type 0
  Assigns key c reply held (result, after) =
      (result ≡ ok reply) × ((get key c after).0 ≡ ok (bulk_or_null held))

  decided-Assigns :
      (stopped : Bool) (key val : Bytes) (o : Options) (deadline : Option ℤ) (c : Clock)
      (d : Data (Stored Score)) (old : Option Bytes)
      → length val ≤ max_string_size
      → string_or_none (Data.get_item key c d) ≡ some old
      → Assigns key c
          (set_answer stopped o old)
          (set_string_of stopped c val o deadline old)
          (decided stopped key val o deadline (asked o.get old) c d)
  decided-Assigns true key val o deadline c d old small h =
      (ap ok (blocked_reply o.get old), get-found key c d old h)
  decided-Assigns false key val o deadline c d old small h =
      let live : Data.is_live key c d ≡ not (is_none old) =
        is_live-get_item key c d ∙ ap not (found_old (Data.get_item key c d) old h) in
      let stored =
        ap string_or_none (get_item-write_string key val deadline o.keep_ttl c d)
        ∙ shown Score ((o.keep_ttl && Data.is_live key c d) || is_ahead c deadline) val
        ∙ ap (λ t. some (if (o.keep_ttl && t) || is_ahead c deadline then some val else none))
            live in
      subst (Assigns key c (set_answer false o old) (set_string_of false c val o deadline old))
        (ap
          (λ t.
            (do
              raise_if t string_overflow
              write (write_string key val deadline o.keep_ttl)
              pure (set_reply o.get (asked o.get old)))
              c d)
          {x = false} {y = ltb max_string_size (length val)} (ground (arith, small)))
        (
          ap ok (set_reply_lem o.get old),
          get-found key c (write_string key val deadline o.keep_ttl c d)
              (set_string_of false c val o deadline old) stored,
        )

  -- the store after the old string was read, if it is asked for
  abbrev pub read_store : Bool → Bytes → Clock → Data (Stored Score) → Data (Stored Score)
  read_store get key c d = if get then (Data.get key c d).1 else d

  pub read_old :
      (get : Bool) (key : Bytes) (c : Clock) (d : Data (Stored Score)) (old : Option Bytes)
      → string_or_none (Data.get_item key c d) ≡ some old
      → ((if get then string_at key else pure none) c d
          ≡ (ok (asked get old), read_store get key c d))
        × (string_or_none (Data.get_item key c (read_store get key c d)) ≡ some old)
  read_old true key c d old h =
      (string_at-found key c d old h, ap string_or_none (get_item-get key key c d) ∙ h)
  read_old false key c d old h = (refl, h)

  pub set_command-decided :
      (key val : Bytes) (options : List Bytes) (o : Options) (deadline : Option ℤ)
      (old : Option Bytes) (c : Clock) (d : Data (Stored Score))
      → parse_extended_options true options no_options ≡ ok o
      → option_deadline (codes "set") o c.wall ≡ ok deadline
      → string_or_none (Data.get_item key c d) ≡ some old
      → set_command key val options c d
        ≡ decided
            (blocked o (not (is_none old)))
            key
            val
            o
            deadline
            (asked o.get old)
            c
            (read_store o.get key c d)
  unfolding set_command
  set_command-decided key val options o deadline old c d parsed valid h =
      let (read, there) = read_old o.get key c d old h in
      let d0 = read_store o.get key c d in
      ap
        (λ r.
          (do
            o ← lift r
            deadline ← (λ c d. (option_deadline (codes "set") o c.wall, d))
            old ← (if o.get then string_at key else pure none)
            found ← call (λ c d. (Data.is_live key c d, d))
            decided (blocked o found) key val o deadline old)
            c d)
        parsed
      ∙ ap
          (λ r.
            (do
              deadline ← lift r
              old ← (if o.get then string_at key else pure none)
              found ← call (λ c d. (Data.is_live key c d, d))
              decided (blocked o found) key val o deadline old)
              c d)
          valid
      ∙ ap
          (λ (p : Result (Option Bytes) × Data (Stored Score)).
            ((λ _ _. p) >>= λ old. call (λ c d. (Data.is_live key c d, d)) >>= λ found.
            decided (blocked o found) key val o deadline old)
              c d)
          read
      ∙ ap (λ t. decided (blocked o t) key val o deadline (asked o.get old) c d0)
          (is_live-get_item key c d0 ∙ ap not (found_old (Data.get_item key c d0) old there))

  -- SET of a value that is not too long, with options that parse and a deadline that is valid, on
  -- a key that is missing or holds a string: NX blocks it if the key is there and XX if it is not.
  -- The reply is OK, or nil if it was blocked, and with GET the old string or nil. A GET then
  -- answers as before if it was blocked, and else with the value, unless the deadline has passed;
  -- KEEPTTL keeps the deadline of a key that is there.
  pub set_command-Assigns :
      (key val : Bytes) (options : List Bytes) (o : Options) (deadline : Option ℤ)
      (old : Option Bytes) (c : Clock) (d : Data (Stored Score))
      → parse_extended_options true options no_options ≡ ok o
      → option_deadline (codes "set") o c.wall ≡ ok deadline
      → length val ≤ max_string_size
      → string_or_none (Data.get_item key c d) ≡ some old
      → let stopped = blocked o (not (is_none old)) in
        Assigns key c
          (set_answer stopped o old)
          (set_string_of stopped c val o deadline old)
          (set_command key val options c d)
  set_command-Assigns key val options o deadline old c d parsed valid small h =
      let stopped = blocked o (not (is_none old)) in
      subst (Assigns key c (set_answer stopped o old) (set_string_of stopped c val o deadline old))
        (sym (set_command-decided key val options o deadline old c d parsed valid h))
        (decided-Assigns stopped key val o deadline c (read_store o.get key c d) old small
          (read_old o.get key c d old h).1)

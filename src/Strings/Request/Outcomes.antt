-- ===== src/Strings/Request/Outcomes.antt =====
-- commands/basic.py: what a client sees of a SET with its options.
use mathlib.Core.Path.{subst}
use kagni.Prelude.{
  ◌≤◌, ℤ, true, false, not, ◌||◌, Option, none, some, is_none, List, Bytes, bytes_eq, length,
  if◌then◌else◌, ◌≡◌, refl, ap, ◌∙◌, arith,
}
use kagni.Data
use kagni.Data.{Clock, Data, mono_deadline}
use kagni.Text.{codes}
use kagni.Resp.{Error, Reply}
use kagni.Common.Errors.{syntax}
use kagni.Common.{Stored, ok, err}
use kagni.Strings.Basic.{bulk_or_null, max_string_size}
use kagni.Strings.Held.{string_or_none}
use kagni.Strings.Options.{
  TimeUnit, Options, no_options, parse_extended_options, expire_time_error, option_deadline,
  blocked, set_command,
}
use kagni.Strings.Assign.{Assigns, set_answer, set_command-Assigns}
use kagni.Strings.Request.{
  Request, words, conflicting, refused, carried_out, ends_at, is_invalid, time_outcome, outcome,
  is_stopped, is_over, is_kept, time_of_limit, Meets, IsTime,
}
use kagni.Common.{Command, ◌>>=◌, ◌>>◌, pure, call}
use kagni.Strings.Basic.{string_at, too_long, lift}
use kagni.Strings.Options.{set_reply, write, write_string}
use kagni.Strings.Expiries.{read_limit, wall_expiry-set_command}
use kagni.Strings.Request.Words.{options_of, parse_words}
use kagni.Strings.Request.Limits.{deadline_of, option_deadline_lem, is_ahead_lem}

stopped_lem :
    (r : Request) (old : Option Bytes)
    → blocked (options_of r) (not (is_none old)) ≡ is_stopped r old
stopped_lem r none = ground arith
stopped_lem r (some v) = ground arith

read_limit_lem : (limit : Option ℤ) (wall : ℤ) → read_limit limit wall ≡ time_of_limit limit wall
read_limit_lem none wall = refl
read_limit_lem (some t) wall = refl

module _ {Score : Type 0} where
  abbrev from_limit : Bytes → Bytes → Options → Option ℤ → Command (Stored Score) Reply
  from_limit key val o deadline = do
    old ← (if o.get then string_at key else pure none)
    found ← call (λ c d. (Data.is_live key c d, d))
    if blocked o found then pure (bulk_or_null old) else (do
      too_long val
      write (write_string key val deadline o.keep_ttl)
      pure (set_reply o.get old))

  abbrev from_options : Bytes → Bytes → Options → Command (Stored Score) Reply
  from_options key val o =
      (λ c d. (option_deadline (codes "set") o c.wall, d)) >>= from_limit key val o

  refuse_words :
      (key val : Bytes) (options : List Bytes) (e : Error) (c : Clock) (d : Data (Stored Score))
      → parse_extended_options true options no_options ≡ err e
      → set_command key val options c d ≡ (err e, d)
  unfolding set_command
  refuse_words key val options e c d h = ap (λ r. (lift r >>= from_options key val) c d) h

  refuse_limit :
      (key val : Bytes) (options : List Bytes) (o : Options) (e : Error) (c : Clock)
      (d : Data (Stored Score))
      → parse_extended_options true options no_options ≡ ok o
      → option_deadline (codes "set") o c.wall ≡ err e
      → set_command key val options c d ≡ (err e, d)
  unfolding set_command
  refuse_limit key val options o e c d parsed h =
      ap (λ r. (lift r >>= from_options key val) c d) parsed
      ∙ ap (λ r. (lift r >>= from_limit key val o) c d) h

  carry_out :
      (r : Request) (key val : Bytes) (limit : Option ℤ) (old : Option Bytes) (c : Clock)
      (d : Data (Stored Score))
      → parse_extended_options true (words r) no_options ≡ ok (options_of r)
      → option_deadline (codes "set") (options_of r) c.wall ≡ ok limit
      → length val ≤ max_string_size
      → string_or_none (Data.get_item key c d) ≡ some old
      → Meets r key val old c d (carried_out limit) (set_command key val (words r) c d)
  carry_out r key val limit old c d parsed valid small h =
      let result = set_command key val (words r) c d in
      let stops = stopped_lem r old in
      (
        subst
            (λ t.
              Assigns key c (set_answer t (options_of r) old)
                (if t
                  then old
                  else if is_kept r old || not (is_over limit c.wall)
                  then some val
                  else none)
                result)
            stops
            (subst
              (λ t.
                Assigns key c
                  (set_answer (blocked (options_of r) (not (is_none old))) (options_of r) old)
                  (if blocked (options_of r) (not (is_none old))
                    then old
                    else if is_kept r old || t
                    then some val
                    else none)
                  result)
              (is_ahead_lem c limit)
              (set_command-Assigns key val (words r) (options_of r) limit old c d parsed valid small
                h)),
        wall_expiry-set_command key val (words r) (options_of r) limit old c d parsed valid small h
            ∙ ap
                (λ t.
                  if t || is_kept r old
                  then (Data.wall_expiry key c d).0
                  else read_limit limit c.wall)
                stops
            ∙ ap
                (λ t. if is_stopped r old || is_kept r old then (Data.wall_expiry key c d).0 else t)
                (read_limit_lem limit c.wall),
      )

  time-Meets :
      (r : Request) (key val : Bytes) (old : Option Bytes) (c : Clock) (d : Data (Stored Score))
      → parse_extended_options true (words r) no_options ≡ ok (options_of r)
      → option_deadline (codes "set") (options_of r) c.wall ≡ deadline_of r.time c.wall
      → length val ≤ max_string_size
      → string_or_none (Data.get_item key c d) ≡ some old
      → Meets r key val old c d (time_outcome r.time c.wall) (set_command key val (words r) c d)
  time-Meets r key val old c d parsed valid small h = at_time r.time valid
    where
      at_time :
          (time : Option (TimeUnit × ℤ))
          → option_deadline (codes "set") (options_of r) c.wall ≡ deadline_of time c.wall
          → Meets r key val old c d (time_outcome time c.wall) (set_command key val (words r) c d)
      at_time none valid = carry_out r key val none old c d parsed valid small h
      at_time (some (u, n)) valid =
          elim (is_invalid u n)
              as (λ t.
                option_deadline (codes "set") (options_of r) c.wall ≡ (
                  if t
                  then err (expire_time_error (codes "set"))
                  else ok (some (ends_at u n c.wall)))
                → Meets r key val old c d
                    (if t
                      then refused (expire_time_error (codes "set"))
                      else carried_out (some (ends_at u n c.wall)))
                    (set_command key val (words r) c d)) [
                      | true ↦ λ e.
                          refuse_limit key val (words r) (options_of r)
                            (expire_time_error (codes "set")) c d parsed e
                      | false ↦ λ e.
                          carry_out r key val (some (ends_at u n c.wall)) old c d parsed e small h
                    ]
            valid

  -- SET of a value that is not too long, on a key that is missing or holds a string, with options
  -- in the order NX, XX, GET, KEEPTTL and a time limit of EX, PX, EXAT or PXAT that is a 64-bit
  -- integer. NX with XX, and KEEPTTL with a time limit, are a syntax error; a limit that is not
  -- positive, or is in seconds whose milliseconds exceed 64 bits, is an invalid expire time.
  -- Neither changes the store. Else NX stops it if the key is there and XX if it is not, and the
  -- reply is the old string or nil with GET, and without it nil if it was stopped and OK if not.
  -- GET then reads the old string if it was stopped, and the value if not, or nil where the limit
  -- is over. The deadline that the store reads is the one before if it was stopped or if KEEPTTL
  -- finds the key there, and else the time given, which EX and PX count from the last whole
  -- millisecond, or -1 without a limit, or -2 where the limit is over.
  pub set_command-Meets :
      (r : Request) (key val : Bytes) (old : Option Bytes) (c : Clock) (d : Data (Stored Score))
      → IsTime r.time
      → length val ≤ max_string_size
      → string_or_none (Data.get_item key c d) ≡ some old
      → Meets r key val old c d (outcome r c.wall) (set_command key val (words r) c d)
  set_command-Meets r key val old c d timed small h =
      elim (conflicting r)
          as (λ t.
            parse_extended_options true (words r) no_options
              ≡ (if t then err syntax else ok (options_of r))
            → Meets r key val old c d (if t then refused syntax else time_outcome r.time c.wall)
                (set_command key val (words r) c d)) [
                  | true ↦ λ e. refuse_words key val (words r) syntax c d e
                  | false ↦ λ e.
                      time-Meets r key val old c d e (option_deadline_lem r c.wall timed) small h
                ]
        (parse_words r)

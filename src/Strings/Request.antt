-- ===== src/Strings/Request.antt =====
-- commands/basic.py: SET with its options as a client writes them.
pub mod Limits
pub mod Outcomes
pub mod Words
use mathlib.Core.Path.{subst}
use kagni.Prelude.{
  ℕ, suc, ◌+◌, ◌-◌, ◌*◌, ◌/◌, ◌^◌, ◌≤◌, ℤ, pos, negsuc, ◌+ℤ◌, ◌-ℤ◌, ◌*ℤ◌, leb_ℤ, ltb_ℤ, floor_div,
  Bool, true, false, not, ◌&&◌, ◌||◌, Option, none, some, is_none, List, [], ◌∷◌, Bytes, bytes_eq,
  ◌==◌, length, if◌then◌else◌, ◌≡◌, refl, sym, ap, ◌∙◌, arith,
}
use kagni.Data
use kagni.Data.{Clock, Data, mono_deadline}
use kagni.Text.{codes, upper, upper_byte, print_int}
use kagni.Resp.{Error, Reply}
use kagni.Common.Errors.{syntax, not_int}
use kagni.Common.{Stored, Result, ok, err, string2ll}
use kagni.Common.Canonical.{IsInt64, string2ll_iff}
use kagni.Strings.Basic.{bulk_or_null, max_string_size}
use kagni.Strings.Held.{string_or_none, is_ahead}
use kagni.Strings.Options.{
  TimeUnit, ex, px, exat, pxat, Options, no_options, flag_step, unit_of, unit_step, no_other_unit,
  parse_extended_options, expire_time_error, in_seconds, deadline_ms, expire_wall_deadline,
  with_some, option_deadline, blocked, set_command,
}
use kagni.Strings.Assign.{Assigns, set_answer, set_string_of, set_command-Assigns}

-- The options of a SET, with the number of a time limit.
pub record Request : Type 0 where
  pub nx : Bool
  pub xx : Bool
  pub get : Bool
  pub keep_ttl : Bool
  pub time : Option (TimeUnit × ℤ)

abbrev pub given : Bool → Bytes → List Bytes → List Bytes
given b word rest = if b then word ∷ rest else rest

abbrev pub unit_word : TimeUnit → Bytes
unit_word ex = codes "EX"
unit_word px = codes "PX"
unit_word exat = codes "EXAT"
unit_word pxat = codes "PXAT"

abbrev pub time_words : Option (TimeUnit × ℤ) → List Bytes
time_words none = []
time_words (some (u, n)) = unit_word u ∷ print_int n ∷ []

abbrev pub words : Request → List Bytes
words r = given r.nx (codes "NX") (
    given r.xx (codes "XX")
      (given r.get (codes "GET") (given r.keep_ttl (codes "KEEPTTL") (time_words r.time))))

-- options that redis does not allow together
abbrev pub conflicting : Request → Bool
conflicting r = (r.nx && r.xx) || (r.keep_ttl && not (is_none r.time))

-- What becomes of a SET: an error, or it is carried out, with the end of its time limit.
pub data Outcome : Type 0 where
  refused : Error → Outcome
  carried_out : Option ℤ → Outcome

-- When the time limit ends, in nanoseconds; one from now on counts from the last whole millisecond.
abbrev pub ends_at : TimeUnit → ℤ → ℤ → ℤ
ends_at ex n wall = n *ℤ pos 1_000_000_000 +ℤ floor_div wall 1_000_000 *ℤ pos 1_000_000
ends_at px n wall = n *ℤ pos 1_000_000 +ℤ floor_div wall 1_000_000 *ℤ pos 1_000_000
ends_at exat n wall = n *ℤ pos 1_000_000_000
ends_at pxat n wall = n *ℤ pos 1_000_000

-- not positive, or more milliseconds than a 64-bit integer holds
abbrev pub is_invalid : TimeUnit → ℤ → Bool
is_invalid ex n = leb_ℤ n (pos 0) || ltb_ℤ (pos (2 ^ 63 - 1)) (n *ℤ pos 1000)
is_invalid exat n = leb_ℤ n (pos 0) || ltb_ℤ (pos (2 ^ 63 - 1)) (n *ℤ pos 1000)
is_invalid px n = leb_ℤ n (pos 0)
is_invalid pxat n = leb_ℤ n (pos 0)

abbrev pub time_outcome : Option (TimeUnit × ℤ) → ℤ → Outcome
time_outcome none wall = carried_out none
time_outcome (some (u, n)) wall =
    if is_invalid u n
    then refused (expire_time_error (codes "set"))
    else carried_out (some (ends_at u n wall))

abbrev pub outcome : Request → ℤ → Outcome
outcome r wall = if conflicting r then refused syntax else time_outcome r.time wall

-- NX stops a SET of a key that is there, XX one of a key that is not.
abbrev pub is_stopped : Request → Option Bytes → Bool
is_stopped r none = r.xx
is_stopped r (some _) = r.nx

abbrev pub reply_of : Request → Option Bytes → Reply
reply_of r old =
    if r.get then bulk_or_null old else if is_stopped r old then Reply.nil else Reply.ok

abbrev pub is_over : Option ℤ → ℤ → Bool
is_over none wall = false
is_over (some t) wall = leb_ℤ t wall

-- KEEPTTL on a key that is there
abbrev pub is_kept : Request → Option Bytes → Bool
is_kept r old = r.keep_ttl && not (is_none old)

-- what the key holds then
abbrev pub held_after : Request → Bytes → Option Bytes → Option ℤ → ℤ → Option Bytes
held_after r val old limit wall =
    if is_stopped r old
    then old
    else if is_kept r old || not (is_over limit wall)
    then some val
    else none

-- what `wall_expiry` answers, in nanoseconds: -1 without a deadline, and -2 without a key
abbrev pub time_of_limit : Option ℤ → ℤ → ℤ
time_of_limit none wall = negsuc 0
time_of_limit (some t) wall = if leb_ℤ t wall then negsuc 1 else t

abbrev pub expiry_after : Request → Option Bytes → Option ℤ → ℤ → ℤ → ℤ
expiry_after r old limit wall before =
    if is_stopped r old || is_kept r old then before else time_of_limit limit wall

module _ {Score : Type 0} where
  abbrev pub Meets :
      Request
      → Bytes
      → Bytes
      → Option Bytes
      → Clock
      → Data (Stored Score)
      → Outcome
      → Result Reply × Data (Stored Score)
      → Type 0
  Meets r key val old c before (refused e) result = result ≡ (err e, before)
  Meets r key val old c before (carried_out limit) result =
      Assigns key c (reply_of r old) (held_after r val old limit c.wall) result
      × ((Data.wall_expiry key c result.1).0
          ≡ expiry_after r old limit c.wall (Data.wall_expiry key c before).0)

-- a number that a client can write as a 64-bit integer
abbrev pub IsTime : Option (TimeUnit × ℤ) → Type 0
IsTime none = Unit
IsTime (some (u, n)) = IsInt64 n

-- ===== src/Strings/Request/Limits.antt =====
-- commands/basic.py: the deadline that SET computes from its time limit.
use kagni.Prelude.{
  ◌-◌, ◌/◌, ◌^◌, ℤ, pos, negsuc, ◌+ℤ◌, ◌-ℤ◌, ◌*ℤ◌, leb_ℤ, ltb_ℤ, floor_div, Bool, true, false, not,
  ◌&&◌, ◌||◌, Option, none, some, bytes_eq, if◌then◌else◌, ◌≡◌, refl, ap, ◌∙◌, arith,
}
use kagni.Data.{Clock}
use kagni.Text.{codes, print_int}
use kagni.Common.Errors.{not_int}
use kagni.Common.{Result, ok, err, string2ll}
use kagni.Common.Canonical.{IsInt64, string2ll_iff}
use kagni.Strings.Held.{is_ahead}
use kagni.Strings.Options.{
  TimeUnit, ex, px, exat, pxat, expire_time_error, in_seconds, deadline_ms, expire_wall_deadline,
  with_some, option_deadline,
}
use kagni.Strings.Request.{Request, ends_at, is_invalid, is_over, IsTime}
use kagni.Strings.Request.Words.{raw_time, options_of}

sum_in_ns : (a b : ℤ) → (a +ℤ b) *ℤ pos 1_000_000 ≡ a *ℤ pos 1_000_000 +ℤ b *ℤ pos 1_000_000
unfolding ◌+ℤ◌ ◌*ℤ◌
sum_in_ns (pos a) (pos b) = ground arith
sum_in_ns (pos a) (negsuc b) = ground arith
sum_in_ns (negsuc a) (pos b) = ground arith
sum_in_ns (negsuc a) (negsuc b) = ground arith

seconds_in_ns : (n : ℤ) → n *ℤ pos 1000 *ℤ pos 1_000_000 ≡ n *ℤ pos 1_000_000_000
unfolding ◌*ℤ◌
seconds_in_ns (pos n) = ground arith
seconds_in_ns (negsuc n) = ground arith

deadline_lem :
    (u : TimeUnit) (n wall : ℤ) → deadline_ms u n wall *ℤ pos 1_000_000 ≡ ends_at u n wall
unfolding deadline_ms
deadline_lem ex n wall =
    let now = floor_div wall 1_000_000 in
    sum_in_ns (n *ℤ pos 1000) now ∙ ap (λ t. t +ℤ now *ℤ pos 1_000_000) (seconds_in_ns n)
deadline_lem px n wall = sum_in_ns n (floor_div wall 1_000_000)
deadline_lem exat n wall = seconds_in_ns n
deadline_lem pxat n wall = refl

is_invalid_lem :
    (u : TimeUnit) (n : ℤ)
    → (leb_ℤ n (pos 0) || (in_seconds u && ltb_ℤ (pos ((2 ^ 63 - 1) / 1000)) n)) ≡ is_invalid u n
unfolding ◌*ℤ◌
is_invalid_lem ex n = ground arith
is_invalid_lem px n = ground arith
is_invalid_lem exat n = ground arith
is_invalid_lem pxat n = ground arith

pub is_ahead_lem : (c : Clock) (limit : Option ℤ) → is_ahead c limit ≡ not (is_over limit c.wall)
unfolding ◌+ℤ◌ ◌-ℤ◌
is_ahead_lem c none = refl
is_ahead_lem c (some t) = ground arith

-- What the code makes of the time limit of a request.
abbrev pub deadline_of : Option (TimeUnit × ℤ) → ℤ → Result (Option ℤ)
deadline_of none wall = ok none
deadline_of (some (u, n)) wall =
    if is_invalid u n then err (expire_time_error (codes "set")) else ok (some (ends_at u n wall))

limit_lem :
    (u : TimeUnit) (n wall : ℤ)
    → IsInt64 n
    → with_some (expire_wall_deadline (codes "set") u (print_int n) wall)
      ≡ deadline_of (some (u, n)) wall
unfolding expire_wall_deadline
limit_lem u n wall h =
    let read : string2ll (print_int n) ≡ some n = (string2ll_iff (print_int n) n).1 (h, refl) in
    let allowed =
      λ (t : Bool) (e : ℤ). with_some (if t then err (expire_time_error (codes "set")) else ok e) in
    ap
      (λ o. with_some (elim o as (λ _. Result ℤ) [
        | none ↦ err not_int
        | some value ↦
            if leb_ℤ value (pos 0) || (in_seconds u && ltb_ℤ (pos ((2 ^ 63 - 1) / 1000)) value)
            then err (expire_time_error (codes "set"))
            else ok (deadline_ms u value wall *ℤ pos 1_000_000)
      ]))
      read
    ∙ ap (λ t. allowed t (deadline_ms u n wall *ℤ pos 1_000_000)) (is_invalid_lem u n)
    ∙ ap (allowed (is_invalid u n)) (deadline_lem u n wall)
    ∙ elim (is_invalid u n)
        as (λ t.
          allowed t (ends_at u n wall)
          ≡ (if t then err (expire_time_error (codes "set")) else ok (some (ends_at u n wall)))) [
            | true ↦ refl
            | false ↦ refl
          ]

pub option_deadline_lem :
    (r : Request) (wall : ℤ)
    → IsTime r.time
    → option_deadline (codes "set") (options_of r) wall ≡ deadline_of r.time wall
unfolding option_deadline
option_deadline_lem r wall h = time_lem r.time wall h
  where
    time_lem :
        (time : Option (TimeUnit × ℤ)) (wall : ℤ)
        → IsTime time
        → (elim (raw_time time) as (λ _. Result (Option ℤ)) [
          | none ↦ ok none
          | some (u, raw) ↦ with_some (expire_wall_deadline (codes "set") u raw wall)
        ])
          ≡ deadline_of time wall
    time_lem none wall h = refl
    time_lem (some (u, n)) wall h = limit_lem u n wall h

-- ===== src/Bits/Modes.antt =====
-- commands/bit.py: what the OVERFLOW modes make of a value.
use native.Mathlib.Nat.{mod-lt, mod-eq_of_lt, one-le-pow, pow-suc}
use kagni.Prelude.{
  ℕ, suc, ◌-◌, ◌^◌, ◌≤◌, ◌<◌, ltb, ℤ, pos, negsuc, ◌-ℤ◌, leb_ℤ, ltb_ℤ, Bool, true, false, ◌&&◌,
  ◌||◌, nat_eq, if◌then◌else◌, ◌≡◌, refl, sym, ap, ◌∙◌, arith, Bool-cases, inl, inr,
}
use kagni.Bits.Field.{
  Overflow, wrap, sat, fail, floor_mod, interpret, lowest, highest, is_in_range, out_of_range,
  bitfield_overflow,
}

pub floor_mod_bounded : (value : ℤ) (n : ℕ) → 0 < n → floor_mod value n < n
unfolding floor_mod
floor_mod_bounded (pos a) n positive = mod-lt a positive
floor_mod_bounded (negsuc a) n positive = omega (arith, positive)

-- What `interpret` reads is a value of the type.
pub interpret_in_range :
    (value : ℕ) (signed : Bool) (k : ℕ)
    → value < 2 ^ suc k
    → is_in_range signed (suc k) (interpret value signed (suc k)) ≡ true
unfolding interpret lowest highest ◌-ℤ◌
interpret_in_range value true k small =
    ground (arith, small, pow-suc 2 k, one-le-pow k 2 (ground arith))
interpret_in_range value false k small =
    ground (arith, small, pow-suc 2 k, one-le-pow k 2 (ground arith))

-- A value of the type is read as itself.
pub interpret-floor_mod :
    (value : ℤ) (signed : Bool) (k : ℕ)
    → is_in_range signed (suc k) value ≡ true
    → interpret (floor_mod value (2 ^ suc k)) signed (suc k) ≡ value
unfolding interpret lowest highest ◌-ℤ◌ floor_mod
interpret-floor_mod (pos a) true k h =
    let small : a < 2 ^ suc k = ground (arith, h, pow-suc 2 k, one-le-pow k 2 (ground arith)) in
    ground (arith, h, mod-eq_of_lt small, pow-suc 2 k, one-le-pow k 2 (ground arith))
interpret-floor_mod (negsuc a) true k h =
    let small : a < 2 ^ suc k = ground (arith, h, pow-suc 2 k, one-le-pow k 2 (ground arith)) in
    ground (arith, h, mod-eq_of_lt small, pow-suc 2 k, one-le-pow k 2 (ground arith))
interpret-floor_mod (pos a) false k h =
    ap pos (mod-eq_of_lt (ground (arith, h, one-le-pow (suc k) 2 (ground arith))))
interpret-floor_mod (negsuc a) false k h = ground (arith, h)

interpret_low : (value k : ℕ) → value < 2 ^ k → interpret value true (suc k) ≡ pos value
unfolding interpret
interpret_low value k small = ground (arith, small)

interpret_high :
    (value k : ℕ)
    → value < 2 ^ suc k
    → 2 ^ k ≤ value
    → interpret value true (suc k) ≡ negsuc (2 ^ suc k - 1 - value)
unfolding interpret ◌-ℤ◌
interpret_high value k small large = ground (arith, small, large)

pub floor_mod-interpret :
    (value : ℕ) (signed : Bool) (k : ℕ)
    → value < 2 ^ suc k
    → floor_mod (interpret value signed (suc k)) (2 ^ suc k) ≡ value
floor_mod-interpret value false k small = unfold interpret floor_mod in mod-eq_of_lt small
floor_mod-interpret value true k small = elim (Bool-cases (ltb value (2 ^ k))) [
  | inl low ↦
      unfold floor_mod in rw (interpret_low value k (ground (arith, low))) (mod-eq_of_lt small)
  | inr high ↦
      unfold floor_mod in
      rw (interpret_high value k small (ground (arith, high))) (
        omega (
          arith,
          small,
          mod-eq_of_lt {n = 2 ^ suc k - 1 - value} {m = 2 ^ suc k} (omega (arith, small)),
        ))
]

-- The values of a type: from 0 to 2^width - 1, or from -2^(width - 1) to 2^(width - 1) - 1.
abbrev pub has_value : Bool → ℕ → ℤ → Bool
has_value false width (pos n) = ltb n (2 ^ width)
has_value false width (negsuc n) = false
has_value true width (pos n) = ltb n (2 ^ (width - 1))
has_value true width (negsuc n) = ltb n (2 ^ (width - 1))

is_in_range_lem :
    (signed : Bool) (k : ℕ) (value : ℤ)
    → is_in_range signed (suc k) value ≡ has_value signed (suc k) value
unfolding lowest highest ◌-ℤ◌
is_in_range_lem false k (pos n) = ground (arith, one-le-pow (suc k) 2 (ground arith))
is_in_range_lem false k (negsuc n) = ground arith
is_in_range_lem true k (pos n) = ground (arith, one-le-pow k 2 (ground arith))
is_in_range_lem true k (negsuc n) = ground (arith, one-le-pow k 2 (ground arith))

-- a value of the type between the given one and the result, other than the result
abbrev pub nearer : Bool → ℕ → ℤ → ℤ → ℤ → Bool
nearer signed width value result other =
    has_value signed width other
    && ((leb_ℤ value other && ltb_ℤ other result) || (ltb_ℤ result other && leb_ℤ other value))

-- What a mode promises of a value and its result.
abbrev pub FollowsMode : Overflow → Bool → ℕ → ℤ → ℤ × Bool → Type 0
FollowsMode wrap signed width value (result, okay) =
    (okay ≡ true)
    × (has_value signed width result ≡ true)
    × (floor_mod result (2 ^ width) ≡ floor_mod value (2 ^ width))
FollowsMode sat signed width value (result, okay) =
    (okay ≡ true)
    × (has_value signed width result ≡ true)
    × ((other : ℤ) → nearer signed width value result other ≡ false)
FollowsMode fail signed width value changed =
    changed ≡ (if has_value signed width value then (value, true) else (pos 0, false))

follows_in_range :
    (signed : Bool) (width : ℕ) (value : ℤ) (mode : Overflow) (r : ℤ × Bool)
    → FollowsMode mode signed width value r
    → r.1 ≡ true
    → has_value signed width r.0 ≡ true
follows_in_range signed width value wrap r (_, h, _) okay = h
follows_in_range signed width value sat r (_, h, _) okay = h
follows_in_range signed width value fail r h okay =
    elim (has_value signed width value)
        as (λ t.
          has_value signed width value ≡ t
          → r ≡ (if t then (value, true) else (pos 0, false))
          → has_value signed width r.0 ≡ true) [
            | true ↦ λ inside e. ap (λ p. has_value signed width p.0) e ∙ inside
            | false ↦ λ outside e. let refused = ap (λ p. p.1) e in absurd (cc)
          ]
      refl h

kept-FollowsMode :
    (value : ℤ) (signed : Bool) (k : ℕ) (mode : Overflow)
    → has_value signed (suc k) value ≡ true
    → FollowsMode mode signed (suc k) value (value, true)
kept-FollowsMode value signed k wrap h = (refl, h, refl)
kept-FollowsMode value signed k sat h = (refl, h, λ other. ground arith)
kept-FollowsMode value signed k fail h =
    ap (λ t. if◌then◌else◌ {A = ℤ × Bool} t (value, true) (pos 0, false)) (sym h)

pub positive_span : (k : ℕ) → 0 < 2 ^ suc k
positive_span k = one-le-pow (suc k) 2 (ground arith)

ends_in_range :
    (signed : Bool) (k : ℕ)
    → (is_in_range signed (suc k) (lowest signed (suc k)) ≡ true)
      × (is_in_range signed (suc k) (highest signed (suc k)) ≡ true)
unfolding lowest highest ◌-ℤ◌
ends_in_range true k =
    (ground (arith, one-le-pow k 2 (ground arith)), ground (arith, one-le-pow k 2 (ground arith)))
ends_in_range false k = (ground (arith, positive_span k), ground (arith, positive_span k))

out_of_range-FollowsMode :
    (value : ℤ) (signed : Bool) (k : ℕ) (mode : Overflow)
    → is_in_range signed (suc k) value ≡ false
    → FollowsMode mode signed (suc k) value (out_of_range value signed (suc k) mode)
unfolding out_of_range
out_of_range-FollowsMode value signed k wrap h =
    let small = floor_mod_bounded value (2 ^ suc k) (positive_span k) in
    (
      refl,
      sym (is_in_range_lem signed k (interpret (floor_mod value (2 ^ suc k)) signed (suc k)))
          ∙ interpret_in_range (floor_mod value (2 ^ suc k)) signed k small,
      floor_mod-interpret (floor_mod value (2 ^ suc k)) signed k small,
    )
out_of_range-FollowsMode value signed k sat h =
    let (low, high) = ends_in_range signed k in
    (
      refl,
      elim (ltb_ℤ value (lowest signed (suc k)))
          as (λ t.
            has_value signed (suc k) (if t then lowest signed (suc k) else highest signed (suc k))
            ≡ true) [
              | true ↦ sym (is_in_range_lem signed k (lowest signed (suc k))) ∙ low
              | false ↦ sym (is_in_range_lem signed k (highest signed (suc k))) ∙ high
            ],
      λ other. ground (arith, h, is_in_range_lem signed k other),
    )
out_of_range-FollowsMode value signed k fail h =
    ap (λ t. if◌then◌else◌ {A = ℤ × Bool} t (value, true) (pos 0, false))
      (sym h ∙ is_in_range_lem signed k value)

-- For a type of at least one bit, WRAP takes the value of the type that is the same modulo its
-- span, SAT takes a value of the type that no other is nearer than, and FAIL keeps a value of the
-- type and refuses any other.
pub bitfield_overflow-FollowsMode :
    (value : ℤ) (signed : Bool) (k : ℕ) (mode : Overflow)
    → FollowsMode mode signed (suc k) value (bitfield_overflow value signed (suc k) mode)
unfolding bitfield_overflow
bitfield_overflow-FollowsMode value signed k mode =
    elim (is_in_range signed (suc k) value)
        as (λ t.
          is_in_range signed (suc k) value ≡ t
          → FollowsMode mode signed (suc k) value
              (if t then (value, true) else out_of_range value signed (suc k) mode)) [
                | true ↦ λ inside.
                    kept-FollowsMode value signed k mode
                      (sym (is_in_range_lem signed k value) ∙ inside)
                | false ↦ λ outside. out_of_range-FollowsMode value signed k mode outside
              ]
      refl

pub bitfield_overflow_in_range :
    (value : ℤ) (signed : Bool) (k : ℕ) (mode : Overflow)
    → (bitfield_overflow value signed (suc k) mode).1 ≡ true
    → is_in_range signed (suc k) (bitfield_overflow value signed (suc k) mode).0 ≡ true
bitfield_overflow_in_range value signed k mode okay =
    let changed = bitfield_overflow value signed (suc k) mode in
    is_in_range_lem signed k changed.0
    ∙ follows_in_range signed (suc k) value mode changed
        (bitfield_overflow-FollowsMode value signed k mode) okay

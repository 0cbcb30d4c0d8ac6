-- ===== src/Bits/Calls.antt =====
-- commands/bit.py: what a GET subcommand reads after a SET or an INCRBY of the same field.
use mathlib.Core.Path.{subst}
use kagni.Prelude.{
  sym, pos, ◌+◌, ◌≤◌, ◌<◌, ℕ, suc, ◌^◌, ℤ, ◌+ℤ◌, Bool, true, false, Option, none, some,
  if◌then◌else◌, ◌≡◌, refl, ap, ◌∙◌,
}
use kagni.Bits.Field.{
  BitMap, Overflow, bitfield_overflow, is_in_range, interpret, floor_mod, bitmap_size, extract_from,
  extract_bits, store_bits, stored, get_of, set_of, incrby_of, get_sub, set_sub, incrby_sub,
  run_sub,
}
use kagni.Bits.Cells.{in_field, in_bounds, ReadsBack, store_bits-ReadsBack}
use kagni.Bits.Modes.{
  floor_mod_bounded, interpret-floor_mod, positive_span, bitfield_overflow_in_range,
}

module _ {B : Type 0} ⦃m : BitMap B⦄ where
  abbrev pub read_of : Option ((Option ℤ × Bool) × B) → Option ℤ
  read_of none = none
  read_of (some ((reply, _), _)) = reply

  -- the reply of a GET of the field
  abbrev pub field_value : Bool → ℕ → ℕ → B → Option ℤ
  field_value signed width offset b = read_of (run_sub (get_sub signed width offset) b)

  abbrev pub current : Bool → ℕ → ℕ → B → ℤ
  current signed width offset b = elim (field_value signed width offset b) [
    | none ↦ pos 0
    | some v ↦ v
  ]

  -- What a subcommand that writes leaves: the value in the field and every other bit as it was, or
  -- the bitmap as it was if the mode refuses the value.
  abbrev pub Writes :
      Bool → ℕ → ℕ → ℤ × Bool → Option ℤ → B → Option ((Option ℤ × Bool) × B) → Type 0
  Writes signed width offset changed reply before none = false ≡ true
  Writes signed width offset (value, true) reply before (some (answer, b)) =
      (answer ≡ (reply, true))
      × (run_sub (get_sub signed width offset) b ≡ some ((some value, false), b))
      × ((j : ℕ) → j < bitmap_size → in_field offset width j ≡ false → m.has j b ≡ m.has j before)
  Writes signed width offset (value, false) reply before (some result) =
      result ≡ ((none, false), before)

  get-ReadsBack :
      (before after : B) (signed : Bool) (k offset : ℕ) (value : ℤ) (reply : Option ℤ)
      → is_in_range signed (suc k) value ≡ true
      → ReadsBack before offset (suc k) (floor_mod value (2 ^ suc k)) (some after)
      → Writes signed (suc k) offset (value, true) reply before (some ((reply, true), after))
  unfolding run_sub
  get-ReadsBack before after signed k offset value reply h (back, others) = (
    refl,
    ap (get_of signed (suc k) after) back
        ∙ ap (λ v. some ((some v, false), after)) (interpret-floor_mod value signed k h),
    others,
  )

  -- what `store_bits` answers makes the result of the subcommand
  stored_result :
      (b : B) (signed : Bool) (k offset : ℕ) (value reply : ℤ) (next : Option B)
      → is_in_range signed (suc k) value ≡ true
      → ReadsBack b offset (suc k) (floor_mod value (2 ^ suc k)) next
      → Writes signed
          (suc k)
          offset
          (value, true)
          (some reply)
          b
          (elim next [ none ↦ none | some c ↦ some ((some reply, true), c) ])
  stored_result b signed k offset value reply none h back = back
  stored_result b signed k offset value reply (some c) h back =
      get-ReadsBack b c signed k offset value (some reply) h back

  writes_lem :
      (b : B) (signed : Bool) (k offset : ℕ) (reply : ℤ) (changed : ℤ × Bool)
      → offset + suc k ≤ bitmap_size
      → (changed.1 ≡ true → is_in_range signed (suc k) changed.0 ≡ true)
      → Writes signed
          (suc k)
          offset
          changed
          (some reply)
          b
          (if changed.1 then stored reply b offset (suc k) changed.0 else some ((none, false), b))
  writes_lem b signed k offset reply (value, true) top h =
      stored_result b signed k offset value reply
        (store_bits b offset (suc k) (floor_mod value (2 ^ suc k))) (h refl)
        (store_bits-ReadsBack b offset (suc k) (floor_mod value (2 ^ suc k))
          (floor_mod_bounded value (2 ^ suc k) (positive_span k)) top)
  writes_lem b signed k offset reply (value, false) top h = refl

  extract_in_bounds :
      (b : B) (offset width : ℕ)
      → offset + width ≤ bitmap_size
      → extract_bits b offset width ≡ some (extract_from width offset 0 b)
  unfolding extract_bits
  extract_in_bounds b offset width top = rw (in_bounds offset width top) refl

  -- the two statements below, from what `_extract_bits` answers
  abbrev WritesBoth : B → Bool → ℕ → ℕ → ℤ → Overflow → Option ℕ → Type 0
  WritesBoth b signed k offset amount mode extracted =
      let old = read_of (get_of signed (suc k) b extracted) in
      let sum =
        bitfield_overflow ((elim old [ none ↦ pos 0 | some v ↦ v ]) +ℤ amount) signed (suc k)
          mode in
      Writes signed (suc k) offset (bitfield_overflow amount signed (suc k) mode) old b
        (set_of signed (suc k) offset amount mode b extracted)
      × Writes signed (suc k) offset sum (some sum.0) b
          (incrby_of signed (suc k) offset amount mode b extracted)

  -- A SET and an INCRBY of a field of at least one bit, of any type and with any OVERFLOW mode, all
  -- of it at positions below 2^32: a GET of the field after them reads what the mode makes of the
  -- new value, SET replies with what it read before and INCRBY with what it reads after, no other
  -- bit below 2^32 changes, and a refused value changes nothing and is answered with nil.
  pub run_sub-Writes :
      (b : B) (signed : Bool) (k offset : ℕ) (amount : ℤ) (mode : Overflow)
      → offset + suc k ≤ bitmap_size
      → let sum = current signed (suc k) offset b +ℤ amount in
        Writes signed
          (suc k)
          offset
          (bitfield_overflow amount signed (suc k) mode)
          (field_value signed (suc k) offset b)
          b
          (run_sub (set_sub signed (suc k) offset amount mode) b)
        × Writes signed
            (suc k)
            offset
            (bitfield_overflow sum signed (suc k) mode)
            (some (bitfield_overflow sum signed (suc k) mode).0)
            b
            (run_sub (incrby_sub signed (suc k) offset amount mode) b)
  unfolding run_sub
  run_sub-Writes b signed k offset amount mode top =
      let value = extract_from (suc k) offset 0 b in
      let old = interpret value signed (suc k) in
      let sum = bitfield_overflow (old +ℤ amount) signed (suc k) mode in
      subst (WritesBoth b signed k offset amount mode)
        (sym (extract_in_bounds b offset (suc k) top))
        (
          writes_lem b signed k offset old (bitfield_overflow amount signed (suc k) mode) top
              (bitfield_overflow_in_range amount signed k mode),
          writes_lem b signed k offset sum.0 sum top
              (bitfield_overflow_in_range (old +ℤ amount) signed k mode),
        )

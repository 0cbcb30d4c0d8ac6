-- ===== src/Bits/Cells.antt =====
-- commands/bit.py: what is stored at an offset is read back from there, and nothing else changes.
use native.Mathlib.Nat.{pow-suc}
use kagni.Prelude.{
  Option, none, some, ◌≤◌, ℕ, zero, suc, ◌+◌, ◌*◌, ◌/◌, ◌%◌, ◌^◌, ◌<◌, leb, ltb, Bool, true, false,
  not, ◌&&◌, ◌==◌, nat_eq, if◌then◌else◌, ◌≡◌, refl, sym, ap, ◌∙◌, arith,
}
use kagni.Bits.Field.{
  bitmap_size, in_bitmap, BitMap, extract_from, extract_bits, clear_bits, write_bits, store_bits,
}

-- a bit of the field that starts at `offset`
abbrev pub in_field : ℕ → ℕ → ℕ → Bool
in_field offset width j = leb offset j && ltb j (offset + width)

pub in_bounds : (offset width : ℕ) → offset + width ≤ bitmap_size → in_bitmap offset width ≡ true
in_bounds offset width top = ground (arith, top)

module _ {B : Type 0} ⦃m : BitMap B⦄ where
  abbrev pub bit_at : ℕ → B → ℕ
  bit_at j b = if m.has j b then 1 else 0

  has-clear_bits :
      (k offset j : ℕ) (b : B)
      → offset + k ≤ bitmap_size
      → j < bitmap_size
      → m.has j (clear_bits k offset b) ≡ (not (in_field offset k j) && m.has j b)
  unfolding clear_bits
  has-clear_bits zero offset j b top held = ground arith
  has-clear_bits (suc k) offset j b top held = ground (
    arith,
    m.has-discard (offset + k) j (clear_bits k offset b) (omega (arith, top)) held,
    has-clear_bits k offset j b (omega (arith, top)) held,
  )

  -- a write changes no bit outside of the field
  has-write_bits :
      (k offset value j : ℕ) (b : B)
      → offset + k ≤ bitmap_size
      → j < bitmap_size
      → in_field offset k j ≡ false
      → m.has j (write_bits k offset value b) ≡ m.has j b
  unfolding write_bits
  has-write_bits zero offset value j b top held h = refl
  has-write_bits (suc k) offset value j b top held h =
      let rest =
        has-write_bits k offset (value / 2) j (if value % 2 == 1 then m.add (offset + k) b else b)
          (omega (arith, top)) held (ground (arith, h)) in
      ground (arith, h, rest, m.has-add (offset + k) j b (omega (arith, top)) held)

  extract_same :
      (k offset value : ℕ) (a b : B)
      → ((j : ℕ) → in_field offset k j ≡ true → m.has j a ≡ m.has j b)
      → extract_from k offset value a ≡ extract_from k offset value b
  unfolding extract_from
  extract_same zero offset value a b h = refl
  extract_same (suc k) offset value a b h =
      let first : m.has offset a ≡ m.has offset b = h offset (ground arith) in
      rw (first) (
        extract_same k (offset + 1) (value * 2 + (if m.has offset b then 1 else 0)) a b
          (λ j e. h j (ground (arith, e))))

  -- the last bit is read last
  extract_last :
      (k offset value : ℕ) (b : B)
      → extract_from (suc k) offset value b
        ≡ extract_from k offset value b * 2 + bit_at (offset + k) b
  unfolding extract_from
  extract_last zero offset value b = ap (λ i. value * 2 + bit_at i b) {x = offset} (omega arith)
  extract_last (suc k) offset value b =
      extract_last k (offset + 1) (value * 2 + bit_at offset b) b
      ∙ ap (λ i. extract_from k (offset + 1) (value * 2 + bit_at offset b) b * 2 + bit_at i b)
          {x = offset + 1 + k} (omega arith)

  extract_clear :
      (k offset : ℕ) (b : B)
      → ((j : ℕ) → in_field offset k j ≡ true → m.has j b ≡ false)
      → extract_from k offset 0 b ≡ 0
  extract_clear zero offset b h = unfold extract_from in refl
  extract_clear (suc k) offset b h =
      let clear : m.has (offset + k) b ≡ false = h (offset + k) (ground arith) in
      extract_last k offset 0 b
      ∙ omega (
        arith,
        extract_clear k offset b (λ j e. h j (ground (arith, e))),
        ap (λ t. if◌then◌else◌ {A = ℕ} t 1 0) clear,
      )

  write_bits_nothing : (k offset : ℕ) (b : B) → write_bits k offset 0 b ≡ b
  unfolding write_bits
  write_bits_nothing zero offset b = refl
  write_bits_nothing (suc k) offset b = refl

  -- the loop may as well go on after the value is zero
  write_bits_step :
      (k offset value : ℕ) (b : B)
      → write_bits (suc k) offset value b
        ≡ write_bits k offset (value / 2) (if value % 2 == 1 then m.add (offset + k) b else b)
  unfolding write_bits
  write_bits_step k offset zero b = sym (write_bits_nothing k offset b)
  write_bits_step k offset (suc value) b =
      ap
        (λ t.
          if t
          then b
          else write_bits k offset (suc value / 2)
              (if suc value % 2 == 1 then m.add (offset + k) b else b))
        {x = suc value == 0} {y = false} (ground arith)

  bit_at-last :
      (k offset value : ℕ) (b : B)
      → offset + k < bitmap_size
      → m.has (offset + k) b ≡ false
      → bit_at
          (offset + k)
          (write_bits k offset (value / 2) (if value % 2 == 1 then m.add (offset + k) b else b))
        ≡ value % 2
  bit_at-last k offset value b held clear =
      let next = if value % 2 == 1 then m.add (offset + k) b else b in
      ground (
        arith,
        clear,
        has-write_bits k offset (value / 2) (offset + k) next (omega (arith, held)) held
            (ground (arith)),
        m.has-add (offset + k) (offset + k) b held held,
      )

  extract-write_bits :
      (k offset value : ℕ) (b : B)
      → value < 2 ^ k
      → offset + k ≤ bitmap_size
      → ((j : ℕ) → in_field offset k j ≡ true → m.has j b ≡ false)
      → extract_from k offset 0 (write_bits k offset value b) ≡ value
  extract-write_bits zero offset value b small top h =
      unfold extract_from write_bits in omega (arith, small)
  extract-write_bits (suc k) offset value b small top h =
      let next = if value % 2 == 1 then m.add (offset + k) b else b in
      let rest =
        extract-write_bits k offset (value / 2) next (omega (arith, small, pow-suc 2 k))
          (omega (arith, top))
          (λ j e. ground (
            arith,
            e,
            h j (ground (arith, e)),
            m.has-add (offset + k) j b (omega (arith, top)) (ground (arith, e, top)),
          )) in
      let last =
        bit_at-last k offset value b (omega (arith, top)) (h (offset + k) (ground arith)) in
      ap (extract_from (suc k) offset 0) (write_bits_step k offset value b)
      ∙ extract_last k offset 0 (write_bits k offset (value / 2) next)
      ∙ omega (arith, rest, last)

  -- What `_store_bits` leaves, if it does not raise: the value is read from the field, and every
  -- other position that a bitmap can hold is as it was.
  abbrev pub ReadsBack : B → ℕ → ℕ → ℕ → Option B → Type 0
  ReadsBack before offset width value none = false ≡ true
  ReadsBack before offset width value (some b) =
      (extract_bits b offset width ≡ some value)
      × ((j : ℕ) → j < bitmap_size → in_field offset width j ≡ false → m.has j b ≡ m.has j before)

  written-ReadsBack :
      (b : B) (offset width value : ℕ)
      → value < 2 ^ width
      → offset + width ≤ bitmap_size
      → ReadsBack b offset width value
          (some (write_bits width offset value (clear_bits width offset b)))
  unfolding extract_bits
  written-ReadsBack b offset width value small top =
      let cleared = clear_bits width offset b in
      let done = write_bits width offset value cleared in
      (
        ap (λ t. if◌then◌else◌ {A = Option ℕ} t (some (extract_from width offset 0 done)) none)
              (in_bounds offset width top)
            ∙ ap some (
                extract-write_bits width offset value cleared small top (λ j e.
                  ground (arith, has-clear_bits width offset j b top (ground (arith, e, top)), e))),
        λ j held e.
            has-write_bits width offset value j cleared top held e
            ∙ ground (arith, has-clear_bits width offset j b top held, e),
      )

  -- A value below 2^width that is stored in a field, all of it at positions below 2^32, is read
  -- back, and no other bit below 2^32 changes.
  pub store_bits-ReadsBack :
      (b : B) (offset width value : ℕ)
      → value < 2 ^ width
      → offset + width ≤ bitmap_size
      → ReadsBack b offset width value (store_bits b offset width value)
  unfolding store_bits
  store_bits-ReadsBack b offset width value small top =
      rw (in_bounds offset width top) (written-ReadsBack b offset width value small top)

-- ===== src/Bits/Field.antt =====
-- commands/bit.py: the bits of a BITFIELD and the OVERFLOW modes, and the loop over the
-- subcommands. The bitmap is a third-party container: a parameter with the laws of a set of
-- numbers.
use kagni.Prelude.{
  ℕ, ◌<◌, zero, suc, ◌+◌, ◌-◌, ◌*◌, ◌/◌, ◌%◌, ◌^◌, leb, ℤ, pos, negsuc, neg, ◌+ℤ◌, ◌-ℤ◌, leb_ℤ,
  ltb_ℤ, Bool, true, false, not, ◌&&◌, ◌||◌, Option, none, some, List, [], ◌∷◌, ◌==◌, nat_eq,
  if◌then◌else◌, ◌≡◌,
}

-- A `pyroaring.BitMap` holds integers of 32 bits; a method that is given another one raises
-- OverflowError.
abbrev pub bitmap_size : ℕ
bitmap_size = 2 ^ 32

-- The empty one, membership, `add` and `discard`, for the integers that it holds.
pub record BitMap (B : Type 0) : Type 0 where
  pub empty : B
  pub has : ℕ → B → Bool
  pub add : ℕ → B → B
  pub discard : ℕ → B → B
  pub has-empty : (j : ℕ) → j < bitmap_size → has j empty ≡ false
  pub has-add :
      (i j : ℕ) (b : B)
      → i < bitmap_size
      → j < bitmap_size
      → has j (add i b) ≡ ((i == j) || has j b)
  pub has-discard :
      (i j : ℕ) (b : B)
      → i < bitmap_size
      → j < bitmap_size
      → has j (discard i b) ≡ (not (i == j) && has j b)

-- the positions of a field are all such integers
abbrev pub in_bitmap : ℕ → ℕ → Bool
in_bitmap offset width = width == 0 || leb (offset + width) bitmap_size

pub data Overflow : Type 0 where
  wrap sat fail : Overflow

-- `a % n` for a positive `n`
unfoldable pub floor_mod : ℤ → ℕ → ℕ
floor_mod (pos a) n = a % n
floor_mod (negsuc a) n = n - 1 - a % n

-- `_interpret`
unfoldable pub interpret : ℕ → Bool → ℕ → ℤ
interpret value signed width =
    if signed && leb (2 ^ (width - 1)) value then pos value -ℤ pos (2 ^ width) else pos value

-- the least and the greatest value of a type
unfoldable pub lowest : Bool → ℕ → ℤ
lowest signed width = if signed then neg (pos (2 ^ (width - 1))) else pos 0

unfoldable pub highest : Bool → ℕ → ℤ
highest signed width = if signed then pos (2 ^ (width - 1)) -ℤ pos 1 else pos (2 ^ width) -ℤ pos 1

-- `lo <= value <= hi`
abbrev pub is_in_range : Bool → ℕ → ℤ → Bool
is_in_range signed width value =
    leb_ℤ (lowest signed width) value && leb_ℤ value (highest signed width)

-- `_bitfield_overflow` of a value that the type does not have
unfoldable pub out_of_range : ℤ → Bool → ℕ → Overflow → ℤ × Bool
unfolding lowest highest floor_mod interpret
out_of_range value signed width sat =
    (if ltb_ℤ value (lowest signed width) then lowest signed width else highest signed width, true)
out_of_range value signed width wrap = (interpret (floor_mod value (2 ^ width)) signed width, true)
out_of_range value signed width fail = (pos 0, false)

-- `_bitfield_overflow`
unfoldable pub bitfield_overflow : ℤ → Bool → ℕ → Overflow → ℤ × Bool
unfolding out_of_range lowest highest
bitfield_overflow value signed width mode =
    if is_in_range signed width value then (value, true) else out_of_range value signed width mode

-- a subcommand, after it was parsed
pub data Sub : Type 0 where
  get_sub : Bool → ℕ → ℕ → Sub
  set_sub incrby_sub : Bool → ℕ → ℕ → ℤ → Overflow → Sub

module _ {B : Type 0} ⦃m : BitMap B⦄ where
  -- the loop of `_extract_bits`, with the value so far
  unfoldable pub extract_from : ℕ → ℕ → ℕ → B → ℕ
  extract_from zero offset value bmap = value
  extract_from (suc k) offset value bmap =
      extract_from k (offset + 1) (value * 2 + (if m.has offset bmap then 1 else 0)) bmap

  -- `_extract_bits`, which changes nothing; `none` is the OverflowError at a position beyond.
  unfoldable pub extract_bits : B → ℕ → ℕ → Option ℕ
  unfolding extract_from
  extract_bits bmap offset width =
      if in_bitmap offset width then some (extract_from width offset 0 bmap) else none

  -- the two loops of `_store_bits`
  unfoldable pub clear_bits : ℕ → ℕ → B → B
  clear_bits zero offset bmap = bmap
  clear_bits (suc k) offset bmap = m.discard (offset + k) (clear_bits k offset bmap)

  unfoldable pub write_bits : ℕ → ℕ → ℕ → B → B
  write_bits zero offset value bmap = bmap
  write_bits (suc k) offset value bmap =
      let next =
        write_bits k offset (value / 2)
          (if value % 2 == 1 then m.add (offset + k) bmap else bmap) in
      if value == 0 then bmap else next

  -- `_store_bits`. For a field that goes beyond, its first loop raises; `_bitfield` has read the
  -- field before, and has raised there.
  unfoldable pub store_bits : B → ℕ → ℕ → ℕ → Option B
  unfolding clear_bits write_bits
  store_bits bmap offset width value =
      if in_bitmap offset width
      then some (write_bits width offset value (clear_bits width offset bmap))
      else none

  -- the write of a subcommand, with its reply
  abbrev pub stored : ℤ → B → ℕ → ℕ → ℤ → Option ((Option ℤ × Bool) × B)
  stored reply bmap offset width value =
      elim (store_bits bmap offset width (floor_mod value (2 ^ width))) [
        | none ↦ none
        | some next ↦ some ((some reply, true), next)
      ]

  -- The three kinds of subcommands, from what `_extract_bits` answers: the reply, where `none` is
  -- nil, whether it wrote, and the bitmap; or the OverflowError.
  abbrev pub get_of : Bool → ℕ → B → Option ℕ → Option ((Option ℤ × Bool) × B)
  get_of signed width bmap none = none
  get_of signed width bmap (some value) = some ((some (interpret value signed width), false), bmap)

  abbrev pub set_of : Bool → ℕ → ℕ → ℤ → Overflow → B → Option ℕ → Option ((Option ℤ × Bool) × B)
  set_of signed width offset amount overflow bmap none = none
  set_of signed width offset amount overflow bmap (some old) =
      let changed = bitfield_overflow amount signed width overflow in
      if changed.1
      then stored (interpret old signed width) bmap offset width changed.0
      else some ((none, false), bmap)

  abbrev pub incrby_of : Bool → ℕ → ℕ → ℤ → Overflow → B → Option ℕ → Option ((Option ℤ × Bool) × B)
  incrby_of signed width offset amount overflow bmap none = none
  incrby_of signed width offset amount overflow bmap (some value) =
      let changed =
        bitfield_overflow (interpret value signed width +ℤ amount) signed width overflow in
      if changed.1 then stored changed.0 bmap offset width changed.0 else some ((none, false), bmap)

  unfoldable pub run_sub : Sub → B → Option ((Option ℤ × Bool) × B)
  unfolding extract_bits store_bits interpret bitfield_overflow floor_mod
  run_sub (get_sub signed width offset) bmap =
      get_of signed width bmap (extract_bits bmap offset width)
  run_sub (set_sub signed width offset amount overflow) bmap =
      set_of signed width offset amount overflow bmap (extract_bits bmap offset width)
  run_sub (incrby_sub signed width offset amount overflow) bmap =
      incrby_of signed width offset amount overflow bmap (extract_bits bmap offset width)

  -- The loop of `_bitfield`: the replies and whether anything was written, or the OverflowError;
  -- and the bitmap, as far as it was changed.
  unfoldable pub run_subs : List Sub → B → Option (List (Option ℤ) × Bool) × B
  unfolding run_sub
  run_subs [] bmap = (some ([], false), bmap)
  run_subs (sub ∷ rest) bmap = elim (run_sub sub bmap) [
    | none ↦ (none, bmap)
    | some ((reply, wrote), next) ↦
        let (out, done) = run_subs rest next in
        (elim out [ none ↦ none | some (more, later) ↦ some (reply ∷ more, wrote || later) ], done)
  ]

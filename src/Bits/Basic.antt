-- ===== src/Bits/Basic.antt =====
-- commands/bit.py: SETBIT, GETBIT, BITFIELD and BITFIELD_RO.
use kagni.Prelude.{
  ℕ, ℤ, pos, pos_part, ltb_ℤ, beq_ℤ, is_neg, Bool, true, false, not, ◌&&◌, ◌||◌, Option, none, some,
  List, [], ◌∷◌, Bytes, if◌then◌else◌,
}
use kagni.Events.{Event}
use kagni.Data
use kagni.Data.{Clock, Data}
use kagni.Text.{codes}
use kagni.Resp.{Error, Reply, Replies}
use kagni.Common.Errors.{err_error, internal_error}
use kagni.Common.{
  Stored, bits, kind_bitmap, Command, Result, ok, err, pure, call, raise_if, ◌>>=◌, ◌>>◌, update,
  after_write, expect_kind,
}
use kagni.Bits.Field.{BitMap, wrap, Sub, run_subs}
use kagni.Bits.Grammar.{bit_offset, max_offset, parse_subs}

abbrev pub bit_value : Error
bit_value = err_error (codes "bit is not an integer or out of range")

abbrev pub bit_reply : Bool → ℤ
bit_reply b = if b then pos 1 else pos 0

abbrev slots_of : List (Option ℤ) → Replies
slots_of [] = Replies.empty
slots_of (none ∷ rest) = Replies.item Reply.nil (slots_of rest)
slots_of (some n ∷ rest) = Replies.item (Reply.num n) (slots_of rest)

abbrev pub bits_of : {Score : Type 0} → Option (Stored Score) → Option (List ℕ)
bits_of (some (bits b)) = some b
bits_of _ = none

abbrev pub bit_of : ⦃m : BitMap (List ℕ)⦄ → ℕ → Option (List ℕ) → Bool
bit_of bit none = false
bit_of ⦃m⦄ bit (some b) = m.has bit b

-- OverflowError of `in`, which the dispatcher answers with an internal error
abbrev pub beyond : ℤ → Option (List ℕ) → Bool
beyond bit none = false
beyond bit (some b) = ltb_ℤ (pos max_offset) bit

module _ {Score : Type 0} ⦃m : BitMap (List ℕ)⦄ where
  -- `_bitmap`
  unfoldable pub bitmap_at : Bytes → Command (Stored Score) (Option (List ℕ))
  unfolding expect_kind
  bitmap_at key = expect_kind key kind_bitmap >>= λ v. pure (bits_of v)

  unfoldable pub set_bit :
      Bytes → ℕ → Bool → Option (List ℕ) → Data (Stored Score) → Bool × Data (Stored Score)
  unfolding after_write update
  set_bit key bit val none d =
      let created = Data.set_item key (bits m.empty) d in
      (
        false,
        if val
            then after_write key Event.setbit (update key (bits (m.add bit m.empty)) created)
            else created,
      )
  set_bit key bit val (some b) d =
      let previous = m.has bit b in
      let next = if val then m.add bit b else if previous then m.discard bit b else b in
      let written = update key (bits next) d in
      (
        previous,
        if (previous && val) || (not previous && not val)
            then written
            else after_write key Event.setbit written,
      )

  unfoldable pub setbit : Bytes → ℤ → ℤ → Command (Stored Score) Reply
  unfolding bitmap_at set_bit
  setbit key bit val = do
    raise_if (is_neg bit || ltb_ℤ (pos max_offset) bit) bit_offset
    raise_if (not (beq_ℤ val (pos 0) || beq_ℤ val (pos 1))) bit_value
    bmap ← bitmap_at key
    previous ← call (λ _ d. set_bit key (pos_part bit) (beq_ℤ val (pos 1)) bmap d)
    pure (Reply.num (bit_reply previous))

  unfoldable pub getbit : Bytes → ℤ → Command (Stored Score) Reply
  unfolding bitmap_at
  getbit key bit = do
    raise_if (is_neg bit) bit_offset
    bmap ← bitmap_at key
    raise_if (beyond bit bmap) internal_error
    pure (Reply.num (bit_reply (bit_of (pos_part bit) bmap)))

  -- The execution part of `_bitfield`. A bitmap that is stored was changed in place also where a
  -- later subcommand raises.
  unfoldable pub run_on :
      Bytes
      → List Sub
      → Option (List ℕ)
      → Data (Stored Score)
      → Result (List (Option ℤ)) × Data (Stored Score)
  unfolding run_subs update after_write
  run_on key subs none d =
      let (result, b) = run_subs subs m.empty in
      elim result [
        | none ↦ (err internal_error, d)
        | some (out, wrote) ↦ (
          ok out,
          if wrote then after_write key Event.setbit (Data.set_item key (bits b) d) else d,
        )
      ]
  run_on key subs (some bmap) d =
      let (result, b) = run_subs subs bmap in
      elim result [
        | none ↦ (err internal_error, update key (bits b) d)
        | some (out, wrote) ↦
            (ok out, if wrote then after_write key Event.setbit (update key (bits b) d) else d)
      ]

  -- `_bitfield`
  unfoldable pub bitfield_command : Bool → Bytes → List Bytes → Command (Stored Score) Reply
  unfolding parse_subs bitmap_at run_on
  bitfield_command ro key args = do
    subs ← (λ c d. (parse_subs ro wrap args, d))
    bmap ← bitmap_at key
    out ← (λ _ d. run_on key subs bmap d)
    pure (Reply.arr (slots_of out))

  unfoldable pub bitfield : Bytes → List Bytes → Command (Stored Score) Reply
  unfolding bitfield_command
  bitfield key args = bitfield_command false key args

  unfoldable pub bitfield_ro : Bytes → List Bytes → Command (Stored Score) Reply
  unfolding bitfield_command
  bitfield_ro key args = bitfield_command true key args

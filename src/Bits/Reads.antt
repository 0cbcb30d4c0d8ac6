-- ===== src/Bits/Reads.antt =====
-- commands/bit.py: what GETBIT answers after SETBIT.
use kagni.Prelude.{
  ℕ, ◌≤◌, beq_ℤ, is_neg, pos, Bool, true, false, not, ◌&&◌, ◌||◌, Option, none, some, List, Bytes,
  bytes_eq, nat_eq, ◌==◌, if◌then◌else◌, ◌≡◌, refl, sym, ap, ◌∙◌, arith, Bool-cases, inl, inr,
}
use kagni.Events.{Event}
use kagni.Data
use kagni.Data.{Clock, Data}
use kagni.Resp.{Reply}
use kagni.Common.Errors.{internal_error}
use kagni.Common.{
  Stored, string, hash, members, elements, ranked, bits, kind_bitmap, Command, check_kind,
  expect_kind, kind_of, Result, ok, pure, call, raise_if, ◌>>=◌, ◌>>◌, update, after_write,
}
use kagni.Common.Reads.{
  get_item-update, get_item-set_item, get_item-after_write, get_item-get, get-get_item,
}
use kagni.Bits.Field.{BitMap}
use kagni.Bits.Grammar.{bit_offset, max_offset}
use kagni.Bits.Basic.{
  beyond, bit_value, bit_reply, bits_of, bitmap_at, bit_of, set_bit, setbit, getbit,
}

-- the bitmap of a key that is missing or holds one
abbrev pub bitmap_or_none : {Score : Type 0} → Option (Stored Score) → Option (Option (List ℕ))
bitmap_or_none none = some none
bitmap_or_none (some (bits b)) = some (some b)
bitmap_or_none (some _) = none

checked :
    {Score : Type 0}
    → (stored : Option (Stored Score)) (d : Data (Stored Score)) (found : Option (List ℕ))
      (c : Clock)
    → bitmap_or_none stored ≡ some found
    → ((λ _ _. check_kind kind_bitmap (stored, d)) >>= λ v. pure (bits_of v)) c d ≡ (ok found, d)
unfolding kind_of
checked none d found c h = cc
checked (some (bits b)) d found c h = cc
checked (some (string _)) d found c h = absurd (cc)
checked (some (hash _)) d found c h = absurd (cc)
checked (some (members _)) d found c h = absurd (cc)
checked (some (elements _)) d found c h = absurd (cc)
checked (some (ranked _)) d found c h = absurd (cc)

holds :
    {Score : Type 0}
    → (stored : Option (Stored Score)) (b : List ℕ) → bitmap_or_none stored ≡ some (some b)
    → stored ≡ some (bits b)
holds none b h = absurd (cc)
holds (some (bits a)) b h = cc
holds (some (string _)) b h = absurd (cc)
holds (some (hash _)) b h = absurd (cc)
holds (some (members _)) b h = absurd (cc)
holds (some (elements _)) b h = absurd (cc)
holds (some (ranked _)) b h = absurd (cc)

module _ ⦃m : BitMap (List ℕ)⦄ where
  -- the bits that SETBIT leaves
  abbrev pub changed_bits : ℕ → Bool → Option (List ℕ) → List ℕ
  changed_bits bit val none = if val then m.add bit m.empty else m.empty
  changed_bits bit val (some b) =
      if val then m.add bit b else if m.has bit b then m.discard bit b else b

  has-changed_bits :
      (bit : ℕ) (val : Bool) (found : Option (List ℕ)) (j : ℕ)
      → bit ≤ max_offset
      → j ≤ max_offset
      → m.has j (changed_bits bit val found) ≡ (if bit == j then val else bit_of j found)
  has-changed_bits bit true none j small held = ground (
    arith,
    m.has-add bit j m.empty (omega (arith, small)) (omega (arith, held)),
    m.has-empty j (omega (arith, held)),
  )
  has-changed_bits bit false none j small held = ground (arith, m.has-empty j (omega (arith, held)))
  has-changed_bits bit true (some b) j small held =
      ground (arith, m.has-add bit j b (omega (arith, small)) (omega (arith, held)))
  has-changed_bits bit false (some b) j small held =
      let cut = m.has-discard bit j b (omega (arith, small)) (omega (arith, held)) in
      elim (Bool-cases (bit == j)) [
        | inl same ↦
            let one = ap (λ i. m.has i b) ((nat_eq.equals_iff bit j).0 same) in
            ground (arith, same, one, cut)
        | inr other ↦ ground (arith, other, cut)
      ]

not_beyond : (j : ℕ) (found : Option (List ℕ)) → j ≤ max_offset → beyond (pos j) found ≡ false
not_beyond j none held = refl
not_beyond j (some b) held = ground (arith, held)

natural : (n : ℕ) → is_neg (pos n) ≡ false
natural n = ground arith

module _ {Score : Type 0} ⦃m : BitMap (List ℕ)⦄ where
  bitmap_at-found :
      (key : Bytes) (c : Clock) (d : Data (Stored Score)) (found : Option (List ℕ))
      → bitmap_or_none (Data.get_item key c d) ≡ some found
      → bitmap_at key c d ≡ (ok found, (Data.get key c d).1)
  unfolding bitmap_at expect_kind
  bitmap_at-found key c d found h =
      checked (Data.get key c d).0 (Data.get key c d).1 found c
        (ap bitmap_or_none (get-get_item key c d) ∙ h)

  getbit-found :
      (key : Bytes) (j : ℕ) (c : Clock) (d : Data (Stored Score)) (found : Option (List ℕ))
      → j ≤ max_offset
      → bitmap_or_none (Data.get_item key c d) ≡ some found
      → (getbit key (pos j) c d).0 ≡ ok (Reply.num (bit_reply (bit_of j found)))
  unfolding getbit
  getbit-found key j c d found held h =
      ap
        (λ t.
          ((do
            raise_if t bit_offset
            bmap ← bitmap_at key
            raise_if (beyond (pos j) bmap) internal_error
            pure (Reply.num (bit_reply (bit_of j bmap))))
            c d).0)
        (natural j)
      ∙ ap
          (λ (p : Result (Option (List ℕ)) × Data (Stored Score)).
            (((λ _ _. p) >>= λ bmap.
            raise_if (beyond (pos j) bmap) internal_error
            >> pure (Reply.num (bit_reply (bit_of j bmap))))
              c d).0)
          (bitmap_at-found key c d found h)
      ∙ ap
          (λ t.
            ((raise_if t internal_error >> pure (Reply.num (bit_reply (bit_of j found)))) c
              (Data.get key c d).1).0)
          (not_beyond j found held)

  set_bit-stores :
      (key : Bytes) (bit : ℕ) (val : Bool) (c : Clock) (d : Data (Stored Score))
      (found : Option (List ℕ))
      → bitmap_or_none (Data.get_item key c d) ≡ some found
      → Data.get_item key c (set_bit key bit val found d).1
        ≡ some (bits (changed_bits bit val found))
  unfolding set_bit
  set_bit-stores key bit true c d none h =
      get_item-after_write key key Event.setbit c
        (update key (bits (m.add bit m.empty)) (Data.set_item key (bits m.empty) d))
      ∙ get_item-update key (bits (m.add bit m.empty)) (bits m.empty) c
          (Data.set_item key (bits m.empty) d) (get_item-set_item key (bits m.empty) c d)
  set_bit-stores key bit false c d none h = get_item-set_item key (bits m.empty) c d
  set_bit-stores key bit val c d (some b) h =
      let next = changed_bits bit val (some b) in
      let written =
        get_item-update key (bits next) (bits b) c d (holds (Data.get_item key c d) b h) in
      elim ((m.has bit b && val) || (not (m.has bit b) && not val))
        as (λ t.
          Data.get_item key c (
            if t
            then update key (bits next) d
            else after_write key Event.setbit (update key (bits next) d))
          ≡ some (bits next)) [
            | true ↦ written
            | false ↦
                get_item-after_write key key Event.setbit c (update key (bits next) d) ∙ written
          ]

  previous_bit :
      (key : Bytes) (bit : ℕ) (val : Bool) (found : Option (List ℕ)) (d : Data (Stored Score))
      → (set_bit key bit val found d).0 ≡ bit_of bit found
  unfolding set_bit
  previous_bit key bit val none d = refl
  previous_bit key bit val (some b) d = refl

  -- SETBIT after the bitmap was found
  abbrev answer : Bytes → ℕ → Option (List ℕ) → Bool → Command (Stored Score) Reply
  answer key bit bmap val =
      call (λ _ d. set_bit key bit val bmap d) >>= λ previous. pure (Reply.num (bit_reply previous))

  setbit-runs :
      (key : Bytes) (bit : ℕ) (val : Bool) (c : Clock) (d : Data (Stored Score))
      (found : Option (List ℕ))
      → bit ≤ max_offset
      → bitmap_or_none (Data.get_item key c d) ≡ some found
      → setbit key (pos bit) (bit_reply val) c d ≡ (
        ok (Reply.num (bit_reply (bit_of bit found))),
        (set_bit key bit val found (Data.get key c d).1).1,
      )
  unfolding setbit
  setbit-runs key bit val c d found small h =
      ap
        (λ t.
          (do
            raise_if t bit_offset
            raise_if (not (beq_ℤ (bit_reply val) (pos 0) || beq_ℤ (bit_reply val) (pos 1)))
                bit_value
            bmap ← bitmap_at key
            answer key bit bmap (beq_ℤ (bit_reply val) (pos 1)))
            c d)
        {y = false} (ground (arith, small))
      ∙ ap
          (λ t.
            (do
              raise_if t bit_value
              bmap ← bitmap_at key
              answer key bit bmap (beq_ℤ (bit_reply val) (pos 1)))
              c d)
          (elim val
            as (λ v. not (beq_ℤ (bit_reply v) (pos 0) || beq_ℤ (bit_reply v) (pos 1)) ≡ false) [
              | true ↦ refl
              | false ↦ refl
            ])
      ∙ ap
          (λ (p : Result (Option (List ℕ)) × Data (Stored Score)).
            ((λ _ _. p) >>= λ bmap. answer key bit bmap (beq_ℤ (bit_reply val) (pos 1))) c d)
          (bitmap_at-found key c d found h)
      ∙ ap (λ v. answer key bit found v c (Data.get key c d).1)
          (elim val as (λ v. beq_ℤ (bit_reply v) (pos 1) ≡ v) [ true ↦ refl | false ↦ refl ])
      ∙ ap (λ b. (ok (Reply.num (bit_reply b)), (set_bit key bit val found (Data.get key c d).1).1))
          (previous_bit key bit val found (Data.get key c d).1)

  -- SETBIT of an offset below 2^32 on a key that is missing or holds a bitmap replies with the bit
  -- that was there, and GETBIT then answers with the new bit at that offset and as before at any
  -- other below 2^32.
  pub getbit-setbit :
      (key : Bytes) (bit j : ℕ) (val : Bool) (c : Clock) (d : Data (Stored Score))
      (found : Option (List ℕ))
      → bit ≤ max_offset
      → j ≤ max_offset
      → bitmap_or_none (Data.get_item key c d) ≡ some found
      → ((setbit key (pos bit) (bit_reply val) c d).0 ≡ (getbit key (pos bit) c d).0)
        × ((getbit key (pos j) c (setbit key (pos bit) (bit_reply val) c d).1).0
            ≡ (if bit == j then ok (Reply.num (bit_reply val)) else (getbit key (pos j) c d).0))
  getbit-setbit key bit j val c d found small held h =
      let ran = setbit-runs key bit val c d found small h in
      let there = ap bitmap_or_none (get_item-get key key c d) ∙ h in
      let stored = set_bit-stores key bit val c (Data.get key c d).1 found there in
      (
        ap (λ p. p.0) ran ∙ sym (getbit-found key bit c d found small h),
        ap (λ (p : Result Reply × Data (Stored Score)). (getbit key (pos j) c p.1).0) ran
            ∙ getbit-found key j c (set_bit key bit val found (Data.get key c d).1).1
                (some (changed_bits bit val found)) held (ap bitmap_or_none stored)
            ∙ ap (λ b. ok (Reply.num (bit_reply b))) (has-changed_bits bit val found j small held)
            ∙ elim (bit == j)
                as (λ t.
                  ok (Reply.num (bit_reply (if t then val else bit_of j found)))
                  ≡ (if t then ok (Reply.num (bit_reply val)) else (getbit key (pos j) c d).0)) [
                    | true ↦ refl
                    | false ↦ sym (getbit-found key j c d found held h)
                  ],
      )

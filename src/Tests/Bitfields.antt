-- ===== src/Tests/Bitfields.antt =====
-- The theorems on bitmaps at concrete inputs, with the bitmap as the list of its bits.
use kagni.Prelude.{
  ℕ, ◌^◌, ◌≤◌, ◌<◌, ℤ, pos, negsuc, ◌+ℤ◌, Bool, true, false, not, ◌&&◌, ◌||◌, Option, none, some,
  List, [], ◌∷◌, Bytes, bytes_eq, ◌==◌, nat_eq, nat_beq, elem, if◌then◌else◌, ◌≡◌, refl, arith,
  Bool-cases, inl, inr,
}
use kagni.Text.{codes}
use kagni.Dict.{lookup}
use kagni.Data
use kagni.Data.{Clock, Data}
use kagni.Resp.{Reply}
use kagni.Common.{Stored, bits, ok}
use kagni.Bits.{
  BitMap, wrap, sat, bitfield_overflow, store_bits, set_sub, incrby_sub, run_sub, setbit, getbit,
  bit_reply,
}
use kagni.Bits.Cells.{ReadsBack, store_bits-ReadsBack}
use kagni.Bits.Modes.{FollowsMode, bitfield_overflow-FollowsMode}
use kagni.Bits.Calls.{field_value, current, Writes, run_sub-Writes}
use kagni.Bits.Reads.{getbit-setbit}

abbrev without : ℕ → List ℕ → List ℕ
without i [] = []
without i (x ∷ xs) = let rest = without i xs in if i == x then rest else x ∷ rest

elem-without : (i j : ℕ) (l : List ℕ) → elem j (without i l) ≡ (not (i == j) && elem j l)
unfolding elem
elem-without i j [] = ground arith
elem-without i j (x ∷ xs) = ground (arith, elem-without i j xs)

elem_cons : (i j : ℕ) (l : List ℕ) → elem j (i ∷ l) ≡ ((i == j) || elem j l)
unfolding elem
elem_cons i j l = ground arith

instance list_bitmap : BitMap (List ℕ)
unfolding elem
list_bitmap = record {
  empty = [];
  has = λ j l. elem j l;
  add = λ i l. i ∷ l;
  discard = without;
  has-empty = λ j held. refl;
  has-add = λ i j l _ _. elem_cons i j l;
  has-discard = λ i j l _ _. elem-without i j l;
}

abbrev two_bits : List ℕ
two_bits = 4 ∷ 9 ∷ []

abbrev one_bit : List ℕ
one_bit = 5 ∷ []

abbrev held_bits : List ℕ
held_bits = 3 ∷ []

store_bits-ReadsBack_example : ReadsBack two_bits 3 5 19 (store_bits two_bits 3 5 19)
store_bits-ReadsBack_example = store_bits-ReadsBack two_bits 3 5 19 (omega arith) (omega arith)

-- 200 in an i8
bitfield_overflow-FollowsMode_example :
    FollowsMode wrap true 8 (pos 200) (bitfield_overflow (pos 200) true 8 wrap)
bitfield_overflow-FollowsMode_example = bitfield_overflow-FollowsMode (pos 200) true 7 wrap

run_sub-Writes_example :
    Writes true 8 4
      (bitfield_overflow (pos 200) true 8 sat)
      (field_value true 8 4 one_bit)
      one_bit
      (run_sub (set_sub true 8 4 (pos 200) sat) one_bit)
    × Writes true 8 4
        (bitfield_overflow (current true 8 4 one_bit +ℤ pos 200) true 8 sat)
        (some (bitfield_overflow (current true 8 4 one_bit +ℤ pos 200) true 8 sat).0)
        one_bit
        (run_sub (incrby_sub true 8 4 (pos 200) sat) one_bit)
run_sub-Writes_example = run_sub-Writes one_bit true 7 4 (pos 200) sat (omega arith)

abbrev now : Clock
now = record { mono = pos 10; wall = pos 1010 }

abbrev one_bitmap : Data (Stored ℕ)
one_bitmap = record Data.init {
  storage = (codes "b", record { value = bits held_bits; expires_at = none }) ∷ [];
}

getbit-setbit_example :
    ((setbit (codes "b") (pos 7) (bit_reply true) now one_bitmap).0
      ≡ (getbit (codes "b") (pos 7) now one_bitmap).0)
    × ((getbit
          (codes "b")
          (pos 3)
          now
          (setbit (codes "b") (pos 7) (bit_reply true) now one_bitmap).1).0
        ≡ (if nat_beq 7 3
            then ok (Reply.num (bit_reply true))
            else (getbit (codes "b") (pos 3) now one_bitmap).0))
unfolding Data.get_item Data.live lookup kagni.Prelude.bytes_beq
getbit-setbit_example =
    getbit-setbit (codes "b") 7 3 true now one_bitmap (some held_bits) (omega arith) (omega arith)
      refl

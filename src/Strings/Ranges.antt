-- ===== src/Strings/Ranges.antt =====
-- commands/basic.py: GETRANGE reads what SETRANGE wrote.
use kagni.Prelude.{
  ℕ, zero, suc, ◌+◌, ◌-◌, ℤ, is_neg, pos, ◌+ℤ◌, [], ◌++◌, Bytes, if◌then◌else◌, length, take, drop,
  ltb, ◌≡◌, refl, ap, ◌∙◌, sym, arith, length-append, length-take, take-append, drop-append,
  Bool-cases, inl, inr, append-nil,
}
use mathlib.Core.List.{append_assoc}
use kagni.Strings.Basic.{slice_index, py_slice, getrange_of, zeros, setrange_of}

length-zeros : (n : ℕ) → length (zeros n) ≡ n
unfolding zeros
length-zeros zero = refl
length-zeros (suc n) = ap suc (length-zeros n)

-- a string that stands between two others, by its offset and its length
py_slice-middle :
    (pre value post : Bytes)
    → py_slice (pos (length pre)) (pos (length pre + length value)) (pre ++ value ++ post) ≡ value
unfolding py_slice slice_index
py_slice-middle pre value post =
    let size : length (pre ++ value ++ post) ≡ length pre + length value + length post =
      omega (arith, length-append (pre ++ value) post, length-append pre value) in
    let rest : drop (length pre) (pre ++ value ++ post) ≡ value ++ post =
      ap (drop (length pre)) (append_assoc pre value post) ∙ drop-append pre (value ++ post) in
    ground (arith, size, rest, take-append value post)

-- SETRANGE puts the value after a first part that is as long as the offset.
setrange_parts :
    (offset : ℕ) (value val : Bytes)
    → (pre : Bytes) × (post : Bytes) × (length pre ≡ offset)
      × (setrange_of offset value val ≡ pre ++ value ++ post)
unfolding setrange_of
setrange_parts offset value val = elim (Bool-cases (ltb (length val) offset)) [
  | inl past ↦ (
    val ++ zeros (offset - length val),
    [],
    ground (
      arith,
      past,
      length-append val (zeros (offset - length val)),
      length-zeros (offset - length val),
    ),
    (rw past (sym (append-nil (val ++ zeros (offset - length val) ++ value)))),
  )
  | inr within ↦ (
    take offset val,
    drop (offset + length value) val,
    ground (arith, within, length-take offset val),
    (rw within refl),
  )
]

range_stop :
    (offset n : ℕ) (len : ℤ)
    → (if is_neg (pos (offset + n))
        then len +ℤ pos (offset + n) +ℤ pos 1
        else pos (offset + n) +ℤ pos 1)
      ≡ pos (offset + n + 1)
unfolding ◌+ℤ◌
range_stop offset n len = ground arith

-- GETRANGE over the bytes that SETRANGE has written gives the value back, wherever it was written:
-- for every offset, the string before, and a value that is not empty.
pub getrange_of-setrange_of :
    (offset n : ℕ) (value val : Bytes)
    → length value ≡ suc n
    → getrange_of (pos offset) (pos (offset + n)) (setrange_of offset value val) ≡ value
unfolding getrange_of
getrange_of-setrange_of offset n value val size =
    let (pre, post, at, parts) = setrange_parts offset value val in
    ap (λ t. py_slice (pos offset) t (setrange_of offset value val))
      (range_stop offset n (pos (length (setrange_of offset value val)))
        ∙ ap pos (omega (arith, size, at)))
    ∙ ap (λ t. py_slice (pos t) (pos (length pre + length value)) (setrange_of offset value val))
        (sym at)
    ∙ ap (py_slice (pos (length pre)) (pos (length pre + length value))) parts
    ∙ py_slice-middle pre value post

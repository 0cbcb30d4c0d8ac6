-- ===== src/Resp/Extend.antt =====
-- More bytes at the end of the buffer do not change a message, or an error, that was found without
-- them.
use kagni.Prelude.{
  ℕ, zero, suc, ◌+◌, ◌≤◌, ◌≡◌, refl, ap, none, some, [], ◌∷◌, ◌++◌, Bytes, bytes_eq, ◌==◌, arith,
  length, take, drop, length-append, length-drop, Option, ℤ, ◌∙◌, false, pos, negsuc, ltb,
  Bool-cases, inl, inr, nat_eq,
}
use kagni.Text.{int, split}
use kagni.Resp.Marker.{marker_cases_both}
use kagni.Resp.Parse.{
  Value, cons, list, bytes, word_values, Parsed, done, more, fail, ◌>>=◌, add_front, read_line,
  parse_bulk, parse_items, parse_array, parse_integer, parse_line, parse_inline, bulk_payload,
  bulk_declared, array_declared, integer_read, parse_with, parse_message,
}

module _ {ℓ} {A : Type ℓ} where
  -- What `q`, the parse of a longer buffer, has to be.
  abbrev pub Extends : Parsed A → Bytes → Parsed A → Type ℓ
  Extends (done v rest) x q = q ≡ done v (rest ++ x)
  Extends more x q = Unit
  Extends (fail e) x q = q ≡ fail e

module _ {ℓ} {A B : Type ℓ} (x : Bytes) where
  bind-extend :
      (m m' : Parsed A) (f : A → Bytes → Parsed B)
      → Extends m x m'
      → ((a : A) (rest : Bytes) → Extends (f a rest) x (f a (rest ++ x)))
      → Extends (m >>= f) x (m' >>= f)
  bind-extend (done a rest) m' f h k = rw h (k a rest)
  bind-extend more m' f h k = tt
  bind-extend (fail e) m' f h k = rw h

add_front-extend :
    (x : Bytes) (c : ℕ) (m m' : Parsed Bytes)
    → Extends m x m'
    → Extends (add_front c m) x (add_front c m')
add_front-extend x c (done a rest) m' h = rw h
add_front-extend x c more m' h = tt
add_front-extend x c (fail e) m' h = rw h

pub read_line-extend : (x s : Bytes) → Extends (read_line s) x (read_line (s ++ x))
unfolding read_line
read_line-extend x [] = tt
read_line-extend x (c ∷ []) = tt
read_line-extend x (c ∷ d ∷ s) =
    let rec : Extends (add_front c (read_line (d ∷ s))) x (add_front c (read_line (d ∷ s ++ x))) =
      add_front-extend x c (read_line (d ∷ s)) (read_line (d ∷ s ++ x))
        (read_line-extend x (d ∷ s)) in
    elim (Bool-cases (c == 13)) [
      | inl cr ↦ rw cr (elim (Bool-cases (d == 10)) [ inl lf ↦ rw lf | inr other ↦ rw other rec ])
      | inr other ↦ rw other rec
    ]

take-append_le : (n : ℕ) (s x : Bytes) → n ≤ length s → take n (s ++ x) ≡ take n s
take-append_le zero s x h = refl
take-append_le (suc n) [] x h = absurd (omega arith)
take-append_le (suc n) (c ∷ s) x h = ap (λ t. c ∷ t) (take-append_le n s x (omega arith))

drop-append_le : (n : ℕ) (s x : Bytes) → n ≤ length s → drop n (s ++ x) ≡ drop n s ++ x
drop-append_le zero s x h = refl
drop-append_le (suc n) [] x h = absurd (omega arith)
drop-append_le (suc n) (c ∷ s) x h = drop-append_le n s x (omega arith)

-- what `parse_bulk` looks at, in the longer buffer
bulk_payload_window :
    (n : ℕ) (rest x : Bytes)
    → n + 2 ≤ length rest
    → (take n (rest ++ x) ≡ take n rest)
      × (take 2 (drop n (rest ++ x)) ≡ take 2 (drop n rest))
      × (drop (n + 2) (rest ++ x) ≡ drop (n + 2) rest ++ x)
bulk_payload_window n rest x h = (
  take-append_le n rest x (omega arith),
  ap (take 2) (drop-append_le n rest x (omega arith))
      ∙ take-append_le 2 (drop n rest) x (omega (arith, length-drop n rest)),
  drop-append_le (n + 2) rest x h,
)

bulk_payload-extend :
    (n : ℕ) (x rest : Bytes) → Extends (bulk_payload n rest) x (bulk_payload n (rest ++ x))
unfolding bulk_payload
bulk_payload-extend n x rest = elim (Bool-cases (ltb (length rest) (n + 2))) [
  | inl short ↦ rw short tt
  | inr enough ↦
      let (t, w, d) = bulk_payload_window n rest x (ground arith) in
      let long : ltb (length (rest ++ x)) (n + 2) ≡ false = ground (arith, length-append rest x) in
      rw (enough, long, t, w, d) (ground arith)
]

bulk_declared-extend :
    (o : Option ℤ) (x rest : Bytes) → Extends (bulk_declared o rest) x (bulk_declared o (rest ++ x))
unfolding bulk_declared
bulk_declared-extend none x rest = refl
bulk_declared-extend (some (pos n)) x rest = bulk_payload-extend n x rest
bulk_declared-extend (some (negsuc n)) x rest = ground arith

-- A parser of one message that does not look past its message.
abbrev pub IsStable : (Bytes → Parsed Value) → Type 0
IsStable p = (x s : Bytes) → Extends (p s) x (p (s ++ x))

parse_items-extend :
    (p : Bytes → Parsed Value)
    → IsStable p
    → (n : ℕ) (x s : Bytes) → Extends (parse_items p n s) x (parse_items p n (s ++ x))
unfolding parse_items
parse_items-extend p h zero x s = refl
parse_items-extend p h (suc n) x s =
    bind-extend x (p s) (p (s ++ x))
      (λ v rest. parse_items p n rest >>= λ vs last. done (cons v vs) last) (h x s)
      λ v rest.
        bind-extend x (parse_items p n rest) (parse_items p n (rest ++ x))
          (λ vs last. done (cons v vs) last) (parse_items-extend p h n x rest) (λ vs last. refl)

array_declared-extend :
    (p : Bytes → Parsed Value)
    → IsStable p
    → (o : Option ℤ) (x rest : Bytes)
    → Extends (array_declared p o rest) x (array_declared p o (rest ++ x))
unfolding array_declared
array_declared-extend p h none x rest = refl
array_declared-extend p h (some (pos n)) x rest =
    bind-extend x (parse_items p n rest) (parse_items p n (rest ++ x))
      (λ vs last. done (list vs) last) (parse_items-extend p h n x rest) (λ vs last. refl)
array_declared-extend p h (some (negsuc n)) x rest = ground arith

integer_read-extend :
    (o : Option ℤ) (x rest : Bytes) → Extends (integer_read o rest) x (integer_read o (rest ++ x))
unfolding integer_read
integer_read-extend none x rest = refl
integer_read-extend (some n) x rest = refl

-- after the line of a message
line-extend :
    (x s : Bytes) (f : Bytes → Bytes → Parsed Value)
    → ((line rest : Bytes) → Extends (f line rest) x (f line (rest ++ x)))
    → Extends (read_line s >>= f) x (read_line (s ++ x) >>= f)
line-extend x s f k = bind-extend x (read_line s) (read_line (s ++ x)) f (read_line-extend x s) k

parse_with-extend : (p : Bytes → Parsed Value) → IsStable p → IsStable (parse_with p)
unfolding parse_with parse_array parse_bulk parse_integer parse_line parse_inline
parse_with-extend p h x [] = tt
parse_with-extend p h x (marker ∷ s) =
    let a =
      line-extend x s (λ line rest. array_declared p (int line) rest)
        (λ line rest. array_declared-extend p h (int line) x rest) in
    let b =
      line-extend x s (λ line rest. bulk_declared (int line) rest)
        (λ line rest. bulk_declared-extend (int line) x rest) in
    let i =
      line-extend x s (λ line rest. integer_read (int line) rest)
        (λ line rest. integer_read-extend (int line) x rest) in
    let l = line-extend x (marker ∷ s) (λ line rest. done (bytes line) rest) (λ line rest. refl) in
    let w =
      line-extend x (marker ∷ s) (λ line rest. done (list (word_values (split line))) rest)
        (λ line rest. refl) in
    marker_cases_both (λ (m q : Parsed Value). Extends m x q) marker (parse_array p s)
      (parse_bulk s) (parse_integer s) (parse_line (marker ∷ s)) (parse_inline (marker ∷ s))
      (parse_array p (s ++ x)) (parse_bulk (s ++ x)) (parse_integer (s ++ x))
      (parse_line (marker ∷ s ++ x)) (parse_inline (marker ∷ s ++ x)) a b i l w

pub parse_message-extend : (fuel : ℕ) → IsStable (parse_message fuel)
unfolding parse_message
parse_message-extend zero x s = tt
parse_message-extend (suc fuel) x s =
    parse_with-extend (parse_message fuel) (parse_message-extend fuel) x s

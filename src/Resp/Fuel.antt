-- ===== src/Resp/Fuel.antt =====
-- A message takes bytes off the buffer, so the length of the buffer is enough fuel for the parser.
use kagni.Prelude.{
  ℕ, zero, suc, ◌+◌, ◌≤◌, ◌≡◌, refl, none, some, [], ◌∷◌, Bytes, bytes_eq, ◌==◌, nat_eq, arith,
  length, length-drop, if◌then◌else◌, ap, ◌∙◌, pos, negsuc, Option, ℤ, ◌||◌, Bool-cases, inl, inr,
}
use kagni.Text.{int, split}
use kagni.Resp.Marker.{marker_cases}
use kagni.Resp.Parse.{
  Value, cons, list, bytes, word_values, Parsed, done, more, fail, ◌>>=◌, add_front, read_line,
  parse_bulk, parse_items, parse_array, parse_integer, parse_line, parse_inline, parse_with,
  parse_message, bulk_payload, bulk_declared, array_declared, integer_read,
}

module _ {ℓ} {A : Type ℓ} where
  -- The rest of the buffer after the parse has at most `n` bytes.
  abbrev pub Leaves : Parsed A → ℕ → Type 0
  Leaves (done v rest) n = length rest ≤ n
  Leaves more n = Unit
  Leaves (fail e) n = Unit

  pub Leaves-mono : (m : Parsed A) (n k : ℕ) → n ≤ k → Leaves m n → Leaves m k
  Leaves-mono (done v rest) n k h l = omega arith
  Leaves-mono more n k h l = tt
  Leaves-mono (fail e) n k h l = tt

module _ {ℓ} {A B : Type ℓ} where
  bind-Leaves :
      (m : Parsed A) (f : A → Bytes → Parsed B) (n : ℕ)
      → Leaves m n
      → ((a : A) (rest : Bytes) → length rest ≤ n → Leaves (f a rest) n)
      → Leaves (m >>= f) n
  bind-Leaves (done a rest) f n h k = k a rest h
  bind-Leaves more f n h k = tt
  bind-Leaves (fail e) f n h k = tt

add_front-Leaves : (c n : ℕ) (m : Parsed Bytes) → Leaves m n → Leaves (add_front c m) n
add_front-Leaves c n (done line rest) h = h
add_front-Leaves c n more h = tt
add_front-Leaves c n (fail e) h = tt

read_line-Leaves : (s : Bytes) → Leaves (read_line s) (length s)
unfolding read_line
read_line-Leaves [] = tt
read_line-Leaves (c ∷ []) = tt
read_line-Leaves (c ∷ d ∷ s) =
    let m = add_front c (read_line (d ∷ s)) in
    let rec : Leaves m (suc (suc (length s))) =
      Leaves-mono m (suc (length s)) (suc (suc (length s))) (omega arith)
        (add_front-Leaves c (suc (length s)) (read_line (d ∷ s)) (read_line-Leaves (d ∷ s))) in
    elim (Bool-cases (c == 13)) [
      | inl cr ↦
          rw cr (elim (Bool-cases (d == 10)) [
            | inl lf ↦ rw lf (omega arith)
            | inr other ↦ rw other rec
          ])
      | inr other ↦ rw other rec
    ]

-- A non-empty line takes two bytes at least; the line of a marker too.
read_line_takes : (c : ℕ) (s : Bytes) → Leaves (read_line (c ∷ s)) (length s)
unfolding read_line
read_line_takes c [] = tt
read_line_takes c (d ∷ s) =
    let rec = add_front-Leaves c (suc (length s)) (read_line (d ∷ s)) (read_line-Leaves (d ∷ s)) in
    elim (Bool-cases (c == 13)) [
      | inl cr ↦
          rw cr (elim (Bool-cases (d == 10)) [
            | inl lf ↦ rw lf (omega arith)
            | inr other ↦ rw other rec
          ])
      | inr other ↦ rw other rec
    ]

bulk_declared-Leaves :
    (o : Option ℤ) (rest : Bytes) (n : ℕ) → length rest ≤ n → Leaves (bulk_declared o rest) n
unfolding bulk_declared bulk_payload
bulk_declared-Leaves none rest n h = tt
bulk_declared-Leaves (some (pos k)) rest n h = ground (arith, length-drop (k + 2) rest)
bulk_declared-Leaves (some (negsuc k)) rest n h = ground arith

-- A parser that takes bytes off every buffer, or leaves it as it is.
abbrev pub IsShrinking : (Bytes → Parsed Value) → Type 0
IsShrinking p = (s : Bytes) → Leaves (p s) (length s)

parse_items-Leaves :
    (p : Bytes → Parsed Value)
    → IsShrinking p
    → (k : ℕ) (s : Bytes) (n : ℕ) → length s ≤ n
    → Leaves (parse_items p k s) n
unfolding parse_items
parse_items-Leaves p h zero s n b = b
parse_items-Leaves p h (suc k) s n b =
    bind-Leaves (p s) (λ v rest. parse_items p k rest >>= λ vs last. done (cons v vs) last) n
      (Leaves-mono (p s) (length s) n b (h s))
      λ v rest b'.
        bind-Leaves (parse_items p k rest) (λ vs last. done (cons v vs) last) n
          (parse_items-Leaves p h k rest n b') (λ vs last b''. b'')

array_declared-Leaves :
    (p : Bytes → Parsed Value)
    → IsShrinking p
    → (o : Option ℤ) (rest : Bytes) (n : ℕ) → length rest ≤ n
    → Leaves (array_declared p o rest) n
unfolding array_declared
array_declared-Leaves p h none rest n b = tt
array_declared-Leaves p h (some (pos k)) rest n b =
    bind-Leaves (parse_items p k rest) (λ vs last. done (list vs) last) n
      (parse_items-Leaves p h k rest n b) (λ vs last b'. b')
array_declared-Leaves p h (some (negsuc k)) rest n b = ground arith

integer_read-Leaves :
    (o : Option ℤ) (rest : Bytes) (n : ℕ) → length rest ≤ n → Leaves (integer_read o rest) n
unfolding integer_read
integer_read-Leaves none rest n h = tt
integer_read-Leaves (some k) rest n h = h

-- The first byte at least is taken off.
parse_with-Leaves :
    (p : Bytes → Parsed Value)
    → IsShrinking p
    → (c : ℕ) (s : Bytes) → Leaves (parse_with p (c ∷ s)) (length s)
unfolding parse_with parse_array parse_bulk parse_integer parse_line parse_inline
parse_with-Leaves p h c s =
    let after_line =
      λ (f : Bytes → Bytes → Parsed Value)
          (k : (line rest : Bytes) → length rest ≤ length s → Leaves (f line rest) (length s)).
        bind-Leaves (read_line s) f (length s) (read_line-Leaves s) k in
    let whole_line =
      λ (f : Bytes → Bytes → Parsed Value)
          (k : (line rest : Bytes) → length rest ≤ length s → Leaves (f line rest) (length s)).
        bind-Leaves (read_line (c ∷ s)) f (length s) (read_line_takes c s) k in
    let a =
      after_line (λ line rest. array_declared p (int line) rest)
        (λ line rest b. array_declared-Leaves p h (int line) rest (length s) b) in
    let b =
      after_line (λ line rest. bulk_declared (int line) rest)
        (λ line rest b. bulk_declared-Leaves (int line) rest (length s) b) in
    let i =
      after_line (λ line rest. integer_read (int line) rest)
        (λ line rest b. integer_read-Leaves (int line) rest (length s) b) in
    let l = whole_line (λ line rest. done (bytes line) rest) (λ line rest b. b) in
    let w =
      whole_line (λ line rest. done (list (word_values (split line))) rest) (λ line rest b. b) in
    marker_cases (λ (m : Parsed Value). Leaves m (length s)) c (parse_array p s) (parse_bulk s)
      (parse_integer s) (parse_line (c ∷ s)) (parse_inline (c ∷ s)) a b i l w

pub parse_message-IsShrinking : (fuel : ℕ) → IsShrinking (parse_message fuel)
unfolding parse_message
parse_message-IsShrinking zero s = tt
parse_message-IsShrinking (suc fuel) [] = unfold parse_with in tt
parse_message-IsShrinking (suc fuel) (c ∷ s) =
    Leaves-mono (parse_with (parse_message fuel) (c ∷ s)) (length s) (suc (length s)) (omega arith)
      (parse_with-Leaves (parse_message fuel) (parse_message-IsShrinking fuel) c s)

-- A message takes a byte off the buffer at least.
pub parse_message_takes : (fuel c : ℕ) (s : Bytes) → Leaves (parse_message fuel (c ∷ s)) (length s)
unfolding parse_message
parse_message_takes zero c s = tt
parse_message_takes (suc fuel) c s =
    parse_with-Leaves (parse_message fuel) (parse_message-IsShrinking fuel) c s

module _ {ℓ} {A B : Type ℓ} where
  bind-congr :
      (m : Parsed A) (f g : A → Bytes → Parsed B) (n : ℕ)
      → Leaves m n
      → ((a : A) (rest : Bytes) → length rest ≤ n → f a rest ≡ g a rest)
      → (m >>= f) ≡ (m >>= g)
  bind-congr (done a rest) f g n h k = k a rest h
  bind-congr more f g n h k = refl
  bind-congr (fail e) f g n h k = refl

-- Two parsers that agree on every buffer of at most `n` bytes.
abbrev AgreesTo : ℕ → (Bytes → Parsed Value) → (Bytes → Parsed Value) → Type 0
AgreesTo n p q = (t : Bytes) → length t ≤ n → p t ≡ q t

module _ (p q : Bytes → Parsed Value) (shrinks : IsShrinking p) (n : ℕ)
    (agree : AgreesTo n p q) where
  parse_items-congr : (k : ℕ) (s : Bytes) → length s ≤ n → parse_items p k s ≡ parse_items q k s
  unfolding parse_items
  parse_items-congr zero s b = refl
  parse_items-congr (suc k) s b =
      bind-congr (p s) (λ v rest. parse_items p k rest >>= λ vs last. done (cons v vs) last)
        (λ v rest. parse_items q k rest >>= λ vs last. done (cons v vs) last) n
        (Leaves-mono (p s) (length s) n b (shrinks s))
        (λ v rest b'.
          ap (λ m. m >>= λ vs last. done (cons v vs) last) (parse_items-congr k rest b'))
      ∙ ap (λ m. m >>= λ v rest. parse_items q k rest >>= λ vs last. done (cons v vs) last)
          (agree s b)

  array_declared-congr :
      (o : Option ℤ) (s : Bytes) → length s ≤ n → array_declared p o s ≡ array_declared q o s
  unfolding array_declared
  array_declared-congr none s b = refl
  array_declared-congr (some (pos k)) s b =
      ap (λ m. m >>= λ vs last. done (list vs) last) (parse_items-congr k s b)
  array_declared-congr (some (negsuc k)) s b = refl

  parse_with-congr :
      (c : ℕ) (s : Bytes) → length s ≤ n → parse_with p (c ∷ s) ≡ parse_with q (c ∷ s)
  unfolding parse_with parse_array
  parse_with-congr c s b =
      let a : parse_array p s ≡ parse_array q s =
        bind-congr (read_line s) (λ line rest. array_declared p (int line) rest)
          (λ line rest. array_declared q (int line) rest) (length s) (read_line-Leaves s)
          (λ line rest b'. array_declared-congr (int line) rest (omega arith)) in
      ap
        (λ m.
          if c == b'*'
          then m
          else if c == b'$'
          then parse_bulk s
          else if c == b':'
          then parse_integer s
          else if c == b'+' || c == b'-'
          then parse_line (c ∷ s)
          else parse_inline (c ∷ s))
        a

-- The parser's result does not depend on its fuel, once that is the length of the buffer or more.
pub parse_message_fuel :
    (f g : ℕ) (s : Bytes) → length s ≤ f → length s ≤ g → parse_message f s ≡ parse_message g s
unfolding parse_message
parse_message_fuel zero zero s a b = refl
parse_message_fuel zero (suc g) [] a b = unfold parse_with in refl
parse_message_fuel zero (suc g) (c ∷ s) a b = absurd (omega arith)
parse_message_fuel (suc f) zero [] a b = unfold parse_with in refl
parse_message_fuel (suc f) zero (c ∷ s) a b = absurd (omega arith)
parse_message_fuel (suc f) (suc g) [] a b = unfold parse_with in refl
parse_message_fuel (suc f) (suc g) (c ∷ s) a b =
    parse_with-congr (parse_message f) (parse_message g) (parse_message-IsShrinking f) (length s)
      (λ t h. parse_message_fuel f g t (omega arith) (omega arith)) c s (omega arith)

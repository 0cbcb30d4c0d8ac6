-- ===== src/Resp/Parse.antt =====
-- resp.py: `_read_line`, `_parse_message`, `_parse_array` and `_parse_bulk`. A position in the
-- buffer is the part of the buffer from there on.
use kagni.Prelude.{
  Option, ℕ, zero, suc, ◌+◌, ℤ, pos, negsuc, ltb, ◌||◌, none, some, List, [], ◌∷◌, Bytes, ◌==◌,
  nat_eq, bytes_eq, if◌then◌else◌, length, take, drop,
}
use kagni.Text.{int, split}
use kagni.Resp.Encode.{crlf}

-- A parsed Python value: bytes, an int, None, or a list.
mutual
  pub data Value : Type 0 where
    bytes : Bytes → Value
    number : ℤ → Value
    null : Value
    list : Values → Value

  pub data Values : Type 0 where
    nil : Values
    cons : Value → Values → Values

pub data ProtocolError : Type 0 where
  invalid_integer invalid_multibulk invalid_bulk not_terminated too_large : ProtocolError

-- The result of a parse: a value and the rest of the buffer, `None` for more data, or an error.
pub data Parsed {ℓ} (A : Type ℓ) : Type ℓ where
  done : A → Bytes → Parsed A
  more : Parsed A
  fail : ProtocolError → Parsed A

infixl 5 ◌>>=◌
abbrev pub ◌>>=◌ {ℓ κ} : {A : Type ℓ} {B : Type κ} → Parsed A → (A → Bytes → Parsed B) → Parsed B
done a rest >>= f = f a rest
more >>= f = more
fail e >>= f = fail e

abbrev pub add_front : ℕ → Parsed Bytes → Parsed Bytes
add_front c (done line rest) = done (c ∷ line) rest
add_front c more = more
add_front c (fail e) = fail e

-- The line up to the first CRLF, and what follows it.
unfoldable pub read_line : Bytes → Parsed Bytes
read_line [] = more
read_line (c ∷ []) = more
read_line (c ∷ d ∷ s) =
    let rest = add_front c (read_line (d ∷ s)) in
    if c == 13 then (if d == 10 then done [] s else rest) else rest

unfoldable pub word_values : List Bytes → Values
word_values [] = nil
word_values (w ∷ ws) = cons (bytes w) (word_values ws)

-- the payload of `n` bytes and its CRLF
unfoldable pub bulk_payload : ℕ → Bytes → Parsed Value
bulk_payload n rest =
    if ltb (length rest) (n + 2)
    then more
    else if take 2 (drop n rest) == crlf
    then done (bytes (take n rest)) (drop (n + 2) rest)
    else fail not_terminated

-- A declared length: -1 is a null, and less is an error.
unfoldable pub bulk_declared : Option ℤ → Bytes → Parsed Value
unfolding bulk_payload
bulk_declared none rest = fail invalid_bulk
bulk_declared (some (pos n)) rest = bulk_payload n rest
bulk_declared (some (negsuc n)) rest = if n == 0 then done null rest else fail invalid_bulk

unfoldable pub parse_bulk : Bytes → Parsed Value
unfolding read_line bulk_declared
parse_bulk s = read_line s >>= λ line rest. bulk_declared (int line) rest

-- `for _ in range(count)`, with the parser for one item
unfoldable pub parse_items : (Bytes → Parsed Value) → ℕ → Bytes → Parsed Values
parse_items p zero s = done nil s
parse_items p (suc n) s =
    let items = λ (t : Bytes). parse_items p n t in
    p s >>= λ v rest. items rest >>= λ vs last. done (cons v vs) last

unfoldable pub array_declared : (Bytes → Parsed Value) → Option ℤ → Bytes → Parsed Value
unfolding parse_items
array_declared p none rest = fail invalid_multibulk
array_declared p (some (pos n)) rest = parse_items p n rest >>= λ vs last. done (list vs) last
array_declared p (some (negsuc n)) rest = if n == 0 then done null rest else fail invalid_multibulk

unfoldable pub parse_array : (Bytes → Parsed Value) → Bytes → Parsed Value
unfolding read_line array_declared
parse_array p s = read_line s >>= λ line rest. array_declared p (int line) rest

unfoldable pub integer_read : Option ℤ → Bytes → Parsed Value
integer_read none rest = fail invalid_integer
integer_read (some n) rest = done (number n) rest

unfoldable pub parse_integer : Bytes → Parsed Value
unfolding read_line integer_read
parse_integer s = read_line s >>= λ line rest. integer_read (int line) rest

unfoldable pub parse_line : Bytes → Parsed Value
unfolding read_line
parse_line s = read_line s >>= λ line rest. done (bytes line) rest

-- an inline command
unfoldable pub parse_inline : Bytes → Parsed Value
unfolding read_line word_values
parse_inline s = read_line s >>= λ line rest. done (list (word_values (split line))) rest

-- The body of `_parse_message`, with the parser for the items of an array.
unfoldable pub parse_with : (Bytes → Parsed Value) → Bytes → Parsed Value
unfolding parse_array parse_bulk parse_integer parse_line parse_inline
parse_with p [] = more
parse_with p (marker ∷ s) =
    if marker == b'*'
    then parse_array p s
    else if marker == b'$'
    then parse_bulk s
    else if marker == b':'
    then parse_integer s
    else if marker == b'+' || marker == b'-'
    then parse_line (marker ∷ s)
    else parse_inline (marker ∷ s)

-- Fuel for the nesting of arrays: the length of the buffer is enough, since a nested message
-- starts after the header of its array, and an empty buffer wants more data.
unfoldable pub parse_message : ℕ → Bytes → Parsed Value
unfolding parse_with
parse_message zero s = more
parse_message (suc fuel) s = parse_with (parse_message fuel) s

-- ===== src/Resp/RoundTrip.antt =====
-- Every reply that the encoder writes is one message for the parser, with nothing left over.
use mathlib.Core.List.{append_assoc, append-nil}
use kagni.Prelude.{
  ℕ, zero, suc, ◌+◌, ◌-◌, ◌≤◌, ◌<◌, ◌^◌, max, ℤ, pos, negsuc, Bool, true, not, ◌&&◌, some, List, [],
  ◌∷◌, ◌++◌, Bytes, ◌==◌, nat_eq, bytes_eq, bytes_beq_refl, ◌≡◌, refl, sym, ap, ◌∙◌, arith, length,
  length-append, take, drop, take-append, drop-append,
}
use kagni.Text.{print_int, print_ℕ, int, all_digits, is_digit, codes}
use kagni.Text.Print.{int-print_int, all_digits-print_ℕ, length-print_ℕ}
use kagni.Resp.Encode.{
  Error, Reply, bulk, num, arr, ok, nil, nil_array, queued, pong, simple, error, Replies, empty,
  item, length_replies, error_line, resp_dumps, dumps_items, crlf, join_lines, protocol_builder,
}
use kagni.Resp.Parse
use kagni.Resp.Parse.{
  Value, Values, bytes, number, null, list, cons, Parsed, done, more, fail, ◌>>=◌, add_front,
  read_line, bulk_payload, bulk_declared, parse_bulk, parse_items, array_declared, parse_array,
  integer_read, parse_integer, parse_line, parse_inline, parse_with, parse_message,
}
use kagni.Resp.Fuel.{parse_message_fuel}

-- No carriage return stands in the line.
abbrev pub no_cr : Bytes → Bool
no_cr [] = true
no_cr (c ∷ s) = not (c == 13) && no_cr s

pub read_line-crlf :
    (line x : Bytes) → no_cr line ≡ true → read_line (line ++ crlf ++ x) ≡ done line x
unfolding read_line
read_line-crlf [] x h = refl
read_line-crlf (c ∷ []) x h = ground arith
read_line-crlf (c ∷ d ∷ s) x h = ground (arith, read_line-crlf (d ∷ s) x)

all_digits-no_cr : (s : Bytes) → all_digits s ≡ true → no_cr s ≡ true
unfolding all_digits is_digit
all_digits-no_cr [] h = refl
all_digits-no_cr (c ∷ s) h = ground (arith, all_digits-no_cr s)

print_int-no_cr : (n : ℤ) → no_cr (print_int n) ≡ true
unfolding print_int
print_int-no_cr (pos n) = all_digits-no_cr (print_ℕ n) (all_digits-print_ℕ n)
print_int-no_cr (negsuc n) = all_digits-no_cr (print_ℕ (suc n)) (all_digits-print_ℕ (suc n))

pub join_lines-append : (a b : List Bytes) → join_lines (a ++ b) ≡ join_lines a ++ join_lines b
unfolding join_lines
join_lines-append [] b = refl
join_lines-append (l ∷ a) b =
    ap (λ t. l ++ crlf ++ t) (join_lines-append a b)
    ∙ sym (append_assoc (l ++ crlf) (join_lines a) (join_lines b))

-- an integer of 64 bits, of either sign
abbrev pub IsShort : ℤ → Type 0
IsShort (pos n) = n < 2 ^ 64
IsShort (negsuc n) = suc n < 2 ^ 64

pub int-print_short : (n : ℤ) → IsShort n → int (print_int n) ≡ some n
int-print_short (pos n) h =
    int-print_int (pos n) (unfold print_int in omega (arith, length-print_ℕ n))
int-print_short (negsuc n) h =
    int-print_int (negsuc n) (unfold print_int in omega (arith, length-print_ℕ (suc n)))

bulk_payload-append : (b x : Bytes) → bulk_payload (length b) (b ++ crlf ++ x) ≡ done (bytes b) x
unfolding bulk_payload
bulk_payload-append b x =
    let regroup = append_assoc b crlf x in
    let size : length (b ++ crlf ++ x) ≡ length b + 2 + length x =
      omega (arith, length-append (b ++ crlf) x, length-append b crlf) in
    let payload : take (length b) (b ++ crlf ++ x) ≡ b =
      ap (take (length b)) regroup ∙ take-append b (crlf ++ x) in
    let end : take 2 (drop (length b) (b ++ crlf ++ x)) ≡ crlf =
      ap (λ t. take 2 (drop (length b) t)) regroup ∙ ap (take 2) (drop-append b (crlf ++ x)) in
    let rest : drop (length b + 2) (b ++ crlf ++ x) ≡ x =
      ap (λ k. drop k (b ++ crlf ++ x)) (sym (length-append b crlf)) ∙ drop-append (b ++ crlf) x in
    rw (payload, end, rest) (ground (arith, size, bytes_beq_refl crlf))

-- The value that the parser gives for a reply.
mutual
  pub value_of : Reply → Value
  value_of (bulk b) = bytes b
  value_of (num n) = number n
  value_of (arr rs) = list (values_of rs)
  value_of ok = bytes (codes "+OK")
  value_of nil = null
  value_of nil_array = null
  value_of queued = bytes (codes "+QUEUED")
  value_of pong = bytes (codes "+PONG")
  value_of (simple s) = bytes (b'+' ∷ s)
  value_of (error e) = bytes (error_line e)

  pub values_of : Replies → Values
  values_of empty = Parse.nil
  values_of (item r rs) = cons (value_of r) (values_of rs)

-- The lengths and integers of the reply fit in 64 bits, and its status lines have no carriage
-- return.
unfoldable mutual
  pub IsFramed : Reply → Type 0
  IsFramed (bulk b) = length b < 2 ^ 64
  IsFramed (num n) = IsShort n
  IsFramed (arr rs) = (length_replies rs < 2 ^ 64) × AreFramed rs
  IsFramed ok = Unit
  IsFramed nil = Unit
  IsFramed nil_array = Unit
  IsFramed queued = Unit
  IsFramed pong = Unit
  IsFramed (simple s) = no_cr s ≡ true
  IsFramed (error e) = no_cr (error_line e) ≡ true

  pub AreFramed : Replies → Type 0
  AreFramed empty = Unit
  AreFramed (item r rs) = IsFramed r × AreFramed rs

-- How deep arrays are nested.
mutual
  pub depth : Reply → ℕ
  depth (arr rs) = suc (depth_items rs)
  depth _ = 1

  pub depth_items : Replies → ℕ
  depth_items empty = 0
  depth_items (item r rs) = max (depth r) (depth_items rs)

module _ (p : Bytes → Parsed Value) where
  parse_array_encoded :
      (n : ℕ) (body : Bytes)
      → n < 2 ^ 64
      → parse_array p (print_int (pos n) ++ crlf ++ body)
        ≡ (parse_items p n body >>= λ vs last. done (list vs) last)
  unfolding parse_array array_declared
  parse_array_encoded n body h =
      rw (
        read_line-crlf (print_int (pos n)) body (print_int-no_cr (pos n)),
        int-print_short (pos n) h,
      )

parse_bulk_encoded :
    (b x : Bytes)
    → length b < 2 ^ 64
    → parse_bulk (print_int (pos (length b)) ++ crlf ++ (b ++ crlf ++ x)) ≡ done (bytes b) x
unfolding parse_bulk bulk_declared
parse_bulk_encoded b x h =
    rw
      (
        read_line-crlf (print_int (pos (length b))) (b ++ crlf ++ x)
            (print_int-no_cr (pos (length b))),
        int-print_short (pos (length b)) h,
      )
      (bulk_payload-append b x)

parse_integer_encoded :
    (n : ℤ) (x : Bytes) → IsShort n → parse_integer (print_int n ++ crlf ++ x) ≡ done (number n) x
unfolding parse_integer integer_read
parse_integer_encoded n x h =
    rw (read_line-crlf (print_int n) x (print_int-no_cr n), int-print_short n h)

parse_line_encoded :
    (c : ℕ) (s x : Bytes)
    → no_cr (c ∷ s) ≡ true
    → parse_line (c ∷ s ++ crlf ++ x) ≡ done (bytes (c ∷ s)) x
unfolding parse_line
parse_line_encoded c s x h = rw (read_line-crlf (c ∷ s) x h)

-- One line, and what follows it.
one_line : (l x : Bytes) → join_lines (l ∷ []) ++ x ≡ l ++ crlf ++ x
unfolding join_lines
one_line l x = ap (λ t. t ++ x) (append-nil (l ++ crlf))

two_lines : (l m x : Bytes) → join_lines (l ∷ m ∷ []) ++ x ≡ l ++ crlf ++ (m ++ crlf ++ x)
unfolding join_lines
two_lines l m x =
    append_assoc (l ++ crlf) (m ++ crlf ++ []) x
    ∙ ap (λ t. l ++ crlf ++ t) (ap (λ t. t ++ x) (append-nil (m ++ crlf)))

lines_after :
    (l x : Bytes) (ls : List Bytes) → join_lines (l ∷ ls) ++ x ≡ l ++ crlf ++ (join_lines ls ++ x)
unfolding join_lines
lines_after l x ls = append_assoc (l ++ crlf) (join_lines ls) x

parse_message_step :
    (f : ℕ) (s : Bytes) → 1 ≤ f → parse_message f s ≡ parse_with (parse_message (f - 1)) s
unfolding parse_message
parse_message_step zero s h = absurd (omega arith)
parse_message_step (suc f) s h = ap (λ k. parse_with (parse_message k) s) (omega arith)

depth_pos : (r : Reply) → 1 ≤ depth r
unfolding depth
depth_pos (arr rs) = omega arith
depth_pos _ = omega arith

status_line :
    (p : Bytes → Parsed Value) (s x : Bytes)
    → no_cr s ≡ true
    → parse_with p (join_lines ((b'+' ∷ s) ∷ []) ++ x) ≡ done (bytes (b'+' ∷ s)) x
unfolding parse_with
status_line p s x h = rw (one_line (b'+' ∷ s) x) (parse_line_encoded b'+' s x h)

int_minus_one : int (codes "-1") ≡ some (negsuc 0)
unfolding int
int_minus_one = refl

bulk_minus_one : (x : Bytes) → parse_bulk (codes "-1" ++ crlf ++ x) ≡ done null x
unfolding parse_bulk bulk_declared
bulk_minus_one x = rw int_minus_one

array_minus_one :
    (p : Bytes → Parsed Value) (x : Bytes) → parse_array p (codes "-1" ++ crlf ++ x) ≡ done null x
unfolding parse_array array_declared
array_minus_one p x = rw int_minus_one

null_bulk :
    (p : Bytes → Parsed Value) (x : Bytes)
    → parse_with p (join_lines (codes "$-1" ∷ []) ++ x) ≡ done null x
unfolding parse_with
null_bulk p x = rw (one_line (codes "$-1") x) (bulk_minus_one x)

null_array :
    (p : Bytes → Parsed Value) (x : Bytes)
    → parse_with p (join_lines (codes "*-1" ∷ []) ++ x) ≡ done null x
unfolding parse_with
null_array p x = rw (one_line (codes "*-1") x) (array_minus_one p x)

error_reply :
    (p : Bytes → Parsed Value) (e : Error) (x : Bytes)
    → no_cr (error_line e) ≡ true
    → parse_with p (join_lines (error_line e ∷ []) ++ x) ≡ done (bytes (error_line e)) x
unfolding parse_with error_line
error_reply p e x h = rw (one_line (error_line e) x) (parse_line_encoded b'-' _ x h)

no_items : (x : Bytes) → join_lines [] ++ x ≡ x
unfolding join_lines
no_items x = refl

mutual
  unfolding resp_dumps dumps_items value_of values_of IsFramed AreFramed depth depth_items
      parse_with parse_items

  parse_dumps :
      (r : Reply) (f : ℕ) (x : Bytes)
      → IsFramed r
      → depth r ≤ suc f
      → parse_with (parse_message f) (join_lines (resp_dumps r) ++ x) ≡ done (value_of r) x
  parse_dumps (bulk b) f x h d =
      rw (two_lines (b'$' ∷ print_int (pos (length b))) b x) (parse_bulk_encoded b x h)
  parse_dumps (num n) f x h d = rw (one_line (b':' ∷ print_int n) x) (parse_integer_encoded n x h)
  parse_dumps (arr rs) f x h d = rw (
    lines_after (b'*' ∷ print_int (pos (length_replies rs))) x (dumps_items rs),
    parse_array_encoded (parse_message f) (length_replies rs) (join_lines (dumps_items rs) ++ x)
        h.0,
    parse_dumps_items rs f x h.1 (omega arith),
  )
  parse_dumps ok f x h d = status_line (parse_message f) (codes "OK") x refl
  parse_dumps nil f x h d = null_bulk (parse_message f) x
  parse_dumps nil_array f x h d = null_array (parse_message f) x
  parse_dumps queued f x h d = status_line (parse_message f) (codes "QUEUED") x refl
  parse_dumps pong f x h d = status_line (parse_message f) (codes "PONG") x refl
  parse_dumps (simple s) f x h d = status_line (parse_message f) s x (ground arith)
  parse_dumps (error e) f x h d = error_reply (parse_message f) e x h

  parse_dumps_items :
      (rs : Replies) (f : ℕ) (x : Bytes)
      → AreFramed rs
      → depth_items rs ≤ f
      → parse_items (parse_message f) (length_replies rs) (join_lines (dumps_items rs) ++ x)
        ≡ done (values_of rs) x
  parse_dumps_items empty f x h d = rw (no_items x)
  parse_dumps_items (item r rs) f x h d = rw (
    join_lines-append (resp_dumps r) (dumps_items rs),
    append_assoc (join_lines (resp_dumps r)) (join_lines (dumps_items rs)) x,
    parse_message_step f (join_lines (resp_dumps r) ++ (join_lines (dumps_items rs) ++ x))
        (omega (arith, depth_pos r)),
    parse_dumps r (f - 1) (join_lines (dumps_items rs) ++ x) h.0 (omega (arith, depth_pos r)),
    parse_dumps_items rs f x h.1 (omega arith),
  )

-- Whatever follows it, the bytes of a reply are parsed as one message, the value of the reply, with
-- what follows left over: for every reply whose lengths and integers fit in 64 bits and whose
-- status and error lines have no carriage return.
pub parse-protocol_builder :
    (r : Reply) (x : Bytes)
    → IsFramed r
    → parse_message (length (protocol_builder r ++ x)) (protocol_builder r ++ x)
      ≡ done (value_of r) x
unfolding protocol_builder
parse-protocol_builder r x h =
    let s = join_lines (resp_dumps r) ++ x in
    let f = depth r + length s in
    parse_message_fuel (length s) (suc f) s (omega arith) (omega arith)
    ∙ parse_message_step (suc f) s (omega arith)
    ∙ ap (λ k. parse_with (parse_message k) s) (omega arith)
    ∙ parse_dumps r f x h (omega arith)

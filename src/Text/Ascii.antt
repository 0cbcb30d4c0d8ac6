-- ===== src/Text/Ascii.antt =====
-- Methods of `bytes` over ASCII.
use Prim.Native.Char.{code}
use Prim.Native.String.{String}
use kagni.Prelude.{
  ℕ, ◌+◌, ◌-◌, Bool, ◌&&◌, ◌||◌, List, [], ◌∷◌, map, reverse, Bytes, leb, ◌==◌, nat_eq,
  if◌then◌else◌, ◌≡◌, refl,
}

-- The bytes of a literal, as in `b"EX"`.
abbrev pub codes : String → Bytes
codes String.[] = []
codes (String.◌∷◌ c s) = code c ∷ codes s

unfoldable pub upper_byte : ℕ → ℕ
upper_byte c = if leb b'a' c && leb c b'z' then c - 32 else c

-- `bytes.upper`
unfoldable pub upper : Bytes → Bytes
unfolding upper_byte
upper = map upper_byte

unfoldable pub lower_byte : ℕ → ℕ
lower_byte c = if leb b'A' c && leb c b'Z' then c + 32 else c

-- `str.lower` on what `decode("ascii", "replace")` gives
unfoldable pub lower : Bytes → Bytes
unfolding lower_byte
lower = map lower_byte

-- `decode("ascii", "replace")`, as UTF-8: U+FFFD stands for a byte that is not ASCII.
unfoldable pub decode_ascii : Bytes → Bytes
decode_ascii [] = []
decode_ascii (c ∷ s) =
    let rest = decode_ascii s in if leb c 127 then c ∷ rest else 239 ∷ 191 ∷ 189 ∷ rest

-- `encode("ascii", "replace")` of what `decode_ascii` stands for
unfoldable pub encode_ascii : Bytes → Bytes
encode_ascii [] = []
encode_ascii (c ∷ s) = let rest = encode_ascii s in (if leb c 127 then c else 63) ∷ rest

-- space, and the five control characters from \t to \r
unfoldable pub is_space : ℕ → Bool
is_space c = c == b' ' || (leb 9 c && leb c 13)

unfoldable pub strip_left : Bytes → Bytes
unfolding is_space
strip_left [] = []
strip_left (c ∷ s) = let rest = strip_left s in if is_space c then rest else c ∷ s

-- `bytes.strip`
unfoldable pub strip : Bytes → Bytes
unfolding strip_left
strip s = reverse (strip_left (reverse (strip_left s)))

-- The words of `s`, where `word` holds the one that is being read, its last byte first.
unfoldable pub split_from : Bytes → Bytes → List Bytes
unfolding is_space
split_from [] [] = []
split_from (w ∷ word) [] = reverse (w ∷ word) ∷ []
split_from [] (c ∷ s) = split_from (if is_space c then [] else c ∷ []) s
split_from (w ∷ word) (c ∷ s) =
    let rest = split_from (if is_space c then [] else c ∷ w ∷ word) s in
    if is_space c then reverse (w ∷ word) ∷ rest else rest

-- `bytes.split()`: runs of white space separate the words.
unfoldable pub split : Bytes → List Bytes
unfolding split_from
split s = split_from [] s

split_ping : split (codes "  SET  key value ") ≡ codes "SET" ∷ codes "key" ∷ codes "value" ∷ []
unfolding split
split_ping = refl

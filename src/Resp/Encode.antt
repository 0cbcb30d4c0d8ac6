-- ===== src/Resp/Encode.antt =====
-- resp.py: `_resp_dumps` and `protocolBuilder`; constants.py: the values that they encode.
use kagni.Prelude.{ℕ, suc, ℤ, pos, List, [], ◌∷◌, ◌++◌, Bytes, length, is_empty, if◌then◌else◌}
use kagni.Text.{codes, print_int}

-- `Error(class_, msg)`
pub record Error : Type 0 where
  pub class : Bytes
  pub message : Bytes

-- What a command returns: bytes, an integer, a list, a member of `Response`, a `SimpleString`, or
-- an error that it raised.
mutual
  pub data Reply : Type 0 where
    bulk : Bytes → Reply
    num : ℤ → Reply
    arr : Replies → Reply
    ok nil nil_array queued pong : Reply
    simple : Bytes → Reply
    error : Error → Reply

  pub data Replies : Type 0 where
    empty : Replies
    item : Reply → Replies → Replies

abbrev pub length_replies : Replies → ℕ
length_replies empty = 0
length_replies (item r rs) = suc (length_replies rs)

unfoldable pub error_line : Error → Bytes
error_line e = b'-' ∷ e.class ++ (if is_empty e.message then [] else b' ' ∷ e.message)

unfoldable mutual
  unfolding error_line

  pub resp_dumps : Reply → List Bytes
  resp_dumps (bulk b) = (b'$' ∷ print_int (pos (length b))) ∷ b ∷ []
  resp_dumps (num n) = (b':' ∷ print_int n) ∷ []
  resp_dumps (arr rs) = (b'*' ∷ print_int (pos (length_replies rs))) ∷ dumps_items rs
  resp_dumps ok = codes "+OK" ∷ []
  resp_dumps nil = codes "$-1" ∷ []
  resp_dumps nil_array = codes "*-1" ∷ []
  resp_dumps queued = codes "+QUEUED" ∷ []
  resp_dumps pong = codes "+PONG" ∷ []
  resp_dumps (simple s) = (b'+' ∷ s) ∷ []
  resp_dumps (error e) = error_line e ∷ []

  -- `for item in value: result.extend(_resp_dumps(item))`
  pub dumps_items : Replies → List Bytes
  dumps_items empty = []
  dumps_items (item r rs) = resp_dumps r ++ dumps_items rs

abbrev pub crlf : Bytes
crlf = 13 ∷ 10 ∷ []

-- `SYM_CRLF.join(response) + SYM_CRLF`; the response has a line at least
unfoldable pub join_lines : List Bytes → Bytes
join_lines [] = []
join_lines (line ∷ rest) = line ++ crlf ++ join_lines rest

unfoldable pub protocol_builder : Reply → Bytes
unfolding resp_dumps join_lines
protocol_builder value = join_lines (resp_dumps value)

-- ===== src/Dispatch/Frames.antt =====
-- commands/__init__.py: the frames that the dispatcher writes itself.
use kagni.Prelude.{
  Option, none, some, List, [], ◌∷◌, ◌++◌, Bytes, bytes_eq, if◌then◌else◌, take, elem,
}
use kagni.Text.{codes, upper, lower, decode_ascii, encode_ascii}
use kagni.Resp.{
  Error, Reply, Replies, Value, Values, bytes, number, null, list, nil, cons, crlf,
  protocol_builder,
}

abbrev pub error_frame : Error → Bytes
error_frame e = protocol_builder (Reply.error e)

-- `_ALLOWED_WHILE_SUBSCRIBED`
abbrev pub allowed_while_subscribed : List Bytes
allowed_while_subscribed =
    codes "SUBSCRIBE"
    ∷ codes "UNSUBSCRIBE"
    ∷ codes "PSUBSCRIBE"
    ∷ codes "PUNSUBSCRIBE"
    ∷ codes "PING"
    ∷ []

-- `_SUBCOMMAND_COMMANDS`
abbrev pub subcommand_commands : List Bytes
subcommand_commands = codes "CLIENT" ∷ codes "CONFIG" ∷ codes "COMMAND" ∷ codes "PUBSUB" ∷ []

-- `_GATE_TEXT % label`
abbrev pub gate_text : Bytes → Bytes
gate_text label =
    codes "Can't execute '"
    ++ label
    ++ codes
        "': only (P|S)SUBSCRIBE / (P|S)UNSUBSCRIBE / PING / QUIT / RESET are allowed in this context"

-- `_gate_label`; none if the subcommand is not a byte string, whose `decode` raises
unfoldable pub gate_label : Bytes → List Value → Option Bytes
unfolding upper lower decode_ascii
gate_label command [] = some (lower (decode_ascii command))
gate_label command (first ∷ rest) =
    let label = lower (decode_ascii command) in
    if elem (upper (decode_ascii command)) subcommand_commands
    then elim first [ bytes sub ↦ some (label ++ b'|' ∷ lower (decode_ascii sub)) | _ ↦ none ]
    else some label

-- `b"".join(b"'%s' " % arg[:128] for arg in args)`; none where an argument is not a byte string,
-- which raises
unfoldable pub summary : List Value → Option Bytes
summary [] = some []
summary (bytes arg ∷ rest) = elim (summary rest) [
  | none ↦ none
  | some s ↦ some (39 ∷ take 128 arg ++ 39 ∷ b' ' ∷ s)
]
summary (_ ∷ rest) = none

-- `_unknown_command_frame`
unfoldable pub unknown_command_frame : Bytes → List Value → Option Bytes
unfolding summary encode_ascii
unknown_command_frame command args = elim (summary args) [
  | none ↦ none
  | some s ↦ some (
      codes "-ERR unknown command '"
      ++ encode_ascii command
      ++ codes "', with args beginning with: "
      ++ s
      ++ crlf)
]

-- An argument as a value of a reply; none if it holds a null, which the encoder refuses.
unfoldable mutual
  pub to_reply : Value → Option Reply
  to_reply (bytes b) = some (Reply.bulk b)
  to_reply (number n) = some (Reply.num n)
  to_reply null = none
  to_reply (list vs) = elim (to_replies vs) [ none ↦ none | some rs ↦ some (Reply.arr rs) ]

  pub to_replies : Values → Option Replies
  to_replies nil = some Replies.empty
  to_replies (cons v vs) = elim (to_reply v) [
    | none ↦ none
    | some r ↦ elim (to_replies vs) [ none ↦ none | some rs ↦ some (Replies.item r rs) ]
  ]

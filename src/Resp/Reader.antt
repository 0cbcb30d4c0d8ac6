-- ===== src/Resp/Reader.antt =====
-- resp.py: `RESPReader` with the pure-Python engine.
use kagni.Prelude.{ℕ, zero, suc, ◌*◌, ltb, List, [], ◌∷◌, ◌++◌, Bytes, if◌then◌else◌, length}
use kagni.Resp.Parse.{Value, Parsed, done, more, fail, ProtocolError, too_large, parse_message}

-- The messages of one call of `feed` and the buffer that it leaves, or the error that it raises.
pub data Fed : Type 0 where
  messages : List Value → Bytes → Fed
  raised : ProtocolError → Fed

abbrev pub max_buffer : ℕ
max_buffer = 512 * 1024 * 1024

abbrev pub prepend : List Value → Fed → Fed
prepend vs (messages ws buffer) = messages (vs ++ ws) buffer
prepend vs (raised e) = raised e

-- What a turn of the loop of `_feed_python` does with the parse of the buffer.
unfoldable pub turn : (Bytes → Fed) → Bytes → Parsed Value → Fed
turn loop buffer more = messages [] buffer
turn loop buffer (fail e) = raised e
turn loop buffer (done v rest) = prepend (v ∷ []) (loop rest)

-- Each turn takes a message off the buffer, so the length of the buffer is enough fuel.
unfoldable pub drain : ℕ → Bytes → Fed
unfolding turn
drain zero buffer = messages [] buffer
drain (suc fuel) buffer = turn (drain fuel) buffer (parse_message (length buffer) buffer)

unfoldable pub feed : Bytes → Bytes → Fed
unfolding drain
feed received buffer =
    if ltb max_buffer (length (buffer ++ received))
    then raised too_large
    else drain (length (buffer ++ received)) (buffer ++ received)

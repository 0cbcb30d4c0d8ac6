-- ===== src/Common/Errors.antt =====
-- constants.py: `Error` and the errors that the commands raise.
use kagni.Prelude.{Bytes, ◌++◌}
use kagni.Text.{codes}
use kagni.Resp.{Error}

abbrev pub err_error : Bytes → Error
err_error message = record { class = codes "ERR"; message = message }

abbrev pub wrongtype : Error
wrongtype = record {
  class = codes "WRONGTYPE";
  message = codes "Operation against a key holding the wrong kind of value";
}

abbrev pub not_int : Error
not_int = err_error (codes "value is not an integer or out of range")

abbrev pub invalid_cursor : Error
invalid_cursor = err_error (codes "invalid cursor")

abbrev pub syntax : Error
syntax = err_error (codes "syntax error")

abbrev pub nokey : Error
nokey = err_error (codes "no such key")

abbrev pub index_range : Error
index_range = err_error (codes "index out of range")

abbrev pub not_positive : Error
not_positive = err_error (codes "value is out of range, must be positive")

abbrev pub overflow : Error
overflow = err_error (codes "increment or decrement would overflow")

-- `Errors.arity(command)`
abbrev pub arity : Bytes → Error
arity command = err_error (codes "wrong number of arguments for '" ++ command ++ codes "' command")

abbrev pub rank_zero : Error
rank_zero = err_error (
    codes
      "RANK can't be zero: use 1 to start from the first match, 2 from the second ... or use negative to start from the end of the list")

abbrev pub count_neg : Error
count_neg = err_error (codes "COUNT can't be negative")

abbrev pub maxlen_neg : Error
maxlen_neg = err_error (codes "MAXLEN can't be negative")

abbrev pub numkeys_positive : Error
numkeys_positive = err_error (codes "numkeys should be greater than 0")

abbrev pub count_positive : Error
count_positive = err_error (codes "count should be greater than 0")

-- the answer of the dispatcher to any other exception of a handler
abbrev pub internal_error : Error
internal_error = err_error (codes "internal error")

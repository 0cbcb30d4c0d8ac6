-- ===== src/Lists/Compact/Calls.antt =====
-- commands/lists.py: every command leaves no empty list behind.
use kagni.Prelude.{pos, true, false, Option, none, some, List, [], Bytes, nat_eq, bytes_eq, length}
use kagni.Data.{Clock, Data}
use kagni.Resp.{Reply}
use kagni.Common.{Stored, Command, Result, ok, err, pure, ◌>>=◌}
use kagni.Common.Keeps.{Keeps, Keeps-bind, Keeps-pure, Keeps-raise}
use kagni.Lists.Basic.{
  list_at, lpush, rpush, lpushx, rpushx, llen, lrange, lindex, lpop, rpop, bulks,
}
use kagni.Lists.Move.{rpoplpush}
use kagni.Lists.Search.{PosOptions, pos_defaults, pos_options, lpos_list, lpos_reply, lpos}
use kagni.Lists.Basic.{lrange_of, lindex_of, bulk_or_nil}
use kagni.Text.{codes}
use kagni.Common.NonEmpty.{Scope, IsCompact}
use kagni.Lists.NonEmpty.{list_at-IsCompact}
use kagni.Lists.Compact.{pop-IsCompact, required-IsCompact, lset-IsCompact}
use kagni.Lists.Compact.Edits.{ltrim-IsCompact, lrem-IsCompact, linsert-IsCompact}
use kagni.Resp.{Replies}
use kagni.Lists.Calls.{ListCall, run_list}
use kagni.Lists.Compact.Moves.{lmpop-IsCompact, move-IsCompact, lmove-IsCompact}

module _ {Score : Type 0} {scope : Scope} where
  read-IsCompact :
      (key : Bytes) (f : Option (List Bytes) → Reply)
      → Keeps (IsCompact scope) (list_at {Score = Score} key >>= λ found. pure (f found))
  read-IsCompact key f =
      Keeps-bind (list_at key) (λ found. pure (f found)) (list_at-IsCompact key)
        λ found. Keeps-pure (f found)

  lpos-IsCompact :
      (key element : Bytes) (options : List Bytes)
      → Keeps (IsCompact scope) (lpos {Score = Score} key element options)
  unfolding lpos
  lpos-IsCompact key element options = with_options (pos_options options pos_defaults)
    where
      with_options :
          (r : Result PosOptions)
          → Keeps (IsCompact scope) (elim r as (λ _. Command (Stored Score) Reply) [
            | err e ↦ λ c d. (err e, d)
            | ok o ↦ list_at key >>= λ found.
                pure
                  (lpos_reply o.count (elim found [ none ↦ [] | some l ↦ lpos_list element o l ]))
          ])
      with_options (err e) = Keeps-raise e
      with_options (ok o) =
          read-IsCompact key (λ found.
            lpos_reply o.count (elim found [ none ↦ [] | some l ↦ lpos_list element o l ]))

  call-IsCompact : (call : ListCall) → Keeps (IsCompact scope) (run_list {Score = Score} call)
  unfolding run_list lpush rpush lpushx rpushx llen lrange lindex lpop rpop rpoplpush
  call-IsCompact (ListCall.lpush_call key vals) =
      required-IsCompact key vals true false (codes "lpush")
  call-IsCompact (ListCall.rpush_call key vals) =
      required-IsCompact key vals false false (codes "rpush")
  call-IsCompact (ListCall.lpushx_call key vals) =
      required-IsCompact key vals true true (codes "lpushx")
  call-IsCompact (ListCall.rpushx_call key vals) =
      required-IsCompact key vals false true (codes "rpushx")
  call-IsCompact (ListCall.llen_call key) =
      read-IsCompact key λ found. Reply.num (elim found [ none ↦ pos 0 | some l ↦ pos (length l) ])
  call-IsCompact (ListCall.lrange_call key start end) = read-IsCompact key λ found. elim found [
    | none ↦ Reply.arr Replies.empty
    | some l ↦ Reply.arr (bulks (lrange_of start end l))
  ]
  call-IsCompact (ListCall.ltrim_call key start end) = ltrim-IsCompact key start end
  call-IsCompact (ListCall.lindex_call key index) =
      read-IsCompact key
        λ found. elim found [ none ↦ Reply.nil | some l ↦ bulk_or_nil (lindex_of index l) ]
  call-IsCompact (ListCall.lpop_call key count) = pop-IsCompact key count true
  call-IsCompact (ListCall.rpop_call key count) = pop-IsCompact key count false
  call-IsCompact (ListCall.lset_call key index val) = lset-IsCompact key index val
  call-IsCompact (ListCall.lrem_call key count val) = lrem-IsCompact key count val
  call-IsCompact (ListCall.linsert_call key place pivot val) = linsert-IsCompact key place pivot val
  call-IsCompact (ListCall.lmove_call source destination wherefrom whereto) =
      lmove-IsCompact source destination wherefrom whereto
  call-IsCompact (ListCall.rpoplpush_call source destination) =
      move-IsCompact source destination false true
  call-IsCompact (ListCall.lmpop_call numkeys rest) = lmpop-IsCompact numkeys rest
  call-IsCompact (ListCall.lpos_call key element options) = lpos-IsCompact key element options

  -- In a store without empty lists a list command leaves none behind, on every branch: whether it
  -- returns or raises, whatever its arguments are, and whatever other collections are empty. In a
  -- store without any empty collection it leaves none behind either.
  pub run_list-IsCompact :
      (call : ListCall) (c : Clock) (d : Data (Stored Score))
      → IsCompact scope d
      → IsCompact scope (run_list call c d).1
  run_list-IsCompact call = (call-IsCompact call).at

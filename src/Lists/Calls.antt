-- ===== src/Lists/Calls.antt =====
-- commands/lists.py: the list commands as one type, with their arguments as the dispatcher hands
-- them over.
use kagni.Prelude.{ℤ, Option, List, Bytes}
use kagni.Resp.{Reply}
use kagni.Common.{Stored, Command}
use kagni.Lists.Basic.{lpush, rpush, lpushx, rpushx, llen, lrange, lindex, lpop, rpop}
use kagni.Lists.Edit.{lset, ltrim, lrem, linsert}
use kagni.Lists.Move.{lmove, rpoplpush, lmpop}
use kagni.Lists.Search.{lpos}

pub data ListCall : Type 0 where
  lpush_call rpush_call lpushx_call rpushx_call : Bytes → List Bytes → ListCall
  llen_call : Bytes → ListCall
  lrange_call ltrim_call : Bytes → ℤ → ℤ → ListCall
  lindex_call : Bytes → ℤ → ListCall
  lpop_call rpop_call : Bytes → Option ℤ → ListCall
  lset_call lrem_call : Bytes → ℤ → Bytes → ListCall
  linsert_call lmove_call : Bytes → Bytes → Bytes → Bytes → ListCall
  rpoplpush_call : Bytes → Bytes → ListCall
  lmpop_call : ℤ → List Bytes → ListCall
  lpos_call : Bytes → Bytes → List Bytes → ListCall

unfoldable pub run_list : {Score : Type 0} → ListCall → Command (Stored Score) Reply
unfolding lpush rpush lpushx rpushx llen lrange lindex lpop rpop lset ltrim lrem linsert lmove
    rpoplpush lmpop lpos
run_list (lpush_call key vals) = lpush key vals
run_list (rpush_call key vals) = rpush key vals
run_list (lpushx_call key vals) = lpushx key vals
run_list (rpushx_call key vals) = rpushx key vals
run_list (llen_call key) = llen key
run_list (lrange_call key start end) = lrange key start end
run_list (ltrim_call key start end) = ltrim key start end
run_list (lindex_call key index) = lindex key index
run_list (lpop_call key count) = lpop key count
run_list (rpop_call key count) = rpop key count
run_list (lset_call key index val) = lset key index val
run_list (lrem_call key count val) = lrem key count val
run_list (linsert_call key place pivot val) = linsert key place pivot val
run_list (lmove_call source destination wherefrom whereto) =
    lmove source destination wherefrom whereto
run_list (rpoplpush_call source destination) = rpoplpush source destination
run_list (lmpop_call numkeys rest) = lmpop numkeys rest
run_list (lpos_call key element options) = lpos key element options

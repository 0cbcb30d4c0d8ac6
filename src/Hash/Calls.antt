-- ===== src/Hash/Calls.antt =====
-- commands/hash.py: the hash commands as one type, with their arguments as the dispatcher hands
-- them over.
use kagni.Prelude.{ℤ, Bool, true, false, List, Bytes}
use kagni.Resp.{Reply}
use kagni.Common.{Stored, Command}
use kagni.Strings.{fits}
use kagni.Hash.Basic.{
  hset, hmset, hsetnx, hget, hmget, hexists, hdel, hlen, hkeys, hvals, hgetall, hstrlen, hincrby,
}
use kagni.Hash.Grammar.{ExpireCommand}
use kagni.Hash.Expiry.{Reading, hexpire_family, hexpire_read}

pub data HashCommand : Type 0 where
  hset_command hmset_command hmget_command hdel_command : Bytes → List Bytes → HashCommand
  hsetnx_command : Bytes → Bytes → Bytes → HashCommand
  hget_command hexists_command hstrlen_command : Bytes → Bytes → HashCommand
  hlen_command hkeys_command hvals_command hgetall_command : Bytes → HashCommand
  hincrby_command : Bytes → Bytes → ℤ → HashCommand
  hexpire_command : ExpireCommand → Bytes → List Bytes → HashCommand
  hexpire_read_command : Reading → Bytes → List Bytes → HashCommand

unfoldable pub run_hash : {Score : Type 0} → HashCommand → Command (Stored Score) Reply
unfolding hset hmset hsetnx hget hmget hexists hdel hlen hkeys hvals hgetall hstrlen hincrby
    hexpire_family hexpire_read
run_hash (hset_command key field_values) = hset key field_values
run_hash (hmset_command key field_values) = hmset key field_values
run_hash (hmget_command key fields) = hmget key fields
run_hash (hdel_command key fields) = hdel key fields
run_hash (hsetnx_command key name val) = hsetnx key name val
run_hash (hget_command key name) = hget key name
run_hash (hexists_command key name) = hexists key name
run_hash (hstrlen_command key name) = hstrlen key name
run_hash (hlen_command key) = hlen key
run_hash (hkeys_command key) = hkeys key
run_hash (hvals_command key) = hvals key
run_hash (hgetall_command key) = hgetall key
run_hash (hincrby_command key name increment) = hincrby key name increment
run_hash (hexpire_command command key args) = hexpire_family command key args
run_hash (hexpire_read_command kind key args) = hexpire_read kind key args

-- HGET, HMGET, HEXISTS and HSTRLEN purge a field that has expired, and look no further; the
-- dispatcher hands HINCRBY an integer of 64 bits only.
abbrev pub drops_empty : HashCommand → Bool
drops_empty (hget_command key name) = false
drops_empty (hmget_command key fields) = false
drops_empty (hexists_command key name) = false
drops_empty (hstrlen_command key name) = false
drops_empty (hincrby_command key name increment) = fits increment
drops_empty _ = true

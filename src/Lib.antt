-- ===== src/Lib.antt =====
-- kagni: a Redis-like key/value server. Its parts are the store (`src/kagni/data.py`), the RESP
-- protocol (`src/kagni/resp.py`), the command modules (`src/kagni/commands/`), the SQLite
-- backend (`src/kagni/db.py`), the publish/subscribe hub (`src/kagni/pubsub.py`) and the
-- servers. A server feeds received bytes to a `RESPReader`, hands each message to
-- `Commands.dispatch`, which runs a command against the store, and writes the encoded reply
-- back.
--
-- What models what:
-- - Prelude: the shared names; Python's integers (`ℤ`), lists measured by native numbers,
--   Boolean tests.
-- - Dict: a Python dict as an association list with one entry per key, in the order of
--   insertion.
-- - Text: what the program uses of Python's `bytes` and `int`: case, strip, split, decimal
--   numbers. A byte string is a list of codes.
-- - Resp: `src/kagni/resp.py`. `resp_dumps` and `protocol_builder` are `_resp_dumps` and
--   `protocolBuilder`; `parse_message` and its parts are `_parse_message`, `_parse_array`,
--   `_parse_bulk` and `_read_line`; `feed` is `RESPReader.feed` with the pure-Python engine. A
--   position in the buffer is the rest of the buffer from there.
-- - Events, Data: `src/kagni/data.py`, one function per method of `Data`. Data.Spec is what the
--   store promises, an operation on a map of live entries for each method; Data.View is that
--   map.
-- - Common: `src/kagni/commands/common.py` and `src/kagni/constants.py`: errors, `string2ll`,
--   the kinds of values, and `Command`, how a command runs.
-- - Lists: `src/kagni/commands/lists.py`: `lpush` is LPUSH, `push` is `_push`, and so on.
-- - Strings: part of `src/kagni/commands/basic.py`: the commands on strings, EXPIRE and its kin,
--   DEL, EXISTS, TYPE, KEYS, SCAN, DBSIZE and the counters; Strings.Request is what a client may
--   expect of SET with its options, and Strings.Request.Words, Limits and Outcomes relate the
--   code to it; `set_command` is SET, `parse_extended_options` and `expire_wall_deadline` are
--   `_parse_extended_options` and `_expire_wall_deadline`; `bump` is `_bump`, whose `int` may
--   refuse a number of more than 4300 digits, and then the answer is the dispatcher's internal
--   error.
-- - Hash: `src/kagni/commands/hash.py`: `hset` is HSET, `field` is `_field`, `hexpire_family` is
--   `_hexpire` and `hexpire_read` is `_hexpire_read`. A hash is a dict of fields with deadlines;
--   Hash.Spec is a map of live fields, and Hash.View is the map that a hash shows at an instant.
-- - Zset: `src/kagni/zset.py`: the class `ZSet`, over any ordered type of scores. `bisect_left`
--   and `insort` of Python's `bisect` are modelled by what their documentation says of a sorted
--   list, the position before every entry that is not smaller.
-- - Sets: `src/kagni/commands/set.py`: `sadd` is SADD, `sets_at` is `_sets`, `store_result` is
--   `_store_result`. SMOVE reads the two sets again where they may be one object. Which member
--   `set.pop` takes is a parameter of SPOP.
-- - Bits: part of `src/kagni/commands/bit.py`: SETBIT, GETBIT, BITFIELD and BITFIELD_RO;
--   `extract_bits`, `store_bits`, `interpret` and `bitfield_overflow` are the functions of those
--   names. The bitmap is `pyroaring.BitMap`, third-party code: the record `BitMap` of its
--   operations, with the laws of a set of 32-bit integers. At a position of 2^32 or more it
--   raises OverflowError, which the dispatcher answers with its internal error; what raises so
--   is `none` here, or the error `internal_error`.
-- - PubSub: `src/kagni/pubsub.py`: the two tables of `PubSubHub`, `publish` and the
--   introspection. Sessions are numbers, the hub logs what it delivers, and the glob match is a
--   parameter, since Python's `fnmatch` does it.
-- - Dispatch: `src/kagni/commands/__init__.py`, with WATCH and UNWATCH of
--   `src/kagni/commands/basic.py`: `dispatch`, `dispatch_direct` and `dispatch_queued` are the
--   methods of those names, `exec` is the branch for EXEC and `replay` its loop. The handlers,
--   what `getattr` finds, are a parameter; an exception that leaves `dispatch` is the outcome
--   `crashed`. The queued commands of an EXEC run at successive clocks. The sender of a session
--   is its `outbox`.
-- - Persist: `src/kagni/db.py`: `begin_dump` and `commit_dump` are the two parts of `dump` under
--   the lock, `flush` is `flush`, and `Step` is what the event loop and the worker threads do
--   one after another. A dump that is not given a snapshot, and so is not guarded, is not
--   modelled.
-- - Tests: each theorem at a concrete input.
--
-- How a command is modelled: it takes the clocks and the store, and gives a result or a raised
-- error, with the store that it leaves; what it wrote before it raised stays written. One
-- command runs at one instant: the clocks are read once for it. The `on_purge` callback and
-- `_notify` append to the log `notified`. Containers are values, so a copy of one is the
-- container itself; a deque that a command changes in place is written back to its entry, which
-- keeps its deadline. An argument that the decorator has converted to an integer is an integer
-- here. Scores of sorted sets are of a type that the model does not fix.
--
-- Fuel: the parser of nested arrays and the loop of the reader run on the length of the buffer.
-- That is enough: each nested message starts after the header of its array, and each turn of the
-- loop takes a message off the buffer. The decimal printer runs on the number that it prints.
--
-- Not modelled: the hiredis engine, a third-party parser; the RecursionError of a message nested
-- too deep for Python's stack; the rows of plain values that an older version wrote and
-- `restore` still reads; the IndexError of a pop from an empty deque, which the counts exclude;
-- `pairs`, `copy` and the construction from pairs of `ZSet`; `ttl` and `ttl_ms` of the store,
-- which round a float; `keyspace_stats`; `load` of the backend; the servers, the client and the
-- embedding, which are input and output; the commands that subscribe; of the hash commands
-- HINCRBYFLOAT, HSCAN and HRANDFIELD, and of the set commands SSCAN and SRANDMEMBER (floats, a
-- glob of `fnmatch`, a random choice); the commands on sorted sets; BITOP, BITCOUNT and BITPOS;
-- and the rest of `src/kagni/commands/basic.py`: TTL and PTTL, INCRBYFLOAT, LCS, FLUSHALL and
-- the server commands. Whether a pattern of KEYS or SCAN matches is a parameter. A Python set is
-- a list without duplicates, in the order of insertion.
pub mod Prelude
pub mod Text
pub mod Resp
pub mod Dict
pub mod Events
pub mod Data
pub mod Common
pub mod Lists
pub mod Persist
pub mod PubSub
pub mod Dispatch
pub mod Strings
pub mod Hash
pub mod Zset
pub mod Sets
pub mod Bits
pub mod Tests

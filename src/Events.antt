-- ===== src/Events.antt =====
-- commands/basic.py: the keyspace events that commands name (`_EVENT_CLASS`).
-- The names of the keyspace events.
pub data Event : Type 0 where
  set setrange append incrby incrbyfloat setbit : Event
  lpush rpush lpop rpop ltrim lset linsert lrem : Event
  sadd srem spop sinterstore sunionstore sdiffstore : Event
  hset hdel hincrby hincrbyfloat hexpire hpersist : Event
  zadd zincr zrem zpopmin zpopmax zremrangebyrank zremrangebyscore zremrangebylex : Event
  zunionstore zinterstore zdiffstore : Event
  del expire persist expired : Event

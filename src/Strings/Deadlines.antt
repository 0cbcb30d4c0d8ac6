-- ===== src/Strings/Deadlines.antt =====
-- commands/basic.py: EXPIRE and its kin, PERSIST, EXPIRETIME and PEXPIRETIME, and MGET, MSET and
-- MSETNX.
use kagni.Prelude.{
  ℕ, ◌%◌, ℤ, pos, ◌+ℤ◌, ◌*ℤ◌, ltb_ℤ, ltb, floor_div, Bool, false, not, ◌&&◌, ◌||◌, List, [], ◌∷◌,
  Bytes, ◌==◌, nat_eq, bytes_eq, if◌then◌else◌, length, is_empty,
}
use kagni.Events.{Event}
use kagni.Data
use kagni.Data.{Clock, Data}
use kagni.Text.{codes}
use kagni.Resp.{Reply, Replies}
use kagni.Common.Errors.{arity}
use kagni.Common.{
  Stored, string, Command, ok, pure, call, modify, raise_if, ◌>>=◌, ◌>>◌, after_write,
}
use kagni.Strings.Basic.{string_at, bulk_or_null, max_string_size, string_overflow}

-- the keys and the values of MSET
unfoldable pub pairs : List Bytes → List (Bytes × Bytes)
pairs (key ∷ value ∷ rest) = (key, value) ∷ pairs rest
pairs (_ ∷ []) = []
pairs [] = []

unfoldable pub any_too_long : List (Bytes × Bytes) → Bool
any_too_long [] = false
any_too_long ((_, value) ∷ rest) = ltb max_string_size (length value) || any_too_long rest

abbrev pub bad_count : List Bytes → Bool
bad_count args = ltb (length args) 2 || not (length args % 2 == 0)

module _ {Score : Type 0} where
  -- `_expire_notify`
  unfoldable pub expire_notify :
      Bytes → ℕ → Bool → Clock → Data (Stored Score) → Data (Stored Score)
  unfolding after_write
  expire_notify key result live_before c d =
      if result == 0
      then d
      else after_write key
          (if live_before && not (Data.is_live key c d) then Event.del else Event.expire) d

  -- the body that EXPIRE and its kin share
  abbrev expiring :
      (Clock → Data (Stored Score) → ℕ × Data (Stored Score)) → Bytes → Command (Stored Score) Reply
  expiring method key c d =
      let live_before = Data.is_live key c d in
      let (result, d') = method c d in
      (ok (Reply.num (pos result)), expire_notify key result live_before c d')

  unfoldable pub expire : Bytes → ℤ → Command (Stored Score) Reply
  unfolding expire_notify
  expire key secs = expiring (Data.expire key secs) key

  unfoldable pub pexpire : Bytes → ℤ → Command (Stored Score) Reply
  unfolding expire_notify ◌+ℤ◌ ◌*ℤ◌
  pexpire key ms = expiring (λ c. Data.expire_at key (c.wall +ℤ ms *ℤ pos 1_000_000) c) key

  unfoldable pub expireat : Bytes → ℤ → Command (Stored Score) Reply
  unfolding expire_notify ◌*ℤ◌
  expireat key ts = expiring (Data.expire_at key (ts *ℤ pos 1_000_000_000)) key

  unfoldable pub pexpireat : Bytes → ℤ → Command (Stored Score) Reply
  unfolding expire_notify ◌*ℤ◌
  pexpireat key ts = expiring (Data.expire_at key (ts *ℤ pos 1_000_000)) key

  unfoldable pub persist : Bytes → Command (Stored Score) Reply
  unfolding after_write
  persist key = call (Data.persist key) >>= λ result. do
    modify (λ d. if result == 0 then d else after_write key Event.persist d)
    pure (Reply.num (pos result))

  -- EXPIRETIME and PEXPIRETIME, by the nanoseconds of their unit
  abbrev expiry_in : ℕ → Bytes → Command (Stored Score) Reply
  expiry_in unit key = call (Data.wall_expiry key) >>= λ value.
      pure (Reply.num (if ltb_ℤ (pos 0) value then floor_div value unit else value))

  unfoldable pub expiretime : Bytes → Command (Stored Score) Reply
  unfolding floor_div
  expiretime key = expiry_in 1_000_000_000 key

  unfoldable pub pexpiretime : Bytes → Command (Stored Score) Reply
  unfolding floor_div
  pexpiretime key = expiry_in 1_000_000 key

  -- the loop of MGET
  unfoldable pub read_keys : List Bytes → Command (Stored Score) Replies
  unfolding string_at
  read_keys [] = pure Replies.empty
  read_keys (key ∷ rest) =
      let others = read_keys rest in
      string_at key >>= λ val. others >>= λ more. pure (Replies.item (bulk_or_null val) more)

  unfoldable pub mget : List Bytes → Command (Stored Score) Reply
  unfolding read_keys
  mget keys = do
    raise_if (is_empty keys) (arity (codes "mget"))
    out ← read_keys keys
    pure (Reply.arr out)

  -- `self.data.update`
  unfoldable pub update_pairs : List (Bytes × Bytes) → Data (Stored Score) → Data (Stored Score)
  update_pairs [] d = d
  update_pairs ((key, value) ∷ rest) d = update_pairs rest (Data.set_item key (string value) d)

  unfoldable pub after_writes : List (Bytes × Bytes) → Data (Stored Score) → Data (Stored Score)
  unfolding after_write
  after_writes [] d = d
  after_writes ((key, _) ∷ rest) d = after_writes rest (after_write key Event.set d)

  unfoldable pub mset : List Bytes → Command (Stored Score) Reply
  unfolding pairs any_too_long update_pairs after_writes
  mset args = do
    raise_if (bad_count args) (arity (codes "mset"))
    raise_if (any_too_long (pairs args)) string_overflow
    modify (λ d. after_writes (pairs args) (update_pairs (pairs args) d))
    pure Reply.ok

  unfoldable pub any_live : List (Bytes × Bytes) → Clock → Data (Stored Score) → Bool
  any_live [] c d = false
  any_live ((key, _) ∷ rest) c d = Data.is_live key c d || any_live rest c d

  unfoldable pub msetnx : List Bytes → Command (Stored Score) Reply
  unfolding pairs any_live any_too_long update_pairs after_writes
  msetnx args = do
    raise_if (bad_count args) (arity (codes "msetnx"))
    there ← call (λ c d. (any_live (pairs args) c d, d))
    if there then pure (Reply.num (pos 0)) else (do
      raise_if (any_too_long (pairs args)) string_overflow
      modify (λ d. after_writes (pairs args) (update_pairs (pairs args) d))
      pure (Reply.num (pos 1)))

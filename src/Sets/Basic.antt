-- ===== src/Sets/Basic.antt =====
-- commands/set.py: SADD, SCARD, SMEMBERS, SREM, SMISMEMBER, SISMEMBER, SMOVE and SPOP.
use kagni.Prelude.{
  ℕ, zero, suc, ◌-◌, ltb, leb_ℤ, ℤ, pos, pos_part, is_neg, Bool, true, false, not, Option, none,
  some, List, [], ◌∷◌, Bytes, bytes_eq, elem, if◌then◌else◌, length, is_empty, beq_ℤ,
}
use kagni.Events.{Event}
use kagni.Data
use kagni.Data.{Clock, Data}
use kagni.Text.{codes}
use kagni.Resp.{Reply, Replies}
use kagni.Common.Errors.{arity, not_positive}
use kagni.Common.{
  Stored, members, kind_set, Command, ok, pure, modify, raise_if, ◌>>=◌, ◌>>◌, expect_kind,
  after_write, notify, update, remove,
}
use kagni.Lists.{bulks}
use kagni.Sets.Algebra.{include, discard, update_set, pop_at}

abbrev pub set_of : {Score : Type 0} → Option (Stored Score) → Option (List Bytes)
set_of (some (members l)) = some l
set_of _ = none

-- the loop of SREM: how many members it removes, and the set
unfoldable pub remove_members : List Bytes → List Bytes → ℕ × List Bytes
unfolding elem discard
remove_members [] cur = (0, cur)
remove_members (x ∷ xs) cur =
    let here = elem x cur in
    let (n, left) = remove_members xs (if here then discard x cur else cur) in
    (if here then suc n else n, left)

abbrev pub flags_of : List Bool → Replies
flags_of [] = Replies.empty
flags_of (b ∷ rest) = Replies.item (Reply.num (if b then pos 1 else pos 0)) (flags_of rest)

abbrev pub is_member : Option (List Bytes) → Bytes → Bool
is_member none x = false
is_member (some cur) x = elem x cur

abbrev pub each_member : Option (List Bytes) → List Bytes → List Bool
each_member found [] = []
each_member found (x ∷ xs) = is_member found x ∷ each_member found xs

-- `[cur.pop() for _ in range(count)]`, the places of the members from `places`
unfoldable pub pop_some : ℕ → List ℕ → List Bytes → List Bytes × List Bytes
unfolding pop_at
pop_some zero places cur = ([], cur)
pop_some (suc n) [] cur = elim (pop_at 0 cur) [
  | none ↦ ([], cur)
  | some (x, rest) ↦ let (more, left) = pop_some n [] rest in (x ∷ more, left)
]
pop_some (suc n) (i ∷ places) cur = elim (pop_at i cur) [
  | none ↦ ([], cur)
  | some (x, rest) ↦ let (more, left) = pop_some n places rest in (x ∷ more, left)
]

abbrev pub place_of : List ℕ → ℕ
place_of [] = 0
place_of (i ∷ rest) = i

module _ {Score : Type 0} where
  -- `_set`
  unfoldable pub set_at : Bytes → Command (Stored Score) (Option (List Bytes))
  unfolding expect_kind
  set_at key = expect_kind key kind_set >>= λ found. pure (set_of found)

  -- the set under `key` after it was changed in place
  abbrev pub store_set : Bytes → List Bytes → Command (Stored Score) (Unit {0})
  store_set key l = modify (update key (members l))

  abbrev pub when : Bool → Command (Stored Score) (Unit {0}) → Command (Stored Score) (Unit {0})
  when b m = if b then m else pure tt

  -- "the key disappears with its last member", and is reported if `reported`
  abbrev pub drop_set : Bytes → Bool → Command (Stored Score) (Unit {0})
  drop_set key reported = remove key >> when reported (modify (notify key Event.del))

  unfoldable pub sadd : Bytes → List Bytes → Command (Stored Score) Reply
  unfolding set_at update_set update after_write
  sadd key vals = do
    raise_if (is_empty vals) (arity (codes "sadd"))
    found ← set_at key
    elim found [
      | none ↦ do
        modify (Data.set_item key (members (update_set vals [])))
        modify (after_write key Event.sadd)
        pure (Reply.num (pos (length (update_set vals []))))
      | some cur ↦
          let added = length (update_set vals cur) - length cur in
          do
            store_set key (update_set vals cur)
            when (ltb 0 added) (modify (after_write key Event.sadd))
            pure (Reply.num (pos added))
    ]

  unfoldable pub scard : Bytes → Command (Stored Score) Reply
  unfolding set_at
  scard key = set_at key >>= λ found.
      pure (Reply.num (elim found [ none ↦ pos 0 | some cur ↦ pos (length cur) ]))

  unfoldable pub smembers : Bytes → Command (Stored Score) Reply
  unfolding set_at bulks
  smembers key = set_at key >>= λ found.
      pure (Reply.arr (elim found [ none ↦ Replies.empty | some cur ↦ bulks cur ]))

  unfoldable pub srem : Bytes → List Bytes → Command (Stored Score) Reply
  unfolding set_at remove_members update after_write notify
  srem key vals = do
    raise_if (is_empty vals) (arity (codes "srem"))
    found ← set_at key
    elim found [
      | none ↦ pure (Reply.num (pos 0))
      | some cur ↦
          let (removed, left) = remove_members vals cur in
          do
            store_set key left
            when (ltb 0 removed) (modify (after_write key Event.srem))
            when (is_empty left) (drop_set key (ltb 0 removed))
            pure (Reply.num (pos removed))
    ]

  unfoldable pub smismember : Bytes → List Bytes → Command (Stored Score) Reply
  unfolding set_at elem
  smismember key vals = do
    raise_if (is_empty vals) (arity (codes "smismember"))
    found ← set_at key
    pure (Reply.arr (flags_of (each_member found vals)))

  unfoldable pub sismember : Bytes → Bytes → Command (Stored Score) Reply
  unfolding set_at elem
  sismember key val =
      set_at key >>= λ found. pure (Reply.num (if is_member found val then pos 1 else pos 0))

  -- the set object under `key`, as it stands now
  unfoldable pub current_set : Bytes → Command (Stored Score) (List Bytes)
  unfolding Data.get_item
  current_set key c d = (ok (elim (set_of (Data.get_item key c d)) [ none ↦ [] | some l ↦ l ]), d)

  -- The rest of SMOVE, once the member was found in the source. Where source and target are one
  -- key they are one object, hence the target is read again after the source was written.
  unfoldable pub move_member : Bytes → Bytes → Bytes → List Bytes → Command (Stored Score) Reply
  unfolding set_at discard include current_set update after_write notify
  move_member source target val src = set_at target >>= λ dst. do
    store_set source (discard val src)
    elim dst [ none ↦ modify (Data.set_item target (members [])) | some l ↦ pure tt ]
    now ← current_set target
    store_set target (include val now)
    modify (after_write source Event.srem)
    left ← current_set source
    when (is_empty left) (drop_set source true)
    modify (after_write target Event.sadd)
    pure (Reply.num (pos 1))

  unfoldable pub smove : Bytes → Bytes → Bytes → Command (Stored Score) Reply
  unfolding set_at elem move_member
  smove source target val = set_at source >>= λ found. elim found [
    | none ↦ pure (Reply.num (pos 0))
    | some src ↦
        if not (elem val src) then pure (Reply.num (pos 0)) else move_member source target val src
  ]

  -- the two ends of SPOP on a set with members
  unfoldable pub pop_member : Bytes → List ℕ → List Bytes → Command (Stored Score) Reply
  unfolding pop_at update after_write notify
  pop_member key places cur = elim (pop_at (place_of places) cur) [
    | none ↦ pure Reply.nil
    | some (val, left) ↦ do
      store_set key left
      modify (after_write key Event.spop)
      when (is_empty left) (drop_set key true)
      pure (Reply.bulk val)
  ]

  unfoldable pub pop_members : Bytes → ℤ → List ℕ → List Bytes → Command (Stored Score) Reply
  unfolding pop_some update after_write notify bulks
  pop_members key count places cur =
      if beq_ℤ count (pos 0)
      then pure (Reply.arr Replies.empty)
      else if leb_ℤ (pos (length cur)) count
      then (do modify (after_write key Event.spop); drop_set key true; pure (Reply.arr (bulks cur)))
      else let (popped, left) = pop_some (pos_part count) places cur in
        (do
          modify (after_write key Event.spop)
          store_set key left
          pure (Reply.arr (bulks popped)))

  -- SPOP; `places` are where the members stand that `set.pop` takes
  unfoldable pub spop : List ℕ → Bytes → Option ℤ → Command (Stored Score) Reply
  unfolding set_at pop_member pop_members
  spop places key none = set_at key >>= λ found. elim found [
    | none ↦ pure Reply.nil
    | some cur ↦ if is_empty cur then pure Reply.nil else pop_member key places cur
  ]
  spop places key (some count) = do
    raise_if (is_neg count) not_positive
    found ← set_at key
    elim found [
      | none ↦ pure (Reply.arr Replies.empty)
      | some cur ↦
          if is_empty cur then pure (Reply.arr Replies.empty) else pop_members key count places cur
    ]

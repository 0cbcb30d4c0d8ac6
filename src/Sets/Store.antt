-- ===== src/Sets/Store.antt =====
-- commands/set.py: SDIFF, SINTER, SUNION, their STORE forms, and SINTERCARD.
use kagni.Prelude.{
  ℕ, suc, leb, ltb_ℤ, ℤ, pos, negsuc, pos_part, is_neg, Bool, true, not, ◌&&◌, Option, none, some,
  List, [], ◌∷◌, Bytes, bytes_eq, ◌==◌, elem, if◌then◌else◌, length, is_empty, take, drop, nat_beq,
}
use kagni.Events.{Event}
use kagni.Data
use kagni.Data.{Clock, Data}
use kagni.Text.{codes, upper}
use kagni.Resp.{Error, Reply}
use kagni.Common.Errors.{err_error, arity, wrongtype, syntax, numkeys_positive}
use kagni.Common.{
  Stored, members, Command, Result, ok, err, pure, modify, raise_if, ◌>>=◌, ◌>>◌, after_write,
  remove, string2ll,
}
use kagni.Lists.{bulks}
use kagni.Sets.Algebra.{difference, intersection, union, reduce_sets}

abbrev pub too_many_keys : Error
too_many_keys = err_error (codes "Number of keys can't be greater than number of args")

abbrev pub limit_negative : Error
limit_negative = err_error (codes "LIMIT can't be negative")

-- the options of SINTERCARD after the keys, with the limit so far
unfoldable pub limit_option : List Bytes → ℤ → Result ℤ
unfolding upper string2ll
limit_option [] limit = ok limit
limit_option (name ∷ []) limit = err syntax
limit_option (name ∷ raw ∷ rest) limit =
    let value : ℤ = elim (string2ll raw) [ none ↦ negsuc 0 | some n ↦ n ] in
    let more = limit_option rest value in
    if not (upper name == codes "LIMIT")
    then err syntax
    else if is_neg value
    then err limit_negative
    else more

unfoldable pub in_all : Bytes → List (List Bytes) → Bool
unfolding elem
in_all x [] = true
in_all x (s ∷ rest) = elem x s && in_all x rest

-- the loop of SINTERCARD, with the members still to be looked at and the count so far
unfoldable pub count_common : List Bytes → List (List Bytes) → ℕ → ℕ → ℕ
unfolding in_all
count_common [] others limit count = count
count_common (x ∷ xs) others limit count =
    let common = in_all x others in
    let rest = count_common xs others limit (if common then suc count else count) in
    if common && not (nat_beq limit 0) && leb limit (suc count) then suc count else rest

unfoldable pub card_common : ℕ → List (List Bytes) → ℕ
unfolding count_common
card_common limit [] = 0
card_common limit (first ∷ others) = if is_empty first then 0 else count_common first others limit 0

module _ {Score : Type 0} where
  -- one operand of `_sets`
  abbrev pub operand :
      Option (Stored Score) × Data (Stored Score) → Result (List Bytes) × Data (Stored Score)
  operand (none, d) = (ok [], d)
  operand (some (members l), d) = (ok l, d)
  operand (some _, d) = (err wrongtype, d)

  -- `_sets`
  unfoldable pub sets_at : List Bytes → Command (Stored Score) (List (List Bytes))
  sets_at [] = pure []
  sets_at (key ∷ rest) =
      let others = sets_at rest in
      (λ c d. operand (Data.get key c d)) >>= λ first. others >>= λ more. pure (first ∷ more)

  -- SDIFF, SINTER and SUNION, by their operator
  unfoldable pub combine :
      (List Bytes → List Bytes → List Bytes) → Bytes → List Bytes → Command (Stored Score) Reply
  unfolding sets_at reduce_sets bulks
  combine op name keys = do
    raise_if (is_empty keys) (arity name)
    sets ← sets_at keys
    pure (Reply.arr (bulks (reduce_sets op sets)))

  -- `_store_result`
  unfoldable pub store_result : Bytes → List Bytes → Event → Command (Stored Score) Reply
  unfolding after_write
  store_result target result event =
      if is_empty result then (remove target >> pure (Reply.num (pos 0))) else (do
        modify (Data.set_item target (members result))
        modify (after_write target event)
        pure (Reply.num (pos (length result))))

  unfoldable pub combine_store :
      (List Bytes → List Bytes → List Bytes)
      → Bytes
      → Event
      → Bytes
      → List Bytes
      → Command (Stored Score) Reply
  unfolding sets_at reduce_sets store_result
  combine_store op name event target keys = do
    raise_if (is_empty keys) (arity name)
    sets ← sets_at keys
    store_result target (reduce_sets op sets) event

  unfoldable pub sdiff : List Bytes → Command (Stored Score) Reply
  unfolding combine difference
  sdiff keys = combine difference (codes "sdiff") keys

  unfoldable pub sinter : List Bytes → Command (Stored Score) Reply
  unfolding combine intersection
  sinter keys = combine intersection (codes "sinter") keys

  unfoldable pub sunion : List Bytes → Command (Stored Score) Reply
  unfolding combine union
  sunion keys = combine union (codes "sunion") keys

  unfoldable pub sdiffstore : Bytes → List Bytes → Command (Stored Score) Reply
  unfolding combine_store difference
  sdiffstore target keys =
      combine_store difference (codes "sdiffstore") Event.sdiffstore target keys

  unfoldable pub sinterstore : Bytes → List Bytes → Command (Stored Score) Reply
  unfolding combine_store intersection
  sinterstore target keys =
      combine_store intersection (codes "sinterstore") Event.sinterstore target keys

  unfoldable pub sunionstore : Bytes → List Bytes → Command (Stored Score) Reply
  unfolding combine_store union
  sunionstore target keys = combine_store union (codes "sunionstore") Event.sunionstore target keys

  unfoldable pub sintercard : ℤ → List Bytes → Command (Stored Score) Reply
  unfolding limit_option sets_at card_common
  sintercard numkeys rest = do
    raise_if (ltb_ℤ numkeys (pos 1)) numkeys_positive
    raise_if (ltb_ℤ (pos (length rest)) numkeys) too_many_keys
    limit ← (λ c d. (limit_option (drop (pos_part numkeys) rest) (pos 0), d))
    sets ← sets_at (take (pos_part numkeys) rest)
    pure (Reply.num (pos (card_common (pos_part limit) sets)))

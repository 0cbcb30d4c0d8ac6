-- ===== src/Lists/Search.antt =====
-- commands/lists.py: LPOS.
use kagni.Prelude.{
  ℕ, suc, ◌-◌, ℤ, pos, negsuc, pos_part, is_neg, beq_ℤ, ltb, leb, Bool, not, ◌&&◌, ◌||◌, Option,
  none, some, List, [], ◌∷◌, reverse, Bytes, ◌==◌, nat_eq, bytes_eq, if◌then◌else◌, length,
}
use kagni.Text.{codes, upper}
use kagni.Resp.{Reply, Replies}
use kagni.Common.Errors.{syntax, not_int, rank_zero, count_neg, maxlen_neg}
use kagni.Common.{Stored, Command, Result, ok, err, pure, ◌>>=◌, string2ll}
use kagni.Lists.Basic.{list_at}

-- RANK, COUNT (none if it is not given) and MAXLEN.
pub record PosOptions : Type 0 where
  pub rank : ℤ
  pub count : Option ℕ
  pub maxlen : ℕ

abbrev pub pos_defaults : PosOptions
pos_defaults = record { rank = pos 1; count = none; maxlen = 0 }

-- One option with its value.
unfoldable pub pos_option : Bytes → ℤ → PosOptions → Result PosOptions
pos_option name value o =
    if name == codes "RANK"
    then (if beq_ℤ value (pos 0) then err rank_zero else ok (record o { rank = value }))
    else if name == codes "COUNT"
    then (if is_neg value then err count_neg else ok (record o { count = some (pos_part value) }))
    else if is_neg value
    then err maxlen_neg
    else ok (record o { maxlen = pos_part value })

abbrev is_pos_option : Bytes → Bool
is_pos_option name = name == codes "RANK" || name == codes "COUNT" || name == codes "MAXLEN"

unfoldable pub pos_options : List Bytes → PosOptions → Result PosOptions
unfolding upper string2ll pos_option
pos_options [] o = ok o
pos_options (name ∷ []) o = err syntax
pos_options (name ∷ raw ∷ rest) o =
    if not (is_pos_option (upper name)) then err syntax else elim (string2ll raw) [
      | none ↦ err not_int
      | some value ↦ elim (pos_option (upper name) value o) [
        | err e ↦ err e
        | ok o' ↦ pos_options rest o'
      ]
    ]

unfoldable pub indices : List ℕ → Replies
indices [] = Replies.empty
indices (i ∷ is) = Replies.item (Reply.num (pos i)) (indices is)

-- The loop of LPOS over the elements in the order of the search, `index` counting them: the indices
-- in that order of the matches that it reports. Without a count it reports one at most.
unfoldable pub lpos_from :
    Bytes → (rank maxlen : ℕ) → Option ℕ → (index matches found : ℕ) → List Bytes → List ℕ
lpos_from element rank maxlen count index matches found [] = []
lpos_from element rank maxlen count index matches found (item ∷ rest) =
    let skip = lpos_from element rank maxlen count (suc index) matches found rest in
    let early = lpos_from element rank maxlen count (suc index) (suc matches) found rest in
    let on = lpos_from element rank maxlen count (suc index) (suc matches) (suc found) rest in
    if not (maxlen == 0) && leb maxlen index
    then []
    else if not (item == element)
    then skip
    else if ltb (suc matches) rank
    then early
    else elim count [
      | none ↦ index ∷ []
      | some k ↦ if not (k == 0) && leb k (suc found) then index ∷ [] else index ∷ on
    ]

unfoldable pub abs : ℤ → ℕ
abs (pos n) = n
abs (negsuc n) = suc n

-- `length - 1 - index`
unfoldable pub tail_indices : ℕ → List ℕ → List ℕ
tail_indices n [] = []
tail_indices n (i ∷ is) = (n - 1 - i) ∷ tail_indices n is

-- The indices in the list; a negative rank searches from the tail.
unfoldable pub lpos_list : Bytes → PosOptions → List Bytes → List ℕ
unfolding lpos_from abs tail_indices
lpos_list element o l =
    if is_neg o.rank
    then tail_indices (length l) (lpos_from element (abs o.rank) o.maxlen o.count 0 0 0 (reverse l))
    else lpos_from element (abs o.rank) o.maxlen o.count 0 0 0 l

unfoldable pub lpos_reply : Option ℕ → List ℕ → Reply
unfolding indices
lpos_reply none [] = Reply.nil
lpos_reply none (i ∷ is) = Reply.num (pos i)
lpos_reply (some k) is = Reply.arr (indices is)

module _ {Score : Type 0} where
  unfoldable pub lpos : Bytes → Bytes → List Bytes → Command (Stored Score) Reply
  unfolding list_at pos_options lpos_list lpos_reply
  lpos key element options = elim (pos_options options pos_defaults) [
    | err e ↦ λ c d. (err e, d)
    | ok o ↦ list_at key >>= λ found.
        pure (lpos_reply o.count (elim found [ none ↦ [] | some l ↦ lpos_list element o l ]))
  ]

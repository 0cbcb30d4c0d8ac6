-- ===== src/Lists/Compact/Moves.antt =====
-- commands/lists.py: LMOVE, RPOPLPUSH and LMPOP leave no empty list behind.
use kagni.Prelude.{
  ℕ, ◌+◌, ℤ, pos, refl, Bool, Option, none, some, List, [], ◌∷◌, Bytes, ◌==◌, nat_eq, bytes_eq,
  if◌then◌else◌, is_empty, length, min, pos_part,
}
use kagni.Events.{Event}
use kagni.Data
use kagni.Data.{Clock, Entry, Data}
use kagni.Resp.{Reply}
use kagni.Common.{
  Stored, elements, Command, pure, raise, raise_if, ◌>>=◌, ◌>>◌, after_write, notify, remove,
}
use kagni.Common.Keeps.{
  Keeps, Keeps-bind, Keeps-if, Keeps-pure, Keeps-raise, Keeps-raise_if, Keeps-lift,
}
use kagni.Lists.Deque.{pop_one, pop_many, push_one}
use kagni.Lists.Basic.{list_at, push_event, pop_event, bulks}
use kagni.Lists.Move.{rotate, transfer, move_popped, move, lmove, lmpop_from, lmpop_keys, lmpop}
use kagni.Common.NonEmpty.{
  Scope, IsCompact, notify-IsCompact, after_write-IsCompact, update-IsCompact, remove-IsCompact,
  set_item-fills, IsCompactBut,
}
use kagni.Lists.NonEmpty.{full_list, list_at-IsCompact}
use kagni.Lists.NonEmpty.TwoLists.{
  update-IsCompactBoth, set_item-IsCompactBoth, update-fills_but, remove-IsCompactBut,
  after_write-IsCompactBut,
}
use kagni.Common.Errors.{syntax, numkeys_positive}
use kagni.Lists.Move.{list_side, lmpop_count, side_or_raise, lift}
use kagni.Lists.Compact.{is_empty-push_one, popped-IsCompact, found-IsCompact, removed-IsCompact}
use kagni.Prelude.{take, drop, ltb, ltb_ℤ, get_elem?}
use kagni.Resp.{Replies}

module _ {Score : Type 0} {scope : Scope} where
  rotate-IsCompact :
      (key : Bytes) (from_left to_left : Bool) (value : Bytes) (rest : List Bytes)
      → Keeps (IsCompact scope) (rotate {Score = Score} key from_left to_left value rest)
  unfolding rotate
  rotate-IsCompact key from_left to_left value rest = record {
    at = λ c d h. after_write-IsCompact key (pop_event from_left) _ (
        after_write-IsCompact key (push_event to_left) _ (
          update-IsCompact d key (elements (push_one to_left value rest))
            (full_list Score scope _ (is_empty-push_one to_left value rest)) h));
  }

  lmpop_from-IsCompact :
      (key : Bytes) (from_left : Bool) (count : ℕ) (l : List Bytes)
      → Keeps (IsCompact scope) (lmpop_from {Score = Score} key from_left count l)
  unfolding lmpop_from
  lmpop_from-IsCompact key from_left count l =
      let (popped, rest) = pop_many from_left (min count (length l)) l in
      popped-IsCompact key from_left rest (
        Reply.arr
          (Replies.item (Reply.bulk key) (Replies.item (Reply.arr (bulks popped)) Replies.empty)))

  lmpop_keys-IsCompact :
      (from_left : Bool) (count : ℕ) (keys : List Bytes)
      → Keeps (IsCompact scope) (lmpop_keys {Score = Score} from_left count keys)
  unfolding lmpop_keys
  lmpop_keys-IsCompact from_left count [] = Keeps-pure Reply.nil_array
  lmpop_keys-IsCompact from_left count (key ∷ keys) =
      let later = lmpop_keys {Score = Score} from_left count keys in
      found-IsCompact key later
        (λ l. if is_empty l then (remove key >> later) else lmpop_from key from_left count l)
        (lmpop_keys-IsCompact from_left count keys)
        λ l.
          Keeps-if (is_empty l) (remove key >> later) (lmpop_from key from_left count l)
            (Keeps-bind (remove key) (λ _. later) (remove-IsCompact key)
              λ _. lmpop_keys-IsCompact from_left count keys)
            (lmpop_from-IsCompact key from_left count l)

  side-IsCompact : (place : Bytes) → Keeps (IsCompact scope) (side_or_raise {Score = Score} place)
  unfolding list_side
  side-IsCompact place = side (list_side place)
    where
      side :
          (o : Option Bool)
          → Keeps (IsCompact scope) (elim o as (λ _. Command (Stored Score) Bool) [
            | none ↦ raise syntax
            | some left ↦ pure left
          ])
      side none = Keeps-raise syntax
      side (some left) = Keeps-pure left

  pub lmpop-IsCompact :
      (numkeys : ℤ) (rest : List Bytes)
      → Keeps (IsCompact scope) (lmpop {Score = Score} numkeys rest)
  unfolding lmpop
  lmpop-IsCompact numkeys rest =
      let n = pos_part numkeys in
      let place : Bytes = elim (get_elem? rest n) [ none ↦ [] | some place ↦ place ] in
      let counted : Bool → Command (Stored Score) Reply = λ from_left.
        lift (lmpop_count (drop (n + 1) rest)) >>= λ count.
        lmpop_keys from_left count (take n rest) in
      let sided : Command (Stored Score) Reply = side_or_raise place >>= counted in
      let enough : Command (Stored Score) Reply =
        raise_if (ltb (length rest) (n + 1)) syntax >> sided in
      Keeps-bind (raise_if (ltb_ℤ numkeys (pos 1)) numkeys_positive) (λ _. enough)
        (Keeps-raise_if (ltb_ℤ numkeys (pos 1)) numkeys_positive)
        λ _.
          Keeps-bind (raise_if (ltb (length rest) (n + 1)) syntax) (λ _. sided)
            (Keeps-raise_if (ltb (length rest) (n + 1)) syntax)
            λ _. Keeps-bind (side_or_raise place) counted (side-IsCompact place) λ from_left.
              Keeps-bind (lift (lmpop_count (drop (n + 1) rest)))
                (λ count. lmpop_keys from_left count (take n rest))
                (Keeps-lift (lmpop_count (drop (n + 1) rest)))
                λ count. lmpop_keys-IsCompact from_left count (take n rest)

  logged :
      (source destination : Bytes) (from_left to_left : Bool) (d : Data (Stored Score))
      → IsCompact scope d
      → IsCompact scope (
          after_write source (pop_event from_left) (after_write destination (push_event to_left) d))
  logged source destination from_left to_left d h =
      after_write-IsCompact source (pop_event from_left) _
        (after_write-IsCompact destination (push_event to_left) d h)

  drained :
      (source destination : Bytes) (from_left to_left : Bool) (c : Clock) (d : Data (Stored Score))
      → IsCompactBut scope source d
      → IsCompact scope (
          notify source Event.del
            (Data.remove source c (
              after_write source
                (pop_event from_left)
                (after_write destination (push_event to_left) d))).1)
  drained source destination from_left to_left c d h = notify-IsCompact source Event.del _ (
      remove-IsCompactBut source c _ (
        after_write-IsCompactBut source source (pop_event from_left) _
          (after_write-IsCompactBut source destination (push_event to_left) d h)))

  transfer-IsCompact :
      (source destination : Bytes) (from_left to_left : Bool) (value : Bytes) (rest : List Bytes)
      (dst : Option (List Bytes))
      → Keeps
          (IsCompact scope)
          (transfer {Score = Score} source destination from_left to_left value rest dst)
  unfolding transfer
  transfer-IsCompact source destination from_left to_left value [] none = record {
    at = λ c d h.
        let v : Stored Score = elements (push_one to_left value []) in
        let full =
          full_list Score scope (push_one to_left value []) (is_empty-push_one to_left value []) in
        let both =
          set_item-IsCompactBoth scope source destination (elements []) _
            (update-IsCompactBoth source destination (elements []) d h) in
        drained source destination from_left to_left c _
          (update-fills_but source destination v _ full both);
  }
  transfer-IsCompact source destination from_left to_left value [] (some l) = record {
    at = λ c d h.
        let v : Stored Score = elements (push_one to_left value l) in
        let full =
          full_list Score scope (push_one to_left value l) (is_empty-push_one to_left value l) in
        drained source destination from_left to_left c _ (
          update-fills_but source destination v _ full
            (update-IsCompactBoth source destination (elements []) d h));
  }
  transfer-IsCompact source destination from_left to_left value (x ∷ rest) none = record {
    at = λ c d h. logged source destination from_left to_left _ (
        set_item-fills _ destination (elements (push_one to_left value [])) (elements [])
          (full_list Score scope _ (is_empty-push_one to_left value []))
          (update-IsCompact d source (elements (x ∷ rest)) refl h));
  }
  transfer-IsCompact source destination from_left to_left value (x ∷ rest) (some l) = record {
    at = λ c d h. logged source destination from_left to_left _ (
        update-IsCompact _ destination (elements (push_one to_left value l))
          (full_list Score scope _ (is_empty-push_one to_left value l))
          (update-IsCompact d source (elements (x ∷ rest)) refl h));
  }

  move_popped-IsCompact :
      (source destination : Bytes) (from_left to_left : Bool) (p : Option (Bytes × List Bytes))
      → Keeps (IsCompact scope) (move_popped {Score = Score} source destination from_left to_left p)
  unfolding move_popped
  move_popped-IsCompact source destination from_left to_left none =
      removed-IsCompact source Reply.nil
  move_popped-IsCompact source destination from_left to_left (some (value, rest)) =
      let moved : Option (List Bytes) → Command (Stored Score) Reply =
        λ dst. transfer source destination from_left to_left value rest dst in
      Keeps-if (destination == source) (rotate source from_left to_left value rest)
        (list_at destination >>= moved) (rotate-IsCompact source from_left to_left value rest)
        (Keeps-bind (list_at destination) moved (list_at-IsCompact destination)
          λ dst. transfer-IsCompact source destination from_left to_left value rest dst)

  pub move-IsCompact :
      (source destination : Bytes) (from_left to_left : Bool)
      → Keeps (IsCompact scope) (move {Score = Score} source destination from_left to_left)
  unfolding move
  move-IsCompact source destination from_left to_left =
      found-IsCompact source (pure Reply.nil)
        (λ l. move_popped source destination from_left to_left (pop_one from_left l))
        (Keeps-pure Reply.nil)
        λ l. move_popped-IsCompact source destination from_left to_left (pop_one from_left l)

  pub lmove-IsCompact :
      (source destination wherefrom whereto : Bytes)
      → Keeps (IsCompact scope) (lmove {Score = Score} source destination wherefrom whereto)
  unfolding lmove
  lmove-IsCompact source destination wherefrom whereto =
      Keeps-bind (side_or_raise wherefrom)
        (λ from_left.
          side_or_raise whereto >>= λ to_left. move source destination from_left to_left)
        (side-IsCompact wherefrom)
        λ from_left.
          Keeps-bind (side_or_raise whereto) (λ to_left. move source destination from_left to_left)
            (side-IsCompact whereto) λ to_left. move-IsCompact source destination from_left to_left

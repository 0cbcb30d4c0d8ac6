-- ===== src/Lists/Positions.antt =====
-- commands/lists.py: LPOS against the positions of its element.
use kagni.Prelude.{
  ℕ, zero, suc, ◌-◌, ◌≤◌, ℤ, pos, negsuc, Bool, Option, none, some, List, [], ◌∷◌, reverse, Bytes,
  ◌==◌, bytes_eq, nat_eq, if◌then◌else◌, take,
}
use kagni.Lists.Search.{tail_indices}

-- the positions of `val`, the first element's being `from`
abbrev pub positions : ℕ → Bytes → List Bytes → List ℕ
positions from val [] = []
positions from val (x ∷ l) =
    let rest = positions (suc from) val l in if x == val then from ∷ rest else rest

abbrev pub at_most : Option ℕ → ℕ → List ℕ → List ℕ
at_most none found is = take 1 is
at_most (some zero) found is = is
at_most (some (suc k)) found is = take (suc k - found) is

abbrev IsWithin : Option ℕ → ℕ → Type 0
IsWithin none found = Unit
IsWithin (some zero) found = Unit
IsWithin (some (suc k)) found = found ≤ k

-- the elements that a search with this MAXLEN looks at; 0 is no limit
abbrev pub scanned : ℕ → List Bytes → List Bytes
scanned zero l = l
scanned (suc m) l = take (suc m) l

-- the RANK that stands for the match after the first `r`, from the head or from the tail
abbrev pub rank_of : Bool → ℕ → ℤ
rank_of head r = if head then pos (suc r) else negsuc r

-- the elements in the order of the search, and the index in the list that a place in it has
abbrev pub search_order : Bool → List Bytes → List Bytes
search_order head l = if head then l else reverse l

abbrev pub list_indices : Bool → ℕ → List ℕ → List ℕ
list_indices head n is = if head then is else tail_indices n is

-- ===== src/Common/Values.antt =====
-- The values that the store holds, and `kind_of` of commands/common.py. The scores of sorted sets
-- are of a type that the model does not fix.
use kagni.Prelude.{ℕ, ℤ, Bool, true, false, Option, List, Bytes}
use kagni.Dict.{Dict}

-- A hash field; one that has a deadline is stored as a pair.
pub record Field : Type 0 where
  pub content : Bytes
  pub deadline : Option ℤ

-- zset.py: a sorted set, by member and in rank order.
pub record ZSet (Score : Type 0) : Type 0 where
  pub scores : Dict Bytes Score
  pub sorted : List (Score × Bytes)

pub data Stored (Score : Type 0) : Type 0 where
  string : Bytes → Stored Score
  hash : Dict Bytes Field → Stored Score
  members : List Bytes → Stored Score
  elements : List Bytes → Stored Score
  ranked : ZSet Score → Stored Score
  bits : List ℕ → Stored Score

pub data Kind : Type 0 where
  kind_string kind_hash kind_set kind_list kind_zset kind_bitmap : Kind

unfoldable pub kind_of : {Score : Type 0} → Stored Score → Kind
kind_of (string _) = kind_string
kind_of (hash _) = kind_hash
kind_of (members _) = kind_set
kind_of (elements _) = kind_list
kind_of (ranked _) = kind_zset
kind_of (bits _) = kind_bitmap

abbrev pub same_kind : Kind → Kind → Bool
same_kind kind_string kind_string = true
same_kind kind_hash kind_hash = true
same_kind kind_set kind_set = true
same_kind kind_list kind_list = true
same_kind kind_zset kind_zset = true
same_kind kind_bitmap kind_bitmap = true
same_kind _ _ = false

-- ===== src/Data/Store.antt =====
-- data.py: the state of the store, its reads, and the plain writes. Each method takes the clocks as
-- they stand while it runs and returns its result with the new store. `notified` holds the calls
-- of the `on_purge` callback, and of the command layer's `_notify`, in order.
use kagni.Prelude.{
  ℕ, ◌+◌, ℤ, ◌+ℤ◌, ◌-ℤ◌, ltb_ℤ, Bool, true, false, not, Option, none, some, List, [], ◌∷◌, ◌++◌,
  Bytes, bytes_eq, if◌then◌else◌, length,
}
use kagni.Events.{Event}
use kagni.Dict.{Dict, lookup, insert, erase, keys}

-- `monotonic_ns()` and `time_ns()`
pub record Clock : Type 0 where
  pub mono : ℤ
  pub wall : ℤ

pub record Entry (V : Type 0) : Type 0 where
  pub value : V
  pub expires_at : Option ℤ

pub record Data (V : Type 0) : Type 0 where
  pub storage : Dict Bytes (Entry V)
  pub epoch : ℕ
  pub generations : Dict Bytes ℕ
  pub notified : List (Bytes × Event)

-- The monotonic deadline of a wall-clock one.
abbrev pub mono_deadline : Clock → ℤ → ℤ
mono_deadline c wall_deadline = c.mono +ℤ (wall_deadline -ℤ c.wall)

module _ {V : Type 0} where
  unfoldable pub live : Entry V → ℤ → Bool
  live entry now = elim entry.expires_at [ none ↦ true | some t ↦ ltb_ℤ now t ]

  abbrev pub init : Data V
  init = record { storage = []; epoch = 0; generations = []; notified = [] }

  unfoldable pub purge_key : Bytes → Data V → Data V
  purge_key key d = record d {
    storage = erase key d.storage;
    notified = d.notified ++ (key, Event.expired) ∷ [];
  }

  -- `__getitem__`
  unfoldable pub get_item : Bytes → Clock → Data V → Option V
  unfolding live
  get_item key c d = elim (lookup key d.storage) [
    | none ↦ none
    | some entry ↦ if not (live entry c.mono) then none else some entry.value
  ]

  unfoldable pub get : Bytes → Clock → Data V → Option V × Data V
  unfolding live purge_key
  get key c d = elim (lookup key d.storage) [
    | none ↦ (none, d)
    | some entry ↦
        if not (live entry c.mono) then (none, purge_key key d) else (some entry.value, d)
  ]

  -- `__contains__`, and `is_live`, which has the same body
  unfoldable pub is_live : Bytes → Clock → Data V → Bool
  unfolding live
  is_live key c d = elim (lookup key d.storage) [ none ↦ false | some entry ↦ live entry c.mono ]

  -- the list `dead` of `_sweep`
  unfoldable pub dead_keys : ℤ → Dict Bytes (Entry V) → List Bytes
  unfolding live
  dead_keys now [] = []
  dead_keys now ((key, entry) ∷ rest) =
      let more = dead_keys now rest in if not (live entry now) then key ∷ more else more

  unfoldable pub purge_all : List Bytes → Data V → Data V
  unfolding purge_key
  purge_all [] d = d
  purge_all (key ∷ rest) d = purge_all rest (purge_key key d)

  unfoldable pub sweep : Clock → Data V → ℕ × Data V
  unfolding dead_keys purge_all
  sweep c d = let dead = dead_keys c.mono d.storage in (length dead, purge_all dead d)

  -- `__iter__`, as the list of the keys that it yields
  unfoldable pub iter : Clock → Data V → List Bytes × Data V
  unfolding sweep keys
  iter c d = let (n, d') = sweep c d in (keys d'.storage, d')

  -- `__len__`
  unfoldable pub len : Clock → Data V → ℕ × Data V
  unfolding sweep
  len c d = let (n, d') = sweep c d in (length d'.storage, d')

  unfoldable pub clear : Data V → Data V
  clear d = record d { storage = []; generations = []; epoch = d.epoch + 1 }

  -- the three branches of `set` for the deadline of the new entry
  unfoldable pub set_expiry : Option (Entry V) → Clock → Option ℤ → Bool → Option ℤ
  unfolding live
  set_expiry old c wall_deadline keep_ttl =
      let fresh : Option ℤ = elim wall_deadline [
        | none ↦ none
        | some t ↦ some (mono_deadline c t)
      ] in
      elim old [
        | none ↦ fresh
        | some entry ↦
            if keep_ttl then (if live entry c.mono then entry.expires_at else fresh) else fresh
      ]

  unfoldable pub set_value : Bytes → V → Option ℤ → Bool → Clock → Data V → Data V
  unfolding set_expiry
  set_value key value wall_deadline keep_ttl c d = record d {
    storage =
        insert key
          (record {
            value = value;
            expires_at = set_expiry (lookup key d.storage) c wall_deadline keep_ttl;
          })
          d.storage;
  }

  -- `__setitem__`
  unfoldable pub set_item : Bytes → V → Data V → Data V
  set_item key val d = record d {
    storage = insert key (record { value = val; expires_at = none }) d.storage;
  }

  unfoldable pub generation : Bytes → Data V → ℕ
  generation key d = elim (lookup key d.generations) [ none ↦ 0 | some n ↦ n ]

  unfoldable pub touch : Bytes → Data V → Data V
  unfolding generation
  touch key d = record d { generations = insert key (generation key d + 1) d.generations }

  -- `__delitem__` and `remove`
  unfoldable pub remove : Bytes → Clock → Data V → ℕ × Data V
  unfolding live
  remove key c d = elim (lookup key d.storage) [
    | none ↦ (0, d)
    | some entry ↦ (if live entry c.mono then 1 else 0, record d { storage = erase key d.storage })
  ]

-- ===== src/Strings/Held.antt =====
-- commands/basic.py: what a key holds for GET, also after the store was written.
use kagni.Prelude.{
  ℤ, ltb_ℤ, Bool, true, not, ◌&&◌, ◌||◌, Option, none, some, is_none, Bytes, bytes_eq,
  bytes_beq_refl, if◌then◌else◌, ◌≡◌, ap, ◌∙◌, arith, Option-cases, inl, inr,
}
use kagni.Dict.{lookup, lookup-insert}
use kagni.Data
use kagni.Data.{Clock, Data, mono_deadline}
use kagni.Common.{
  Stored, string, hash, members, elements, ranked, bits, kind_string, kind_of, check_kind,
  expect_kind, Result, ok, pure, ◌>>=◌,
}
use kagni.Common.Reads.{get-get_item}
use kagni.Strings.Basic.{string_of, string_at, get, bulk_or_null}

-- the string of a key that is missing or holds one
abbrev pub string_or_none : {Score : Type 0} → Option (Stored Score) → Option (Option Bytes)
string_or_none none = some none
string_or_none (some (string b)) = some (some b)
string_or_none (some _) = none

checked :
    {Score : Type 0} (stored : Option (Stored Score)) (d : Data (Stored Score)) (old : Option Bytes)
    (c : Clock)
    → string_or_none stored ≡ some old
    → ((λ _ _. check_kind kind_string (stored, d)) >>= λ v. pure (string_of v)) c d ≡ (ok old, d)
unfolding kind_of
checked none d old c h = cc
checked (some (string b)) d old c h = cc
checked (some (hash _)) d old c h = absurd (cc)
checked (some (members _)) d old c h = absurd (cc)
checked (some (elements _)) d old c h = absurd (cc)
checked (some (ranked _)) d old c h = absurd (cc)
checked (some (bits _)) d old c h = absurd (cc)

pub found_old :
    {Score : Type 0} (stored : Option (Stored Score)) (old : Option Bytes)
    → string_or_none stored ≡ some old
    → is_none stored ≡ is_none old
found_old none old h = ap (λ o. elim o as (λ _. Bool) [ none ↦ true | some p ↦ is_none p ]) h
found_old (some (string b)) old h =
    ap (λ o. elim o as (λ _. Bool) [ none ↦ true | some p ↦ is_none p ]) h
found_old (some (hash _)) old h = absurd (cc)
found_old (some (members _)) old h = absurd (cc)
found_old (some (elements _)) old h = absurd (cc)
found_old (some (ranked _)) old h = absurd (cc)
found_old (some (bits _)) old h = absurd (cc)

-- whether a key with this deadline, by the wall clock, still shows
abbrev pub is_ahead : Clock → Option ℤ → Bool
is_ahead c none = true
is_ahead c (some t) = ltb_ℤ c.mono (mono_deadline c t)

module _ {Score : Type 0} where
  pub is_live-get_item :
      (key : Bytes) (c : Clock) (d : Data (Stored Score))
      → Data.is_live key c d ≡ not (is_none (Data.get_item key c d))
  unfolding Data.is_live Data.get_item Data.live
  is_live-get_item key c d = elim (Option-cases (lookup key d.storage)) [
    | inl missing ↦ ground (arith, missing)
    | inr (e, there) ↦ ground (arith, there)
  ]

  pub get_item-set_value :
      (key : Bytes) (v : Stored Score) (deadline : Option ℤ) (keep : Bool) (c : Clock)
      (d : Data (Stored Score))
      → Data.get_item key c (Data.set_value key v deadline keep c d)
        ≡ (if (keep && Data.is_live key c d) || is_ahead c deadline then some v else none)
  unfolding Data.get_item Data.set_value Data.set_expiry Data.is_live Data.live
  get_item-set_value key v deadline keep c d = elim (Option-cases (lookup key d.storage)) [
    | inl missing ↦ ground (
      arith,
      missing,
      bytes_beq_refl key,
      lookup-insert key key
          (record {
            value = v;
            expires_at = Data.set_expiry (lookup key d.storage) c deadline keep;
          })
          d.storage,
    )
    | inr (e, there) ↦ ground (
      arith,
      there,
      bytes_beq_refl key,
      lookup-insert key key
          (record {
            value = v;
            expires_at = Data.set_expiry (lookup key d.storage) c deadline keep;
          })
          d.storage,
    )
  ]

  pub string_at-found :
      (key : Bytes) (c : Clock) (d : Data (Stored Score)) (old : Option Bytes)
      → string_or_none (Data.get_item key c d) ≡ some old
      → string_at key c d ≡ (ok old, (Data.get key c d).1)
  unfolding string_at expect_kind
  string_at-found key c d old h =
      checked (Data.get key c d).0 (Data.get key c d).1 old c
        (ap string_or_none (get-get_item key c d) ∙ h)

  pub get-found :
      (key : Bytes) (c : Clock) (d : Data (Stored Score)) (old : Option Bytes)
      → string_or_none (Data.get_item key c d) ≡ some old
      → (get key c d).0 ≡ ok (bulk_or_null old)
  unfolding get
  get-found key c d old h =
      ap
        (λ (p : Result (Option Bytes) × Data (Stored Score)).
          (((λ _ _. p) >>= λ val. pure (bulk_or_null val)) c d).0)
        (string_at-found key c d old h)

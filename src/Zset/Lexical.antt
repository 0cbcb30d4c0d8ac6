-- ===== src/Zset/Lexical.antt =====
-- zset.py: which members a lexicographic window has.
use kagni.Prelude.{
  Bool, true, false, not, ◌&&◌, ◌||◌, Option, none, some, Bytes, bytes_eq, ◌==◌, ◌≡◌, refl, sym, ap,
  ◌∙◌, arith,
}
use kagni.Zset.Order.{bytes_less, bytes_less_irrefl, bytes_less_trans, bytes_less_total}
use kagni.Zset.Index.{LexWindow, outside}

-- after a bound that is open, and not before one that is closed
abbrev is_above : Option Bytes → Bool → Bytes → Bool
is_above none strict member = true
is_above (some low) true member = bytes_less low member
is_above (some low) false member = not (bytes_less member low)

abbrev is_below : Option Bytes → Bool → Bytes → Bool
is_below none strict member = true
is_below (some high) true member = bytes_less member high
is_below (some high) false member = not (bytes_less high member)

unfoldable pub in_lex_window : LexWindow → Bytes → Bool
in_lex_window w member =
    is_above w.min_member w.min_open member && is_below w.max_member w.max_open member

at_most : (a b : Bytes) → (bytes_less a b || a == b) ≡ not (bytes_less b a)
at_most a b =
    elim (bytes_less a b) as (λ t. bytes_less a b ≡ t → (t || a == b) ≡ not (bytes_less b a)) [
      | true ↦ λ p.
          elim (bytes_less b a) as (λ t. bytes_less b a ≡ t → true ≡ not t) [
            | true ↦ λ q.
                let loop = sym (bytes_less_irrefl a) ∙ bytes_less_trans a b a p q in absurd (cc)
            | false ↦ λ q. refl
          ]
            refl
      | false ↦ λ p.
          elim (bytes_less b a) as (λ t. bytes_less b a ≡ t → (a == b) ≡ not t) [
            | true ↦ λ q. ground (arith, p, q, bytes_eq.equals_iff a b, bytes_less_irrefl a)
            | false ↦ λ q. ground (arith, bytes_eq.equals_iff a b, bytes_less_total a b p q)
          ]
            refl
    ]
      refl

above_lem :
    (low : Option Bytes) (strict : Bool) (member : Bytes)
    → (elim low as (λ _. Bool) [
      | none ↦ false
      | some low ↦ bytes_less member low || (strict && member == low)
    ])
      ≡ not (is_above low strict member)
above_lem none strict member = refl
above_lem (some low) true member = at_most member low
above_lem (some low) false member = ground arith

below_lem :
    (high : Option Bytes) (strict : Bool) (member : Bytes)
    → (elim high as (λ _. Bool) [
      | none ↦ false
      | some high ↦ bytes_less high member || (strict && member == high)
    ])
      ≡ not (is_below high strict member)
below_lem none strict member = refl
below_lem (some high) true member =
    ap (λ t. bytes_less high member || t) (same_lem high member) ∙ at_most high member
  where
    same_lem : (high member : Bytes) → (member == high) ≡ (high == member)
    same_lem high member =
        ground (arith, bytes_eq.equals_iff member high, bytes_eq.equals_iff high member)
below_lem (some high) false member = ground arith

pub outside_lem : (w : LexWindow) (member : Bytes) → not (outside w member) ≡ in_lex_window w member
unfolding outside in_lex_window
outside_lem w member =
    ground
      (arith, above_lem w.min_member w.min_open member, below_lem w.max_member w.max_open member)

-- ===== src/Prelude/Equality.antt =====
-- Equality tests as an interface: one `==` for numbers, byte strings and pairs of them.
use Prim.Native.Nat.{ℕ}
use mathlib.Core.Path.{◌≡◌, refl}
use mathlib.Core.Logic.{◌↔◌}
use mathlib.Core.Bool.{Bool, true, false, ◌&&◌}
use mathlib.Core.List.{List, [], ◌∷◌}
use native.Mathlib.Omega.{arith}
use kagni.Prelude.Tests.{nat_beq, nat_beq_iff, if◌then◌else◌}

pub record Eq {ℓ} (K : Type ℓ) : Type ℓ where
  pub equals : K → K → Bool
  pub equals_iff : (x y : K) → (equals x y ≡ true) ↔ (x ≡ y)

-- A byte string, as the list of its bytes.
abbrev pub Bytes : Type 0
Bytes = List ℕ

unfoldable pub bytes_beq : Bytes → Bytes → Bool
bytes_beq [] [] = true
bytes_beq [] (y ∷ ys) = false
bytes_beq (x ∷ xs) [] = false
bytes_beq (x ∷ xs) (y ∷ ys) = nat_beq x y && bytes_beq xs ys

pub bytes_beq_iff : (a b : Bytes) → (bytes_beq a b ≡ true) ↔ (a ≡ b)
unfolding bytes_beq
bytes_beq_iff [] [] = (λ _. refl, λ _. refl)
bytes_beq_iff [] (y ∷ ys) = (λ h. cc, λ h. cc)
bytes_beq_iff (x ∷ xs) [] = (λ h. cc, λ h. cc)
bytes_beq_iff (x ∷ xs) (y ∷ ys) = ground (arith, bytes_beq_iff xs ys)

pub bytes_beq_refl : (a : Bytes) → bytes_beq a a ≡ true
bytes_beq_refl a = (bytes_beq_iff a a).1 refl

instance abbrev pub nat_eq : Eq ℕ
nat_eq = record { equals = nat_beq; equals_iff = nat_beq_iff }

instance abbrev pub bytes_eq : Eq Bytes
bytes_eq = record { equals = bytes_beq; equals_iff = bytes_beq_iff }

-- `==` of Python, at any type with an instance
infix 50 ◌==◌
abbrev pub ◌==◌ {ℓ} : {K : Type ℓ} ⦃inst : Eq K⦄ → K → K → Bool
◌==◌ ⦃inst⦄ = inst.equals

pub beq_refl {ℓ} : {K : Type ℓ} ⦃inst : Eq K⦄ (x : K) → inst.equals x x ≡ true
beq_refl ⦃inst⦄ x = (inst.equals_iff x x).1 refl

module _ {ℓ} {A : Type ℓ} ⦃e : Eq A⦄ where
  -- `a in xs`
  unfoldable pub elem : A → List A → Bool
  elem a [] = false
  elem a (x ∷ xs) = if x == a then true else elem a xs

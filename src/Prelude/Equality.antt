-- ===== src/Prelude/Equality.antt =====
-- Boolean equality as an interface: `==` of the source's `PartialEq`.
use Prim.Native.Nat.{ℕ}
use Prim.Native.String.{String}
use mathlib.Core.Path.{◌≡◌}
use mathlib.Core.Logic.{◌↔◌}
use mathlib.Core.Bool.{Bool, true, false, ◌&&◌}
use mathlib.Core.List.{List, [], ◌∷◌}
use native.Mathlib.Omega.{arith}
use text.Mathlib.Text.{◌==◌ as str_eq}
use text.Mathlib.TextEquality.{eq_iff as text_eq_iff}
use terraswap.Prelude.Tests.{nat_beq, nat_beq_iff}

-- The test and what it decides.
pub record PartialEq {ℓ} (T : Type ℓ) : Type ℓ where
  pub eq : (self other : T) → Bool
  pub eq_iff : (self other : T) → (eq self other ≡ true) ↔ (self ≡ other)

module _ {ℓ} {T : Type ℓ} ⦃p : PartialEq T⦄ where
  infix 50 ◌==◌
  abbrev pub ◌==◌ : (self other : T) → Bool
  ◌==◌ = p.eq

  abbrev pub list_beq : List T → List T → Bool
  list_beq [] [] = true
  list_beq [] (y ∷ ys) = false
  list_beq (x ∷ xs) [] = false
  list_beq (x ∷ xs) (y ∷ ys) = p.eq x y && list_beq xs ys

  pub list_beq_iff : (xs ys : List T) → (list_beq xs ys ≡ true) ↔ (xs ≡ ys)
  list_beq_iff [] [] = ground arith
  list_beq_iff [] (y ∷ ys) = ground arith
  list_beq_iff (x ∷ xs) [] = ground arith
  list_beq_iff (x ∷ xs) (y ∷ ys) = ground (arith, p.eq_iff x y, list_beq_iff xs ys)

  instance abbrev pub list_eq : PartialEq (List T)
  list_eq = record { eq = list_beq; eq_iff = list_beq_iff }

instance abbrev pub string_eq : PartialEq String
string_eq = record { eq = str_eq; eq_iff = text_eq_iff }

instance abbrev pub nat_eq : PartialEq ℕ
nat_eq = record { eq = nat_beq; eq_iff = nat_beq_iff }

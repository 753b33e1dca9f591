-- ===== src/Prelude/Results.antt =====
-- How a call ends: with a value, with an error that `?` passes on, or with a panic, which aborts the
-- transaction. `Option` results take the error type with one value.
use Prim.Native.Nat.{ℕ, zero, suc}
use mathlib.Core.Path.{◌≡◌, refl}
use mathlib.Core.Bool.{Bool, true, false}
use mathlib.Core.List.{List, [], ◌∷◌}

pub data Outcome {ℓ κ} (E : Type ℓ) (A : Type κ) : Type (ℓ ⊔ κ) where
  ok : A → Outcome E A
  err : E → Outcome E A
  panic : Outcome E A

-- A function of the source that returns an `Option`: `none` is `err tt`.
abbrev pub Try {κ} : Type κ → Type κ
Try A = Outcome (Unit {0}) A

module _ {ℓ} {E : Type ℓ} where
  infixl 5 ◌>>=◌ ◌>>◌
  abbrev pub ◌>>=◌ {κ μ} : {A : Type κ} {B : Type μ} → Outcome E A → (A → Outcome E B) → Outcome E B
  ok a >>= f = f a
  err e >>= f = err e
  panic >>= f = panic

  abbrev pub ◌>>◌ {μ} : {B : Type μ} → Outcome E (Unit {0}) → Outcome E B → Outcome E B
  m >> k = m >>= λ _. k

  pub ok-injective {κ} : {A : Type κ} (a b : A) → ◌≡◌ {A = Outcome E A} (ok a) (ok b) → a ≡ b
  ok-injective a b h = cc

  -- Inversion of a successful bind, with the value and the two equations handed on as variables.
  pub >>=-elim {κ μ ν} :
      {A : Type κ} {B : Type μ} {C : Type ν} (m : Outcome E A) (f : A → Outcome E B) {b : B}
      → (m >>= f) ≡ ok b
      → ((a : A) → m ≡ ok a → f a ≡ ok b → C)
      → C
  >>=-elim (ok a) f h k = k a refl h
  >>=-elim (err e) f h k = absurd (cc)
  >>=-elim panic f h k = absurd (cc)

  -- The same, as a triple.
  pub >>=-eq-ok {κ μ} :
      {A : Type κ} {B : Type μ} (m : Outcome E A) (f : A → Outcome E B) {b : B}
      (h : (m >>= f) ≡ ok b)
      → (a : A) × (m ≡ ok a) × (f a ≡ ok b)
  >>=-eq-ok m f h = >>=-elim m f h λ a e r. (a, e, r)

  -- `return Err(e)` unless the test passes.
  abbrev pub ensure : Bool → E → Outcome E (Unit {0})
  ensure true e = ok tt
  ensure false e = err e

  -- `assert_eq!(test, true)`.
  abbrev pub assert_that : Bool → Outcome E (Unit {0})
  assert_that true = ok tt
  assert_that false = panic

  -- An index out of bounds panics.
  abbrev pub index {κ} : {A : Type κ} → List A → ℕ → Outcome E A
  index [] i = panic
  index (x ∷ xs) zero = ok x
  index (x ∷ xs) (suc i) = index xs i

  -- A `for` loop or an iterator that collects results and stops at the first error.
  abbrev pub traverse {κ μ} :
      {A : Type κ} {B : Type μ} → (A → Outcome E B) → List A → Outcome E (List B)
  traverse f [] = ok []
  traverse f (x ∷ xs) = f x >>= λ y. traverse f xs >>= λ ys. ok (y ∷ ys)

module _ {ℓ ℓ' κ} {E : Type ℓ} {F : Type ℓ'} {A : Type κ} where
  -- The conversion that `?` makes.
  abbrev pub map_err : (E → F) → Outcome E A → Outcome F A
  map_err f (ok a) = ok a
  map_err f (err e) = err (f e)
  map_err f panic = panic

  abbrev pub unwrap : Outcome E A → Outcome F A
  unwrap (ok a) = ok a
  unwrap (err e) = panic
  unwrap panic = panic

  pub map_err-eq-ok : (f : E → F) (m : Outcome E A) {a : A} → map_err f m ≡ ok a → m ≡ ok a
  map_err-eq-ok f (ok b) h = cc
  map_err-eq-ok f (err e) h = cc
  map_err-eq-ok f panic h = cc

  pub unwrap-eq-ok : (m : Outcome E A) {a : A} → unwrap m ≡ ok a → m ≡ ok a
  unwrap-eq-ok (ok b) h = cc
  unwrap-eq-ok (err e) h = cc
  unwrap-eq-ok panic h = cc

module _ {ℓ} {E : Type ℓ} where
  pub ensure-eq-ok : (b : Bool) (e : E) {u : Unit {0}} → ensure b e ≡ ok u → b ≡ true
  ensure-eq-ok true e h = refl
  ensure-eq-ok false e h = cc

  pub assert_that-eq-ok : (b : Bool) {u : Unit {0}} → assert_that {E = E} b ≡ ok u → b ≡ true
  assert_that-eq-ok true h = refl
  assert_that-eq-ok false h = cc

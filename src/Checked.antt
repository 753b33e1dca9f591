-- ===== src/Checked.antt =====
-- The checked arithmetic of Rust's `u64` and `u128`, in which the contracts compute. A word is a
-- natural number below the modulus of its width.
use terraswap.Prelude.{
  List, Outcome, Try, [], arith, err, if◌then◌else◌, leb, ltb, nat_beq, ok, panic, ℕ, ◌%◌, ◌*◌, ◌+◌,
  ◌-◌, ◌/◌, ◌<◌, ◌>>=◌, ◌^◌, ◌∷◌, ◌≡◌, ◌≤◌,
}

abbrev pub u64 : ℕ
u64 = 2 ^ 64

abbrev pub u128 : ℕ
u128 = 2 ^ 128

-- The value, if it fits the width `m`: `try_into().ok()`.
unfoldable pub fits : ℕ → ℕ → Try ℕ
fits m x = if ltb x m then ok x else err tt

unfoldable pub checked_add : ℕ → ℕ → ℕ → Try ℕ
unfolding fits
checked_add m a b = fits m (a + b)

unfoldable pub checked_mul : ℕ → ℕ → ℕ → Try ℕ
unfolding fits
checked_mul m a b = fits m (a * b)

unfoldable pub checked_pow : ℕ → ℕ → ℕ → Try ℕ
unfolding fits
checked_pow m a n = fits m (a ^ n)

unfoldable pub checked_sub : ℕ → ℕ → Try ℕ
checked_sub a b = if leb b a then ok (a - b) else err tt

unfoldable pub checked_div : ℕ → ℕ → Try ℕ
checked_div a b = if nat_beq b 0 then err tt else ok (a / b)

-- The plain operators panic on overflow: the release profile sets `overflow-checks`.
unfoldable pub add_or_panic {ℓ} : {E : Type ℓ} → ℕ → ℕ → ℕ → Outcome E ℕ
add_or_panic m a b = if ltb (a + b) m then ok (a + b) else panic

unfoldable pub sub_or_panic {ℓ} : {E : Type ℓ} → ℕ → ℕ → Outcome E ℕ
sub_or_panic a b = if leb b a then ok (a - b) else panic

unfoldable pub mul_or_panic {ℓ} : {E : Type ℓ} → ℕ → ℕ → ℕ → Outcome E ℕ
mul_or_panic m a b = if ltb (a * b) m then ok (a * b) else panic

-- `iter().sum()` on `u128`, from the value reached so far.
unfoldable pub sum_from : ℕ → List ℕ → Try ℕ
unfolding add_or_panic
sum_from acc [] = ok acc
sum_from acc (x ∷ xs) = do acc' ← add_or_panic u128 acc x; sum_from acc' xs

-- `as u64`.
abbrev pub as_u64 : ℕ → ℕ
as_u64 x = x % u64

-- `as u8`.
abbrev pub as_u8 : ℕ → ℕ
as_u8 x = x % 2 ^ 8

-- What a checked operation that succeeds has computed.
module _ (m a b : ℕ) {r : ℕ} where
  pub checked_add-eq-ok : checked_add m a b ≡ ok r → (r ≡ a + b) × (r < m)
  unfolding checked_add
  checked_add-eq-ok h = ground arith

  pub checked_mul-eq-ok : checked_mul m a b ≡ ok r → (r ≡ a * b) × (r < m)
  unfolding checked_mul
  checked_mul-eq-ok h = ground arith

module _ (a b : ℕ) {r : ℕ} where
  pub checked_sub-eq-ok : checked_sub a b ≡ ok r → (a ≡ b + r)
  unfolding checked_sub
  checked_sub-eq-ok h = ground arith

  pub checked_sub-le : checked_sub a b ≡ ok r → r ≤ a
  unfolding checked_sub
  checked_sub-le h = ground arith

  pub checked_div-eq-ok : checked_div a b ≡ ok r → (0 < b) × (r ≡ a / b)
  unfolding checked_div
  checked_div-eq-ok h = ground arith

  pub fits-eq-ok : fits a b ≡ ok r → (r ≡ b) × (b < a)
  unfolding fits
  fits-eq-ok h = ground arith

-- A quotient between its bounds, which a linear argument can use.
pub div_bounds : (a b : ℕ) → 0 < b → (b * (a / b) ≤ a) × (a < b * (a / b) + b)
div_bounds a b h = grind arith

pub mul-div_self : (a b : ℕ) → 0 < b → (a * b) / b ≡ a
mul-div_self a b h = grind arith

pub mul-sub-add : (a b c : ℕ) → b ≤ c → a * (c - b) + a * b ≡ a * c
mul-sub-add a b c h = let e : c ≡ b + (c - b) = omega arith in rw e (split (c - b))
  where
    split : (k : ℕ) → a * (b + k - b) + a * b ≡ a * (b + k)
    split k = let e : b + k - b ≡ k = omega arith in rw e (omega arith)

pub sub-mul-add : (a b c : ℕ) → b ≤ a → (a - b) * c + b * c ≡ a * c
sub-mul-add a b c h = omega (arith, mul-sub-add c b a h)

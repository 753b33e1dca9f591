-- ===== src/Deprecated/Bignum.antt =====
-- What contracts/terraswap_pair_deprecated takes from `cosmwasm_bignumber` and `integer_sqrt`: each
-- operation is a field of `Bignum`, and panics where the libraries do. A `Uint256` is a number, and a
-- `Decimal256` a number of units of 10^-18. The conversions from 128 bits keep the value. The fields
-- of `IsBignum` are what the libraries' documentation says of a result, and when there is one.
use terraswap.Prelude.{ok, ℕ, ◌*◌, ◌+◌, ◌-◌, ◌/◌, ◌<◌, ◌^◌, ◌≡◌, ◌≤◌}
use terraswap.Checked.{u128}
use terraswap.Host.{StdResult, decimal_one}

abbrev pub u256 : ℕ
u256 = 2 ^ 256

pub record Decimal256 : Type 0 where
  pub atomics : ℕ

pub record Bignum : Type 0 where
  -- `Uint256`: `+`, `-`, `*`, `multiply_ratio`, `* Decimal256`, `/ Decimal256` and `into` a `Uint128`
  pub uint_add : ℕ → ℕ → StdResult ℕ
  pub uint_sub : ℕ → ℕ → StdResult ℕ
  pub uint_mul : ℕ → ℕ → StdResult ℕ
  pub uint_multiply_ratio : ℕ → ℕ → ℕ → StdResult ℕ
  pub uint_mul_decimal : ℕ → Decimal256 → StdResult ℕ
  pub uint_div_decimal : ℕ → Decimal256 → StdResult ℕ
  pub to_uint128 : ℕ → StdResult ℕ
  -- `Decimal256`: `from_uint256`, `from_ratio`, `-`, `*` and `/`
  pub from_uint256 : ℕ → StdResult Decimal256
  pub from_ratio : ℕ → ℕ → StdResult Decimal256
  pub decimal_sub : Decimal256 → Decimal256 → StdResult Decimal256
  pub decimal_mul : Decimal256 → Decimal256 → StdResult Decimal256
  pub decimal_div : Decimal256 → Decimal256 → StdResult Decimal256
  -- `u128::integer_sqrt`
  pub integer_sqrt : ℕ → ℕ

-- What is rounded is rounded down.
pub record IsBignum (n : Bignum) : Type 0 where
  pub uint_add-eq-ok : (a b : ℕ) {r : ℕ} → n.uint_add a b ≡ ok r → r ≡ a + b
  pub uint_sub-eq-ok : (a b : ℕ) {r : ℕ} → n.uint_sub a b ≡ ok r → a ≡ b + r
  pub uint_mul-eq-ok : (a b : ℕ) {r : ℕ} → n.uint_mul a b ≡ ok r → r ≡ a * b
  pub uint_multiply_ratio-eq-ok :
      (a p q : ℕ) {r : ℕ} → n.uint_multiply_ratio a p q ≡ ok r → (0 < q) × (r ≡ a * p / q)
  pub uint_mul_decimal-eq-ok :
      (a : ℕ) (d : Decimal256) {r : ℕ}
      → n.uint_mul_decimal a d ≡ ok r
      → r ≡ a * d.atomics / decimal_one
  pub uint_div_decimal-eq-ok :
      (a : ℕ) (d : Decimal256) {r : ℕ}
      → n.uint_div_decimal a d ≡ ok r
      → (0 < d.atomics) × (r ≡ a * decimal_one / d.atomics)
  pub to_uint128-eq-ok : (a : ℕ) {r : ℕ} → n.to_uint128 a ≡ ok r → (r ≡ a) × (a < u128)
  pub from_uint256-eq-ok :
      (a : ℕ) {r : Decimal256} → n.from_uint256 a ≡ ok r → r.atomics ≡ a * decimal_one
  pub from_ratio-eq-ok :
      (p q : ℕ) {r : Decimal256}
      → n.from_ratio p q ≡ ok r
      → (0 < q) × (r.atomics ≡ p * decimal_one / q)
  pub decimal_sub-eq-ok :
      (a b : Decimal256) {r : Decimal256}
      → n.decimal_sub a b ≡ ok r
      → a.atomics ≡ b.atomics + r.atomics
  pub decimal_mul-eq-ok :
      (a b : Decimal256) {r : Decimal256}
      → n.decimal_mul a b ≡ ok r
      → r.atomics ≡ a.atomics * b.atomics / decimal_one
  pub decimal_div-eq-ok :
      (a b : Decimal256) {r : Decimal256}
      → n.decimal_div a b ≡ ok r
      → (0 < b.atomics) × (r.atomics ≡ a.atomics * decimal_one / b.atomics)
  pub integer_sqrt_lem :
      (a : ℕ)
      → (n.integer_sqrt a * n.integer_sqrt a ≤ a)
        × (a < (n.integer_sqrt a + 1) * (n.integer_sqrt a + 1))

-- Where each operation of `compute_swap` has a result: what it computes fits 256 bits, a difference
-- is not below zero, and a divisor is not zero.
pub record FitsBignum (n : Bignum) : Type 0 where
  pub uint_add_fits : (a b : ℕ) → a + b < u256 → n.uint_add a b ≡ ok (a + b)
  pub uint_sub_fits : (a b : ℕ) → b ≤ a → n.uint_sub a b ≡ ok (a - b)
  pub uint_mul_fits : (a b : ℕ) → a * b < u256 → n.uint_mul a b ≡ ok (a * b)
  pub uint_mul_decimal_fits :
      (a : ℕ) (d : Decimal256)
      → a * d.atomics < u256
      → n.uint_mul_decimal a d ≡ ok (a * d.atomics / decimal_one)
  pub to_uint128_fits : (a : ℕ) → a < u128 → n.to_uint128 a ≡ ok a
  pub from_uint256_fits :
      (a : ℕ)
      → a * decimal_one < u256
      → n.from_uint256 a ≡ ok (record { atomics = a * decimal_one })
  pub from_ratio_fits :
      (p q : ℕ)
      → 0 < q
      → p * decimal_one < u256
      → n.from_ratio p q ≡ ok (record { atomics = p * decimal_one / q })
  pub decimal_sub_fits :
      (a b : Decimal256)
      → b.atomics ≤ a.atomics
      → n.decimal_sub a b ≡ ok (record { atomics = a.atomics - b.atomics })

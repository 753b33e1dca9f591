-- ===== src/Deprecated/Price.antt =====
-- The prices of contracts/terraswap_pair_deprecated/src/contract.rs and the checks of them.
pub mod Product
pub mod Checks
pub mod Reverse
pub mod Returns
pub mod Back
use terraswap.Prelude.{
  Bool, Option, Outcome, ensure, if◌then◌else◌, list_eq, ltb, nat_eq, none, not, ok, some,
  string_eq, ℕ, ◌*◌, ◌==◌, ◌>>=◌, ◌>>◌, ◌^◌, ◌||◌,
}
use terraswap.Deprecated.Bignum.{Bignum, Decimal256}
use terraswap.Deprecated.Types.{ReverseSimulation, Simulation}
use terraswap.Host.{Decimal, StdResult, decimal_one, generic_err}
use terraswap.Stable.Types.{
  ContractError, from_std, max_slippage_assertion, max_spread_assertion, std,
  too_small_offer_amount,
}

-- `Decimal256::from_str("0.003").unwrap()`
abbrev pub commission_rate : Decimal256
commission_rate = record { atomics = 3 * 10 ^ 15 }

-- `Decimal256::one()`
abbrev pub decimal256_one : Decimal256
decimal256_one = record { atomics = decimal_one }

-- `Decimal256`, from a `Decimal`.
abbrev pub widened : Decimal → Decimal256
widened d = record { atomics = d.atomics }

-- `a > b` of two `Decimal256`.
abbrev pub exceeds : Decimal256 → Decimal256 → Bool
exceeds a b = ltb b.atomics a.atomics

module _ (n : Bignum) where
  -- `return_amount` before the commission.
  unfoldable pub gross_return : (offer_pool ask_pool offer_amount : ℕ) → StdResult ℕ
  gross_return offer_pool ask_pool offer_amount = do
    cp ← n.uint_mul offer_pool ask_pool
    asked ← n.from_uint256 ask_pool
    offered ← n.uint_add offer_pool offer_amount
    left ← n.from_ratio cp offered
    paid ← n.decimal_sub asked left
    n.uint_mul_decimal 1 paid

  unfoldable pub compute_swap : (offer_pool ask_pool offer_amount : ℕ) → StdResult Simulation
  compute_swap offer_pool ask_pool offer_amount = do
    gross ← gross_return offer_pool ask_pool offer_amount
    price ← n.from_ratio ask_pool offer_pool
    expected ← n.uint_mul_decimal offer_amount price
    spread_amount ← n.uint_sub expected gross
    commission_amount ← n.uint_mul_decimal gross commission_rate
    return_amount ← n.uint_sub gross commission_amount
    return128 ← n.to_uint128 return_amount
    spread128 ← n.to_uint128 spread_amount
    commission128 ← n.to_uint128 commission_amount
    ok (record {
      return_amount = return128;
      spread_amount = spread128;
      commission_amount = commission128;
    })

  -- `1 / (1 - commission_rate)` and the offer, up to the deduction of the spread.
  unfoldable pub offer_before : (offer_pool ask_pool ask_amount : ℕ) → StdResult (Decimal256 × ℕ)
  offer_before offer_pool ask_pool ask_amount = do
    cp ← n.uint_mul offer_pool ask_pool
    one_minus_commission ← n.decimal_sub decimal256_one commission_rate
    inv_one_minus_commission ← n.decimal_div decimal256_one one_minus_commission
    asked ← n.uint_mul_decimal ask_amount inv_one_minus_commission
    ask_left ← n.uint_sub ask_pool asked
    offer_after ← n.uint_multiply_ratio 1 cp ask_left
    offer_amount ← n.uint_sub offer_after offer_pool
    ok (inv_one_minus_commission, offer_amount)

  -- How far the price before the spread is above the price before the commission.
  unfoldable pub spread_over :
      (before_spread_deduction before_commission_deduction : ℕ) → StdResult ℕ
  spread_over before_spread_deduction before_commission_deduction =
      if ltb before_commission_deduction before_spread_deduction
      then n.uint_sub before_spread_deduction before_commission_deduction
      else ok 0

  -- The check of small amounts and the conversions to 128 bits.
  unfoldable pub quote :
      (offer_amount spread_amount commission_amount : ℕ) → Outcome ContractError ReverseSimulation
  quote offer_amount spread_amount commission_amount = do
    ensure (not (spread_amount == 0 || commission_amount == 0)) too_small_offer_amount
    offer128 ← from_std (n.to_uint128 offer_amount)
    spread128 ← from_std (n.to_uint128 spread_amount)
    commission128 ← from_std (n.to_uint128 commission_amount)
    ok (record {
      offer_amount = offer128;
      spread_amount = spread128;
      commission_amount = commission128;
    })

  unfoldable pub compute_offer_amount :
      (offer_pool ask_pool ask_amount : ℕ) → Outcome ContractError ReverseSimulation
  compute_offer_amount offer_pool ask_pool ask_amount = do
    offer ← from_std (offer_before offer_pool ask_pool ask_amount)
    before_commission_deduction ← from_std (n.uint_mul_decimal ask_amount offer.0)
    price ← from_std (n.from_ratio ask_pool offer_pool)
    before_spread_deduction ← from_std (n.uint_mul_decimal offer.1 price)
    spread_amount ← from_std (spread_over before_spread_deduction before_commission_deduction)
    commission_amount ← from_std (n.uint_mul_decimal before_commission_deduction commission_rate)
    quote offer.1 spread_amount commission_amount

  -- `if return_amount < expected_return && from_ratio(spread_amount, expected_return) > max_spread`,
  -- which takes the ratio only behind the first test.
  unfoldable pub assert_belief :
      (max_spread : Decimal256)
      → (expected_return return_amount spread_amount : ℕ) → Outcome ContractError (Unit {0})
  assert_belief max_spread expected_return return_amount spread_amount =
      if ltb return_amount expected_return
      then (from_std (n.from_ratio spread_amount expected_return) >>= λ ratio.
          ensure (not (exceeds ratio max_spread)) max_spread_assertion)
      else ok tt

  unfoldable pub assert_max_spread :
      (belief_price max_spread : Option Decimal)
      → (offer_amount return_amount spread_amount : ℕ) → Outcome ContractError (Unit {0})
  assert_max_spread (some belief_price) (some max_spread) offer_amount return_amount spread_amount =
      do
        expected_return ← from_std (n.uint_div_decimal offer_amount (widened belief_price))
        spread ←
            (if ltb return_amount expected_return
              then from_std (n.uint_sub expected_return return_amount)
              else ok 0)
        assert_belief (widened max_spread) expected_return return_amount spread
  assert_max_spread none (some max_spread) offer_amount return_amount spread_amount = do
    total ← from_std (n.uint_add return_amount spread_amount)
    ratio ← from_std (n.from_ratio spread_amount total)
    ensure (not (exceeds ratio (widened max_spread))) max_spread_assertion
  assert_max_spread belief_price none offer_amount return_amount spread_amount = ok tt

  -- `from_ratio(deposit_a, deposit_b) * one_minus_slippage_tolerance > from_ratio(pool_a, pool_b)`
  unfoldable pub is_dropped :
      (kept : Decimal256) → (deposit_a deposit_b pool_a pool_b : ℕ) → StdResult Bool
  is_dropped kept deposit_a deposit_b pool_a pool_b = do
    given ← n.from_ratio deposit_a deposit_b
    scaled ← n.decimal_mul given kept
    price ← n.from_ratio pool_a pool_b
    ok (exceeds scaled price)

  -- The second price is looked at only if the first has not dropped.
  unfoldable pub assert_prices :
      (kept : Decimal256) → (deposits pools : ℕ × ℕ) → Outcome ContractError (Unit {0})
  assert_prices kept (d0, d1) (p0, p1) = do
    first ← from_std (is_dropped kept d0 d1 p0 p1)
    ensure (not first) max_slippage_assertion
    second ← from_std (is_dropped kept d1 d0 p1 p0)
    ensure (not second) max_slippage_assertion

  unfoldable pub assert_slippage_tolerance :
      (slippage_tolerance : Option Decimal)
      → (deposits pools : ℕ × ℕ) → Outcome ContractError (Unit {0})
  assert_slippage_tolerance none deposits pools = ok tt
  assert_slippage_tolerance (some slippage_tolerance) deposits pools = do
    ensure (not (exceeds (widened slippage_tolerance) decimal256_one))
        (std (generic_err "slippage_tolerance cannot bigger than 1"))
    kept ← from_std (n.decimal_sub decimal256_one (widened slippage_tolerance))
    assert_prices kept deposits pools

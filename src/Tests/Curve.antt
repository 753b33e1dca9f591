-- ===== src/Tests/Curve.antt =====
-- Runs of contracts/terraswap_stable/src/curve.rs.
use terraswap.Prelude.{List, Pointwise, [], arith, none, ok, refl, replicate, ℕ, ◌∷◌, ◌≡◌}
use terraswap.Checked.{
  checked_add, checked_div, checked_mul, checked_pow, checked_sub, fits, sub_or_panic, sum_from,
}
use terraswap.Stable.Curve.{
  Curve, add_coin, coefficients, coins_except, coins_with, d_product, d_step, exchange, get_d,
  get_y, get_y_d, is_close, iterate, reverse_exchange, y_d_equation, y_equation, y_step,
}
use terraswap.Stable.Curve.Balanced.{get_d-replicate}
use terraswap.Stable.Curve.Exchange.{IsWithinCurve, exchange-lt-curve}
use terraswap.Stable.Curve.Root.{IsRoot, get_y-IsRoot}
use terraswap.Stable.Liquidity.{
  balanced_amount, deducted, deducted_all, deposit, deposit_share, get_virtual_price, imbalance_fee,
  reduced, reduced_from, remove_balanced_liquidity, remove_liquidity_single_token,
}
use terraswap.Stable.Liquidity.Deposit.{IsFairMint, deposit_no_dilution}
use terraswap.Stable.Liquidity.Withdrawal.{
  IsPart, IsSinglePayment, remove_balanced_liquidity-IsPart, remove_single-lt-curve,
}

abbrev pub sample : Curve
sample = record { amp = 60; fee_numerator = 4 }

-- What a run computes with.
unfoldable pub curve_code : Unit {0}
unfolding is_close iterate d_product d_step get_d add_coin coins_except coins_with coefficients
    y_step y_d_equation get_y_d y_equation get_y exchange reverse_exchange get_virtual_price
    imbalance_fee deducted deducted_all deposit_share deposit balanced_amount
    remove_balanced_liquidity reduced reduced_from remove_liquidity_single_token fits checked_add
    checked_mul checked_pow checked_sub checked_div sub_or_panic sum_from
curve_code = tt

abbrev even : List ℕ
even = 1_000_000 ∷ 1_000_000 ∷ []

abbrev deposited : List ℕ
deposited = 1_100_000 ∷ 1_000_000 ∷ []

exchange_run : exchange sample 0 1 1000 even ≡ ok 999
unfolding curve_code
exchange_run = refl

reverse_exchange_run : reverse_exchange sample 0 1 1000 even ≡ ok 1001
unfolding curve_code
reverse_exchange_run = refl

get_y_run : get_y sample 0 1 1_001_000 even ≡ ok 999_000
unfolding curve_code
get_y_run = refl

deposit_run : deposit sample even deposited 2_000_000 ≡ ok 99_941
unfolding curve_code
deposit_run = refl

single_run : remove_liquidity_single_token sample even 1000 0 2_000_000 ≡ ok 999
unfolding curve_code
single_run = refl

balanced_run : remove_balanced_liquidity even 1000 2_000_000 ≡ ok (500 ∷ 500 ∷ [])
unfolding curve_code
balanced_run = refl

exchange-lt-curve_example : IsWithinCurve sample 0 1 1000 even 999
exchange-lt-curve_example = exchange-lt-curve sample 0 1 1000 even exchange_run

get_y-IsRoot_example :
    (d b c : ℕ) × (get_d sample even none ≡ ok d)
    × (y_equation sample 0 1 1_001_000 even d ≡ ok (b, c))
    × IsRoot b c d 999_000
get_y-IsRoot_example = get_y-IsRoot sample 0 1 1_001_000 even get_y_run

deposit_no_dilution_example : IsFairMint sample even deposited 2_000_000 99_941
deposit_no_dilution_example =
    deposit_no_dilution sample even deposited 2_000_000 (omega arith) deposit_run

remove_single-lt-curve_example : IsSinglePayment sample even 1000 0 2_000_000 999
remove_single-lt-curve_example = remove_single-lt-curve sample even 1000 0 2_000_000 single_run

remove_balanced_liquidity-IsPart_example : Pointwise (IsPart 1000 2_000_000) (500 ∷ 500 ∷ []) even
remove_balanced_liquidity-IsPart_example =
    remove_balanced_liquidity-IsPart even 1000 2_000_000 (500 ∷ 500 ∷ []) (omega arith) balanced_run

get_d-replicate_example : get_d sample (replicate 3 500) none ≡ ok 1500
get_d-replicate_example =
    get_d-replicate sample 3 500 (omega arith) (omega arith) (omega arith) (omega arith)
      (omega arith)

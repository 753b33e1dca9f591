-- ===== src/Stable/Liquidity.antt =====
-- contracts/terraswap_stable/src/curve.rs: the liquidity tokens that a deposit mints and the amounts
-- that a withdrawal pays. A `u64` is a number below 2^64.
pub mod Deposit
pub mod Withdrawal
use terraswap.Prelude.{
  List, Try, [], err, if◌then◌else◌, index, leb, length, ltb, nat_beq, none, ok, panic, some, suc,
  traverse, ℕ, ◌>>=◌, ◌∷◌,
}
use terraswap.Checked.{
  checked_div, checked_mul, checked_pow, checked_sub, fits, sub_or_panic, sum_from, u128, u64,
}
use terraswap.Stable.Curve.{Curve, fee_denominator, get_d, get_y_d}

unfoldable pub get_virtual_price : Curve → List ℕ → ℕ → ℕ → Try ℕ
get_virtual_price curve balances lp_token_total precision_factor = do
  d ← get_d curve balances none
  factor ← checked_pow u128 10 precision_factor
  product ← checked_mul u128 d factor
  virtual_price ← checked_div product lp_token_total
  fits u64 virtual_price

-- `fee_numerator * n_coins / 4 / (n_coins - 1)`
unfoldable pub imbalance_fee : Curve → ℕ → Try ℕ
imbalance_fee curve n_coins = do
  product ← checked_mul u64 curve.fee_numerator n_coins
  quarter ← checked_div product 4
  others ← sub_or_panic n_coins 1
  checked_div quarter others

-- One round of the loop of `deposit`: the new balance less the fee on its distance from the ideal.
unfoldable pub deducted : ℕ → ℕ → ℕ → ℕ → ℕ → Try ℕ
deducted fee d_0 d_1 old_balance new_balance = do
  product ← checked_mul u128 d_1 old_balance
  ideal_balance ← checked_div product d_0
  difference ←
      (if ltb ideal_balance new_balance
        then checked_sub new_balance ideal_balance
        else checked_sub ideal_balance new_balance)
  charge ← checked_mul u128 fee difference
  fee_for_token ← checked_div charge fee_denominator
  checked_sub new_balance fee_for_token

-- The loop of `deposit`: it reads `new_balances` at each index of `old_balances`.
unfoldable pub deducted_all : ℕ → ℕ → ℕ → List ℕ → List ℕ → Try (List ℕ)
deducted_all fee d_0 d_1 [] new_balances = ok []
deducted_all fee d_0 d_1 (old_balance ∷ old_rest) [] = panic
deducted_all fee d_0 d_1 (old_balance ∷ old_rest) (new_balance ∷ new_rest) = do
  balance ← deducted fee d_0 d_1 old_balance new_balance
  rest ← deducted_all fee d_0 d_1 old_rest new_rest
  ok (balance ∷ rest)

-- `deposit` behind its first two tests: `lp_token_total * (d_2 - d_0) / d_0` tokens, with `d_2` the
-- invariant of the balances less the fees.
unfoldable pub deposit_share : Curve → ℕ → ℕ → List ℕ → List ℕ → ℕ → Try ℕ
deposit_share curve d_0 d_1 old_balances new_balances lp_token_total = do
  fee ← imbalance_fee curve (length old_balances)
  new_balances_after_deducted_fee ← deducted_all fee d_0 d_1 old_balances new_balances
  new_sum_x ← sum_from 0 new_balances
  fee_sum_x ← sum_from 0 new_balances_after_deducted_fee
  product ← checked_mul u128 fee_sum_x d_1
  d_suggest ← checked_div product new_sum_x
  d_2 ← get_d curve new_balances_after_deducted_fee (some d_suggest)
  d_diff ← checked_sub d_2 d_0
  growth ← checked_mul u128 lp_token_total d_diff
  mint_amount ← checked_div growth d_0
  fits u64 mint_amount

unfoldable pub deposit : Curve → List ℕ → List ℕ → ℕ → Try ℕ
deposit curve old_balances new_balances lp_token_total = do
  d_0 ← get_d curve old_balances none
  d_1 ← get_d curve new_balances none
  if leb d_1 d_0
      then err tt
      else if nat_beq lp_token_total 0
      then fits u64 d_1
      else deposit_share curve d_0 d_1 old_balances new_balances lp_token_total

unfoldable pub balanced_amount : ℕ → ℕ → ℕ → Try ℕ
balanced_amount unmint_amount lp_total_supply old_balance = do
  product ← checked_mul u128 old_balance unmint_amount
  checked_div product lp_total_supply

unfoldable pub remove_balanced_liquidity : List ℕ → ℕ → ℕ → Try (List ℕ)
remove_balanced_liquidity old_balances unmint_amount lp_total_supply =
    traverse (balanced_amount unmint_amount lp_total_supply) old_balances

-- One round of the loop of `remove_liquidity_single_token`: the balance of coin `j` less the fee on
-- its distance from what the smaller invariant `d1` expects.
unfoldable pub reduced : ℕ → ℕ → ℕ → ℕ → ℕ → ℕ → ℕ → Try ℕ
reduced fee d0 d1 new_y i j old_balance = do
  product ← checked_mul u128 old_balance d1
  expected ← checked_div product d0
  dx_expected ←
      (if nat_beq j i then checked_sub expected new_y else checked_sub old_balance expected)
  charge ← checked_mul u128 fee dx_expected
  fee_for_token ← checked_div charge fee_denominator
  checked_sub old_balance fee_for_token

-- The loop, from coin `j`.
unfoldable pub reduced_from : ℕ → ℕ → ℕ → ℕ → ℕ → ℕ → List ℕ → Try (List ℕ)
reduced_from fee d0 d1 new_y i j [] = ok []
reduced_from fee d0 d1 new_y i j (old_balance ∷ rest) = do
  balance ← reduced fee d0 d1 new_y i j old_balance
  balances ← reduced_from fee d0 d1 new_y i (suc j) rest
  ok (balance ∷ balances)

unfoldable pub remove_liquidity_single_token : Curve → List ℕ → ℕ → ℕ → ℕ → Try ℕ
remove_liquidity_single_token curve old_balances unmint_amount i lp_total_supply = do
  d0 ← get_d curve old_balances none
  product ← checked_mul u128 unmint_amount d0
  share ← checked_div product lp_total_supply
  d1 ← checked_sub d0 share
  new_y ← get_y_d curve i old_balances d1
  fee ← imbalance_fee curve (length old_balances)
  xp_reduced ← reduced_from fee d0 d1 new_y i 0 old_balances
  reduced_i ← index xp_reduced i
  y ← get_y_d curve i xp_reduced d1
  difference ← checked_sub reduced_i y
  dy ← checked_sub difference 1
  fits u64 dy

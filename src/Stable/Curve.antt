-- ===== src/Stable/Curve.antt =====
-- contracts/terraswap_stable/src/curve.rs: the stable-swap invariant and the amounts that the pair
-- pays and mints. `&[u128]` is a list of numbers below 2^128, an index is its place in the list, and
-- `Option` results are `Try`. The children prove what the functions guarantee.
pub mod Loop
pub mod Root
pub mod Exchange
pub mod Coins
pub mod Balanced
use terraswap.Prelude.{
  Bool, List, Option, Try, [], false, if◌then◌else◌, index, leb, length, ltb, nat_beq, none, ok,
  some, suc, traverse, true, unwrap, zero, ℕ, ◌>>=◌, ◌>>◌, ◌∷◌,
}
use terraswap.Checked.{
  checked_add, checked_div, checked_mul, checked_sub, sub_or_panic, sum_from, u128, u64,
}

abbrev pub iterations : ℕ
iterations = 32

abbrev pub fee_denominator : ℕ
fee_denominator = 10_000

pub record Curve : Type 0 where
  pub amp : ℕ
  pub fee_numerator : ℕ

-- `if d > d_prev { d - d_prev <= 1 } else { d_prev - d <= 1 }`
unfoldable pub is_close : ℕ → ℕ → Try Bool
is_close d d_prev =
    if ltb d_prev d
    then (checked_sub d d_prev >>= λ diff. ok (leb diff 1))
    else (checked_sub d_prev d >>= λ diff. ok (leb diff 1))

-- The loop of the three solvers: at most so many rounds, and a stop when a round changes the value
-- by at most 1.
unfoldable pub iterate : ℕ → (ℕ → Try ℕ) → ℕ → Try ℕ
iterate zero step d_prev = ok d_prev
iterate (suc n) step d_prev = do
  d ← step d_prev
  stop ← is_close d d_prev
  elim stop [ true ↦ ok d | false ↦ iterate n step d ]

-- The inner loop of `get_d`: `d_prod = d_prod * d / amount_times_coin`.
unfoldable pub d_product : ℕ → List ℕ → ℕ → Try ℕ
d_product d [] d_prod = ok d_prod
d_product d (amount_time_coin ∷ rest) d_prod = do
  t ← checked_mul u128 d_prod d
  d_prod' ← checked_div t amount_time_coin
  d_product d rest d_prod'

-- One round of `get_d`.
unfoldable pub d_step : ℕ → ℕ → ℕ → List ℕ → ℕ → Try ℕ
d_step n_coins ann_mul_sum_x ann_sub_one amounts_times_coin d = do
  d_prod ← d_product d amounts_times_coin d
  d_prod_mul_n_coins ← checked_mul u128 d_prod n_coins
  weighted ← checked_add u128 ann_mul_sum_x d_prod_mul_n_coins
  numerator ← checked_mul u128 weighted d
  scaled ← checked_mul u128 d ann_sub_one
  products ← checked_add u128 d_prod d_prod_mul_n_coins
  denominator ← checked_add u128 scaled products
  checked_div numerator denominator

-- `d_suggest.unwrap_or(sum_x)`
abbrev pub unwrap_or : Option ℕ → ℕ → ℕ
unwrap_or none d = d
unwrap_or (some s) d = s

unfoldable pub get_d : Curve → List ℕ → Option ℕ → Try ℕ
get_d curve amounts d_suggest = do
  let n_coins = length amounts
  sum_x ← sum_from 0 amounts
  let solve = do
    amounts_times_coin ← traverse (λ amount. unwrap (checked_mul u128 amount n_coins)) amounts
    ann ← checked_mul u64 curve.amp n_coins
    ann_mul_sum_x ← checked_mul u128 ann sum_x
    ann_sub_one ← checked_sub ann 1
    iterate iterations (d_step n_coins ann_mul_sum_x ann_sub_one amounts_times_coin)
        (unwrap_or d_suggest sum_x)
  if nat_beq sum_x 0 then ok 0 else solve

-- What one coin adds to the sum `s` and to the product `c` of the other balances.
unfoldable pub add_coin : ℕ → ℕ → ℕ → ℕ × ℕ → Try (ℕ × ℕ)
add_coin n_coins d x_temp (s, c) = do
  s' ← checked_add u128 s x_temp
  t ← checked_mul u128 c d
  m ← checked_mul u128 x_temp n_coins
  c' ← checked_div t m
  ok (s', c')

-- The loop of `get_y_d` over the coins from number `k`: it skips coin `i`.
unfoldable pub coins_except : ℕ → ℕ → ℕ → ℕ → List ℕ → ℕ × ℕ → Try (ℕ × ℕ)
coins_except n_coins i d k [] acc = ok acc
coins_except n_coins i d k (amount ∷ rest) acc = do
  acc' ← (if nat_beq k i then ok acc else add_coin n_coins d amount acc)
  coins_except n_coins i d (suc k) rest acc'

-- The loop of `get_y` over the coins from number `k`: `x` stands for coin `i`, and `j` is skipped.
unfoldable pub coins_with : ℕ → ℕ → ℕ → ℕ → ℕ → ℕ → List ℕ → ℕ × ℕ → Try (ℕ × ℕ)
coins_with n_coins i j x d k [] acc = ok acc
coins_with n_coins i j x d k (balance ∷ rest) acc = do
  acc' ←
      (if nat_beq k i
        then add_coin n_coins d x acc
        else if nat_beq k j
        then ok acc
        else add_coin n_coins d balance acc)
  coins_with n_coins i j x d (suc k) rest acc'

-- `b` and `c` of the equation `y**2 + (b - d) * y = c`, from the sum and the product of the coins.
unfoldable pub coefficients : ℕ → ℕ → ℕ → ℕ × ℕ → Try (ℕ × ℕ)
coefficients n_coins ann d (s, c) = do
  t ← checked_mul u128 c d
  m ← checked_mul u64 ann n_coins
  c' ← checked_div t m
  q ← checked_div d ann
  b ← checked_add u128 s q
  ok (b, c')

-- One round of `get_y` and of `get_y_d`: `y = (y * y + c) / (2 * y + b - d)`.
unfoldable pub y_step : ℕ → ℕ → ℕ → ℕ → Try ℕ
y_step b c d y = do
  square ← checked_mul u128 y y
  y_numerator ← checked_add u128 square c
  double ← checked_mul u128 y 2
  with_b ← checked_add u128 double b
  y_denominator ← checked_sub with_b d
  checked_div y_numerator y_denominator

-- `b` and `c` in `get_y_d`.
unfoldable pub y_d_equation : Curve → ℕ → List ℕ → ℕ → Try (ℕ × ℕ)
y_d_equation curve i amounts d = do
  ann ← checked_mul u64 curve.amp (length amounts)
  terms ← coins_except (length amounts) i d 0 amounts (0, d)
  coefficients (length amounts) ann d terms

unfoldable pub get_y_d : Curve → ℕ → List ℕ → ℕ → Try ℕ
get_y_d curve i amounts d = do
  equation ← y_d_equation curve i amounts d
  iterate iterations (y_step equation.0 equation.1 d) d

-- `b` and `c` in `get_y`, for the invariant `d`.
unfoldable pub y_equation : Curve → ℕ → ℕ → ℕ → List ℕ → ℕ → Try (ℕ × ℕ)
y_equation curve i j x balances d = do
  ann ← checked_mul u64 curve.amp (length balances)
  terms ← coins_with (length balances) i j x d 0 balances (0, d)
  coefficients (length balances) ann d terms

unfoldable pub get_y : Curve → ℕ → ℕ → ℕ → List ℕ → Try ℕ
get_y curve i j x balances = do
  d ← get_d curve balances none
  equation ← y_equation curve i j x balances d
  iterate iterations (y_step equation.0 equation.1 d) d

unfoldable pub exchange : Curve → ℕ → ℕ → ℕ → List ℕ → Try ℕ
exchange curve i j in_amount balances = do
  balance_i ← index balances i
  x ← checked_add u128 balance_i in_amount
  y ← get_y curve i j x balances
  balance_j ← index balances j
  rest ← checked_sub balance_j y
  dy ← checked_sub rest 1
  product ← checked_mul u128 dy curve.fee_numerator
  dy_fee ← checked_div product fee_denominator
  checked_sub dy dy_fee

unfoldable pub reverse_exchange : Curve → ℕ → ℕ → ℕ → List ℕ → Try ℕ
reverse_exchange curve i j out_amount balances = do
  product ← checked_mul u128 out_amount fee_denominator
  kept ← sub_or_panic fee_denominator curve.fee_numerator
  out_amount_after_fee ← checked_div product kept
  balance_i ← index balances i
  x ← checked_sub balance_i out_amount_after_fee
  y ← get_y curve i j x balances
  balance_j ← index balances j
  more ← checked_sub y balance_j
  checked_add u128 more 1

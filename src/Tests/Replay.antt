-- ===== src/Tests/Replay.antt =====
-- The tests of contracts/terraswap_stable/src/testing.rs hold of the model.
use terraswap.Prelude.{Option, [], refl, some, ◌∷◌}
use terraswap.Asset.{PairInfoRaw, native_token, native_token_raw, token, token_raw}
use terraswap.Mock.{
  balance_answer, balances_to_map, caps_to_map, contract_balances, fill, found_or, get,
  mock_dependencies, mock_host, or_zero, listed_pair_answer, pairs_to_map, sum_balances,
  tax_cap_answer, tax_rate_answer, token_info_answer, with_balance, with_tax, with_terraswap_pairs,
  with_token_balances, without,
}
use terraswap.Replay.Stable.{
  IsSetUp, ProperInitialization, ProvideAccepted, ProvideFirst, ProvideMismatch, ProvideSlippage,
  WithdrawLiquidity, provide_querier,
}
use terraswap.Replay.Trades.{TestQueryPool, TryNativeToToken, TryTokenToNative}
use terraswap.Stable.Contract.{query_pool}
use terraswap.Tests.Mock.{mock_lib}
use terraswap.Tests.Pair.{pair_code}

unfoldable pub replay_code : Unit {0}
unfolding pair_code get without fill caps_to_map pairs_to_map contract_balances balances_to_map
    mock_dependencies with_token_balances with_tax with_terraswap_pairs found_or or_zero
    tax_rate_answer tax_cap_answer sum_balances token_info_answer balance_answer listed_pair_answer
    with_balance mock_host query_pool
replay_code = tt

proper_initialization : ProperInitialization mock_lib
unfolding replay_code
proper_initialization = (_, _, _, refl, refl, refl, refl, refl, refl)

provide_first : ProvideFirst mock_lib
unfolding replay_code
provide_first = (_, _, (_, _, refl, refl, refl), refl, refl, refl)

-- The pair as it was set up in the first part.
abbrev set_up : Option PairInfoRaw
set_up = some (record {
  asset_infos = token_raw (3 ∷ []) ∷ native_token_raw "uusd" ∷ [];
  contract_addr = 1 ∷ [];
  liquidity_token = 2 ∷ [];
  amplification = 60;
  fee = 4;
})

set_up_run :
    IsSetUp mock_lib (provide_querier 100 0 0) (token "asset0000") (native_token "uusd") set_up
unfolding replay_code
set_up_run = (_, _, refl, refl, refl)

provide_mismatch : ProvideMismatch mock_lib set_up
unfolding replay_code
provide_mismatch = refl

provide_slippage : ProvideSlippage mock_lib set_up
unfolding replay_code
provide_slippage = (refl, refl)

provide_accepted : ProvideAccepted mock_lib set_up
unfolding replay_code
provide_accepted = ((_, refl), (_, refl))

withdraw_run : WithdrawLiquidity mock_lib
unfolding replay_code
withdraw_run = (_, _, (_, _, refl, refl, refl), refl, refl, refl, refl, refl)

try_native_to_token : TryNativeToToken mock_lib
unfolding replay_code
try_native_to_token = (_, _, (_, _, refl, refl, refl), refl, refl, refl)

try_token_to_native : TryTokenToNative mock_lib
unfolding replay_code
try_token_to_native = (_, _, (_, _, refl, refl, refl), refl, refl, refl, refl)

test_query_pool : TestQueryPool mock_lib
unfolding replay_code
test_query_pool = (_, _, (_, _, refl, refl, refl), refl, refl, refl)

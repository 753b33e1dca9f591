-- ===== src/Tests/Reserves.antt =====
-- A few trades of the pair of contracts/terraswap_pair_deprecated/src/contract.rs.
use terraswap.Prelude.{arith, none, ok, refl, ◌<◌, ◌≡◌}
use terraswap.Asset.{native_token, token}
use terraswap.Deprecated.Price.{compute_swap}
use terraswap.Deprecated.Provide.{share_of}
use terraswap.Deprecated.Reserves.{Reserves, Trades, later, provided, sold_first, start}
use terraswap.Deprecated.Reserves.Handled.{
  IsSwapTrade, IsWithdrawTrade, swap-Trade, withdraw_liquidity-Trade,
}
use terraswap.Deprecated.Reserves.Worth.{IsWorth, Trades-IsWorth}
use terraswap.Tests.Bignum.{sample_bignum, sample_bignum-IsBignum}
use terraswap.Tests.Deprecated.{
  both_pools, both_run, deprecated_code, one_percent, placed_run, sample_raw, trade_response,
  trade_run,
}
use terraswap.Tests.Host.{sample_host, sample_host-IsUint128}
use terraswap.Tests.Pair.{sample_env, uusd, uusd_message}
use terraswap.Tests.Shares.{refund_response, refund_run, supply_run}

abbrev million : Reserves
million = record { first = 1_000_000; second = 1_000_000; total = 2_000_000 }

abbrev traded : Reserves
traded = record { first = 1_001_501; second = 999_503; total = 2_001_000 }

sold_run :
    compute_swap sample_bignum 1_000_000 1_000_000 1000
    ≡ ok (record { return_amount = 997; spread_amount = 1; commission_amount = 2 })
unfolding deprecated_code
sold_run = refl

minted_run : share_of sample_bignum sample_host 2_000_000 (501, 500) (1_001_000, 999_003) ≡ ok 1000
unfolding deprecated_code
minted_run = refl

trades : Trades sample_bignum sample_host million traded
trades =
    later (later start (sold_first 1000 (omega arith) sold_run))
      (provided 501 500 (omega arith) minted_run)

Trades-IsWorth_example : (0 < 2_001_000) × IsWorth million traded
Trades-IsWorth_example =
    Trades-IsWorth sample_bignum sample_bignum-IsBignum sample_host sample_host-IsUint128 million
      traded (omega arith) trades

swap-Trade_example :
    IsSwapTrade sample_bignum sample_host
      (token "coin")
      999_000
      1_000_000
      2_000_000
      1000
      "trader"
      trade_response
swap-Trade_example =
    swap-Trade sample_bignum sample_host sample_host-IsUint128 sample_raw sample_env uusd_message
      "trader" (uusd 1000) none one_percent none both_pools (native_token "uusd") (token "coin")
      999_000 1_000_000 2_000_000 both_run placed_run (omega arith) trade_run

withdraw_liquidity-Trade_example :
    IsWithdrawTrade sample_bignum sample_host "trader" "lp" 1000 2_000_000 both_pools
      refund_response
withdraw_liquidity-Trade_example =
    withdraw_liquidity-Trade sample_bignum sample_host sample_raw sample_env "trader" "lp" 1000
      2_000_000 both_pools refl both_run supply_run (omega arith) (omega arith) (omega arith)
      refund_run

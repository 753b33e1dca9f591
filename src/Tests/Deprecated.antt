-- ===== src/Tests/Deprecated.antt =====
-- Runs of contracts/terraswap_pair_deprecated/src/contract.rs.
use terraswap.Prelude.{Option, [], arith, inr, none, ok, panic, refl, some, ◌^◌, ◌∷◌, ◌≡◌, ◌≢◌}
use terraswap.Checked.{mul_or_panic}
use terraswap.Asset.{
  Asset, assert_sent_native_token_balance, native_token, native_token_raw, token, token_raw,
  transfer, wasm_execute,
}
use terraswap.Deprecated.Entry.{assert_lp_sender, execute, receive_cw20, receive_hook}
use terraswap.Deprecated.Pair.{load, pools_for, query_pair_info, query_pool, two_pools}
use terraswap.Deprecated.Price.{
  assert_belief, assert_max_spread, assert_prices, assert_slippage_tolerance, compute_offer_amount,
  compute_swap, gross_return, is_dropped, offer_before, quote, spread_over,
}
use terraswap.Deprecated.Provide.{deposit_of, provide_liquidity, share_of, withdraw_liquidity}
use terraswap.Deprecated.Swap.{query_reverse_simulation, query_simulation, return_messages, swap}
use terraswap.Deprecated.Swap.Delivered.{IsDelivered, swap-delivers_simulation}
use terraswap.Deprecated.Swap.Mismatch.{IsMismatch, swap-IsMismatch}
use terraswap.Deprecated.Swap.Returned.{swap-returns}
use terraswap.Deprecated.Swap.Settled.{IsPlaced, IsSettled, swap-IsSettled}
use terraswap.Deprecated.Types.{PairRaw, ReverseSimulation, Simulation}
use terraswap.Host.{Decimal, Host}
use terraswap.Stable.Provide.{take_deposit}
use terraswap.Stable.Types.{Response, number, shown_info, text}
use terraswap.Stable.Withdraw.{refund_asset}
use terraswap.Tests.Bignum.{sample_bignum, sample_bignum-FitsBignum, sample_bignum-IsBignum}
use terraswap.Tests.Host.{sample_host, sample_host-IsUint128}
use terraswap.Tests.Pair.{coin_asset, pair_code, sample_env, ukrw, ukrw_info, uusd, uusd_message}
use terraswap.Tests.Router.{sample_market}

abbrev pub sample_raw : PairRaw
sample_raw = record {
  contract_addr = 1 ∷ [];
  liquidity_token = 2 ∷ [];
  asset_infos = (token_raw (3 ∷ []), native_token_raw "uusd");
}

unfoldable pub deprecated_code : Unit {0}
unfolding pair_code load two_pools query_pair_info query_pool pools_for mul_or_panic gross_return
    compute_swap offer_before spread_over quote compute_offer_amount assert_belief assert_max_spread
    is_dropped assert_prices assert_slippage_tolerance deposit_of share_of provide_liquidity
    withdraw_liquidity return_messages swap query_simulation query_reverse_simulation
    assert_lp_sender receive_hook receive_cw20 execute take_deposit refund_asset
deprecated_code = tt

abbrev pub both_pools : Asset × Asset
both_pools = (coin_asset 1_000_000, uusd 1_000_000)

pub both_run : two_pools sample_host sample_raw "pair" ≡ ok both_pools
unfolding deprecated_code
both_run = refl

abbrev pub trade_response : Response
trade_response = record {
  messages = wasm_execute "coin" (transfer "trader" 997) [] ∷ [];
  submessages = [];
  attributes =
      ("action", text "swap")
      ∷ ("sender", text "trader")
      ∷ ("receiver", text "trader")
      ∷ ("offer_asset", shown_info (native_token "uusd"))
      ∷ ("ask_asset", shown_info (token "coin"))
      ∷ ("offer_amount", number 1000)
      ∷ ("return_amount", number 997)
      ∷ ("tax_amount", number 0)
      ∷ ("spread_amount", number 1)
      ∷ ("commission_amount", number 3)
      ∷ [];
}

abbrev pub one_percent : Option Decimal
one_percent = some (record { atomics = 10 ^ 16 })

pub trade_run :
    swap sample_bignum sample_host
      (some sample_raw)
      sample_env
      uusd_message
      "trader"
      (uusd 1000)
      none
      one_percent
      none
    ≡ ok trade_response
unfolding deprecated_code
trade_run = refl

swap-IsSettled_example :
    (pools : Asset × Asset) × (two_pools sample_host sample_raw "pair" ≡ ok pools)
    × IsSettled sample_host pools (uusd 1000) none one_percent "trader" trade_response
swap-IsSettled_example =
    swap-IsSettled sample_bignum sample_bignum-IsBignum sample_host sample_host-IsUint128 sample_raw
      sample_env uusd_message "trader" (uusd 1000) none one_percent none trade_run

-- The chain before the coins of the swap came in.
abbrev host_before : Host
host_before = record sample_host { bank_balance = λ address denom. ok 999_000 }

abbrev pools_before : Asset × Asset
pools_before = (coin_asset 1_000_000, uusd 999_000)

before_run : two_pools host_before sample_raw "pair" ≡ ok pools_before
unfolding deprecated_code
before_run = refl

abbrev quoted : Simulation
quoted = record { return_amount = 997; spread_amount = 1; commission_amount = 3 }

quoted_run : query_simulation sample_bignum host_before (some sample_raw) (uusd 1000) ≡ ok quoted
unfolding deprecated_code
quoted_run = refl

uusd-not_coin : native_token "uusd" ≢ token "coin"
uusd-not_coin e = absurd (cc)

swap-delivers_simulation_example :
    (places : Asset × Asset) × IsPlaced (native_token "uusd") pools_before places
    × IsDelivered sample_host sample_market none places.1.info 997 "trader"
        (wasm_execute "coin" (transfer "trader" 997) [] ∷ [])
swap-delivers_simulation_example =
    swap-delivers_simulation sample_bignum host_before sample_host sample_host-IsUint128
      sample_market none sample_raw sample_env uusd_message "trader" (uusd 1000) none one_percent
      none pools_before both_pools refl before_run both_run (inr (uusd-not_coin, refl, refl))
      quoted_run trade_run

foreign_sent : assert_sent_native_token_balance (ukrw 1000) ukrw_info ≡ ok tt
unfolding deprecated_code
foreign_sent = refl

swap-IsMismatch_example :
    IsMismatch
      (swap sample_bignum sample_host
        (some sample_raw)
        sample_env
        ukrw_info
        "trader"
        (ukrw 1000)
        none
        none
        none)
      (native_token "ukrw")
      both_pools
    × IsMismatch
        (query_simulation sample_bignum sample_host (some sample_raw) (ukrw 1000))
        (native_token "ukrw")
        both_pools
    × IsMismatch
        (query_reverse_simulation sample_bignum sample_host (some sample_raw) (ukrw 1000))
        (native_token "ukrw")
        both_pools
swap-IsMismatch_example =
    swap-IsMismatch sample_bignum sample_host sample_raw sample_env ukrw_info "trader" (ukrw 1000)
      none none none both_pools foreign_sent refl both_run

uusd_sent : assert_sent_native_token_balance (uusd 1000) uusd_message ≡ ok tt
unfolding deprecated_code
uusd_sent = refl

pub placed_run :
    pools_for (native_token "uusd") both_pools ≡ ok (uusd 1_000_000, coin_asset 1_000_000)
unfolding deprecated_code
placed_run = refl

swap-returns_example :
    (response : Response) × (swap sample_bignum sample_host
        (some sample_raw)
        sample_env
        uusd_message
        "trader"
        (uusd 1000)
        none
        none
        none
      ≡ ok response)
swap-returns_example =
    swap-returns sample_bignum sample_bignum-IsBignum sample_bignum-FitsBignum sample_host
      sample_host-IsUint128 sample_raw sample_env uusd_message "trader" (uusd 1000) none none
      both_pools (uusd 1_000_000) "coin" 1_000_000 uusd_sent both_run placed_run (omega arith)
      (omega arith, omega arith, omega arith, omega arith, omega arith, omega arith, omega arith)

abbrev asked : ReverseSimulation
asked = record { offer_amount = 111481; spread_amount = 11181; commission_amount = 300 }

asked_run : compute_offer_amount sample_bignum 1_000_000 1_000_000 100_000 ≡ ok asked
unfolding deprecated_code
asked_run = refl

-- A pool in which the expected return is rounded down to 0, and the return is not.
spread_run : compute_swap sample_bignum (10 ^ 24) 300_000 (10 ^ 22) ≡ panic
unfolding deprecated_code
spread_run = refl

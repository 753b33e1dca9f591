-- ===== src/Tests/Quotes.antt =====
-- A quote and a round trip through the pair of contracts/terraswap_pair_deprecated/src/contract.rs.
use terraswap.Prelude.{List, [], arith, none, ok, refl, some, ◌∷◌, ◌≡◌, ◌≢◌}
use terraswap.Asset.{
  Asset, CosmosMsg, Cw20ExecuteMsg, bank_send, burn, native_token, query_supply, token, transfer,
  transfer_from, wasm_execute,
}
use terraswap.Deprecated.Pair.{pools_for, two_pools}
use terraswap.Deprecated.Price.{compute_offer_amount}
use terraswap.Deprecated.Price.Back.{IsAnswered}
use terraswap.Deprecated.Price.Reverse.{IsQuoted, compute_offer_amount-IsQuoted}
use terraswap.Deprecated.Provide.{deposit_of, withdraw_liquidity}
use terraswap.Deprecated.Provide.Redeemed.{IsRedeemed, withdraw_liquidity-provide_liquidity}
use terraswap.Deprecated.Swap.{query_reverse_simulation, query_simulation}
use terraswap.Deprecated.Swap.Answered.{query_simulation-IsAnswered}
use terraswap.Deprecated.Types.{ReverseSimulation, Simulation}
use terraswap.Host.{Host, IsUint128}
use terraswap.Stable.Provide.{take_deposit}
use terraswap.Stable.Types.{Response, number, shown_assets, text}
use terraswap.Tests.Bignum.{sample_bignum, sample_bignum-IsBignum}
use terraswap.Tests.Deprecated.{both_pools, both_run, deprecated_code, one_percent, sample_raw}
use terraswap.Tests.Host.{sample_host, sample_host-IsUint128}
use terraswap.Tests.Pair.{coin_asset, sample_env, uusd, uusd_message}
use terraswap.Tests.Shares.{deposit_run, supply_run}

abbrev quoted : ReverseSimulation
quoted = record { offer_amount = 111481; spread_amount = 11181; commission_amount = 300 }

quoted_run :
    query_reverse_simulation sample_bignum sample_host (some sample_raw) (coin_asset 100_000)
    ≡ ok quoted
unfolding deprecated_code
quoted_run = refl

abbrev answered : Simulation
answered = record { return_amount = 99_999; spread_amount = 11_182; commission_amount = 300 }

answered_run :
    query_simulation sample_bignum sample_host (some sample_raw) (uusd 111_481) ≡ ok answered
unfolding deprecated_code
answered_run = refl

placed_coin : pools_for (token "coin") both_pools ≡ ok (coin_asset 1_000_000, uusd 1_000_000)
unfolding deprecated_code
placed_coin = refl

coin-not_uusd : token "coin" ≢ native_token "uusd"
coin-not_uusd e = absurd (cc)

offer_run : compute_offer_amount sample_bignum 1_000_000 1_000_000 100_000 ≡ ok quoted
unfolding deprecated_code
offer_run = refl

compute_offer_amount-IsQuoted_example : IsQuoted 1_000_000 1_000_000 100_000 quoted
compute_offer_amount-IsQuoted_example =
    compute_offer_amount-IsQuoted sample_bignum sample_bignum-IsBignum 1_000_000 1_000_000 100_000
      offer_run

query_simulation-IsAnswered_example : IsAnswered 1_000_000 1_000_000 100_000 111_481 answered
query_simulation-IsAnswered_example =
    query_simulation-IsAnswered sample_bignum sample_bignum-IsBignum sample_host sample_raw "pair"
      (coin_asset 100_000) both_pools (coin_asset 1_000_000) (uusd 1_000_000) refl both_run
      coin-not_uusd placed_coin quoted_run answered_run

-- The chain after the deposit of `deposit_run`.
abbrev host_after : Host
host_after = record sample_host {
  cw20_balance = λ contract_addr address. ok 1_001_000;
  cw20_total_supply = λ contract_addr. ok 2_002_000;
}

host_after-IsUint128 : IsUint128 host_after
host_after-IsUint128 = record {
  checked_sub_lem = sample_host-IsUint128.checked_sub_lem;
  add_lem = sample_host-IsUint128.add_lem;
  multiply_ratio_lem = sample_host-IsUint128.multiply_ratio_lem;
  multiply_ratio-eq-ok = sample_host-IsUint128.multiply_ratio-eq-ok;
  from_ratio_lem = sample_host-IsUint128.from_ratio_lem;
  mul_decimal_lem = sample_host-IsUint128.mul_decimal_lem;
}

abbrev pools_after : Asset × Asset
pools_after = (coin_asset 1_001_000, uusd 1_000_000)

after_run : two_pools host_after sample_raw "pair" ≡ ok pools_after
unfolding deprecated_code
after_run = refl

after_supply : query_supply host_after "lp" ≡ ok 2_002_000
unfolding deprecated_code
after_supply = refl

abbrev redeemed_response : Response
redeemed_response = record {
  messages =
      wasm_execute "coin" (transfer "trader" 999) []
      ∷ bank_send "trader" (record { denom = "uusd"; amount = 989 } ∷ [])
      ∷ wasm_execute "lp" (burn 2000) []
      ∷ [];
  submessages = [];
  attributes =
      ("action", text "withdraw_liquidity")
      ∷ ("sender", text "trader")
      ∷ ("withdrawn_share", number 2000)
      ∷ ("refund_assets", shown_assets (coin_asset 999) (uusd 999))
      ∷ [];
}

redeemed_run :
    withdraw_liquidity host_after (some sample_raw) sample_env "trader" 2000 ≡ ok redeemed_response
unfolding deprecated_code
redeemed_run = refl

first_deposit : deposit_of (uusd 1000, coin_asset 1000) (coin_asset 1_000_000) ≡ ok 1000
unfolding deprecated_code
first_deposit = refl

second_deposit : deposit_of (uusd 1000, coin_asset 1000) (uusd 1_000_000) ≡ ok 1000
unfolding deprecated_code
second_deposit = refl

abbrev first_taken : List (CosmosMsg Cw20ExecuteMsg) × Asset
first_taken =
    (wasm_execute "coin" (transfer_from "trader" "pair" 1000) [] ∷ [], coin_asset 1_000_000)

abbrev second_taken : List (CosmosMsg Cw20ExecuteMsg) × Asset
second_taken = ([], uusd 999_000)

first_taken_run :
    take_deposit sample_host "trader" "pair" (coin_asset 1_000_000) 1000 ≡ ok first_taken
unfolding deprecated_code
first_taken_run = refl

second_taken_run : take_deposit sample_host "trader" "pair" (uusd 1_000_000) 1000 ≡ ok second_taken
unfolding deprecated_code
second_taken_run = refl

withdraw_liquidity-provide_liquidity_example :
    IsRedeemed host_after "trader" "lp" 2000 (1000, 1000) pools_after redeemed_response
withdraw_liquidity-provide_liquidity_example =
    withdraw_liquidity-provide_liquidity sample_bignum sample_bignum-IsBignum sample_host host_after
      sample_host-IsUint128 host_after-IsUint128 sample_raw sample_env uusd_message
      (uusd 1000, coin_asset 1000) one_percent none "trader" "lp" both_pools pools_after first_taken
      second_taken 1000 1000 2_000_000 2000 refl both_run first_deposit second_deposit
      first_taken_run second_taken_run supply_run (omega arith) deposit_run refl refl after_run refl
      refl (omega arith) (omega arith) after_supply redeemed_run

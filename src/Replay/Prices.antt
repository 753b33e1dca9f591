-- ===== src/Replay/Prices.antt =====
-- The swaps of contracts/terraswap_pair_deprecated/src/testing.rs, and the tests after them.
use Prim.Native.Nat.{max, min}
use terraswap.Prelude.{
  Bool, List, Option, String, [], err, get_elem?, ltb, none, ok, some, true, ℕ, ◌*◌, ◌+◌, ◌-◌, ◌/◌,
  ◌^◌, ◌∷◌, ◌≡◌,
}
use terraswap.Asset.{
  Asset, AssetInfo, bank_send, deduct_tax, native_token, token, transfer, wasm_execute,
}
use terraswap.Deprecated.Bignum.{Bignum}
use terraswap.Deprecated.Pair.{query_pool}
use terraswap.Deprecated.Price.{assert_max_spread}
use terraswap.Deprecated.Swap.{query_reverse_simulation, query_simulation}
use terraswap.Deprecated.Types.{
  PairExecuteMsg, PairHookMsg, PairPools, PairRaw, ReverseSimulation, Simulation,
}
use terraswap.Host.{Coin, Decimal, decimal_one}
use terraswap.Mock.{
  WasmMockQuerier, mock_dependencies, mock_host, with_balance, with_tax, with_token_balances,
}
use terraswap.Replay.{mock_contract_addr, mock_info, token_asset, uusd_asset, uusd_coin}
use terraswap.Replay.Deprecated.{IsPairSetUp, PairLib, executed, one_percent}
use terraswap.Replay.Trades.{offer_amount, swap_querier}
use terraswap.Stable.Types.{
  ContractError, Cw20ReceiveMsg, Response, Shown, number, shown_info, text, unauthorized,
}

-- The difference is less than 3.
abbrev pub is_near : ℕ → ℕ → Bool
is_near a b = ltb (a - b + (b - a)) 3

abbrev pub expected_ret_amount : ℕ
expected_ret_amount = 952_380_952

-- `(offer_amount * exchange_rate).checked_sub(expected_ret_amount)`
abbrev pub expected_spread_amount : ℕ
expected_spread_amount =
    offer_amount * (20_000_000_000 * decimal_one / 30_000_000_000) / decimal_one
    - expected_ret_amount

abbrev pub expected_commission_amount : ℕ
expected_commission_amount = expected_ret_amount * 3 / 1000

abbrev pub expected_return : ℕ
expected_return = expected_ret_amount - expected_commission_amount

abbrev pub price_attributes :
    (offer_asset ask_asset : AssetInfo) → (expected_tax_amount : ℕ) → List (String × Shown)
price_attributes offer_asset ask_asset expected_tax_amount =
    ("action", text "swap")
    ∷ ("sender", text "addr0000")
    ∷ ("receiver", text "addr0000")
    ∷ ("offer_asset", shown_info offer_asset)
    ∷ ("ask_asset", shown_info ask_asset)
    ∷ ("offer_amount", number offer_amount)
    ∷ ("return_amount", number expected_return)
    ∷ ("tax_amount", number expected_tax_amount)
    ∷ ("spread_amount", number expected_spread_amount)
    ∷ ("commission_amount", number expected_commission_amount)
    ∷ []

-- What both tests assert of the simulations, before the offer came in.
abbrev pub IsSimulated :
    PairLib → WasmMockQuerier → Option PairRaw → (offer_asset ask_asset : Asset) → Type 0
IsSimulated lib querier store offer_asset ask_asset =
    let h = mock_host lib.host querier in
    (sim : Simulation) × (reverse : ReverseSimulation) × (query_simulation lib.bignum h store
        offer_asset
      ≡ ok sim)
    × (sim.return_amount ≡ expected_return)
    × (sim.commission_amount ≡ expected_commission_amount)
    × (sim.spread_amount ≡ expected_spread_amount)
    × (query_reverse_simulation lib.bignum h store ask_asset ≡ ok reverse)
    × (is_near offer_amount reverse.offer_amount ≡ true)
    × (is_near expected_commission_amount reverse.commission_amount ≡ true)
    × (is_near expected_spread_amount reverse.spread_amount ≡ true)

-- `try_native_to_token`
abbrev pub PairNativeToToken : PairLib → Type 0
PairNativeToToken lib =
    let querier =
      swap_querier (record { atomics = 0 }) (30_000_000_000 + offer_amount) 20_000_000_000
        30_000_000_000 in
    let before = with_balance querier ((mock_contract_addr, uusd_coin 30_000_000_000 ∷ []) ∷ []) in
    (store : Option PairRaw) × (res : Response) × IsPairSetUp lib querier store
    × (executed lib querier store (mock_info "addr0000" (uusd_coin offer_amount ∷ []))
          (PairExecuteMsg.swap (uusd_asset offer_amount) none none none)
        ≡ ok res)
    × IsSimulated lib before store (uusd_asset offer_amount) (token_asset expected_return)
    × (res.attributes ≡ price_attributes (native_token "uusd") (token "asset0000") 0)
    × (get_elem? res.messages 0
        ≡ some (wasm_execute "asset0000" (transfer "addr0000" expected_return) []))

-- `try_token_to_native`
abbrev pub expected_tax : ℕ
expected_tax = min 1_000_000 (expected_return - expected_return * 100 / 101)

abbrev pub PairTokenToNative : PairLib → Type 0
PairTokenToNative lib =
    let querier =
      swap_querier one_percent 20_000_000_000 (30_000_000_000 + offer_amount) 20_000_000_000 in
    let before = with_token_balances querier (
      ("liquidity0000", (mock_contract_addr, 20_000_000_000) ∷ [])
      ∷ ("asset0000", (mock_contract_addr, 30_000_000_000) ∷ [])
      ∷ []) in
    let msg : Cw20ReceiveMsg = record {
      sender = "addr0000";
      amount = offer_amount;
      msg = lib.to_binary (PairHookMsg.swap none none none);
    } in
    (store : Option PairRaw) × (res : Response) × IsPairSetUp lib querier store
    × (executed lib querier store (mock_info "addr0000" [])
          (PairExecuteMsg.swap (token_asset offer_amount) none none none)
        ≡ err unauthorized)
    × (executed lib querier store (mock_info "asset0000" []) (PairExecuteMsg.receive msg) ≡ ok res)
    × IsSimulated lib before store (token_asset offer_amount) (uusd_asset expected_return)
    × (res.attributes ≡ price_attributes (token "asset0000") (native_token "uusd") expected_tax)
    × (get_elem? res.messages 0
        ≡ some (bank_send "addr0000" (uusd_coin (expected_return - expected_tax) ∷ [])))
    × (executed lib querier store (mock_info "liquidity0000" []) (PairExecuteMsg.receive msg)
        ≡ err unauthorized)

-- `test_max_spread`
abbrev pub TestMaxSpread : Bignum → Type 0
TestMaxSpread n =
    let belief : Option Decimal = some (record { atomics = 1200 * decimal_one }) in
    (e e' : ContractError) × (assert_max_spread n belief (some one_percent) 1_200_000_000 989_999 0
      ≡ err e)
    × (assert_max_spread n belief (some one_percent) 1_200_000_000 990_000 0 ≡ ok tt)
    × (assert_max_spread n none (some one_percent) 0 989_999 10_001 ≡ err e')
    × (assert_max_spread n none (some one_percent) 0 990_000 10_000 ≡ ok tt)

-- `test_deduct`
abbrev pub TestDeduct : PairLib → Type 0
TestDeduct lib =
    let rate : Decimal = record { atomics = 2 * 10 ^ 16 } in
    let amount : ℕ = 1_000_000_000 in
    let querier =
      with_tax (mock_dependencies mock_contract_addr []) rate (("uusd", 1_000_000) ∷ []) in
    (after_amount : Coin) × (deduct_tax (mock_host lib.host querier) (uusd_asset amount)
      ≡ ok after_amount)
    × (after_amount.amount
        ≡ max (amount - amount * rate.atomics / decimal_one) (amount - 1_000_000))

-- `test_query_pool`
abbrev pub PairQueryPool : PairLib → Type 0
PairQueryPool lib =
    let querier = with_token_balances (mock_dependencies mock_contract_addr (uusd_coin 222 ∷ [])) (
      ("asset0000", (mock_contract_addr, 333) ∷ [])
      ∷ ("liquidity0000", (mock_contract_addr, 111) ∷ [])
      ∷ []) in
    (store : Option PairRaw) × (res : PairPools) × IsPairSetUp lib querier store
    × (query_pool (mock_host lib.host querier) store ≡ ok res)
    × (res.assets ≡ (uusd_asset 222, token_asset 333))
    × (res.total_share ≡ 111)

-- ===== src/Replay/Trades.antt =====
-- The swaps of contracts/terraswap_stable/src/testing.rs, and its query of the pool.
use terraswap.Prelude.{
  List, Option, String, [], err, get_elem?, none, ok, some, ℕ, ◌+◌, ◌^◌, ◌∷◌, ◌≡◌,
}
use terraswap.Asset.{AssetInfo, PairInfoRaw, native_token, token, transfer, wasm_execute}
use terraswap.Host.{Decimal}
use terraswap.Mock.{WasmMockQuerier, mock_dependencies, mock_host, with_tax, with_token_balances}
use terraswap.Replay.{
  MockLib, mock_contract_addr, mock_env, mock_info, token_asset, uusd_asset, uusd_coin,
}
use terraswap.Replay.Stable.{IsSetUp}
use terraswap.Stable.Contract.{execute, query_pool}
use terraswap.Stable.Types.{
  Cw20HookMsg, Cw20ReceiveMsg, ExecuteMsg, PoolResponse, Response, Shown, number, shown_info, text,
  unauthorized,
}

-- What the pair holds, and the liquidity tokens that are out.
abbrev pub swap_querier : (rate : Decimal) → (uusd asset lp : ℕ) → WasmMockQuerier
swap_querier rate uusd asset lp =
    with_token_balances
      (with_tax (mock_dependencies mock_contract_addr (uusd_coin uusd ∷ [])) rate
        (("uusd", 1_000_000) ∷ []))
      (("liquidity0000", (mock_contract_addr, lp) ∷ [])
        ∷ ("asset0000", (mock_contract_addr, asset) ∷ [])
        ∷ [])

abbrev pub offer_amount : ℕ
offer_amount = 1_500_000_000

abbrev pub expected_return_amount : ℕ
expected_return_amount = 1_486_872_698

abbrev pub swap_attributes : (offer_asset ask_asset : AssetInfo) → List (String × Shown)
swap_attributes offer_asset ask_asset =
    ("action", text "swap")
    ∷ ("sender", text "addr0000")
    ∷ ("receiver", text "addr0000")
    ∷ ("offer_asset", shown_info offer_asset)
    ∷ ("ask_asset", shown_info ask_asset)
    ∷ ("offer_amount", number offer_amount)
    ∷ ("return_amount", number expected_return_amount)
    ∷ []

-- `try_native_to_token`
abbrev pub TryNativeToToken : MockLib → Type 0
TryNativeToToken lib =
    let querier =
      swap_querier (record { atomics = 0 }) (30_000_000_000 + offer_amount) 20_000_000_000
        30_000_000_000 in
    (store : Option PairInfoRaw) × (res : Response) × IsSetUp lib querier (native_token "uusd")
      (token "asset0000") store
    × (execute (mock_host lib.host querier) lib.from_binary store mock_env
          (mock_info "addr0000" (uusd_coin offer_amount ∷ []))
          (ExecuteMsg.swap (uusd_asset offer_amount) (token_asset 0) 0 none)
        ≡ ok res)
    × (res.attributes ≡ swap_attributes (native_token "uusd") (token "asset0000"))
    × (get_elem? res.messages 0
        ≡ some (wasm_execute "asset0000" (transfer "addr0000" expected_return_amount) []))

-- `try_token_to_native`
abbrev pub TryTokenToNative : MockLib → Type 0
TryTokenToNative lib =
    let querier =
      swap_querier (record { atomics = 10 ^ 16 }) 20_000_000_000 (30_000_000_000 + offer_amount)
        20_000_000_000 in
    let h = mock_host lib.host querier in
    let msg : Cw20ReceiveMsg = record {
      sender = "addr0000";
      amount = offer_amount;
      msg = lib.to_binary (Cw20HookMsg.swap (uusd_asset 0) 0 none);
    } in
    (store : Option PairInfoRaw) × (res : Response) × IsSetUp lib querier (native_token "uusd")
      (token "asset0000") store
    × (execute h lib.from_binary store mock_env (mock_info "addr0000" [])
          (ExecuteMsg.swap (token_asset offer_amount) (uusd_asset 0) 0 none)
        ≡ err unauthorized)
    × (execute h lib.from_binary store mock_env (mock_info "asset0000" []) (ExecuteMsg.receive msg)
        ≡ ok res)
    × (res.attributes ≡ swap_attributes (token "asset0000") (native_token "uusd"))
    × (execute h lib.from_binary store mock_env (mock_info "liquidity0000" [])
          (ExecuteMsg.receive msg)
        ≡ err unauthorized)

-- `test_query_pool`
abbrev pub TestQueryPool : MockLib → Type 0
TestQueryPool lib =
    let querier = with_token_balances (mock_dependencies mock_contract_addr (uusd_coin 222 ∷ [])) (
      ("asset0000", (mock_contract_addr, 333) ∷ [])
      ∷ ("liquidity0000", (mock_contract_addr, 111) ∷ [])
      ∷ []) in
    (store : Option PairInfoRaw) × (res : PoolResponse) × IsSetUp lib querier (native_token "uusd")
      (token "asset0000") store
    × (query_pool (mock_host lib.host querier) store ≡ ok res)
    × (res.assets ≡ uusd_asset 222 ∷ token_asset 333 ∷ [])
    × (res.total_share ≡ 111)

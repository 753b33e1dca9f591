-- ===== src/Replay/Assets.antt =====
-- packages/terraswap/src/testing.rs, but for the query of all balances, which is a call of the library.
use terraswap.Prelude.{List, String, [], false, ok, true, ℕ, ◌^◌, ◌∷◌, ◌≡◌}
use terraswap.Asset.{
  PairInfo, bank_send, compute_tax, deduct_tax, equal, into_msg, is_native_token, native_token,
  query_balance, query_pool, query_supply, query_token_balance, token, transfer, wasm_execute,
}
use terraswap.Host.{Addr, Coin, Host}
use terraswap.Mock.{
  WasmMockQuerier, mock_dependencies, mock_host, listed_pair_answer, with_tax, with_terraswap_pairs,
  with_token_balances,
}
use terraswap.Replay.{mock_contract_addr, token_asset, uusd_asset, uusd_coin}

abbrev Mocks : Type 0
Mocks = List (Addr × List Coin) → Host

-- What four addresses have of a token.
abbrev holders : List (String × ℕ)
holders =
    (mock_contract_addr, 123) ∷ ("addr00000", 123) ∷ ("addr00001", 123) ∷ ("addr00002", 123) ∷ []

-- `token_balance_querier`
abbrev pub TokenBalanceQuerier : Mocks → Type 0
TokenBalanceQuerier lib =
    let querier =
      with_token_balances (mock_dependencies mock_contract_addr [])
        (("liquidity0000", (mock_contract_addr, 123) ∷ []) ∷ []) in
    query_token_balance (mock_host lib querier) "liquidity0000" mock_contract_addr ≡ ok 123

-- `balance_querier`
abbrev pub BalanceQuerier : Mocks → Type 0
BalanceQuerier lib =
    let querier = mock_dependencies mock_contract_addr (uusd_coin 200 ∷ []) in
    query_balance (mock_host lib querier) mock_contract_addr "uusd" ≡ ok 200

-- `supply_querier`
abbrev pub SupplyQuerier : Mocks → Type 0
SupplyQuerier lib =
    let querier =
      with_token_balances (mock_dependencies mock_contract_addr [])
        (("liquidity0000", holders) ∷ []) in
    query_supply (mock_host lib querier) "liquidity0000" ≡ ok 492

-- The chain of the two tests of assets.
abbrev asset_querier : WasmMockQuerier
asset_querier =
    with_token_balances (mock_dependencies mock_contract_addr (uusd_coin 123 ∷ []))
      (("asset0000", holders) ∷ [])

-- `test_asset_info`
abbrev pub TestAssetInfo : Mocks → Type 0
TestAssetInfo lib =
    let h = mock_host lib asset_querier in
    let token_info = token "asset0000" in
    let native_token_info = native_token "uusd" in
    (equal token_info native_token_info ≡ false)
    × (equal token_info (token "asset0001") ≡ false)
    × (equal token_info (token "asset0000") ≡ true)
    × (is_native_token native_token_info ≡ true)
    × (is_native_token token_info ≡ false)
    × (query_pool h token_info mock_contract_addr ≡ ok 123)
    × (query_pool h native_token_info mock_contract_addr ≡ ok 123)

-- `test_asset`
abbrev pub TestAsset : Mocks → Type 0
TestAsset lib =
    let querier =
      with_tax asset_querier (record { atomics = 10 ^ 16 }) (("uusd", 1_000_000) ∷ []) in
    let h = mock_host lib querier in
    (compute_tax h (token_asset 123_123) ≡ ok 0)
    × (compute_tax h (uusd_asset 123_123) ≡ ok 1220)
    × (deduct_tax h (uusd_asset 123_123) ≡ ok (uusd_coin 121_903))
    × (into_msg h (token_asset 123_123) "addr0000"
        ≡ ok (wasm_execute "asset0000" (transfer "addr0000" 123_123) []))
    × (into_msg h (uusd_asset 123_123) "addr0000"
        ≡ ok (bank_send "addr0000" (uusd_coin 121_903 ∷ [])))

-- `query_terraswap_pair_contract`
abbrev pub QueryTerraswapPairContract : Mocks → Type 0
QueryTerraswapPairContract lib =
    let pair : PairInfo = record {
      asset_infos = token "asset0000" ∷ native_token "uusd" ∷ [];
      contract_addr = "pair0000";
      liquidity_token = "liquidity0000";
      amplification = 0;
      fee = 0;
    } in
    let querier =
      with_terraswap_pairs (mock_dependencies mock_contract_addr [])
        (("asset0000uusd", pair) ∷ []) in
    (pair_info : PairInfo) × (listed_pair_answer lib querier (token "asset0000")
        (native_token "uusd")
      ≡ ok pair_info)
    × (pair_info.contract_addr ≡ "pair0000")
    × (pair_info.liquidity_token ≡ "liquidity0000")

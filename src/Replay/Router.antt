-- ===== src/Replay/Router.antt =====
-- contracts/terraswap_router/src/testing: the pairs and the market that its tests run with, and the
-- tests. What a query answers is compared before it is encoded, and the amounts in the error of the
-- minimum are left out.
use Prim.Native.String.{◌++◌ as append}
use terraswap.Prelude.{List, Option, String, [], err, none, ok, some, ℕ, ◌*◌, ◌>>=◌, ◌^◌, ◌∷◌, ◌≡◌}
use terraswap.Asset.{Asset, AssetInfo, PairInfo, native_token, token}
use terraswap.Host.{Addr, Coin, Host, StdResult, generic_err}
use terraswap.Mock.{
  WasmMockQuerier, found_or, get, mock_dependencies, mock_host, with_balance, with_tax,
  with_token_balances,
}
use terraswap.Replay.{mock_contract_addr, mock_env, mock_info, uusd_coin}
use terraswap.Router.{
  Market, RouterConfig, RouterHookMsg, RouterMsg, SwapOperation, assert_minimum_receive,
  call_router, create_swap_msg, create_swap_send_msg, hook_swap_operations, instantiate,
  native_swap, query_config, receive_hook_msg, send_token, shown, swap_operation, swap_operations,
  terra_swap,
}
use terraswap.Router.Entry.{execute, simulate_swap_operations}
use terraswap.Stable.Types.{Binary, Cw20ReceiveMsg}

pub record RouterLib : Type 0 where
  -- The libraries' mocks, and `to_binary` and `from_binary` of the router's hook messages.
  pub host : List (Addr × List Coin) → Host
  pub to_binary : RouterHookMsg → Binary
  pub from_binary : Binary → StdResult RouterHookMsg

-- `handle_query` of mock_querier.rs for the market, the factory and the pairs. The fields of the pair
-- that the router's package does not have are 0.
unfoldable pub swap_answer : Coin → String → StdResult ℕ
swap_answer offer_coin ask_denom = ok offer_coin.amount

unfoldable pub pair_of : List (String × String) → AssetInfo → AssetInfo → StdResult PairInfo
pair_of pairs first second = do
  contract_addr ← found_or (get (append (shown first) (shown second)) pairs)
  ok (record {
    asset_infos = native_token "uusd" ∷ native_token "uusd" ∷ [];
    contract_addr = contract_addr;
    liquidity_token = "liquidity";
    amplification = 0;
    fee = 0;
  })

unfoldable pub simulation_answer : String → Asset → StdResult ℕ
simulation_answer contract_addr offer_asset = ok offer_asset.amount

abbrev pub mock_market : List (String × String) → Market
mock_market pairs = record {
  query_pair = λ factory_contract. pair_of pairs;
  query_swap = swap_answer;
  simulation = simulation_answer;
}

abbrev pub no_coins : WasmMockQuerier
no_coins = mock_dependencies mock_contract_addr []

-- The chain where the router is set up.
abbrev pub IsRouterSetUp : RouterLib → Option RouterConfig → Type 0
IsRouterSetUp lib store = instantiate (mock_host lib.host no_coins) "terraswapfactory" ≡ ok store

-- `proper_initialization`
abbrev pub RouterInitialization : RouterLib → Type 0
RouterInitialization lib =
    (store : Option RouterConfig) × IsRouterSetUp lib store
    × (query_config (mock_host lib.host no_coins) store ≡ ok "terraswapfactory")

abbrev pub four_operations : List SwapOperation
four_operations =
    native_swap "uusd" "ukrw"
    ∷ terra_swap (native_token "ukrw") (token "asset0001")
    ∷ terra_swap (token "asset0001") (native_token "uluna")
    ∷ terra_swap (native_token "uluna") (token "asset0002")
    ∷ []

-- The messages for the four operations.
abbrev pub four_messages : (to : String) → List RouterMsg → List RouterMsg
four_messages to rest =
    call_router mock_contract_addr (swap_operation (native_swap "uusd" "ukrw") none)
    ∷ call_router mock_contract_addr
        (swap_operation (terra_swap (native_token "ukrw") (token "asset0001")) none)
    ∷ call_router mock_contract_addr
        (swap_operation (terra_swap (token "asset0001") (native_token "uluna")) none)
    ∷ call_router mock_contract_addr
        (swap_operation (terra_swap (native_token "uluna") (token "asset0002")) (some to))
    ∷ rest

-- `execute_swap_operations`
abbrev pub ExecuteSwapOperations : RouterLib → Type 0
ExecuteSwapOperations lib =
    let querier =
      with_token_balances no_coins (("asset0002", (mock_contract_addr, 1_000_000) ∷ []) ∷ []) in
    let h = mock_host lib.host querier in
    let hook : Cw20ReceiveMsg = record {
      sender = "addr0000";
      amount = 1_000_000;
      msg = lib.to_binary (hook_swap_operations four_operations none (some "addr0002"));
    } in
    (store : Option RouterConfig) × IsRouterSetUp lib store
    × (execute h (mock_market []) store lib.from_binary mock_env (mock_info "addr0000" [])
          (swap_operations [] none none)
        ≡ err (generic_err "must provide operations"))
    × (execute h (mock_market []) store lib.from_binary mock_env (mock_info "addr0000" [])
          (swap_operations four_operations (some 1_000_000) none)
        ≡ ok (
            four_messages "addr0000" (
              call_router mock_contract_addr
                (assert_minimum_receive (token "asset0002") 0 1_000_000 "addr0000")
              ∷ [])))
    × (execute h (mock_market []) store lib.from_binary mock_env (mock_info "asset0000" [])
          (receive_hook_msg hook)
        ≡ ok (four_messages "addr0002" []))

-- `execute_swap_operation`
abbrev pub ExecuteSwapOperation : RouterLib → Type 0
ExecuteSwapOperation lib =
    let querier =
      with_balance (with_tax no_coins (record { atomics = 5 * 10 ^ 16 }) (("uusd", 1_000_000) ∷ []))
        ((mock_contract_addr, uusd_coin 1_000_000 ∷ []) ∷ []) in
    let h = mock_host lib.host querier in
    let with_asset =
      mock_host lib.host
        (with_token_balances querier (("asset", (mock_contract_addr, 1_000_000) ∷ []) ∷ [])) in
    let asset : Asset = record { info = token "asset"; amount = 1_000_000 } in
    let first = mock_market (("uusdasset", "pair") ∷ []) in
    let second = mock_market (("assetuusd", "pair") ∷ []) in
    (store : Option RouterConfig) × IsRouterSetUp lib store
    × (execute h first store lib.from_binary mock_env (mock_info "addr0000" [])
          (swap_operation (native_swap "uusd" "uluna") none)
        ≡ err (generic_err "unauthorized"))
    × (execute h first store lib.from_binary mock_env (mock_info mock_contract_addr [])
          (swap_operation (native_swap "uusd" "uluna") none)
        ≡ ok (create_swap_msg (uusd_coin 1_000_000) "uluna" ∷ []))
    × (execute h first store lib.from_binary mock_env (mock_info mock_contract_addr [])
          (swap_operation (native_swap "uusd" "uluna") (some "addr0000"))
        ≡ ok (create_swap_send_msg "addr0000" (uusd_coin 952_380) "uluna" ∷ []))
    × (execute with_asset second store lib.from_binary mock_env (mock_info mock_contract_addr [])
          (swap_operation (terra_swap (token "asset") (native_token "uusd")) (some "addr0000"))
        ≡ ok (
            send_token "asset" "pair" 1_000_000 (record {
              offer_asset = asset;
              belief_price = none;
              max_spread = none;
              to = some "addr0000";
            })
            ∷ []))

-- `query_buy_with_routes`
abbrev pub QueryBuyWithRoutes : RouterLib → Type 0
QueryBuyWithRoutes lib =
    let h = mock_host lib.host (
      with_tax no_coins (record { atomics = 5 * 10 ^ 16 })
        (("uusd", 1_000_000) ∷ ("ukrw", 1_000_000) ∷ [])) in
    let market =
      mock_market (("ukrwasset0000", "pair0000") ∷ ("asset0000uluna", "pair0001") ∷ []) in
    (store : Option RouterConfig) × IsRouterSetUp lib store
    × (simulate_swap_operations h market store 1_000_000 (
          native_swap "uusd" "ukrw"
          ∷ terra_swap (native_token "ukrw") (token "asset0000")
          ∷ terra_swap (token "asset0000") (native_token "uluna")
          ∷ [])
        ≡ ok 952_380)
    × (simulate_swap_operations h market store 1_000_000
          (native_swap "uusd" "ukrw" ∷ native_swap "ukrw" "uluna" ∷ [])
        ≡ ok 952_380)

-- What the two tests of the minimum assert, for what the receiver holds 1_000_000 of.
abbrev pub IsMinimumChecked : RouterLib → WasmMockQuerier → AssetInfo → Type 0
IsMinimumChecked lib querier asset_info =
    let h = mock_host lib.host querier in
    (messages : List RouterMsg) × (execute h (mock_market []) none lib.from_binary mock_env
        (mock_info "addr0000" []) (assert_minimum_receive asset_info 0 1_000_000 "addr0000")
      ≡ ok messages)
    × (execute h (mock_market []) none lib.from_binary mock_env (mock_info "addr0000" [])
          (assert_minimum_receive asset_info 0 1_000_001 "addr0000")
        ≡ err (generic_err "assertion failed; minimum receive amount"))

-- `assert_minimum_receive_native_token`
abbrev pub MinimumReceiveNativeToken : RouterLib → Type 0
MinimumReceiveNativeToken lib =
    IsMinimumChecked lib (with_balance no_coins (("addr0000", uusd_coin 1_000_000 ∷ []) ∷ []))
      (native_token "uusd")

-- `assert_minimum_receive_token`
abbrev pub MinimumReceiveToken : RouterLib → Type 0
MinimumReceiveToken lib =
    IsMinimumChecked lib
      (with_token_balances no_coins (("token0000", ("addr0000", 1_000_000) ∷ []) ∷ []))
      (token "token0000")

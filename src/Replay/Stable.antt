-- ===== src/Replay/Stable.antt =====
-- contracts/terraswap_stable/src/testing.rs
use terraswap.Prelude.{Option, [], err, get_elem?, none, ok, some, ℕ, ◌∷◌, ◌≡◌}
use terraswap.Asset.{
  AssetInfo, PairInfo, PairInfoRaw, bank_send, burn, mint, native_token, token, transfer,
  transfer_from, wasm_execute,
}
use terraswap.Host.{MessageInfo, generic_err}
use terraswap.Mock.{
  WasmMockQuerier, mock_dependencies, mock_host, with_balance, with_tax, with_token_balances,
}
use terraswap.Replay.{
  MockLib, mock_contract_addr, mock_env, mock_info, reply_data, token_asset, uusd_asset, uusd_coin,
}
use terraswap.Stable.Contract.{execute, instantiate, query_pair_info, reply}
use terraswap.Stable.Types.{
  ContractError, Cw20HookMsg, Cw20ReceiveMsg, ExecuteMsg, InstantiateMsg, Response,
  max_slippage_assertion, number, std,
}
use terraswap.Token.{ascii}

abbrev pub instantiate_msg : AssetInfo → AssetInfo → InstantiateMsg
instantiate_msg first second = record {
  asset_infos = first ∷ second ∷ [];
  amplification = 60;
  fee = 4;
  token_code_id = 10;
}

-- `instantiate` and `reply` succeed, and leave `store`.
abbrev pub IsSetUp :
    MockLib → WasmMockQuerier → (first second : AssetInfo) → Option PairInfoRaw → Type 0
IsSetUp lib querier first second store =
    let h = mock_host lib.host querier in
    (made replied : Option PairInfoRaw × Response) × (instantiate h mock_env
        (instantiate_msg first second)
      ≡ ok made)
    × (reply h lib.parse_reply made.0 (some (some reply_data)) ≡ ok replied)
    × (store ≡ replied.0)

-- `proper_initialization`
abbrev pub ProperInitialization : MockLib → Type 0
ProperInitialization lib =
    let h = mock_host lib.host (mock_dependencies mock_contract_addr []) in
    (made replied : Option PairInfoRaw × Response) × (pair_info : PairInfo) × (instantiate h
        mock_env (instantiate_msg (native_token "uusd") (token "asset0000"))
      ≡ ok made)
    × (made.1.submessages
        ≡ record {
          id = 1;
          code_id = 10;
          msg = record {
            name = ascii "terraswap liquidity token";
            symbol = ascii "uLP";
            decimals = 6;
            initial_balances = [];
            mint = some (record { minter = mock_contract_addr; cap = none });
          };
        }
          ∷ [])
    × (reply h lib.parse_reply made.0 (some (some reply_data)) ≡ ok replied)
    × (query_pair_info h replied.0 ≡ ok pair_info)
    × (pair_info.liquidity_token ≡ "liquidity0000")
    × (pair_info.asset_infos ≡ native_token "uusd" ∷ token "asset0000" ∷ [])

-- The chain of `provide_liquidity`: what the pair holds, and the liquidity tokens that are out.
abbrev pub provide_querier : (uusd asset lp : ℕ) → WasmMockQuerier
provide_querier uusd asset lp =
    with_token_balances (mock_dependencies mock_contract_addr (uusd_coin uusd ∷ [])) (
      ("liquidity0000", (mock_contract_addr, lp) ∷ [])
      ∷ ("asset0000", (mock_contract_addr, asset) ∷ [])
      ∷ [])

-- The first part of `provide_liquidity`: the chain before any deposit, where the token knows no
-- balances.
abbrev pub ProvideFirst : MockLib → Type 0
ProvideFirst lib =
    let querier =
      with_token_balances (mock_dependencies mock_contract_addr (uusd_coin 100 ∷ []))
        (("liquidity0000", (mock_contract_addr, 0) ∷ []) ∷ ("asset0000", []) ∷ []) in
    let h = mock_host lib.host querier in
    (store : Option PairInfoRaw) × (res : Response) × IsSetUp lib querier (token "asset0000")
      (native_token "uusd") store
    × (execute h lib.from_binary store mock_env (mock_info "addr0000" (uusd_coin 100 ∷ []))
          (ExecuteMsg.provide_liquidity (token_asset 100 ∷ uusd_asset 100 ∷ []) 0 none)
        ≡ ok res)
    × (get_elem? res.messages 0
        ≡ some (wasm_execute "asset0000" (transfer_from "addr0000" mock_contract_addr 100) []))
    × (get_elem? res.messages 1 ≡ some (wasm_execute "liquidity0000" (mint "addr0000" 200) []))

-- The chain of the later parts, where the pair was set up with no deposit made.
abbrev pub later_querier : (before uusd asset lp : ℕ) → WasmMockQuerier
later_querier before uusd asset lp =
    with_balance (provide_querier before asset lp) ((mock_contract_addr, uusd_coin uusd ∷ []) ∷ [])

abbrev pub IsRefused :
    MockLib
    → WasmMockQuerier
    → Option PairInfoRaw
    → MessageInfo
    → ExecuteMsg
    → ContractError
    → Type 0
IsRefused lib querier store info msg error =
    execute (mock_host lib.host querier) lib.from_binary store mock_env info msg ≡ err error

abbrev pub IsAccepted :
    MockLib → WasmMockQuerier → Option PairInfoRaw → MessageInfo → ExecuteMsg → Type 0
IsAccepted lib querier store info msg =
    (res : Response) × (execute (mock_host lib.host querier) lib.from_binary store mock_env info msg
      ≡ ok res)

abbrev pub provide_msg : (asset uusd min_out_amount : ℕ) → ExecuteMsg
provide_msg asset uusd min_out_amount =
    ExecuteMsg.provide_liquidity (token_asset asset ∷ uusd_asset uusd ∷ []) min_out_amount none

-- The rest of `provide_liquidity`: a wrong argument, and deposits below and within the minimum.
abbrev pub ProvideMismatch : MockLib → Option PairInfoRaw → Type 0
ProvideMismatch lib store =
    IsRefused lib (later_querier 100 400 200 100) store (mock_info "addr0000" (uusd_coin 100 ∷ []))
      (provide_msg 100 50 0)
      (std (generic_err "Native token balance mismatch between the argument and the transferred"))

abbrev pub ProvideSlippage : MockLib → Option PairInfoRaw → Type 0
ProvideSlippage lib store =
    IsRefused lib (later_querier 100 200 100 100) store (mock_info "addr0001" (uusd_coin 100 ∷ []))
      (provide_msg 98 100 200) max_slippage_assertion
    × IsRefused lib (later_querier 100 198 100 100) store (mock_info "addr0001" (uusd_coin 98 ∷ []))
        (provide_msg 100 98 200) max_slippage_assertion

abbrev pub ProvideAccepted : MockLib → Option PairInfoRaw → Type 0
ProvideAccepted lib store =
    IsAccepted lib (later_querier 100 200 100 100) store (mock_info "addr0001" (uusd_coin 100 ∷ []))
      (provide_msg 99 100 0)
    × IsAccepted lib (later_querier 100 199 100 100) store
        (mock_info "addr0001" (uusd_coin 99 ∷ [])) (provide_msg 100 99 0)

-- `withdraw_liquidity`
abbrev pub WithdrawLiquidity : MockLib → Type 0
WithdrawLiquidity lib =
    let querier =
      with_token_balances
        (with_tax (mock_dependencies mock_contract_addr (uusd_coin 100 ∷ []))
          (record { atomics = 0 }) (("uusd", 1_000_000) ∷ []))
        (("liquidity0000", ("addr0000", 100) ∷ [])
          ∷ ("asset0000", (mock_contract_addr, 100) ∷ [])
          ∷ []) in
    let msg : Cw20ReceiveMsg = record {
      sender = "addr0000";
      amount = 100;
      msg = lib.to_binary Cw20HookMsg.withdraw_liquidity;
    } in
    (store : Option PairInfoRaw) × (res : Response) × IsSetUp lib querier (native_token "uusd")
      (token "asset0000") store
    × (execute (mock_host lib.host querier) lib.from_binary store mock_env
          (mock_info "liquidity0000" []) (ExecuteMsg.receive msg)
        ≡ ok res)
    × (get_elem? res.messages 0 ≡ some (bank_send "addr0000" (uusd_coin 100 ∷ [])))
    × (get_elem? res.messages 1 ≡ some (wasm_execute "asset0000" (transfer "addr0000" 100) []))
    × (get_elem? res.messages 2 ≡ some (wasm_execute "liquidity0000" (burn 100) []))
    × (get_elem? res.attributes 2 ≡ some ("withdrawn_share", number 100))

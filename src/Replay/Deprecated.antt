-- ===== src/Replay/Deprecated.antt =====
-- contracts/terraswap_pair_deprecated/src/testing.rs
use terraswap.Prelude.{
  List, Option, Outcome, String, [], err, get_elem?, none, ok, some, ℕ, ◌^◌, ◌∷◌, ◌≡◌,
}
use terraswap.Asset.{
  AssetInfo, bank_send, burn, mint, native_token, token, transfer, transfer_from, wasm_execute,
}
use terraswap.Deprecated.Bignum.{Bignum}
use terraswap.Deprecated.Entry.{execute}
use terraswap.Deprecated.Pair.{instantiate, query_pair_info, reply}
use terraswap.Deprecated.Types.{PairExecuteMsg, PairHookMsg, PairRaw, PairView}
use terraswap.Host.{Addr, Coin, Decimal, Host, MessageInfo, StdResult, generic_err}
use terraswap.Mock.{WasmMockQuerier, mock_dependencies, mock_host, with_tax, with_token_balances}
use terraswap.Replay.{
  mock_contract_addr, mock_env, mock_info, reply_data, token_asset, uusd_asset, uusd_coin,
}
use terraswap.Replay.Stable.{later_querier}
use terraswap.Stable.Types.{
  Binary, ContractError, Cw20ReceiveMsg, Response, max_slippage_assertion, number, shown_assets,
  std,
}
use terraswap.Token.{ascii}

pub record PairLib : Type 0 where
  -- The libraries' mocks and numbers, for the coins that `MockQuerier` was given.
  pub host : List (Addr × List Coin) → Host
  pub bignum : Bignum
  -- The decoding of a reply, and `to_binary` and `from_binary` of the pair's hook messages.
  pub parse_reply : Binary → Option String
  pub to_binary : PairHookMsg → Binary
  pub from_binary : Binary → StdResult PairHookMsg

abbrev pub pair_infos : AssetInfo × AssetInfo
pair_infos = (native_token "uusd", token "asset0000")

-- `instantiate` and `reply` succeed, and leave `store`.
abbrev pub IsPairSetUp : PairLib → WasmMockQuerier → Option PairRaw → Type 0
IsPairSetUp lib querier store =
    let h = mock_host lib.host querier in
    (made replied : Option PairRaw × Response) × (instantiate h mock_env pair_infos 10 ≡ ok made)
    × (reply h lib.parse_reply made.0 (some (some reply_data)) ≡ ok replied)
    × (store ≡ replied.0)

-- `proper_initialization`
abbrev pub PairInitialization : PairLib → Type 0
PairInitialization lib =
    let h = mock_host lib.host (mock_dependencies mock_contract_addr []) in
    (made replied : Option PairRaw × Response) × (pair_info : PairView) × (instantiate h mock_env
        pair_infos 10
      ≡ ok made)
    × (made.1.submessages
        ≡ record {
          id = 1;
          code_id = 10;
          msg = record {
            name = ascii "terraswap liquidity token";
            symbol = ascii "uLP";
            decimals = 6;
            initial_balances = [];
            mint = some (record { minter = mock_contract_addr; cap = none });
          };
        }
          ∷ [])
    × (reply h lib.parse_reply made.0 (some (some reply_data)) ≡ ok replied)
    × (query_pair_info h replied.0 ≡ ok pair_info)
    × (pair_info.liquidity_token ≡ "liquidity0000")
    × (pair_info.asset_infos ≡ pair_infos)

-- The message, sent when the pair holds what `querier` says.
abbrev pub executed :
    PairLib
    → WasmMockQuerier
    → Option PairRaw
    → MessageInfo
    → PairExecuteMsg
    → Outcome ContractError Response
executed lib querier store info msg =
    execute lib.bignum (mock_host lib.host querier) lib.from_binary store mock_env info msg

abbrev pub one_percent : Decimal
one_percent = record { atomics = 10 ^ 16 }

-- The first part of `provide_liquidity`: the first deposit, and one of which a part is a gift.
abbrev pub PairProvideFirst : PairLib → Option PairRaw → Type 0
PairProvideFirst lib store =
    let querier =
      with_token_balances (mock_dependencies mock_contract_addr (uusd_coin 200 ∷ []))
        (("liquidity0000", (mock_contract_addr, 0) ∷ []) ∷ ("asset0000", []) ∷ []) in
    (res : Response) × IsPairSetUp lib querier store
    × (executed lib querier store (mock_info "addr0000" (uusd_coin 100 ∷ []))
          (PairExecuteMsg.provide_liquidity (token_asset 100, uusd_asset 100) none none)
        ≡ ok res)
    × (get_elem? res.messages 0
        ≡ some (wasm_execute "asset0000" (transfer_from "addr0000" mock_contract_addr 100) []))
    × (get_elem? res.messages 1 ≡ some (wasm_execute "liquidity0000" (mint "addr0000" 100) []))

abbrev pub PairProvideMore : PairLib → Option PairRaw → Type 0
PairProvideMore lib store =
    let querier = later_querier 200 400 200 100 in
    (res : Response) × (executed lib querier store (mock_info "addr0000" (uusd_coin 200 ∷ [])) (
        PairExecuteMsg.provide_liquidity (token_asset 100, uusd_asset 200) none
          (some "staking0000"))
      ≡ ok res)
    × (get_elem? res.messages 0
        ≡ some (wasm_execute "asset0000" (transfer_from "addr0000" mock_contract_addr 100) []))
    × (get_elem? res.messages 1 ≡ some (wasm_execute "liquidity0000" (mint "staking0000" 50) []))
    × (executed lib querier store (mock_info "addr0000" (uusd_coin 100 ∷ []))
          (PairExecuteMsg.provide_liquidity (token_asset 100, uusd_asset 50) none none)
        ≡ err (
            std (
              generic_err
                "Native token balance mismatch between the argument and the transferred")))

-- The rest of `provide_liquidity`: deposits beyond and within the slippage tolerance.
abbrev pub tolerant : (asset uusd : ℕ) → PairExecuteMsg
tolerant asset uusd =
    PairExecuteMsg.provide_liquidity (token_asset asset, uusd_asset uusd) (some one_percent) none

abbrev pub PairProvideSlippage : PairLib → Option PairRaw → Type 0
PairProvideSlippage lib store =
    (executed lib (later_querier 200 200 100 100) store (mock_info "addr0001" (uusd_coin 100 ∷ []))
        (tolerant 98 100)
      ≡ err max_slippage_assertion)
    × (executed lib (later_querier 200 198 100 100) store (mock_info "addr0001" (uusd_coin 98 ∷ []))
          (tolerant 100 98)
        ≡ err max_slippage_assertion)

abbrev pub PairProvideAccepted : PairLib → Option PairRaw → Type 0
PairProvideAccepted lib store =
    (first second : Response) × (executed lib (later_querier 200 200 100 100) store
        (mock_info "addr0001" (uusd_coin 100 ∷ [])) (tolerant 99 100)
      ≡ ok first)
    × (executed lib (later_querier 200 199 100 100) store (mock_info "addr0001" (uusd_coin 99 ∷ []))
          (tolerant 100 99)
        ≡ ok second)

-- `withdraw_liquidity`
abbrev pub PairWithdraw : PairLib → Type 0
PairWithdraw lib =
    let querier =
      with_token_balances
        (with_tax (mock_dependencies mock_contract_addr (uusd_coin 100 ∷ []))
          (record { atomics = 0 }) (("uusd", 1_000_000) ∷ []))
        (("liquidity0000", ("addr0000", 100) ∷ [])
          ∷ ("asset0000", (mock_contract_addr, 100) ∷ [])
          ∷ []) in
    let msg : Cw20ReceiveMsg = record {
      sender = "addr0000";
      amount = 100;
      msg = lib.to_binary PairHookMsg.withdraw_liquidity;
    } in
    (store : Option PairRaw) × (res : Response) × IsPairSetUp lib querier store
    × (executed lib querier store (mock_info "liquidity0000" []) (PairExecuteMsg.receive msg)
        ≡ ok res)
    × (get_elem? res.attributes 2 ≡ some ("withdrawn_share", number 100))
    × (get_elem? res.attributes 3
        ≡ some ("refund_assets", shown_assets (uusd_asset 100) (token_asset 100)))
    × (get_elem? res.messages 0 ≡ some (bank_send "addr0000" (uusd_coin 100 ∷ [])))
    × (get_elem? res.messages 1 ≡ some (wasm_execute "asset0000" (transfer "addr0000" 100) []))
    × (get_elem? res.messages 2 ≡ some (wasm_execute "liquidity0000" (burn 100) []))

-- ===== src/Tests/Calls.antt =====
-- Calls of contracts/terraswap_stable/src/contract.rs by the liquidity token, and the set-up of a pair.
use terraswap.Prelude.{List, Option, String, [], arith, none, ok, refl, some, ◌∷◌, ◌≡◌}
use terraswap.Asset.{
  Asset, PairInfoRaw, bank_send, burn, mint, native_token, query_supply, token, transfer,
  transfer_from, wasm_execute,
}
use terraswap.Host.{MessageInfo, StdResult}
use terraswap.Stable.Contract.{instantiate, query_pair_info, receive_cw20, reply}
use terraswap.Stable.Contract.Access.{IsAuthorized, receive_cw20-IsAuthorized}
use terraswap.Stable.Contract.Refund.{PaysSender, single_refund_recipient}
use terraswap.Stable.Contract.Setup.{query_pair_info-reply}
use terraswap.Stable.Provide.{provide_liquidity}
use terraswap.Stable.Provide.Deposited.{IsDeposited, provide_liquidity-IsDeposited}
use terraswap.Stable.Types.{
  Binary, Cw20HookMsg, Cw20ReceiveMsg, InstantiateMsg, Response, number, shown_asset, text,
}
use terraswap.Stable.Withdraw.{withdraw_liquidity}
use terraswap.Stable.Withdraw.ProRata.{IsPaidOut, withdraw_liquidity-IsRefund}
use terraswap.Tests.Host.{sample_host, sample_host-IsAddress, sample_host-IsUint128}
use terraswap.Tests.Pair.{
  coin_asset, pair_code, pools_run, sample_env, sample_pair, sample_pools, sender_info, uusd,
  uusd_message,
}
use terraswap.Token.{ascii}

-- Every hook message is read as a withdrawal of the native coin.
abbrev single_hook : Binary → StdResult Cw20HookMsg
single_hook bytes = ok (Cw20HookMsg.withdraw_single_liquidity (uusd 0) 10)

abbrev lp_info : MessageInfo
lp_info = sender_info "lp" []

abbrev lp_msg : Cw20ReceiveMsg
lp_msg = record { sender = "holder"; amount = 1000; msg = [] }

-- 989 of the 999 that the curve gives: the rest is the tax.
abbrev single_response : Response
single_response = record {
  messages =
      bank_send "lp" (record { denom = "uusd"; amount = 989 } ∷ [])
      ∷ wasm_execute "lp" (burn 1000) []
      ∷ [];
  submessages = [];
  attributes =
      ("action", text "withdraw_single_liquidity")
      ∷ ("sender", text "lp")
      ∷ ("withdrawn_share", number 1000)
      ∷ ("refund_asset", shown_asset (uusd 999))
      ∷ [];
}

single_call :
    receive_cw20 sample_host single_hook (some sample_pair) sample_env lp_info lp_msg
    ≡ ok single_response
unfolding pair_code
single_call = refl

single_refund_recipient_example :
    PaysSender sample_host sample_pair sample_env (uusd 0) 10 "lp" 1000 single_response
single_refund_recipient_example =
    single_refund_recipient sample_host single_hook sample_pair sample_env lp_info lp_msg (uusd 0)
      10 refl single_call

receive_cw20-IsAuthorized_example :
    (hook : Cw20HookMsg) × (single_hook [] ≡ ok hook)
    × IsAuthorized sample_host sample_pair sample_env "lp" hook
receive_cw20-IsAuthorized_example =
    receive_cw20-IsAuthorized sample_host single_hook sample_pair sample_env lp_info lp_msg
      single_call

abbrev withdraw_response : Response
withdraw_response = record {
  messages =
      wasm_execute "coin" (transfer "holder" 500) []
      ∷ bank_send "holder" (record { denom = "uusd"; amount = 495 } ∷ [])
      ∷ wasm_execute "lp" (burn 1000) []
      ∷ [];
  submessages = [];
  attributes =
      ("action", text "withdraw_liquidity")
      ∷ ("sender", text "holder")
      ∷ ("withdrawn_share", number 1000)
      ∷ [];
}

withdraw_run :
    withdraw_liquidity sample_host (some sample_pair) sample_env "holder" 1000
    ≡ ok withdraw_response
unfolding pair_code
withdraw_run = refl

supply_run : query_supply sample_host "lp" ≡ ok 2_000_000
unfolding pair_code
supply_run = refl

withdraw_liquidity-IsRefund_example :
    IsPaidOut sample_host "holder" "lp" 1000 2_000_000 sample_pools withdraw_response
withdraw_liquidity-IsRefund_example =
    withdraw_liquidity-IsRefund sample_host sample_host-IsUint128 sample_pair sample_env "holder"
      "lp" 1000 2_000_000 sample_pools refl pools_run supply_run (omega arith) (omega arith)
      (omega arith, (omega arith, tt)) withdraw_run

abbrev sample_msg : InstantiateMsg
sample_msg = record {
  asset_infos = token "coin" ∷ native_token "uusd" ∷ [];
  amplification = 60;
  fee = 4;
  token_code_id = 7;
}

abbrev made_store : Option PairInfoRaw
made_store = some (record sample_pair { liquidity_token = [] })

abbrev made_response : Response
made_response = record {
  messages = [];
  submessages =
      record {
        id = 1;
        code_id = 7;
        msg = record {
          name = ascii "terraswap liquidity token";
          symbol = ascii "uLP";
          decimals = 6;
          initial_balances = [];
          mint = some (record { minter = "pair"; cap = none });
        };
      }
      ∷ [];
  attributes = [];
}

instantiate_run : instantiate sample_host sample_env sample_msg ≡ ok (made_store, made_response)
unfolding pair_code
instantiate_run = refl

abbrev parse_lp : Binary → Option String
parse_lp bytes = some "lp"

abbrev reply_response : Response
reply_response = record {
  messages = [];
  submessages = [];
  attributes = ("liquidity_token_addr", text "lp") ∷ [];
}

reply_run :
    reply sample_host parse_lp made_store (some (some [])) ≡ ok (some sample_pair, reply_response)
unfolding pair_code
reply_run = refl

query_pair_info-reply_example :
    query_pair_info sample_host (some sample_pair)
    ≡ ok (record {
      asset_infos = token "coin" ∷ native_token "uusd" ∷ [];
      contract_addr = "pair";
      liquidity_token = "lp";
      amplification = 60;
      fee = 4;
    })
query_pair_info-reply_example =
    query_pair_info-reply sample_host sample_host-IsAddress parse_lp sample_env sample_msg [] "lp"
      instantiate_run refl reply_run

abbrev deposit_assets : List Asset
deposit_assets = coin_asset 1000 ∷ uusd 1000 ∷ []

abbrev deposit_response : Response
deposit_response = record {
  messages =
      wasm_execute "coin" (transfer_from "trader" "pair" 1000) []
      ∷ wasm_execute "lp" (mint "trader" 2001) []
      ∷ [];
  submessages = [];
  attributes =
      ("action", text "provide_liquidity")
      ∷ ("sender", text "trader")
      ∷ ("receiver", text "trader")
      ∷ ("share", number 2001)
      ∷ [];
}

provide_run :
    provide_liquidity sample_host
      (some sample_pair)
      sample_env
      uusd_message
      deposit_assets
      1500
      none
    ≡ ok deposit_response
unfolding pair_code
provide_run = refl

provide_liquidity-IsDeposited_example :
    IsDeposited sample_host sample_pair sample_env uusd_message deposit_assets 1500 "trader"
      deposit_response
provide_liquidity-IsDeposited_example =
    provide_liquidity-IsDeposited sample_host sample_host-IsUint128 sample_pair sample_env
      uusd_message deposit_assets 1500 none provide_run

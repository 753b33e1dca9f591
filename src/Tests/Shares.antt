-- ===== src/Tests/Shares.antt =====
-- Deposits and withdrawals of contracts/terraswap_pair_deprecated/src/contract.rs.
use terraswap.Prelude.{[], arith, none, ok, refl, some, ◌∷◌, ◌≡◌}
use terraswap.Asset.{bank_send, burn, mint, query_supply, transfer, transfer_from, wasm_execute}
use terraswap.Deprecated.Entry.{execute}
use terraswap.Deprecated.Entry.Authority.{IsAllowed, execute-IsAllowed}
use terraswap.Deprecated.Provide.{provide_liquidity, withdraw_liquidity}
use terraswap.Deprecated.Provide.Refunded.{IsRefunded, withdraw_liquidity-IsRefunded}
use terraswap.Deprecated.Types.{PairExecuteMsg, PairHookMsg}
use terraswap.Host.{StdResult}
use terraswap.Stable.Types.{Binary, Cw20ReceiveMsg, Response, number, shown_assets, text}
use terraswap.Tests.Bignum.{sample_bignum}
use terraswap.Tests.Deprecated.{both_pools, both_run, deprecated_code, one_percent, sample_raw}
use terraswap.Tests.Host.{sample_host, sample_host-IsUint128}
use terraswap.Tests.Pair.{coin_asset, sample_env, sender_info, uusd, uusd_message}

abbrev pub deposit_response : Response
deposit_response = record {
  messages =
      wasm_execute "coin" (transfer_from "trader" "pair" 1000) []
      ∷ wasm_execute "lp" (mint "trader" 2000) []
      ∷ [];
  submessages = [];
  attributes =
      ("action", text "provide_liquidity")
      ∷ ("sender", text "trader")
      ∷ ("receiver", text "trader")
      ∷ ("assets", shown_assets (uusd 1000) (coin_asset 1000))
      ∷ ("share", number 2000)
      ∷ [];
}

pub deposit_run :
    provide_liquidity sample_bignum sample_host
      (some sample_raw)
      sample_env
      uusd_message
      (uusd 1000, coin_asset 1000)
      one_percent
      none
    ≡ ok deposit_response
unfolding deprecated_code
deposit_run = refl

abbrev pub refund_response : Response
refund_response = record {
  messages =
      wasm_execute "coin" (transfer "trader" 500) []
      ∷ bank_send "trader" (record { denom = "uusd"; amount = 495 } ∷ [])
      ∷ wasm_execute "lp" (burn 1000) []
      ∷ [];
  submessages = [];
  attributes =
      ("action", text "withdraw_liquidity")
      ∷ ("sender", text "trader")
      ∷ ("withdrawn_share", number 1000)
      ∷ ("refund_assets", shown_assets (coin_asset 500) (uusd 500))
      ∷ [];
}

pub refund_run :
    withdraw_liquidity sample_host (some sample_raw) sample_env "trader" 1000 ≡ ok refund_response
unfolding deprecated_code
refund_run = refl

pub supply_run : query_supply sample_host "lp" ≡ ok 2_000_000
unfolding deprecated_code
supply_run = refl

withdraw_liquidity-IsRefunded_example :
    IsRefunded sample_host "trader" "lp" 1000 2_000_000 both_pools refund_response
withdraw_liquidity-IsRefunded_example =
    withdraw_liquidity-IsRefunded sample_host sample_host-IsUint128 sample_raw sample_env "trader"
      "lp" 1000 2_000_000 both_pools refl both_run supply_run (omega arith) (omega arith)
      (omega arith) (omega arith) refund_run

abbrev decode_withdrawal : Binary → StdResult PairHookMsg
decode_withdrawal bytes = ok PairHookMsg.withdraw_liquidity

abbrev hook_msg : Cw20ReceiveMsg
hook_msg = record { sender = "trader"; amount = 1000; msg = [] }

hook_run :
    execute sample_bignum sample_host decode_withdrawal
      (some sample_raw)
      sample_env
      (sender_info "lp" [])
      (PairExecuteMsg.receive hook_msg)
    ≡ ok refund_response
unfolding deprecated_code
hook_run = refl

execute-IsAllowed_example :
    IsAllowed sample_host decode_withdrawal sample_raw sample_env "lp"
      (PairExecuteMsg.receive hook_msg)
execute-IsAllowed_example =
    execute-IsAllowed sample_bignum sample_host decode_withdrawal sample_raw sample_env
      (sender_info "lp" []) (PairExecuteMsg.receive hook_msg) hook_run

-- ===== src/Tests/Router.antt =====
-- Runs of contracts/terraswap_router/src.
use terraswap.Prelude.{All, List, Option, [], none, ok, refl, some, ◌++◌, ◌∷◌, ◌≡◌}
use terraswap.Asset.{native_token, query_pool, token}
use terraswap.Router.{
  Market, RouterConfig, RouterMsg, SwapOperation, assert_minimum_receive, assert_minium_receive,
  assert_operations, call_pair, call_router, coin_tax, ends_of, execute_swap_operations,
  get_target_asset_info, insert, last_of, less_tax, load, minimum_message, native_swap, outputs,
  remove, shown, step_messages, swap_operation, terra_swap,
}
use terraswap.Router.Entry.{execute, less_asset_tax}
use terraswap.Router.Operations.{
  asset_into_swap_msg, execute_swap_operation, market_swap, pair_swap,
}
use terraswap.Router.Plan.{IsGuard, execute_swap_operations-plan, plan}
use terraswap.Router.Route.{IsRoute, ask_key}
use terraswap.Router.Sent.{IsSent, execute_swap_operation-IsSent}
use terraswap.Stable.Contract.{optional_addr_validate}
use terraswap.Tests.Host.{sample_host}
use terraswap.Tests.Pair.{pair_code, sample_env, sender_info, uusd}

abbrev pub sample_market : Market
sample_market = record {
  query_pair = λ factory offer ask. ok (record {
    asset_infos = offer ∷ ask ∷ [];
    contract_addr = "pair";
    liquidity_token = "lp";
    amplification = 60;
    fee = 4;
  });
  query_swap = λ coin ask. ok coin.amount;
  simulation = λ contract_addr asset. ok asset.amount;
}

abbrev pub sample_config : Option RouterConfig
sample_config = some (record { terraswap_factory = 1 ∷ [] })

abbrev pub first_swap : SwapOperation
first_swap = native_swap "ukrw" "uusd"

abbrev pub second_swap : SwapOperation
second_swap = terra_swap (native_token "uusd") (token "coin")

unfoldable pub router_code : Unit {0}
unfolding pair_code shown ends_of remove insert outputs assert_operations step_messages last_of
    minimum_message execute_swap_operations assert_minium_receive get_target_asset_info coin_tax
    less_tax asset_into_swap_msg market_swap pair_swap execute_swap_operation load execute
    optional_addr_validate less_asset_tax
router_code = tt

abbrev guard_message : RouterMsg
guard_message = call_router "pair" (assert_minimum_receive (token "coin") 1_000_000 5 "trader")

abbrev pub swap_messages : List RouterMsg
swap_messages =
    call_router "pair" (swap_operation first_swap none)
    ∷ call_router "pair" (swap_operation second_swap (some "trader"))
    ∷ guard_message
    ∷ []

pub operations_run :
    execute_swap_operations sample_host sample_env "trader"
      (first_swap ∷ second_swap ∷ [])
      (some 5)
      none
    ≡ ok swap_messages
unfolding router_code
operations_run = refl

execute_swap_operations-plan_example :
    (guard : List RouterMsg) × (swap_messages
      ≡ plan "pair" "trader" first_swap (second_swap ∷ []) ++ guard)
    × IsGuard sample_host "pair" "trader"
        (get_target_asset_info (last_of first_swap (second_swap ∷ [])))
        (some 5)
        guard
    × IsRoute (ask_key (last_of first_swap (second_swap ∷ []))) (first_swap ∷ second_swap ∷ [])
execute_swap_operations-plan_example =
    execute_swap_operations-plan sample_host sample_env "trader" first_swap (second_swap ∷ [])
      (some 5) none operations_run

balance_run : query_pool sample_host (native_token "uusd") "trader" ≡ ok 1_000_000
unfolding router_code
balance_run = refl

abbrev pair_message : RouterMsg
pair_message =
    call_pair "pair" (record { denom = "uusd"; amount = 999_500 } ∷ [])
      (record { offer_asset = uusd 999_500; belief_price = none; max_spread = none; to = none })

operation_run :
    execute_swap_operation sample_host sample_market sample_config sample_env
      (sender_info "pair" [])
      second_swap
      none
    ≡ ok (pair_message ∷ [])
unfolding router_code
operation_run = refl

execute_swap_operation-IsSent_example :
    (sample_env.contract_address ≡ "pair") × All (IsSent "pair") (pair_message ∷ [])
execute_swap_operation-IsSent_example =
    execute_swap_operation-IsSent sample_host sample_market sample_config sample_env
      (sender_info "pair" []) second_swap none operation_run

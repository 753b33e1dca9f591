-- ===== src/Tests/Simulated.antt =====
-- A simulation of contracts/terraswap_router/src/contract.rs, and what is then carried out.
use terraswap.Prelude.{[], err, none, ok, refl, some, ◌∷◌, ◌≡◌}
use terraswap.Asset.{query_pool, token}
use terraswap.Host.{Host, StdResult, not_found}
use terraswap.Router.{
  RouterHookMsg, RouterMsg, assert_minimum_receive, call_pair, create_swap_msg, ends_of,
  swap_operation,
}
use terraswap.Router.Carried.{Delivers, IsSameChain}
use terraswap.Router.Entry.{execute, simulate_swap_operations}
use terraswap.Router.Simulated.{execute_swap_operations-simulated}
use terraswap.Stable.Types.{Binary}
use terraswap.Tests.Host.{sample_host}
use terraswap.Tests.Pair.{sample_env, sender_info, uusd}
use terraswap.Tests.Router.{
  first_swap, operations_run, router_code, sample_config, sample_market, second_swap,
}

abbrev decode_hook : Binary → StdResult RouterHookMsg
decode_hook bytes = err not_found

abbrev sent_message : RouterMsg
sent_message = call_pair "pair" (record { denom = "uusd"; amount = 999_500 } ∷ []) (record {
  offer_asset = uusd 999_500;
  belief_price = none;
  max_spread = none;
  to = some "trader";
})

first_call :
    execute sample_host sample_market sample_config decode_hook sample_env
      (sender_info "pair" [])
      (swap_operation first_swap none)
    ≡ ok (create_swap_msg (record { denom = "ukrw"; amount = 1_000_000 }) "uusd" ∷ [])
unfolding router_code
first_call = refl

second_call :
    execute sample_host sample_market sample_config decode_hook sample_env
      (sender_info "pair" [])
      (swap_operation second_swap (some "trader"))
    ≡ ok (sent_message ∷ [])
unfolding router_code
second_call = refl

abbrev guard_host : Host
guard_host = record sample_host { cw20_balance = λ contract_addr address. ok 1_999_500 }

guard_call :
    execute guard_host sample_market sample_config decode_hook sample_env
      (sender_info "pair" [])
      (assert_minimum_receive (token "coin") 1_000_000 5 "trader")
    ≡ ok []
unfolding router_code
guard_call = refl

held_first : query_pool sample_host (ends_of first_swap).0 "pair" ≡ ok 1_000_000
unfolding router_code
held_first = refl

held_second : query_pool sample_host (ends_of second_swap).0 "pair" ≡ ok 1_000_000
unfolding router_code
held_second = refl

delivered_first :
    Delivers sample_host sample_market sample_config
      (ends_of first_swap).1
      (create_swap_msg (record { denom = "ukrw"; amount = 1_000_000 }) "uusd")
      1_000_000
delivered_first = refl

delivered_second :
    Delivers sample_host sample_market sample_config (ends_of second_swap).1 sent_message 999_500
unfolding router_code
delivered_second = (999_500, refl, refl)

abbrev always : IsSameChain sample_host sample_host
always = (λ amount denom. refl, λ canonical. refl)

execute_swap_operations-simulated_example :
    simulate_swap_operations sample_host sample_market sample_config 1_000_000
      (first_swap ∷ second_swap ∷ [])
    ≡ ok 999_500
execute_swap_operations-simulated_example =
    execute_swap_operations-simulated sample_host sample_market
      (record { terraswap_factory = 1 ∷ [] }) decode_hook sample_env "trader" "pair" first_swap
      (second_swap ∷ []) (some 5) none 1_000_000 999_500 refl operations_run
      (
        sample_host,
        create_swap_msg (record { denom = "ukrw"; amount = 1_000_000 }) "uusd",
        1_000_000,
        always,
        held_first,
        first_call,
        delivered_first,
        (
          sample_host,
          sent_message,
          999_500,
          always,
          held_second,
          second_call,
          delivered_second,
          (guard_host, guard_call, refl),
        ),
      )

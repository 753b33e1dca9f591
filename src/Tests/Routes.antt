-- ===== src/Tests/Routes.antt =====
-- The tests of contracts/terraswap_router/src/testing/tests.rs hold of the model.
use terraswap.Prelude.{[], none, ok, refl, some}
use terraswap.Replay.Router.{
  ExecuteSwapOperation, ExecuteSwapOperations, MinimumReceiveNativeToken, MinimumReceiveToken,
  QueryBuyWithRoutes, RouterInitialization, RouterLib, four_operations, pair_of, simulation_answer,
  swap_answer,
}
use terraswap.Router.{
  get_target_asset_info, hook_swap_operations, instantiate, load, query_config, shown,
}
use terraswap.Router.Entry.{
  execute, less_asset_tax, receive_cw20, simulate_from, simulate_one, simulate_swap_operations,
}
use terraswap.Tests.Mock.{mock_lib}
use terraswap.Tests.Replay.{replay_code}
use terraswap.Tests.Router.{router_code}

-- The hook message that the tests send.
abbrev router_lib : RouterLib
router_lib = record {
  host = mock_lib.host;
  to_binary = λ msg. [];
  from_binary = λ bytes. ok (hook_swap_operations four_operations none (some "addr0002"));
}

route_code : Unit {0}
unfolding replay_code router_code instantiate query_config receive_cw20 execute swap_answer pair_of
    simulation_answer shown get_target_asset_info less_asset_tax simulate_one simulate_from
    simulate_swap_operations load
route_code = tt

router_initialization : RouterInitialization router_lib
unfolding route_code
router_initialization = (_, refl, refl)

execute_swap_operations : ExecuteSwapOperations router_lib
unfolding route_code
execute_swap_operations = (_, refl, refl, refl, refl)

execute_swap_operation : ExecuteSwapOperation router_lib
unfolding route_code
execute_swap_operation = (_, refl, refl, refl, refl, refl)

query_buy_with_routes : QueryBuyWithRoutes router_lib
unfolding route_code
query_buy_with_routes = (_, refl, refl, refl)

minimum_receive_native_token : MinimumReceiveNativeToken router_lib
unfolding route_code
minimum_receive_native_token = (_, refl, refl)

minimum_receive_token : MinimumReceiveToken router_lib
unfolding route_code
minimum_receive_token = (_, refl, refl)

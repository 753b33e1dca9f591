-- ===== src/Tests/Units.antt =====
-- The tests of packages/terraswap/src/testing.rs, contracts/terraswap_factory/src/testing.rs and the
-- router's `test_invalid_operations` hold of the model.
use terraswap.Prelude.{[], refl}
use terraswap.Factory.{instantiate, query_factory_config}
use terraswap.Factory.History.{factory_execute}
use terraswap.Factory.Query.{query_pair, view_of}
use terraswap.Mock.{raw_pair_answer}
use terraswap.Replay.Assets.{
  BalanceQuerier, QueryTerraswapPairContract, SupplyQuerier, TestAsset, TestAssetInfo,
  TokenBalanceQuerier,
}
use terraswap.Replay.Factory.{
  CreatePair, FactoryInitialization, FactoryLib, ReplyTest, UpdateConfig,
}
use terraswap.Replay.Routes.{TestInvalidOperations}
use terraswap.Router.{assert_operations, ends_of, insert, outputs, remove, shown}
use terraswap.Tests.Factory.{factory_code}
use terraswap.Tests.Mock.{address_in, mock_lib}
use terraswap.Tests.Replay.{replay_code}
use terraswap.Token.{ascii}

unit_code : Unit {0}
unfolding replay_code factory_code factory_execute query_pair view_of raw_pair_answer shown
    assert_operations outputs insert remove ends_of query_factory_config instantiate
unit_code = tt

token_balance_querier : TokenBalanceQuerier mock_lib.host
unfolding unit_code
token_balance_querier = refl

balance_querier : BalanceQuerier mock_lib.host
unfolding unit_code
balance_querier = refl

supply_querier : SupplyQuerier mock_lib.host
unfolding unit_code
supply_querier = refl

test_asset_info : TestAssetInfo mock_lib.host
unfolding unit_code
test_asset_info = (refl, refl, refl, refl, refl, refl, refl)

test_asset : TestAsset mock_lib.host
unfolding unit_code
test_asset = (refl, refl, refl, refl, refl)

query_terraswap_pair_contract : QueryTerraswapPairContract mock_lib.host
unfolding unit_code
query_terraswap_pair_contract = (_, refl, refl, refl)

abbrev factory_lib : FactoryLib
factory_lib = record { host = mock_lib.host []; utf8 = ascii; parse_reply = address_in }

factory_initialization : FactoryInitialization factory_lib
unfolding unit_code
factory_initialization = (_, refl, refl)

update_config : UpdateConfig factory_lib
unfolding unit_code
update_config = (_, _, _, refl, refl, refl, refl, refl, refl)

create_pair : CreatePair factory_lib
unfolding unit_code
create_pair = (_, _, _, _, refl, refl, refl, refl, refl)

reply_test : ReplyTest factory_lib
unfolding unit_code
reply_test = (_, _, _, refl, refl, refl, refl)

test_invalid_operations : TestInvalidOperations
unfolding unit_code
test_invalid_operations = (_, _, refl, refl, refl, refl)

-- ===== src/Tests/Prices.antt =====
-- The tests of contracts/terraswap_pair_deprecated/src/testing.rs hold of the model.
use terraswap.Prelude.{
  Option, [], if◌then◌else◌, list_eq, nat_eq, none, ok, refl, some, string_eq, ◌==◌, ◌∷◌,
}
use terraswap.Asset.{native_token_raw, token_raw}
use terraswap.Deprecated.Pair.{instantiate, reply}
use terraswap.Deprecated.Types.{PairHookMsg, PairRaw}
use terraswap.Host.{StdResult}
use terraswap.Replay.Deprecated.{
  PairInitialization, PairLib, PairProvideAccepted, PairProvideFirst, PairProvideMore,
  PairProvideSlippage, PairWithdraw,
}
use terraswap.Replay.Prices.{
  PairNativeToToken, PairQueryPool, PairTokenToNative, TestDeduct, TestMaxSpread,
}
use terraswap.Stable.Types.{Binary}
use terraswap.Tests.Bignum.{root, sample_bignum}
use terraswap.Tests.Deprecated.{deprecated_code}
use terraswap.Tests.Mock.{mock_lib}
use terraswap.Tests.Replay.{replay_code}

abbrev hook_bytes : PairHookMsg → Binary
hook_bytes (PairHookMsg.swap belief_price max_spread to) = 1 ∷ []
hook_bytes PairHookMsg.withdraw_liquidity = 2 ∷ []

-- The hook messages that the tests send.
abbrev hook_of : Binary → StdResult PairHookMsg
hook_of bytes =
    if bytes == (1 ∷ [])
    then ok (PairHookMsg.swap none none none)
    else ok PairHookMsg.withdraw_liquidity

abbrev pair_lib : PairLib
pair_lib = record {
  host = mock_lib.host;
  bignum = sample_bignum;
  parse_reply = mock_lib.parse_reply;
  to_binary = hook_bytes;
  from_binary = hook_of;
}

price_code : Unit {0}
unfolding deprecated_code replay_code instantiate reply root
price_code = tt

pair_initialization : PairInitialization pair_lib
unfolding price_code
pair_initialization = (_, _, _, refl, refl, refl, refl, refl, refl)

-- The pair as it was set up in the first part.
abbrev set_up : Option PairRaw
set_up = some (record {
  contract_addr = 1 ∷ [];
  liquidity_token = 2 ∷ [];
  asset_infos = (native_token_raw "uusd", token_raw (3 ∷ []));
})

provide_first : PairProvideFirst pair_lib set_up
unfolding price_code
provide_first = (_, (_, _, refl, refl, refl), refl, refl, refl)

provide_more : PairProvideMore pair_lib set_up
unfolding price_code
provide_more = (_, refl, refl, refl, refl)

provide_slippage : PairProvideSlippage pair_lib set_up
unfolding price_code
provide_slippage = (refl, refl)

provide_accepted : PairProvideAccepted pair_lib set_up
unfolding price_code
provide_accepted = (_, _, refl, refl)

withdraw_run : PairWithdraw pair_lib
unfolding price_code
withdraw_run = (_, _, (_, _, refl, refl, refl), refl, refl, refl, refl, refl, refl)

try_native_to_token : PairNativeToToken pair_lib
unfolding price_code
try_native_to_token = (
  _,
  _,
  (_, _, refl, refl, refl),
  refl,
  (_, _, refl, refl, refl, refl, refl, refl, refl, refl),
  refl,
  refl,
)

try_token_to_native : PairTokenToNative pair_lib
unfolding price_code
try_token_to_native = (
  _,
  _,
  (_, _, refl, refl, refl),
  refl,
  refl,
  (_, _, refl, refl, refl, refl, refl, refl, refl, refl),
  refl,
  refl,
  refl,
)

test_max_spread : TestMaxSpread sample_bignum
unfolding price_code
test_max_spread = (_, _, refl, refl, refl, refl)

test_deduct : TestDeduct pair_lib
unfolding price_code
test_deduct = (_, refl, refl)

test_query_pool : PairQueryPool pair_lib
unfolding price_code
test_query_pool = (_, _, (_, _, refl, refl, refl), refl, refl, refl)

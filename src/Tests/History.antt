-- ===== src/Tests/History.antt =====
-- A history of contracts/terraswap_factory/src/contract.rs, and a page of its pairs.
use terraswap.Prelude.{
  List, Option, [], if◌then◌else◌, list_eq, nat_eq, none, ok, refl, some, string_eq, ℕ, ◌∷◌, ◌≡◌,
}
use terraswap.Asset.{AssetInfo, AssetInfoRaw, info_to_raw, token}
use terraswap.Deprecated.Types.{PairView}
use terraswap.Factory.{
  FactoryPair, FactoryState, bytes_lt, instantiate, may_load, pair_key, query_pair_raw,
}
use terraswap.Factory.History.{
  FactoryExecuteMsg, History, executed, factory_execute, followed, initial, replied,
}
use terraswap.Factory.History.Kept.{History-keeps_pairs}
use terraswap.Factory.History.Keyed.{History-query_pair}
use terraswap.Factory.Query.{Entries}
use terraswap.Tests.Factory.{
  coin_info, coin_raw, coin_uusd_key, created_state, factory_code, factory_reply_run, factory_state,
  pair_request, parse_pair, registered, registered_state, stored_pair, uusd_info, uusd_raw,
}
use terraswap.Tests.Host.{sample_host}
use terraswap.Token.{ascii}

create_executed :
    factory_execute ascii sample_host factory_state "coin"
      (FactoryExecuteMsg.create_pair uusd_info coin_info)
    ≡ ok (created_state, some pair_request)
unfolding factory_code factory_execute
create_executed = refl

pub made : History ascii sample_host parse_pair stored_pair factory_state registered_state
made = followed initial (
    replied "coin" (FactoryExecuteMsg.create_pair uusd_info coin_info) pair_request (some (some []))
      create_executed factory_reply_run)

pub instantiate_run :
    instantiate sample_host (record { config = none; tmp_pair_info = none; pairs = [] }) "coin" 8 7
    ≡ ok factory_state
unfolding factory_code instantiate
instantiate_run = refl

found_run : query_pair_raw ascii sample_host registered_state coin_info uusd_info ≡ ok registered
unfolding factory_code
found_run = refl

History-query_pair_example :
    (a b : AssetInfoRaw) × (info_to_raw sample_host coin_info ≡ ok a)
    × (info_to_raw sample_host uusd_info ≡ ok b)
    × (pair_key ascii uusd_raw coin_raw ≡ pair_key ascii a b)
History-query_pair_example =
    History-query_pair ascii sample_host parse_pair stored_pair "coin" 8 7 factory_state
      registered_state coin_info uusd_info registered instantiate_run made found_run

-- Another pair is made later.
abbrev later_config : FactoryState
later_config = record registered_state {
  config = some (record { owner = 3 ∷ []; pair_code_id = 9; token_code_id = 7 });
}

config_executed :
    factory_execute ascii sample_host registered_state "coin"
      (FactoryExecuteMsg.update_config none none (some 9))
    ≡ ok (later_config, none)
unfolding factory_code factory_execute
config_executed = refl

changed : History ascii sample_host parse_pair stored_pair registered_state later_config
changed =
    followed initial
      (executed "coin" (FactoryExecuteMsg.update_config none none (some 9)) config_executed)

pub kept_run : may_load registered_state.pairs coin_uusd_key ≡ some registered
unfolding factory_code
kept_run = refl

History-keeps_pairs_example : may_load later_config.pairs coin_uusd_key ≡ some registered
History-keeps_pairs_example =
    History-keeps_pairs ascii sample_host parse_pair stored_pair registered_state later_config
      coin_uusd_key registered changed kept_run

-- The entries after the bound, for a store of one pair.
abbrev listed : List (List ℕ × FactoryPair) → Option (List ℕ) → Entries
listed [] bound = []
listed ((key, pair) ∷ rest) none = ok (key, pair) ∷ []
listed ((key, pair) ∷ rest) (some bound) = if bytes_lt bound key then ok (key, pair) ∷ [] else []

-- A pair whose key is smaller.
abbrev lp_uusd : Option (AssetInfo × AssetInfo)
lp_uusd = some (token "lp", uusd_info)

abbrev pub shown_pair : PairView
shown_pair = record {
  asset_infos = (uusd_info, coin_info);
  contract_addr = "pair";
  liquidity_token = "lp";
}

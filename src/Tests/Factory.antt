-- ===== src/Tests/Factory.antt =====
-- Runs of contracts/terraswap_factory/src.
use terraswap.Prelude.{List, Option, String, [], none, ok, refl, some, ℕ, ◌↔◌, ◌∷◌, ◌≡◌, ◌⊎◌}
use terraswap.Asset.{
  AssetInfo, AssetInfoRaw, PairInfoRaw, info_to_raw, native_token, native_token_raw, token,
  token_raw,
}
use terraswap.Factory.{
  FactoryPair, FactoryState, PairSubMsg, as_bytes, assert_new, bytes_lt, execute_create_pair,
  execute_update_config, factory_reply, load_item, may_load, new_owner, or_current, pair_key,
  query_liquidity_token, query_pair_raw,
}
use terraswap.Factory.Key.{pair_key_iff}
use terraswap.Factory.Registry.{IsRegistered, create_pair-IsRegistered}
use terraswap.Host.{Addr, StdResult}
use terraswap.Stable.Types.{Binary}
use terraswap.Tests.Host.{sample_host}
use terraswap.Tests.Pair.{pair_code, sample_pair}
use terraswap.Token.{ascii}

abbrev pub factory_state : FactoryState
factory_state = record {
  config = some (record { owner = 3 ∷ []; pair_code_id = 8; token_code_id = 7 });
  tmp_pair_info = none;
  pairs = [];
}

abbrev pub coin_info : AssetInfo
coin_info = token "coin"

abbrev pub uusd_info : AssetInfo
uusd_info = native_token "uusd"

abbrev pub coin_raw : AssetInfoRaw
coin_raw = token_raw (3 ∷ [])

abbrev pub uusd_raw : AssetInfoRaw
uusd_raw = native_token_raw "uusd"

unfoldable pub factory_code : Unit {0}
unfolding pair_code load_item may_load bytes_lt new_owner or_current execute_update_config as_bytes
    pair_key assert_new execute_create_pair query_pair_raw query_liquidity_token factory_reply
factory_code = tt

abbrev pub coin_uusd_key : List ℕ
coin_uusd_key = 3 ∷ ascii "uusd"

abbrev pub created_state : FactoryState
created_state = record factory_state {
  tmp_pair_info = some (record { pair_key = coin_uusd_key; asset_infos = (uusd_raw, coin_raw) });
}

abbrev pub pair_request : PairSubMsg
pair_request = record {
  id = 1;
  code_id = 8;
  asset_infos = (uusd_info, coin_info);
  token_code_id = 7;
}

create_run :
    execute_create_pair ascii sample_host factory_state uusd_info coin_info
    ≡ ok (created_state, pair_request)
unfolding factory_code
create_run = refl

abbrev pub parse_pair : Binary → Option String
parse_pair bytes = some "pair"

abbrev pub stored_pair : Addr → StdResult PairInfoRaw
stored_pair contract_addr = ok sample_pair

abbrev pub registered : FactoryPair
registered = record {
  liquidity_token = 2 ∷ [];
  contract_addr = 1 ∷ [];
  asset_infos = (uusd_raw, coin_raw);
}

abbrev pub registered_state : FactoryState
registered_state = record created_state { pairs = (coin_uusd_key, registered) ∷ [] }

pub factory_reply_run :
    factory_reply sample_host parse_pair stored_pair created_state (some (some []))
    ≡ ok registered_state
unfolding factory_code
factory_reply_run = refl

create_pair-IsRegistered_example :
    (pair : FactoryPair) × IsRegistered ascii sample_host registered_state uusd_info coin_info pair
    × (info_to_raw sample_host uusd_info ≡ ok pair.asset_infos.0)
    × (info_to_raw sample_host coin_info ≡ ok pair.asset_infos.1)
create_pair-IsRegistered_example =
    create_pair-IsRegistered ascii sample_host parse_pair stored_pair factory_state uusd_info
      coin_info (some (some [])) create_run factory_reply_run

abbrev first_bytes : List ℕ
first_bytes = 1 ∷ 2 ∷ []

abbrev second_bytes : List ℕ
second_bytes = 9 ∷ 4 ∷ []

pair_key_iff_example :
    (pair_key ascii (token_raw first_bytes) (token_raw second_bytes)
      ≡ pair_key ascii (token_raw second_bytes) (token_raw first_bytes))
    ↔ (((first_bytes ≡ second_bytes) × (second_bytes ≡ first_bytes))
        ⊎ ((first_bytes ≡ first_bytes) × (second_bytes ≡ second_bytes)))
pair_key_iff_example =
    pair_key_iff ascii first_bytes second_bytes second_bytes first_bytes refl refl refl

abbrev updated_state : FactoryState
updated_state = record factory_state {
  config = some (record { owner = 1 ∷ []; pair_code_id = 9; token_code_id = 7 });
}

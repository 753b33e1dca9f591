-- ===== src/Factory.antt =====
-- contracts/terraswap_factory/src (contract.rs, state.rs and querier.rs): the factory's registry of
-- pairs. Its three storage items are the fields of `FactoryState`, and `PAIRS` is a list whose first
-- entry for a key counts. `utf8` is `str::as_bytes`, and `query_raw` reads what a pair
-- stores.
pub mod Key
pub mod Registry
pub mod Query
pub mod History
use terraswap.Prelude.{
  Bool, List, Option, String, [], ensure, err, false, if◌then◌else◌, list_eq, ltb, nat_eq, none, ok,
  some, string_eq, true, ℕ, ◌++◌, ◌==◌, ◌>>=◌, ◌>>◌, ◌∷◌,
}
use terraswap.Asset.{AssetInfo, AssetInfoRaw, PairInfoRaw, info_to_raw, native_token_raw, token_raw}
use terraswap.Host.{Addr, CanonicalAddr, Host, StdResult, generic_err, not_found}
use terraswap.Stable.Contract.{parsed, unwrap_data}
use terraswap.Stable.Types.{Binary}

pub record FactoryConfig : Type 0 where
  pub owner : CanonicalAddr
  pub pair_code_id : ℕ
  pub token_code_id : ℕ

pub record TmpPairInfo : Type 0 where
  pub pair_key : List ℕ
  pub asset_infos : AssetInfoRaw × AssetInfoRaw

-- `PairInfoRaw`, with the fields that the factory gives it.
pub record FactoryPair : Type 0 where
  pub liquidity_token : CanonicalAddr
  pub contract_addr : CanonicalAddr
  pub asset_infos : AssetInfoRaw × AssetInfoRaw

pub record FactoryState : Type 0 where
  pub config : Option FactoryConfig
  pub tmp_pair_info : Option TmpPairInfo
  pub pairs : List (List ℕ × FactoryPair)

-- What `execute_create_pair` asks the chain to do: to make the pair's contract.
pub record PairSubMsg : Type 0 where
  pub id : ℕ
  pub code_id : ℕ
  pub asset_infos : AssetInfo × AssetInfo
  pub token_code_id : ℕ

-- `CONFIG.load` and `TMP_PAIR_INFO.load`
unfoldable pub load_item {κ} : {A : Type κ} → Option A → StdResult A
load_item none = err not_found
load_item (some a) = ok a

-- `PAIRS.may_load`
unfoldable pub may_load : List (List ℕ × FactoryPair) → List ℕ → Option FactoryPair
may_load [] k = none
may_load ((key, pair) ∷ rest) k = if key == k then some pair else may_load rest k

-- The order of byte slices.
unfoldable pub bytes_lt : List ℕ → List ℕ → Bool
bytes_lt [] [] = false
bytes_lt [] (y ∷ ys) = true
bytes_lt (x ∷ xs) [] = false
bytes_lt (x ∷ xs) (y ∷ ys) = if ltb x y then true else if ltb y x then false else bytes_lt xs ys

unfoldable pub instantiate :
    Host
    → FactoryState
    → (sender : Addr) → (pair_code_id token_code_id : ℕ) → StdResult FactoryState
instantiate h state sender pair_code_id token_code_id = do
  owner ← h.addr_canonicalize sender
  ok (record state {
    config =
        some (record { owner = owner; pair_code_id = pair_code_id; token_code_id = token_code_id });
  })

-- The new owner, whose address is first validated.
unfoldable pub new_owner : Host → Option String → CanonicalAddr → StdResult CanonicalAddr
new_owner h none current = ok current
new_owner h (some owner) current = do _ ← h.addr_validate owner; h.addr_canonicalize owner

unfoldable pub or_current : Option ℕ → ℕ → ℕ
or_current none current = current
or_current (some value) current = value

unfoldable pub execute_update_config :
    Host
    → FactoryState
    → (sender : Addr) → (owner : Option String) → (token_code_id pair_code_id : Option ℕ)
    → StdResult FactoryState
execute_update_config h state sender owner token_code_id pair_code_id = do
  config ← load_item state.config
  canonical ← h.addr_canonicalize sender
  ensure (canonical == config.owner) (generic_err "unauthorized")
  owner' ← new_owner h owner config.owner
  ok (record state {
    config = some (record {
      owner = owner';
      pair_code_id = or_current pair_code_id config.pair_code_id;
      token_code_id = or_current token_code_id config.token_code_id;
    });
  })

-- `Err("Pair already exists")` if the key is taken.
unfoldable pub assert_new : Option FactoryPair → StdResult (Unit {0})
assert_new none = ok tt
assert_new (some pair) = err (generic_err "Pair already exists")

module _ (utf8 : String → List ℕ) where
  -- `AssetInfoRaw::as_bytes`
  unfoldable pub as_bytes : AssetInfoRaw → List ℕ
  as_bytes (native_token_raw denom) = utf8 denom
  as_bytes (token_raw contract_addr) = contract_addr

  -- The bytes of the two assets, the smaller ones first.
  unfoldable pub pair_key : AssetInfoRaw → AssetInfoRaw → List ℕ
  pair_key a b =
      if bytes_lt (as_bytes b) (as_bytes a)
      then as_bytes b ++ as_bytes a
      else as_bytes a ++ as_bytes b

  unfoldable pub calc_range_start : Option (AssetInfoRaw × AssetInfoRaw) → Option (List ℕ)
  calc_range_start none = none
  calc_range_start (some (a, b)) = some (pair_key a b ++ (1 ∷ []))

  unfoldable pub execute_create_pair :
      Host → FactoryState → AssetInfo → AssetInfo → StdResult (FactoryState × PairSubMsg)
  execute_create_pair h state first second = do
    config ← load_item state.config
    raw_first ← info_to_raw h first
    raw_second ← info_to_raw h second
    let key = pair_key raw_first raw_second
    assert_new (may_load state.pairs key)
    ok (
      record state {
        tmp_pair_info = some (record { pair_key = key; asset_infos = (raw_first, raw_second) });
      },
      record {
        id = 1;
        code_id = config.pair_code_id;
        asset_infos = (first, second);
        token_code_id = config.token_code_id;
      },
    )

  unfoldable pub query_pair_raw :
      Host → FactoryState → AssetInfo → AssetInfo → StdResult FactoryPair
  query_pair_raw h state first second = do
    raw_first ← info_to_raw h first
    raw_second ← info_to_raw h second
    load_item (may_load state.pairs (pair_key raw_first raw_second))

-- `query_raw` reads the `PairInfoRaw` that a pair stores.
unfoldable pub query_liquidity_token :
    Host → (query_raw : Addr → StdResult PairInfoRaw) → (contract_addr : Addr) → StdResult Addr
query_liquidity_token h query_raw contract_addr = do
  pair_info ← query_raw contract_addr
  h.addr_humanize pair_info.liquidity_token

-- `reply`: the pair whose contract was made goes into the registry.
unfoldable pub factory_reply :
    Host
    → (parse_reply : Binary → Option String) → (query_raw : Addr → StdResult PairInfoRaw)
    → FactoryState
    → (result : Option (Option Binary)) → StdResult FactoryState
factory_reply h parse_reply query_raw state result = do
  tmp ← load_item state.tmp_pair_info
  data_bytes ← unwrap_data result
  pair_contract ← parsed (parse_reply data_bytes)
  liquidity_token ← query_liquidity_token h query_raw pair_contract
  liquidity_canonical ← h.addr_canonicalize liquidity_token
  contract_addr ← h.addr_canonicalize pair_contract
  ok (record state {
    pairs =
        (
          tmp.pair_key,
          record {
            liquidity_token = liquidity_canonical;
            contract_addr = contract_addr;
            asset_infos = tmp.asset_infos;
          },
        )
        ∷ state.pairs;
  })

-- `query_config`: the owner's address and the two codes.
unfoldable pub query_factory_config : Host → FactoryState → StdResult (Addr × (ℕ × ℕ))
query_factory_config h state = do
  config ← load_item state.config
  owner ← h.addr_humanize config.owner
  ok (owner, (config.token_code_id, config.pair_code_id))

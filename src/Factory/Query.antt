-- ===== src/Factory/Query.antt =====
-- The queries of contracts/terraswap_factory/src/contract.rs and the pages of state.rs. `range` is
-- `Map::range` in ascending order, from an exclusive bound on.
pub mod Pages
pub mod Complete
pub mod Walk
pub mod Suffix
pub mod Ends
use Prim.Native.Nat.{min}
use terraswap.Prelude.{
  List, Option, String, [], none, ok, some, suc, traverse, zero, ℕ, ◌>>=◌, ◌>>◌, ◌∷◌,
}
use terraswap.Asset.{AssetInfo, AssetInfoRaw, info_to_normal, info_to_raw}
use terraswap.Deprecated.Types.{PairView}
use terraswap.Factory.{
  FactoryPair, FactoryState, calc_range_start, query_factory_config, query_pair_raw,
}
use terraswap.Host.{Addr, Host, StdResult}
use terraswap.Stable.Types.{Binary}

abbrev pub max_limit : ℕ
max_limit = 30

abbrev pub default_limit : ℕ
default_limit = 10

-- `limit.unwrap_or(DEFAULT_LIMIT).min(MAX_LIMIT)`
abbrev pub page_limit : Option ℕ → ℕ
page_limit none = min default_limit max_limit
page_limit (some limit) = min limit max_limit

-- What `range` yields: the entries, or why one cannot be read.
abbrev pub Entries : Type 0
Entries = List (StdResult (List ℕ × FactoryPair))

abbrev pub take {ℓ} : {A : Type ℓ} → ℕ → List A → List A
take zero xs = []
take (suc n) [] = []
take (suc n) (x ∷ xs) = x ∷ take n xs

-- `to_normal` of the fields that the factory gives.
unfoldable pub view_of : Host → FactoryPair → StdResult PairView
view_of h pair = do
  first ← info_to_normal h pair.asset_infos.0
  second ← info_to_normal h pair.asset_infos.1
  liquidity_token ← h.addr_humanize pair.liquidity_token
  contract_addr ← h.addr_humanize pair.contract_addr
  ok (record {
    asset_infos = (first, second);
    contract_addr = contract_addr;
    liquidity_token = liquidity_token;
  })

-- `let (_, v) = item?; v.to_normal(api)`
unfoldable pub read_item : Host → StdResult (List ℕ × FactoryPair) → StdResult PairView
read_item h item = item >>= λ entry. view_of h entry.1

-- `start_after`, with the assets as they are stored.
unfoldable pub raw_start :
    Host → Option (AssetInfo × AssetInfo) → StdResult (Option (AssetInfoRaw × AssetInfoRaw))
raw_start h none = ok none
raw_start h (some (first, second)) = do
  raw_first ← info_to_raw h first
  raw_second ← info_to_raw h second
  ok (some (raw_first, raw_second))

module _ (utf8 : String → List ℕ) (h : Host) where
  unfoldable pub query_pair : FactoryState → AssetInfo → AssetInfo → StdResult PairView
  query_pair state first second = do pair ← query_pair_raw utf8 h state first second; view_of h pair

  module _ (range : List (List ℕ × FactoryPair) → Option (List ℕ) → Entries) where
    unfoldable pub read_pairs :
        FactoryState
        → (start_after : Option (AssetInfoRaw × AssetInfoRaw)) → (limit : Option ℕ)
        → StdResult (List PairView)
    read_pairs state start_after limit =
        traverse (read_item h)
          (take (page_limit limit) (range state.pairs (calc_range_start utf8 start_after)))

    unfoldable pub query_pairs :
        FactoryState
        → (start_after : Option (AssetInfo × AssetInfo)) → (limit : Option ℕ)
        → StdResult (List PairView)
    query_pairs state start_after limit = do
      raw ← raw_start h start_after
      read_pairs state raw limit

pub data FactoryQueryMsg : Type 0 where
  config_query : FactoryQueryMsg
  pair_of_query : AssetInfo → AssetInfo → FactoryQueryMsg
  pairs_query :
      (start_after : Option (AssetInfo × AssetInfo)) → (limit : Option ℕ) → FactoryQueryMsg

-- What is encoded.
pub data FactoryAnswer : Type 0 where
  config_shown : (owner : Addr) → (token_code_id pair_code_id : ℕ) → FactoryAnswer
  pair_of_shown : PairView → FactoryAnswer
  pairs_shown : List PairView → FactoryAnswer

unfoldable pub factory_query :
    (utf8 : String → List ℕ)
    → Host
    → (range : List (List ℕ × FactoryPair) → Option (List ℕ) → Entries)
    → (to_binary : FactoryAnswer → StdResult Binary) → FactoryState
    → FactoryQueryMsg
    → StdResult Binary
factory_query utf8 h range to_binary state config_query =
    query_factory_config h state >>= λ resp. to_binary (config_shown resp.0 resp.1.0 resp.1.1)
factory_query utf8 h range to_binary state (pair_of_query first second) =
    query_pair utf8 h state first second >>= λ pair. to_binary (pair_of_shown pair)
factory_query utf8 h range to_binary state (pairs_query start_after limit) =
    query_pairs utf8 h range state start_after limit >>= λ pairs. to_binary (pairs_shown pairs)

-- ===== src/Deprecated/Pair.antt =====
-- The state and the queries of contracts/terraswap_pair_deprecated/src/contract.rs. `instantiate` and `reply`
-- return the state that they save, and no other entry point writes it. `parse_reply` decodes the data
-- of the reply.
use terraswap.Prelude.{
  Option, Outcome, String, [], err, if◌then◌else◌, none, ok, some, ℕ, ◌>>=◌, ◌∷◌,
}
use terraswap.Asset.{Asset, AssetInfo, equal, info_to_normal, info_to_raw, pool_of, query_supply}
use terraswap.Deprecated.Types.{PairPools, PairRaw, PairView}
use terraswap.Host.{Addr, Env, Host, StdResult, not_found}
use terraswap.Stable.Contract.{instantiate_reply_id, parsed, unwrap_data}
use terraswap.Stable.Types.{Binary, ContractError, Response, asset_mismatch, text}
use terraswap.Token.{ascii}

-- `PAIR_INFO.load`
unfoldable pub load : Option PairRaw → StdResult PairRaw
load none = err not_found
load (some pair_info) = ok pair_info

module _ (h : Host) where
  unfoldable pub instantiate :
      Env
      → (asset_infos : AssetInfo × AssetInfo) → (token_code_id : ℕ)
      → StdResult (Option PairRaw × Response)
  instantiate env asset_infos token_code_id = do
    contract_addr ← h.addr_canonicalize env.contract_address
    first ← info_to_raw h asset_infos.0
    second ← info_to_raw h asset_infos.1
    ok (
      some (record {
        contract_addr = contract_addr;
        liquidity_token = [];
        asset_infos = (first, second);
      }),
      record {
        messages = [];
        submessages =
            record {
              id = instantiate_reply_id;
              code_id = token_code_id;
              msg = record {
                name = ascii "terraswap liquidity token";
                symbol = ascii "uLP";
                decimals = 6;
                initial_balances = [];
                mint = some (record { minter = env.contract_address; cap = none });
              };
            }
            ∷ [];
        attributes = [];
      },
    )

  unfoldable pub reply :
      (parse_reply : Binary → Option String)
      → Option PairRaw
      → (result : Option (Option Binary)) → StdResult (Option PairRaw × Response)
  reply parse_reply store result = do
    data_bytes ← unwrap_data result
    liquidity_token ← parsed (parse_reply data_bytes)
    meta ← load store
    canonical ← h.addr_canonicalize liquidity_token
    ok (
      some (record meta { liquidity_token = canonical }),
      record {
        messages = [];
        submessages = [];
        attributes = ("liquidity_token_addr", text liquidity_token) ∷ [];
      },
    )

  -- `query_pools` of the two assets.
  unfoldable pub two_pools : PairRaw → Addr → StdResult (Asset × Asset)
  two_pools pair_info contract_addr = do
    first ← pool_of h contract_addr pair_info.asset_infos.0
    second ← pool_of h contract_addr pair_info.asset_infos.1
    ok (first, second)

  unfoldable pub query_pair_info : Option PairRaw → StdResult PairView
  query_pair_info store = do
    pair_info ← load store
    first ← info_to_normal h pair_info.asset_infos.0
    second ← info_to_normal h pair_info.asset_infos.1
    liquidity_token ← h.addr_humanize pair_info.liquidity_token
    contract_addr ← h.addr_humanize pair_info.contract_addr
    ok (record {
      asset_infos = (first, second);
      contract_addr = contract_addr;
      liquidity_token = liquidity_token;
    })

  unfoldable pub query_pool : Option PairRaw → StdResult PairPools
  query_pool store = do
    pair_info ← load store
    contract_addr ← h.addr_humanize pair_info.contract_addr
    assets ← two_pools pair_info contract_addr
    liquidity_token ← h.addr_humanize pair_info.liquidity_token
    total_share ← query_supply h liquidity_token
    ok (record { assets = assets; total_share = total_share })

-- The pool of the asset and the other one: `AssetMismatch` if the asset is in neither.
unfoldable pub pools_for : AssetInfo → Asset × Asset → Outcome ContractError (Asset × Asset)
pools_for wanted (first, second) =
    if equal wanted first.info
    then ok (first, second)
    else if equal wanted second.info
    then ok (second, first)
    else err asset_mismatch

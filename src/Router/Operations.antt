-- ===== src/Router/Operations.antt =====
-- `execute_swap_operation` and `asset_into_swap_msg` of contracts/terraswap_router/src/operations.rs.
use terraswap.Prelude.{
  List, Option, String, [], ensure, list_eq, nat_eq, none, ok, some, string_eq, ◌==◌, ◌>>=◌, ◌>>◌,
  ◌∷◌,
}
use terraswap.Asset.{Asset, AssetInfo, native_token, query_balance, query_pool, token}
use terraswap.Host.{Addr, Decimal, Env, Host, MessageInfo, StdResult, generic_err}
use terraswap.Router.{
  Market, RouterConfig, RouterMsg, SwapOperation, call_pair, create_swap_msg, create_swap_send_msg,
  less_tax, load, native_swap, send_token, terra_swap,
}

unfoldable pub asset_into_swap_msg :
    Host
    → (pair_contract : Addr) → Asset
    → (max_spread : Option Decimal) → (to : Option String) → StdResult RouterMsg
asset_into_swap_msg h pair_contract offer_asset max_spread to = elim (offer_asset.info) [
  | native_token denom ↦ do
    amount ← less_tax h offer_asset.amount denom
    ok (
        call_pair pair_contract (record { denom = denom; amount = amount } ∷ []) (record {
          offer_asset = record offer_asset { amount = amount };
          belief_price = none;
          max_spread = max_spread;
          to = to;
        }))
  | token contract_addr ↦ ok (
      send_token contract_addr pair_contract offer_asset.amount (record {
        offer_asset = offer_asset;
        belief_price = none;
        max_spread = max_spread;
        to = to;
      }))
]

-- The arm of `execute_swap_operation` for the chain's market: the last operation sends.
unfoldable pub market_swap :
    Host
    → Env
    → (offer_denom ask_denom : String) → (to : Option String) → StdResult (List RouterMsg)
market_swap h env offer_denom ask_denom (some to) = do
  amount ← query_balance h env.contract_address offer_denom
  net ← less_tax h amount offer_denom
  ok (create_swap_send_msg to (record { denom = offer_denom; amount = net }) ask_denom ∷ [])
market_swap h env offer_denom ask_denom none = do
  amount ← query_balance h env.contract_address offer_denom
  ok (create_swap_msg (record { denom = offer_denom; amount = amount }) ask_denom ∷ [])

-- The arm for a pair: all that the router holds of the offer.
unfoldable pub pair_swap :
    Host
    → Market
    → Option RouterConfig
    → Env
    → (offer_asset_info ask_asset_info : AssetInfo) → (to : Option String)
    → StdResult (List RouterMsg)
pair_swap h market store env offer_asset_info ask_asset_info to = do
  config ← load store
  terraswap_factory ← h.addr_humanize config.terraswap_factory
  pair_info ← market.query_pair terraswap_factory offer_asset_info ask_asset_info
  amount ← query_pool h offer_asset_info env.contract_address
  msg ←
      asset_into_swap_msg h pair_info.contract_addr
        (record { info = offer_asset_info; amount = amount }) none to
  ok (msg ∷ [])

unfoldable pub execute_swap_operation :
    Host
    → Market
    → Option RouterConfig
    → Env
    → MessageInfo
    → SwapOperation
    → (to : Option String) → StdResult (List RouterMsg)
execute_swap_operation h market store env message_info operation to = do
  ensure (env.contract_address == message_info.sender) (generic_err "unauthorized")
  elim operation [
    | native_swap offer_denom ask_denom ↦ market_swap h env offer_denom ask_denom to
    | terra_swap offer_asset_info ask_asset_info ↦
        pair_swap h market store env offer_asset_info ask_asset_info to
  ]

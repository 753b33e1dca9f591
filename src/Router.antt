-- ===== src/Router.antt =====
-- contracts/terraswap_router/src (contract.rs, operations.rs, querier.rs, state.rs) and
-- packages/terraswap/src/router.rs: swaps over several pairs. The answers of the factory, of the pairs
-- and of the chain's market are the fields of `Market`, and `from_binary` decodes a hook message.
pub mod Operations
pub mod Entry
pub mod Route
pub mod Plan
pub mod Sent
pub mod Carried
pub mod Simulated
use terraswap.Prelude.{
  List, Option, String, [], ensure, err, if◌then◌else◌, length, list_eq, ltb, map_err, nat_eq, none,
  not, ok, some, string_eq, suc, ℕ, ◌++◌, ◌==◌, ◌>>=◌, ◌>>◌, ◌∷◌,
}
use terraswap.Asset.{Asset, AssetInfo, PairInfo, native_token, query_pool, taxed, token}
use terraswap.Host.{
  Addr, CanonicalAddr, Coin, Decimal, Env, Host, StdResult, generic_err, not_found, overflow,
}
use terraswap.Stable.Provide.{receiver_or}
use terraswap.Stable.Types.{Cw20ReceiveMsg}

pub data SwapOperation : Type 0 where
  native_swap : (offer_denom ask_denom : String) → SwapOperation
  terra_swap : (offer_asset_info ask_asset_info : AssetInfo) → SwapOperation

unfoldable pub get_target_asset_info : SwapOperation → AssetInfo
get_target_asset_info (native_swap offer_denom ask_denom) = native_token ask_denom
get_target_asset_info (terra_swap offer_asset_info ask_asset_info) = ask_asset_info

pub data RouterHookMsg : Type 0 where
  hook_swap_operations :
      (operations : List SwapOperation)
      → (minimum_receive : Option ℕ) → (to : Option String) → RouterHookMsg

pub data RouterExecuteMsg : Type 0 where
  receive_hook_msg : Cw20ReceiveMsg → RouterExecuteMsg
  swap_operations :
      (operations : List SwapOperation)
      → (minimum_receive : Option ℕ) → (to : Option String) → RouterExecuteMsg
  swap_operation : (operation : SwapOperation) → (to : Option String) → RouterExecuteMsg
  assert_minimum_receive :
      (asset_info : AssetInfo)
      → (prev_balance minimum_receive : ℕ) → (receiver : String) → RouterExecuteMsg

-- `PairExecuteMsg::Swap`, with the fields that the router gives it.
pub record PairSwap : Type 0 where
  pub offer_asset : Asset
  pub belief_price : Option Decimal
  pub max_spread : Option Decimal
  pub to : Option String

-- The messages that the router sends: to itself, to a pair with coins, to a pair through a token
-- contract, and to the chain's market.
pub data RouterMsg : Type 0 where
  call_router : (contract_addr : String) → (msg : RouterExecuteMsg) → RouterMsg
  call_pair : (contract_addr : String) → (funds : List Coin) → (msg : PairSwap) → RouterMsg
  send_token :
      (contract_addr : String) → (contract : String) → (amount : ℕ) → (msg : PairSwap) → RouterMsg
  create_swap_msg : (offer_coin : Coin) → (ask_denom : String) → RouterMsg
  create_swap_send_msg :
      (to_address : String) → (offer_coin : Coin) → (ask_denom : String) → RouterMsg

pub record RouterConfig : Type 0 where
  pub terraswap_factory : CanonicalAddr

pub record Market : Type 0 where
  -- The factory's `Pair` query, the market's `query_swap` and the pair's `Simulation`.
  pub query_pair : (factory_contract : Addr) → AssetInfo → AssetInfo → StdResult PairInfo
  pub query_swap : (offer_coin : Coin) → (ask_denom : String) → StdResult ℕ
  pub simulation : (contract_addr : String) → (offer_asset : Asset) → StdResult ℕ

unfoldable pub instantiate : Host → (terraswap_factory : String) → StdResult (Option RouterConfig)
instantiate h terraswap_factory = do
  canonical ← h.addr_canonicalize terraswap_factory
  ok (some (record { terraswap_factory = canonical }))

unfoldable pub load : Option RouterConfig → StdResult RouterConfig
load none = err not_found
load (some config) = ok config

unfoldable pub query_config : Host → Option RouterConfig → StdResult Addr
query_config h store = do state ← load store; h.addr_humanize state.terraswap_factory

-- `compute_tax` of the router.
unfoldable pub coin_tax : Host → ℕ → String → StdResult ℕ
coin_tax h amount denom = if denom == "uluna" then ok 0 else taxed h amount denom

-- The amount less the tax: `amount.checked_sub(compute_tax(..)?)?`.
unfoldable pub less_tax : Host → ℕ → String → StdResult ℕ
less_tax h amount denom = do
  tax ← coin_tax h amount denom
  map_err overflow (h.uint_checked_sub amount tax)

-- `AssetInfo` as `to_string` shows it.
unfoldable pub shown : AssetInfo → String
shown (native_token denom) = denom
shown (token contract_addr) = contract_addr

-- The offer and the ask of an operation.
unfoldable pub ends_of : SwapOperation → AssetInfo × AssetInfo
ends_of (native_swap offer_denom ask_denom) = (native_token offer_denom, native_token ask_denom)
ends_of (terra_swap offer_asset_info ask_asset_info) = (offer_asset_info, ask_asset_info)

-- The keys of the `HashMap`, each once.
unfoldable pub remove : String → List String → List String
remove k [] = []
remove k (x ∷ xs) = if x == k then remove k xs else x ∷ remove k xs

unfoldable pub insert : String → List String → List String
insert k keys = k ∷ remove k keys

-- The loop of `assert_operations`.
unfoldable pub outputs : List String → List SwapOperation → List String
outputs keys [] = keys
outputs keys (operation ∷ rest) =
    outputs (insert (shown (ends_of operation).1) (remove (shown (ends_of operation).0) keys)) rest

unfoldable pub assert_operations : List SwapOperation → StdResult (Unit {0})
assert_operations operations =
    ensure (length (outputs [] operations) == 1)
      (generic_err "invalid operations; multiple output token")

-- The loop of `execute_swap_operations`: the operation with the number of operations has a recipient.
unfoldable pub step_messages :
    (contract to : String)
    → (operations_len operation_index : ℕ) → List SwapOperation
    → List RouterMsg
step_messages contract to operations_len operation_index [] = []
step_messages contract to operations_len operation_index (op ∷ rest) =
    let index' = suc operation_index in
    call_router contract (swap_operation op (if index' == operations_len then some to else none))
    ∷ step_messages contract to operations_len index' rest

-- `operations.last().unwrap()`
unfoldable pub last_of : SwapOperation → List SwapOperation → SwapOperation
last_of op [] = op
last_of op (next ∷ rest) = last_of next rest

-- The message that checks the minimum, where there is one.
unfoldable pub minimum_message :
    Host → (contract to : String) → AssetInfo → Option ℕ → StdResult (List RouterMsg)
minimum_message h contract to target none = ok []
minimum_message h contract to target (some minimum_receive) = do
  receiver_balance ← query_pool h target to
  ok (call_router contract (assert_minimum_receive target receiver_balance minimum_receive to) ∷ [])

unfoldable pub execute_swap_operations :
    Host
    → Env
    → (sender : Addr) → List SwapOperation
    → Option ℕ
    → Option Addr
    → StdResult (List RouterMsg)
execute_swap_operations h env sender [] minimum_receive to =
    err (generic_err "must provide operations")
execute_swap_operations h env sender (op ∷ rest) minimum_receive to = do
  assert_operations (op ∷ rest)
  let recipient = receiver_or to sender
  let target = get_target_asset_info (last_of op rest)
  let messages = step_messages env.contract_address recipient (length (op ∷ rest)) 0 (op ∷ rest)
  guard ← minimum_message h env.contract_address recipient target minimum_receive
  ok (messages ++ guard)

-- The amounts that the source prints in the error are left out.
unfoldable pub assert_minium_receive :
    Host → AssetInfo → (prev_balance minium_receive : ℕ) → Addr → StdResult (List RouterMsg)
assert_minium_receive h asset_info prev_balance minium_receive receiver = do
  receiver_balance ← query_pool h asset_info receiver
  swap_amount ← map_err overflow (h.uint_checked_sub receiver_balance prev_balance)
  ensure (not (ltb swap_amount minium_receive))
      (generic_err "assertion failed; minimum receive amount")
  ok []

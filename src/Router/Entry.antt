-- ===== src/Router/Entry.antt =====
-- `execute`, `receive_cw20`, `query` and `simulate_swap_operations` of
-- contracts/terraswap_router/src/contract.rs.
use terraswap.Prelude.{
  Bool, List, Option, [], ensure, if◌then◌else◌, length, list_eq, nat_eq, not, ok, string_eq, suc,
  ℕ, ◌==◌, ◌>>=◌, ◌>>◌, ◌∷◌,
}
use terraswap.Asset.{AssetInfo, native_token, token}
use terraswap.Host.{Addr, Env, Host, MessageInfo, StdResult, generic_err}
use terraswap.Router.{
  Market, RouterConfig, RouterExecuteMsg, RouterHookMsg, RouterMsg, SwapOperation,
  assert_minimum_receive, assert_minium_receive, execute_swap_operations, hook_swap_operations,
  less_tax, load, native_swap, query_config, receive_hook_msg, swap_operation, swap_operations,
  terra_swap,
}
use terraswap.Router.Operations.{execute_swap_operation}
use terraswap.Stable.Contract.{optional_addr_validate}
use terraswap.Stable.Types.{Binary, Cw20ReceiveMsg}

pub data RouterQueryMsg : Type 0 where
  router_config : RouterQueryMsg
  simulate : (offer_amount : ℕ) → (operations : List SwapOperation) → RouterQueryMsg

-- What `query` encodes.
pub data RouterAnswer : Type 0 where
  config_answer : (terraswap_factory : Addr) → RouterAnswer
  amount_answer : (amount : ℕ) → RouterAnswer

module _ (h : Host) (market : Market) (store : Option RouterConfig) where
  unfoldable pub receive_cw20 :
      (from_binary : Binary → StdResult RouterHookMsg)
      → Env
      → Cw20ReceiveMsg
      → StdResult (List RouterMsg)
  receive_cw20 from_binary env cw20_msg = do
    sender ← h.addr_validate cw20_msg.sender
    hook ← from_binary cw20_msg.msg
    elim hook [
      | hook_swap_operations operations minimum_receive to ↦ do
        to_addr ← optional_addr_validate h to
        execute_swap_operations h env sender operations minimum_receive to_addr
    ]

  unfoldable pub execute :
      (from_binary : Binary → StdResult RouterHookMsg)
      → Env
      → MessageInfo
      → RouterExecuteMsg
      → StdResult (List RouterMsg)
  execute from_binary env message_info (receive_hook_msg msg) = receive_cw20 from_binary env msg
  execute from_binary env message_info (swap_operations operations minimum_receive to) = do
    to_addr ← optional_addr_validate h to
    execute_swap_operations h env message_info.sender operations minimum_receive to_addr
  execute from_binary env message_info (swap_operation operation to) = do
    to_addr ← optional_addr_validate h to
    execute_swap_operation h market store env message_info operation to_addr
  execute from_binary env message_info
        (assert_minimum_receive asset_info prev_balance minimum_receive receiver) =
      do
        receiver_addr ← h.addr_validate receiver
        assert_minium_receive h asset_info prev_balance minimum_receive receiver_addr

  -- The tax is taken of a native coin, and of a token nothing.
  unfoldable pub less_asset_tax : AssetInfo → ℕ → StdResult ℕ
  less_asset_tax (native_token denom) amount = less_tax h amount denom
  less_asset_tax (token contract_addr) amount = ok amount

  -- One round of the loop of `simulate_swap_operations`.
  unfoldable pub simulate_one :
      (terraswap_factory : Addr) → (is_last : Bool) → ℕ → SwapOperation → StdResult ℕ
  simulate_one terraswap_factory is_last offer_amount (native_swap offer_denom ask_denom) = do
    amount ← (if is_last then less_tax h offer_amount offer_denom else ok offer_amount)
    market.query_swap (record { denom = offer_denom; amount = amount }) ask_denom
  simulate_one terraswap_factory is_last offer_amount (terra_swap offer_asset_info ask_asset_info) =
      do
        pair_info ← market.query_pair terraswap_factory offer_asset_info ask_asset_info
        amount ← less_asset_tax offer_asset_info offer_amount
        return_amount ←
            market.simulation pair_info.contract_addr
              (record { info = offer_asset_info; amount = amount })
        less_asset_tax ask_asset_info return_amount

  unfoldable pub simulate_from :
      (terraswap_factory : Addr)
      → (operations_len operation_index : ℕ) → ℕ
      → List SwapOperation
      → StdResult ℕ
  simulate_from terraswap_factory operations_len operation_index offer_amount [] = ok offer_amount
  simulate_from terraswap_factory operations_len operation_index offer_amount (op ∷ rest) = do
    let index' = suc operation_index
    amount ← simulate_one terraswap_factory (index' == operations_len) offer_amount op
    simulate_from terraswap_factory operations_len index' amount rest

  unfoldable pub simulate_swap_operations : ℕ → List SwapOperation → StdResult ℕ
  simulate_swap_operations offer_amount operations = do
    config ← load store
    terraswap_factory ← h.addr_humanize config.terraswap_factory
    ensure (not (length operations == 0)) (generic_err "must provide operations")
    simulate_from terraswap_factory (length operations) 0 offer_amount operations

  -- `to_binary` encodes an answer.
  unfoldable pub router_query :
      (to_binary : RouterAnswer → StdResult Binary) → RouterQueryMsg → StdResult Binary
  router_query to_binary router_config =
      query_config h store >>= λ terraswap_factory. to_binary (config_answer terraswap_factory)
  router_query to_binary (simulate offer_amount operations) =
      simulate_swap_operations offer_amount operations >>= λ amount.
      to_binary (amount_answer amount)

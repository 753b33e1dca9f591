-- ===== src/Deprecated/Entry.antt =====
-- `execute` and `receive_cw20` of contracts/terraswap_pair_deprecated/src/contract.rs. `from_binary`
-- decodes a hook message.
pub mod Authority
use terraswap.Prelude.{
  Option, Outcome, [], ensure, list_eq, nat_eq, string_eq, ◌==◌, ◌>>=◌, ◌>>◌, ◌∷◌,
}
use terraswap.Asset.{is_native_token, token}
use terraswap.Deprecated.Bignum.{Bignum}
use terraswap.Deprecated.Pair.{load, two_pools}
use terraswap.Deprecated.Provide.{provide_liquidity, withdraw_liquidity}
use terraswap.Deprecated.Swap.{swap}
use terraswap.Deprecated.Types.{PairExecuteMsg, PairHookMsg, PairRaw}
use terraswap.Host.{Addr, Env, Host, MessageInfo, StdResult}
use terraswap.Stable.Contract.{is_pool_token, optional_addr_validate}
use terraswap.Stable.Types.{Binary, ContractError, Cw20ReceiveMsg, Response, from_std, unauthorized}

module _ (h : Host) where
  -- `addr_canonicalize(sender)? != liquidity_token`
  unfoldable pub assert_lp_sender : Addr → PairRaw → Outcome ContractError (Unit {0})
  assert_lp_sender sender config = do
    canonical ← from_std (h.addr_canonicalize sender)
    ensure (canonical == config.liquidity_token) unauthorized

module _ (n : Bignum) (h : Host) (from_binary : Binary → StdResult PairHookMsg) where
  unfoldable pub receive_hook :
      Option PairRaw
      → Env
      → MessageInfo
      → Cw20ReceiveMsg
      → PairHookMsg
      → Outcome ContractError Response
  receive_hook store env message_info cw20_msg (PairHookMsg.swap belief_price max_spread to) = do
    config ← from_std (load store)
    pools ← from_std (two_pools h config env.contract_address)
    ensure (is_pool_token message_info.sender (pools.0 ∷ pools.1 ∷ [])) unauthorized
    to_addr ← from_std (optional_addr_validate h to)
    swap n h store env message_info cw20_msg.sender
        (record { info = token message_info.sender; amount = cw20_msg.amount }) belief_price
        max_spread to_addr
  receive_hook store env message_info cw20_msg PairHookMsg.withdraw_liquidity = do
    config ← from_std (load store)
    assert_lp_sender h message_info.sender config
    sender_addr ← from_std (h.addr_validate cw20_msg.sender)
    withdraw_liquidity h store env sender_addr cw20_msg.amount

  unfoldable pub receive_cw20 :
      Option PairRaw → Env → MessageInfo → Cw20ReceiveMsg → Outcome ContractError Response
  receive_cw20 store env message_info cw20_msg = do
    hook ← from_std (from_binary cw20_msg.msg)
    receive_hook store env message_info cw20_msg hook

  unfoldable pub execute :
      Option PairRaw → Env → MessageInfo → PairExecuteMsg → Outcome ContractError Response
  execute store env message_info (PairExecuteMsg.receive msg) =
      receive_cw20 store env message_info msg
  execute store env message_info
        (PairExecuteMsg.provide_liquidity assets slippage_tolerance receiver) =
      provide_liquidity n h store env message_info assets slippage_tolerance receiver
  execute store env message_info (PairExecuteMsg.swap offer_asset belief_price max_spread to) = do
    ensure (is_native_token offer_asset.info) unauthorized
    to_addr ← from_std (optional_addr_validate h to)
    swap n h store env message_info message_info.sender offer_asset belief_price max_spread to_addr

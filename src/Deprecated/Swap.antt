-- ===== src/Deprecated/Swap.antt =====
-- `swap` and its simulations in contracts/terraswap_pair_deprecated/src/contract.rs.
pub mod Settled
pub mod Quote
pub mod Other
pub mod Mismatch
pub mod Returned
pub mod Answered
pub mod Delivered
use terraswap.Prelude.{
  List, Option, Outcome, [], if◌then◌else◌, list_eq, nat_eq, ok, string_eq, ◌==◌, ◌>>=◌, ◌>>◌, ◌∷◌,
}
use terraswap.Asset.{
  Asset, CosmosMsg, Cw20ExecuteMsg, assert_sent_native_token_balance, compute_tax, into_msg,
}
use terraswap.Deprecated.Bignum.{Bignum}
use terraswap.Deprecated.Pair.{load, pools_for, two_pools}
use terraswap.Deprecated.Price.{assert_max_spread, compute_offer_amount, compute_swap}
use terraswap.Deprecated.Types.{PairRaw, ReverseSimulation, Simulation}
use terraswap.Host.{Addr, Decimal, Env, Host, MessageInfo}
use terraswap.Stable.Provide.{receiver_or}
use terraswap.Stable.Types.{
  ContractError, Response, from_overflow, from_std, number, shown_info, text,
}

module _ (h : Host) where
  -- The message for what is returned: none if that is 0.
  unfoldable pub return_messages :
      Asset → (receiver : Addr) → Outcome ContractError (List (CosmosMsg Cw20ExecuteMsg))
  return_messages return_asset receiver =
      if return_asset.amount == 0
      then ok []
      else (from_std (into_msg h return_asset receiver) >>= λ msg. ok (msg ∷ []))

module _ (n : Bignum) (h : Host) where
  unfoldable pub swap :
      Option PairRaw
      → Env
      → MessageInfo
      → (sender : Addr) → (offer_asset : Asset) → (belief_price max_spread : Option Decimal)
      → (to : Option Addr) → Outcome ContractError Response
  swap store env message_info sender offer_asset belief_price max_spread to = do
    from_std (assert_sent_native_token_balance offer_asset message_info)
    pair_info ← from_std (load store)
    pools ← from_std (two_pools h pair_info env.contract_address)
    places ← pools_for offer_asset.info pools
    offer_pool ← from_overflow (h.uint_checked_sub places.0.amount offer_asset.amount)
    simulation ← from_std (compute_swap n offer_pool places.1.amount offer_asset.amount)
    gross ← from_std (h.uint_add simulation.return_amount simulation.commission_amount)
    assert_max_spread n belief_price max_spread offer_asset.amount gross simulation.spread_amount
    let return_asset : Asset = record { info = places.1.info; amount = simulation.return_amount }
    tax_amount ← from_std (compute_tax h return_asset)
    let receiver = receiver_or to sender
    messages ← return_messages h return_asset receiver
    ok (record {
      messages = messages;
      submessages = [];
      attributes =
          ("action", text "swap")
          ∷ ("sender", text sender)
          ∷ ("receiver", text receiver)
          ∷ ("offer_asset", shown_info offer_asset.info)
          ∷ ("ask_asset", shown_info places.1.info)
          ∷ ("offer_amount", number offer_asset.amount)
          ∷ ("return_amount", number simulation.return_amount)
          ∷ ("tax_amount", number tax_amount)
          ∷ ("spread_amount", number simulation.spread_amount)
          ∷ ("commission_amount", number simulation.commission_amount)
          ∷ [];
    })

  unfoldable pub query_simulation :
      Option PairRaw → (offer_asset : Asset) → Outcome ContractError Simulation
  query_simulation store offer_asset = do
    pair_info ← from_std (load store)
    contract_addr ← from_std (h.addr_humanize pair_info.contract_addr)
    pools ← from_std (two_pools h pair_info contract_addr)
    places ← pools_for offer_asset.info pools
    from_std (compute_swap n places.0.amount places.1.amount offer_asset.amount)

  unfoldable pub query_reverse_simulation :
      Option PairRaw → (ask_asset : Asset) → Outcome ContractError ReverseSimulation
  query_reverse_simulation store ask_asset = do
    pair_info ← from_std (load store)
    contract_addr ← from_std (h.addr_humanize pair_info.contract_addr)
    pools ← from_std (two_pools h pair_info contract_addr)
    places ← pools_for ask_asset.info pools
    compute_offer_amount n places.1.amount places.0.amount ask_asset.amount

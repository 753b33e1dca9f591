-- ===== src/Stable/Swap.antt =====
-- `swap` of contracts/terraswap_stable/src/contract.rs.
pub mod Foreign
pub mod Scanned
pub mod Paid
use terraswap.Prelude.{
  List, Option, Outcome, [], assert_that, if◌then◌else◌, index, list_eq, ltb, nat_eq, ok, string_eq,
  suc, unwrap, ℕ, ◌==◌, ◌>>=◌, ◌>>◌, ◌∷◌,
}
use terraswap.Checked.{as_u64}
use terraswap.Asset.{
  Asset, PairInfoRaw, assert_sent_native_token_balance, equal, into_msg, query_pools,
}
use terraswap.Host.{Addr, Env, Host, MessageInfo}
use terraswap.Stable.Curve.{exchange}
use terraswap.Stable.Provide.{receiver_or}
use terraswap.Stable.Types.{
  ContractError, Response, curve_of, from_overflow, from_std, load, number, shown_info, text,
}

-- The places that the loop over the pools finds.
pub record Places : Type 0 where
  pub i : ℕ
  pub j : ℕ
  pub ask_pool : Asset

-- One round of the loop: the pool of the offer is taken less the offer, which it already holds.
unfoldable pub visit :
    Host
    → (offer_asset ask_asset : Asset) → (place : ℕ) → Asset
    → Places
    → Outcome ContractError (Places × ℕ)
visit h offer_asset ask_asset place pool places =
    if equal offer_asset.info pool.info
    then (from_overflow (h.uint_checked_sub pool.amount offer_asset.amount) >>= λ amount.
        ok (record places { i = place }, amount))
    else if equal ask_asset.info pool.info
    then ok (record places { j = place; ask_pool = pool }, pool.amount)
    else ok (places, pool.amount)

-- The loop, from the pool at `place`, with the balances that it collects.
unfoldable pub scan :
    Host
    → (offer_asset ask_asset : Asset) → (place : ℕ) → List Asset
    → Places
    → Outcome ContractError (Places × List ℕ)
scan h offer_asset ask_asset place [] places = ok (places, [])
scan h offer_asset ask_asset place (pool ∷ pools) places = do
  visited ← visit h offer_asset ask_asset place pool places
  rest ← scan h offer_asset ask_asset (suc place) pools visited.0
  ok (rest.0, visited.1 ∷ rest.1)

-- `swap` from its call of the curve on.
unfoldable pub pay :
    Host
    → PairInfoRaw
    → (sender : Addr) → (offer_asset : Asset) → ℕ
    → Option Addr
    → Places
    → List ℕ
    → Outcome ContractError Response
pay h pair_info sender offer_asset min_out_amount to places balances = do
  return_amount ←
      unwrap (exchange (curve_of pair_info) places.i places.j (as_u64 offer_asset.amount) balances)
  assert_that (ltb min_out_amount return_amount)
  let receiver = receiver_or to sender
  messages ←
      (if return_amount == 0
        then ok []
        else (from_std
              (into_msg h (record { info = places.ask_pool.info; amount = return_amount }) receiver)
            >>= λ msg. ok (msg ∷ [])))
  ok (record {
    messages = messages;
    submessages = [];
    attributes =
        ("action", text "swap")
        ∷ ("sender", text sender)
        ∷ ("receiver", text receiver)
        ∷ ("offer_asset", shown_info offer_asset.info)
        ∷ ("ask_asset", shown_info places.ask_pool.info)
        ∷ ("offer_amount", number offer_asset.amount)
        ∷ ("return_amount", number return_amount)
        ∷ [];
  })

unfoldable pub swap :
    Host
    → Option PairInfoRaw
    → Env
    → MessageInfo
    → (sender : Addr) → (offer_asset ask_asset : Asset) → ℕ
    → Option Addr
    → Outcome ContractError Response
swap h store env message_info sender offer_asset ask_asset min_out_amount to = do
  from_std (assert_sent_native_token_balance offer_asset message_info)
  pair_info ← from_std (load store)
  pools ← from_std (query_pools h pair_info env.contract_address)
  first ← index pools 0
  scanned ← scan h offer_asset ask_asset 0 pools (record { i = 0; j = 0; ask_pool = first })
  pay h pair_info sender offer_asset min_out_amount to scanned.0 scanned.1

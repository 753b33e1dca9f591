-- ===== src/Deprecated/Swap/Delivered.antt =====
-- What `swap` of contracts/terraswap_pair_deprecated/src/contract.rs sends, as
-- `simulate_swap_operations` of contracts/terraswap_router/src/contract.rs counts on it.
use terraswap.Prelude.{
  >>=-elim, List, Option, [], ap, inl, inr, map_err, ok, ok-injective, refl, some, sym, ℕ, ◌∙◌, ◌∷◌,
  ◌≡◌, ◌⊎◌,
}
use terraswap.Asset.{
  Asset, AssetInfo, CosmosMsg, Cw20ExecuteMsg, bank_send, compute_tax, deduct_tax, into_msg,
  native_token, token, transfer, wasm_execute,
}
use terraswap.Deprecated.Bignum.{Bignum}
use terraswap.Deprecated.Pair.{two_pools}
use terraswap.Deprecated.Swap.{query_simulation, swap}
use terraswap.Deprecated.Swap.Quote.{HasReceived, swap-pays_simulation}
use terraswap.Deprecated.Swap.Settled.{IsPlaced, IsReturned}
use terraswap.Deprecated.Types.{PairRaw, Simulation}
use terraswap.Host.{Addr, Decimal, Env, Host, IsUint128, MessageInfo, StdError, overflow}
use terraswap.Router.{Market, RouterConfig, coin_tax, less_tax}
use terraswap.Router.Entry.{less_asset_tax}
use terraswap.Stable.Provide.{receiver_or}
use terraswap.Stable.Types.{Response}

-- The message pays `receiver` so much of the asset.
abbrev pub payment : AssetInfo → (receiver : Addr) → (paid : ℕ) → CosmosMsg Cw20ExecuteMsg
payment (token contract_addr) receiver paid = wasm_execute contract_addr (transfer receiver paid) []
payment (native_token denom) receiver paid =
    bank_send receiver (record { denom = denom; amount = paid } ∷ [])

-- The messages pay the amount less the tax, or nothing if the amount is 0.
abbrev pub IsDelivered :
    Host
    → Market
    → Option RouterConfig
    → AssetInfo
    → (amount : ℕ) → (receiver : Addr) → List (CosmosMsg Cw20ExecuteMsg)
    → Type 0
IsDelivered h market store info amount receiver messages =
    ((amount ≡ 0) × (messages ≡ []))
    ⊎ ((paid : ℕ) × (less_asset_tax h market store info amount ≡ ok paid)
        × (messages ≡ payment info receiver paid ∷ []))

module _ (h : Host) (market : Market) (store : Option RouterConfig) where
  payment_lem :
      (info : AssetInfo) (amount : ℕ) (receiver : Addr) (msg : CosmosMsg Cw20ExecuteMsg)
      → into_msg h (record { info = info; amount = amount }) receiver ≡ ok msg
      → (paid : ℕ) × (less_asset_tax h market store info amount ≡ ok paid)
        × (msg ≡ payment info receiver paid)
  unfolding into_msg deduct_tax compute_tax less_asset_tax less_tax coin_tax
  payment_lem (token contract_addr) amount receiver msg e =
      (amount, refl, sym (ok-injective {E = StdError} _ msg e))
  payment_lem (native_token denom) amount receiver msg e =
      >>=-elim (deduct_tax h (record { info = native_token denom; amount = amount })) _ e
        λ coin e₁ e₂.
          >>=-elim (compute_tax h (record { info = native_token denom; amount = amount })) _ e₁
            λ tax e₃ e₄.
              >>=-elim (map_err overflow (h.uint_checked_sub amount tax)) _ e₄ λ paid e₅ e₆.
                let same : record { denom = denom; amount = paid } ≡ coin =
                  ok-injective {E = StdError} _ coin e₆ in
                let sent : bank_send receiver (coin ∷ []) ≡ msg =
                  ok-injective {E = StdError} _ msg e₂ in
                (paid, rw e₃ e₅, rw same (sym sent))

  delivered_lem :
      (info : AssetInfo) (amount : ℕ) (receiver : Addr) (messages : List (CosmosMsg Cw20ExecuteMsg))
      → IsReturned h info amount receiver messages
      → IsDelivered h market store info amount receiver messages
  delivered_lem info amount receiver messages (inl nothing) = inl nothing
  delivered_lem info amount receiver messages (inr (msg, e, one)) =
      let (paid, taxed', same) = payment_lem info amount receiver msg e in
      inr (paid, taxed', one ∙ ap (λ m. m ∷ []) same)

-- A swap that succeeds after the offer came in sends the receiver the other asset of the pair,
-- in the amount that `query_simulation` gave before, less the tax as the router's simulation
-- takes it off on the chain of the swap, or nothing if that amount is 0, if the queries of the
-- pools differ by the offer only.
pub swap-delivers_simulation :
    (n : Bignum) (h h' : Host) (laws : IsUint128 h') (market : Market) (store : Option RouterConfig)
    (pair_info : PairRaw) (env : Env) (message_info : MessageInfo) (sender : Addr) (offer : Asset)
    (belief limit : Option Decimal) (to : Option Addr) (before after : Asset × Asset)
    {s : Simulation} {response : Response}
    → h.addr_humanize pair_info.contract_addr ≡ ok env.contract_address
    → two_pools h pair_info env.contract_address ≡ ok before
    → two_pools h' pair_info env.contract_address ≡ ok after
    → HasReceived offer before after
    → query_simulation n h (some pair_info) offer ≡ ok s
    → swap n h' (some pair_info) env message_info sender offer belief limit to ≡ ok response
    → (places : Asset × Asset) × IsPlaced offer.info before places
      × IsDelivered h' market store places.1.info s.return_amount
          (receiver_or to sender)
          response.messages
swap-delivers_simulation n h h' laws market store pair_info env message_info sender offer belief
      limit to before after {s} {response} human was is received quoted r =
    let (places, placed, returned) =
      swap-pays_simulation n h h' laws pair_info env message_info sender offer belief limit to
        before after human was is received quoted r in
    (
      places,
      placed,
      delivered_lem h' market store places.1.info s.return_amount (receiver_or to sender)
          response.messages returned,
    )

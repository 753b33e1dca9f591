-- ===== src/Deprecated/Swap/Quote.antt =====
-- `swap` of contracts/terraswap_pair_deprecated/src/contract.rs against `query_simulation`.
use terraswap.Prelude.{
  Option, Outcome, ap, arith, inl, inr, map_err-eq-ok, ok, ok-injective, refl, some, sym, ◌+◌, ◌∙◌,
  ◌≡◌, ◌≢◌, ◌⊎◌,
}
use terraswap.Asset.{Asset}
use terraswap.Asset.Equal.{equal_iff, equal_no}
use terraswap.Deprecated.Bignum.{Bignum}
use terraswap.Deprecated.Pair.{load, pools_for, two_pools}
use terraswap.Deprecated.Price.{compute_swap}
use terraswap.Deprecated.Swap.{query_simulation, swap}
use terraswap.Deprecated.Swap.Settled.{IsPlaced, IsReturned, pools_for-IsPlaced, swap_lem}
use terraswap.Deprecated.Types.{PairRaw, Simulation}
use terraswap.Host.{Addr, Decimal, Env, Host, IsUint128, MessageInfo, StdError}
use terraswap.Host.Sums.{host_sub-eq-ok}
use terraswap.Stable.Provide.{receiver_or}
use terraswap.Stable.Types.{ContractError, Response, std}

-- The pools before and after the pair receives the offer.
abbrev pub HasReceived : (offer : Asset) → (before after : Asset × Asset) → Type 0
HasReceived offer before after =
    ((offer.info ≡ before.0.info)
      × (after ≡ (record before.0 { amount = before.0.amount + offer.amount }, before.1)))
    ⊎ ((offer.info ≢ before.0.info)
        × (offer.info ≡ before.1.info)
        × (after ≡ (before.0, record before.1 { amount = before.1.amount + offer.amount })))

-- The places are the same, but for the offer.
places_lem :
    (offer : Asset) (before after : Asset × Asset)
    → HasReceived offer before after
    → (p q : Asset) × (pools_for offer.info before ≡ ok (p, q))
      × (pools_for offer.info after ≡ ok (record p { amount = p.amount + offer.amount }, q))
unfolding pools_for
places_lem offer (a, b) after (inl (same, e)) =
    let yes' = (equal_iff offer.info a.info).1 same in (a, b, rw yes' refl, rw e (rw yes' refl))
places_lem offer (a, b) after (inr (other', same, e)) =
    let yes' = (equal_iff offer.info b.info).1 same in
    let no' = equal_no offer.info a.info other' in
    (b, a, rw no' (rw yes' refl), rw e (rw no' (rw yes' refl)))

pub quote_lem :
    (n : Bignum) (h : Host) (pair_info : PairRaw) (addr : Addr) (offer : Asset)
    (before : Asset × Asset) (p q : Asset) {s : Simulation}
    → h.addr_humanize pair_info.contract_addr ≡ ok addr
    → two_pools h pair_info addr ≡ ok before
    → pools_for offer.info before ≡ ok (p, q)
    → query_simulation n h (some pair_info) offer ≡ ok s
    → compute_swap n p.amount q.amount offer.amount ≡ ok s
unfolding query_simulation load
quote_lem n h pair_info addr offer before p q human queried placed r =
    let r₁ = rw human at r in
    let r₂ = rw queried at r₁ in
    let r₃ = rw placed at r₂ in map_err-eq-ok std (compute_swap n p.amount q.amount offer.amount) r₃

-- A swap that succeeds after the offer came in sends the receiver the other asset of the pair,
-- in the amount that `query_simulation` gave before, whatever else the chain reports by then, if
-- the queries of the pools differ by the offer only.
pub swap-pays_simulation :
    (n : Bignum) (h h' : Host) (laws : IsUint128 h') (pair_info : PairRaw) (env : Env)
    (message_info : MessageInfo) (sender : Addr) (offer : Asset) (belief limit : Option Decimal)
    (to : Option Addr) (before after : Asset × Asset) {s : Simulation} {response : Response}
    → h.addr_humanize pair_info.contract_addr ≡ ok env.contract_address
    → two_pools h pair_info env.contract_address ≡ ok before
    → two_pools h' pair_info env.contract_address ≡ ok after
    → HasReceived offer before after
    → query_simulation n h (some pair_info) offer ≡ ok s
    → swap n h' (some pair_info) env message_info sender offer belief limit to ≡ ok response
    → (places : Asset × Asset) × IsPlaced offer.info before places
      × IsReturned h' places.1.info s.return_amount (receiver_or to sender) response.messages
swap-pays_simulation n h h' laws pair_info env message_info sender offer belief limit to before
      after {s} {response} human was is received quoted r =
    let (p, q, e, e') = places_lem offer before after received in
    let (pools, places, offer_pool, gross, s', e₁, e₂, e₃, e₄, e₅, e₆, returned) =
      swap_lem n h' pair_info env message_info sender offer belief limit to r in
    let price = quote_lem n h pair_info env.contract_address offer before p q human was e quoted in
    let same_pools : after ≡ pools = ok-injective {E = StdError} after pools (sym is ∙ e₁) in
    let placed : ◌≡◌ {A = Outcome ContractError (Asset × Asset)} (pools_for offer.info after)
        (ok places) =
      rw same_pools e₂ in
    let same_places : (record p { amount = p.amount + offer.amount }, q) ≡ places =
      ok-injective {E = ContractError} _ places (sym e' ∙ placed) in
    let (_, rest) = host_sub-eq-ok h' laws places.0.amount offer.amount e₃ in
    let paid : p.amount ≡ offer_pool =
      let e'' = ap (λ (x : Asset × Asset). x.0.amount) same_places in omega (arith, e'', rest) in
    let asked : q ≡ places.1 = ap (λ (x : Asset × Asset). x.1) same_places in
    let priced : compute_swap n p.amount q.amount offer.amount ≡ ok s' = rw (paid, asked) e₄ in
    let same : s' ≡ s = ok-injective {E = StdError} s' s (sym priced ∙ price) in
    ((p, q), pools_for-IsPlaced offer.info before (p, q) e, rw (asked, ← same) returned)

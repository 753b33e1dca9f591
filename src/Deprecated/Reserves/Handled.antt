-- ===== src/Deprecated/Reserves/Handled.antt =====
-- The handlers of contracts/terraswap_pair_deprecated/src/contract.rs as trades of the reserves.
use terraswap.Prelude.{
  List, Option, Outcome, String, [], ap, arith, ok, ok-injective, some, sym, ℕ, ◌++◌, ◌+◌, ◌-◌, ◌<◌,
  ◌∙◌, ◌∷◌, ◌≡◌, ◌≤◌,
}
use terraswap.Checked.{u128}
use terraswap.Asset.{
  Asset, AssetInfo, CosmosMsg, Cw20ExecuteMsg, burn, into_msg, mint, query_supply, wasm_execute,
}
use terraswap.Deprecated.Bignum.{Bignum}
use terraswap.Deprecated.Pair.{pools_for, two_pools}
use terraswap.Deprecated.Price.{compute_swap}
use terraswap.Deprecated.Provide.{deposit_of, withdraw_liquidity}
use terraswap.Deprecated.Provide.Refunded.{withdraw_lem}
use terraswap.Deprecated.Reserves.{Trade, sold_first, withdrawn}
use terraswap.Deprecated.Swap.{swap}
use terraswap.Deprecated.Swap.Settled.{IsReturned, swap_lem}
use terraswap.Deprecated.Types.{PairRaw}
use terraswap.Host.{Addr, Decimal, Env, Host, IsUint128, MessageInfo, StdError, decimal_one}
use terraswap.Host.Sums.{host_sub-eq-ok}
use terraswap.Stable.Provide.{receiver_or, take_deposit}
use terraswap.Stable.Types.{ContractError, Response}
use terraswap.Stable.Withdraw.ProRata.{refund_asset-info}

-- What is returned of `b` is sent to the receiver, and leaves its pool.
abbrev pub IsSwapTrade :
    Bignum → Host → AssetInfo → (p q total offer_amount : ℕ) → (receiver : Addr) → Response → Type 0
IsSwapTrade n h b p q total offer_amount receiver response =
    (paid : ℕ) × IsReturned h b paid receiver response.messages
    × Trade n h (record { first = p; second = q; total = total })
        (record { first = p + offer_amount; second = q - paid; total = total })

-- A swap that succeeds is a trade, as `IsSwapTrade` says: from the pool of the offer without it,
-- `p`, and the other pool, `q`, if the pool of the offer is at most 10^18, it sends the receiver
-- an amount that a trade takes out of `q` for the offer.
pub swap-Trade :
    (n : Bignum) (h : Host) (laws : IsUint128 h) (pair_info : PairRaw) (env : Env)
    (message_info : MessageInfo) (sender : Addr) (offer : Asset) (belief limit : Option Decimal)
    (to : Option Addr) (pools : Asset × Asset) (a b : AssetInfo) (p q total : ℕ)
    {response : Response}
    → two_pools h pair_info env.contract_address ≡ ok pools
    → pools_for offer.info pools
      ≡ ok (record { info = a; amount = p + offer.amount }, record { info = b; amount = q })
    → p + offer.amount ≤ decimal_one
    → swap n h (some pair_info) env message_info sender offer belief limit to ≡ ok response
    → IsSwapTrade n h b p q total offer.amount (receiver_or to sender) response
swap-Trade n h laws pair_info env message_info sender offer belief limit to pools a b p q total
      queried placed small r =
    let (pools', places, offer_pool, gross, s, e₁, e₂, e₃, e₄, e₅, e₆, returned) =
      swap_lem n h pair_info env message_info sender offer belief limit to r in
    let same_pools : pools ≡ pools' = ok-injective {E = StdError} pools pools' (sym queried ∙ e₁) in
    let known : ◌≡◌ {A = Outcome ContractError (Asset × Asset)} (pools_for offer.info pools)
        (ok places) =
      rw same_pools e₂ in
    let same : (record { info = a; amount = p + offer.amount }, record { info = b; amount = q })
        ≡ places =
      ok-injective {E = ContractError} _ places (sym placed ∙ known) in
    let (_, rest) = host_sub-eq-ok h laws places.0.amount offer.amount e₃ in
    let taken : p ≡ offer_pool =
      let e = ap (λ (x : Asset × Asset). x.0.amount) same in omega (arith, e, rest) in
    let asked : q ≡ places.1.amount = ap (λ (x : Asset × Asset). x.1.amount) same in
    let info : b ≡ places.1.info = ap (λ (x : Asset × Asset). x.1.info) same in
    let priced : compute_swap n p q offer.amount ≡ ok s = rw (taken, asked) e₄ in
    (s.return_amount, rw info returned, sold_first offer.amount small priced)

-- The deposits are added to the pools before them, and the share to the supply.
abbrev pub IsDepositTrade :
    Bignum
    → Host
    → PairRaw
    → Env
    → (sender : Addr) → (assets : Asset × Asset) → (lp : Addr) → (total : ℕ) → (receiver : String)
    → Response
    → Type 0
IsDepositTrade n h pair_info env sender assets lp total receiver response =
    (pools : Asset × Asset) × (first second : List (CosmosMsg Cw20ExecuteMsg) × Asset) × (d0 d1
      share : ℕ)
    × (two_pools h pair_info env.contract_address ≡ ok pools)
    × (deposit_of assets pools.0 ≡ ok d0)
    × (deposit_of assets pools.1 ≡ ok d1)
    × (take_deposit h sender env.contract_address pools.0 d0 ≡ ok first)
    × (take_deposit h sender env.contract_address pools.1 d1 ≡ ok second)
    × (response.messages ≡ first.0 ++ (second.0 ++ (wasm_execute lp (mint receiver share) [] ∷ [])))
    × Trade n h (record { first = first.1.amount; second = second.1.amount; total = total })
        (record {
          first = first.1.amount + d0;
          second = second.1.amount + d1;
          total = total + share;
        })

-- The refunds that are sent are of the pools' assets and leave them in their order, and the tokens burnt leave the supply.
abbrev pub IsWithdrawTrade :
    Bignum
    → Host
    → (sender lp : Addr) → (amount total : ℕ) → (pools : Asset × Asset) → Response
    → Type 0
IsWithdrawTrade n h sender lp amount total pools response =
    (first second : Asset) × (first_msg second_msg : CosmosMsg Cw20ExecuteMsg) × (first.info
      ≡ pools.0.info)
    × (second.info ≡ pools.1.info)
    × (into_msg h first sender ≡ ok first_msg)
    × (into_msg h second sender ≡ ok second_msg)
    × (response.messages ≡ first_msg ∷ second_msg ∷ wasm_execute lp (burn amount) [] ∷ [])
    × Trade n h (record { first = pools.0.amount; second = pools.1.amount; total = total })
        (record {
          first = pools.0.amount - first.amount;
          second = pools.1.amount - second.amount;
          total = total - amount;
        })

-- A withdrawal that succeeds of less than the supply, from pools that fit 128 bits, is a trade,
-- as `IsWithdrawTrade` says: its messages send the refunds, which are of the assets of the two
-- pools in their order, and burn the tokens, and a trade takes the refunds out of these pools
-- and the tokens out of the supply.
pub withdraw_liquidity-Trade :
    (n : Bignum) (h : Host) (pair_info : PairRaw) (env : Env) (sender lp : Addr) (amount total : ℕ)
    (pools : Asset × Asset) {response : Response}
    → h.addr_humanize pair_info.liquidity_token ≡ ok lp
    → two_pools h pair_info env.contract_address ≡ ok pools
    → query_supply h lp ≡ ok total
    → amount < total
    → pools.0.amount < u128
    → pools.1.amount < u128
    → withdraw_liquidity h (some pair_info) env sender amount ≡ ok response
    → IsWithdrawTrade n h sender lp amount total pools response
withdraw_liquidity-Trade n h pair_info env sender lp amount total pools human queried supply less
      small0 small1 r =
    let (ratio, first, second, first_msg, second_msg, e₁, e₂, e₃, e₄, e₅, sent) =
      withdraw_lem h pair_info env sender lp amount total pools human queried supply r in
    (
      first,
      second,
      first_msg,
      second_msg,
      refund_asset-info h ratio pools.0 first e₂,
      refund_asset-info h ratio pools.1 second e₃,
      e₄,
      e₅,
      sent,
      withdrawn amount pools.0.info pools.1.info less small0 small1 e₁ e₂ e₃,
    )

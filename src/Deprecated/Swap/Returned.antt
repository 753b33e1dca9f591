-- ===== src/Deprecated/Swap/Returned.antt =====
-- When `swap` of contracts/terraswap_pair_deprecated/src/contract.rs has a result.
use terraswap.Prelude.{
  Bool-cases, List, Option, String, [], arith, inl, inr, le→leb, lt→ltb, nat_beq, none, ok, refl,
  some, ℕ, ◌*◌, ◌+◌, ◌-◌, ◌<◌, ◌∙◌, ◌∷◌, ◌≡◌, ◌≤◌,
}
use terraswap.Checked.{u128}
use terraswap.Asset.{
  Asset, CosmosMsg, Cw20ExecuteMsg, assert_sent_native_token_balance, compute_tax, into_msg, token,
  transfer, wasm_execute,
}
use terraswap.Deprecated.Bignum.{Bignum, FitsBignum, IsBignum, u256}
use terraswap.Deprecated.Pair.{load, pools_for, two_pools}
use terraswap.Deprecated.Price.{assert_max_spread}
use terraswap.Deprecated.Price.Product.{compute_swap-IsPriced}
use terraswap.Deprecated.Price.Returns.{compute_swap-returns}
use terraswap.Deprecated.Swap.{return_messages, swap}
use terraswap.Deprecated.Types.{PairRaw}
use terraswap.Host.{Addr, Decimal, Env, Host, IsUint128, MessageInfo, decimal_one}
use terraswap.Stable.Provide.{receiver_or}
use terraswap.Stable.Types.{Response}

-- The numbers of a price fit their widths, and the pool of the offer times its sum with the offer is at
-- most 10^18 times the offer times the other pool, so that the spread does not fall below 0.
abbrev pub IsPriceable : (offer_pool ask_pool offer_amount : ℕ) → Type 0
IsPriceable op ask o =
    (0 < op)
    × (ask < u128)
    × (op + o < u256)
    × (op * ask * decimal_one < u256)
    × (o * (ask * decimal_one) < u256)
    × (o * ask < op * u128)
    × (op * (op + o) ≤ o * (ask * decimal_one))

-- A token is sent without tax.
return_messages-token :
    (h : Host) (contract_addr : String) (amount : ℕ) (receiver : Addr)
    → (messages : List (CosmosMsg Cw20ExecuteMsg)) × (return_messages h
          (record { info = token contract_addr; amount = amount })
          receiver
        ≡ ok messages)
unfolding return_messages into_msg
return_messages-token h contract_addr amount receiver = elim (Bool-cases (nat_beq amount 0)) [
  | inl zero' ↦ ([], rw zero' refl)
  | inr more ↦ (wasm_execute contract_addr (transfer receiver amount) [] ∷ [], rw more refl)
]

token_tax :
    (h : Host) (contract_addr : String) (amount : ℕ)
    → compute_tax h (record { info = token contract_addr; amount = amount }) ≡ ok 0
unfolding compute_tax
token_tax h contract_addr amount = refl

-- Without a limit any spread is accepted.
unlimited :
    (n : Bignum) (belief : Option Decimal) (offer_amount return_amount spread_amount : ℕ)
    → assert_max_spread n belief none offer_amount return_amount spread_amount ≡ ok tt
unfolding assert_max_spread
unlimited n none offer_amount return_amount spread_amount = refl
unlimited n (some belief_price) offer_amount return_amount spread_amount = refl

-- A swap for a token of the pair, without a limit of the spread, returns a response, if its
-- coins were sent, the pools can be queried and hold the offer, and the price is computable as
-- `IsPriceable` says: the numbers fit their widths, and the pool of the offer, without it, times
-- the same pool with it is at most 10^18 times the offer times the other pool.
pub swap-returns :
    (n : Bignum) (sums : IsBignum n) (fits : FitsBignum n) (h : Host) (laws : IsUint128 h)
    (pair_info : PairRaw) (env : Env) (message_info : MessageInfo) (sender : Addr) (offer : Asset)
    (belief : Option Decimal) (to : Option Addr) (pools : Asset × Asset) (pool : Asset)
    (contract_addr : String) (ask : ℕ)
    → assert_sent_native_token_balance offer message_info ≡ ok tt
    → two_pools h pair_info env.contract_address ≡ ok pools
    → pools_for offer.info pools ≡ ok (pool, record { info = token contract_addr; amount = ask })
    → offer.amount ≤ pool.amount
    → IsPriceable (pool.amount - offer.amount) ask offer.amount
    → (response : Response) × (swap n h
          (some pair_info)
          env
          message_info
          sender
          offer
          belief
          none
          to
        ≡ ok response)
unfolding swap load
swap-returns n sums fits h laws pair_info env message_info sender offer belief to pools pool
      contract_addr ask sent queried placed enough
      (pos, small, sum, product, offered, expected, wide) =
    let op = pool.amount - offer.amount in
    let o = offer.amount in
    let (s, priced) =
      compute_swap-returns n fits op ask o pos small sum product offered expected wide in
    let (_, most, _, _, _, _) = compute_swap-IsPriced n sums op ask o priced in
    let taken : h.uint_checked_sub pool.amount o ≡ ok op =
      laws.checked_sub_lem pool.amount o ∙ rw (le→leb o pool.amount enough) refl in
    let gross : h.uint_add s.return_amount s.commission_amount
        ≡ ok (s.return_amount + s.commission_amount) =
      laws.add_lem s.return_amount s.commission_amount
      ∙ rw (lt→ltb (s.return_amount + s.commission_amount) u128 (omega (arith, most, small)))
          refl in
    let (messages, given) =
      return_messages-token h contract_addr s.return_amount (receiver_or to sender) in
    let checked = unlimited n belief o (s.return_amount + s.commission_amount) s.spread_amount in
    rw sent (
      rw queried (
        rw placed (
          rw taken (
            rw priced (
              rw gross (
                rw checked
                  (rw (token_tax h contract_addr s.return_amount) (rw given (_, refl)))))))))

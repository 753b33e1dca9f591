-- ===== src/Deprecated/Swap/Settled.antt =====
-- What `swap` of contracts/terraswap_pair_deprecated/src/contract.rs sends.
use terraswap.Prelude.{
  >>=-elim, Bool-cases, List, Option, Outcome, [], ap, err, inl, inr, map_err-eq-ok, nat_beq,
  nat_beq_iff, ok, ok-injective, refl, some, sym, ℕ, ◌+◌, ◌-◌, ◌∷◌, ◌≡◌, ◌≤◌, ◌⊎◌,
}
use terraswap.Asset.{
  Asset, AssetInfo, CosmosMsg, Cw20ExecuteMsg, assert_sent_native_token_balance, compute_tax, equal,
  into_msg,
}
use terraswap.Asset.Equal.{equal_iff}
use terraswap.Deprecated.Bignum.{Bignum, IsBignum}
use terraswap.Deprecated.Pair.{load, pools_for, two_pools}
use terraswap.Deprecated.Price.{assert_max_spread, compute_swap}
use terraswap.Deprecated.Price.Checks.{IsWithinSpread, assert_max_spread-IsWithinSpread}
use terraswap.Deprecated.Price.Product.{IsPriced, compute_swap-IsPriced}
use terraswap.Deprecated.Swap.{return_messages, swap}
use terraswap.Deprecated.Types.{PairRaw, Simulation}
use terraswap.Host.{Addr, Decimal, Env, Host, IsUint128, MessageInfo}
use terraswap.Host.Sums.{host_add-eq-ok, host_sub-eq-ok}
use terraswap.Stable.Provide.{receiver_or}
use terraswap.Stable.Types.{
  ContractError, Response, asset_mismatch, from_overflow, from_std, overflow_error, std,
}

-- The messages send `receiver` the amount returned, or nothing if that is 0.
abbrev pub IsReturned :
    Host → AssetInfo → (amount : ℕ) → (receiver : Addr) → List (CosmosMsg Cw20ExecuteMsg) → Type 0
IsReturned h info amount receiver messages =
    ((amount ≡ 0) × (messages ≡ []))
    ⊎ ((msg : CosmosMsg Cw20ExecuteMsg) × (into_msg h (record { info = info; amount = amount })
            receiver
          ≡ ok msg)
        × (messages ≡ msg ∷ []))

returned_lem :
    (h : Host) (info : AssetInfo) (amount : ℕ) (receiver : Addr)
    {messages : List (CosmosMsg Cw20ExecuteMsg)}
    → return_messages h (record { info = info; amount = amount }) receiver ≡ ok messages
    → IsReturned h info amount receiver messages
unfolding return_messages
returned_lem h info amount receiver {messages} e = elim (Bool-cases (nat_beq amount 0)) [
  | inl zero' ↦ inl ((nat_beq_iff amount 0).0 zero', sym (ok-injective [] messages (rw zero' at e)))
  | inr more ↦
      let e₁ = rw more at e in
      >>=-elim (from_std (into_msg h (record { info = info; amount = amount }) receiver)) _ e₁
        λ msg e₂ e₃. inr (
          msg,
          map_err-eq-ok std (into_msg h (record { info = info; amount = amount }) receiver) e₂,
          sym (ok-injective (msg ∷ []) messages e₃),
        )
]

-- What a swap computes on the way: the pools, that of the offer less the offer, and the price.
abbrev pub IsSwapRun :
    Bignum
    → Host
    → PairRaw
    → Env
    → (offer : Asset) → (belief_price max_spread : Option Decimal) → (receiver : Addr) → Response
    → Type 0
IsSwapRun n h pair_info env offer belief limit receiver response =
    (pools places : Asset × Asset) × (offer_pool gross : ℕ) × (s : Simulation) × (two_pools h
        pair_info env.contract_address
      ≡ ok pools)
    × (pools_for offer.info pools ≡ ok places)
    × (h.uint_checked_sub places.0.amount offer.amount ≡ ok offer_pool)
    × (compute_swap n offer_pool places.1.amount offer.amount ≡ ok s)
    × (h.uint_add s.return_amount s.commission_amount ≡ ok gross)
    × (assert_max_spread n belief limit offer.amount gross s.spread_amount ≡ ok tt)
    × IsReturned h places.1.info s.return_amount receiver response.messages

pub swap_lem :
    (n : Bignum) (h : Host) (pair_info : PairRaw) (env : Env) (message_info : MessageInfo)
    (sender : Addr) (offer : Asset) (belief limit : Option Decimal) (to : Option Addr)
    {response : Response}
    → swap n h (some pair_info) env message_info sender offer belief limit to ≡ ok response
    → IsSwapRun n h pair_info env offer belief limit (receiver_or to sender) response
unfolding swap load
swap_lem n h pair_info env message_info sender offer belief limit to {response} r =
    >>=-elim (from_std (assert_sent_native_token_balance offer message_info)) _ r λ _ _ r₁.
      >>=-elim (from_std (two_pools h pair_info env.contract_address)) _ r₁ λ pools e₁ r₂.
        >>=-elim (pools_for offer.info pools) _ r₂ λ places e₂ r₃.
          >>=-elim (from_overflow (h.uint_checked_sub places.0.amount offer.amount)) _ r₃
            λ offer_pool e₃ r₄.
              >>=-elim (from_std (compute_swap n offer_pool places.1.amount offer.amount)) _ r₄
                λ s e₄ r₅.
                  >>=-elim (from_std (h.uint_add s.return_amount s.commission_amount)) _ r₅
                    λ gross e₅ r₆.
                      >>=-elim (assert_max_spread n belief limit offer.amount gross s.spread_amount)
                        _ r₆
                        λ _ e₆ r₇.
                          let given : Asset = record {
                            info = places.1.info;
                            amount = s.return_amount;
                          } in
                          >>=-elim (from_std (compute_tax h given)) _ r₇ λ _ _ r₈.
                            >>=-elim (return_messages h given (receiver_or to sender)) _ r₈
                              λ messages e₇ r₉. (
                                pools,
                                places,
                                offer_pool,
                                gross,
                                s,
                                map_err-eq-ok std _ e₁,
                                e₂,
                                map_err-eq-ok overflow_error _ e₃,
                                map_err-eq-ok std _ e₄,
                                map_err-eq-ok std _ e₅,
                                e₆,
                                rw
                                    (← ap (λ (x : Response). x.messages)
                                      (ok-injective _ response r₉))
                                    (returned_lem h places.1.info s.return_amount
                                      (receiver_or to sender) e₇),
                              )

-- The pool of the offer and the other one, in either order of the pair's pools.
abbrev pub IsPlaced : AssetInfo → (pools places : Asset × Asset) → Type 0
IsPlaced wanted pools places =
    (wanted ≡ places.0.info) × ((places ≡ pools) ⊎ (places ≡ (pools.1, pools.0)))

pub pools_for-IsPlaced :
    (wanted : AssetInfo) (pools places : Asset × Asset)
    → pools_for wanted pools ≡ ok places
    → IsPlaced wanted pools places
unfolding pools_for
pools_for-IsPlaced wanted (a, b) places e = elim (Bool-cases (equal wanted a.info)) [
  | inl first ↦
      let same = ok-injective (a, b) places (rw first at e) in
      rw (← same) ((equal_iff wanted a.info).0 first, inl refl)
  | inr other' ↦ elim (Bool-cases (equal wanted b.info)) [
    | inl second ↦
        let same = ok-injective (b, a) places (rw second at (rw other' at e)) in
        rw (← same) ((equal_iff wanted b.info).0 second, inr refl)
    | inr neither ↦ absurd (refused (rw neither at (rw other' at e)))
  ]
]
  where
    refused :
        {p : Asset × Asset}
        → ◌≡◌ {A = Outcome ContractError (Asset × Asset)} (err asset_mismatch) (ok p)
        → ⊥
    refused x = absurd (cc)

-- The offer is taken out of its pool again, and the rest is priced as `IsPriced` says, within the
-- spread that the sender allows. What is returned is sent to the receiver.
abbrev pub IsSettled :
    Host
    → (pools : Asset × Asset) → (offer : Asset) → (belief_price max_spread : Option Decimal)
    → (receiver : Addr) → Response
    → Type 0
IsSettled h pools offer belief limit receiver response =
    (places : Asset × Asset) × (s : Simulation) × IsPlaced offer.info pools places
    × (offer.amount ≤ places.0.amount)
    × IsPriced (places.0.amount - offer.amount) places.1.amount offer.amount s
    × IsWithinSpread belief limit offer.amount (s.return_amount + s.commission_amount)
        s.spread_amount
    × IsReturned h places.1.info s.return_amount receiver response.messages

-- A swap that succeeds is settled as `IsSettled` says: the offer is taken out of its pool again,
-- and the rest is priced as `IsPriced` says, within the spread that the sender allows: what is
-- returned with the commission keeps the product of the pools, up to a ratio's rounding, and
-- with 1 more is no less than all that the product allows, and the commission is 3 in 1000 of
-- it. What is returned, if it is not 0, is sent to the receiver in one message.
pub swap-IsSettled :
    (n : Bignum) (sums : IsBignum n) (h : Host) (laws : IsUint128 h) (pair_info : PairRaw)
    (env : Env) (message_info : MessageInfo) (sender : Addr) (offer : Asset)
    (belief limit : Option Decimal) (to : Option Addr) {response : Response}
    → swap n h (some pair_info) env message_info sender offer belief limit to ≡ ok response
    → (pools : Asset × Asset) × (two_pools h pair_info env.contract_address ≡ ok pools)
      × IsSettled h pools offer belief limit (receiver_or to sender) response
swap-IsSettled n sums h laws pair_info env message_info sender offer belief limit to r =
    let (pools, places, offer_pool, gross, s, e₁, e₂, e₃, e₄, e₅, e₆, returned) =
      swap_lem n h pair_info env message_info sender offer belief limit to r in
    let (enough, rest) = host_sub-eq-ok h laws places.0.amount offer.amount e₃ in
    let total = host_add-eq-ok h laws s.return_amount s.commission_amount e₅ in
    let priced = compute_swap-IsPriced n sums offer_pool places.1.amount offer.amount e₄ in
    let spread =
      assert_max_spread-IsWithinSpread n sums belief limit offer.amount gross s.spread_amount e₆ in
    (
      pools,
      e₁,
      (
        places,
        s,
        pools_for-IsPlaced offer.info pools places e₂,
        enough,
        rw (← rest) priced,
        rw (← total) spread,
        returned,
      ),
    )

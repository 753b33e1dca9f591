-- ===== src/Deprecated/Provide/Minted.antt =====
-- What a `provide_liquidity` of contracts/terraswap_pair_deprecated/src/contract.rs that succeeds sends.
use terraswap.Prelude.{
  >>=-elim, List, Option, String, [], ap, arith, ensure, ensure-eq-ok, list_eq, map_err-eq-ok,
  nat_beq, nat_eq, not, ok, ok-injective, some, string_eq, sym, true, ℕ, ◌++◌, ◌<◌, ◌==◌, ◌∷◌, ◌≡◌,
  ◌⊎◌,
}
use terraswap.Asset.{
  Asset, CosmosMsg, Cw20ExecuteMsg, assert_sent_native_token_balance, mint, query_supply,
  wasm_execute,
}
use terraswap.Deprecated.Bignum.{Bignum}
use terraswap.Deprecated.Pair.{load, two_pools}
use terraswap.Deprecated.Price.{assert_slippage_tolerance}
use terraswap.Deprecated.Price.Checks.{IsWithinSlippage}
use terraswap.Deprecated.Provide.{deposit_of, provide_liquidity, share_of}
use terraswap.Deprecated.Provide.Share.{IsShare}
use terraswap.Deprecated.Types.{PairRaw}
use terraswap.Host.{Addr, Decimal, Env, Host, MessageInfo}
use terraswap.Stable.Provide.{receiver_or, take_deposit}
use terraswap.Stable.Types.{Response, from_std, invalid_zero_amount, std}

-- The asset is the pool's: its amount is the deposit.
abbrev pub IsDeposit : Asset × Asset → Asset → ℕ → Type 0
IsDeposit (first, second) pool paid =
    ((first.info ≡ pool.info) × (first.amount ≡ paid))
    ⊎ ((second.info ≡ pool.info) × (second.amount ≡ paid))

-- What a deposit computes on the way: the pools, the deposits, the messages that transfer them with
-- the pools before them, the supply and the share.
abbrev pub IsProvideRun :
    Bignum
    → Host
    → PairRaw
    → Env
    → MessageInfo
    → (assets : Asset × Asset) → (slippage_tolerance : Option Decimal) → (receiver : String)
    → Response
    → Type 0
IsProvideRun n h pair_info env message_info assets tolerance receiver response =
    (pools : Asset × Asset) × (first second : List (CosmosMsg Cw20ExecuteMsg) × Asset) × (d0 d1
      total share : ℕ)
    × (lp : Addr) × (two_pools h pair_info env.contract_address ≡ ok pools)
    × (deposit_of assets pools.0 ≡ ok d0)
    × (deposit_of assets pools.1 ≡ ok d1)
    × (take_deposit h message_info.sender env.contract_address pools.0 d0 ≡ ok first)
    × (take_deposit h message_info.sender env.contract_address pools.1 d1 ≡ ok second)
    × (assert_slippage_tolerance n tolerance (d0, d1) (first.1.amount, second.1.amount) ≡ ok tt)
    × (h.addr_humanize pair_info.liquidity_token ≡ ok lp)
    × (query_supply h lp ≡ ok total)
    × (share_of n h total (d0, d1) (first.1.amount, second.1.amount) ≡ ok share)
    × (0 < share)
    × (response.messages ≡ first.0 ++ (second.0 ++ (wasm_execute lp (mint receiver share) [] ∷ [])))

-- The messages of `response` transfer the deposits of the tokens and then mint `share` tokens for
-- `receiver`. The pools by which the share is computed are those before the deposits.
abbrev pub IsMinted :
    Host
    → PairRaw
    → Env
    → MessageInfo
    → (assets : Asset × Asset) → (slippage_tolerance : Option Decimal) → (receiver : String)
    → Response
    → Type 0
IsMinted h pair_info env message_info assets tolerance receiver response =
    (pools : Asset × Asset) × (first second : List (CosmosMsg Cw20ExecuteMsg) × Asset) × (d0 d1
      total share : ℕ)
    × (lp : Addr) × (two_pools h pair_info env.contract_address ≡ ok pools)
    × IsDeposit assets pools.0 d0
    × IsDeposit assets pools.1 d1
    × (take_deposit h message_info.sender env.contract_address pools.0 d0 ≡ ok first)
    × (take_deposit h message_info.sender env.contract_address pools.1 d1 ≡ ok second)
    × IsWithinSlippage tolerance (d0, d1) (first.1.amount, second.1.amount)
    × (h.addr_humanize pair_info.liquidity_token ≡ ok lp)
    × (query_supply h lp ≡ ok total)
    × IsShare total (d0, d1) (first.1.amount, second.1.amount) share
    × (0 < share)
    × (response.messages ≡ first.0 ++ (second.0 ++ (wasm_execute lp (mint receiver share) [] ∷ [])))

pub provide_lem :
    (n : Bignum) (h : Host) (pair_info : PairRaw) (env : Env) (message_info : MessageInfo)
    (assets : Asset × Asset) (tolerance : Option Decimal) (receiver : Option String)
    {response : Response}
    → provide_liquidity n h (some pair_info) env message_info assets tolerance receiver
      ≡ ok response
    → IsProvideRun n h pair_info env message_info assets tolerance
        (receiver_or receiver message_info.sender)
        response
unfolding provide_liquidity load
provide_lem n h pair_info env message_info (a0, a1) tolerance receiver {response} r =
    let human = h.addr_humanize pair_info.liquidity_token in
    let sender = message_info.sender in
    let contract = env.contract_address in
    >>=-elim (from_std (assert_sent_native_token_balance a0 message_info)) _ r λ _ _ r₁.
      >>=-elim (from_std (assert_sent_native_token_balance a1 message_info)) _ r₁ λ _ _ r₂.
        >>=-elim (from_std (two_pools h pair_info contract)) _ r₂ λ pools e₁ r₃.
          >>=-elim (deposit_of (a0, a1) pools.0) _ r₃ λ d0 e₂ r₄.
            >>=-elim (deposit_of (a0, a1) pools.1) _ r₄ λ d1 e₃ r₅.
              >>=-elim (take_deposit h sender contract pools.0 d0) _ r₅ λ first e₄ r₆.
                >>=-elim (take_deposit h sender contract pools.1 d1) _ r₆ λ second e₅ r₇.
                  let amounts : ℕ × ℕ = (first.1.amount, second.1.amount) in
                  >>=-elim (assert_slippage_tolerance n tolerance (d0, d1) amounts) _ r₇ λ _ e₆ r₈.
                    >>=-elim (from_std human) _ r₈ λ lp e₇ r₉.
                      >>=-elim (from_std (query_supply h lp)) _ r₉ λ total e₈ r₁₀.
                        >>=-elim (share_of n h total (d0, d1) amounts) _ r₁₀ λ share e₉ r₁₁.
                          >>=-elim (ensure (not (share == 0)) invalid_zero_amount) _ r₁₁
                            λ _ e₁₀ r₁₂.
                              let human_e = map_err-eq-ok std human e₇ in
                              let r₁₃ = rw human_e at r₁₂ in
                              (
                                pools,
                                first,
                                second,
                                d0,
                                d1,
                                total,
                                share,
                                lp,
                                map_err-eq-ok std _ e₁,
                                e₂,
                                e₃,
                                e₄,
                                e₅,
                                e₆,
                                human_e,
                                map_err-eq-ok std _ e₈,
                                e₉,
                                not_zero share (ensure-eq-ok _ _ e₁₀),
                                ap (λ (x : Response). x.messages)
                                    (sym (ok-injective _ response r₁₃)),
                              )
  where
    not_zero : (a : ℕ) → not (nat_beq a 0) ≡ true → 0 < a
    not_zero a e = ground arith

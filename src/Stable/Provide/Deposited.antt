-- ===== src/Stable/Provide/Deposited.antt =====
-- What a `provide_liquidity` of contracts/terraswap_stable/src/contract.rs that succeeds sends.
use terraswap.Prelude.{
  >>=-elim, List, Option, String, [], ap, arith, ensure, ensure-eq-ok, inl, inr, list_eq, ltb,
  map_err-eq-ok, nat_beq, nat_eq, not, ok, ok-injective, some, string_eq, sym, true, unwrap,
  unwrap-eq-ok, ℕ, ◌++◌, ◌<◌, ◌==◌, ◌∷◌, ◌≡◌, ◌≤◌, ◌⊎◌,
}
use terraswap.Checked.{as_u64}
use terraswap.Asset.{
  Asset, CosmosMsg, Cw20ExecuteMsg, PairInfoRaw, mint, query_pools, query_supply, wasm_execute,
}
use terraswap.Host.{Addr, Env, Host, IsUint128, MessageInfo}
use terraswap.Stable.Liquidity.{deposit}
use terraswap.Stable.Liquidity.Deposit.{IsFairMint, deposit_no_dilution}
use terraswap.Stable.Provide.{
  add_deposits, amounts_of, assert_all_sent, match_deposits, provide_liquidity, receiver_or,
  share_for, take_deposits,
}
use terraswap.Stable.Provide.Taken.{IsTaken, taken_lem}
use terraswap.Stable.Types.{
  Response, curve_of, from_std, invalid_zero_amount, load, max_slippage_assertion, std,
}

-- The assets given are those of the pools, in their order. The messages of `response` transfer the
-- tokens among them and then mint `share`
-- tokens for `receiver`: what `deposit` gives for the pools before and after the deposits, which is a
-- fair mint if some tokens are out, at least the last 64 bits of the minimum, and not 0.
abbrev pub IsDeposited :
    Host
    → PairInfoRaw
    → Env
    → MessageInfo
    → List Asset
    → (min_out_amount : ℕ) → (receiver : String) → Response
    → Type 0
IsDeposited h pair_info env message_info assets min_out_amount receiver response =
    (pools before : List Asset) × (new_balances : List ℕ) × (transfers : List
      (CosmosMsg Cw20ExecuteMsg))
    × (total share : ℕ) × (lp : Addr) × (query_pools h pair_info env.contract_address ≡ ok pools)
    × IsTaken message_info.sender env.contract_address assets pools transfers before new_balances
    × (h.addr_humanize pair_info.liquidity_token ≡ ok lp)
    × (query_supply h lp ≡ ok total)
    × (deposit (curve_of pair_info) (amounts_of before) new_balances (as_u64 total) ≡ ok share)
    × ((as_u64 total ≡ 0)
        ⊎ IsFairMint (curve_of pair_info) (amounts_of before) new_balances (as_u64 total) share)
    × (as_u64 min_out_amount ≤ share)
    × (0 < share)
    × (response.messages ≡ transfers ++ (wasm_execute lp (mint receiver share) [] ∷ []))

share_lem :
    (pair_info : PairInfoRaw) (total min_out : ℕ) (pools : List Asset) (deposits : List ℕ)
    {share : ℕ}
    → share_for pair_info total min_out pools deposits ≡ ok share
    → (new_balances : List ℕ) × (add_deposits pools deposits ≡ ok new_balances)
      × (deposit (curve_of pair_info) (amounts_of pools) new_balances (as_u64 total) ≡ ok share)
      × (as_u64 min_out ≤ share)
      × (0 < share)
unfolding share_for
share_lem pair_info total min_out pools deposits {share} r =
    >>=-elim (add_deposits pools deposits) _ r λ new_balances e₁ r₁.
      >>=-elim
        (unwrap (deposit (curve_of pair_info) (amounts_of pools) new_balances (as_u64 total))) _ r₁
        λ minted e₂ r₂.
          >>=-elim (ensure (not (ltb minted (as_u64 min_out))) max_slippage_assertion) _ r₂
            λ _ e₃ r₃. >>=-elim (ensure (not (minted == 0)) invalid_zero_amount) _ r₃ λ _ e₄ r₄.
              let enough : as_u64 min_out ≤ minted =
                not_ltb minted (as_u64 min_out) (ensure-eq-ok _ _ e₃) in
              let some' : 0 < minted = not_zero minted (ensure-eq-ok _ _ e₄) in
              rw (← ok-injective minted share r₄)
                (new_balances, e₁, unwrap-eq-ok _ e₂, enough, some')
  where
    not_ltb : (a b : ℕ) → not (ltb a b) ≡ true → b ≤ a
    not_ltb a b h = ground arith

    not_zero : (a : ℕ) → not (nat_beq a 0) ≡ true → 0 < a
    not_zero a h = ground arith

fair_lem :
    (pair_info : PairInfoRaw) (old new : List ℕ) (supply : ℕ) {share : ℕ}
    → deposit (curve_of pair_info) old new supply ≡ ok share
    → (supply ≡ 0) ⊎ IsFairMint (curve_of pair_info) old new supply share
fair_lem pair_info old new supply e = elim (zero_or_more supply) [
  | inl empty ↦ inl empty
  | inr more ↦ inr (deposit_no_dilution (curve_of pair_info) old new supply more e)
]
  where
    zero_or_more : (a : ℕ) → (a ≡ 0) ⊎ (0 < a)
    zero_or_more a = ground arith

-- A deposit that succeeds is sent as `IsDeposited` says: the assets given are those of the
-- pools, as many and in their order; its messages transfer the tokens among them and then mint
-- for the receiver what the curve gives for the pools without and with the deposits, which is a
-- fair mint, as `IsFairMint` says, unless the last 64 bits of the supply are 0, at least the
-- last 64 bits of the minimum, and not 0.
pub provide_liquidity-IsDeposited :
    (h : Host) (laws : IsUint128 h) (pair_info : PairInfoRaw) (env : Env)
    (message_info : MessageInfo) (assets : List Asset) (min_out_amount : ℕ)
    (receiver : Option String) {response : Response}
    → provide_liquidity h (some pair_info) env message_info assets min_out_amount receiver
      ≡ ok response
    → IsDeposited h pair_info env message_info assets min_out_amount
        (receiver_or receiver message_info.sender)
        response
unfolding provide_liquidity load
provide_liquidity-IsDeposited h laws pair_info env message_info assets min_out_amount receiver
      {response} r =
    let human = h.addr_humanize pair_info.liquidity_token in
    >>=-elim (assert_all_sent assets message_info) _ r λ _ _ r₁.
      >>=-elim (from_std (query_pools h pair_info env.contract_address)) _ r₁ λ pools e₁ r₂.
        >>=-elim (match_deposits assets pools) _ r₂ λ deposits e₂ r₃.
          >>=-elim (take_deposits h message_info.sender env.contract_address pools deposits) _ r₃
            λ taken e₃ r₄. >>=-elim (from_std human) _ r₄ λ lp e₄ r₅.
              >>=-elim (from_std (query_supply h lp)) _ r₅ λ total e₅ r₆.
                >>=-elim (share_for pair_info total min_out_amount taken.1 deposits) _ r₆
                  λ share e₆ r₇.
                    let human_e = map_err-eq-ok std human e₄ in
                    let r₈ = rw human_e at r₇ in
                    let (new_balances, added, minted, enough, some') =
                      share_lem pair_info total min_out_amount taken.1 deposits e₆ in
                    (
                      pools,
                      taken.1,
                      new_balances,
                      taken.0,
                      total,
                      share,
                      lp,
                      map_err-eq-ok std (query_pools h pair_info env.contract_address) e₁,
                      taken_lem h laws message_info.sender env.contract_address assets pools
                          deposits taken new_balances e₂ e₃ added,
                      human_e,
                      map_err-eq-ok std (query_supply h lp) e₅,
                      minted,
                      fair_lem pair_info (amounts_of taken.1) new_balances (as_u64 total) minted,
                      enough,
                      some',
                      ap (λ (x : Response). x.messages) (sym (ok-injective _ response r₈)),
                    )

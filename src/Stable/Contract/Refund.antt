-- ===== src/Stable/Contract/Refund.antt =====
-- Who receives the coins of `withdraw_single_liquidity` (contracts/terraswap_stable/src/contract.rs).
use terraswap.Prelude.{
  >>=-elim, Bool-cases, List, [], ap, arith, assert_that, assert_that-eq-ok, ensure-eq-ok,
  get_elem?, inl, inr, list_beq_iff, list_eq, ltb, ltb→lt, map_err-eq-ok, nat_eq, ok, ok-injective,
  refl, some, string_eq, suc, sym, unwrap, unwrap-eq-ok, ℕ, ◌+◌, ◌<◌, ◌>>◌, ◌∷◌, ◌≡◌,
}
use terraswap.Checked.{as_u64, as_u8}
use terraswap.Asset.{
  Asset, AssetInfo, CosmosMsg, Cw20ExecuteMsg, PairInfoRaw, burn, equal, into_msg, query_pools,
  query_supply, wasm_execute,
}
use terraswap.Asset.Equal.{equal_iff}
use terraswap.Host.{Addr, Env, Host, MessageInfo, StdResult}
use terraswap.Stable.Contract.{assert_liquidity_token, receive_cw20, receive_hook}
use terraswap.Stable.Liquidity.{remove_liquidity_single_token}
use terraswap.Stable.Liquidity.Withdrawal.{IsSinglePayment, remove_single-lt-curve}
use terraswap.Stable.Provide.{amounts_of}
use terraswap.Stable.Types.{
  Binary, ContractError, Cw20HookMsg, Cw20ReceiveMsg, Response, curve_of, from_std, load, std,
  unauthorized,
}
use terraswap.Stable.Withdraw.{find_pool, found, withdraw_single_liquidity}

pub assert_liquidity_token_lem :
    (h : Host) (sender : Addr) (config : PairInfoRaw) (u : Unit {0})
    → assert_liquidity_token h sender config ≡ ok u
    → h.addr_canonicalize sender ≡ ok config.liquidity_token
unfolding assert_liquidity_token
assert_liquidity_token_lem h sender config u e =
    >>=-elim (from_std (h.addr_canonicalize sender)) _ e λ canonical e₁ e₂.
      let same : canonical ≡ config.liquidity_token =
        (list_beq_iff canonical config.liquidity_token).0 (ensure-eq-ok _ unauthorized e₂) in
      rw (← same) (map_err-eq-ok std (h.addr_canonicalize sender) e₁)

-- The refund is of the pool at a place of the asset wanted, and what the curve pays for the tokens
-- there, more than the last 64 bits of the minimum.
abbrev pub IsSingleRefund :
    Host
    → PairInfoRaw
    → Env
    → (wanted : Asset) → (unmint_amount min_out_amount : ℕ) → (lp : Addr) → Asset
    → Type 0
IsSingleRefund h pair_info env wanted unmint_amount min_out_amount lp refund =
    (pools : List Asset) × (total place : ℕ) × (pool : Asset) × (query_pools h pair_info
        env.contract_address
      ≡ ok pools)
    × (query_supply h lp ≡ ok total)
    × (get_elem? pools place ≡ some pool)
    × (wanted.info ≡ pool.info)
    × (refund.info ≡ pool.info)
    × (as_u64 min_out_amount < refund.amount)
    × IsSinglePayment (curve_of pair_info) (amounts_of pools) (as_u64 unmint_amount) (as_u8 place)
        (as_u64 total) refund.amount

find_pool-get_elem :
    (wanted : AssetInfo) (start : ℕ) (pools : List Asset) {place : ℕ × Asset}
    → found (find_pool wanted start pools) ≡ ok place
    → (k : ℕ) × (place.0 ≡ start + k) × (get_elem? pools k ≡ some place.1) × (wanted ≡ place.1.info)
unfolding find_pool
find_pool-get_elem wanted start [] e = absurd (cc)
find_pool-get_elem wanted start (pool ∷ pools) {place} e =
    elim (Bool-cases (equal wanted pool.info)) [
      | inl y ↦
          let same = ok-injective {E = ContractError} (start, pool) place (rw y at e) in
          rw (← same) (0, omega arith, refl, (equal_iff wanted pool.info).0 y)
      | inr n ↦
          let (k, e', there, same) = find_pool-get_elem wanted (suc start) pools (rw n at e) in
          (suc k, omega (arith, e'), there, same)
    ]

-- A withdrawal of a single coin that succeeds pays the sender of the message, and burns the tokens.
single_lem :
    (h : Host) (pair_info : PairInfoRaw) (env : Env) (message_info : MessageInfo) (wanted : Asset)
    (unmint_amount min_out_amount : ℕ) {response : Response}
    → withdraw_single_liquidity h
        (some pair_info)
        env
        message_info
        wanted
        unmint_amount
        min_out_amount
      ≡ ok response
    → (refund : Asset) × (refund_msg : CosmosMsg Cw20ExecuteMsg) × (contract_addr : Addr)
      × (h.addr_humanize pair_info.liquidity_token ≡ ok contract_addr)
      × IsSingleRefund h pair_info env wanted unmint_amount min_out_amount contract_addr refund
      × (into_msg h refund message_info.sender ≡ ok refund_msg)
      × (response.messages ≡ refund_msg ∷ wasm_execute contract_addr (burn unmint_amount) [] ∷ [])
unfolding withdraw_single_liquidity load
single_lem h pair_info env message_info wanted unmint_amount min_out_amount {response} r =
    let human = h.addr_humanize pair_info.liquidity_token in
    >>=-elim (from_std human) _ r λ lp e₀ r₁.
      let human_e = map_err-eq-ok std human e₀ in
      >>=-elim (from_std (query_pools h pair_info env.contract_address)) _ r₁ λ pools e₁ r₂.
        >>=-elim (from_std (query_supply h lp)) _ r₂ λ total e₂ r₃.
          >>=-elim (found (find_pool wanted.info 0 pools)) _ r₃ λ place e₃ r₄.
            let burnt = as_u64 unmint_amount in
            let (k, same, there, of_pool) = find_pool-get_elem wanted.info 0 pools e₃ in
            let at : place.0 ≡ k = omega (arith, same) in
            let curve = curve_of pair_info in
            >>=-elim
              (unwrap (
                remove_liquidity_single_token curve (amounts_of pools) burnt (as_u8 place.0)
                  (as_u64 total)))
              _ r₄
              λ out e₄ r₅. >>=-elim (assert_that (ltb (as_u64 min_out_amount) out)) _ r₅ λ _ e₅ r₆.
                let refund : Asset = record { info = place.1.info; amount = out } in
                >>=-elim (from_std (into_msg h refund message_info.sender)) _ r₆ λ refund_msg e₆ r₇.
                  let r₈ = rw human_e at r₇ in
                  (
                    refund,
                    refund_msg,
                    lp,
                    human_e,
                    (
                      pools,
                      total,
                      k,
                      place.1,
                      map_err-eq-ok std _ e₁,
                      map_err-eq-ok std _ e₂,
                      there,
                      of_pool,
                      refl,
                      ltb→lt (as_u64 min_out_amount) out (assert_that-eq-ok _ e₅),
                      rw (← at) (
                          remove_single-lt-curve curve (amounts_of pools) burnt (as_u8 place.0)
                            (as_u64 total) (unwrap-eq-ok _ e₄)),
                    ),
                    map_err-eq-ok std (into_msg h refund message_info.sender) e₆,
                    ap (λ (x : Response). x.messages) (sym (ok-injective _ response r₈)),
                  )

-- The messages of `response` pay a refund to `sender`, which is the liquidity token of the pair, and
-- burn `burnt` tokens.
abbrev pub PaysSender :
    (h : Host)
    → PairInfoRaw
    → Env
    → (wanted : Asset) → (min_out_amount : ℕ) → (sender : Addr) → (burnt : ℕ) → Response
    → Type 0
PaysSender h pair_info env wanted min_out_amount sender burnt response =
    (refund : Asset) × (refund_msg : CosmosMsg Cw20ExecuteMsg) × (contract_addr : Addr)
    × (h.addr_canonicalize sender ≡ ok pair_info.liquidity_token)
    × (h.addr_humanize pair_info.liquidity_token ≡ ok contract_addr)
    × IsSingleRefund h pair_info env wanted burnt min_out_amount contract_addr refund
    × (into_msg h refund sender ≡ ok refund_msg)
    × (response.messages ≡ refund_msg ∷ wasm_execute contract_addr (burn burnt) [] ∷ [])

-- A hook message that is read as the withdrawal of a single coin and succeeds pays the message's
-- sender, which is the liquidity token itself, a refund of the coin wanted, as `IsSingleRefund`
-- says: what the curve pays for the tokens, more than the last 64 bits of the minimum. It burns
-- the tokens. The holder who sent the tokens is `cw20_msg.sender`.
pub single_refund_recipient :
    (h : Host) (from_binary : Binary → StdResult Cw20HookMsg) (pair_info : PairInfoRaw) (env : Env)
    (message_info : MessageInfo) (cw20_msg : Cw20ReceiveMsg) (wanted : Asset) (min_out_amount : ℕ)
    {response : Response}
    → from_binary cw20_msg.msg ≡ ok (Cw20HookMsg.withdraw_single_liquidity wanted min_out_amount)
    → receive_cw20 h from_binary (some pair_info) env message_info cw20_msg ≡ ok response
    → PaysSender h pair_info env wanted min_out_amount message_info.sender cw20_msg.amount response
unfolding receive_cw20 receive_hook load
single_refund_recipient h from_binary pair_info env message_info cw20_msg wanted min_out_amount
      {response} e r =
    let single : (assert_liquidity_token h message_info.sender pair_info
          >> withdraw_single_liquidity h (some pair_info) env message_info wanted cw20_msg.amount
              min_out_amount)
        ≡ ok response =
      rw e at r in
    >>=-elim (assert_liquidity_token h message_info.sender pair_info) _ single λ u e₁ r₁.
      let (refund, refund_msg, contract_addr, human, single_refund, paid, messages) =
        single_lem h pair_info env message_info wanted cw20_msg.amount min_out_amount r₁ in
      (
        refund,
        refund_msg,
        contract_addr,
        assert_liquidity_token_lem h message_info.sender pair_info u e₁,
        human,
        single_refund,
        paid,
        messages,
      )

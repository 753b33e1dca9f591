-- ===== src/Stable/Contract/Access.antt =====
-- Who may call the hooks of contracts/terraswap_stable/src/contract.rs.
use text.Mathlib.TextEquality.{eq_iff}
use terraswap.Prelude.{
  >>=-elim, Bool-cases, List, [], ap, ensure, ensure-eq-ok, inl, inr, map_err-eq-ok, ok, some, true,
  ◌∷◌, ◌≡◌, ◌⊎◌,
}
use terraswap.Asset.{Asset, AssetInfo, PairInfoRaw, native_token, query_pools, token}
use terraswap.Host.{Addr, Env, Host, MessageInfo, StdResult}
use terraswap.Stable.Contract.{
  assert_liquidity_token, is_pool_token, is_token_at, receive_cw20, receive_hook,
}
use terraswap.Stable.Contract.Refund.{assert_liquidity_token_lem}
use terraswap.Stable.Types.{
  Binary, Cw20HookMsg, Cw20ReceiveMsg, Response, from_std, load, std, unauthorized,
}

-- One of the pools is that of the token contract at the address.
abbrev pub HoldsToken : Addr → List Asset → Type 0
HoldsToken sender [] = ⊥
HoldsToken sender (pool ∷ pools) = (pool.info ≡ token sender) ⊎ HoldsToken sender pools

is_token_at_lem : (sender : Addr) (i : AssetInfo) → is_token_at sender i ≡ true → i ≡ token sender
unfolding is_token_at
is_token_at_lem sender (token contract_addr) e = ap token ((eq_iff contract_addr sender).0 e)
is_token_at_lem sender (native_token denom) e = cc

pub is_pool_token-HoldsToken :
    (sender : Addr) (pools : List Asset)
    → is_pool_token sender pools ≡ true
    → HoldsToken sender pools
unfolding is_pool_token
is_pool_token-HoldsToken sender [] e = absurd (cc)
is_pool_token-HoldsToken sender (pool ∷ pools) e =
    elim (Bool-cases (is_token_at sender pool.info)) [
      | inl here ↦ inl (is_token_at_lem sender pool.info here)
      | inr there ↦ inr (is_pool_token-HoldsToken sender pools (rw there at e))
    ]

-- What the sender of a hook message must be: for a swap the contract of one of the tokens that the
-- pair holds, and for a withdrawal the liquidity token.
abbrev pub IsAuthorized : Host → PairInfoRaw → Env → Addr → Cw20HookMsg → Type 0
IsAuthorized h pair_info env sender (Cw20HookMsg.swap ask_asset min_out_amount to) =
    (pools : List Asset) × (query_pools h pair_info env.contract_address ≡ ok pools)
    × HoldsToken sender pools
IsAuthorized h pair_info env sender (Cw20HookMsg.withdraw_single_liquidity wanted min_out_amount) =
    h.addr_canonicalize sender ≡ ok pair_info.liquidity_token
IsAuthorized h pair_info env sender Cw20HookMsg.withdraw_liquidity =
    h.addr_canonicalize sender ≡ ok pair_info.liquidity_token

hook-IsAuthorized :
    (h : Host) (from_binary : Binary → StdResult Cw20HookMsg) (pair_info : PairInfoRaw) (env : Env)
    (message_info : MessageInfo) (cw20_msg : Cw20ReceiveMsg) (hook : Cw20HookMsg)
    {response : Response}
    → receive_hook h from_binary (some pair_info) env message_info cw20_msg hook ≡ ok response
    → IsAuthorized h pair_info env message_info.sender hook
unfolding receive_hook load
hook-IsAuthorized h from_binary pair_info env message_info cw20_msg
      (Cw20HookMsg.swap ask min_out to) r =
    >>=-elim (from_std (query_pools h pair_info env.contract_address)) _ r λ pools e₁ r₁.
      >>=-elim (ensure (is_pool_token message_info.sender pools) unauthorized) _ r₁ λ u e₂ r₂. (
        pools,
        map_err-eq-ok std (query_pools h pair_info env.contract_address) e₁,
        is_pool_token-HoldsToken message_info.sender pools (ensure-eq-ok _ unauthorized e₂),
      )
hook-IsAuthorized h from_binary pair_info env message_info cw20_msg
      (Cw20HookMsg.withdraw_single_liquidity wanted min_out) r =
    >>=-elim (assert_liquidity_token h message_info.sender pair_info) _ r
      λ u e₁ r₁. assert_liquidity_token_lem h message_info.sender pair_info u e₁
hook-IsAuthorized h from_binary pair_info env message_info cw20_msg Cw20HookMsg.withdraw_liquidity
      r =
    >>=-elim (assert_liquidity_token h message_info.sender pair_info) _ r
      λ u e₁ r₁. assert_liquidity_token_lem h message_info.sender pair_info u e₁

-- A hook message that succeeds was decoded, and its sender is authorized for it: for a swap it
-- is the contract of a token that the pair holds, and for a withdrawal the liquidity token.
pub receive_cw20-IsAuthorized :
    (h : Host) (from_binary : Binary → StdResult Cw20HookMsg) (pair_info : PairInfoRaw) (env : Env)
    (message_info : MessageInfo) (cw20_msg : Cw20ReceiveMsg) {response : Response}
    → receive_cw20 h from_binary (some pair_info) env message_info cw20_msg ≡ ok response
    → (hook : Cw20HookMsg) × (from_binary cw20_msg.msg ≡ ok hook)
      × IsAuthorized h pair_info env message_info.sender hook
unfolding receive_cw20
receive_cw20-IsAuthorized h from_binary pair_info env message_info cw20_msg r =
    >>=-elim (from_std (from_binary cw20_msg.msg)) _ r λ hook e r₁. (
      hook,
      map_err-eq-ok std (from_binary cw20_msg.msg) e,
      hook-IsAuthorized h from_binary pair_info env message_info cw20_msg hook r₁,
    )

-- ===== src/Deprecated/Entry/Authority.antt =====
-- Who may call the entry points of contracts/terraswap_pair_deprecated/src/contract.rs.
use terraswap.Prelude.{
  >>=-elim, [], ensure, ensure-eq-ok, list_beq_iff, list_eq, map_err-eq-ok, nat_eq, ok, some,
  string_eq, true, ◌∷◌, ◌≡◌,
}
use terraswap.Asset.{Asset, is_native_token}
use terraswap.Deprecated.Bignum.{Bignum}
use terraswap.Deprecated.Entry.{assert_lp_sender, execute, receive_cw20, receive_hook}
use terraswap.Deprecated.Pair.{load, two_pools}
use terraswap.Deprecated.Types.{PairExecuteMsg, PairHookMsg, PairRaw}
use terraswap.Host.{Addr, Env, Host, MessageInfo, StdResult}
use terraswap.Stable.Contract.{is_pool_token}
use terraswap.Stable.Contract.Access.{HoldsToken, is_pool_token-HoldsToken}
use terraswap.Stable.Types.{Binary, Cw20ReceiveMsg, Response, from_std, std, unauthorized}

abbrev pub IsHookSender : Host → PairRaw → Env → Addr → PairHookMsg → Type 0
IsHookSender h config env sender (PairHookMsg.swap belief_price max_spread to) =
    (pools : Asset × Asset) × (two_pools h config env.contract_address ≡ ok pools)
    × HoldsToken sender (pools.0 ∷ pools.1 ∷ [])
IsHookSender h config env sender PairHookMsg.withdraw_liquidity =
    h.addr_canonicalize sender ≡ ok config.liquidity_token

-- What `execute` asks of a message and of its sender: a hook message is decoded, and its sender is
-- the contract of a token of the pair or the liquidity token; a swap offers a native coin.
abbrev pub IsAllowed :
    Host
    → (from_binary : Binary → StdResult PairHookMsg) → PairRaw
    → Env
    → Addr
    → PairExecuteMsg
    → Type 0
IsAllowed h from_binary config env sender (PairExecuteMsg.receive cw20_msg) =
    (hook : PairHookMsg) × (from_binary cw20_msg.msg ≡ ok hook)
    × IsHookSender h config env sender hook
IsAllowed h from_binary config env sender
      (PairExecuteMsg.provide_liquidity assets slippage_tolerance receiver) =
    Unit
IsAllowed h from_binary config env sender
      (PairExecuteMsg.swap offer_asset belief_price max_spread to) =
    is_native_token offer_asset.info ≡ true

assert_lp_sender_lem :
    (h : Host) (sender : Addr) (config : PairRaw) {u : Unit {0}}
    → assert_lp_sender h sender config ≡ ok u
    → h.addr_canonicalize sender ≡ ok config.liquidity_token
unfolding assert_lp_sender
assert_lp_sender_lem h sender config e =
    >>=-elim (from_std (h.addr_canonicalize sender)) _ e λ canonical e₁ e₂.
      let same : canonical ≡ config.liquidity_token =
        (list_beq_iff canonical config.liquidity_token).0 (ensure-eq-ok _ unauthorized e₂) in
      rw (← same) (map_err-eq-ok std (h.addr_canonicalize sender) e₁)

hook-IsHookSender :
    (n : Bignum) (h : Host) (from_binary : Binary → StdResult PairHookMsg) (config : PairRaw)
    (env : Env) (message_info : MessageInfo) (cw20_msg : Cw20ReceiveMsg) (hook : PairHookMsg)
    {response : Response}
    → receive_hook n h from_binary (some config) env message_info cw20_msg hook ≡ ok response
    → IsHookSender h config env message_info.sender hook
unfolding receive_hook load
hook-IsHookSender n h from_binary config env message_info cw20_msg
      (PairHookMsg.swap belief_price max_spread to) r =
    >>=-elim (from_std (two_pools h config env.contract_address)) _ r λ pools e₁ r₁.
      >>=-elim (ensure (is_pool_token message_info.sender (pools.0 ∷ pools.1 ∷ [])) unauthorized) _
        r₁
        λ _ e₂ _. (
          pools,
          map_err-eq-ok std (two_pools h config env.contract_address) e₁,
          is_pool_token-HoldsToken message_info.sender (pools.0 ∷ pools.1 ∷ [])
              (ensure-eq-ok _ unauthorized e₂),
        )
hook-IsHookSender n h from_binary config env message_info cw20_msg PairHookMsg.withdraw_liquidity
      r =
    >>=-elim (assert_lp_sender h message_info.sender config) _ r
      λ _ e₁ _. assert_lp_sender_lem h message_info.sender config e₁

-- A message that succeeds is allowed, as `IsAllowed` says: a hook message was decoded and comes,
-- for a swap, from the contract of a token that the pair holds and, for a withdrawal, from the
-- liquidity token; a swap that is called directly offers a native coin.
pub execute-IsAllowed :
    (n : Bignum) (h : Host) (from_binary : Binary → StdResult PairHookMsg) (config : PairRaw)
    (env : Env) (message_info : MessageInfo) (msg : PairExecuteMsg) {response : Response}
    → execute n h from_binary (some config) env message_info msg ≡ ok response
    → IsAllowed h from_binary config env message_info.sender msg
unfolding execute receive_cw20
execute-IsAllowed n h from_binary config env message_info (PairExecuteMsg.receive cw20_msg) r =
    >>=-elim (from_std (from_binary cw20_msg.msg)) _ r λ hook e r₁. (
      hook,
      map_err-eq-ok std (from_binary cw20_msg.msg) e,
      hook-IsHookSender n h from_binary config env message_info cw20_msg hook r₁,
    )
execute-IsAllowed n h from_binary config env message_info
      (PairExecuteMsg.provide_liquidity assets slippage_tolerance receiver) r =
    tt
execute-IsAllowed n h from_binary config env message_info
      (PairExecuteMsg.swap offer_asset belief_price max_spread to) r =
    >>=-elim (ensure (is_native_token offer_asset.info) unauthorized) _ r
      λ _ e _. ensure-eq-ok _ unauthorized e

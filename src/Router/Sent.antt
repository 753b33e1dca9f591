-- ===== src/Router/Sent.antt =====
-- The messages of `execute_swap_operation` (contracts/terraswap_router/src/operations.rs) against the
-- check that a pair makes of the coins it is sent (packages/terraswap/src/asset.rs).
use text.Mathlib.TextEquality.{eq_iff}
use terraswap.Prelude.{
  >>=-elim, All, List, Option, String, [], ensure, ensure-eq-ok, list_eq, nat_beq_refl, nat_eq,
  none, ok, ok-injective, refl, some, string_eq, ℕ, ◌==◌, ◌∷◌, ◌≡◌,
}
use terraswap.Asset.{
  AssetInfo, assert_sent_native_token_balance, find_coin, native_token, query_balance, query_pool,
  token,
}
use terraswap.Host.{Addr, Env, Host, MessageInfo, generic_err}
use terraswap.Router.{
  Market, RouterConfig, RouterMsg, SwapOperation, call_pair, call_router, create_swap_msg,
  create_swap_send_msg, less_tax, load, native_swap, send_token, terra_swap,
}
use terraswap.Router.Operations.{
  asset_into_swap_msg, execute_swap_operation, market_swap, pair_swap,
}

-- A call of a pair by `sender` names just the coins that it carries.
abbrev pub IsSent : (sender : Addr) → RouterMsg → Type 0
IsSent sender (call_pair contract funds msg) =
    assert_sent_native_token_balance msg.offer_asset (record { sender = sender; funds = funds })
    ≡ ok tt
IsSent sender (call_router contract msg) = Unit
IsSent sender (send_token token_addr contract amount msg) = Unit
IsSent sender (create_swap_msg coin ask) = Unit
IsSent sender (create_swap_send_msg to_address coin ask) = Unit

sent_coin :
    (sender denom : String) (amount : ℕ) (i : AssetInfo)
    → i ≡ native_token denom
    → assert_sent_native_token_balance
        (record { info = i; amount = amount })
        (record { sender = sender; funds = record { denom = denom; amount = amount } ∷ [] })
      ≡ ok tt
unfolding assert_sent_native_token_balance find_coin
sent_coin sender denom amount i e = rw (e, (eq_iff denom denom).1 refl, nat_beq_refl amount) refl

into_swap-IsSent :
    (h : Host) (pair_contract sender : Addr) (i : AssetInfo) (amount : ℕ) (to : Option String)
    (msg : RouterMsg)
    → asset_into_swap_msg h pair_contract (record { info = i; amount = amount }) none to ≡ ok msg
    → IsSent sender msg
unfolding asset_into_swap_msg
into_swap-IsSent h pair_contract sender (native_token denom) amount to msg e =
    >>=-elim (less_tax h amount denom) _ e λ net e₁ e₂.
      rw (← ok-injective _ msg e₂) (sent_coin sender denom net (native_token denom) refl)
into_swap-IsSent h pair_contract sender (token contract_addr) amount to msg e =
    rw (← ok-injective _ msg e) tt

pair_swap-IsSent :
    (h : Host) (market : Market) (store : Option RouterConfig) (env : Env) (sender : Addr)
    (offer ask : AssetInfo) (to : Option String) (messages : List RouterMsg)
    → pair_swap h market store env offer ask to ≡ ok messages
    → All (IsSent sender) messages
unfolding pair_swap
pair_swap-IsSent h market store env sender offer ask to messages e =
    >>=-elim (load store) _ e λ config _ e₁.
      >>=-elim (h.addr_humanize config.terraswap_factory) _ e₁ λ factory _ e₂.
        >>=-elim (market.query_pair factory offer ask) _ e₂ λ pair_info _ e₃.
          >>=-elim (query_pool h offer env.contract_address) _ e₃ λ amount _ e₄.
            >>=-elim
              (asset_into_swap_msg h pair_info.contract_addr
                (record { info = offer; amount = amount }) none to)
              _ e₄
              λ msg e₅ e₆.
                rw (← ok-injective (msg ∷ []) messages e₆)
                  (into_swap-IsSent h pair_info.contract_addr sender offer amount to msg e₅, tt)

market_swap-IsSent :
    (h : Host) (env : Env) (sender : Addr) (offer ask : String) (to : Option String)
    (messages : List RouterMsg)
    → market_swap h env offer ask to ≡ ok messages
    → All (IsSent sender) messages
unfolding market_swap
market_swap-IsSent h env sender offer ask (some to) messages e =
    >>=-elim (query_balance h env.contract_address offer) _ e λ amount _ e₁.
      >>=-elim (less_tax h amount offer) _ e₁ λ net _ e₂. rw (← ok-injective _ messages e₂) (tt, tt)
market_swap-IsSent h env sender offer ask none messages e =
    >>=-elim (query_balance h env.contract_address offer) _ e
      λ amount _ e₁. rw (← ok-injective _ messages e₁) (tt, tt)

-- An operation that succeeds was run by the router itself, and a call of a pair that it makes
-- passes the pair's check of the coins sent.
pub execute_swap_operation-IsSent :
    (h : Host) (market : Market) (store : Option RouterConfig) (env : Env)
    (message_info : MessageInfo) (operation : SwapOperation) (to : Option String)
    {messages : List RouterMsg}
    → execute_swap_operation h market store env message_info operation to ≡ ok messages
    → (env.contract_address ≡ message_info.sender) × All (IsSent message_info.sender) messages
unfolding execute_swap_operation
execute_swap_operation-IsSent h market store env message_info (native_swap offer ask) to {messages}
      e =
    let own = env.contract_address == message_info.sender in
    >>=-elim (ensure own (generic_err "unauthorized")) _ e λ u e₁ e₂. (
      (eq_iff env.contract_address message_info.sender).0 (ensure-eq-ok own _ e₁),
      market_swap-IsSent h env message_info.sender offer ask to messages e₂,
    )
execute_swap_operation-IsSent h market store env message_info (terra_swap offer ask) to {messages}
      e =
    let own = env.contract_address == message_info.sender in
    >>=-elim (ensure own (generic_err "unauthorized")) _ e λ u e₁ e₂. (
      (eq_iff env.contract_address message_info.sender).0 (ensure-eq-ok own _ e₁),
      pair_swap-IsSent h market store env message_info.sender offer ask to messages e₂,
    )

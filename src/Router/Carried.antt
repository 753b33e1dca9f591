-- ===== src/Router/Carried.antt =====
-- What comes of the messages of `execute_swap_operations` of contracts/terraswap_router/src/contract.rs.
pub mod Priced
use terraswap.Prelude.{List, Option, String, [], ok, ℕ, ◌∷◌, ◌≡◌}
use terraswap.Asset.{AssetInfo, query_pool, token}
use terraswap.Host.{CanonicalAddr, Env, Host, StdResult}
use terraswap.Router.{
  Market, RouterConfig, RouterHookMsg, RouterMsg, assert_minimum_receive, call_pair, call_router,
  create_swap_msg, create_swap_send_msg, ends_of, less_tax, receive_hook_msg, send_token,
  swap_operation, swap_operations,
}
use terraswap.Router.Entry.{execute, less_asset_tax}
use terraswap.Stable.Types.{Binary}

-- Another time of the same chain: the taxes and addresses are the same, the balances may not be.
abbrev pub IsSameChain : (h h' : Host) → Type 0
IsSameChain h h' =
    ((amount : ℕ) (denom : String) → less_tax h' amount denom ≡ less_tax h amount denom)
    × ((canonical : CanonicalAddr) → h'.addr_humanize canonical ≡ h.addr_humanize canonical)

-- What the receiver of a message's swap gets of `ask`: the market pays what it answers, and a pair
-- what its simulation answers, less the tax. A token is offered in the amount that it is sent in.
abbrev pub Delivers :
    Host → Market → Option RouterConfig → (ask : AssetInfo) → RouterMsg → (received : ℕ) → Type 0
Delivers h market store ask (create_swap_msg coin denom) received =
    market.query_swap coin denom ≡ ok received
Delivers h market store ask (create_swap_send_msg to_address coin denom) received =
    market.query_swap coin denom ≡ ok received
Delivers h market store ask (call_pair contract_addr funds msg) received =
    (returned : ℕ) × (market.simulation contract_addr msg.offer_asset ≡ ok returned)
    × (less_asset_tax h market store ask returned ≡ ok received)
Delivers h market store ask (send_token contract_addr contract amount msg) received =
    (returned : ℕ) × (market.simulation contract
        (record { info = token contract_addr; amount = amount })
      ≡ ok returned)
    × (less_asset_tax h market store ask returned ≡ ok received)
Delivers h market store ask (call_router contract_addr msg) received = ⊥

-- The router carries out its calls of itself one after the other. It holds `amount` of the first
-- operation's offer, and of each later one's what the operation before it delivered, and what the last
-- one delivers is `out`. The check of the minimum moves nothing.
abbrev pub IsCarriedOut :
    Host
    → Market
    → Option RouterConfig
    → (from_binary : Binary → StdResult RouterHookMsg) → Env
    → List RouterMsg
    → (amount out : ℕ) → Type 0
IsCarriedOut h market store from_binary env [] amount out = amount ≡ out
IsCarriedOut h market store from_binary env (call_router contract (swap_operation op to) ∷ rest)
      amount out =
    (h' : Host) × (msg : RouterMsg) × (received : ℕ) × IsSameChain h h'
    × (query_pool h' (ends_of op).0 env.contract_address ≡ ok amount)
    × (execute h' market store from_binary env
          (record { sender = env.contract_address; funds = [] }) (swap_operation op to)
        ≡ ok (msg ∷ []))
    × Delivers h market store (ends_of op).1 msg received
    × IsCarriedOut h market store from_binary env rest received out
IsCarriedOut h market store from_binary env
      (call_router contract (assert_minimum_receive info prev minimum receiver) ∷ rest) amount out =
    (h' : Host) × (execute h' market store from_binary env
        (record { sender = env.contract_address; funds = [] })
        (assert_minimum_receive info prev minimum receiver)
      ≡ ok [])
    × IsCarriedOut h market store from_binary env rest amount out
IsCarriedOut h market store from_binary env (call_router contract (receive_hook_msg m) ∷ rest)
      amount out =
    ⊥
IsCarriedOut h market store from_binary env (call_router contract (swap_operations ops m to) ∷ rest)
      amount out =
    ⊥
IsCarriedOut h market store from_binary env (call_pair c f m ∷ rest) amount out = ⊥
IsCarriedOut h market store from_binary env (send_token t c a m ∷ rest) amount out = ⊥
IsCarriedOut h market store from_binary env (create_swap_msg c d ∷ rest) amount out = ⊥
IsCarriedOut h market store from_binary env (create_swap_send_msg t c d ∷ rest) amount out = ⊥

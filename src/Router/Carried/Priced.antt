-- ===== src/Router/Carried/Priced.antt =====
-- One operation in `execute_swap_operation` of contracts/terraswap_router/src/operations.rs against one
-- round of `simulate_swap_operations` of contracts/terraswap_router/src/contract.rs.
use terraswap.Prelude.{
  >>=-elim, Bool, List, Option, String, [], ensure, false, list_eq, nat_eq, none, ok, ok-injective,
  refl, some, string_eq, sym, true, ℕ, ◌==◌, ◌∙◌, ◌∷◌, ◌≡◌,
}
use terraswap.Asset.{AssetInfo, native_token, query_balance, query_pool, token}
use terraswap.Host.{Addr, Env, Host, StdError, StdResult, generic_err}
use terraswap.Router.{
  Market, RouterConfig, RouterHookMsg, RouterMsg, SwapOperation, call_pair, create_swap_msg,
  create_swap_send_msg, ends_of, less_tax, load, native_swap, send_token, swap_operation,
  terra_swap,
}
use terraswap.Router.Carried.{Delivers, IsSameChain}
use terraswap.Router.Entry.{execute, less_asset_tax, simulate_one}
use terraswap.Router.Operations.{
  asset_into_swap_msg, execute_swap_operation, market_swap, pair_swap,
}
use terraswap.Stable.Contract.{optional_addr_validate}
use terraswap.Stable.Types.{Binary}

only_one :
    (a b : RouterMsg) → ◌≡◌ {A = StdResult (List RouterMsg)} (ok (a ∷ [])) (ok (b ∷ [])) → a ≡ b
only_one a b e = cc

valid_lem :
    (h : Host) (to : String) (to_addr : Option Addr)
    → optional_addr_validate h (some to) ≡ ok to_addr
    → (to' : Addr) × (to_addr ≡ some to')
unfolding optional_addr_validate
valid_lem h to to_addr e =
    >>=-elim (h.addr_validate to) _ e λ to' _ e₁. (to', sym (ok-injective (some to') to_addr e₁))

abbrev refused : StdError
refused = generic_err "unauthorized"

module _ (h : Host) (market : Market) (store : Option RouterConfig)
    (from_binary : Binary → StdResult RouterHookMsg) (env : Env) where
  -- A single operation, as the simulation prices it; the last one has a recipient.
  native_middle :
      (h' : Host) (factory : Addr) (offer ask : String) (amount received : ℕ) (msg : RouterMsg)
      → query_balance h' env.contract_address offer ≡ ok amount
      → market_swap h' env offer ask none ≡ ok (msg ∷ [])
      → Delivers h market store (native_token ask) msg received
      → simulate_one h market store factory false amount (native_swap offer ask) ≡ ok received
  unfolding market_swap simulate_one
  native_middle h' factory offer ask amount received msg held e got =
      let e₁ : create_swap_msg (record { denom = offer; amount = amount }) ask ≡ msg =
        only_one _ msg (rw held at e) in
      rw (← e₁) at got

  native_last :
      (h' : Host) (factory : Addr) (offer ask to : String) (amount received : ℕ) (msg : RouterMsg)
      → IsSameChain h h'
      → query_balance h' env.contract_address offer ≡ ok amount
      → market_swap h' env offer ask (some to) ≡ ok (msg ∷ [])
      → Delivers h market store (native_token ask) msg received
      → simulate_one h market store factory true amount (native_swap offer ask) ≡ ok received
  unfolding market_swap simulate_one
  native_last h' factory offer ask to amount received msg (taxes, _) held e got =
      >>=-elim (less_tax h' amount offer) _ (rw held at e) λ net e₁ e₂.
        let same : create_swap_send_msg to (record { denom = offer; amount = net }) ask ≡ msg =
          only_one _ msg e₂ in
        let taxed' : less_tax h amount offer ≡ ok net = rw (taxes amount offer) at e₁ in
        rw taxed' (rw (← same) at got)

  into_swap_lem :
      (h' : Host) (pair_contract : Addr) (offer ask : AssetInfo) (to : Option String)
      (amount received : ℕ) (msg : RouterMsg)
      → IsSameChain h h'
      → asset_into_swap_msg h' pair_contract (record { info = offer; amount = amount }) none to
        ≡ ok msg
      → Delivers h market store ask msg received
      → (net returned : ℕ) × (less_asset_tax h market store offer amount ≡ ok net)
        × (market.simulation pair_contract (record { info = offer; amount = net }) ≡ ok returned)
        × (less_asset_tax h market store ask returned ≡ ok received)
  unfolding asset_into_swap_msg less_asset_tax
  into_swap_lem h' pair_contract (native_token denom) ask to amount received msg (taxes, _) e got =
      >>=-elim (less_tax h' amount denom) _ e λ net e₁ e₂.
        let (returned, priced, taxed') : Delivers h market store ask
            (call_pair pair_contract (record { denom = denom; amount = net } ∷ []) (record {
              offer_asset = record { info = native_token denom; amount = net };
              belief_price = none;
              max_spread = none;
              to = to;
            }))
            received =
          rw (← ok-injective _ msg e₂) at got in
        (net, returned, rw (taxes amount denom) at e₁, priced, taxed')
  into_swap_lem h' pair_contract (token contract_addr) ask to amount received msg same e got =
      let (returned, priced, taxed') : Delivers h market store ask
          (send_token contract_addr pair_contract amount (record {
            offer_asset = record { info = token contract_addr; amount = amount };
            belief_price = none;
            max_spread = none;
            to = to;
          }))
          received =
        rw (← ok-injective _ msg e) at got in
      (amount, returned, refl, priced, taxed')

  -- An operation for a pair.
  pair_lem :
      (h' : Host) (config : RouterConfig) (factory : Addr) (offer ask : AssetInfo)
      (to : Option String) (is_last : Bool) (amount received : ℕ) (msg : RouterMsg)
      → store ≡ some config
      → h.addr_humanize config.terraswap_factory ≡ ok factory
      → IsSameChain h h'
      → query_pool h' offer env.contract_address ≡ ok amount
      → pair_swap h' market store env offer ask to ≡ ok (msg ∷ [])
      → Delivers h market store ask msg received
      → simulate_one h market store factory is_last amount (terra_swap offer ask) ≡ ok received
  unfolding pair_swap simulate_one load
  pair_lem h' config factory offer ask to is_last amount received msg stored human same held e got =
      let human' : h'.addr_humanize config.terraswap_factory ≡ ok factory =
        same.1 config.terraswap_factory ∙ human in
      let e₁ = rw stored at e in
      let e₂ = rw human' at e₁ in
      >>=-elim (market.query_pair factory offer ask) _ e₂ λ pair_info found' e₃.
        let e₄ = rw held at e₃ in
        >>=-elim
          (asset_into_swap_msg h' pair_info.contract_addr (record { info = offer; amount = amount })
            none to)
          _ e₄
          λ msg' e₅ e₆.
            let one : msg' ≡ msg = only_one msg' msg e₆ in
            let (net, returned, taxed', priced, taxed'') =
              into_swap_lem h' pair_info.contract_addr offer ask to amount received msg same
                (rw one at e₅) got in
            rw (found', taxed', priced) taxed''

  abbrev own : Bool
  own = env.contract_address == env.contract_address

  -- The call for an operation: `to` is given for the last one only.
  pub middle_lem :
      (h' : Host) (config : RouterConfig) (factory : Addr) (op : SwapOperation)
      (amount received : ℕ) (msg : RouterMsg)
      → store ≡ some config
      → h.addr_humanize config.terraswap_factory ≡ ok factory
      → IsSameChain h h'
      → query_pool h' (ends_of op).0 env.contract_address ≡ ok amount
      → execute h' market store from_binary env
          (record { sender = env.contract_address; funds = [] })
          (swap_operation op none)
        ≡ ok (msg ∷ [])
      → Delivers h market store (ends_of op).1 msg received
      → simulate_one h market store factory false amount op ≡ ok received
  unfolding execute execute_swap_operation optional_addr_validate ends_of query_pool
  middle_lem h' config factory (native_swap offer ask) amount received msg stored human same held e
        got =
      >>=-elim (ensure own refused) _ e
        λ _ _ e₁. native_middle h' factory offer ask amount received msg held e₁ got
  middle_lem h' config factory (terra_swap offer ask) amount received msg stored human same held e
        got =
      >>=-elim (ensure own refused) _ e λ _ _ e₁.
        pair_lem h' config factory offer ask none false amount received msg stored human same held
          e₁ got

  pub last_lem :
      (h' : Host) (config : RouterConfig) (factory : Addr) (op : SwapOperation) (to : String)
      (amount received : ℕ) (msg : RouterMsg)
      → store ≡ some config
      → h.addr_humanize config.terraswap_factory ≡ ok factory
      → IsSameChain h h'
      → query_pool h' (ends_of op).0 env.contract_address ≡ ok amount
      → execute h' market store from_binary env
          (record { sender = env.contract_address; funds = [] })
          (swap_operation op (some to))
        ≡ ok (msg ∷ [])
      → Delivers h market store (ends_of op).1 msg received
      → simulate_one h market store factory true amount op ≡ ok received
  unfolding execute execute_swap_operation ends_of query_pool
  last_lem h' config factory (native_swap offer ask) to amount received msg stored human same held e
        got =
      >>=-elim (optional_addr_validate h' (some to)) _ e λ to_addr e₀ e₁.
        let (to', valid) = valid_lem h' to to_addr e₀ in
        >>=-elim (ensure own refused) _ (rw valid at e₁)
          λ _ _ e₂. native_last h' factory offer ask to' amount received msg same held e₂ got
  last_lem h' config factory (terra_swap offer ask) to amount received msg stored human same held e
        got =
      >>=-elim (optional_addr_validate h' (some to)) _ e λ to_addr e₀ e₁.
        >>=-elim (ensure own refused) _ e₁ λ _ _ e₂.
          pair_lem h' config factory offer ask to_addr true amount received msg stored human same
            held e₂ got

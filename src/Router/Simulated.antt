-- ===== src/Router/Simulated.antt =====
-- `simulate_swap_operations` against `execute_swap_operations` of
-- contracts/terraswap_router/src/contract.rs.
use terraswap.Prelude.{
  List, Option, String, [], ap, arith, length, nat_beq_refl, ne→nat_beq, none, ok, refl, some, suc,
  ℕ, ◌++◌, ◌+◌, ◌∷◌, ◌≡◌,
}
use terraswap.Asset.{AssetInfo}
use terraswap.Host.{Addr, Env, Host, StdResult}
use terraswap.Router.{
  Market, RouterConfig, RouterHookMsg, RouterMsg, SwapOperation, assert_minimum_receive,
  call_router, execute_swap_operations, get_target_asset_info, last_of, load,
}
use terraswap.Router.Carried.{IsCarriedOut}
use terraswap.Router.Carried.Priced.{last_lem, middle_lem}
use terraswap.Router.Entry.{simulate_from, simulate_swap_operations}
use terraswap.Router.Plan.{IsGuard, execute_swap_operations-plan, plan}
use terraswap.Stable.Provide.{receiver_or}
use terraswap.Stable.Types.{Binary}

module _ (h : Host) (market : Market) (store : Option RouterConfig)
    (from_binary : Binary → StdResult RouterHookMsg) (env : Env) where
  -- The rest of the simulation, for the calls of the plan and what follows them.
  from_lem :
      (config : RouterConfig) (factory : Addr) (to : String) (op : SwapOperation)
      (rest : List SwapOperation) (guard : List RouterMsg) (n k amount out : ℕ)
      → store ≡ some config
      → h.addr_humanize config.terraswap_factory ≡ ok factory
      → ((amount' : ℕ)
          → IsCarriedOut h market store from_binary env guard amount' out
          → amount' ≡ out)
      → n ≡ suc (k + length rest)
      → IsCarriedOut h market store from_binary env
          (plan env.contract_address to op rest ++ guard)
          amount
          out
      → simulate_from h market store factory n k amount (op ∷ rest) ≡ ok out
  unfolding simulate_from
  from_lem config factory to op [] guard n k amount out stored human done e
        (h', msg, received, same, held, run, got, after) =
      let last : suc k ≡ n = omega (arith, e) in
      let first =
        last_lem h market store from_binary env h' config factory op to amount received msg stored
          human same held run got in
      rw (last, nat_beq_refl n, first) (ap ok (done received after))
  from_lem config factory to op (next ∷ rest) guard n k amount out stored human done e
        (h', msg, received, same, held, run, got, after) =
      let other = ne→nat_beq (suc k) n (omega (arith, e)) in
      let first =
        middle_lem h market store from_binary env h' config factory op amount received msg stored
          human same held run got in
      rw (other, first)
        (from_lem config factory to next rest guard n (suc k) received out stored human done
          (omega (arith, e)) after)

  guard_lem :
      (contract to : String) (target : AssetInfo) (minimum : Option ℕ) (guard : List RouterMsg)
      (amount out : ℕ)
      → IsGuard h contract to target minimum guard
      → IsCarriedOut h market store from_binary env guard amount out
      → amount ≡ out
  guard_lem contract to target none guard amount out e carried = rw e at carried
  guard_lem contract to target (some m) guard amount out (balance, _, e) carried =
      let (h', run, same) : IsCarriedOut h market store from_binary env
          (call_router contract (assert_minimum_receive target balance m to) ∷ []) amount out =
        rw e at carried in
      same

-- If the router accepts the operations, for any minimum, and its messages are carried out as
-- `IsCarriedOut` says, where the pairs and the market pay what they answer and the taxes and
-- addresses stay the same, then `simulate_swap_operations` of the same amount and operations
-- answers just what the last operation delivers.
pub execute_swap_operations-simulated :
    (h : Host) (market : Market) (config : RouterConfig)
    (from_binary : Binary → StdResult RouterHookMsg) (env : Env) (sender factory : Addr)
    (op : SwapOperation) (rest : List SwapOperation) (minimum : Option ℕ) (to : Option Addr)
    (amount out : ℕ) {messages : List RouterMsg}
    → h.addr_humanize config.terraswap_factory ≡ ok factory
    → execute_swap_operations h env sender (op ∷ rest) minimum to ≡ ok messages
    → IsCarriedOut h market (some config) from_binary env messages amount out
    → simulate_swap_operations h market (some config) amount (op ∷ rest) ≡ ok out
unfolding simulate_swap_operations load
execute_swap_operations-simulated h market config from_binary env sender factory op rest minimum to
      amount out {messages} human e carried =
    let (guard, planned, guarded, _) =
      execute_swap_operations-plan h env sender op rest minimum to e in
    let recipient = receiver_or to sender in
    let target = get_target_asset_info (last_of op rest) in
    let carried' : IsCarriedOut h market (some config) from_binary env
        (plan env.contract_address recipient op rest ++ guard) amount out =
      rw planned at carried in
    let priced =
      from_lem h market (some config) from_binary env config factory recipient op rest guard
        (suc (length rest)) 0 amount out refl human
        (λ amount'.
          guard_lem h market (some config) from_binary env env.contract_address recipient target
            minimum guard amount' out guarded)
        (omega arith) carried' in
    rw (human, ne→nat_beq (suc (length rest)) 0 (omega arith)) priced

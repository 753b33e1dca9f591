-- ===== src/Router/Plan.antt =====
-- What `execute_swap_operations` of contracts/terraswap_router/src/contract.rs sends.
use terraswap.Prelude.{
  >>=-elim, List, Option, String, [], ap, arith, if◌then◌else◌, length, nat_beq, nat_beq_refl,
  ne→nat_beq, none, ok, ok-injective, refl, some, suc, sym, ℕ, ◌++◌, ◌+◌, ◌↔◌, ◌∙◌, ◌∷◌, ◌≡◌, ◌≤◌,
}
use terraswap.Asset.{AssetInfo, query_pool}
use terraswap.Host.{Addr, Env, Host, IsUint128}
use terraswap.Router.{
  RouterMsg, SwapOperation, assert_minimum_receive, assert_minium_receive, assert_operations,
  call_router, execute_swap_operations, get_target_asset_info, last_of, minimum_message,
  step_messages, swap_operation,
}
use terraswap.Router.Route.{IsRoute, ask_key, assert_operations-IsRoute}
use terraswap.Stable.Provide.{receiver_or}

-- A call of the router by itself for each operation: the last one sends what it gets to `to`, and the
-- others leave it with the router.
abbrev pub plan : (contract to : String) → SwapOperation → List SwapOperation → List RouterMsg
plan contract to op [] = call_router contract (swap_operation op (some to)) ∷ []
plan contract to op (next ∷ rest) =
    call_router contract (swap_operation op none) ∷ plan contract to next rest

step_messages-cons :
    (contract to : String) (n k : ℕ) (op : SwapOperation) (rest : List SwapOperation)
    → step_messages contract to n k (op ∷ rest)
      ≡ call_router contract (swap_operation op (if nat_beq (suc k) n then some to else none))
        ∷ step_messages contract to n (suc k) rest
unfolding step_messages
step_messages-cons contract to n k op rest = refl

step_messages-empty : (contract to : String) (n k : ℕ) → step_messages contract to n k [] ≡ []
unfolding step_messages
step_messages-empty contract to n k = refl

-- The loop counts the operations, and meets their number `n` at the last one.
step_messages-plan :
    (contract to : String) (op : SwapOperation) (rest : List SwapOperation) (n k : ℕ)
    → n ≡ suc (k + length rest)
    → step_messages contract to n k (op ∷ rest) ≡ plan contract to op rest
step_messages-plan contract to op [] n k e =
    let last : suc k ≡ n = omega arith in
    rw
      (
        step_messages-cons contract to n k op [],
        step_messages-empty contract to n (suc k),
        last,
        nat_beq_refl n,
      )
      refl
step_messages-plan contract to op (next ∷ rest) n k e =
    let other = ne→nat_beq (suc k) n (omega arith) in
    rw
      (
        step_messages-cons contract to n k op (next ∷ rest),
        other,
        step_messages-plan contract to next rest n (suc k) (omega arith),
      )
      refl

-- The message that checks the minimum: it carries what the receiver has of the target before the
-- operations.
abbrev pub IsGuard :
    (h : Host) → (contract to : String) → AssetInfo → Option ℕ → List RouterMsg → Type 0
IsGuard h contract to target none guard = guard ≡ []
IsGuard h contract to target (some minimum_receive) guard =
    (balance : ℕ) × (query_pool h target to ≡ ok balance)
    × (guard ≡ call_router contract (assert_minimum_receive target balance minimum_receive to) ∷ [])

minimum_message-IsGuard :
    (h : Host) (contract to : String) (target : AssetInfo) (minimum : Option ℕ)
    (guard : List RouterMsg)
    → minimum_message h contract to target minimum ≡ ok guard
    → IsGuard h contract to target minimum guard
unfolding minimum_message
minimum_message-IsGuard h contract to target none guard e = sym (ok-injective [] guard e)
minimum_message-IsGuard h contract to target (some m) guard e =
    >>=-elim (query_pool h target to) _ e
      λ balance e₁ e₂. (balance, e₁, sym (ok-injective _ guard e₂))

-- Operations that the router accepts are a route to what the last one asks for. The router calls
-- itself for each of them in their order, the last one with the recipient, and then checks the
-- minimum, if there is one, on the asset that the last one asks for.
pub execute_swap_operations-plan :
    (h : Host) (env : Env) (sender : Addr) (op : SwapOperation) (rest : List SwapOperation)
    (minimum : Option ℕ) (to : Option Addr) {messages : List RouterMsg}
    → execute_swap_operations h env sender (op ∷ rest) minimum to ≡ ok messages
    → (guard : List RouterMsg) × (messages
        ≡ plan env.contract_address (receiver_or to sender) op rest ++ guard)
      × IsGuard h env.contract_address
          (receiver_or to sender)
          (get_target_asset_info (last_of op rest))
          minimum
          guard
      × IsRoute (ask_key (last_of op rest)) (op ∷ rest)
unfolding execute_swap_operations
execute_swap_operations-plan h env sender op rest minimum to {messages} e =
    let contract = env.contract_address in
    let recipient = receiver_or to sender in
    let target = get_target_asset_info (last_of op rest) in
    >>=-elim (assert_operations (op ∷ rest)) _ e λ u e₁ e₂.
      >>=-elim (minimum_message h contract recipient target minimum) _ e₂ λ guard e₃ e₄. (
        guard,
        sym (ok-injective _ messages e₄)
            ∙ ap (λ (steps : List RouterMsg). steps ++ guard)
                (step_messages-plan contract recipient op rest (suc (length rest)) 0 (omega arith)),
        minimum_message-IsGuard h contract recipient target minimum guard e₃,
        assert_operations-IsRoute op rest e₁,
      )

module _ (h : Host) (laws : IsUint128 h) where
  open laws use {checked_sub_lem}

  -- Given the receiver's balance, the check of the minimum passes, and sends nothing, exactly
  -- when the balance has grown by the minimum or more.
  assert_minium_receive_iff :
      (info : AssetInfo) (prev minimum balance : ℕ) (receiver : Addr)
      → query_pool h info receiver ≡ ok balance
      → (assert_minium_receive h info prev minimum receiver ≡ ok []) ↔ (prev + minimum ≤ balance)
  unfolding assert_minium_receive
  assert_minium_receive_iff info prev minimum balance receiver e =
      rw e (rw (checked_sub_lem balance prev) (ground arith))

-- ===== src/Stable/Provide.antt =====
-- `provide_liquidity` of contracts/terraswap_stable/src/contract.rs.
pub mod Taken
pub mod Deposited
use terraswap.Prelude.{
  List, Option, Outcome, String, [], assert_that, ensure, list_eq, ltb, nat_eq, none, not, ok,
  panic, some, string_eq, unwrap, ℕ, ◌++◌, ◌==◌, ◌>>=◌, ◌>>◌, ◌∷◌,
}
use terraswap.Checked.{as_u64, checked_add, u128}
use terraswap.Asset.{
  Asset, CosmosMsg, Cw20ExecuteMsg, PairInfoRaw, assert_sent_native_token_balance, equal, mint,
  native_token, query_pools, query_supply, token, transfer_from, wasm_execute,
}
use terraswap.Host.{Env, Host, MessageInfo}
use terraswap.Stable.Liquidity.{deposit}
use terraswap.Stable.Types.{
  ContractError, Response, curve_of, from_overflow, from_std, invalid_zero_amount, load,
  max_slippage_assertion, number, text,
}

-- The loop that holds the assets given against the pools: `assert_eq!` and the index panic.
unfoldable pub match_deposits : List Asset → List Asset → Outcome ContractError (List ℕ)
match_deposits [] pools = ok []
match_deposits (given ∷ rest) [] = panic
match_deposits (given ∷ rest) (pool ∷ pools) = do
  assert_that (equal given.info pool.info)
  deposits ← match_deposits rest pools
  ok (given.amount ∷ deposits)

-- One round of the loop over the pools: a token is transferred from the sender, and of a native
-- coin the balance already holds the deposit.
unfoldable pub take_deposit :
    Host
    → (sender contract : String) → Asset
    → ℕ
    → Outcome ContractError (List (CosmosMsg Cw20ExecuteMsg) × Asset)
take_deposit h sender contract pool paid = elim (pool.info) [
  | token contract_addr ↦
      ok (wasm_execute contract_addr (transfer_from sender contract paid) [] ∷ [], pool)
  | native_token denom ↦ do
    amount ← from_overflow (h.uint_checked_sub pool.amount paid)
    ok ([], record pool { amount = amount })
]

unfoldable pub take_deposits :
    Host
    → (sender contract : String) → List Asset
    → List ℕ
    → Outcome ContractError (List (CosmosMsg Cw20ExecuteMsg) × List Asset)
take_deposits h sender contract [] deposits = ok ([], [])
take_deposits h sender contract (pool ∷ pools) [] = elim (pool.info) [
  | token contract_addr ↦ panic
  | native_token denom ↦ panic
]
take_deposits h sender contract (pool ∷ pools) (paid ∷ deposits) = do
  first ← take_deposit h sender contract pool paid
  rest ← take_deposits h sender contract pools deposits
  ok (first.0 ++ rest.0, first.1 ∷ rest.1)

-- The loop that adds the deposits to the balances: `checked_add(..).unwrap()`.
unfoldable pub add_deposits : List Asset → List ℕ → Outcome ContractError (List ℕ)
add_deposits [] deposits = ok []
add_deposits (pool ∷ pools) [] = panic
add_deposits (pool ∷ pools) (paid ∷ deposits) = do
  new_balance ← unwrap (checked_add u128 pool.amount paid)
  new_balances ← add_deposits pools deposits
  ok (new_balance ∷ new_balances)

abbrev pub amounts_of : List Asset → List ℕ
amounts_of [] = []
amounts_of (pool ∷ pools) = pool.amount ∷ amounts_of pools

abbrev pub receiver_or : Option String → String → String
receiver_or none sender = sender
receiver_or (some receiver) sender = receiver

unfoldable pub assert_all_sent : List Asset → MessageInfo → Outcome ContractError (Unit {0})
assert_all_sent [] info = ok tt
assert_all_sent (given ∷ rest) info = do
  from_std (assert_sent_native_token_balance given info)
  assert_all_sent rest info

-- The liquidity tokens for the deposits, refused if they are fewer than the sender asks or none.
-- Of the minimum and of the supply the code takes the last 64 bits.
unfoldable pub share_for :
    PairInfoRaw
    → (total_share : ℕ) → (min_out_amount : ℕ) → List Asset
    → List ℕ
    → Outcome ContractError ℕ
share_for pair_info total_share min_out_amount pools deposits = do
  new_balances ← add_deposits pools deposits
  mint_amount ←
      unwrap (deposit (curve_of pair_info) (amounts_of pools) new_balances (as_u64 total_share))
  ensure (not (ltb mint_amount (as_u64 min_out_amount))) max_slippage_assertion
  ensure (not (mint_amount == 0)) invalid_zero_amount
  ok mint_amount

unfoldable pub provide_liquidity :
    Host
    → Option PairInfoRaw
    → Env
    → MessageInfo
    → List Asset
    → ℕ
    → Option String
    → Outcome ContractError Response
provide_liquidity h store env info assets min_out_amount receiver = do
  assert_all_sent assets info
  pair_info ← from_std (load store)
  pools ← from_std (query_pools h pair_info env.contract_address)
  deposits ← match_deposits assets pools
  taken ← take_deposits h info.sender env.contract_address pools deposits
  liquidity_token ← from_std (h.addr_humanize pair_info.liquidity_token)
  total_share ← from_std (query_supply h liquidity_token)
  share ← share_for pair_info total_share min_out_amount taken.1 deposits
  contract_addr ← from_std (h.addr_humanize pair_info.liquidity_token)
  let recipient = receiver_or receiver info.sender
  ok (record {
    messages = taken.0 ++ (wasm_execute contract_addr (mint recipient share) [] ∷ []);
    submessages = [];
    attributes =
        ("action", text "provide_liquidity")
        ∷ ("sender", text info.sender)
        ∷ ("receiver", text recipient)
        ∷ ("share", number share)
        ∷ [];
  })

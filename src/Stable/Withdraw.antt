-- ===== src/Stable/Withdraw.antt =====
-- `withdraw_liquidity` and `withdraw_single_liquidity` of contracts/terraswap_stable/src/contract.rs.
pub mod ProRata
use terraswap.Prelude.{
  List, Option, Outcome, [], assert_that, if◌then◌else◌, ltb, none, ok, panic, some, suc, traverse,
  unwrap, ℕ, ◌++◌, ◌>>=◌, ◌>>◌, ◌∷◌,
}
use terraswap.Checked.{as_u64, as_u8}
use terraswap.Asset.{
  Asset, AssetInfo, PairInfoRaw, burn, equal, into_msg, query_pools, query_supply, wasm_execute,
}
use terraswap.Host.{Addr, Decimal, Env, Host, MessageInfo}
use terraswap.Stable.Liquidity.{remove_liquidity_single_token}
use terraswap.Stable.Provide.{amounts_of}
use terraswap.Stable.Types.{
  ContractError, Response, curve_of, from_std, load, number, shown_asset, text,
}

-- One round of the `map` over the pools: the part of the pool that the ratio stands for.
unfoldable pub refund_asset : Host → Decimal → Asset → Outcome ContractError Asset
refund_asset h share_ratio pool = do
  amount ← from_std (h.uint_mul_decimal pool.amount share_ratio)
  ok (record { info = pool.info; amount = amount })

unfoldable pub withdraw_liquidity :
    Host
    → Option PairInfoRaw
    → Env
    → (sender : Addr) → (amount : ℕ) → Outcome ContractError Response
withdraw_liquidity h store env sender amount = do
  pair_info ← from_std (load store)
  liquidity_addr ← from_std (h.addr_humanize pair_info.liquidity_token)
  pools ← from_std (query_pools h pair_info env.contract_address)
  total_share ← from_std (query_supply h liquidity_addr)
  share_ratio ← from_std (h.from_ratio amount total_share)
  refund_assets ← traverse (refund_asset h share_ratio) pools
  refund_assets_msg ← traverse (λ refund. unwrap (into_msg h refund sender)) refund_assets
  contract_addr ← from_std (h.addr_humanize pair_info.liquidity_token)
  ok (record {
    messages = refund_assets_msg ++ (wasm_execute contract_addr (burn amount) [] ∷ []);
    submessages = [];
    attributes =
        ("action", text "withdraw_liquidity")
        ∷ ("sender", text sender)
        ∷ ("withdrawn_share", number amount)
        ∷ [];
  })

-- The place of the first pool with the asset's info.
unfoldable pub find_pool : AssetInfo → (place : ℕ) → List Asset → Option (ℕ × Asset)
find_pool wanted place [] = none
find_pool wanted place (pool ∷ pools) =
    if equal wanted pool.info then some (place, pool) else find_pool wanted (suc place) pools

-- `assert_eq!(is_find, true)`
abbrev pub found : Option (ℕ × Asset) → Outcome ContractError (ℕ × Asset)
found none = panic
found (some place) = ok place

unfoldable pub withdraw_single_liquidity :
    Host
    → Option PairInfoRaw
    → Env
    → MessageInfo
    → Asset
    → (unmint_amount min_out_amount : ℕ) → Outcome ContractError Response
withdraw_single_liquidity h store env message_info wanted unmint_amount min_out_amount = do
  pair_info ← from_std (load store)
  liquidity_addr ← from_std (h.addr_humanize pair_info.liquidity_token)
  pools ← from_std (query_pools h pair_info env.contract_address)
  total_share ← from_std (query_supply h liquidity_addr)
  place ← found (find_pool wanted.info 0 pools)
  out_amount ← unwrap (
      remove_liquidity_single_token (curve_of pair_info) (amounts_of pools) (as_u64 unmint_amount)
        (as_u8 place.0) (as_u64 total_share))
  assert_that (ltb (as_u64 min_out_amount) out_amount)
  let refund = record place.1 { amount = out_amount }
  refund_msg ← from_std (into_msg h refund message_info.sender)
  contract_addr ← from_std (h.addr_humanize pair_info.liquidity_token)
  ok (record {
    messages = refund_msg ∷ wasm_execute contract_addr (burn unmint_amount) [] ∷ [];
    submessages = [];
    attributes =
        ("action", text "withdraw_single_liquidity")
        ∷ ("sender", text message_info.sender)
        ∷ ("withdrawn_share", number unmint_amount)
        ∷ ("refund_asset", shown_asset refund)
        ∷ [];
  })

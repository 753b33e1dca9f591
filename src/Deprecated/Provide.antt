-- ===== src/Deprecated/Provide.antt =====
-- `provide_liquidity` and `withdraw_liquidity` of contracts/terraswap_pair_deprecated/src/contract.rs.
pub mod Share
pub mod Minted
pub mod Refunded
pub mod Redeemed
use Prim.Native.Nat.{min}
use terraswap.Prelude.{
  Option, Outcome, String, [], ensure, if◌then◌else◌, list_eq, nat_eq, not, ok, panic, string_eq, ℕ,
  ◌++◌, ◌==◌, ◌>>=◌, ◌>>◌, ◌∷◌,
}
use terraswap.Checked.{mul_or_panic, u128}
use terraswap.Asset.{
  Asset, assert_sent_native_token_balance, burn, equal, into_msg, mint, query_supply, wasm_execute,
}
use terraswap.Deprecated.Bignum.{Bignum}
use terraswap.Deprecated.Pair.{load, two_pools}
use terraswap.Deprecated.Price.{assert_slippage_tolerance}
use terraswap.Deprecated.Types.{PairRaw}
use terraswap.Host.{Addr, Decimal, Env, Host, MessageInfo}
use terraswap.Stable.Provide.{receiver_or, take_deposit}
use terraswap.Stable.Types.{
  ContractError, Response, from_std, invalid_zero_amount, number, shown_assets, text,
}
use terraswap.Stable.Withdraw.{refund_asset}

-- The first of the two assets given that is the pool's: `expect` panics if there is none.
unfoldable pub deposit_of : Asset × Asset → Asset → Outcome ContractError ℕ
deposit_of (first, second) pool =
    if equal first.info pool.info
    then ok first.amount
    else if equal second.info pool.info
    then ok second.amount
    else panic

module _ (n : Bignum) (h : Host) where
  -- The liquidity tokens for the deposits.
  unfoldable pub share_of : (total_share : ℕ) → (deposits pools : ℕ × ℕ) → Outcome ContractError ℕ
  share_of total_share (d0, d1) (p0, p1) =
      if total_share == 0
      then (mul_or_panic u128 d0 d1 >>= λ product. ok (n.integer_sqrt product))
      else (from_std (h.multiply_ratio d0 total_share p0) >>= λ first.
          from_std (h.multiply_ratio d1 total_share p1) >>= λ second. ok (min first second))

  unfoldable pub provide_liquidity :
      Option PairRaw
      → Env
      → MessageInfo
      → (assets : Asset × Asset) → (slippage_tolerance : Option Decimal)
      → (receiver : Option String) → Outcome ContractError Response
  provide_liquidity store env message_info assets slippage_tolerance receiver = do
    from_std (assert_sent_native_token_balance assets.0 message_info)
    from_std (assert_sent_native_token_balance assets.1 message_info)
    pair_info ← from_std (load store)
    pools ← from_std (two_pools h pair_info env.contract_address)
    d0 ← deposit_of assets pools.0
    d1 ← deposit_of assets pools.1
    first ← take_deposit h message_info.sender env.contract_address pools.0 d0
    second ← take_deposit h message_info.sender env.contract_address pools.1 d1
    let amounts : ℕ × ℕ = (first.1.amount, second.1.amount)
    assert_slippage_tolerance n slippage_tolerance (d0, d1) amounts
    liquidity_token ← from_std (h.addr_humanize pair_info.liquidity_token)
    total_share ← from_std (query_supply h liquidity_token)
    share ← share_of total_share (d0, d1) amounts
    ensure (not (share == 0)) invalid_zero_amount
    contract_addr ← from_std (h.addr_humanize pair_info.liquidity_token)
    let recipient = receiver_or receiver message_info.sender
    ok (record {
      messages =
          first.0 ++ (second.0 ++ (wasm_execute contract_addr (mint recipient share) [] ∷ []));
      submessages = [];
      attributes =
          ("action", text "provide_liquidity")
          ∷ ("sender", text message_info.sender)
          ∷ ("receiver", text recipient)
          ∷ ("assets", shown_assets assets.0 assets.1)
          ∷ ("share", number share)
          ∷ [];
    })

module _ (h : Host) where
  unfoldable pub withdraw_liquidity :
      Option PairRaw → Env → (sender : Addr) → (amount : ℕ) → Outcome ContractError Response
  withdraw_liquidity store env sender amount = do
    pair_info ← from_std (load store)
    liquidity_addr ← from_std (h.addr_humanize pair_info.liquidity_token)
    pools ← from_std (two_pools h pair_info env.contract_address)
    total_share ← from_std (query_supply h liquidity_addr)
    share_ratio ← from_std (h.from_ratio amount total_share)
    first ← refund_asset h share_ratio pools.0
    second ← refund_asset h share_ratio pools.1
    first_msg ← from_std (into_msg h first sender)
    second_msg ← from_std (into_msg h second sender)
    contract_addr ← from_std (h.addr_humanize pair_info.liquidity_token)
    ok (record {
      messages = first_msg ∷ second_msg ∷ wasm_execute contract_addr (burn amount) [] ∷ [];
      submessages = [];
      attributes =
          ("action", text "withdraw_liquidity")
          ∷ ("sender", text sender)
          ∷ ("withdrawn_share", number amount)
          ∷ ("refund_assets", shown_assets first second)
          ∷ [];
    })

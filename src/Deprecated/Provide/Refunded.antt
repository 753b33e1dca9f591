-- ===== src/Deprecated/Provide/Refunded.antt =====
-- What `withdraw_liquidity` of contracts/terraswap_pair_deprecated/src/contract.rs pays of each pool.
use terraswap.Prelude.{
  >>=-elim, [], ap, map_err-eq-ok, ok, ok-injective, some, sym, ℕ, ◌<◌, ◌∷◌, ◌≡◌, ◌≤◌,
}
use terraswap.Checked.{u128}
use terraswap.Asset.{Asset, CosmosMsg, Cw20ExecuteMsg, burn, into_msg, query_supply, wasm_execute}
use terraswap.Deprecated.Pair.{load, two_pools}
use terraswap.Deprecated.Provide.{withdraw_liquidity}
use terraswap.Deprecated.Types.{PairRaw}
use terraswap.Host.{Addr, Decimal, Env, Host, IsUint128}
use terraswap.Stable.Types.{Response, from_std, std}
use terraswap.Stable.Withdraw.{refund_asset}
use terraswap.Stable.Withdraw.ProRata.{IsRefund, ratio_lem, refund_asset-IsRefund}

-- The messages of `response` send `sender` a refund of each pool and then burn the tokens.
abbrev pub IsRefunded :
    Host → (sender lp : Addr) → (amount total : ℕ) → (pools : Asset × Asset) → Response → Type 0
IsRefunded h sender lp amount total pools response =
    (first second : Asset) × (first_msg second_msg : CosmosMsg Cw20ExecuteMsg) × IsRefund amount
      total first pools.0
    × IsRefund amount total second pools.1
    × (into_msg h first sender ≡ ok first_msg)
    × (into_msg h second sender ≡ ok second_msg)
    × (response.messages ≡ first_msg ∷ second_msg ∷ wasm_execute lp (burn amount) [] ∷ [])

-- What a withdrawal computes on the way, for pools and a supply that are known.
abbrev pub IsWithdrawRun :
    Host → (sender lp : Addr) → (amount total : ℕ) → (pools : Asset × Asset) → Response → Type 0
IsWithdrawRun h sender lp amount total pools response =
    (ratio : Decimal) × (first second : Asset) × (first_msg second_msg : CosmosMsg Cw20ExecuteMsg)
    × (h.from_ratio amount total ≡ ok ratio)
    × (refund_asset h ratio pools.0 ≡ ok first)
    × (refund_asset h ratio pools.1 ≡ ok second)
    × (into_msg h first sender ≡ ok first_msg)
    × (into_msg h second sender ≡ ok second_msg)
    × (response.messages ≡ first_msg ∷ second_msg ∷ wasm_execute lp (burn amount) [] ∷ [])

pub withdraw_lem :
    (h : Host) (pair_info : PairRaw) (env : Env) (sender lp : Addr) (amount total : ℕ)
    (pools : Asset × Asset) {response : Response}
    → h.addr_humanize pair_info.liquidity_token ≡ ok lp
    → two_pools h pair_info env.contract_address ≡ ok pools
    → query_supply h lp ≡ ok total
    → withdraw_liquidity h (some pair_info) env sender amount ≡ ok response
    → IsWithdrawRun h sender lp amount total pools response
unfolding withdraw_liquidity load
withdraw_lem h pair_info env sender lp amount total pools {response} human queried supply r =
    let r₁ = rw human at r in
    let r₂ = rw queried at r₁ in
    let r₃ = rw supply at r₂ in
    >>=-elim (from_std (h.from_ratio amount total)) _ r₃ λ ratio e₁ r₄.
      >>=-elim (refund_asset h ratio pools.0) _ r₄ λ first e₂ r₅.
        >>=-elim (refund_asset h ratio pools.1) _ r₅ λ second e₃ r₆.
          >>=-elim (from_std (into_msg h first sender)) _ r₆ λ first_msg e₄ r₇.
            >>=-elim (from_std (into_msg h second sender)) _ r₇ λ second_msg e₅ r₈. (
              ratio,
              first,
              second,
              first_msg,
              second_msg,
              map_err-eq-ok std _ e₁,
              e₂,
              e₃,
              map_err-eq-ok std _ e₄,
              map_err-eq-ok std _ e₅,
              ap (λ (x : Response). x.messages) (sym (ok-injective _ response r₈)),
            )

-- A withdrawal of at most the supply that succeeds, when some supply is out and the pools fit
-- 128 bits, sends the sender a refund of each of the two pools, each at most the pro rata part
-- of the pool and all of it for the whole supply, and then burns the tokens.
pub withdraw_liquidity-IsRefunded :
    (h : Host) (laws : IsUint128 h) (pair_info : PairRaw) (env : Env) (sender lp : Addr)
    (amount total : ℕ) (pools : Asset × Asset) {response : Response}
    → h.addr_humanize pair_info.liquidity_token ≡ ok lp
    → two_pools h pair_info env.contract_address ≡ ok pools
    → query_supply h lp ≡ ok total
    → 0 < total
    → amount ≤ total
    → pools.0.amount < u128
    → pools.1.amount < u128
    → withdraw_liquidity h (some pair_info) env sender amount ≡ ok response
    → IsRefunded h sender lp amount total pools response
withdraw_liquidity-IsRefunded h laws pair_info env sender lp amount total pools human queried supply
      pos le small0 small1 r =
    let (ratio, first, second, first_msg, second_msg, e₁, e₂, e₃, e₄, e₅, sent) =
      withdraw_lem h pair_info env sender lp amount total pools human queried supply r in
    let part = ratio_lem h laws amount total pos le ratio e₁ in
    (
      first,
      second,
      first_msg,
      second_msg,
      refund_asset-IsRefund h laws amount total pos le ratio pools.0 first part small0 e₂,
      refund_asset-IsRefund h laws amount total pos le ratio pools.1 second part small1 e₃,
      e₄,
      e₅,
      sent,
    )

-- ===== src/Stable/Withdraw/ProRata.antt =====
-- What `withdraw_liquidity` of contracts/terraswap_stable/src/contract.rs pays of each pool.
use native.Mathlib.Nat.{le_of_mul-le-mul_left, mul-le-mul_left, mul_comm}
use terraswap.Prelude.{
  >>=-elim, All, List, Pointwise, [], ap, arith, inl, inr, map_err-eq-ok, ok, ok-injective, refl,
  some, sym, traverse, unwrap, ℕ, ◌*◌, ◌++◌, ◌/◌, ◌<◌, ◌∙◌, ◌∷◌, ◌≡◌, ◌≤◌, ◌⊎◌,
}
use terraswap.Checked.{div_bounds, mul-div_self, u128}
use terraswap.Asset.{
  Asset, CosmosMsg, Cw20ExecuteMsg, PairInfoRaw, burn, into_msg, query_pools, query_supply,
  wasm_execute,
}
use terraswap.Host.{Addr, Decimal, Env, Host, IsUint128, decimal_one}
use terraswap.Stable.Types.{ContractError, Response, from_std, load, std}
use terraswap.Stable.Withdraw.{refund_asset, withdraw_liquidity}

-- A refund is of the pool's asset and never more than the part `amount / total` of the pool; for the
-- whole supply it is the whole pool.
abbrev pub IsRefund : (amount total : ℕ) → Asset → Asset → Type 0
IsRefund amount total refund pool =
    (refund.info ≡ pool.info)
    × (refund.amount * total ≤ pool.amount * amount)
    × (refund.amount ≤ pool.amount)
    × ((amount < total) ⊎ (refund.amount ≡ pool.amount))

-- A refund is of the pool's asset.
pub refund_asset-info :
    (h : Host) (ratio : Decimal) (pool : Asset) (refund : Asset)
    → refund_asset h ratio pool ≡ ok refund
    → refund.info ≡ pool.info
unfolding refund_asset
refund_asset-info h ratio pool refund r =
    >>=-elim (from_std (h.uint_mul_decimal pool.amount ratio)) _ r
      λ amount _ e. ap (λ (x : Asset). x.info) (sym (ok-injective _ refund e))

le-cases : (a b : ℕ) → a ≤ b → (a < b) ⊎ (a ≡ b)
le-cases a b h = ground arith

-- The ratio in units of `1 / d`, and the part of a pool by it.
module _ (d amount total : ℕ) (one : 0 < d) (pos : 0 < total) (le : amount ≤ total) where
  ratio-le : amount * d / total ≤ d
  ratio-le =
      let (lo, _) = div_bounds (amount * d) total pos in
      let top : amount * d ≤ total * d = grind arith in
      let q : total * (amount * d / total) ≤ total * d = omega (arith, lo, top) in grind arith

  part-le : (pool ratio : ℕ) → ratio ≤ d → pool * ratio / d ≤ pool
  part-le pool ratio r =
      let (lo, _) = div_bounds (pool * ratio) d one in
      let top : pool * ratio ≤ pool * d = grind arith in
      let q : d * (pool * ratio / d) ≤ d * pool = omega (arith, lo, top) in grind arith

  part-prorata :
      (pool ratio part : ℕ)
      → total * ratio ≤ amount * d
      → d * part ≤ pool * ratio
      → part * total ≤ pool * amount
  part-prorata pool ratio part r p =
      let a : total * (d * part) ≤ total * (pool * ratio) = mul-le-mul_left total p in
      let b : pool * (total * ratio) ≤ pool * (amount * d) = mul-le-mul_left pool r in
      let c : d * (part * total) ≤ d * (pool * amount) = omega (arith, a, b) in
      le_of_mul-le-mul_left c one

  part-whole : (pool : ℕ) → amount ≡ total → pool * (amount * d / total) / d ≡ pool
  part-whole pool same =
      let e : amount * d / total ≡ d = rw (same, mul_comm total d) (mul-div_self d total pos) in
      rw e (mul-div_self pool d one)

module _ (h : Host) (laws : IsUint128 h) where
  open laws use {from_ratio_lem, mul_decimal_lem}

  module _ (amount total : ℕ) (pos : 0 < total) (le : amount ≤ total) where
    pub ratio_lem :
        (ratio : Decimal)
        → h.from_ratio amount total ≡ ok ratio
        → ratio.atomics ≡ amount * decimal_one / total
    ratio_lem ratio e =
        let small : amount * decimal_one / total < u128 =
          omega (arith, ratio-le decimal_one amount total (omega arith) pos le) in
        ap (λ (r : Decimal). r.atomics)
          (ok-injective ratio _ (sym e ∙ from_ratio_lem amount total pos small))

    pub refund_asset-IsRefund :
        (ratio : Decimal) (pool refund : Asset)
        → ratio.atomics ≡ amount * decimal_one / total
        → pool.amount < u128
        → refund_asset h ratio pool ≡ ok refund
        → IsRefund amount total refund pool
    unfolding refund_asset
    refund_asset-IsRefund ratio pool refund e small r =
        let one : 0 < decimal_one = omega arith in
        let d = decimal_one in
        let (under, _) = div_bounds (amount * d) total pos in
        let (part, _) = div_bounds (pool.amount * ratio.atomics) d one in
        let at_most : ratio.atomics ≤ d = rw e (ratio-le d amount total one pos le) in
        let within = part-le d amount total one pos le pool.amount ratio.atomics at_most in
        let paid = mul_decimal_lem pool.amount ratio (omega (arith, within)) in
        let same : record { info = pool.info; amount = pool.amount * ratio.atomics / d } ≡ refund =
          ok-injective _ refund (rw paid at r) in
        rw (← same) (
          refl,
          part-prorata d amount total one pos le pool.amount ratio.atomics _ (rw e under) part,
          within,
          elim (le-cases amount total le) [
            | inl part' ↦ inl part'
            | inr whole ↦ inr (rw e (part-whole d amount total one pos le pool.amount whole))
          ],
        )

    refunds-IsRefund :
        (ratio : Decimal) (pools refunds : List Asset)
        → ratio.atomics ≡ amount * decimal_one / total
        → All (λ (pool : Asset). pool.amount < u128) pools
        → traverse (refund_asset h ratio) pools ≡ ok refunds
        → Pointwise (IsRefund amount total) refunds pools
    refunds-IsRefund ratio [] refunds e small r = rw (← ok-injective [] refunds r) tt
    refunds-IsRefund ratio (p ∷ ps) refunds e (small, rest) r =
        >>=-elim (refund_asset h ratio p) _ r λ x e₁ r₁.
          >>=-elim (traverse (refund_asset h ratio) ps) _ r₁ λ xs e₂ r₂.
            rw (← ok-injective (x ∷ xs) refunds r₂)
              (refund_asset-IsRefund ratio p x e small e₁, refunds-IsRefund ratio ps xs e rest e₂)

-- The messages of `response` send `sender` a refund of each pool and then burn the tokens.
abbrev pub IsPaidOut :
    (h : Host) → (sender lp : Addr) → (amount total : ℕ) → List Asset → Response → Type 0
IsPaidOut h sender lp amount total pools response =
    (refunds : List Asset) × (msgs : List (CosmosMsg Cw20ExecuteMsg)) × Pointwise
      (IsRefund amount total) refunds pools
    × (traverse {E = ContractError} (λ refund. unwrap (into_msg h refund sender)) refunds ≡ ok msgs)
    × (response.messages ≡ msgs ++ (wasm_execute lp (burn amount) [] ∷ []))

-- A withdrawal of at most the supply that succeeds, when some supply is out and the pools fit
-- 128 bits, sends the sender the refund of each pool in the order of the pools, each at most the
-- pro rata part of the pool and all of it for the whole supply, and then burns the tokens.
pub withdraw_liquidity-IsRefund :
    (h : Host) (laws : IsUint128 h) (pair_info : PairInfoRaw) (env : Env) (sender lp : Addr)
    (amount total : ℕ) (pools : List Asset) {response : Response}
    → h.addr_humanize pair_info.liquidity_token ≡ ok lp
    → query_pools h pair_info env.contract_address ≡ ok pools
    → query_supply h lp ≡ ok total
    → 0 < total
    → amount ≤ total
    → All (λ (pool : Asset). pool.amount < u128) pools
    → withdraw_liquidity h (some pair_info) env sender amount ≡ ok response
    → IsPaidOut h sender lp amount total pools response
unfolding withdraw_liquidity load
withdraw_liquidity-IsRefund h laws pair_info env sender lp amount total pools {response} human
      queried supply pos le small r =
    let r₁ = rw human at r in
    let r₂ = rw queried at r₁ in
    let r₃ = rw supply at r₂ in
    >>=-elim (from_std (h.from_ratio amount total)) _ r₃ λ ratio e₁ r₄.
      >>=-elim (traverse (refund_asset h ratio) pools) _ r₄ λ refunds e₂ r₅.
        >>=-elim (traverse (λ refund. unwrap (into_msg h refund sender)) refunds) _ r₅ λ msgs e₃ r₆.
          (
            refunds,
            msgs,
            refunds-IsRefund h laws amount total pos le ratio pools refunds
                (ratio_lem h laws amount total pos le ratio (map_err-eq-ok std _ e₁)) small e₂,
            e₃,
            ap (λ (x : Response). x.messages) (sym (ok-injective _ response r₆)),
          )

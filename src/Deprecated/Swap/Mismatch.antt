-- ===== src/Deprecated/Swap/Mismatch.antt =====
-- `swap` and the simulations of contracts/terraswap_pair_deprecated/src/contract.rs on an asset that
-- the pair does not hold.
use terraswap.Prelude.{
  Bool-cases, Option, Outcome, err, inl, inr, ok, refl, some, ◌↔◌, ◌≡◌, ◌≢◌, ◌⊎◌,
}
use terraswap.Asset.{Asset, AssetInfo, assert_sent_native_token_balance, equal}
use terraswap.Asset.Equal.{equal_iff}
use terraswap.Deprecated.Bignum.{Bignum}
use terraswap.Deprecated.Pair.{load, pools_for, two_pools}
use terraswap.Deprecated.Price.{compute_swap}
use terraswap.Deprecated.Swap.{query_reverse_simulation, query_simulation, swap}
use terraswap.Deprecated.Swap.Other.{
  IsOther, compute_offer_amount-IsOther, std-IsOther, swap-IsOther,
}
use terraswap.Deprecated.Types.{PairRaw}
use terraswap.Host.{Addr, Decimal, Env, Host, MessageInfo}
use terraswap.Stable.Types.{ContractError, asset_mismatch}

pools_for-asset_mismatch :
    (wanted : AssetInfo) (pools : Asset × Asset)
    → wanted ≢ pools.0.info
    → wanted ≢ pools.1.info
    → pools_for wanted pools ≡ err asset_mismatch
unfolding pools_for
pools_for-asset_mismatch wanted (a, b) n₁ n₂ = elim (Bool-cases (equal wanted a.info)) [
  | inl e ↦ absurd (n₁ ((equal_iff wanted a.info).0 e))
  | inr e ↦ elim (Bool-cases (equal wanted b.info)) [
    | inl e' ↦ absurd (n₂ ((equal_iff wanted b.info).0 e'))
    | inr e' ↦ rw e (rw e' refl)
  ]
]

pools_for-ok :
    (wanted : AssetInfo) (pools : Asset × Asset)
    → (wanted ≡ pools.0.info) ⊎ (wanted ≡ pools.1.info)
    → (places : Asset × Asset) × (pools_for wanted pools ≡ ok places)
unfolding pools_for
pools_for-ok wanted (a, b) (inl same) = ((a, b), rw ((equal_iff wanted a.info).1 same) refl)
pools_for-ok wanted (a, b) (inr same) = elim (Bool-cases (equal wanted a.info)) [
  | inl e ↦ ((a, b), rw e refl)
  | inr e ↦ ((b, a), rw e (rw ((equal_iff wanted b.info).1 same) refl))
]

-- The call ends with `AssetMismatch` exactly for an asset that is in neither pool.
abbrev pub IsMismatch :
    {A : Type 0} → Outcome ContractError A → (wanted : AssetInfo) → (pools : Asset × Asset) → Type 0
IsMismatch m wanted pools =
    (m ≡ err asset_mismatch) ↔ ((wanted ≢ pools.0.info) × (wanted ≢ pools.1.info))

placed-IsMismatch :
    {A : Type 0} (m : Outcome ContractError A) (wanted : AssetInfo) (pools : Asset × Asset)
    → (pools_for wanted pools ≡ err asset_mismatch → m ≡ err asset_mismatch)
    → ((places : Asset × Asset) → pools_for wanted pools ≡ ok places → IsOther m)
    → IsMismatch m wanted pools
placed-IsMismatch m wanted pools fails other' =
    let placed : (wanted ≡ pools.0.info) ⊎ (wanted ≡ pools.1.info) → IsOther m =
      λ same. let (places, e) = pools_for-ok wanted pools same in other' places e in
    (
      λ e. (λ same. placed (inl same) e, λ same. placed (inr same) e),
      λ (n₁, n₂). fails (pools_for-asset_mismatch wanted pools n₁ n₂),
    )

-- If the coins were sent and the pools can be queried, a swap and both simulations of it end
-- with `AssetMismatch` exactly if the asset is in neither pool.
pub swap-IsMismatch :
    (n : Bignum) (h : Host) (pair_info : PairRaw) (env : Env) (message_info : MessageInfo)
    (sender : Addr) (wanted : Asset) (belief limit : Option Decimal) (to : Option Addr)
    (pools : Asset × Asset)
    → assert_sent_native_token_balance wanted message_info ≡ ok tt
    → h.addr_humanize pair_info.contract_addr ≡ ok env.contract_address
    → two_pools h pair_info env.contract_address ≡ ok pools
    → IsMismatch
        (swap n h (some pair_info) env message_info sender wanted belief limit to)
        wanted.info
        pools
      × IsMismatch (query_simulation n h (some pair_info) wanted) wanted.info pools
      × IsMismatch (query_reverse_simulation n h (some pair_info) wanted) wanted.info pools
unfolding swap query_simulation query_reverse_simulation load
swap-IsMismatch n h pair_info env message_info sender wanted belief limit to pools sent human
      queried =
    (
      placed-IsMismatch (swap n h (some pair_info) env message_info sender wanted belief limit to)
          wanted.info pools (λ none_of. rw sent (rw queried (rw none_of refl)))
          λ places placed.
            swap-IsOther n h pair_info env message_info sender wanted belief limit to pools places
              sent queried placed,
      placed-IsMismatch (query_simulation n h (some pair_info) wanted) wanted.info pools
          (λ none_of. rw human (rw queried (rw none_of refl)))
          λ places placed. rw human (
            rw queried (
              rw placed
                (std-IsOther (compute_swap n places.0.amount places.1.amount wanted.amount)))),
      placed-IsMismatch (query_reverse_simulation n h (some pair_info) wanted) wanted.info pools
          (λ none_of. rw human (rw queried (rw none_of refl)))
          λ places placed. rw human (
            rw queried (
              rw placed
                (compute_offer_amount-IsOther n places.1.amount places.0.amount wanted.amount))),
    )

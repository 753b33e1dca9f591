-- ===== src/Stable/Liquidity/Deposit.antt =====
-- What a deposit mints (`deposit` of contracts/terraswap_stable/src/curve.rs).
use terraswap.Prelude.{
  >>=-elim, Bool-cases, List, Try, [], arith, err, inl, inr, leb, length, ne→nat_beq, none, ok,
  ok-injective, some, ℕ, ◌*◌, ◌+◌, ◌/◌, ◌<◌, ◌>>=◌, ◌∙◌, ◌∷◌, ◌≡◌, ◌≤◌,
}
use terraswap.Checked.{
  checked_div, checked_div-eq-ok, checked_mul, checked_mul-eq-ok, checked_sub, checked_sub-eq-ok,
  checked_sub-le, div_bounds, fits, fits-eq-ok, sum_from, u128, u64,
}
use terraswap.Stable.Curve.{Curve, fee_denominator, get_d}
use terraswap.Stable.Liquidity.{deducted, deducted_all, deposit, deposit_share, imbalance_fee}

-- The balances of the first list are at most those of the second at the same places.
abbrev pub AtMost : List ℕ → List ℕ → Type 0
AtMost [] ys = Unit
AtMost (x ∷ xs) [] = ⊥
AtMost (x ∷ xs) (y ∷ ys) = (x ≤ y) × AtMost xs ys

deducted-le : (fee d_0 d_1 old new r : ℕ) → deducted fee d_0 d_1 old new ≡ ok r → r ≤ new
unfolding deducted
deducted-le fee d_0 d_1 old new r h = >>=-elim (checked_mul u128 d_1 old) _ h λ product e₁ h₁.
    >>=-elim (checked_div product d_0) _ h₁ λ ideal e₂ h₂. >>=-elim _ _ h₂ λ difference e₃ h₃.
      >>=-elim (checked_mul u128 fee difference) _ h₃ λ charge e₄ h₄.
        >>=-elim (checked_div charge fee_denominator) _ h₄
          λ charged e₅ h₅. checked_sub-le new charged h₅

deducted_all-AtMost :
    (fee d_0 d_1 : ℕ) (old new : List ℕ) (kept : List ℕ)
    → deducted_all fee d_0 d_1 old new ≡ ok kept
    → AtMost kept new
unfolding deducted_all
deducted_all-AtMost fee d_0 d_1 [] new kept h = rw (← ok-injective [] kept h) tt
deducted_all-AtMost fee d_0 d_1 (o ∷ old) [] kept h = cc
deducted_all-AtMost fee d_0 d_1 (o ∷ old) (n ∷ new) kept h =
    >>=-elim (deducted fee d_0 d_1 o n) _ h λ b e₁ h₁.
      >>=-elim (deducted_all fee d_0 d_1 old new) _ h₁ λ bs e₂ h₂.
        rw (← ok-injective (b ∷ bs) kept h₂)
          (deducted-le fee d_0 d_1 o n b e₁, deducted_all-AtMost fee d_0 d_1 old new bs e₂)

mint_lem :
    (lp d_0 d_2 mint : ℕ)
    → (do
      d_diff ← checked_sub d_2 d_0
      growth ← checked_mul u128 lp d_diff
      mint_amount ← checked_div growth d_0
      fits u64 mint_amount)
      ≡ ok mint
    → ((lp + mint) * d_0 ≤ lp * d_2) × (lp * d_2 < (lp + mint) * d_0 + d_0) × (mint < u64)
mint_lem lp d_0 d_2 mint h = >>=-elim (checked_sub d_2 d_0) _ h λ diff e₁ h₁.
    >>=-elim (checked_mul u128 lp diff) _ h₁ λ growth e₂ h₂.
      >>=-elim (checked_div growth d_0) _ h₂ λ amount e₃ h₃.
        let (posd, q) = checked_div-eq-ok growth d_0 e₃ in
        let (lo, hi) = div_bounds growth d_0 posd in
        let (same, small) = fits-eq-ok u64 amount h₃ in
        let prod = (checked_mul-eq-ok u128 lp diff e₂).0 in
        let total = checked_sub-eq-ok d_2 d_0 e₁ in
        let scaled : lp * d_2 ≡ lp * d_0 + lp * diff = rw total (omega arith) in
        let m : mint ≡ growth / d_0 = same ∙ q in
        let low : d_0 * mint ≤ growth = rw m lo in
        let high : growth < d_0 * mint + d_0 = rw m hi in (omega arith, omega arith, omega arith)

-- What `deposit_share` computes on the way to the mint.
share_lem :
    (curve : Curve) (d_0 d_1 : ℕ) (old new : List ℕ) (lp : ℕ) {mint : ℕ}
    → deposit_share curve d_0 d_1 old new lp ≡ ok mint
    → (d_2 fee d_suggest : ℕ) × (kept : List ℕ) × (imbalance_fee curve (length old) ≡ ok fee)
      × (deducted_all fee d_0 d_1 old new ≡ ok kept)
      × AtMost kept new
      × (get_d curve kept (some d_suggest) ≡ ok d_2)
      × ((lp + mint) * d_0 ≤ lp * d_2)
      × (lp * d_2 < (lp + mint) * d_0 + d_0)
      × (mint < u64)
unfolding deposit_share
share_lem curve d_0 d_1 old new lp {mint} h =
    >>=-elim (imbalance_fee curve (length old)) _ h λ fee e₁ h₁.
      >>=-elim (deducted_all fee d_0 d_1 old new) _ h₁ λ kept e₂ h₂.
        >>=-elim (sum_from 0 new) _ h₂ λ new_sum _ h₃.
          >>=-elim (sum_from 0 kept) _ h₃ λ fee_sum _ h₄.
            >>=-elim (checked_mul u128 fee_sum d_1) _ h₄ λ product _ h₅.
              >>=-elim (checked_div product new_sum) _ h₅ λ d_suggest _ h₆.
                >>=-elim (get_d curve kept (some d_suggest)) _ h₆ λ d_2 e₃ h₇.
                  let (lower, upper, small) = mint_lem lp d_0 d_2 mint h₇ in
                  (
                    d_2,
                    fee,
                    d_suggest,
                    kept,
                    e₁,
                    e₂,
                    deducted_all-AtMost fee d_0 d_1 old new kept e₂,
                    e₃,
                    lower,
                    upper,
                    small,
                  )

-- `d_0` and `d_1` are the invariants of the old and of the new balances, and `d_2` that of the new
-- balances less the fees. The invariant `d_2` per token is no lower than `d_0` was, and one token
-- more would lower it.
abbrev pub IsFairMint : (curve : Curve) (old new : List ℕ) (lp mint : ℕ) → Type 0
IsFairMint curve old new lp mint =
    (d_0 d_1 d_2 fee d_suggest : ℕ) × (kept : List ℕ) × (get_d curve old none ≡ ok d_0)
    × (get_d curve new none ≡ ok d_1)
    × (d_0 < d_1)
    × (imbalance_fee curve (length old) ≡ ok fee)
    × (deducted_all fee d_0 d_1 old new ≡ ok kept)
    × AtMost kept new
    × (get_d curve kept (some d_suggest) ≡ ok d_2)
    × ((lp + mint) * d_0 ≤ lp * d_2)
    × (lp * d_2 < (lp + mint) * d_0 + d_0)
    × (mint < u64)

-- A deposit that succeeds in a pool with tokens out is a fair mint, as `IsFairMint` says: it
-- raises the invariant, the tokens minted do not lower the invariant (less the fees) per token,
-- and one token more would.
pub deposit_no_dilution :
    (curve : Curve) (old new : List ℕ) (lp : ℕ) {mint : ℕ}
    → 0 < lp
    → deposit curve old new lp ≡ ok mint
    → IsFairMint curve old new lp mint
unfolding deposit
deposit_no_dilution curve old new lp {mint} pos h = >>=-elim (get_d curve old none) _ h λ d_0 e₁ h₁.
    >>=-elim (get_d curve new none) _ h₁ λ d_1 e₂ h₂. elim (Bool-cases (leb d_1 d_0)) [
      | inl le ↦ let bad : ◌≡◌ {A = Try ℕ} (err tt) (ok mint) = rw le at h₂ in absurd (cc)
      | inr gt ↦
          let h₃ : deposit_share curve d_0 d_1 old new lp ≡ ok mint =
            rw (ne→nat_beq lp 0 (omega arith)) at (rw gt at h₂) in
          let (d_2, fee, d_suggest, kept, e₃, e₄, below, e₅, lower, upper, small) =
            share_lem curve d_0 d_1 old new lp h₃ in
          let less : d_0 < d_1 = ground arith in
          (
            d_0, d_1, d_2, fee, d_suggest, kept, e₁, e₂, less, e₃, e₄, below, e₅, lower, upper,
            small,
          )
    ]

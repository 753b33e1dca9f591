-- ===== src/Stable/Liquidity/Withdrawal.antt =====
-- What a withdrawal pays (`remove_balanced_liquidity` and `remove_liquidity_single_token` of
-- contracts/terraswap_stable/src/curve.rs), and what it leaves.

use mathlib.Core.Path.{subst}
use native.Mathlib.Nat.{mul_comm}
use terraswap.Prelude.{
  >>=-elim, List, Pointwise, Try, [], arith, index, length, none, ok, ok-injective, panic, refl,
  suc, sym, zero, ℕ, ◌*◌, ◌+◌, ◌-◌, ◌/◌, ◌<◌, ◌>>=◌, ◌∷◌, ◌≡◌, ◌≤◌,
}
use terraswap.Checked.{
  checked_div, checked_div-eq-ok, checked_mul, checked_mul-eq-ok, checked_sub, checked_sub-le,
  div_bounds, fits, mul-sub-add, sub-mul-add, u128, u64,
}
use terraswap.Stable.Curve.{Curve, fee_denominator, get_d, get_y_d, y_d_equation}
use terraswap.Stable.Curve.Exchange.{grows_past}
use terraswap.Stable.Curve.Root.{get_y_d-IsRoot}
use terraswap.Stable.Liquidity.{
  balanced_amount, imbalance_fee, reduced, reduced_from, remove_balanced_liquidity,
  remove_liquidity_single_token,
}

-- `amount` is the part `unmint / supply` of `balance`, rounded down, and what stays behind is at
-- least the part of the tokens that are not burnt.
abbrev pub IsPart : ℕ → ℕ → ℕ → ℕ → Type 0
IsPart unmint supply amount balance =
    (amount * supply ≤ balance * unmint)
    × (balance * unmint < amount * supply + supply)
    × (amount ≤ balance)
    × (balance * (supply - unmint) ≤ (balance - amount) * supply)

balanced_amount-IsPart :
    (unmint supply balance amount : ℕ)
    → unmint ≤ supply
    → balanced_amount unmint supply balance ≡ ok amount
    → IsPart unmint supply amount balance
unfolding balanced_amount
balanced_amount-IsPart unmint supply balance amount le h =
    >>=-elim (checked_mul u128 balance unmint) _ h λ product e₁ h₁.
      let (pos, q) = checked_div-eq-ok product supply h₁ in
      let (lo, hi) = div_bounds product supply pos in
      let p = (checked_mul-eq-ok u128 balance unmint e₁).0 in
      let low : amount * supply ≤ balance * unmint =
        rw (q, mul_comm (product / supply) supply, ← p) lo in
      let high : balance * unmint < amount * supply + supply =
        rw (q, mul_comm (product / supply) supply, ← p) hi in
      let within : amount * supply ≤ balance * supply = grind arith in
      let at_most : amount ≤ balance = grind arith in
      let rest : balance * (supply - unmint) + balance * unmint ≡ balance * supply =
        mul-sub-add balance unmint supply le in
      let rest' : (balance - amount) * supply + amount * supply ≡ balance * supply =
        sub-mul-add balance amount supply at_most in
      (low, high, at_most, omega arith)

-- Burning at most the whole supply pays, if it succeeds, of each coin the part of its balance
-- that the tokens stand for, rounded down, in the coins' order.
pub remove_balanced_liquidity-IsPart :
    (balances : List ℕ) (unmint supply : ℕ) (amounts : List ℕ)
    → unmint ≤ supply
    → remove_balanced_liquidity balances unmint supply ≡ ok amounts
    → Pointwise (IsPart unmint supply) amounts balances
unfolding remove_balanced_liquidity
remove_balanced_liquidity-IsPart [] unmint supply amounts le h = rw (← ok-injective [] amounts h) tt
remove_balanced_liquidity-IsPart (b ∷ bs) unmint supply amounts le h =
    >>=-elim (balanced_amount unmint supply b) _ h λ a e₁ h₁.
      >>=-elim (remove_balanced_liquidity bs unmint supply) _ h₁ λ rest e₂ h₂.
        rw (← ok-injective (a ∷ rest) amounts h₂) (
          balanced_amount-IsPart unmint supply b a le e₁,
          remove_balanced_liquidity-IsPart bs unmint supply rest le e₂,
        )

reduced-le : (fee d0 d1 new_y i j old r : ℕ) → reduced fee d0 d1 new_y i j old ≡ ok r → r ≤ old
unfolding reduced
reduced-le fee d0 d1 new_y i j old r h = >>=-elim (checked_mul u128 old d1) _ h λ product e₁ h₁.
    >>=-elim (checked_div product d0) _ h₁ λ expected e₂ h₂. >>=-elim _ _ h₂ λ dx e₃ h₃.
      >>=-elim (checked_mul u128 fee dx) _ h₃ λ charge e₄ h₄.
        >>=-elim (checked_div charge fee_denominator) _ h₄
          λ charged e₅ h₅. checked_sub-le old charged h₅

-- Each reduced balance stands for one balance, which is at least as large.
index-reduced_from :
    (fee d0 d1 new_y i j k : ℕ) (balances xs : List ℕ) (x : ℕ)
    → reduced_from fee d0 d1 new_y i j balances ≡ ok xs
    → index {E = Unit {0}} xs k ≡ ok x
    → (balance : ℕ) × (index {E = Unit {0}} balances k ≡ ok balance) × (x ≤ balance)
unfolding reduced_from
index-reduced_from fee d0 d1 new_y i j k [] xs x h at_k =
    let out : ◌≡◌ {A = Try ℕ} panic (ok x) = rw (← ok-injective [] xs h) at at_k in absurd (cc)
index-reduced_from fee d0 d1 new_y i j zero (b ∷ bs) xs x h at_k =
    >>=-elim (reduced fee d0 d1 new_y i j b) _ h λ r e₁ h₁.
      >>=-elim (reduced_from fee d0 d1 new_y i (suc j) bs) _ h₁ λ rs e₂ h₂.
        let here : ◌≡◌ {A = Try ℕ} (ok r) (ok x) = rw (← ok-injective (r ∷ rs) xs h₂) at at_k in
        (b, refl, rw (← ok-injective r x here) (reduced-le fee d0 d1 new_y i j b r e₁))
index-reduced_from fee d0 d1 new_y i j (suc k) (b ∷ bs) xs x h at_k =
    >>=-elim (reduced fee d0 d1 new_y i j b) _ h λ r e₁ h₁.
      >>=-elim (reduced_from fee d0 d1 new_y i (suc j) bs) _ h₁ λ rs e₂ h₂.
        let there : index {E = Unit {0}} rs k ≡ ok x = rw (← ok-injective (r ∷ rs) xs h₂) at at_k in
        index-reduced_from fee d0 d1 new_y i (suc j) k bs rs x e₂ there

single_out :
    (x y : ℕ) {out : ℕ}
    → (do difference ← checked_sub x y; dy ← checked_sub difference 1; fits u64 dy) ≡ ok out
    → (out + (y + 1) ≡ x) × (out < u64)
unfolding checked_sub fits
single_out x y h = ground arith

shrunk :
    (unmint d0 supply : ℕ) {product share d1 : ℕ}
    → checked_mul u128 unmint d0 ≡ ok product
    → checked_div product supply ≡ ok share
    → checked_sub d0 share ≡ ok d1
    → d1 + unmint * d0 / supply ≡ d0
unfolding checked_mul checked_div checked_sub
shrunk unmint d0 supply e₁ e₂ e₃ = ground arith

-- The invariant falls from `d0` by the part of it that the tokens stand for, rounded down, to `d1`.
-- The payment leaves `rest` of the coin, more than the root of the equation of the curve
-- for `d1` and the balances less the fees.
abbrev pub IsSinglePayment : (curve : Curve) (balances : List ℕ) (unmint i supply out : ℕ) → Type 0
IsSinglePayment curve balances unmint i supply out =
    (d0 d1 b c rest fee new_y : ℕ) × (xp_reduced : List ℕ) × (get_d curve balances none ≡ ok d0)
    × (d1 + unmint * d0 / supply ≡ d0)
    × (imbalance_fee curve (length balances) ≡ ok fee)
    × (get_y_d curve i balances d1 ≡ ok new_y)
    × (reduced_from fee d0 d1 new_y i 0 balances ≡ ok xp_reduced)
    × (y_d_equation curve i xp_reduced d1 ≡ ok (b, c))
    × (c + d1 * rest < rest * rest + b * rest)
    × (index {E = Unit {0}} balances i ≡ ok (out + rest))
    × (out < u64)

-- A withdrawal in one coin that succeeds is a payment as `IsSinglePayment` says: the invariant
-- falls by the burnt tokens' part of it, and what is left of the coin exceeds the root of the
-- curve's equation for the lower invariant and the balances less the fees.
pub remove_single-lt-curve :
    (curve : Curve) (balances : List ℕ) (unmint i supply : ℕ) {out : ℕ}
    → remove_liquidity_single_token curve balances unmint i supply ≡ ok out
    → IsSinglePayment curve balances unmint i supply out
unfolding remove_liquidity_single_token
remove_single-lt-curve curve balances unmint i supply {out} h =
    >>=-elim (get_d curve balances none) _ h λ d0 e₁ h₁.
      >>=-elim (checked_mul u128 unmint d0) _ h₁ λ product e₂ h₂.
        >>=-elim (checked_div product supply) _ h₂ λ share e₃ h₃.
          >>=-elim (checked_sub d0 share) _ h₃ λ d1 e₄ h₄.
            >>=-elim (get_y_d curve i balances d1) _ h₄ λ new_y e₅ h₅.
              >>=-elim (imbalance_fee curve (length balances)) _ h₅ λ fee e₆ h₆.
                >>=-elim (reduced_from fee d0 d1 new_y i 0 balances) _ h₆ λ xs e₇ h₇.
                  >>=-elim (index xs i) _ h₇ λ x e₈ h₈.
                    >>=-elim (get_y_d curve i xs d1) _ h₈ λ y e₉ h₉.
                      let (out_e, small) = single_out x y h₉ in
                      let (b, c, e_eq, root) = get_y_d-IsRoot curve i xs d1 e₉ in
                      let (balance, at_i, le) =
                        index-reduced_from fee d0 d1 new_y i 0 i balances xs x e₇ e₈ in
                      let rest = balance - out in
                      let e : balance ≡ out + rest = omega arith in
                      let far : rest ≡ y + 1 + (rest - (y + 1)) = omega arith in
                      let above = grows_past b c d1 (y + 1) (rest - (y + 1)) root.0 in
                      (
                        d0,
                        d1,
                        b,
                        c,
                        rest,
                        fee,
                        new_y,
                        xs,
                        e₁,
                        shrunk unmint d0 supply e₂ e₃ e₄,
                        e₆,
                        e₅,
                        e₇,
                        e_eq,
                        subst (λ r. c + d1 * r < r * r + b * r) (sym far) above,
                        rw e at at_i,
                        small,
                      )

-- ===== src/Stable/Curve/Exchange.antt =====
-- What a swap pays (`exchange` of contracts/terraswap_stable/src/curve.rs), and what it leaves.
use terraswap.Prelude.{
  >>=-elim, List, arith, index, none, ok, refl, ℕ, ◌*◌, ◌+◌, ◌-◌, ◌/◌, ◌<◌, ◌>>=◌, ◌≡◌, ◌≤◌,
}
use terraswap.Checked.{checked_add, checked_add-eq-ok, checked_div, checked_mul, checked_sub, u128}
use terraswap.Stable.Curve.{Curve, exchange, fee_denominator, get_d, get_y, y_equation}
use terraswap.Stable.Curve.Root.{get_y-IsRoot}

-- The payment before the fee: `balances[j] - y - 1`, less the fee on it.
pay_lem :
    (balance y fee : ℕ) {out : ℕ}
    → (do
      rest ← checked_sub balance y
      dy ← checked_sub rest 1
      product ← checked_mul u128 dy fee
      dy_fee ← checked_div product fee_denominator
      checked_sub dy dy_fee)
      ≡ ok out
    → (y < balance) × (out + (balance - y - 1) * fee / 10_000 ≡ balance - y - 1)
unfolding checked_sub checked_mul checked_div
pay_lem balance y fee h = ground arith

-- Past the root the left side grows: both factors of `t * (t + b - d)` do.
pub grows_past :
    (b c d t k : ℕ) → c + d * t < t * t + b * t → c + d * (t + k) < (t + k) * (t + k) + b * (t + k)
grows_past b c d t k h =
    let factor : d < t + b = lt_of_mul t d (t + b) (omega arith) in
    let gain : d * k ≤ (t + b) * k = mul_mono k d (t + b) (omega arith) in omega arith
  where
    lt_of_mul : (t a b : ℕ) → a * t < b * t → a < b
    lt_of_mul t a b h = grind arith

    mul_mono : (k a b : ℕ) → a ≤ b → a * k ≤ b * k
    mul_mono k a b h = grind arith

-- What is left of a balance after the payment.
leaves :
    (b c d y fee balance out : ℕ)
    → c + d * (y + 1) < (y + 1) * (y + 1) + b * (y + 1)
    → y < balance
    → out + (balance - y - 1) * fee / 10_000 ≡ balance - y - 1
    → (rest : ℕ) × (balance ≡ out + rest)
      × (c + d * rest < rest * rest + b * rest)
      × (rest ≡ y + 1 + (out + rest - y - 1) * fee / 10_000)
leaves b c d y fee balance out above lt payment =
    let kept = (balance - y - 1) * fee / 10_000 in
    let rest = y + 1 + kept in
    let e : balance ≡ out + rest = omega arith in
    (rest, e, grows_past b c d (y + 1) kept above, rw (← e) refl)

-- A payment that leaves `rest` of coin `j`. The equation of the curve, set up for the balances with
-- the offer in, has its root below `rest`. The payment is what lies between the solver's `y` plus 1
-- and the balance, less the fee on that.
abbrev pub IsWithinCurve :
    (curve : Curve) (i j in_amount : ℕ) (balances : List ℕ) (out : ℕ) → Type 0
IsWithinCurve curve i j in_amount balances out =
    (balance_i d b c y rest : ℕ) × (index {E = Unit {0}} balances i ≡ ok balance_i)
    × (index {E = Unit {0}} balances j ≡ ok (out + rest))
    × (get_d curve balances none ≡ ok d)
    × (y_equation curve i j (balance_i + in_amount) balances d ≡ ok (b, c))
    × (get_y curve i j (balance_i + in_amount) balances ≡ ok y)
    × (c + d * rest < rest * rest + b * rest)
    × (rest ≡ y + 1 + (out + rest - y - 1) * curve.fee_numerator / 10_000)

-- A swap that succeeds is within the curve, as `IsWithinCurve` says: it leaves more of the coin
-- that it pays than the root of the curve's equation for the balances with the offer in. So the
-- trader is never paid more than the curve allows, and less by the fee.
pub exchange-lt-curve :
    (curve : Curve) (i j in_amount : ℕ) (balances : List ℕ) {out : ℕ}
    → exchange curve i j in_amount balances ≡ ok out
    → IsWithinCurve curve i j in_amount balances out
unfolding exchange
exchange-lt-curve curve i j in_amount balances {out} h =
    >>=-elim (index balances i) _ h λ balance_i e₁ h₁.
      >>=-elim (checked_add u128 balance_i in_amount) _ h₁ λ x e₂ h₂.
        >>=-elim (get_y curve i j x balances) _ h₂ λ y e₃ h₃.
          >>=-elim (index balances j) _ h₃ λ balance_j e₄ h₄.
            let (lt, payment) = pay_lem balance_j y curve.fee_numerator h₄ in
            let same : x ≡ balance_i + in_amount = (checked_add-eq-ok _ _ _ e₂).0 in
            let solved : get_y curve i j (balance_i + in_amount) balances ≡ ok y = rw same at e₃ in
            let (d, b, c, e₅, e₆, root) = get_y-IsRoot curve i j _ balances solved in
            let (rest, e₇, below, split) =
              leaves b c d y curve.fee_numerator balance_j out root.0 lt payment in
            (balance_i, d, b, c, y, rest, e₁, rw e₇ at e₄, e₅, e₆, solved, below, split)

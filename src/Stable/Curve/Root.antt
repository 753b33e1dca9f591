-- ===== src/Stable/Curve/Root.antt =====
-- The quadratic solver of contracts/terraswap_stable/src/curve.rs (`get_y`, `get_y_d`): how close the
-- result is to the root of `y**2 + (b - d) * y = c`.
use native.Mathlib.Decide.{dec_le}
use terraswap.Prelude.{
  >>=-elim, List, ap, arith, inl, inr, none, ok, ℕ, ◌*◌, ◌+◌, ◌-◌, ◌/◌, ◌<◌, ◌≡◌, ◌≤◌, ◌⊎◌,
}
use terraswap.Checked.{checked_add, checked_div, checked_mul, checked_sub, div_bounds}
use terraswap.Stable.Curve.{
  Curve, get_d, get_y, get_y_d, iterate, iterations, y_d_equation, y_equation, y_step,
}
use terraswap.Stable.Curve.Loop.{Reached, iterate-Reached, rounds}

y_step_value :
    (b c d y : ℕ) {r : ℕ}
    → y_step b c d y ≡ ok r
    → (d < 2 * y + b) × (r ≡ (y * y + c) / (2 * y + b - d))
unfolding y_step checked_mul checked_add checked_sub checked_div
y_step_value b c d y h = ground arith

-- A round of the solver divides `y * y + c` by `2 * y + b - d`, exactly and without wrapping.
pub y_step_lem :
    (b c d y : ℕ) {r : ℕ}
    → y_step b c d y ≡ ok r
    → (m : ℕ) × (m + d ≡ 2 * y + b) × (m * r ≤ y * y + c) × (y * y + c < m * r + m)
y_step_lem b c d y h =
    let (pos, e) = y_step_value b c d y h in
    let (lo, hi) = div_bounds (y * y + c) (2 * y + b - d) (omega arith) in
    (2 * y + b - d, omega arith, rw e lo, rw e hi)

square_sum_from : (y k : ℕ) → 2 * (y * (y + k)) ≤ (y + k) * (y + k) + y * y
square_sum_from y k = omega arith

square_sum : (t y : ℕ) → 2 * (y * t) ≤ t * t + y * y
square_sum t y = elim (dec_le y t) [
  | yes h ↦ let e : t ≡ y + (t - y) = omega arith in rw e (square_sum_from y (t - y))
  | no h ↦ let e : y ≡ t + (y - t) = omega arith in rw e (omega (arith, square_sum_from t (y - t)))
]

-- A round never falls 1 or more below the root: at its result plus 1 the left side exceeds `c`.
y_step_above :
    (b c d y r : ℕ) → y_step b c d y ≡ ok r → c + d * (r + 1) < (r + 1) * (r + 1) + b * (r + 1)
y_step_above b c d y r h =
    let (m, e, _, hi) = y_step_lem b c d y h in
    let e' : (m + d) * (r + 1) ≡ (2 * y + b) * (r + 1) = ap (λ (k : ℕ). k * (r + 1)) e in
    omega (arith, e', square_sum (r + 1) y)

near_squares : (y r : ℕ) → r ≤ y + 1 → y ≤ r + 1 → y * y + r * r ≤ 2 * (y * r) + 1
near_squares y r up down = elim (dec_le y r) [
  | yes h ↦ elim (dec_le r y) [
    | yes h' ↦ let e : r ≡ y = omega arith in rw e (omega arith)
    | no h' ↦ let e : r ≡ y + 1 = omega arith in rw e (omega arith)
  ]
  | no h ↦ let e : y ≡ r + 1 = omega arith in rw e (omega arith)
]

-- A round that moves by at most 1 is at most 1 above: at its result the left side is at most `c + 1`.
y_step_near :
    (b c d y r : ℕ) → y_step b c d y ≡ ok r → r ≤ y + 1 → y ≤ r + 1 → r * r + b * r ≤ c + d * r + 1
y_step_near b c d y r h up down =
    let (m, e, lo, _) = y_step_lem b c d y h in
    let e' : (m + d) * r ≡ (2 * y + b) * r = ap (λ (k : ℕ). k * r) e in omega (arith, e', near)
  where
    near : y * y + r * r ≤ 2 * (y * r) + 1
    near = near_squares y r up down

-- What a run of the solver with coefficients `b` and `c` has found: the root lies less than 1 above
-- the result. If the last round moved the value by at most 1, the result is not above the root by more than the 1 added to `c`; otherwise all rounds
-- were used.
abbrev pub IsRoot : ℕ → ℕ → ℕ → ℕ → Type 0
IsRoot b c d y =
    (c + d * (y + 1) < (y + 1) * (y + 1) + b * (y + 1))
    × ((y * y + b * y ≤ c + d * y + 1) ⊎ (rounds iterations (y_step b c d) d ≡ ok y))

solve-IsRoot : (b c d : ℕ) {y : ℕ} → iterate iterations (y_step b c d) d ≡ ok y → IsRoot b c d y
solve-IsRoot b c d {y} h = go (iterate-Reached (y_step b c d) 31 d h)
  where
    go : Reached (y_step b c d) 31 d y → IsRoot b c d y
    go (p, e, inl (up, down)) = (y_step_above b c d p y e, inl (y_step_near b c d p y e up down))
    go (p, e, inr all) = (y_step_above b c d p y e, inr all)

-- A result of `get_y` is the root, as `IsRoot` says, of the equation that `get_y` sets up for
-- the invariant `d` of the balances: it is less than 1 below the root, and above it by no more
-- than the 1 added to `c`, unless all rounds were used.
pub get_y-IsRoot :
    (curve : Curve) (i j x : ℕ) (balances : List ℕ) {y : ℕ}
    → get_y curve i j x balances ≡ ok y
    → (d b c : ℕ) × (get_d curve balances none ≡ ok d)
      × (y_equation curve i j x balances d ≡ ok (b, c))
      × IsRoot b c d y
unfolding get_y
get_y-IsRoot curve i j x balances h = >>=-elim (get_d curve balances none) _ h λ d e₁ h₁.
    >>=-elim (y_equation curve i j x balances d) _ h₁
      λ e e₂ h₂. (d, e.0, e.1, e₁, e₂, solve-IsRoot e.0 e.1 d h₂)

-- The same for `get_y_d`, which is given the invariant `d`.
pub get_y_d-IsRoot :
    (curve : Curve) (i : ℕ) (amounts : List ℕ) (d : ℕ) {y : ℕ}
    → get_y_d curve i amounts d ≡ ok y
    → (b c : ℕ) × (y_d_equation curve i amounts d ≡ ok (b, c)) × IsRoot b c d y
unfolding get_y_d
get_y_d-IsRoot curve i amounts d h =
    >>=-elim (y_d_equation curve i amounts d) _ h
      λ e e₁ h₁. (e.0, e.1, e₁, solve-IsRoot e.0 e.1 d h₁)

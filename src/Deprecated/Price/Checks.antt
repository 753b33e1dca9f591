-- ===== src/Deprecated/Price/Checks.antt =====
-- `assert_max_spread` and `assert_slippage_tolerance` of
-- contracts/terraswap_pair_deprecated/src/contract.rs.
use terraswap.Prelude.{
  >>=-elim, Bool, Bool-cases, Option, Outcome, arith, ensure, ensure-eq-ok, false, inl, inr, ltb,
  map_err-eq-ok, none, not, ok, ok-injective, some, true, ℕ, ◌*◌, ◌+◌, ◌-◌, ◌/◌, ◌≡◌, ◌≤◌, ◌⊎◌,
}
use terraswap.Deprecated.Bignum.{Bignum, Decimal256, IsBignum}
use terraswap.Deprecated.Price.{
  assert_belief, assert_max_spread, assert_prices, assert_slippage_tolerance, decimal256_one,
  exceeds, is_dropped, widened,
}
use terraswap.Host.{Decimal, decimal_one}
use terraswap.Stable.Types.{
  ContractError, from_std, max_slippage_assertion, max_spread_assertion, std,
}

-- The ratio `a / b` in units of 10^-18, rounded down.
abbrev pub ratio_of : ℕ → ℕ → ℕ
ratio_of a b = a * decimal_one / b

-- With a limit, what is lacking of the expected return, or else the spread of the swap, is at most
-- the limit's part of the whole.
abbrev pub IsWithinSpread :
    (belief_price max_spread : Option Decimal)
    → (offer_amount return_amount spread_amount : ℕ) → Type 0
IsWithinSpread (some belief) (some limit) offer ret spread =
    let expected = ratio_of offer belief.atomics in
    (expected ≤ ret) ⊎ (ratio_of (expected - ret) expected ≤ limit.atomics)
IsWithinSpread none (some limit) offer ret spread = ratio_of spread (ret + spread) ≤ limit.atomics
IsWithinSpread belief none offer ret spread = Unit

-- With a tolerance, neither price of the deposits, less the tolerance, is above that of the pools.
abbrev pub IsWithinSlippage : Option Decimal → (deposits pools : ℕ × ℕ) → Type 0
IsWithinSlippage none deposits pools = Unit
IsWithinSlippage (some tolerance) (d0, d1) (p0, p1) =
    let kept = decimal_one - tolerance.atomics in
    (tolerance.atomics ≤ decimal_one)
    × (ratio_of d0 d1 * kept / decimal_one ≤ ratio_of p0 p1)
    × (ratio_of d1 d0 * kept / decimal_one ≤ ratio_of p1 p0)

not-exceeds : (a b : Decimal256) → not (exceeds a b) ≡ true → a.atomics ≤ b.atomics
not-exceeds a b e = ground arith

module _ (n : Bignum) (laws : IsBignum n) where
  open laws use {
    uint_add-eq-ok, uint_sub-eq-ok, uint_div_decimal-eq-ok, from_ratio-eq-ok, decimal_sub-eq-ok,
    decimal_mul-eq-ok,
  }

  belief_lem :
      (limit : Decimal256) (expected ret spread : ℕ)
      → assert_belief n limit expected ret spread ≡ ok tt
      → (expected ≤ ret) ⊎ (ratio_of spread expected ≤ limit.atomics)
  unfolding assert_belief
  belief_lem limit expected ret spread e = elim (Bool-cases (ltb ret expected)) [
    | inr no' ↦ inl (ground arith)
    | inl less ↦
        let e' = rw less at e in
        >>=-elim (from_std (n.from_ratio spread expected)) _ e' λ r e₁ e₂.
          let value = (from_ratio-eq-ok spread expected (map_err-eq-ok std _ e₁)).1 in
          inr (rw (← value) (not-exceeds r limit (ensure-eq-ok _ max_spread_assertion e₂)))
  ]

  -- Spread.
  pub assert_max_spread-IsWithinSpread :
      (belief limit : Option Decimal) (offer ret spread : ℕ)
      → assert_max_spread n belief limit offer ret spread ≡ ok tt
      → IsWithinSpread belief limit offer ret spread
  unfolding assert_max_spread
  assert_max_spread-IsWithinSpread none none offer ret spread e = tt
  assert_max_spread-IsWithinSpread (some b) none offer ret spread e = tt
  assert_max_spread-IsWithinSpread none (some limit) offer ret spread e =
      >>=-elim (from_std (n.uint_add ret spread)) _ e λ total e₁ e₂.
        >>=-elim (from_std (n.from_ratio spread total)) _ e₂ λ r e₃ e₄.
          let sum = uint_add-eq-ok ret spread (map_err-eq-ok std _ e₁) in
          let value = (from_ratio-eq-ok spread total (map_err-eq-ok std _ e₃)).1 in
          let below = not-exceeds r (widened limit) (ensure-eq-ok _ max_spread_assertion e₄) in
          rw (← sum, ← value) below
  assert_max_spread-IsWithinSpread (some b) (some limit) offer ret spread e =
      >>=-elim (from_std (n.uint_div_decimal offer (widened b))) _ e λ expected e₁ e₂.
        let value = (uint_div_decimal-eq-ok offer (widened b) (map_err-eq-ok std _ e₁)).1 in
        elim (Bool-cases (ltb ret expected)) [
          | inr no' ↦ inl (rw (← value) (ground arith))
          | inl less ↦
              let e₃ = rw less at e₂ in
              >>=-elim (from_std (n.uint_sub expected ret)) _ e₃ λ lack e₄ e₅.
                let split = uint_sub-eq-ok expected ret (map_err-eq-ok std _ e₄) in
                let lacking : expected - ret ≡ lack = omega (arith, split) in
                rw (← value) (rw lacking (belief_lem (widened limit) expected ret lack e₅))
        ]

  is_dropped_lem :
      (kept : Decimal256) (da db pa pb : ℕ)
      → is_dropped n kept da db pa pb ≡ ok false
      → ratio_of da db * kept.atomics / decimal_one ≤ ratio_of pa pb
  unfolding is_dropped
  is_dropped_lem kept da db pa pb e = >>=-elim (n.from_ratio da db) _ e λ given e₁ e₂.
      >>=-elim (n.decimal_mul given kept) _ e₂ λ scaled e₃ e₄.
        >>=-elim (n.from_ratio pa pb) _ e₄ λ price e₅ e₆.
          let deposited = (from_ratio-eq-ok da db e₁).1 in
          let pooled = (from_ratio-eq-ok pa pb e₅).1 in
          let product = decimal_mul-eq-ok given kept e₃ in
          let below : scaled.atomics ≤ price.atomics =
            within scaled price (ok-injective _ false e₆) in
          rw (← deposited, ← pooled) (rw (← product) below)
    where
      within : (a b : Decimal256) → exceeds a b ≡ false → a.atomics ≤ b.atomics
      within a b x = ground arith

  prices_lem :
      (kept : Decimal256) (d0 d1 p0 p1 : ℕ)
      → assert_prices n kept (d0, d1) (p0, p1) ≡ ok tt
      → (ratio_of d0 d1 * kept.atomics / decimal_one ≤ ratio_of p0 p1)
        × (ratio_of d1 d0 * kept.atomics / decimal_one ≤ ratio_of p1 p0)
  unfolding assert_prices
  prices_lem kept d0 d1 p0 p1 e =
      >>=-elim (from_std (is_dropped n kept d0 d1 p0 p1)) _ e λ first e₁ e₂.
        >>=-elim (ensure (not first) max_slippage_assertion) _ e₂ λ _ e₃ e₄.
          >>=-elim (from_std (is_dropped n kept d1 d0 p1 p0)) _ e₄ λ second e₅ e₆. (
            is_dropped_lem kept d0 d1 p0 p1
                (map_err-eq-ok std _ (passed first (ensure-eq-ok _ _ e₃) e₁)),
            is_dropped_lem kept d1 d0 p1 p0
                (map_err-eq-ok std _ (passed second (ensure-eq-ok _ _ e₆) e₅)),
          )
    where
      passed : (b : Bool) {m : Outcome ContractError Bool} → not b ≡ true → m ≡ ok b → m ≡ ok false
      passed false t e = e
      passed true t e = absurd (cc)

  -- Slippage.
  pub assert_slippage_tolerance-IsWithinSlippage :
      (tolerance : Option Decimal) (deposits pools : ℕ × ℕ)
      → assert_slippage_tolerance n tolerance deposits pools ≡ ok tt
      → IsWithinSlippage tolerance deposits pools
  unfolding assert_slippage_tolerance
  assert_slippage_tolerance-IsWithinSlippage none deposits pools e = tt
  assert_slippage_tolerance-IsWithinSlippage (some s) (d0, d1) (p0, p1) e =
      >>=-elim (ensure (not (exceeds (widened s) decimal256_one)) _) _ e λ _ e₁ e₂.
        >>=-elim (from_std (n.decimal_sub decimal256_one (widened s))) _ e₂ λ kept e₃ e₄.
          let small = not-exceeds (widened s) decimal256_one (ensure-eq-ok _ _ e₁) in
          let split = decimal_sub-eq-ok decimal256_one (widened s) (map_err-eq-ok std _ e₃) in
          let rest : decimal_one - s.atomics ≡ kept.atomics = omega (arith, split) in
          let (first, second) = prices_lem kept d0 d1 p0 p1 e₄ in
          (small, rw rest first, rw rest second)

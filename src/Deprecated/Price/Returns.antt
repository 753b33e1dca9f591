-- ===== src/Deprecated/Price/Returns.antt =====
-- When `compute_swap` of contracts/terraswap_pair_deprecated/src/contract.rs returns.
use native.Mathlib.Decide.{dec_le}
use native.Mathlib.Nat.{le_of_mul-le-mul_left, lt_of_mul-lt-mul_left, mul-le-mul_left}
use terraswap.Prelude.{arith, ok, refl, ℕ, ◌*◌, ◌+◌, ◌-◌, ◌/◌, ◌<◌, ◌≡◌, ◌≤◌}
use terraswap.Checked.{div_bounds, u128}
use terraswap.Deprecated.Bignum.{Bignum, Decimal256, FitsBignum, u256}
use terraswap.Deprecated.Price.{commission_rate, compute_swap, gross_return}
use terraswap.Deprecated.Types.{Simulation}
use terraswap.Host.{decimal_one}

-- `d` is the unit, `s` the pool after the offer, `x` the ratio of the product by it, `p` what is paid,
-- `a` the price before the swap, and `g` the whole part of `p`.
module _ (d op o ask s x a p g : ℕ) where
  paid-le_price :
      s ≡ op + o
      → ask * d ≡ x + p
      → op * (ask * d) < s * x + s
      → ask * d < op * a + op
      → d * g ≤ p
      → op * s ≤ o * (ask * d)
      → 0 < op
      → d * g ≤ o * a
  paid-le_price es split high near low wide pos = elim (dec_le (d * g) (o * a)) [
    | yes h ↦ h
    | no h ↦
        let over : op * (s * (o * a + 1)) ≤ op * (s * p) =
          mul-le-mul_left op (mul-le-mul_left s (omega arith)) in
        let whole : s * (ask * d) ≡ s * x + s * p = rw split (omega arith) in
        let rest : op * (s * p + op * (ask * d) + 1) ≤ op * (s * (ask * d) + s) =
          mul-le-mul_left op (omega (arith, whole)) in
        let price : s * (o * (ask * d + 1)) ≤ s * (o * (op * a + op)) =
          mul-le-mul_left s (mul-le-mul_left o (omega arith)) in
        let small : o * (op * s) ≤ o * (o * (ask * d)) = mul-le-mul_left o wide in
        let e₁ : op * (s * (ask * d)) ≡ op * (op * (ask * d)) + op * (o * (ask * d)) =
          rw es (omega arith) in
        let e₂ : s * (o * (ask * d)) ≡ op * (o * (ask * d)) + o * (o * (ask * d)) =
          rw es (omega arith) in
        absurd (omega (arith, over, rest, price, small, e₁, e₂))
  ]

quotient-le : (d g p q : ℕ) → 0 < d → d * g ≤ p → q ≡ p / d → g ≤ q
quotient-le d g p q pos le e =
    let (_, hi) = div_bounds p d pos in
    let above : d * g < d * (q + 1) = rw e (omega (arith, hi, le)) in
    let g' : g < q + 1 = lt_of_mul-lt-mul_left d above in omega arith

quotient-all : (a b : ℕ) → 0 < b → a / b ≤ a
quotient-all a b h = grind arith

-- The ratio of the product is at most the pool.
ratio-le : (s op o ask d x : ℕ) → 0 < s → s ≡ op + o → s * x ≤ op * (ask * d) → x ≤ ask * d
ratio-le s op o ask d x pos es le =
    let wide : s * (ask * d) ≡ op * (ask * d) + o * (ask * d) = rw es (omega arith) in
    let q : s * x ≤ s * (ask * d) = omega (arith, le, wide) in le_of_mul-le-mul_left q pos

price-lt :
    (d op o ask a e m : ℕ) → d * e ≤ o * a → op * a ≤ ask * d → o * ask < op * m → 0 < d → e < m
price-lt d op o ask a e m le price small pos =
    let s₁ : op * (d * e) ≤ op * (o * a) = mul-le-mul_left op le in
    let s₂ : o * (op * a) ≤ o * (ask * d) = mul-le-mul_left o price in
    let s₃ : d * (o * ask + 1) ≤ d * (op * m) = mul-le-mul_left d (omega (arith, small)) in
    let q : op * d * e < op * d * m = omega (arith, s₁, s₂, s₃) in lt_of_mul-lt-mul_left (op * d) q

module _ (n : Bignum) (laws : FitsBignum n) (op ask o : ℕ) where
  open laws use {
    uint_add_fits, uint_sub_fits, uint_mul_fits, uint_mul_decimal_fits, to_uint128_fits,
    from_uint256_fits, from_ratio_fits, decimal_sub_fits,
  }

  -- `compute_swap` returns for a pool that is not empty, if the numbers that it computes fit
  -- their widths and the return, rounded up, is at most the offer at the price before it.
  pub compute_swap-returns :
      0 < op
      → ask < u128
      → op + o < u256
      → op * ask * decimal_one < u256
      → o * (ask * decimal_one) < u256
      → o * ask < op * u128
      → op * (op + o) ≤ o * (ask * decimal_one)
      → (s : Simulation) × (compute_swap n op ask o ≡ ok s)
  unfolding compute_swap gross_return
  compute_swap-returns pos small sum product offered expected wide =
      let d = decimal_one in
      let one : 0 < decimal_one = omega arith in
      let s = op + o in
      let pos_s : 0 < op + o = omega arith in
      let x = op * ask * decimal_one / (op + o) in
      let p = ask * decimal_one - x in
      let a = ask * decimal_one / op in
      let g = 1 * p / decimal_one in
      let e = o * a / decimal_one in
      let c = g * commission_rate.atomics / decimal_one in
      let (x_lo, x_hi) = div_bounds (op * ask * decimal_one) (op + o) pos_s in
      let (a_lo, a_hi) = div_bounds (ask * decimal_one) op pos in
      let (g_lo, _) = div_bounds (1 * p) decimal_one one in
      let (e_lo, _) = div_bounds (o * a) decimal_one one in
      let within : x ≤ ask * decimal_one =
        ratio-le s op o ask decimal_one x pos_s refl (omega (arith, x_lo)) in
      let g_p : decimal_one * g ≤ p = omega (arith, g_lo) in
      let paid : decimal_one * g ≤ o * a =
        paid-le_price decimal_one op o ask s x a p g refl (omega (arith, within))
          (omega (arith, x_hi)) (omega (arith, a_hi)) g_p wide pos in
      let g_e : g ≤ e = quotient-le decimal_one g (o * a) e one paid refl in
      let e_small : e < u128 =
        price-lt decimal_one op o ask a e u128 (omega (arith, e_lo)) (omega (arith, a_lo)) expected
          one in
      let taken : c ≤ g = omega arith in
      let g_small : g < u128 = omega (arith, g_p, small) in
      let a_all : a ≤ ask * decimal_one = quotient-all (ask * decimal_one) op pos in
      let a_le : o * a ≤ o * (ask * decimal_one) = mul-le-mul_left o a_all in
      let total : Decimal256 = record { atomics = ask * decimal_one } in
      rw (uint_mul_fits op ask (omega arith)) (
        rw (from_uint256_fits ask (omega arith)) (
          rw (uint_add_fits op o sum) (
            rw (from_ratio_fits (op * ask) (op + o) pos_s product) (
              rw (decimal_sub_fits total (record { atomics = x }) within) (
                rw (uint_mul_decimal_fits 1 (record { atomics = p }) (omega arith)) (
                  rw (from_ratio_fits ask op pos (omega arith)) (
                    rw
                      (uint_mul_decimal_fits o (record { atomics = a })
                        (omega (arith, a_le, offered)))
                      (rw (uint_sub_fits e g g_e) (
                        rw (uint_mul_decimal_fits g commission_rate (omega (arith, g_small))) (
                          rw (uint_sub_fits g c taken) (
                            rw (to_uint128_fits (g - c) (omega (arith, g_small))) (
                              rw (to_uint128_fits (e - g) (omega (arith, e_small))) (
                                rw (to_uint128_fits c (omega (arith, g_small, taken)))
                                  (_, refl))))))))))))))

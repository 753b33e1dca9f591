-- ===== src/Stable/Curve/Balanced.antt =====
-- `get_d` of contracts/terraswap_stable/src/curve.rs on a pool whose balances are all equal.
use mathlib.Core.Path.{subst}
use native.Mathlib.Nat.{mul_comm}
use terraswap.Prelude.{
  Try, ap, arith, length-replicate, lt→ltb, ne→nat_beq, none, ok, refl, replicate, suc, traverse,
  true, unwrap, zero, ℕ, ◌*◌, ◌+◌, ◌-◌, ◌/◌, ◌<◌, ◌≡◌, ◌≤◌,
}
use terraswap.Checked.{
  add_or_panic, checked_add, checked_div, checked_mul, checked_sub, mul-div_self, sum_from, u128,
  u64,
}
use terraswap.Stable.Curve.{Curve, d_product, d_step, get_d, is_close, iterate}
use terraswap.Stable.Curve.Loop.{is_close_lem}

sum_from-replicate :
    (n acc a : ℕ) → acc + n * a < u128 → sum_from acc (replicate n a) ≡ ok (acc + n * a)
unfolding sum_from add_or_panic
sum_from-replicate zero acc a h = ap ok (omega arith)
sum_from-replicate (suc n) acc a h =
    rw (lt→ltb (acc + a) u128 (omega (arith, zero_le_mul)))
      (rw (sum_from-replicate n (acc + a) a (omega arith)) (ap ok (omega arith)))
  where
    zero_le_mul : 0 ≤ n * a
    zero_le_mul = omega arith

d_product-replicate : (k s : ℕ) → 0 < s → s * s < u128 → d_product s (replicate k s) s ≡ ok s
unfolding d_product checked_mul checked_div
d_product-replicate zero s pos small = refl
d_product-replicate (suc k) s pos small =
    rw (lt→ltb (s * s) u128 small)
      (rw (ne→nat_beq s 0 (omega arith), mul-div_self s s pos) (d_product-replicate k s pos small))

checked_mul_fits : (m a b : ℕ) → a * b < m → checked_mul m a b ≡ ok (a * b)
unfolding checked_mul
checked_mul_fits m a b h = ground arith

checked_add_fits : (m a b : ℕ) → a + b < m → checked_add m a b ≡ ok (a + b)
unfolding checked_add
checked_add_fits m a b h = ground arith

checked_div_pos : (a b : ℕ) → 0 < b → checked_div a b ≡ ok (a / b)
unfolding checked_div
checked_div_pos a b h = ground arith

checked_sub_fits : (a b : ℕ) → b ≤ a → checked_sub a b ≡ ok (a - b)
unfolding checked_sub
checked_sub_fits a b h = ground arith

le-mul_pos : (a b : ℕ) → 0 < b → a ≤ a * b
le-mul_pos a b h = grind arith

mul_mono : (k a b : ℕ) → a ≤ b → a * k ≤ b * k
mul_mono k a b h = grind arith

-- A round at the sum `s` of the balances stays there: with `w = ann * s + s * n` it is `w * s / w`.
d_step_fixed :
    (n k s : ℕ)
    → 0 < n
    → 0 < s
    → ((k + 1) * s + s * n) * s < u128
    → d_step n ((k + 1) * s) k (replicate n s) s ≡ ok s
unfolding d_step
d_step_fixed n k s pn ps small =
    let w = (k + 1) * s + s * n in
    let wide : w ≤ w * s = le-mul_pos w s ps in
    let square : s * s ≤ w * s = mul_mono s s w (omega arith) in
    let e : s * k + (s + s * n) ≡ w = omega arith in
    rw (d_product-replicate n s ps (omega arith)) (
      rw (checked_mul_fits u128 s n (omega arith)) (
        rw (checked_add_fits u128 ((k + 1) * s) (s * n) (omega arith)) (
          rw (checked_mul_fits u128 w s small) (
            rw (checked_mul_fits u128 s k (omega arith)) (
              rw (checked_add_fits u128 s (s * n) (omega arith)) (
                rw (checked_add_fits u128 (s * k) (s + s * n) (omega arith)) (
                  rw (checked_div_pos (w * s) (s * k + (s + s * n)) (omega arith))
                    (ap ok (rw (e, mul_comm w s) (mul-div_self s w (omega arith)))))))))))

traverse-replicate :
    (n m a : ℕ)
    → a * m < u128
    → traverse {E = Unit {0}} (λ amount. unwrap (checked_mul u128 amount m)) (replicate n a)
      ≡ ok (replicate n (a * m))
traverse-replicate zero m a h = refl
traverse-replicate (suc n) m a h =
    rw (checked_mul_fits u128 a m h) (rw (traverse-replicate n m a h))

-- A round that returns the value it was given ends the loop.
iterate_fixed : (n : ℕ) (step : ℕ → Try ℕ) (d : ℕ) → step d ≡ ok d → iterate (suc n) step d ≡ ok d
unfolding iterate
iterate_fixed n step d e = rw e (rw (is_close_self d))
  where
    is_close_self : (d : ℕ) → is_close d d ≡ ok true
    is_close_self d = ground (arith, is_close_lem d d)

-- The invariant of a pool that holds the same amount, above 0, of each of `n` coins, `n` above
-- 0, is the total that it holds, for every amplification above 0, if the numerator of a round
-- fits 128 bits and `amp * n` fits 64.
pub get_d-replicate :
    (curve : Curve) (n a : ℕ)
    → 0 < n
    → 0 < a
    → 0 < curve.amp
    → curve.amp * n < u64
    → (curve.amp * n * (n * a) + n * a * n) * (n * a) < u128
    → get_d curve (replicate n a) none ≡ ok (n * a)
unfolding get_d
get_d-replicate curve n a pn pa pamp fit64 fit128 =
    let s = n * a in
    let ann = curve.amp * n in
    let w = ann * s + s * n in
    let ps : 0 < s = grind arith in
    let pann : 0 < ann = grind arith in
    let wide : w ≤ w * s = le-mul_pos w s ps in
    let more : s ≤ s * n = le-mul_pos s n pn in
    let e : a * n ≡ s = mul_comm a n in
    let sum : sum_from 0 (replicate n a) ≡ ok s =
      rw (sum_from-replicate n 0 a (omega arith)) (ap ok (omega arith)) in
    let products : traverse {E = Unit {0}} (λ amount. unwrap (checked_mul u128 amount n))
          (replicate n a)
        ≡ ok (replicate n s) =
      rw (traverse-replicate n n a (omega arith)) (rw e) in
    rw (length-replicate n a) (
      rw sum (
        rw (ne→nat_beq s 0 (omega arith)) (
          rw products (
            rw (checked_mul_fits u64 curve.amp n fit64) (
              rw (checked_mul_fits u128 ann s (omega arith)) (
                rw (checked_sub_fits ann 1 (omega arith))
                  (iterate_fixed 31 (d_step n (ann * s) (ann - 1) (replicate n s)) s fixed)))))))
  where
    fixed :
        d_step n (curve.amp * n * (n * a)) (curve.amp * n - 1) (replicate n (n * a)) (n * a)
        ≡ ok (n * a)
    fixed =
        let pann : 0 < curve.amp * n = grind arith in
        let e : curve.amp * n ≡ (curve.amp * n - 1) + 1 = omega arith in
        let small = subst (λ k. (k * (n * a) + n * a * n) * (n * a) < u128) e fit128 in
        rw (ap (λ k. k * (n * a)) e)
          (d_step_fixed n (curve.amp * n - 1) (n * a) pn (grind arith) small)

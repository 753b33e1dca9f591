-- ===== src/Tests/Bignum.antt =====
-- What the number libraries of contracts/terraswap_pair_deprecated compute.
use terraswap.Prelude.{
  >>=-elim, Bool-cases, ap, arith, false, if◌then◌else◌, inl, inr, leb, leb→le, ltb, lt→ltb,
  nat_beq, ok, ok-injective, panic, refl, suc, zero, ℕ, ◌*◌, ◌+◌, ◌-◌, ◌/◌, ◌<◌, ◌>>=◌, ◌≡◌, ◌≤◌,
}
use terraswap.Checked.{u128}
use terraswap.Deprecated.Bignum.{Bignum, Decimal256, FitsBignum, IsBignum, u256}
use terraswap.Host.{StdResult, decimal_one}

-- A result that panics where it does not fit.
abbrev word : (modulus x : ℕ) → StdResult ℕ
word m x = if ltb x m then ok x else panic

abbrev minus : ℕ → ℕ → StdResult ℕ
minus a b = if leb b a then ok (a - b) else panic

abbrev over : ℕ → ℕ → StdResult ℕ
over x q = if nat_beq q 0 then panic else word u256 (x / q)

abbrev decimal : StdResult ℕ → StdResult Decimal256
decimal m = m >>= λ x. ok (record { atomics = x })

-- The multiple of 10^-18 whose units must fit before the division.
abbrev scaled : (x q : ℕ) → StdResult ℕ
scaled x q = if nat_beq q 0 then panic else (if ltb x u256 then ok (x / q) else panic)

-- The root of the next number, by that of the last one.
abbrev next_root : (n r : ℕ) → ℕ
next_root n r = if leb ((r + 1) * (r + 1)) n then r + 1 else r

unfoldable pub root : ℕ → ℕ
root zero = 0
root (suc n) = next_root (suc n) (root n)

abbrev pub sample_bignum : Bignum
sample_bignum = record {
  uint_add = λ a b. word u256 (a + b);
  uint_sub = minus;
  uint_mul = λ a b. word u256 (a * b);
  uint_multiply_ratio = λ a p q. over (a * p) q;
  uint_mul_decimal = λ a d. scaled (a * d.atomics) decimal_one;
  uint_div_decimal = λ a d. over (a * decimal_one) d.atomics;
  to_uint128 = word u128;
  from_uint256 = λ a. decimal (word u256 (a * decimal_one));
  from_ratio = λ p q. decimal (scaled (p * decimal_one) q);
  decimal_sub = λ a b. decimal (minus a.atomics b.atomics);
  decimal_mul = λ a b. decimal (over (a.atomics * b.atomics) decimal_one);
  decimal_div = λ a b. decimal (over (a.atomics * decimal_one) b.atomics);
  integer_sqrt = root;
}

word_lem : (m x : ℕ) {r : ℕ} → word m x ≡ ok r → (r ≡ x) × (x < m)
word_lem m x e = ground arith

minus_lem : (a b : ℕ) {r : ℕ} → minus a b ≡ ok r → a ≡ b + r
minus_lem a b e = ground arith

over_lem : (x q : ℕ) {r : ℕ} → over x q ≡ ok r → (0 < q) × (r ≡ x / q)
over_lem x q e = ground arith

scaled_lem : (x q : ℕ) {r : ℕ} → scaled x q ≡ ok r → (0 < q) × (r ≡ x / q)
scaled_lem x q e = ground arith

decimal_lem : (m : StdResult ℕ) {r : Decimal256} → decimal m ≡ ok r → m ≡ ok r.atomics
decimal_lem m {r} e = >>=-elim m _ e λ x e₁ e₂.
    rw (← ap (λ (d : Decimal256). d.atomics) (ok-injective (record { atomics = x }) r e₂)) e₁

abbrev IsRoot : (a r : ℕ) → Type 0
IsRoot a r = (r * r ≤ a) × (a < (r + 1) * (r + 1))

next_root-IsRoot : (n r : ℕ) → IsRoot n r → IsRoot (suc n) (next_root (suc n) r)
next_root-IsRoot n r (lo, hi) = elim (Bool-cases (leb ((r + 1) * (r + 1)) (suc n))) [
  | inl y ↦ rw y (leb→le ((r + 1) * (r + 1)) (suc n) y, omega (arith, hi))
  | inr more ↦ rw more (omega (arith, lo), below ((r + 1) * (r + 1)) (suc n) more)
]
  where
    below : (a b : ℕ) → leb a b ≡ false → b < a
    below a b e = ground arith

root_lem : (a : ℕ) → IsRoot a (root a)
unfolding root
root_lem zero = (omega arith, omega arith)
root_lem (suc n) = next_root-IsRoot n (root n) (root_lem n)

pub sample_bignum-IsBignum : IsBignum sample_bignum
sample_bignum-IsBignum = record {
  uint_add-eq-ok = λ a b e. (word_lem u256 (a + b) e).0;
  uint_sub-eq-ok = λ a b e. minus_lem a b e;
  uint_mul-eq-ok = λ a b e. (word_lem u256 (a * b) e).0;
  uint_multiply_ratio-eq-ok = λ a p q e. over_lem (a * p) q e;
  uint_mul_decimal-eq-ok = λ a d e. (scaled_lem (a * d.atomics) decimal_one e).1;
  uint_div_decimal-eq-ok = λ a d e. over_lem (a * decimal_one) d.atomics e;
  to_uint128-eq-ok = λ a e. word_lem u128 a e;
  from_uint256-eq-ok = λ a e. (word_lem u256 (a * decimal_one) (decimal_lem _ e)).0;
  from_ratio-eq-ok = λ p q e. scaled_lem (p * decimal_one) q (decimal_lem _ e);
  decimal_sub-eq-ok = λ a b e. minus_lem a.atomics b.atomics (decimal_lem _ e);
  decimal_mul-eq-ok = λ a b e. (over_lem (a.atomics * b.atomics) decimal_one (decimal_lem _ e)).1;
  decimal_div-eq-ok = λ a b e. over_lem (a.atomics * decimal_one) b.atomics (decimal_lem _ e);
  integer_sqrt_lem = root_lem;
}

word_fits : (m x : ℕ) → x < m → word m x ≡ ok x
word_fits m x e = rw (lt→ltb x m e)

minus_fits : (a b : ℕ) → b ≤ a → minus a b ≡ ok (a - b)
minus_fits a b e = ground arith

scaled_fits : (x q : ℕ) → 0 < q → x < u256 → scaled x q ≡ ok (x / q)
scaled_fits x q pos e = ground arith

pub sample_bignum-FitsBignum : FitsBignum sample_bignum
sample_bignum-FitsBignum = record {
  uint_add_fits = λ a b e. word_fits u256 (a + b) e;
  uint_sub_fits = λ a b e. minus_fits a b e;
  uint_mul_fits = λ a b e. word_fits u256 (a * b) e;
  uint_mul_decimal_fits = λ a d e. scaled_fits (a * d.atomics) decimal_one (omega arith) e;
  to_uint128_fits = λ a e. word_fits u128 a e;
  from_uint256_fits = λ a e. rw (word_fits u256 (a * decimal_one) e) refl;
  from_ratio_fits = λ p q pos e. rw (scaled_fits (p * decimal_one) q pos e) refl;
  decimal_sub_fits = λ a b e. rw (minus_fits a.atomics b.atomics e) refl;
}

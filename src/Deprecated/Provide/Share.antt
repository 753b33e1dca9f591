-- ===== src/Deprecated/Provide/Share.antt =====
-- How many tokens `provide_liquidity` of contracts/terraswap_pair_deprecated/src/contract.rs mints.
use Prim.Native.Nat.{min}
use native.Mathlib.Nat.{mul-le-mul_left}
use terraswap.Prelude.{
  >>=-elim, Bool-cases, arith, inl, inr, map_err-eq-ok, nat_beq, nat_beq_iff, ok, ok-injective, ℕ,
  ◌*◌, ◌+◌, ◌<◌, ◌≡◌, ◌≤◌, ◌⊎◌,
}
use terraswap.Checked.{div_bounds, mul_or_panic, u128}
use terraswap.Deprecated.Bignum.{Bignum, IsBignum}
use terraswap.Deprecated.Provide.{share_of}
use terraswap.Host.{Host, IsUint128}
use terraswap.Stable.Types.{ContractError, from_std, std}

-- The first deposit: the square root of the product of the deposits, rounded down. A later one: the
-- smaller of the deposits' parts of the supply, by the pools before the deposit, rounded down.
abbrev pub IsShare : (total_share : ℕ) → (deposits pools : ℕ × ℕ) → (share : ℕ) → Type 0
IsShare total (d0, d1) (p0, p1) share =
    ((total ≡ 0) × (share * share ≤ d0 * d1) × (d0 * d1 < (share + 1) * (share + 1)))
    ⊎ ((0 < total)
        × (share * p0 ≤ d0 * total)
        × (share * p1 ≤ d1 * total)
        × ((d0 * total < (share + 1) * p0) ⊎ (d1 * total < (share + 1) * p1)))

min-cases : (a b : ℕ) → ((a ≤ b) × (min a b ≡ a)) ⊎ ((b ≤ a) × (min a b ≡ b))
min-cases a b = ground arith

-- Of two quotients, the smaller one is at most both, and the next number is more than one.
smaller_lem :
    (x y p q a b : ℕ)
    → (p * a ≤ x) × (x < p * a + p)
    → (q * b ≤ y) × (y < q * b + q)
    → (min a b * p ≤ x) × (min a b * q ≤ y) × ((x < (min a b + 1) * p) ⊎ (y < (min a b + 1) * q))
smaller_lem x y p q a b (lo, hi) (lo', hi') = elim (min-cases a b) [
  | inl (le, e) ↦
      let up : q * a ≤ q * b = mul-le-mul_left q le in
      rw e (omega (arith, lo), omega (arith, up, lo'), inl (omega (arith, hi)))
  | inr (le, e) ↦
      let up : p * b ≤ p * a = mul-le-mul_left p le in
      rw e (omega (arith, up, lo), omega (arith, lo'), inr (omega (arith, hi')))
]

module _ (n : Bignum) (sums : IsBignum n) (h : Host) (laws : IsUint128 h) where
  open sums use {integer_sqrt_lem}
  open laws use {multiply_ratio-eq-ok}

  pub share_of-IsShare :
      (total d0 d1 p0 p1 : ℕ) {share : ℕ}
      → share_of n h total (d0, d1) (p0, p1) ≡ ok share
      → IsShare total (d0, d1) (p0, p1) share
  unfolding share_of mul_or_panic
  share_of-IsShare total d0 d1 p0 p1 {share} r = elim (Bool-cases (nat_beq total 0)) [
    | inl zero' ↦
        let r' = rw zero' at r in
        >>=-elim (mul_or_panic {E = ContractError} u128 d0 d1) _ r' λ product e₁ e₂.
          let same : product ≡ d0 * d1 = ground (arith, e₁) in
          let root : n.integer_sqrt product ≡ share = ok-injective {E = ContractError} _ share e₂ in
          let (lo, hi) = integer_sqrt_lem product in
          inl ((nat_beq_iff total 0).0 zero', rw (← root, ← same) lo, rw (← root, ← same) hi)
    | inr more ↦
        let r' = rw more at r in
        let pos : 0 < total = ground (arith, more) in
        >>=-elim (from_std (h.multiply_ratio d0 total p0)) _ r' λ first e₁ r₁.
          >>=-elim (from_std (h.multiply_ratio d1 total p1)) _ r₁ λ second e₂ r₂.
            let (pos0, first') = multiply_ratio-eq-ok d0 total p0 (map_err-eq-ok std _ e₁) in
            let (pos1, second') = multiply_ratio-eq-ok d1 total p1 (map_err-eq-ok std _ e₂) in
            let same : min first second ≡ share = ok-injective {E = ContractError} _ share r₂ in
            let (below0, below1, tight) =
              smaller_lem (d0 * total) (d1 * total) p0 p1 _ _ (div_bounds (d0 * total) p0 pos0)
                (div_bounds (d1 * total) p1 pos1) in
            rw (← same, first', second') (inr (pos, below0, below1, tight))
  ]

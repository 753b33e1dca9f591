-- ===== src/Deprecated/Price/Product.antt =====
-- What `compute_swap` of contracts/terraswap_pair_deprecated/src/contract.rs returns.
use native.Mathlib.Nat.{le_of_mul-le-mul_left, mul-le-mul_left}
use terraswap.Prelude.{
  >>=-elim, arith, ok, ok-injective, sym, ℕ, ◌*◌, ◌+◌, ◌-◌, ◌/◌, ◌<◌, ◌∙◌, ◌≡◌, ◌≤◌,
}
use terraswap.Checked.{div_bounds, sub-mul-add}
use terraswap.Deprecated.Bignum.{Bignum, IsBignum}
use terraswap.Deprecated.Price.{commission_rate, compute_swap, gross_return}
use terraswap.Deprecated.Types.{Simulation}
use terraswap.Host.{decimal_one}

-- The price of an offer: with the commission the trader is returned what keeps the product of the
-- pools, up to the rounding of a ratio to 18 digits, and 1 more would be no less than all that the
-- product allows. The commission is 3 in 1000 of it, rounded down, and the spread is what it lacks to
-- the price before the swap.
abbrev pub IsPriced : (offer_pool ask_pool offer_amount : ℕ) → Simulation → Type 0
IsPriced offer_pool ask_pool offer_amount s =
    let gross = s.return_amount + s.commission_amount in
    let left = ask_pool - gross in
    let offered = offer_pool + offer_amount in
    (0 < offer_pool)
    × (gross ≤ ask_pool)
    × (offer_pool * ask_pool * decimal_one < left * offered * decimal_one + offered)
    × (offered * ask_pool ≤ offer_pool * ask_pool + offered * (gross + 1))
    × (s.commission_amount ≡ gross * 3 / 1000)
    × (s.spread_amount + gross ≡ offer_amount * (ask_pool * decimal_one / offer_pool) / decimal_one)

-- `d` is the unit, `x` the ratio of the product `cp` by the pool `s` after the offer.
module _ (d cp ask s x paid g : ℕ) (one : 0 < d) where
  gross-le : ask * d ≡ x + paid → d * g ≤ paid → g ≤ ask
  gross-le split low =
      let q : d * g ≤ d * ask = omega (arith, split, low) in le_of_mul-le-mul_left q one

  product-lt :
      g ≤ ask
      → cp * d < s * x + s
      → ask * d ≡ x + paid
      → d * g ≤ paid
      → cp * d < (ask - g) * s * d + s
  product-lt le high split low =
      let scaled = sub-mul-add ask g d le in
      let bound : x ≤ (ask - g) * d = omega (arith, scaled, split, low) in
      let wide : s * x ≤ s * ((ask - g) * d) = mul-le-mul_left s bound in omega (arith, wide, high)

  most-le : s * x ≤ cp * d → ask * d ≡ x + paid → paid ≤ d * (g + 1) → s * ask ≤ cp + s * (g + 1)
  most-le low split high =
      let up : s * (ask * d) ≤ s * (x + d * (g + 1)) =
        mul-le-mul_left s (omega (arith, split, high)) in
      let all' : d * (s * ask) ≤ d * (cp + s * (g + 1)) = omega (arith, up, low) in
      le_of_mul-le-mul_left all' one

module _ (n : Bignum) (laws : IsBignum n) where
  open laws use {
    uint_add-eq-ok, uint_sub-eq-ok, uint_mul-eq-ok, uint_mul_decimal-eq-ok, to_uint128-eq-ok,
    from_uint256-eq-ok, from_ratio-eq-ok, decimal_sub-eq-ok,
  }

  gross_return_lem :
      (op ask o : ℕ) {g : ℕ}
      → gross_return n op ask o ≡ ok g
      → (g ≤ ask) × (op * ask * decimal_one < (ask - g) * (op + o) * decimal_one + (op + o))
  unfolding gross_return
  gross_return_lem op ask o {g} r = >>=-elim (n.uint_mul op ask) _ r λ cp e₁ r₁.
      >>=-elim (n.from_uint256 ask) _ r₁ λ asked e₂ r₂. >>=-elim (n.uint_add op o) _ r₂ λ s e₃ r₃.
        >>=-elim (n.from_ratio cp s) _ r₃ λ x e₄ r₄.
          >>=-elim (n.decimal_sub asked x) _ r₄ λ paid e₅ r₅.
            let one : 0 < decimal_one = omega arith in
            let product = uint_mul-eq-ok op ask e₁ in
            let sum = uint_add-eq-ok op o e₃ in
            let (pos, ratio) = from_ratio-eq-ok cp s e₄ in
            let (_, high) = div_bounds (cp * decimal_one) s pos in
            let split = sym (from_uint256-eq-ok ask e₂) ∙ decimal_sub-eq-ok asked x e₅ in
            let floor = uint_mul_decimal-eq-ok 1 paid r₅ in
            let (low, _) = div_bounds (1 * paid.atomics) decimal_one one in
            let low' : decimal_one * g ≤ paid.atomics = rw floor (omega (arith, low)) in
            let high' : cp * decimal_one < s * x.atomics + s = rw ratio high in
            let le = gross-le decimal_one cp ask s x.atomics paid.atomics g one split low' in
            let lt =
              product-lt decimal_one cp ask s x.atomics paid.atomics g one le high' split low' in
            (le, rw (← product, ← sum) lt)

  -- What is returned is the largest number that keeps the product, or more: 1 more would not.
  gross_return-most :
      (op ask o : ℕ) {g : ℕ}
      → gross_return n op ask o ≡ ok g
      → (op + o) * ask ≤ op * ask + (op + o) * (g + 1)
  unfolding gross_return
  gross_return-most op ask o {g} r = >>=-elim (n.uint_mul op ask) _ r λ cp e₁ r₁.
      >>=-elim (n.from_uint256 ask) _ r₁ λ asked e₂ r₂. >>=-elim (n.uint_add op o) _ r₂ λ s e₃ r₃.
        >>=-elim (n.from_ratio cp s) _ r₃ λ x e₄ r₄.
          >>=-elim (n.decimal_sub asked x) _ r₄ λ paid e₅ r₅.
            let one : 0 < decimal_one = omega arith in
            let (pos, ratio) = from_ratio-eq-ok cp s e₄ in
            let (low, _) = div_bounds (cp * decimal_one) s pos in
            let low' : s * x.atomics ≤ cp * decimal_one = rw ratio low in
            let split = sym (from_uint256-eq-ok ask e₂) ∙ decimal_sub-eq-ok asked x e₅ in
            let floor = uint_mul_decimal-eq-ok 1 paid r₅ in
            let (_, high) = div_bounds (1 * paid.atomics) decimal_one one in
            let high' : paid.atomics ≤ decimal_one * (g + 1) = rw floor (omega (arith, high)) in
            rw (← uint_mul-eq-ok op ask e₁, ← uint_add-eq-ok op o e₃)
              (most-le decimal_one cp ask s x.atomics paid.atomics g one low' split high')

  compute_swap-steps :
      (op ask o : ℕ) {s : Simulation}
      → compute_swap n op ask o ≡ ok s
      → let gross = s.return_amount + s.commission_amount in
        (gross_return n op ask o ≡ ok gross)
        × (0 < op)
        × (s.commission_amount ≡ gross * commission_rate.atomics / decimal_one)
        × (s.spread_amount + gross ≡ o * (ask * decimal_one / op) / decimal_one)
  unfolding compute_swap
  compute_swap-steps op ask o {s} r = >>=-elim (gross_return n op ask o) _ r λ g e₁ r₁.
      >>=-elim (n.from_ratio ask op) _ r₁ λ p e₂ r₂.
        >>=-elim (n.uint_mul_decimal o p) _ r₂ λ expected e₃ r₃.
          >>=-elim (n.uint_sub expected g) _ r₃ λ spread e₄ r₄.
            >>=-elim (n.uint_mul_decimal g commission_rate) _ r₄ λ comm e₅ r₅.
              >>=-elim (n.uint_sub g comm) _ r₅ λ ret e₆ r₆.
                >>=-elim (n.to_uint128 ret) _ r₆ λ ret' e₇ r₇.
                  >>=-elim (n.to_uint128 spread) _ r₇ λ spread' e₈ r₈.
                    >>=-elim (n.to_uint128 comm) _ r₈ λ comm' e₉ r₉.
                      let quote : Simulation = record {
                        return_amount = ret';
                        spread_amount = spread';
                        commission_amount = comm';
                      } in
                      let same = ok-injective quote s r₉ in
                      let eret = (to_uint128-eq-ok ret e₇).0 in
                      let espread = (to_uint128-eq-ok spread e₈).0 in
                      let ecomm = (to_uint128-eq-ok comm e₉).0 in
                      let split = uint_sub-eq-ok g comm e₆ in
                      let total : g ≡ ret' + comm' = omega (arith, split, eret, ecomm) in
                      let (pos, price) = from_ratio-eq-ok ask op e₂ in
                      let taken = uint_mul_decimal-eq-ok g commission_rate e₅ in
                      let quoted = uint_mul_decimal-eq-ok o p e₃ in
                      let rest = uint_sub-eq-ok expected g e₄ in
                      let spread_e : spread' + g ≡ expected = omega (arith, rest, espread) in
                      rw (← same) (
                        rw (← total) e₁,
                        pos,
                        rw (← total) (ecomm ∙ taken),
                        rw (← total) (rw (← price) (spread_e ∙ quoted)),
                      )

  rate_lem : (g : ℕ) → g * commission_rate.atomics / decimal_one ≡ g * 3 / 1000
  rate_lem g = omega arith

  -- A price.
  pub compute_swap-IsPriced :
      (op ask o : ℕ) {s : Simulation} → compute_swap n op ask o ≡ ok s → IsPriced op ask o s
  compute_swap-IsPriced op ask o {s} r =
      let (gross, pos, commission, spread) = compute_swap-steps op ask o r in
      let (le, lt) = gross_return_lem op ask o gross in
      (
        pos,
        le,
        lt,
        gross_return-most op ask o gross,
        commission ∙ rate_lem (s.return_amount + s.commission_amount),
        spread,
      )

  -- The product.
  pub compute_swap-keeps_product :
      (op ask o : ℕ) {s : Simulation}
      → op + o ≤ decimal_one
      → compute_swap n op ask o ≡ ok s
      → (s.return_amount ≤ ask) × (op * ask ≤ (op + o) * (ask - s.return_amount))
  compute_swap-keeps_product op ask o {s} small r =
      let (_, le, lt, _, _, _) = compute_swap-IsPriced op ask o r in
      let gross = s.return_amount + s.commission_amount in
      let under : op * ask * decimal_one < (ask - gross) * (op + o) * decimal_one + decimal_one =
        omega (arith, lt) in
      let kept : op * ask ≤ (ask - gross) * (op + o) = omega (arith, under) in
      let more : (op + o) * (ask - gross) ≤ (op + o) * (ask - s.return_amount) =
        mul-le-mul_left (op + o) (omega arith) in
      (omega arith, omega (arith, kept, more))

-- ===== src/Deprecated/Price/Reverse.antt =====
-- What `compute_offer_amount` of contracts/terraswap_pair_deprecated/src/contract.rs quotes.
use terraswap.Prelude.{
  >>=-elim, ap, arith, ensure, ensure-eq-ok, list_eq, map_err-eq-ok, nat_beq, nat_eq, not, ok,
  ok-injective, string_eq, sym, true, ℕ, ◌*◌, ◌+◌, ◌-◌, ◌/◌, ◌<◌, ◌==◌, ◌||◌, ◌∙◌, ◌≡◌, ◌≤◌,
}
use terraswap.Checked.{div_bounds}
use terraswap.Deprecated.Bignum.{Bignum, Decimal256, IsBignum}
use terraswap.Deprecated.Price.{
  commission_rate, compute_offer_amount, decimal256_one, offer_before, quote, spread_over,
}
use terraswap.Deprecated.Types.{ReverseSimulation}
use terraswap.Host.{decimal_one}
use terraswap.Stable.Types.{from_std, std, too_small_offer_amount}

-- `1 / (1 - commission_rate)`
abbrev pub inverse_rate : ℕ
inverse_rate = decimal_one * decimal_one / (decimal_one - commission_rate.atomics)

-- The offer for an ask that with its commission is `asked`: it is the largest that keeps the product
-- of the pools at most as it was. A quote has a spread and a commission.
abbrev pub IsQuoted : (offer_pool ask_pool ask_amount : ℕ) → ReverseSimulation → Type 0
IsQuoted offer_pool ask_pool ask_amount q =
    let asked = ask_amount * inverse_rate / decimal_one in
    let left = ask_pool - asked in
    (asked < ask_pool)
    × ((offer_pool + q.offer_amount) * left ≤ offer_pool * ask_pool)
    × (offer_pool * ask_pool < (offer_pool + q.offer_amount + 1) * left)
    × (q.commission_amount ≡ asked * 3 / 1000)
    × (0 < q.spread_amount)
    × (0 < q.commission_amount)

module _ (n : Bignum) (laws : IsBignum n) where
  open laws use {
    uint_sub-eq-ok, uint_mul-eq-ok, uint_multiply_ratio-eq-ok, uint_mul_decimal-eq-ok,
    to_uint128-eq-ok, decimal_sub-eq-ok, decimal_div-eq-ok,
  }

  inverse_lem :
      (kept inv : Decimal256)
      → n.decimal_sub decimal256_one commission_rate ≡ ok kept
      → n.decimal_div decimal256_one kept ≡ ok inv
      → inv.atomics ≡ inverse_rate
  inverse_lem kept inv e₁ e₂ =
      let split = decimal_sub-eq-ok decimal256_one commission_rate e₁ in
      let rest : kept.atomics ≡ decimal_one - commission_rate.atomics = omega (arith, split) in
      let (_, value) = decimal_div-eq-ok decimal256_one kept e₂ in
      rw value (ap (λ (k : ℕ). decimal_one * decimal_one / k) rest)

  -- `1 * cp / left` is `op` and the offer.
  division_lem :
      (cp op left after offer : ℕ)
      → 0 < left
      → after ≡ 1 * cp / left
      → after ≡ op + offer
      → ((op + offer) * left ≤ cp) × (cp < (op + offer + 1) * left)
  division_lem cp op left after offer pos value split =
      let (lo, hi) = div_bounds (1 * cp) left pos in
      let same : 1 * cp / left ≡ op + offer = sym value ∙ split in
      let lo' : left * (op + offer) ≤ 1 * cp = rw (← same) lo in
      let hi' : 1 * cp < left * (op + offer) + left = rw (← same) hi in
      (omega (arith, lo'), omega (arith, hi'))

  offer_before_lem :
      (op ask amount : ℕ) {r : Decimal256 × ℕ}
      → offer_before n op ask amount ≡ ok r
      → let asked = amount * inverse_rate / decimal_one in
        (r.0.atomics ≡ inverse_rate)
        × (asked < ask)
        × ((op + r.1) * (ask - asked) ≤ op * ask)
        × (op * ask < (op + r.1 + 1) * (ask - asked))
  unfolding offer_before
  offer_before_lem op ask amount {r} e = >>=-elim (n.uint_mul op ask) _ e λ cp e₁ r₁.
      >>=-elim (n.decimal_sub decimal256_one commission_rate) _ r₁ λ kept e₂ r₂.
        >>=-elim (n.decimal_div decimal256_one kept) _ r₂ λ inv e₃ r₃.
          >>=-elim (n.uint_mul_decimal amount inv) _ r₃ λ asked e₄ r₄.
            >>=-elim (n.uint_sub ask asked) _ r₄ λ left e₅ r₅.
              >>=-elim (n.uint_multiply_ratio 1 cp left) _ r₅ λ after e₆ r₆.
                >>=-elim (n.uint_sub after op) _ r₆ λ offer e₇ r₇.
                  let rate = inverse_lem kept inv e₂ e₃ in
                  let value : asked ≡ amount * inverse_rate / decimal_one =
                    rw (← rate) (uint_mul_decimal-eq-ok amount inv e₄) in
                  let split = uint_sub-eq-ok ask asked e₅ in
                  let (pos, after_e) = uint_multiply_ratio-eq-ok 1 cp left e₆ in
                  let rest : left ≡ ask - asked = omega (arith, split) in
                  let (lo, hi) =
                    division_lem cp op left after offer pos after_e (uint_sub-eq-ok after op e₇) in
                  let product = uint_mul-eq-ok op ask e₁ in
                  rw (← ok-injective (inv, offer) r r₇) (
                    rate,
                    rw (← value) (omega (arith, split, pos)),
                    rw (← value) (rw (← rest, ← product) lo),
                    rw (← value) (rw (← rest, ← product) hi),
                  )

  quote_lem :
      (offer spread commission : ℕ) {q : ReverseSimulation}
      → quote n offer spread commission ≡ ok q
      → (q.offer_amount ≡ offer)
        × (q.commission_amount ≡ commission)
        × (0 < q.spread_amount)
        × (0 < q.commission_amount)
  unfolding quote
  quote_lem offer spread commission {q} e =
      >>=-elim (ensure (not (spread == 0 || commission == 0)) too_small_offer_amount) _ e λ _ e₁ r₁.
        >>=-elim (from_std (n.to_uint128 offer)) _ r₁ λ o e₂ r₂.
          >>=-elim (from_std (n.to_uint128 spread)) _ r₂ λ s e₃ r₃.
            >>=-elim (from_std (n.to_uint128 commission)) _ r₃ λ c e₄ r₄.
              let eo = (to_uint128-eq-ok offer (map_err-eq-ok std _ e₂)).0 in
              let es = (to_uint128-eq-ok spread (map_err-eq-ok std _ e₃)).0 in
              let ec = (to_uint128-eq-ok commission (map_err-eq-ok std _ e₄)).0 in
              let (ps, pc) = both_pos spread commission (ensure-eq-ok _ _ e₁) in
              let made : ReverseSimulation = record {
                offer_amount = o;
                spread_amount = s;
                commission_amount = c;
              } in
              rw (← ok-injective made q r₄) (eo, ec, rw es ps, rw ec pc)
    where
      both_pos : (a b : ℕ) → not (nat_beq a 0 || nat_beq b 0) ≡ true → (0 < a) × (0 < b)
      both_pos a b h = ground arith

  rate_lem : (g : ℕ) → g * commission_rate.atomics / decimal_one ≡ g * 3 / 1000
  rate_lem g = omega arith

  -- A quote that succeeds is as `IsQuoted` says: what is asked, with its commission, is less
  -- than its pool; the offer is the largest after which the product of the pools, without that,
  -- is at most what it was; and the commission is 3 in 1000 of that sum, rounded down, and
  -- neither it nor the spread is 0.
  pub compute_offer_amount-IsQuoted :
      (op ask amount : ℕ) {q : ReverseSimulation}
      → compute_offer_amount n op ask amount ≡ ok q
      → IsQuoted op ask amount q
  unfolding compute_offer_amount
  compute_offer_amount-IsQuoted op ask amount {q} r =
      >>=-elim (from_std (offer_before n op ask amount)) _ r λ offer e₁ r₁.
        >>=-elim (from_std (n.uint_mul_decimal amount offer.0)) _ r₁ λ before e₂ r₂.
          >>=-elim (from_std (n.from_ratio ask op)) _ r₂ λ price e₃ r₃.
            >>=-elim (from_std (n.uint_mul_decimal offer.1 price)) _ r₃ λ expected e₄ r₄.
              >>=-elim (from_std (spread_over n expected before)) _ r₄ λ spread e₅ r₅.
                >>=-elim (from_std (n.uint_mul_decimal before commission_rate)) _ r₅
                  λ commission e₆ r₆.
                    let (rate, less, lo, hi) =
                      offer_before_lem op ask amount (map_err-eq-ok std _ e₁) in
                    let (eo, ec, ps, pc) = quote_lem offer.1 spread commission r₆ in
                    let asked = uint_mul_decimal-eq-ok amount offer.0 (map_err-eq-ok std _ e₂) in
                    let charged =
                      uint_mul_decimal-eq-ok before commission_rate (map_err-eq-ok std _ e₆) in
                    (
                      less,
                      rw eo lo,
                      rw eo hi,
                      ec
                          ∙ charged
                          ∙ rate_lem before
                          ∙ ap (λ (k : ℕ). k * 3 / 1000) (rw (← rate) asked),
                      ps,
                      pc,
                    )

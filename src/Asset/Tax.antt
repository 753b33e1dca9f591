-- ===== src/Asset/Tax.antt =====
-- The tax on native coins (packages/terraswap/src/asset.rs).
use Prim.Native.Nat.{min}
use terraswap.Prelude.{
  String, ap, arith, false, le→leb, list_eq, lt→ltb, nat_eq, ok, string_eq, ℕ, ◌*◌, ◌+◌, ◌-◌, ◌/◌,
  ◌<◌, ◌==◌, ◌∙◌, ◌≡◌, ◌≤◌,
}
use terraswap.Checked.{u128}
use terraswap.Asset.{compute_tax, deduct_tax, native_token, taxed}
use terraswap.Host.{Decimal, Host, IsUint128, decimal_one}

module _ (h : Host) (laws : IsUint128 h) where
  open laws use {checked_sub_lem, add_lem, multiply_ratio_lem, mul_decimal_lem}

  -- The tax that the chain's rate and limit give: what exceeds the amount that with tax comes to
  -- `amount`, and at most the cap.
  abbrev pub tax_of : ℕ → ℕ → ℕ → ℕ
  tax_of rate limit amount = min (amount - amount * decimal_one / (rate + decimal_one)) limit

  sub-zero : (a : ℕ) → a - 0 ≡ a
  sub-zero a = omega arith

  div_le : (a r : ℕ) → a * decimal_one / (r + decimal_one) ≤ a
  div_le a r = grind arith

  taxed_lem :
      (amount limit : ℕ) (denom : String) (rate : Decimal)
      → h.query_tax_rate ≡ ok rate
      → h.query_tax_cap denom ≡ ok limit
      → amount < u128
      → rate.atomics + decimal_one < u128
      → taxed h amount denom ≡ ok (tax_of rate.atomics limit amount)
  unfolding taxed
  taxed_lem amount limit denom rate er ec small fit =
      let r = rate.atomics in
      let units : decimal_one * r / decimal_one ≡ r = omega arith in
      let net = amount * decimal_one / (r + decimal_one) in
      let scaled : h.uint_mul_decimal decimal_one rate ≡ ok r =
        mul_decimal_lem decimal_one rate (omega arith) ∙ ap ok units in
      let divisor : h.uint_add r decimal_one ≡ ok (r + decimal_one) =
        rw (add_lem r decimal_one) (rw (lt→ltb (r + decimal_one) u128 fit)) in
      let netted : h.multiply_ratio amount decimal_one (r + decimal_one) ≡ ok net =
        multiply_ratio_lem amount decimal_one (r + decimal_one) (omega arith)
          (omega (arith, div_le amount r)) in
      let tax : h.uint_checked_sub amount net ≡ ok (amount - net) =
        rw (checked_sub_lem amount net) (rw (le→leb net amount (div_le amount r))) in
      rw er (rw ec (rw scaled (rw divisor (rw netted (rw tax)))))

  -- A native coin other than "uluna", whose amount fits 128 bits, is sent less the tax: the
  -- excess of the amount over the amount without tax, at most the limit. The chain reports the
  -- rate, which with 1 fits 128 bits, and the limit.
  pub deduct_tax_lem :
      (denom : String) (amount limit : ℕ) (rate : Decimal)
      → (denom == "uluna") ≡ false
      → h.query_tax_rate ≡ ok rate
      → h.query_tax_cap denom ≡ ok limit
      → amount < u128
      → rate.atomics + decimal_one < u128
      → deduct_tax h (record { info = native_token denom; amount = amount })
        ≡ ok (record { denom = denom; amount = amount - tax_of rate.atomics limit amount })
  unfolding deduct_tax compute_tax
  deduct_tax_lem denom amount limit rate not_luna er ec small fit =
      let tax = tax_of rate.atomics limit amount in
      let rest : h.uint_checked_sub amount tax ≡ ok (amount - tax) =
        rw (checked_sub_lem amount tax) (rw (le→leb tax amount (omega arith))) in
      rw not_luna (rw (taxed_lem amount limit denom rate er ec small fit) (rw rest))

  -- "uluna" is sent whole.
  pub deduct_tax_uluna :
      (amount : ℕ)
      → deduct_tax h (record { info = native_token "uluna"; amount = amount })
        ≡ ok (record { denom = "uluna"; amount = amount })
  unfolding deduct_tax compute_tax
  deduct_tax_uluna amount =
      rw (checked_sub_lem amount 0) (rw (le→leb 0 amount (omega arith), sub-zero amount))

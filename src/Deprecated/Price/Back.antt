-- ===== src/Deprecated/Price/Back.antt =====
-- What a trader gets back by undoing a swap or a quote of
-- contracts/terraswap_pair_deprecated/src/contract.rs.
use native.Mathlib.Nat.{lt_of_mul-lt-mul_left}
use terraswap.Prelude.{arith, ok, ℕ, ◌*◌, ◌+◌, ◌-◌, ◌/◌, ◌<◌, ◌≡◌, ◌≤◌}
use terraswap.Checked.{mul-sub-add}
use terraswap.Deprecated.Bignum.{Bignum, IsBignum}
use terraswap.Deprecated.Price.{compute_offer_amount, compute_swap}
use terraswap.Deprecated.Price.Product.{compute_swap-IsPriced}
use terraswap.Deprecated.Price.Reverse.{compute_offer_amount-IsQuoted, inverse_rate}
use terraswap.Deprecated.Types.{ReverseSimulation, Simulation}
use terraswap.Host.{decimal_one}

-- `asked` is what the pool `ask` lacks to the one that is left.
module _ (op ask o asked gross : ℕ) where
  gross-le :
      0 < op
      → gross ≤ ask
      → (op + o) * (ask - asked) ≤ op * ask
      → op * ask * decimal_one < (ask - gross) * (op + o) * decimal_one + (op + o)
      → asked ≤ ask
      → gross ≤ asked
  gross-le pos le lo lt small =
      let up : (op + o) * (ask - asked) * decimal_one ≤ op * ask * decimal_one =
        omega (arith, lo) in
      let less : (op + o) * ((ask - asked) * decimal_one)
          < (op + o) * ((ask - gross) * decimal_one + 1) =
        omega (arith, up, lt) in
      let left : (ask - asked) * decimal_one < (ask - gross) * decimal_one + 1 =
        lt_of_mul-lt-mul_left (op + o) less in
      omega (arith, left, le, small)

  lacks :
      asked ≤ ask
      → op * ask < (op + o + 1) * (ask - asked)
      → (op + o) * ask ≤ op * ask + (op + o) * (gross + 1)
      → (op + o) * asked ≤ (op + o) * (gross + 1) + (ask - asked)
  lacks small hi most =
      let split = mul-sub-add (op + o) asked ask small in omega (arith, hi, most, split)

-- The commission of `gross` leaves at most the amount that `gross` was asked for.
paid-le :
    (amount paid commission : ℕ)
    → commission ≡ (paid + commission) * 3 / 1000
    → paid + commission ≤ amount * inverse_rate / decimal_one
    → paid ≤ amount
paid-le amount paid commission e le = omega (arith, e, le)

-- A swap of the offer quoted for `ask_amount` returns no more than that. Before the commission it is
-- no more than what was asked with its commission, and lacks at most 1 to it, and what the pool
-- that is left is of the offered one; the commission is 3 in 1000 of it, rounded down.
abbrev pub IsAnswered : (op ask amount o : ℕ) → Simulation → Type 0
IsAnswered op ask amount o s =
    let asked = amount * inverse_rate / decimal_one in
    let gross = s.return_amount + s.commission_amount in
    (s.return_amount ≤ amount)
    × (gross ≤ asked)
    × ((op + o) * asked ≤ (op + o) * (gross + 1) + (ask - asked))
    × (s.commission_amount ≡ gross * 3 / 1000)

module _ (n : Bignum) (laws : IsBignum n) where
  -- Answered.
  pub compute_swap-IsAnswered :
      (op ask amount : ℕ) {q : ReverseSimulation} {s : Simulation}
      → compute_offer_amount n op ask amount ≡ ok q
      → compute_swap n op ask q.offer_amount ≡ ok s
      → IsAnswered op ask amount q.offer_amount s
  compute_swap-IsAnswered op ask amount {q} {s} e r =
      let o = q.offer_amount in
      let asked = amount * inverse_rate / decimal_one in
      let gross = s.return_amount + s.commission_amount in
      let (less, lo, hi, _, _, _) = compute_offer_amount-IsQuoted n laws op ask amount e in
      let (pos, le, lt, most, commission, _) = compute_swap-IsPriced n laws op ask o r in
      let within = gross-le op ask o asked gross pos le lo lt (omega (arith, less)) in
      let spent : s.commission_amount ≡ gross * 3 / 1000 = commission in
      (
        paid-le amount s.return_amount s.commission_amount spent within,
        within,
        lacks op ask o asked gross (omega (arith, less)) hi most,
        spent,
      )

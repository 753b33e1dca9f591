-- ===== src/Deprecated/Reserves/Worth.antt =====
-- What a liquidity token of contracts/terraswap_pair_deprecated/src/contract.rs is worth.
use native.Mathlib.Nat.{le_of_mul-le-mul_left, mul-le-mul, mul-le-mul_left, mul-pos}
use terraswap.Prelude.{arith, inl, inr, ℕ, ◌*◌, ◌+◌, ◌-◌, ◌<◌, ◌≡◌, ◌≤◌}
use terraswap.Checked.{mul-sub-add, sub-mul-add}
use terraswap.Deprecated.Bignum.{Bignum, IsBignum}
use terraswap.Deprecated.Price.Product.{compute_swap-keeps_product}
use terraswap.Deprecated.Provide.Share.{share_of-IsShare}
use terraswap.Deprecated.Reserves.{
  Reserves, Trade, Trades, donated, later, provided, sold_first, sold_second, start, withdrawn,
}
use terraswap.Host.{Host, IsUint128}
use terraswap.Stable.Withdraw.ProRata.{ratio_lem, refund_asset-IsRefund}

-- The product of the pools for each square of the supply is no lower in `t` than in `s`.
abbrev pub IsWorth : Reserves → Reserves → Type 0
IsWorth s t = s.first * s.second * (t.total * t.total) ≤ t.first * t.second * (s.total * s.total)

-- The same product, by pools that each keep their part.
parts_lem :
    (p0 p1 q0 q1 t u : ℕ)
    → p0 * u ≤ q0 * t
    → p1 * u ≤ q1 * t
    → p0 * p1 * (u * u) ≤ q0 * q1 * (t * t)
parts_lem p0 p1 q0 q1 t u a b =
    let both : (p0 * u) * (p1 * u) ≤ (q0 * t) * (q1 * t) = mul-le-mul a b in omega (arith, both)

same_total : (p q t : ℕ) → p ≤ q → p * (t * t) ≤ q * (t * t)
same_total p q t e =
    let up : (t * t) * p ≤ (t * t) * q = mul-le-mul_left (t * t) e in omega (arith, up)

minted_part : (p d t share : ℕ) → share * p ≤ d * t → p * (t + share) ≤ (p + d) * t
minted_part p d t share e = omega (arith, e)

burnt_part : (p r t a : ℕ) → r ≤ p → a < t → r * t ≤ p * a → p * (t - a) ≤ (p - r) * t
burnt_part p r t a small less e =
    let rest : p * (t - a) + p * a ≡ p * t = mul-sub-add p a t (omega (arith, less)) in
    let left : (p - r) * t + r * t ≡ p * t = sub-mul-add p r t small in omega (arith, rest, left, e)

worth_trans : (x y z a b c : ℕ) → 0 < b → x * b ≤ y * a → y * c ≤ z * b → x * c ≤ z * a
worth_trans x y z a b c pos e e' =
    let up : c * (x * b) ≤ c * (y * a) = mul-le-mul_left c e in
    let up' : a * (y * c) ≤ a * (z * b) = mul-le-mul_left a e' in
    let both : b * (x * c) ≤ b * (z * a) = omega (arith, up, up') in le_of_mul-le-mul_left both pos

module _ (n : Bignum) (sums : IsBignum n) (h : Host) (laws : IsUint128 h) where
  Trade-IsWorth : (s t : Reserves) → 0 < s.total → Trade n h s t → (0 < t.total) × IsWorth s t
  Trade-IsWorth s _ pos (sold_first offer small r) =
      let (_, kept) = compute_swap-keeps_product n sums s.first s.second offer small r in
      (pos, same_total (s.first * s.second) _ s.total kept)
  Trade-IsWorth s _ pos (sold_second offer {sim} small r) =
      let (_, kept) = compute_swap-keeps_product n sums s.second s.first offer small r in
      (
        pos,
        same_total (s.first * s.second) ((s.first - sim.return_amount) * (s.second + offer)) s.total
            (omega (arith, kept)),
      )
  Trade-IsWorth s _ pos (provided d0 d1 {share} more r) =
      elim (share_of-IsShare n sums h laws s.total d0 d1 s.first s.second r) [
        | inl (empty, _, _) ↦ absurd (omega (arith, empty, pos))
        | inr (_, part0, part1, _) ↦ (
          omega (arith, pos),
          parts_lem s.first s.second (s.first + d0) (s.second + d1) s.total (s.total + share)
              (minted_part s.first d0 s.total share part0)
              (minted_part s.second d1 s.total share part1),
        )
      ]
  Trade-IsWorth s _ pos (withdrawn amount a b {ratio} {first} {second} less small0 small1 e e₁ e₂) =
      let le : amount ≤ s.total = omega (arith, less) in
      let part = ratio_lem h laws amount s.total pos le ratio e in
      let (_, fair0, most0, _) =
        refund_asset-IsRefund h laws amount s.total pos le ratio _ first part small0 e₁ in
      let (_, fair1, most1, _) =
        refund_asset-IsRefund h laws amount s.total pos le ratio _ second part small1 e₂ in
      (
        omega (arith, less),
        parts_lem s.first s.second (s.first - first.amount) (s.second - second.amount) s.total
            (s.total - amount) (burnt_part s.first first.amount s.total amount most0 less fair0)
            (burnt_part s.second second.amount s.total amount most1 less fair1),
      )
  Trade-IsWorth s _ pos (donated d0 d1) = (
    pos,
    same_total (s.first * s.second) ((s.first + d0) * (s.second + d1)) s.total
        (mul-le-mul (omega arith) (omega arith)),
  )

  -- From reserves with some supply out, no number of trades in any order (swaps both ways whose
  -- pool with the offer is at most 10^18, deposits, withdrawals that leave some supply from
  -- pools that fit 128 bits, and gifts) empties the supply or lowers the product of the pools
  -- for each square of the supply.
  pub Trades-IsWorth : (s t : Reserves) → 0 < s.total → Trades n h s t → (0 < t.total) × IsWorth s t
  Trades-IsWorth s _ pos start = (pos, omega arith)
  Trades-IsWorth s u pos (later {t} before last) =
      let (pos', worth) = Trades-IsWorth s t pos before in
      let (pos'', worth') = Trade-IsWorth t u pos' last in
      (
        pos'',
        worth_trans (s.first * s.second) (t.first * t.second) (u.first * u.second)
            (s.total * s.total) (t.total * t.total) (u.total * u.total) (mul-pos pos' pos') worth
            worth',
      )

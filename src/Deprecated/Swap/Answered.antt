-- ===== src/Deprecated/Swap/Answered.antt =====
-- `query_reverse_simulation` of contracts/terraswap_pair_deprecated/src/contract.rs against
-- `query_simulation`.
use terraswap.Prelude.{ap, inl, inr, ok, refl, some, sym, ◌≡◌, ◌≢◌}
use terraswap.Asset.{Asset, AssetInfo}
use terraswap.Asset.Equal.{equal_iff, equal_no}
use terraswap.Deprecated.Bignum.{Bignum, IsBignum}
use terraswap.Deprecated.Pair.{load, pools_for, two_pools}
use terraswap.Deprecated.Price.{compute_offer_amount}
use terraswap.Deprecated.Price.Back.{IsAnswered, compute_swap-IsAnswered}
use terraswap.Deprecated.Swap.{query_reverse_simulation, query_simulation}
use terraswap.Deprecated.Swap.Quote.{quote_lem}
use terraswap.Deprecated.Swap.Settled.{pools_for-IsPlaced}
use terraswap.Deprecated.Types.{PairRaw, ReverseSimulation, Simulation}
use terraswap.Host.{Addr, Host}

-- Each of two different assets is at its own place.
at_first : (a b : Asset) → pools_for a.info (a, b) ≡ ok (a, b)
unfolding pools_for
at_first a b = let yes' = (equal_iff a.info a.info).1 refl in rw yes' refl

at_second : (a b : Asset) → a.info ≢ b.info → pools_for b.info (a, b) ≡ ok (b, a)
unfolding pools_for
at_second a b differ =
    let yes' = (equal_iff b.info b.info).1 refl in
    let no' = equal_no b.info a.info (λ same. differ (sym same)) in rw (no', yes') refl

-- Of two different assets, the other place is that of the other one.
other_place :
    (wanted : AssetInfo) (pools : Asset × Asset) (p q : Asset)
    → pools.0.info ≢ pools.1.info
    → pools_for wanted pools ≡ ok (p, q)
    → pools_for q.info pools ≡ ok (q, p)
other_place wanted (a, b) p q differ e = elim ((pools_for-IsPlaced wanted (a, b) (p, q) e).1) [
  | inl same ↦
      let ep : p ≡ a = ap (λ (x : Asset × Asset). x.0) same in
      let eq' : q ≡ b = ap (λ (x : Asset × Asset). x.1) same in rw (ep, eq') (at_second a b differ)
  | inr turned ↦
      let ep : p ≡ b = ap (λ (x : Asset × Asset). x.0) turned in
      let eq' : q ≡ a = ap (λ (x : Asset × Asset). x.1) turned in rw (ep, eq') (at_first a b)
]

asked_lem :
    (n : Bignum) (h : Host) (pair_info : PairRaw) (addr : Addr) (ask : Asset)
    (pools : Asset × Asset) (p q : Asset) {r : ReverseSimulation}
    → h.addr_humanize pair_info.contract_addr ≡ ok addr
    → two_pools h pair_info addr ≡ ok pools
    → pools_for ask.info pools ≡ ok (p, q)
    → query_reverse_simulation n h (some pair_info) ask ≡ ok r
    → compute_offer_amount n q.amount p.amount ask.amount ≡ ok r
unfolding query_reverse_simulation load
asked_lem n h pair_info addr ask pools p q human queried placed e =
    let e₁ = rw human at e in let e₂ = rw queried at e₁ in rw placed at e₂

-- For an amount asked of one of two different assets of the pair, `query_simulation` answers the
-- offer that `query_reverse_simulation` quotes as `IsAnswered` says, if both succeed: it returns
-- at most the amount, and with the commission, which is 3 in 1000 of that sum, rounded down, at
-- most what was asked with its commission, and less than that by at most 1 and what the pool
-- that is left is of the offered one.
pub query_simulation-IsAnswered :
    (n : Bignum) (sums : IsBignum n) (h : Host) (pair_info : PairRaw) (addr : Addr) (ask : Asset)
    (pools : Asset × Asset) (p q : Asset) {r : ReverseSimulation} {s : Simulation}
    → h.addr_humanize pair_info.contract_addr ≡ ok addr
    → two_pools h pair_info addr ≡ ok pools
    → pools.0.info ≢ pools.1.info
    → pools_for ask.info pools ≡ ok (p, q)
    → query_reverse_simulation n h (some pair_info) ask ≡ ok r
    → query_simulation n h (some pair_info) (record { info = q.info; amount = r.offer_amount })
      ≡ ok s
    → IsAnswered q.amount p.amount ask.amount r.offer_amount s
query_simulation-IsAnswered n sums h pair_info addr ask pools p q {r} {s} human queried differ
      placed e e' =
    let asked = asked_lem n h pair_info addr ask pools p q human queried placed e in
    let offer : Asset = record { info = q.info; amount = r.offer_amount } in
    let priced =
      quote_lem n h pair_info addr offer pools q p human queried
        (other_place ask.info pools p q differ placed) e' in
    compute_swap-IsAnswered n sums q.amount p.amount ask.amount asked priced

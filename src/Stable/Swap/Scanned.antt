-- ===== src/Stable/Swap/Scanned.antt =====
-- What the loop over the pools in `swap` of contracts/terraswap_stable/src/contract.rs finds.
use terraswap.Prelude.{
  >>=-elim, All, Bool-cases, List, Pointwise, [], ap, arith, get_elem?, inl, inr, map_err-eq-ok, ok,
  ok-injective, refl, some, suc, sym, ℕ, ◌+◌, ◌∙◌, ◌∷◌, ◌≡◌, ◌≢◌, ◌⊎◌,
}
use terraswap.Asset.{Asset, equal}
use terraswap.Asset.Equal.{equal_iff, equal_ne}
use terraswap.Host.{Host, IsUint128}
use terraswap.Host.Sums.{host_sub-eq-ok}
use terraswap.Stable.Swap.{Places, scan, visit}
use terraswap.Stable.Types.{from_overflow, overflow_error}
use terraswap.Stable.Withdraw.{found}

-- The balance is the pool's, less the offer if the pool is the offer's, which it already holds.
abbrev pub IsBalance : (offer : Asset) → ℕ → Asset → Type 0
IsBalance offer balance pool =
    ((offer.info ≡ pool.info) × (pool.amount ≡ balance + offer.amount))
    ⊎ ((offer.info ≢ pool.info) × (balance ≡ pool.amount))

-- The place is that of a pool of the offer, counted from `start`; it is as it was before if no pool
-- is the offer's.
abbrev pub IsOfferPlace : (offer : Asset) → (from before place : ℕ) → List Asset → Type 0
IsOfferPlace offer from before place pools =
    (All (λ (pool : Asset). offer.info ≢ pool.info) pools × (place ≡ before))
    ⊎ ((k : ℕ) × (pool : Asset) × (get_elem? pools k ≡ some pool)
        × (offer.info ≡ pool.info)
        × (place ≡ from + k))

-- The same of the asset asked for, and a pool that is not the offer's.
abbrev pub IsAskPlace :
    (offer ask : Asset) → (from : ℕ) → (before places : Places) → List Asset → Type 0
IsAskPlace offer ask from before places pools =
    (All (λ (pool : Asset). (ask.info ≢ pool.info) ⊎ (offer.info ≡ pool.info)) pools
      × (places.j ≡ before.j)
      × (places.ask_pool ≡ before.ask_pool))
    ⊎ ((k : ℕ) × (get_elem? pools k ≡ some places.ask_pool)
        × (ask.info ≡ places.ask_pool.info)
        × (offer.info ≢ places.ask_pool.info)
        × (places.j ≡ from + k))

abbrev pub IsScanned :
    (offer ask : Asset)
    → (from : ℕ) → (before places : Places) → List Asset
    → (balances : List ℕ) → Type 0
IsScanned offer ask from before places pools balances =
    IsOfferPlace offer from before.i places.i pools
    × IsAskPlace offer ask from before places pools
    × Pointwise (IsBalance offer) balances pools

-- What one round adds to what the rest of the loop finds.
offer_later :
    (offer pool : Asset) (from before place : ℕ) (pools : List Asset)
    → offer.info ≢ pool.info
    → IsOfferPlace offer (suc from) before place pools
    → IsOfferPlace offer from before place (pool ∷ pools)
offer_later offer pool from before place pools other' (inl (none_of, same)) =
    inl ((other', none_of), same)
offer_later offer pool from before place pools other' (inr (k, found, there, same, e)) =
    inr (suc k, found, there, same, omega (arith, e))

offer_here :
    (offer pool : Asset) (from place : ℕ) (pools : List Asset)
    → offer.info ≡ pool.info
    → (before : ℕ) → IsOfferPlace offer (suc from) from place pools
    → IsOfferPlace offer from before place (pool ∷ pools)
offer_here offer pool from place pools same before (inl (_, e)) =
    inr (0, pool, refl, same, omega (arith, e))
offer_here offer pool from place pools same before (inr (k, found, there, same', e)) =
    inr (suc k, found, there, same', omega (arith, e))

ask_later :
    (offer ask pool : Asset) (from : ℕ) (before before' places : Places) (pools : List Asset)
    → (ask.info ≢ pool.info) ⊎ (offer.info ≡ pool.info)
    → before'.j ≡ before.j
    → before'.ask_pool ≡ before.ask_pool
    → IsAskPlace offer ask (suc from) before' places pools
    → IsAskPlace offer ask from before places (pool ∷ pools)
ask_later offer ask pool from before before' places pools skipped ej ea (inl (none_of, e, e')) =
    inl ((skipped, none_of), e ∙ ej, e' ∙ ea)
ask_later offer ask pool from before before' places pools skipped ej ea
      (inr (k, there, same, other', e)) =
    inr (suc k, there, same, other', omega (arith, e))

ask_here :
    (offer ask pool : Asset) (from : ℕ) (before places : Places) (pools : List Asset)
    → ask.info ≡ pool.info
    → offer.info ≢ pool.info
    → IsAskPlace offer ask (suc from) (record before { j = from; ask_pool = pool }) places pools
    → IsAskPlace offer ask from before places (pool ∷ pools)
ask_here offer ask pool from before places pools same other' (inl (_, e, e')) =
    inr (0, ap some (sym e'), rw e' same, rw e' other', omega (arith, e))
ask_here offer ask pool from before places pools same other' (inr (k, there, same', other'', e)) =
    inr (suc k, there, same', other'', omega (arith, e))

-- What one round does at the pool of the offer, at another one of the asset asked for, and else.
abbrev IsVisited :
    (offer ask : Asset) → (from : ℕ) → Asset → (before visited : Places) → (balance : ℕ) → Type 0
IsVisited offer ask from pool before visited balance =
    IsBalance offer balance pool
    × (((offer.info ≡ pool.info) × (visited ≡ record before { i = from }))
        ⊎ (((offer.info ≢ pool.info)
              × (ask.info ≡ pool.info)
              × (visited ≡ record before { j = from; ask_pool = pool }))
            ⊎ ((offer.info ≢ pool.info) × (ask.info ≢ pool.info) × (visited ≡ before))))

module _ (h : Host) (laws : IsUint128 h) (offer ask : Asset) where
  visit-IsVisited :
      (from : ℕ) (pool : Asset) (before : Places) (visited : Places × ℕ)
      → visit h offer ask from pool before ≡ ok visited
      → IsVisited offer ask from pool before visited.0 visited.1
  unfolding visit
  visit-IsVisited from pool before visited r = elim (Bool-cases (equal offer.info pool.info)) [
    | inl y ↦
        let same = (equal_iff offer.info pool.info).0 y in
        >>=-elim (from_overflow (h.uint_checked_sub pool.amount offer.amount)) _ (rw y at r)
          λ amount e e'.
            let (le, rest) =
              host_sub-eq-ok h laws pool.amount offer.amount (map_err-eq-ok overflow_error _ e) in
            let v = ok-injective (record before { i = from }, amount) visited e' in
            let v₁ = ap (λ (x : Places × ℕ). x.1) v in
            (
              inl (same, omega (arith, le, rest, v₁)),
              inl (same, ap (λ (x : Places × ℕ). x.0) (sym v)),
            )
    | inr n ↦
        let other' = equal_ne offer.info pool.info n in
        elim (Bool-cases (equal ask.info pool.info)) [
          | inl y ↦
              let v =
                ok-injective (record before { j = from; ask_pool = pool }, pool.amount) visited
                  (rw (n, y) at r) in
              (
                inr (other', ap (λ (x : Places × ℕ). x.1) (sym v)),
                inr (
                    inl (
                      other',
                      (equal_iff ask.info pool.info).0 y,
                      ap (λ (x : Places × ℕ). x.0) (sym v),
                    )),
              )
          | inr n' ↦
              let v = ok-injective (before, pool.amount) visited (rw (n, n') at r) in
              (
                inr (other', ap (λ (x : Places × ℕ). x.1) (sym v)),
                inr (
                    inr (
                      other',
                      equal_ne ask.info pool.info n',
                      ap (λ (x : Places × ℕ). x.0) (sym v),
                    )),
              )
        ]
  ]

  -- One round before the others.
  round_lem :
      (from : ℕ) (pool : Asset) (pools : List Asset) (before visited places : Places) (balance : ℕ)
      (balances : List ℕ)
      → IsVisited offer ask from pool before visited balance
      → IsScanned offer ask (suc from) visited places pools balances
      → IsScanned offer ask from before places (pool ∷ pools) (balance ∷ balances)
  round_lem from pool pools before visited places balance balances (kept, inl (same, v))
        (at_offer, at_ask, rest) =
      (
        offer_here offer pool from places.i pools same before.i
            (rw (ap (λ (x : Places). x.i) v) at at_offer),
        ask_later offer ask pool from before visited places pools (inr same)
            (ap (λ (x : Places). x.j) v) (ap (λ (x : Places). x.ask_pool) v) at_ask,
        (kept, rest),
      )
  round_lem from pool pools before visited places balance balances
        (kept, inr (inl (other', same, v))) (at_offer, at_ask, rest) =
      (
        offer_later offer pool from before.i places.i pools other'
            (rw (ap (λ (x : Places). x.i) v) at at_offer),
        ask_here offer ask pool from before places pools same other' (rw v at at_ask),
        (kept, rest),
      )
  round_lem from pool pools before visited places balance balances
        (kept, inr (inr (other', other'', v))) (at_offer, at_ask, rest) =
      (
        offer_later offer pool from before.i places.i pools other'
            (rw (ap (λ (x : Places). x.i) v) at at_offer),
        ask_later offer ask pool from before visited places pools (inl other'')
            (ap (λ (x : Places). x.j) v) (ap (λ (x : Places). x.ask_pool) v) at_ask,
        (kept, rest),
      )

  -- A loop that succeeds finds a place of the offer, a place and a pool of the asset asked for that
  -- is not the offer's, each of them as before if there is none, and the balances.
  pub scan-IsScanned :
      (from : ℕ) (pools : List Asset) (before places : Places) (balances : List ℕ)
      → scan h offer ask from pools before ≡ ok (places, balances)
      → IsScanned offer ask from before places pools balances
  unfolding scan
  scan-IsScanned from [] before places balances r =
      let same = ok-injective (before, []) (places, balances) r in
      let e = ap (λ (x : Places × List ℕ). x.0) same in
      let e' = ap (λ (x : Places × List ℕ). x.1) same in
      rw (← e) (rw (← e') (inl (tt, refl), inl (tt, refl, refl), tt))
  scan-IsScanned from (pool ∷ pools) before places balances r =
      >>=-elim (visit h offer ask from pool before) _ r λ visited e₁ r₁.
        >>=-elim (scan h offer ask (suc from) pools visited.0) _ r₁ λ rest e₂ r₂.
          let same = ok-injective (rest.0, visited.1 ∷ rest.1) (places, balances) r₂ in
          let e = ap (λ (x : Places × List ℕ). x.0) same in
          let e' = ap (λ (x : Places × List ℕ). x.1) same in
          rw (← e) (
            rw (← e') (
              round_lem from pool pools before visited.0 rest.0 visited.1 rest.1
                (visit-IsVisited from pool before visited e₁)
                (scan-IsScanned (suc from) pools visited.0 rest.0 rest.1 e₂)))

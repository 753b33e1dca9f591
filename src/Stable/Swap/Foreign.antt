-- ===== src/Stable/Swap/Foreign.antt =====
-- `swap` of contracts/terraswap_stable/src/contract.rs on an offer that is in none of the pools.
use terraswap.Prelude.{
  All, Bool-cases, List, Option, [], ap, arith, false, get_elem?, inl, inr, ok, refl, some, suc,
  sym, ℕ, ◌+◌, ◌<◌, ◌∙◌, ◌∷◌, ◌≡◌, ◌≢◌, ◌⊎◌,
}
use terraswap.Checked.{as_u64}
use terraswap.Asset.{
  Asset, CosmosMsg, Cw20ExecuteMsg, PairInfoRaw, assert_sent_native_token_balance, equal, into_msg,
  query_pools,
}
use terraswap.Asset.Equal.{equal_iff, equal_ne}
use terraswap.Host.{Addr, Env, Host, MessageInfo}
use terraswap.Stable.Curve.{exchange}
use terraswap.Stable.Curve.Exchange.{IsWithinCurve, exchange-lt-curve}
use terraswap.Stable.Provide.{amounts_of, receiver_or}
use terraswap.Stable.Swap.{Places, pay, scan, swap, visit}
use terraswap.Stable.Swap.Paid.{pay_lem}
use terraswap.Stable.Types.{Response, curve_of, load}

-- The place and the pool are those of a pool of the asset asked for, counted from `start`; they are as
-- they were before if no pool is of that asset.
abbrev pub IsWanted : (ask : Asset) → (start : ℕ) → (before places : Places) → List Asset → Type 0
IsWanted ask start before places pools =
    (All (λ (pool : Asset). ask.info ≢ pool.info) pools
      × (places.j ≡ before.j)
      × (places.ask_pool ≡ before.ask_pool))
    ⊎ ((k : ℕ) × (get_elem? pools k ≡ some places.ask_pool)
        × (ask.info ≡ places.ask_pool.info)
        × (places.j ≡ start + k))

IsWanted-later :
    (ask pool : Asset) (start : ℕ) (before places : Places) (pools : List Asset)
    → ask.info ≢ pool.info
    → IsWanted ask (suc start) before places pools
    → IsWanted ask start before places (pool ∷ pools)
IsWanted-later ask pool start before places pools other' (inl (none_of, e, e')) =
    inl ((other', none_of), e, e')
IsWanted-later ask pool start before places pools other' (inr (k, there, same, e)) =
    inr (suc k, there, same, omega (arith, e))

IsWanted-here :
    (ask pool : Asset) (start : ℕ) (before places : Places) (pools : List Asset)
    → ask.info ≡ pool.info
    → IsWanted ask (suc start) (record before { j = start; ask_pool = pool }) places pools
    → IsWanted ask start before places (pool ∷ pools)
IsWanted-here ask pool start before places pools same (inl (_, e, e')) =
    inr (0, ap some (sym e'), rw e' same, omega (arith, e))
IsWanted-here ask pool start before places pools same (inr (k, there, same', e)) =
    inr (suc k, there, same', omega (arith, e))

-- The loop on such an offer: the balances are those of the pools, and the offer's place stays.
scan_foreign :
    (h : Host) (offer ask : Asset) (place : ℕ) (pools : List Asset) (places : Places)
    → All (λ (pool : Asset). equal offer.info pool.info ≡ false) pools
    → (found : Places) × (found.i ≡ places.i)
      × IsWanted ask place places found pools
      × (scan h offer ask place pools places ≡ ok (found, amounts_of pools))
unfolding scan visit
scan_foreign h offer ask place [] places none_equal = (places, refl, inl (tt, refl, refl), refl)
scan_foreign h offer ask place (pool ∷ pools) places (differs, rest) =
    elim (Bool-cases (equal ask.info pool.info)) [
      | inl asked ↦
          let next : Places = record places { j = place; ask_pool = pool } in
          let (found, e, wanted, scanned) = scan_foreign h offer ask (suc place) pools next rest in
          let same = (equal_iff ask.info pool.info).0 asked in
          (
            found,
            e,
            IsWanted-here ask pool place places found pools same wanted,
            rw differs (rw asked (rw scanned)),
          )
      | inr unasked ↦
          let (found, e, wanted, scanned) =
            scan_foreign h offer ask (suc place) pools places rest in
          let other' = equal_ne ask.info pool.info unasked in
          (
            found,
            e,
            IsWanted-later ask pool place places found pools other' wanted,
            rw differs (rw unasked (rw scanned)),
          )
    ]

-- The loop of such a swap goes on as for an offer of coin 0, on the balances of the pools.
foreign_lem :
    (h : Host) (pair_info : PairInfoRaw) (env : Env) (message_info : MessageInfo) (sender : Addr)
    (offer ask first : Asset) (pools : List Asset) (min_out_amount : ℕ) (to : Option Addr)
    → assert_sent_native_token_balance offer message_info ≡ ok tt
    → query_pools h pair_info env.contract_address ≡ ok (first ∷ pools)
    → All (λ (pool : Asset). equal offer.info pool.info ≡ false) (first ∷ pools)
    → (places : Places) × (places.i ≡ 0)
      × IsWanted ask 0 (record { i = 0; j = 0; ask_pool = first }) places (first ∷ pools)
      × (swap h (some pair_info) env message_info sender offer ask min_out_amount to
          ≡ pay h pair_info sender offer min_out_amount to places (amounts_of (first ∷ pools)))
unfolding swap load
foreign_lem h pair_info env message_info sender offer ask first pools min_out_amount to sent queried
      foreign =
    let start : Places = record { i = 0; j = 0; ask_pool = first } in
    let (found, at_zero, wanted, scanned) =
      scan_foreign h offer ask 0 (first ∷ pools) start foreign in
    (found, at_zero, wanted, rw sent (rw queried (rw scanned)))

-- The one message of `response` sends `receiver` what the curve gives for the amount of the offer as
-- an amount of coin 0, on the balances of the pools, and that is within the curve and more than the
-- minimum. It is paid in the asset asked for, or in the first one if no pool has that.
abbrev pub IsForeignPaid :
    Host
    → PairInfoRaw
    → (offer ask : Asset) → (pools : List Asset) → (first : Asset) → (min_out_amount : ℕ)
    → (receiver : Addr) → Response
    → Type 0
IsForeignPaid h pair_info offer ask pools first min_out_amount receiver response =
    let curve = curve_of pair_info in
    let balances = amounts_of pools in
    (places : Places) × (out : ℕ) × (msg : CosmosMsg Cw20ExecuteMsg) × IsWanted ask 0
      (record { i = 0; j = 0; ask_pool = first }) places pools
    × (exchange curve 0 places.j (as_u64 offer.amount) balances ≡ ok out)
    × IsWithinCurve curve 0 places.j (as_u64 offer.amount) balances out
    × (min_out_amount < out)
    × (into_msg h (record { info = places.ask_pool.info; amount = out }) receiver ≡ ok msg)
    × (response.messages ≡ msg ∷ [])

-- A swap that succeeds, whose offer passes the check of the coins sent and is in none of the
-- pools, is paid as `IsForeignPaid` says: the receiver is sent what the curve gives for as many
-- of coin 0, on the pools as they are, more than the minimum, in the asset asked for, or in that
-- of the first pool if no pool is of it.
pub swap_foreign :
    (h : Host) (pair_info : PairInfoRaw) (env : Env) (message_info : MessageInfo) (sender : Addr)
    (offer ask first : Asset) (pools : List Asset) (min_out_amount : ℕ) (to : Option Addr)
    {response : Response}
    → assert_sent_native_token_balance offer message_info ≡ ok tt
    → query_pools h pair_info env.contract_address ≡ ok (first ∷ pools)
    → All (λ (pool : Asset). equal offer.info pool.info ≡ false) (first ∷ pools)
    → swap h (some pair_info) env message_info sender offer ask min_out_amount to ≡ ok response
    → IsForeignPaid h pair_info offer ask
        (first ∷ pools)
        first
        min_out_amount
        (receiver_or to sender)
        response
swap_foreign h pair_info env message_info sender offer ask first pools min_out_amount to {response}
      sent queried foreign r =
    let balances = amounts_of (first ∷ pools) in
    let (places, at_zero, wanted, same) =
      foreign_lem h pair_info env message_info sender offer ask first pools min_out_amount to sent
        queried foreign in
    let (out, msg, given, less, paid, messages) =
      pay_lem h pair_info sender offer min_out_amount to places balances (sym same ∙ r) in
    let given' : exchange (curve_of pair_info) 0 places.j (as_u64 offer.amount) balances ≡ ok out =
      rw at_zero at given in
    (
      places,
      out,
      msg,
      wanted,
      given',
      exchange-lt-curve (curve_of pair_info) 0 places.j (as_u64 offer.amount) balances given',
      less,
      paid,
      messages,
    )

-- ===== src/Deprecated/Swap/Other.antt =====
-- The errors of `swap` in contracts/terraswap_pair_deprecated/src/contract.rs, and of its parts, behind
-- the choice of the pools.
-- The call does not end with `AssetMismatch`.
use terraswap.Prelude.{
  Bool, Bool-cases, List, Option, Outcome, [], ensure, err, false, if◌then◌else◌, inl, inr, list_eq,
  ltb, nat_beq, nat_eq, none, not, ok, panic, some, string_eq, true, ℕ, ◌==◌, ◌>>=◌, ◌||◌, ◌∷◌, ◌≡◌,
  ◌≢◌,
}
use terraswap.Asset.{
  Asset, CosmosMsg, Cw20ExecuteMsg, assert_sent_native_token_balance, compute_tax, into_msg,
}
use terraswap.Deprecated.Bignum.{Bignum, Decimal256}
use terraswap.Deprecated.Pair.{load, pools_for, two_pools}
use terraswap.Deprecated.Price.{
  assert_belief, assert_max_spread, commission_rate, compute_offer_amount, compute_swap, exceeds,
  offer_before, quote, spread_over, widened,
}
use terraswap.Deprecated.Swap.{return_messages, swap}
use terraswap.Deprecated.Types.{PairRaw, ReverseSimulation}
use terraswap.Host.{Addr, Decimal, Env, Host, MessageInfo, OverflowError, StdResult}
use terraswap.Stable.Provide.{receiver_or}
use terraswap.Stable.Types.{
  ContractError, Response, asset_mismatch, from_overflow, from_std, max_spread_assertion,
  too_small_offer_amount,
}

abbrev pub IsOther : {A : Type 0} → Outcome ContractError A → Type 0
IsOther m = m ≢ err asset_mismatch

bind-IsOther :
    {A B : Type 0} (m : Outcome ContractError A) (f : A → Outcome ContractError B)
    → IsOther m
    → ((a : A) → IsOther (f a))
    → IsOther (m >>= f)
bind-IsOther (ok a) f m_other f_other = f_other a
bind-IsOther (err e) f m_other f_other = λ h. m_other (cc)
bind-IsOther panic f m_other f_other = λ h. absurd (cc)

ok-IsOther : {A : Type 0} (a : A) → IsOther (ok a)
ok-IsOther a h = absurd (cc)

pub std-IsOther : {A : Type 0} (m : StdResult A) → IsOther (from_std m)
std-IsOther (ok a) h = absurd (cc)
std-IsOther (err e) h = absurd (cc)
std-IsOther panic h = absurd (cc)

overflow-IsOther : {A : Type 0} (m : Outcome OverflowError A) → IsOther (from_overflow m)
overflow-IsOther (ok a) h = absurd (cc)
overflow-IsOther (err e) h = absurd (cc)
overflow-IsOther panic h = absurd (cc)

ensure-IsOther :
    (b : Bool) (e : ContractError) → ◌≢◌ {A = ContractError} e asset_mismatch → IsOther (ensure b e)
ensure-IsOther true e ne h = absurd (cc)
ensure-IsOther false e ne h = ne (cc)

spread_ne : ◌≢◌ {A = ContractError} max_spread_assertion asset_mismatch
spread_ne e = absurd (cc)

small_ne : ◌≢◌ {A = ContractError} too_small_offer_amount asset_mismatch
small_ne e = absurd (cc)

-- The same after a call of the library.
std_then :
    {A B : Type 0} (m : StdResult A) (f : A → Outcome ContractError B)
    → ((a : A) → IsOther (f a))
    → IsOther (from_std m >>= f)
std_then m f f_other = bind-IsOther (from_std m) f (std-IsOther m) f_other

module _ (n : Bignum) where
  assert_belief-IsOther :
      (max_spread : Decimal256) (expected return spread : ℕ)
      → IsOther (assert_belief n max_spread expected return spread)
  unfolding assert_belief
  assert_belief-IsOther max_spread expected return spread =
      elim (Bool-cases (ltb return expected)) [
        | inl e ↦ rw e (
            std_then (n.from_ratio spread expected) _
              λ ratio. ensure-IsOther (not (exceeds ratio max_spread)) _ spread_ne)
        | inr e ↦ rw e (ok-IsOther tt)
      ]

  spread-IsOther : (b : Bool) (m : StdResult ℕ) → IsOther (if b then from_std m else ok 0)
  spread-IsOther true m = std-IsOther m
  spread-IsOther false m = ok-IsOther 0

  assert_max_spread-IsOther :
      (belief limit : Option Decimal) (offer return spread : ℕ)
      → IsOther (assert_max_spread n belief limit offer return spread)
  unfolding assert_max_spread
  assert_max_spread-IsOther (some belief) (some limit) offer return spread =
      std_then (n.uint_div_decimal offer (widened belief)) _ λ expected.
        bind-IsOther (if ltb return expected then from_std (n.uint_sub expected return) else ok 0) _
          (spread-IsOther (ltb return expected) (n.uint_sub expected return))
          λ lacks. assert_belief-IsOther (widened limit) expected return lacks
  assert_max_spread-IsOther none (some limit) offer return spread =
      std_then (n.uint_add return spread) _ λ total.
        std_then (n.from_ratio spread total) _
          λ ratio. ensure-IsOther (not (exceeds ratio (widened limit))) _ spread_ne
  assert_max_spread-IsOther (some belief) none offer return spread = ok-IsOther tt
  assert_max_spread-IsOther none none offer return spread = ok-IsOther tt

  quote-IsOther : (offer spread commission : ℕ) → IsOther (quote n offer spread commission)
  unfolding quote
  quote-IsOther offer spread commission =
      let large = not (spread == 0 || commission == 0) in
      bind-IsOther (ensure large too_small_offer_amount) _ (ensure-IsOther large _ small_ne) λ _.
        std_then (n.to_uint128 offer) _ λ offer128. std_then (n.to_uint128 spread) _ λ spread128.
          std_then (n.to_uint128 commission) _ λ commission128. ok-IsOther {A = ReverseSimulation} _

  pub compute_offer_amount-IsOther :
      (offer_pool ask_pool ask : ℕ) → IsOther (compute_offer_amount n offer_pool ask_pool ask)
  unfolding compute_offer_amount
  compute_offer_amount-IsOther offer_pool ask_pool ask =
      std_then (offer_before n offer_pool ask_pool ask) _ λ offer.
        std_then (n.uint_mul_decimal ask offer.0) _ λ gross.
          std_then (n.from_ratio ask_pool offer_pool) _ λ price.
            std_then (n.uint_mul_decimal offer.1 price) _ λ before.
              std_then (spread_over n before gross) _ λ spread.
                std_then (n.uint_mul_decimal gross commission_rate) _
                  λ commission. quote-IsOther offer.1 spread commission

module _ (h : Host) where
  return_messages-IsOther :
      (asset : Asset) (receiver : Addr) → IsOther (return_messages h asset receiver)
  unfolding return_messages
  return_messages-IsOther asset receiver = elim (Bool-cases (nat_beq asset.amount 0)) [
    | inl e ↦ rw e (ok-IsOther [])
    | inr e ↦ rw e (
        std_then (into_msg h asset receiver) _
          λ msg. ok-IsOther {A = List (CosmosMsg Cw20ExecuteMsg)} (msg ∷ []))
  ]

-- A swap whose coins were sent and whose asset has its place does not end so.
pub swap-IsOther :
    (n : Bignum) (h : Host) (pair_info : PairRaw) (env : Env) (message_info : MessageInfo)
    (sender : Addr) (wanted : Asset) (belief limit : Option Decimal) (to : Option Addr)
    (pools places : Asset × Asset)
    → assert_sent_native_token_balance wanted message_info ≡ ok tt
    → two_pools h pair_info env.contract_address ≡ ok pools
    → pools_for wanted.info pools ≡ ok places
    → IsOther (swap n h (some pair_info) env message_info sender wanted belief limit to)
unfolding swap load
swap-IsOther n h pair_info env message_info sender wanted belief limit to pools places sent queried
      placed =
    rw sent (
      rw queried (
        rw placed (
          bind-IsOther (from_overflow (h.uint_checked_sub places.0.amount wanted.amount)) _
            (overflow-IsOther (h.uint_checked_sub places.0.amount wanted.amount))
            λ offer_pool. std_then (compute_swap n offer_pool places.1.amount wanted.amount) _ λ s.
              std_then (h.uint_add s.return_amount s.commission_amount) _ λ gross.
                bind-IsOther (assert_max_spread n belief limit wanted.amount gross s.spread_amount)
                  _ (assert_max_spread-IsOther n belief limit wanted.amount gross s.spread_amount)
                  λ _.
                    let asset : Asset = record { info = places.1.info; amount = s.return_amount } in
                    std_then (compute_tax h asset) _ λ tax.
                      bind-IsOther (return_messages h asset (receiver_or to sender)) _
                        (return_messages-IsOther h asset (receiver_or to sender))
                        λ messages. ok-IsOther {A = Response} _)))

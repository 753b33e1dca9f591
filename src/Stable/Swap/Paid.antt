-- ===== src/Stable/Swap/Paid.antt =====
-- What `swap` of contracts/terraswap_stable/src/contract.rs pays.
use terraswap.Prelude.{
  >>=-elim, List, Option, [], ap, arith, assert_that, assert_that-eq-ok, get_elem?, index, ltb,
  ltb→lt, map_err-eq-ok, ne→nat_beq, ok, ok-injective, some, sym, unwrap, unwrap-eq-ok, ℕ, ◌<◌,
  ◌>>=◌, ◌∙◌, ◌∷◌, ◌≡◌,
}
use terraswap.Checked.{as_u64}
use terraswap.Asset.{
  Asset, CosmosMsg, Cw20ExecuteMsg, PairInfoRaw, assert_sent_native_token_balance, into_msg,
  query_pools,
}
use terraswap.Host.{Addr, Env, Host, IsUint128, MessageInfo}
use terraswap.Stable.Curve.{exchange}
use terraswap.Stable.Curve.Exchange.{IsWithinCurve, exchange-lt-curve}
use terraswap.Stable.Provide.{receiver_or}
use terraswap.Stable.Swap.{Places, pay, scan, swap}
use terraswap.Stable.Swap.Scanned.{IsScanned, scan-IsScanned}
use terraswap.Stable.Types.{ContractError, Response, curve_of, from_std, load, std}

-- The one message of `response` sends `receiver` what the curve gives for the offer, which is within
-- the curve and more than the minimum: at a place of the offer, a place and a pool of the asset asked for, each of them
-- the first if there is none, and the balances without the offer.
abbrev pub IsSwapPaid :
    Host
    → PairInfoRaw
    → Env
    → (offer ask : Asset) → (min_out_amount : ℕ) → (receiver : Addr) → Response
    → Type 0
IsSwapPaid h pair_info env offer ask min_out_amount receiver response =
    (first : Asset) × (pools : List Asset) × (places : Places) × (balances : List ℕ) × (out : ℕ)
    × (msg : CosmosMsg Cw20ExecuteMsg) × (query_pools h pair_info env.contract_address ≡ ok pools)
    × (get_elem? pools 0 ≡ some first)
    × IsScanned offer ask 0 (record { i = 0; j = 0; ask_pool = first }) places pools balances
    × (exchange (curve_of pair_info) places.i places.j (as_u64 offer.amount) balances ≡ ok out)
    × IsWithinCurve (curve_of pair_info) places.i places.j (as_u64 offer.amount) balances out
    × (min_out_amount < out)
    × (into_msg h (record { info = places.ask_pool.info; amount = out }) receiver ≡ ok msg)
    × (response.messages ≡ msg ∷ [])

pub pay_lem :
    (h : Host) (pair_info : PairInfoRaw) (sender : Addr) (offer : Asset) (min_out : ℕ)
    (to : Option Addr) (places : Places) (balances : List ℕ) {response : Response}
    → pay h pair_info sender offer min_out to places balances ≡ ok response
    → (out : ℕ) × (msg : CosmosMsg Cw20ExecuteMsg) × (exchange
          (curve_of pair_info)
          places.i
          places.j
          (as_u64 offer.amount)
          balances
        ≡ ok out)
      × (min_out < out)
      × (into_msg h (record { info = places.ask_pool.info; amount = out }) (receiver_or to sender)
          ≡ ok msg)
      × (response.messages ≡ msg ∷ [])
unfolding pay
pay_lem h pair_info sender offer min_out to places balances {response} r =
    >>=-elim
      (unwrap (exchange (curve_of pair_info) places.i places.j (as_u64 offer.amount) balances)) _ r
      λ out e₁ r₁. >>=-elim (assert_that (ltb min_out out)) _ r₁ λ _ e₂ r₂.
        let less : min_out < out = ltb→lt min_out out (assert_that-eq-ok _ e₂) in
        let r₃ = rw (ne→nat_beq out 0 (omega arith)) at r₂ in
        let paid =
          into_msg h (record { info = places.ask_pool.info; amount = out })
            (receiver_or to sender) in
        >>=-elim (from_std paid >>= λ msg. ok (msg ∷ [])) _ r₃ λ messages e₃ r₄.
          >>=-elim (from_std paid) _ e₃ λ msg e₄ e₅. (
            out,
            msg,
            unwrap-eq-ok _ e₁,
            less,
            map_err-eq-ok std paid e₄,
            ap (λ (x : Response). x.messages) (sym (ok-injective _ response r₄))
                ∙ sym (ok-injective (msg ∷ []) messages e₅),
          )

first_lem :
    (pools : List Asset) {first : Asset}
    → index {E = ContractError} pools 0 ≡ ok first
    → get_elem? pools 0 ≡ some first
first_lem [] e = cc
first_lem (pool ∷ pools) {first} e = ap some (ok-injective {E = ContractError} pool first e)

-- A swap that succeeds is paid as `IsSwapPaid` says: its one message sends the receiver what the
-- curve gives for the offer, at a place of the offer and one of the asset asked for, each of
-- them the first if the pair does not hold it (or asks for the offer), on the balances without
-- the offer, and that is within the curve, as `IsWithinCurve` says, and more than the minimum.
pub swap-IsSwapPaid :
    (h : Host) (laws : IsUint128 h) (pair_info : PairInfoRaw) (env : Env)
    (message_info : MessageInfo) (sender : Addr) (offer ask : Asset) (min_out_amount : ℕ)
    (to : Option Addr) {response : Response}
    → swap h (some pair_info) env message_info sender offer ask min_out_amount to ≡ ok response
    → IsSwapPaid h pair_info env offer ask min_out_amount (receiver_or to sender) response
unfolding swap load
swap-IsSwapPaid h laws pair_info env message_info sender offer ask min_out_amount to {response} r =
    >>=-elim (from_std (assert_sent_native_token_balance offer message_info)) _ r λ _ _ r₁.
      >>=-elim (from_std (query_pools h pair_info env.contract_address)) _ r₁ λ pools e₁ r₂.
        >>=-elim (index pools 0) _ r₂ λ first e₀ r₃.
          >>=-elim (scan h offer ask 0 pools (record { i = 0; j = 0; ask_pool = first })) _ r₃
            λ scanned e₂ r₄.
              let (out, msg, given, less, paid, messages) =
                pay_lem h pair_info sender offer min_out_amount to scanned.0 scanned.1 r₄ in
              (
                first,
                pools,
                scanned.0,
                scanned.1,
                out,
                msg,
                map_err-eq-ok std (query_pools h pair_info env.contract_address) e₁,
                first_lem pools e₀,
                scan-IsScanned h laws offer ask 0 pools (record { i = 0; j = 0; ask_pool = first })
                    scanned.0 scanned.1 e₂,
                given,
                exchange-lt-curve (curve_of pair_info) scanned.0.i scanned.0.j (as_u64 offer.amount)
                    scanned.1 given,
                less,
                paid,
                messages,
              )

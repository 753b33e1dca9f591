-- ===== src/Deprecated/Provide/Redeemed.antt =====
-- `withdraw_liquidity` after `provide_liquidity`, of contracts/terraswap_pair_deprecated/src/contract.rs.
use mathlib.Core.List.{append_cancel_left}
use native.Mathlib.Nat.{le_of_mul-le-mul_left}
use terraswap.Prelude.{
  List, Option, String, [], arith, inl, inr, ok, ok-injective, some, sym, ℕ, ◌*◌, ◌++◌, ◌+◌, ◌<◌,
  ◌∙◌, ◌∷◌, ◌≡◌, ◌≤◌,
}
use terraswap.Checked.{u128}
use terraswap.Asset.{
  Asset, CosmosMsg, Cw20ExecuteMsg, burn, into_msg, mint, query_supply, wasm_execute,
}
use terraswap.Deprecated.Bignum.{Bignum, IsBignum}
use terraswap.Deprecated.Pair.{two_pools}
use terraswap.Deprecated.Provide.{deposit_of, provide_liquidity, share_of, withdraw_liquidity}
use terraswap.Deprecated.Provide.Minted.{provide_lem}
use terraswap.Deprecated.Provide.Refunded.{withdraw_liquidity-IsRefunded}
use terraswap.Deprecated.Provide.Share.{share_of-IsShare}
use terraswap.Deprecated.Types.{PairRaw}
use terraswap.Host.{Addr, Decimal, Env, Host, IsUint128, MessageInfo, StdError}
use terraswap.Stable.Provide.{receiver_or, take_deposit}
use terraswap.Stable.Types.{ContractError, Response}

-- The messages of `response` send `sender` at most the amounts given, out of the pools, and then burn
-- the tokens.
abbrev pub IsRedeemed :
    Host
    → (sender lp : Addr) → (share : ℕ) → (deposits : ℕ × ℕ) → (pools : Asset × Asset) → Response
    → Type 0
IsRedeemed h sender lp share deposits pools response =
    (first second : Asset) × (first_msg second_msg : CosmosMsg Cw20ExecuteMsg) × (first.info
      ≡ pools.0.info)
    × (second.info ≡ pools.1.info)
    × (first.amount ≤ deposits.0)
    × (second.amount ≤ deposits.1)
    × (into_msg h first sender ≡ ok first_msg)
    × (into_msg h second sender ≡ ok second_msg)
    × (response.messages ≡ first_msg ∷ second_msg ∷ wasm_execute lp (burn share) [] ∷ [])

all_le :
    (p d total share refund : ℕ)
    → share * p ≤ d * total
    → refund * (total + share) ≤ (p + d) * share
    → (total + share) * refund ≤ (total + share) * d
all_le p d total share refund minted refunded = omega (arith, minted, refunded)

-- The part of the pool with the deposit is no more than the deposit.
part_lem :
    (p d total share refund : ℕ)
    → 0 < total + share
    → share * p ≤ d * total
    → refund * (total + share) ≤ (p + d) * share
    → refund ≤ d
part_lem p d total share refund pos minted refunded =
    le_of_mul-le-mul_left (all_le p d total share refund minted refunded) pos

minted_share :
    (first second : List (CosmosMsg Cw20ExecuteMsg)) (lp receiver : String) (share share' : ℕ)
    → first ++ (second ++ (wasm_execute lp (mint receiver share) [] ∷ []))
      ≡ first ++ (second ++ (wasm_execute lp (mint receiver share') [] ∷ []))
    → share ≡ share'
minted_share first second lp receiver share share' e =
    let last = append_cancel_left second _ _ (append_cancel_left first _ _ e) in cc

later_share :
    (n : Bignum) (sums : IsBignum n) (h : Host) (laws : IsUint128 h) (total d0 d1 p0 p1 share : ℕ)
    → 0 < total
    → share_of n h total (d0, d1) (p0, p1) ≡ ok share
    → (share * p0 ≤ d0 * total) × (share * p1 ≤ d1 * total)
later_share n sums h laws total d0 d1 p0 p1 share pos e =
    elim (share_of-IsShare n sums h laws total d0 d1 p0 p1 e) [
      | inl (zero', _, _) ↦ absurd (omega (arith, zero', pos))
      | inr (_, below0, below1, _) ↦ (below0, below1)
    ]

-- The share that the messages mint is at most either deposit's part of the supply.
share_lem :
    (n : Bignum) (sums : IsBignum n) (h : Host) (laws : IsUint128 h) (pair_info : PairRaw)
    (env : Env) (message_info : MessageInfo) (assets : Asset × Asset) (tolerance : Option Decimal)
    (receiver : Option String) (lp : Addr) (pools : Asset × Asset)
    (first second : List (CosmosMsg Cw20ExecuteMsg) × Asset) (d0 d1 total share : ℕ)
    {response : Response}
    → h.addr_humanize pair_info.liquidity_token ≡ ok lp
    → two_pools h pair_info env.contract_address ≡ ok pools
    → deposit_of assets pools.0 ≡ ok d0
    → deposit_of assets pools.1 ≡ ok d1
    → take_deposit h message_info.sender env.contract_address pools.0 d0 ≡ ok first
    → take_deposit h message_info.sender env.contract_address pools.1 d1 ≡ ok second
    → query_supply h lp ≡ ok total
    → 0 < total
    → provide_liquidity n h (some pair_info) env message_info assets tolerance receiver
      ≡ ok response
    → response.messages
      ≡ first.0
        ++ (second.0
            ++ (wasm_execute lp (mint (receiver_or receiver message_info.sender) share) [] ∷ []))
    → (share * first.1.amount ≤ d0 * total) × (share * second.1.amount ≤ d1 * total)
share_lem n sums h laws pair_info env message_info assets tolerance receiver lp pools first second
      d0 d1 total share human queried dep0 dep1 taken0 taken1 supply pos r sent =
    let (
      pools', first', second', d0', d1', total', share', lp', e₁, e₂, e₃, e₄, e₅, _, e₇, e₈, e₉, _,
      sent',
    ) =
      provide_lem n h pair_info env message_info assets tolerance receiver r in
    let same_pools : pools' ≡ pools = ok-injective {E = StdError} pools' pools (sym e₁ ∙ queried) in
    let same_d0 : d0' ≡ d0 =
      ok-injective {E = ContractError} d0' d0 (sym (rw same_pools at e₂) ∙ dep0) in
    let same_d1 : d1' ≡ d1 =
      ok-injective {E = ContractError} d1' d1 (sym (rw same_pools at e₃) ∙ dep1) in
    let same_first : first' ≡ first =
      ok-injective {E = ContractError} first' first
        (sym (rw same_d0 at (rw same_pools at e₄)) ∙ taken0) in
    let same_second : second' ≡ second =
      ok-injective {E = ContractError} second' second
        (sym (rw same_d1 at (rw same_pools at e₅)) ∙ taken1) in
    let same_lp : lp' ≡ lp = ok-injective {E = StdError} lp' lp (sym e₇ ∙ human) in
    let known : query_supply h lp ≡ ok total' = rw same_lp at e₈ in
    let same_total : total' ≡ total =
      ok-injective {E = StdError} total' total (sym known ∙ supply) in
    let recipient = receiver_or receiver message_info.sender in
    let same_sent : first.0 ++ (second.0 ++ (wasm_execute lp (mint recipient share') [] ∷ []))
        ≡ first.0 ++ (second.0 ++ (wasm_execute lp (mint recipient share) [] ∷ [])) =
      sym (rw (same_first, same_second, same_lp) at sent') ∙ sent in
    let same_share : share' ≡ share =
      minted_share first.0 second.0 lp recipient share' share same_sent in
    let computed : share_of n h total (d0, d1) (first.1.amount, second.1.amount) ≡ ok share =
      rw (same_total, same_d0, same_d1, same_first, same_second, same_share) at e₉ in
    later_share n sums h laws total d0 d1 first.1.amount second.1.amount share pos computed

-- Who makes a deposit that succeeds with some supply out, and later burns the share that its
-- messages mint, when the pools and the supply are those before it with the deposits and the
-- share added, and the pools fit 128 bits, is refunded as `IsRedeemed` says: of each asset no
-- more than was deposited.
pub withdraw_liquidity-provide_liquidity :
    (n : Bignum) (sums : IsBignum n) (h h' : Host) (laws : IsUint128 h) (laws' : IsUint128 h')
    (pair_info : PairRaw) (env : Env) (message_info : MessageInfo) (assets : Asset × Asset)
    (tolerance : Option Decimal) (receiver : Option String) (sender lp : Addr)
    (pools pools' : Asset × Asset) (first second : List (CosmosMsg Cw20ExecuteMsg) × Asset)
    (d0 d1 total share : ℕ) {provided withdrawn : Response}
    → h.addr_humanize pair_info.liquidity_token ≡ ok lp
    → two_pools h pair_info env.contract_address ≡ ok pools
    → deposit_of assets pools.0 ≡ ok d0
    → deposit_of assets pools.1 ≡ ok d1
    → take_deposit h message_info.sender env.contract_address pools.0 d0 ≡ ok first
    → take_deposit h message_info.sender env.contract_address pools.1 d1 ≡ ok second
    → query_supply h lp ≡ ok total
    → 0 < total
    → provide_liquidity n h (some pair_info) env message_info assets tolerance receiver
      ≡ ok provided
    → provided.messages
      ≡ first.0
        ++ (second.0
            ++ (wasm_execute lp (mint (receiver_or receiver message_info.sender) share) [] ∷ []))
    → h'.addr_humanize pair_info.liquidity_token ≡ ok lp
    → two_pools h' pair_info env.contract_address ≡ ok pools'
    → pools'.0.amount ≡ first.1.amount + d0
    → pools'.1.amount ≡ second.1.amount + d1
    → pools'.0.amount < u128
    → pools'.1.amount < u128
    → query_supply h' lp ≡ ok (total + share)
    → withdraw_liquidity h' (some pair_info) env sender share ≡ ok withdrawn
    → IsRedeemed h' sender lp share (d0, d1) pools' withdrawn
withdraw_liquidity-provide_liquidity n sums h h' laws laws' pair_info env message_info assets
      tolerance receiver sender lp pools pools' first second d0 d1 total share {provided}
      {withdrawn} human queried dep0 dep1 taken0 taken1 supply pos r sent human' queried' grown0
      grown1 small0 small1 supply' r' =
    let shared =
      share_lem n sums h laws pair_info env message_info assets tolerance receiver lp pools first
        second d0 d1 total share human queried dep0 dep1 taken0 taken1 supply pos r sent in
    let (refund0, refund1, msg0, msg1, part0, part1, e₁, e₂, messages) =
      withdraw_liquidity-IsRefunded h' laws' pair_info env sender lp share (total + share) pools'
        human' queried' supply' (omega (arith, pos)) (omega arith) small0 small1 r' in
    let (info0, under0, _, _) = part0 in
    let (info1, under1, _, _) = part1 in
    let le0 : refund0.amount * (total + share) ≤ (first.1.amount + d0) * share =
      rw (← grown0) under0 in
    let le1 : refund1.amount * (total + share) ≤ (second.1.amount + d1) * share =
      rw (← grown1) under1 in
    (
      refund0,
      refund1,
      msg0,
      msg1,
      info0,
      info1,
      part_lem first.1.amount d0 total share refund0.amount (omega (arith, pos)) shared.0 le0,
      part_lem second.1.amount d1 total share refund1.amount (omega (arith, pos)) shared.1 le1,
      e₁,
      e₂,
      messages,
    )

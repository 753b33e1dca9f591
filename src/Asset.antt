-- ===== src/Asset.antt =====
-- packages/terraswap/src/asset.rs and querier.rs: assets, the tax on native coins, and the pools of a
-- pair. The payload of a message is the value that the source encodes.
pub mod Equal
pub mod Tax
pub mod Raw
pub mod Methods
use Prim.Native.Nat.{min}
use terraswap.Prelude.{
  Bool, List, Option, String, [], ensure, err, false, if◌then◌else◌, list_eq, map_err, nat_eq, none,
  ok, some, string_eq, traverse, true, ℕ, ◌==◌, ◌>>=◌, ◌∷◌,
}
use terraswap.Host.{
  Addr, CanonicalAddr, Coin, Host, MessageInfo, StdError, StdResult, decimal_one, generic_err,
  overflow,
}

-- The messages to token contracts.
pub data Cw20ExecuteMsg : Type 0 where
  transfer : (recipient : String) → (amount : ℕ) → Cw20ExecuteMsg
  transfer_from : (owner recipient : String) → (amount : ℕ) → Cw20ExecuteMsg
  mint : (recipient : String) → (amount : ℕ) → Cw20ExecuteMsg
  burn : (amount : ℕ) → Cw20ExecuteMsg

pub data CosmosMsg (P : Type 0) : Type 0 where
  wasm_execute : (contract_addr : String) → (msg : P) → (funds : List Coin) → CosmosMsg P
  bank_send : (to_address : String) → (amount : List Coin) → CosmosMsg P

pub data AssetInfo : Type 0 where
  token : (contract_addr : String) → AssetInfo
  native_token : (denom : String) → AssetInfo

pub record Asset : Type 0 where
  pub info : AssetInfo
  pub amount : ℕ

pub data AssetInfoRaw : Type 0 where
  token_raw : (contract_addr : CanonicalAddr) → AssetInfoRaw
  native_token_raw : (denom : String) → AssetInfoRaw

pub record AssetRaw : Type 0 where
  pub info : AssetInfoRaw
  pub amount : ℕ

pub record PairInfo : Type 0 where
  pub asset_infos : List AssetInfo
  pub contract_addr : String
  pub liquidity_token : String
  pub amplification : ℕ
  pub fee : ℕ

pub record PairInfoRaw : Type 0 where
  pub asset_infos : List AssetInfoRaw
  pub liquidity_token : CanonicalAddr
  pub contract_addr : CanonicalAddr
  pub amplification : ℕ
  pub fee : ℕ

unfoldable pub is_native_token : AssetInfo → Bool
is_native_token (native_token denom) = true
is_native_token (token contract_addr) = false

unfoldable pub equal : AssetInfo → AssetInfo → Bool
equal (token self_contract_addr) (token contract_addr) = self_contract_addr == contract_addr
equal (token self_contract_addr) (native_token denom) = false
equal (native_token self_denom) (token contract_addr) = false
equal (native_token self_denom) (native_token denom) = self_denom == denom

-- The first coin of a denomination: `iter().find(|x| x.denom == denom)`.
unfoldable pub find_coin : List Coin → String → Option Coin
find_coin [] denom = none
find_coin (coin ∷ rest) denom = if coin.denom == denom then some coin else find_coin rest denom

abbrev pub mismatch : StdError
mismatch = generic_err "Native token balance mismatch between the argument and the transferred"

unfoldable pub assert_sent_native_token_balance : Asset → MessageInfo → StdResult (Unit {0})
assert_sent_native_token_balance asset info = elim (asset.info) [
  | native_token denom ↦ elim (find_coin info.funds denom) [
    | some coin ↦ ensure (asset.amount == coin.amount) mismatch
    | none ↦ ensure (asset.amount == 0) mismatch
  ]
  | token contract_addr ↦ ok tt
]

module _ (h : Host) where
  unfoldable pub query_balance : Addr → String → StdResult ℕ
  query_balance account_addr denom = h.bank_balance account_addr denom

  unfoldable pub query_token_balance : Addr → Addr → StdResult ℕ
  query_token_balance contract_addr account_addr = h.cw20_balance contract_addr account_addr

  unfoldable pub query_supply : Addr → StdResult ℕ
  query_supply contract_addr = h.cw20_total_supply contract_addr

  -- The tax on an amount of a denomination other than "uluna".
  unfoldable pub taxed : ℕ → String → StdResult ℕ
  taxed amount denom = do
    tax_rate ← h.query_tax_rate
    tax_cap ← h.query_tax_cap denom
    scaled ← h.uint_mul_decimal decimal_one tax_rate
    divisor ← h.uint_add scaled decimal_one
    net ← h.multiply_ratio amount decimal_one divisor
    tax ← map_err overflow (h.uint_checked_sub amount net)
    ok (min tax tax_cap)

  unfoldable pub compute_tax : Asset → StdResult ℕ
  compute_tax asset = elim (asset.info) [
    | native_token denom ↦ if denom == "uluna" then ok 0 else taxed asset.amount denom
    | token contract_addr ↦ ok 0
  ]

  unfoldable pub deduct_tax : Asset → StdResult Coin
  deduct_tax asset = elim (asset.info) [
    | native_token denom ↦ do
      tax ← compute_tax asset
      amount ← map_err overflow (h.uint_checked_sub asset.amount tax)
      ok (record { denom = denom; amount = amount })
    | token contract_addr ↦ err (generic_err "cannot deduct tax from token asset")
  ]

  unfoldable pub into_msg : Asset → Addr → StdResult (CosmosMsg Cw20ExecuteMsg)
  into_msg asset recipient = elim (asset.info) [
    | token contract_addr ↦ ok (wasm_execute contract_addr (transfer recipient asset.amount) [])
    | native_token denom ↦ do coin ← deduct_tax asset; ok (bank_send recipient (coin ∷ []))
  ]

  unfoldable pub info_to_raw : AssetInfo → StdResult AssetInfoRaw
  info_to_raw (native_token denom) = ok (native_token_raw denom)
  info_to_raw (token contract_addr) = do
    canonical ← h.addr_canonicalize contract_addr
    ok (token_raw canonical)

  unfoldable pub info_to_normal : AssetInfoRaw → StdResult AssetInfo
  info_to_normal (native_token_raw denom) = ok (native_token denom)
  info_to_normal (token_raw contract_addr) = do
    human ← h.addr_humanize contract_addr
    ok (token human)

  unfoldable pub asset_to_raw : Asset → StdResult AssetRaw
  asset_to_raw asset = do
    info ← info_to_raw asset.info
    ok (record { info = info; amount = asset.amount })

  unfoldable pub asset_to_normal : AssetRaw → StdResult Asset
  asset_to_normal asset = do
    info ← info_to_normal asset.info
    ok (record { info = info; amount = asset.amount })

  -- `AssetInfo::query_pool`
  unfoldable pub query_pool : AssetInfo → Addr → StdResult ℕ
  query_pool (token contract_addr) pool_addr = do
    contract ← h.addr_validate contract_addr
    query_token_balance contract pool_addr
  query_pool (native_token denom) pool_addr = query_balance pool_addr denom

  -- `PairInfoRaw::to_normal`
  unfoldable pub pair_to_normal : PairInfoRaw → StdResult PairInfo
  pair_to_normal pair = do
    asset_infos ← traverse info_to_normal pair.asset_infos
    liquidity_token ← h.addr_humanize pair.liquidity_token
    contract_addr ← h.addr_humanize pair.contract_addr
    ok (record {
      asset_infos = asset_infos;
      contract_addr = contract_addr;
      liquidity_token = liquidity_token;
      amplification = pair.amplification;
      fee = pair.fee;
    })

  -- One round of `PairInfoRaw::query_pools`.
  unfoldable pub pool_of : Addr → AssetInfoRaw → StdResult Asset
  pool_of contract_addr raw = do
    info ← info_to_normal raw
    amount ← query_pool info contract_addr
    ok (record { info = info; amount = amount })

  unfoldable pub query_pools : PairInfoRaw → Addr → StdResult (List Asset)
  query_pools pair contract_addr = traverse (pool_of contract_addr) pair.asset_infos

-- ===== src/Stable/Types.antt =====
-- packages/terraswap/src/pair.rs, contracts/terraswap_stable/src/error.rs and state.rs: the messages,
-- errors and state of the stable pair. The state is the item `PAIR_INFO`, empty until `instantiate`
-- saves it. An encoded message is its bytes.
use terraswap.Prelude.{List, Option, Outcome, String, err, map_err, none, ok, some, ℕ}
use terraswap.Checked.{as_u64}
use terraswap.Asset.{Asset, AssetInfo, CosmosMsg, Cw20ExecuteMsg, PairInfoRaw}
use terraswap.Host.{OverflowError, StdError, StdResult, not_found}
use terraswap.Stable.Curve.{Curve}
use terraswap.Token.{TokenInstantiateMsg}

pub data ContractError : Type 0 where
  std : StdError → ContractError
  overflow_error : OverflowError → ContractError
  unauthorized : ContractError
  invalid_zero_amount : ContractError
  max_spread_assertion : ContractError
  max_slippage_assertion : ContractError
  asset_mismatch : ContractError
  too_small_offer_amount : ContractError

abbrev pub Binary : Type 0
Binary = List ℕ

pub record Cw20ReceiveMsg : Type 0 where
  pub sender : String
  pub amount : ℕ
  pub msg : Binary

pub record InstantiateMsg : Type 0 where
  pub asset_infos : List AssetInfo
  pub amplification : ℕ
  pub fee : ℕ
  pub token_code_id : ℕ

pub data ExecuteMsg : Type 0 where
  receive : Cw20ReceiveMsg → ExecuteMsg
  provide_liquidity :
      (assets : List Asset) → (min_out_amount : ℕ) → (receiver : Option String) → ExecuteMsg
  swap : (offer_asset ask_asset : Asset) → (min_out_amount : ℕ) → (to : Option String) → ExecuteMsg

pub data Cw20HookMsg : Type 0 where
  swap : (ask_asset : Asset) → (min_out_amount : ℕ) → (to : Option String) → Cw20HookMsg
  withdraw_single_liquidity : (asset : Asset) → (min_out_amount : ℕ) → Cw20HookMsg
  withdraw_liquidity : Cw20HookMsg

pub data QueryMsg : Type 0 where
  pair : QueryMsg
  pool : QueryMsg

pub record PoolResponse : Type 0 where
  pub assets : List Asset
  pub total_share : ℕ

-- What `instantiate` asks the chain to do: to make the token contract, and to reply on success.
pub record TokenSubMsg : Type 0 where
  pub id : ℕ
  pub code_id : ℕ
  pub msg : TokenInstantiateMsg

-- The value of an attribute, before it is printed.
pub data Shown : Type 0 where
  text : String → Shown
  number : ℕ → Shown
  shown_info : AssetInfo → Shown
  shown_asset : Asset → Shown
  shown_assets : Asset → Asset → Shown

pub record Response : Type 0 where
  pub messages : List (CosmosMsg Cw20ExecuteMsg)
  pub submessages : List TokenSubMsg
  pub attributes : List (String × Shown)

-- The two conversions that `?` makes.
abbrev pub from_std {κ} : {A : Type κ} → StdResult A → Outcome ContractError A
from_std = map_err std

abbrev pub from_overflow {κ} : {A : Type κ} → Outcome OverflowError A → Outcome ContractError A
from_overflow = map_err overflow_error

-- `PAIR_INFO.load`
unfoldable pub load : Option PairInfoRaw → StdResult PairInfoRaw
load none = err not_found
load (some pair_info) = ok pair_info

-- The curve of a pair: both casts are `as u64`.
unfoldable pub curve_of : PairInfoRaw → Curve
curve_of pair_info = record {
  amp = as_u64 pair_info.amplification;
  fee_numerator = as_u64 pair_info.fee;
}

-- ===== src/Deprecated/Types.antt =====
-- The state and the messages of contracts/terraswap_pair_deprecated, as its contract.rs takes them
-- apart and builds them: packages/terraswap no longer declares them in this form. The errors are
-- those of the stable pair's error.rs, which its own error.rs repeats.
use terraswap.Prelude.{Option, String, ℕ}
use terraswap.Asset.{Asset, AssetInfo, AssetInfoRaw}
use terraswap.Host.{CanonicalAddr, Decimal}
use terraswap.Stable.Types.{Cw20ReceiveMsg}

-- `PairInfoRaw`, with two assets.
pub record PairRaw : Type 0 where
  pub contract_addr : CanonicalAddr
  pub liquidity_token : CanonicalAddr
  pub asset_infos : AssetInfoRaw × AssetInfoRaw

-- `PairInfo`, with two assets.
pub record PairView : Type 0 where
  pub asset_infos : AssetInfo × AssetInfo
  pub contract_addr : String
  pub liquidity_token : String

pub data PairExecuteMsg : Type 0 where
  receive : Cw20ReceiveMsg → PairExecuteMsg
  provide_liquidity :
      (assets : Asset × Asset)
      → (slippage_tolerance : Option Decimal) → (receiver : Option String) → PairExecuteMsg
  swap :
      (offer_asset : Asset)
      → (belief_price max_spread : Option Decimal) → (to : Option String) → PairExecuteMsg

pub data PairHookMsg : Type 0 where
  swap : (belief_price max_spread : Option Decimal) → (to : Option String) → PairHookMsg
  withdraw_liquidity : PairHookMsg

pub record Simulation : Type 0 where
  pub return_amount : ℕ
  pub spread_amount : ℕ
  pub commission_amount : ℕ

pub record ReverseSimulation : Type 0 where
  pub offer_amount : ℕ
  pub spread_amount : ℕ
  pub commission_amount : ℕ

pub record PairPools : Type 0 where
  pub assets : Asset × Asset
  pub total_share : ℕ

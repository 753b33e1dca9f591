-- ===== src/Asset/Methods.antt =====
-- What packages/terraswap/src/asset.rs and querier.rs offer beside what the contracts call.
use text.Mathlib.TextEquality.{eq_iff}
use terraswap.Prelude.{
  Bool, List, arith, false, list_beq_iff, list_eq, nat_eq, ok, string_eq, true, ◌==◌, ◌>>=◌, ◌↔◌,
  ◌≡◌,
}
use terraswap.Asset.{
  Asset, AssetInfoRaw, CosmosMsg, Cw20ExecuteMsg, into_msg, is_native_token, native_token_raw,
  token_raw,
}
use terraswap.Host.{Addr, Coin, Host, StdResult}

-- `Asset::is_native_token`
unfoldable pub asset_is_native_token : Asset → Bool
asset_is_native_token asset = is_native_token asset.info

-- `AssetInfoRaw::equal`
unfoldable pub equal_raw : AssetInfoRaw → AssetInfoRaw → Bool
equal_raw (token_raw contract_addr) (token_raw contract_addr') = contract_addr == contract_addr'
equal_raw (token_raw contract_addr) (native_token_raw denom) = false
equal_raw (native_token_raw denom) (token_raw contract_addr) = false
equal_raw (native_token_raw denom) (native_token_raw denom') = denom == denom'

-- `new` is `SubMsg::new`.
unfoldable pub into_submsg {κ} :
    {S : Type κ}
    → (new : CosmosMsg Cw20ExecuteMsg → S) → Host
    → Asset
    → (recipient : Addr) → StdResult S
into_submsg new h asset recipient = do msg ← into_msg h asset recipient; ok (new msg)

-- `all_balances` is `BankQuery::AllBalances`.
unfoldable pub query_all_balances :
    (all_balances : Addr → StdResult (List Coin)) → (account_addr : Addr) → StdResult (List Coin)
query_all_balances all_balances account_addr = all_balances account_addr

-- Two stored assets are equal exactly when they are the same one.
pub equal_raw_iff : (a b : AssetInfoRaw) → (equal_raw a b ≡ true) ↔ (a ≡ b)
unfolding equal_raw
equal_raw_iff (token_raw x) (token_raw y) = ground (arith, list_beq_iff x y)
equal_raw_iff (token_raw x) (native_token_raw y) = ground arith
equal_raw_iff (native_token_raw x) (token_raw y) = ground arith
equal_raw_iff (native_token_raw x) (native_token_raw y) = ground (arith, eq_iff x y)

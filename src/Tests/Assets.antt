-- ===== src/Tests/Assets.antt =====
-- Examples of what is proved of packages/terraswap/src/asset.rs.
use terraswap.Prelude.{[], arith, ok, refl, traverse, ◌^◌, ◌∷◌, ◌≡◌}
use terraswap.Asset.{deduct_tax, info_to_raw, native_token, native_token_raw, token, token_raw}
use terraswap.Asset.Tax.{deduct_tax_lem}
use terraswap.Tests.Host.{sample_host, sample_host-IsUint128}
use terraswap.Tests.Pair.{uusd}

deduct_tax_lem_example :
    deduct_tax sample_host (uusd 100_000) ≡ ok (record { denom = "uusd"; amount = 99_500 })
deduct_tax_lem_example =
    deduct_tax_lem sample_host sample_host-IsUint128 "uusd" 100_000 500
      (record { atomics = 10 ^ 16 }) refl refl refl (omega arith) (omega arith)

stored_run :
    traverse (info_to_raw sample_host) (token "coin" ∷ native_token "uusd" ∷ [])
    ≡ ok (token_raw (3 ∷ []) ∷ native_token_raw "uusd" ∷ [])
unfolding info_to_raw
stored_run = refl

-- ===== src/Asset/Raw.antt =====
-- The stored form of assets and pairs (packages/terraswap/src/asset.rs).
use terraswap.Prelude.{>>=-elim, List, [], ok, ok-injective, traverse, ◌∷◌, ◌≡◌}
use terraswap.Asset.{
  Asset, AssetInfo, AssetInfoRaw, AssetRaw, asset_to_normal, asset_to_raw, info_to_normal,
  info_to_raw, native_token, native_token_raw, token, token_raw,
}
use terraswap.Host.{Host, IsAddress}

module _ (h : Host) (laws : IsAddress h) where
  open laws use {humanize_lem}

  -- What is stored of an asset is read back as it was.
  pub info_to_normal-info_to_raw :
      (info : AssetInfo) (raw : AssetInfoRaw)
      → info_to_raw h info ≡ ok raw
      → info_to_normal h raw ≡ ok info
  unfolding info_to_raw info_to_normal
  info_to_normal-info_to_raw (native_token denom) raw e =
      rw (← ok-injective (native_token_raw denom) raw e)
  info_to_normal-info_to_raw (token contract_addr) raw e =
      >>=-elim (h.addr_canonicalize contract_addr) _ e
        λ c e₁ e₂. rw (← ok-injective (token_raw c) raw e₂) (rw (humanize_lem contract_addr c e₁))

  pub asset_to_normal-asset_to_raw :
      (asset : Asset) (raw : AssetRaw)
      → asset_to_raw h asset ≡ ok raw
      → asset_to_normal h raw ≡ ok asset
  unfolding asset_to_raw asset_to_normal
  asset_to_normal-asset_to_raw asset raw e = >>=-elim (info_to_raw h asset.info) _ e λ i e₁ e₂.
      rw (← ok-injective (record { info = i; amount = asset.amount }) raw e₂)
        (rw (info_to_normal-info_to_raw asset.info i e₁))

  -- A list of assets that was turned into its stored form is read back as it was, if addresses
  -- are.
  pub traverse-to_normal :
      (infos : List AssetInfo) (raws : List AssetInfoRaw)
      → traverse (info_to_raw h) infos ≡ ok raws
      → traverse (info_to_normal h) raws ≡ ok infos
  traverse-to_normal [] raws e = rw (← ok-injective [] raws e)
  traverse-to_normal (x ∷ xs) raws e = >>=-elim (info_to_raw h x) _ e λ r e₁ e₂.
      >>=-elim (traverse (info_to_raw h) xs) _ e₂ λ rs e₃ e₄.
        rw (← ok-injective (r ∷ rs) raws e₄)
          (rw (info_to_normal-info_to_raw x r e₁) (rw (traverse-to_normal xs rs e₃)))

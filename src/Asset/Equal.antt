-- ===== src/Asset/Equal.antt =====
-- The comparison of assets and the check of the coins sent (packages/terraswap/src/asset.rs).
use text.Mathlib.TextEquality.{eq_iff}
use terraswap.Prelude.{
  Bool-cases, Option, arith, false, inl, inr, none, ok, refl, some, true, ℕ, ◌↔◌, ◌≡◌, ◌≢◌,
}
use terraswap.Asset.{
  Asset, AssetInfo, assert_sent_native_token_balance, equal, find_coin, native_token, token,
}
use terraswap.Host.{Coin, MessageInfo}

-- `equal` holds of two assets exactly when they are the same one.
pub equal_iff : (a b : AssetInfo) → (equal a b ≡ true) ↔ (a ≡ b)
unfolding equal
equal_iff (token a) (token b) = ground (arith, eq_iff a b)
equal_iff (token a) (native_token b) = ground arith
equal_iff (native_token a) (token b) = ground arith
equal_iff (native_token a) (native_token b) = ground (arith, eq_iff a b)

pub equal_no : (a b : AssetInfo) → a ≢ b → equal a b ≡ false
equal_no a b ne = elim (Bool-cases (equal a b)) [
  | inl e ↦ absurd (ne ((equal_iff a b).0 e))
  | inr e ↦ e
]

pub equal_ne : (a b : AssetInfo) → equal a b ≡ false → a ≢ b
equal_ne a b e same = let yes' : equal a b ≡ true = (equal_iff a b).1 same in absurd (both e yes')
  where
    both : equal a b ≡ false → equal a b ≡ true → ⊥
    both e e' = absurd (cc)

-- The amount of a denomination among the coins sent: that of the first such coin, or 0.
abbrev pub sent_amount : Option Coin → ℕ
sent_amount none = 0
sent_amount (some coin) = coin.amount

-- What a sender must have sent for an amount of an asset: of a native coin just the amount.
abbrev pub IsCovered : AssetInfo → (amount : ℕ) → MessageInfo → Type 0
IsCovered (token contract_addr) amount message_info = Unit
IsCovered (native_token denom) amount message_info =
    amount ≡ sent_amount (find_coin message_info.funds denom)

sent_iff :
    (i : AssetInfo) (amount : ℕ) (message_info : MessageInfo)
    → (assert_sent_native_token_balance (record { info = i; amount = amount }) message_info ≡ ok tt)
      ↔ IsCovered i amount message_info
unfolding assert_sent_native_token_balance
sent_iff (token contract_addr) amount message_info = (λ _. tt, λ _. refl)
sent_iff (native_token denom) amount message_info = ground arith

-- The check passes exactly for a token, and for a native coin of which the amount that the asset
-- names is the amount of the first such coin sent, or 0 if there is none.
assert_sent_iff :
    (asset : Asset) (message_info : MessageInfo)
    → (assert_sent_native_token_balance asset message_info ≡ ok tt)
      ↔ IsCovered asset.info asset.amount message_info
assert_sent_iff asset message_info = sent_iff asset.info asset.amount message_info

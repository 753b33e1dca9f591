-- ===== src/Deprecated/Reserves.antt =====
-- How swaps, deposits and withdrawals of contracts/terraswap_pair_deprecated/src/contract.rs change
-- the balances of the pair, when the chain has carried out the messages that they return.
pub mod Worth
pub mod Handled
use terraswap.Prelude.{ok, ℕ, ◌+◌, ◌-◌, ◌<◌, ◌≡◌, ◌≤◌}
use terraswap.Checked.{u128}
use terraswap.Asset.{Asset, AssetInfo}
use terraswap.Deprecated.Bignum.{Bignum}
use terraswap.Deprecated.Price.{compute_swap}
use terraswap.Deprecated.Provide.{share_of}
use terraswap.Deprecated.Types.{Simulation}
use terraswap.Host.{Decimal, Host, decimal_one}
use terraswap.Stable.Withdraw.{refund_asset}

-- The two pools and the supply of the liquidity token.
pub record Reserves : Type 0 where
  pub first : ℕ
  pub second : ℕ
  pub total : ℕ

-- A swap pays the amount returned out of the other pool; the pools that it prices with add up to at
-- most 10^18. A deposit meets a supply that is not empty, and a withdrawal does not empty it. Anyone
-- may send coins to the pair.
pub data Trade (n : Bignum) (h : Host) (s : Reserves) : Reserves → Type 0 where
  sold_first :
      (offer : ℕ) {sim : Simulation}
      → s.first + offer ≤ decimal_one
      → compute_swap n s.first s.second offer ≡ ok sim
      → Trade n h s (record s { first = s.first + offer; second = s.second - sim.return_amount })
  sold_second :
      (offer : ℕ) {sim : Simulation}
      → s.second + offer ≤ decimal_one
      → compute_swap n s.second s.first offer ≡ ok sim
      → Trade n h s (record s { first = s.first - sim.return_amount; second = s.second + offer })
  provided :
      (d0 d1 : ℕ) {share : ℕ}
      → 0 < s.total
      → share_of n h s.total (d0, d1) (s.first, s.second) ≡ ok share
      → Trade n h s
          (record { first = s.first + d0; second = s.second + d1; total = s.total + share })
  withdrawn :
      (amount : ℕ) (a b : AssetInfo) {ratio : Decimal} {first second : Asset}
      → amount < s.total
      → s.first < u128
      → s.second < u128
      → h.from_ratio amount s.total ≡ ok ratio
      → refund_asset h ratio (record { info = a; amount = s.first }) ≡ ok first
      → refund_asset h ratio (record { info = b; amount = s.second }) ≡ ok second
      → Trade n h s (record {
        first = s.first - first.amount;
        second = s.second - second.amount;
        total = s.total - amount;
      })
  donated : (d0 d1 : ℕ) → Trade n h s (record s { first = s.first + d0; second = s.second + d1 })

-- Any number of them, in any order.
pub data Trades (n : Bignum) (h : Host) (s : Reserves) : Reserves → Type 0 where
  start : Trades n h s s
  later : {t u : Reserves} → Trades n h s t → Trade n h t u → Trades n h s u

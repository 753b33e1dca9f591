-- ===== src/Host/Sums.antt =====
-- What the sums of `cosmwasm_std` are, when they have a result.
use terraswap.Prelude.{arith, ok, ℕ, ◌+◌, ◌-◌, ◌≡◌, ◌≤◌}
use terraswap.Host.{Host, IsUint128}

module _ (h : Host) (laws : IsUint128 h) where
  open laws use {checked_sub_lem, add_lem}

  pub host_sub-eq-ok : (a b : ℕ) {r : ℕ} → h.uint_checked_sub a b ≡ ok r → (b ≤ a) × (r ≡ a - b)
  host_sub-eq-ok a b {r} e = let e' = rw (checked_sub_lem a b) at e in ground (arith, e')

  pub host_add-eq-ok : (a b : ℕ) {r : ℕ} → h.uint_add a b ≡ ok r → r ≡ a + b
  host_add-eq-ok a b {r} e = let e' = rw (add_lem a b) at e in ground (arith, e')

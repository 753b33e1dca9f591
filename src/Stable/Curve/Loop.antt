-- ===== src/Stable/Curve/Loop.antt =====
-- How the loop of the solvers in contracts/terraswap_stable/src/curve.rs ends.
use terraswap.Prelude.{
  >>=-eq-ok, Try, arith, false, inl, inr, ok, suc, true, zero, ℕ, ◌+◌, ◌>>=◌, ◌∙◌, ◌≡◌, ◌≤◌, ◌⊎◌,
}
use terraswap.Checked.{checked_sub}
use terraswap.Stable.Curve.{is_close, iterate}

-- So many rounds with no test between them.
unfoldable pub rounds : ℕ → (ℕ → Try ℕ) → ℕ → Try ℕ
rounds zero step d = ok d
rounds (suc n) step d = do d' ← step d; rounds n step d'

-- The test passes exactly when the two values differ by at most 1, and it never fails.
pub is_close_lem :
    (d p : ℕ)
    → (is_close d p ≡ ok true) × (d ≤ p + 1) × (p ≤ d + 1)
      ⊎ (is_close d p ≡ ok false) × ¬ ((d ≤ p + 1) × (p ≤ d + 1))
unfolding is_close checked_sub
is_close_lem d p = ground arith

module _ (step : ℕ → Try ℕ) where
  -- What a loop of `n + 1` rounds from `d` has reached: `r` is a round's result from some `p`, and
  -- the round changed the value by at most 1, or it was the last.
  abbrev pub Reached : ℕ → ℕ → ℕ → Type 0
  Reached n d r =
      (p : ℕ) × (step p ≡ ok r) × (((r ≤ p + 1) × (p ≤ r + 1)) ⊎ (rounds (suc n) step d ≡ ok r))

  first_round :
      (n d : ℕ) {r : ℕ}
      → iterate (suc n) step d ≡ ok r
      → (d' : ℕ) × (step d ≡ ok d')
        × ((d' ≡ r) × (d' ≤ d + 1) × (d ≤ d' + 1) ⊎ (iterate n step d' ≡ ok r))
  unfolding iterate
  first_round n d {r} h =
      let (d', e, h₁) = >>=-eq-ok (step d) _ h in
      elim (is_close_lem d' d) [
        | inl near ↦
            let same : ok d' ≡ ok r = rw near.0 at h₁ in (d', e, inl (ground arith, near.1, near.2))
        | inr far ↦ (d', e, inr (rw far.0 at h₁))
      ]

  pub iterate-Reached : (n d : ℕ) {r : ℕ} → iterate (suc n) step d ≡ ok r → Reached n d r
  unfolding iterate rounds
  iterate-Reached zero d {r} h =
      let (d', e, next) = first_round zero d h in
      elim next [
        | inl (same, up, down) ↦ (d, rw same at e, inl (ground arith))
        | inr last ↦ (d, e ∙ last, inr (rw e last))
      ]
  iterate-Reached (suc m) d {r} h =
      let (d', e, next) = first_round (suc m) d h in
      elim next [
        | inl (same, up, down) ↦ (d, rw same at e, inl (ground arith))
        | inr more ↦ extend d' e (iterate-Reached m d' more)
      ]
    where
      extend : (d' : ℕ) → step d ≡ ok d' → Reached m d' r → Reached (suc m) d r
      extend d' e (p, last, inl near) = (p, last, inl near)
      extend d' e (p, last, inr all) = (p, last, inr (rw e all))

-- ===== src/Stable/Curve/Coins.antt =====
-- The loops of `get_y` and `get_y_d` over the coins (contracts/terraswap_stable/src/curve.rs).
use terraswap.Prelude.{
  List, [], arith, length-set, nat_beq_refl, ne→nat_beq, none, refl, set, suc, zero, ℕ, ◌+◌, ◌<◌,
  ◌>>=◌, ◌∷◌, ◌≡◌, ◌≢◌,
}
use terraswap.Stable.Curve.{
  Curve, coins_except, coins_with, get_d, get_y, get_y_d, y_d_equation, y_equation,
}

-- Beyond coin `i` the two loops do the same.
coins_with_past :
    (n i j x d k : ℕ) (balances : List ℕ)
    → i < k
    → (acc : ℕ × ℕ) → coins_with n i j x d k balances acc ≡ coins_except n j d k balances acc
unfolding coins_with coins_except
coins_with_past n i j x d k [] h acc = refl
coins_with_past n i j x d k (a ∷ rest) h acc =
    simp (ne→nat_beq k i (omega arith), coins_with_past n i j x d (suc k) rest (omega arith))

-- The loop of `get_y` is the loop of `get_y_d` on the balances with `x` for coin `i`.
coins_with-eq-coins_except :
    (n i j x d k i' : ℕ) (balances : List ℕ)
    → i' ≡ k + i
    → i' ≢ j
    → (acc : ℕ × ℕ)
    → coins_with n i' j x d k balances acc ≡ coins_except n j d k (set balances i x) acc
unfolding coins_with coins_except
coins_with-eq-coins_except n i j x d k i' [] e h acc = refl
coins_with-eq-coins_except n zero j x d k i' (a ∷ rest) e h acc =
    let here : k ≡ i' = omega arith in
    simp (
      here,
      nat_beq_refl i',
      ne→nat_beq i' j h,
      coins_with_past n i' j x d (suc i') rest (omega arith),
    )
coins_with-eq-coins_except n (suc i) j x d k i' (a ∷ rest) e h acc = simp (
  ne→nat_beq k i' (omega arith),
  coins_with-eq-coins_except n i j x d (suc k) i' rest (omega arith) h,
)

-- For two different coins, `get_y` is `get_y_d` for the invariant of the balances, on the
-- balances with `x` in the place of coin `i`.
get_y-eq-get_y_d :
    (curve : Curve) (i j x : ℕ) (balances : List ℕ)
    → i ≢ j
    → get_y curve i j x balances
      ≡ (get_d curve balances none >>= λ d. get_y_d curve j (set balances i x) d)
unfolding get_y get_y_d y_equation y_d_equation
get_y-eq-get_y_d curve i j x balances h = simp (length-set balances i x, same)
  where
    same :
        (n d : ℕ)
        → coins_with n i j x d 0 balances (0, d) ≡ coins_except n j d 0 (set balances i x) (0, d)
    same n d = coins_with-eq-coins_except n i j x d 0 i balances (omega arith) h (0, d)

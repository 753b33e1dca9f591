-- ===== src/Factory/Key.antt =====
-- The key of a pair in contracts/terraswap_factory/src/state.rs.
use terraswap.Prelude.{
  Bool-cases, List, String, [], arith, false, inl, inr, length, refl, sym, true, ℕ, ◌++◌, ◌↔◌, ◌∙◌,
  ◌∷◌, ◌≡◌, ◌⊎◌,
}
use terraswap.Asset.{AssetInfoRaw, token_raw}
use terraswap.Factory.{as_bytes, bytes_lt, pair_key}

bytes_lt_asym : (xs ys : List ℕ) → bytes_lt xs ys ≡ true → bytes_lt ys xs ≡ false
unfolding bytes_lt
bytes_lt_asym [] [] e = refl
bytes_lt_asym [] (y ∷ ys) e = refl
bytes_lt_asym (x ∷ xs) [] e = absurd (ground arith)
bytes_lt_asym (x ∷ xs) (y ∷ ys) e = ground (arith, bytes_lt_asym xs ys)

bytes_lt_total : (xs ys : List ℕ) → bytes_lt xs ys ≡ false → bytes_lt ys xs ≡ false → xs ≡ ys
unfolding bytes_lt
bytes_lt_total [] [] e e' = refl
bytes_lt_total [] (y ∷ ys) e e' = absurd (ground arith)
bytes_lt_total (x ∷ xs) [] e e' = absurd (ground arith)
bytes_lt_total (x ∷ xs) (y ∷ ys) e e' =
    let same : x ≡ y = ground arith in
    let rest : xs ≡ ys = bytes_lt_total xs ys (ground arith) (ground arith) in rw (same, rest) refl

-- The key of a pair does not depend on the order in which its assets are named.
pub pair_key_comm :
    (utf8 : String → List ℕ) (a b : AssetInfoRaw) → pair_key utf8 a b ≡ pair_key utf8 b a
unfolding pair_key
pair_key_comm utf8 a b =
    let x = as_bytes utf8 a in
    let y = as_bytes utf8 b in
    elim (Bool-cases (bytes_lt x y)) [
      | inl lt ↦ rw (lt, bytes_lt_asym x y lt) refl
      | inr ge ↦ elim (Bool-cases (bytes_lt y x)) [
        | inl gt ↦ rw (ge, gt) refl
        | inr le ↦ rw (ge, le, bytes_lt_total x y ge le) refl
      ]
    ]

-- Lists that begin with as many elements split alike.
append-injective :
    (a b c d : List ℕ) → length a ≡ length c → (a ++ b) ≡ (c ++ d) → (a ≡ c) × (b ≡ d)
append-injective [] b [] d size e = (refl, e)
append-injective [] b (y ∷ c) d size e = absurd (omega (arith, size))
append-injective (x ∷ a) b [] d size e = absurd (omega (arith, size))
append-injective (x ∷ a) b (y ∷ c) d size e =
    let (same, rest) = cons_lem x y (a ++ b) (c ++ d) e in
    let (e₁, e₂) = append-injective a b c d (omega (arith, size)) rest in (rw (same, e₁) refl, e₂)
  where
    cons_lem : (x y : ℕ) (xs ys : List ℕ) → (x ∷ xs) ≡ (y ∷ ys) → (x ≡ y) × (xs ≡ ys)
    cons_lem x y xs ys e = (cc, cc)

-- The key is that of the two assets in one of the orders.
pair_key-cases :
    (utf8 : String → List ℕ) (a b : AssetInfoRaw)
    → (pair_key utf8 a b ≡ as_bytes utf8 a ++ as_bytes utf8 b)
      ⊎ (pair_key utf8 a b ≡ as_bytes utf8 b ++ as_bytes utf8 a)
unfolding pair_key
pair_key-cases utf8 a b = elim (Bool-cases (bytes_lt (as_bytes utf8 b) (as_bytes utf8 a))) [
  | inl e ↦ inr (rw e refl)
  | inr e ↦ inl (rw e refl)
]

-- Two pairs of tokens, whose canonical addresses all have one length, have the same key exactly
-- if they are the same two tokens in either order.
pub pair_key_iff :
    (utf8 : String → List ℕ) (a b c d : List ℕ)
    → length b ≡ length a
    → length c ≡ length a
    → length d ≡ length a
    → (pair_key utf8 (token_raw a) (token_raw b) ≡ pair_key utf8 (token_raw c) (token_raw d))
      ↔ (((a ≡ c) × (b ≡ d)) ⊎ ((a ≡ d) × (b ≡ c)))
unfolding as_bytes
pair_key_iff utf8 a b c d size_b size_c size_d = (forth, back)
  where
    key : List ℕ → List ℕ → List ℕ
    key x y = pair_key utf8 (token_raw x) (token_raw y)

    same : (k l : List ℕ) → key a b ≡ k → key c d ≡ l → key a b ≡ key c d → k ≡ l
    same k l e e' both = sym e ∙ both ∙ e'

    forth : key a b ≡ key c d → ((a ≡ c) × (b ≡ d)) ⊎ ((a ≡ d) × (b ≡ c))
    forth both = elim (pair_key-cases utf8 (token_raw a) (token_raw b)) [
      | inl e ↦ elim (pair_key-cases utf8 (token_raw c) (token_raw d)) [
        | inl e' ↦ inl (append-injective a b c d (sym size_c) (same (a ++ b) (c ++ d) e e' both))
        | inr e' ↦ inr (append-injective a b d c (sym size_d) (same (a ++ b) (d ++ c) e e' both))
      ]
      | inr e ↦ elim (pair_key-cases utf8 (token_raw c) (token_raw d)) [
        | inl e' ↦
            let (x, y) =
              append-injective b a c d (size_b ∙ sym size_c) (same (b ++ a) (c ++ d) e e' both) in
            inr (y, x)
        | inr e' ↦
            let (x, y) =
              append-injective b a d c (size_b ∙ sym size_d) (same (b ++ a) (d ++ c) e e' both) in
            inl (y, x)
      ]
    ]

    back : ((a ≡ c) × (b ≡ d)) ⊎ ((a ≡ d) × (b ≡ c)) → key a b ≡ key c d
    back (inl (e, e')) = rw (e, e') refl
    back (inr (e, e')) = rw (e, e') (pair_key_comm utf8 (token_raw d) (token_raw c))

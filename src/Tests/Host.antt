-- ===== src/Tests/Host.antt =====
-- A chain with three known addresses, and what its libraries answer.
use text.Mathlib.TextEquality.{eq_iff}
use terraswap.Prelude.{
  Bool-cases, String, [], ap, arith, err, if◌then◌else◌, inl, inr, leb, list_beq_iff, list_eq, ltb,
  lt→ltb, nat_beq, nat_eq, ne→nat_beq, ok, ok-injective, panic, refl, string_eq, sym, ℕ, ◌*◌, ◌+◌,
  ◌-◌, ◌/◌, ◌<◌, ◌==◌, ◌>>=◌, ◌^◌, ◌∷◌, ◌≡◌,
}
use terraswap.Checked.{u128}
use terraswap.Host.{
  Addr, CanonicalAddr, Decimal, Host, IsAddress, IsCanonical, IsUint128, StdResult, decimal_one,
  operands_overflow, other,
}

abbrev canonical_of : String → StdResult CanonicalAddr
canonical_of a =
    if a == "pair"
    then ok (1 ∷ [])
    else if a == "lp"
    then ok (2 ∷ [])
    else if a == "coin"
    then ok (3 ∷ [])
    else err (other 0)

abbrev human_of : CanonicalAddr → StdResult Addr
human_of c =
    if c == (1 ∷ [])
    then ok "pair"
    else if c == (2 ∷ [])
    then ok "lp"
    else if c == (3 ∷ [])
    then ok "coin"
    else err (other 0)

-- A result that panics where it does not fit 128 bits.
abbrev uint128 : ℕ → StdResult ℕ
uint128 x = if ltb x u128 then ok x else panic

abbrev ratio : ℕ → ℕ → ℕ → StdResult ℕ
ratio a n d = if nat_beq d 0 then panic else uint128 (a * n / d)

abbrev decimal_ratio : ℕ → ℕ → StdResult Decimal
decimal_ratio n d = ratio n decimal_one d >>= λ atomics. ok (record { atomics = atomics })

-- Both pools hold 1_000_000, and 2_000_000 liquidity tokens are out. The tax is 1 % and at most 500.
abbrev pub sample_host : Host
sample_host = record {
  addr_validate = λ a. ok a;
  addr_canonicalize = canonical_of;
  addr_humanize = human_of;
  bank_balance = λ _ _. ok 1_000_000;
  cw20_balance = λ _ _. ok 1_000_000;
  cw20_total_supply = λ _. ok 2_000_000;
  query_tax_rate = ok (record { atomics = 10 ^ 16 });
  query_tax_cap = λ _. ok 500;
  uint_checked_sub = λ a b. if leb b a then ok (a - b) else err operands_overflow;
  uint_add = λ a b. uint128 (a + b);
  multiply_ratio = ratio;
  from_ratio = decimal_ratio;
  uint_mul_decimal = λ a r. uint128 (a * r.atomics / decimal_one);
}

ratio-eq-ok : (a n d : ℕ) → 0 < d → a * n / d < u128 → ratio a n d ≡ ok (a * n / d)
ratio-eq-ok a n d pos small = rw (ne→nat_beq d 0 (omega arith)) (rw (lt→ltb (a * n / d) u128 small))

ratio_value : (a n d : ℕ) {r : ℕ} → ratio a n d ≡ ok r → (0 < d) × (r ≡ a * n / d)
ratio_value a n d e = ground arith

pub sample_host-IsUint128 : IsUint128 sample_host
sample_host-IsUint128 = record {
  checked_sub_lem = λ a b. refl;
  add_lem = λ a b. refl;
  multiply_ratio_lem = ratio-eq-ok;
  multiply_ratio-eq-ok = ratio_value;
  from_ratio_lem = λ n d pos small. rw (ratio-eq-ok n decimal_one d pos small);
  mul_decimal_lem = λ a r small. rw (lt→ltb (a * r.atomics / decimal_one) u128 small);
}

-- Each address that has a canonical form is the text that it is read back as.
pub sample_host-IsAddress : IsAddress sample_host
sample_host-IsAddress = record { humanize_lem = read_back }
  where
    read_back : (a : String) (c : CanonicalAddr) → canonical_of a ≡ ok c → human_of c ≡ ok a
    read_back a c e = elim (Bool-cases (a == "pair")) [
      | inl y ↦ rw (← ok-injective (1 ∷ []) c (rw y at e)) (ap ok (sym ((eq_iff a "pair").0 y)))
      | inr n ↦ elim (Bool-cases (a == "lp")) [
        | inl y ↦
            rw (← ok-injective (2 ∷ []) c (rw (n, y) at e)) (ap ok (sym ((eq_iff a "lp").0 y)))
        | inr n' ↦ elim (Bool-cases (a == "coin")) [
          | inl y ↦
              rw (← ok-injective (3 ∷ []) c (rw (n, n', y) at e))
                (ap ok (sym ((eq_iff a "coin").0 y)))
          | inr n'' ↦ absurd (ground (arith, rw (n, n', n'') at e))
        ]
      ]
    ]

pub sample_host-IsCanonical : IsCanonical sample_host
sample_host-IsCanonical = record { canonicalize_lem = read_back }
  where
    read_back : (c : CanonicalAddr) (a : Addr) → human_of c ≡ ok a → canonical_of a ≡ ok c
    read_back c a e = elim (Bool-cases (c == (1 ∷ []))) [
      | inl y ↦
          rw (← ok-injective "pair" a (rw y at e)) (ap ok (sym ((list_beq_iff c (1 ∷ [])).0 y)))
      | inr n ↦ elim (Bool-cases (c == (2 ∷ []))) [
        | inl y ↦
            rw (← ok-injective "lp" a (rw (n, y) at e))
              (ap ok (sym ((list_beq_iff c (2 ∷ [])).0 y)))
        | inr n' ↦ elim (Bool-cases (c == (3 ∷ []))) [
          | inl y ↦
              rw (← ok-injective "coin" a (rw (n, n', y) at e))
                (ap ok (sym ((list_beq_iff c (3 ∷ [])).0 y)))
          | inr n'' ↦ absurd (ground (arith, rw (n, n', n'') at e))
        ]
      ]
    ]

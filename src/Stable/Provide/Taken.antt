-- ===== src/Stable/Provide/Taken.antt =====
-- What the loops of `provide_liquidity` in contracts/terraswap_stable/src/contract.rs make of the
-- assets given and the pools.
use terraswap.Prelude.{
  >>=-elim, List, Outcome, String, [], arith, assert_that, assert_that-eq-ok, map_err-eq-ok, ok,
  ok-injective, panic, refl, sym, unwrap, unwrap-eq-ok, ℕ, ◌++◌, ◌+◌, ◌<◌, ◌∷◌, ◌≡◌,
}
use terraswap.Checked.{checked_add, checked_add-eq-ok, u128}
use terraswap.Asset.{
  Asset, AssetInfo, CosmosMsg, Cw20ExecuteMsg, equal, native_token, token, transfer_from,
  wasm_execute,
}
use terraswap.Asset.Equal.{equal_iff}
use terraswap.Host.{Host, IsUint128}
use terraswap.Host.Sums.{host_sub-eq-ok}
use terraswap.Stable.Provide.{add_deposits, match_deposits, take_deposit, take_deposits}
use terraswap.Stable.Types.{ContractError, from_overflow, overflow_error}

-- The pool before a deposit of `paid` and the messages that bring the deposit in. A token is
-- transferred from the sender, and of a native coin the pool already holds the deposit.
abbrev pub IsPaidIn :
    (sender contract : String)
    → (paid : ℕ) → AssetInfo
    → (amount : ℕ) → (before : Asset) → List (CosmosMsg Cw20ExecuteMsg)
    → Type 0
IsPaidIn sender contract paid (token contract_addr) amount before messages =
    (before ≡ record { info = token contract_addr; amount = amount })
    × (messages ≡ wasm_execute contract_addr (transfer_from sender contract paid) [] ∷ [])
IsPaidIn sender contract paid (native_token denom) amount before messages =
    (before.info ≡ native_token denom) × (amount ≡ before.amount + paid) × (messages ≡ [])

-- The assets given are those of the pools, as many and in their order. `transfers` brings them in,
-- `before` are the pools without them, and `balances`, which fit 128 bits, those with them.
abbrev pub IsTaken :
    (sender contract : String)
    → (assets pools : List Asset) → List (CosmosMsg Cw20ExecuteMsg)
    → (before : List Asset) → (balances : List ℕ) → Type 0
IsTaken sender contract [] [] transfers before balances =
    (transfers ≡ []) × (before ≡ []) × (balances ≡ [])
IsTaken sender contract [] (pool ∷ pools) transfers before balances = ⊥
IsTaken sender contract (given ∷ assets) [] transfers before balances = ⊥
IsTaken sender contract (given ∷ assets) (pool ∷ pools) transfers before balances =
    (first rest : List (CosmosMsg Cw20ExecuteMsg)) × (old : Asset) × (olds : List Asset)
    × (news : List ℕ) × (given.info ≡ pool.info)
    × IsPaidIn sender contract given.amount pool.info pool.amount old first
    × (old.amount + given.amount < u128)
    × (transfers ≡ first ++ rest)
    × (before ≡ old ∷ olds)
    × (balances ≡ (old.amount + given.amount) ∷ news)
    × IsTaken sender contract assets pools rest olds news

module _ (h : Host) (laws : IsUint128 h) (sender contract : String) where
  paid_lem :
      (info : AssetInfo) (amount paid : ℕ) {taken : List (CosmosMsg Cw20ExecuteMsg) × Asset}
      → take_deposit h sender contract (record { info = info; amount = amount }) paid ≡ ok taken
      → IsPaidIn sender contract paid info amount taken.1 taken.0
  unfolding take_deposit
  paid_lem (token contract_addr) amount paid {taken} e =
      rw (← ok-injective {E = ContractError} _ taken e) (refl, refl)
  paid_lem (native_token denom) amount paid {taken} e =
      >>=-elim (from_overflow (h.uint_checked_sub amount paid)) _ e λ left e₁ e₂.
        let (le, rest) =
          host_sub-eq-ok h laws amount paid
            (map_err-eq-ok overflow_error (h.uint_checked_sub amount paid) e₁) in
        rw (← ok-injective {E = ContractError} _ taken e₂) (refl, omega (arith, le, rest), refl)

  -- Taken.
  pub taken_lem :
      (assets pools : List Asset) (deposits : List ℕ)
      (taken : List (CosmosMsg Cw20ExecuteMsg) × List Asset) (balances : List ℕ)
      → match_deposits assets pools ≡ ok deposits
      → take_deposits h sender contract pools deposits ≡ ok taken
      → add_deposits taken.1 deposits ≡ ok balances
      → IsTaken sender contract assets pools taken.0 taken.1 balances
  unfolding match_deposits take_deposits add_deposits
  taken_lem [] [] deposits taken balances e₁ e₂ e₃ =
      let same : ([], []) ≡ taken = ok-injective {E = ContractError} _ taken e₂ in
      let e₄ = rw (← same) at e₃ in
      rw (← same) (refl, refl, sym (ok-injective {E = ContractError} _ balances e₄))
  taken_lem [] (pool ∷ pools) deposits taken balances e₁ e₂ e₃ =
      let same : [] ≡ deposits = ok-injective {E = ContractError} _ deposits e₁ in
      absurd (no_deposit pool.info (rw (← same) at e₂))
    where
      no_deposit :
          (info : AssetInfo)
          → ◌≡◌ {A = Outcome ContractError (List (CosmosMsg Cw20ExecuteMsg) × List Asset)}
              (elim info [ token contract_addr ↦ panic | native_token denom ↦ panic ])
              (ok taken)
          → ⊥
      no_deposit (token contract_addr) e = absurd (cc)
      no_deposit (native_token denom) e = absurd (cc)
  taken_lem (given ∷ assets) [] deposits taken balances e₁ e₂ e₃ = absurd (cc)
  taken_lem (given ∷ assets) (pool ∷ pools) deposits taken balances e₁ e₂ e₃ =
      >>=-elim (assert_that (equal given.info pool.info)) _ e₁ λ _ a₁ a₂.
        >>=-elim (match_deposits assets pools) _ a₂ λ ds matched a₃.
          let same : given.amount ∷ ds ≡ deposits =
            ok-injective {E = ContractError} _ deposits a₃ in
          let b₁ = rw (← same) at e₂ in
          >>=-elim (take_deposit h sender contract pool given.amount) _ b₁ λ first paid b₂.
            >>=-elim (take_deposits h sender contract pools ds) _ b₂ λ rest took b₃.
              let same_taken : (first.0 ++ rest.0, first.1 ∷ rest.1) ≡ taken =
                ok-injective {E = ContractError} _ taken b₃ in
              let c₁ = rw (← same_taken) at (rw (← same) at e₃) in
              >>=-elim (unwrap (checked_add u128 first.1.amount given.amount)) _ c₁ λ new added c₂.
                >>=-elim (add_deposits rest.1 ds) _ c₂ λ news further c₃.
                  let (sum, small) =
                    checked_add-eq-ok u128 first.1.amount given.amount (unwrap-eq-ok _ added) in
                  let same_balances : new ∷ news ≡ balances =
                    ok-injective {E = ContractError} _ balances c₃ in
                  rw (← same_taken) (
                    first.0,
                    rest.0,
                    first.1,
                    rest.1,
                    news,
                    (equal_iff given.info pool.info).0 (assert_that-eq-ok _ a₁),
                    paid_lem pool.info pool.amount given.amount paid,
                    rw (← sum) small,
                    refl,
                    refl,
                    rw (← sum) (sym same_balances),
                    taken_lem assets pools ds rest news matched took further,
                  )

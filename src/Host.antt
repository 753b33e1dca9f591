-- ===== src/Host.antt =====
-- What the contracts take from outside the repository: addresses, queries and the numbers of
-- `cosmwasm_std`, the balances and supplies that other contracts report, and the tax that the chain
-- reports. Each is a field of `Host`, an argument of the functions that use it. The laws that the
-- documentation of `cosmwasm_std` states for `Uint128` and `Decimal` are the fields of `IsUint128`,
-- and those of the address conversions the fields of `IsAddress`.
pub mod Sums
use terraswap.Prelude.{
  List, Outcome, String, err, if◌then◌else◌, leb, ltb, ok, panic, ℕ, ◌*◌, ◌+◌, ◌-◌, ◌/◌, ◌<◌, ◌^◌,
  ◌≡◌,
}
use terraswap.Checked.{u128}

-- The operands that the library keeps with the error are not modelled.
pub data OverflowError : Type 0 where
  operands_overflow : OverflowError

-- `other` stands for every error of the host that the contracts only pass on.
pub data StdError : Type 0 where
  generic_err : String → StdError
  parse_err : String → String → StdError
  not_found : StdError
  overflow : OverflowError → StdError
  other : ℕ → StdError

abbrev pub StdResult {κ} : Type κ → Type κ
StdResult A = Outcome StdError A

-- `Addr` and `String`: an address is the text that it wraps.
abbrev pub Addr : Type 0
Addr = String

-- The bytes of an address in its canonical form.
abbrev pub CanonicalAddr : Type 0
CanonicalAddr = List ℕ

-- `Uint128` is a number below 2^128. `Decimal` is a number of units of 10^-18.
pub record Decimal : Type 0 where
  pub atomics : ℕ

pub record Coin : Type 0 where
  pub denom : String
  pub amount : ℕ

pub record MessageInfo : Type 0 where
  pub sender : Addr
  pub funds : List Coin

pub record Env : Type 0 where
  pub contract_address : Addr

pub record Host : Type 0 where
  -- `Api`
  pub addr_validate : String → StdResult Addr
  pub addr_canonicalize : String → StdResult CanonicalAddr
  pub addr_humanize : CanonicalAddr → StdResult Addr
  -- `BankQuery::Balance`, `Cw20QueryMsg::Balance` and `Cw20QueryMsg::TokenInfo`
  pub bank_balance : (address denom : String) → StdResult ℕ
  pub cw20_balance : (contract_addr address : String) → StdResult ℕ
  pub cw20_total_supply : (contract_addr : String) → StdResult ℕ
  -- `TerraQuerier`
  pub query_tax_rate : StdResult Decimal
  pub query_tax_cap : String → StdResult ℕ
  -- `Uint128::checked_sub`, `Uint128 + Uint128`, `Uint128::multiply_ratio`, `Decimal::from_ratio` and
  -- `Uint128 * Decimal`
  pub uint_checked_sub : ℕ → ℕ → Outcome OverflowError ℕ
  pub uint_add : ℕ → ℕ → StdResult ℕ
  pub multiply_ratio : ℕ → ℕ → ℕ → StdResult ℕ
  pub from_ratio : ℕ → ℕ → StdResult Decimal
  pub uint_mul_decimal : ℕ → Decimal → StdResult ℕ

abbrev pub decimal_one : ℕ
decimal_one = 10 ^ 18

-- `checked_sub` fails below zero. The other operations panic where the result does not fit 128 bits
-- or the divisor is zero; what they round, they round down.
pub record IsUint128 (h : Host) : Type 0 where
  pub checked_sub_lem :
      (a b : ℕ) → h.uint_checked_sub a b ≡ (if leb b a then ok (a - b) else err operands_overflow)
  pub add_lem : (a b : ℕ) → h.uint_add a b ≡ (if ltb (a + b) u128 then ok (a + b) else panic)
  pub multiply_ratio_lem :
      (a n d : ℕ) → 0 < d → a * n / d < u128 → h.multiply_ratio a n d ≡ ok (a * n / d)
  pub multiply_ratio-eq-ok :
      (a n d : ℕ) {r : ℕ} → h.multiply_ratio a n d ≡ ok r → (0 < d) × (r ≡ a * n / d)
  pub from_ratio_lem :
      (n d : ℕ)
      → 0 < d
      → n * decimal_one / d < u128
      → h.from_ratio n d ≡ ok (record { atomics = n * decimal_one / d })
  pub mul_decimal_lem :
      (a : ℕ) (r : Decimal)
      → a * r.atomics / decimal_one < u128
      → h.uint_mul_decimal a r ≡ ok (a * r.atomics / decimal_one)

-- An address in its canonical form is read back as it was.
pub record IsAddress (h : Host) : Type 0 where
  pub humanize_lem :
      (a : String) (c : CanonicalAddr) → h.addr_canonicalize a ≡ ok c → h.addr_humanize c ≡ ok a

-- And an address that is read from a canonical form has that form.
pub record IsCanonical (h : Host) : Type 0 where
  pub canonicalize_lem :
      (c : CanonicalAddr) (a : Addr) → h.addr_humanize c ≡ ok a → h.addr_canonicalize a ≡ ok c

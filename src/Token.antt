-- ===== src/Token.antt =====
-- packages/terraswap/src/token.rs and contracts/terraswap_token/src/contract.rs: the token contract's
-- instantiation. A name or symbol is its UTF-8 bytes. `set_contract_version` and `create_accounts` of
-- the libraries are arguments.
pub mod Checks
use Prim.Native.Char.{code}
use terraswap.Prelude.{
  Bool, List, Option, String, [], ensure, err, false, if◌then◌else◌, length, list_eq, ltb, nat_eq,
  none, not, ok, some, string_eq, true, ℕ, ◌&&◌, ◌==◌, ◌>>=◌, ◌>>◌, ◌||◌, ◌∷◌,
}
use terraswap.Host.{CanonicalAddr, Host, StdResult, generic_err}

pub record Cw20Coin : Type 0 where
  pub address : String
  pub amount : ℕ

pub record MinterResponse : Type 0 where
  pub minter : String
  pub cap : Option ℕ

pub record TokenInstantiateMsg : Type 0 where
  pub name : List ℕ
  pub symbol : List ℕ
  pub decimals : ℕ
  pub initial_balances : List Cw20Coin
  pub mint : Option MinterResponse

-- The bytes of an ASCII literal.
abbrev pub ascii : String → List ℕ
ascii String.[] = []
ascii (String.◌∷◌ c s) = code c ∷ ascii s

unfoldable pub get_cap : TokenInstantiateMsg → Option ℕ
get_cap msg = elim (msg.mint) [ none ↦ none | some m ↦ m.cap ]

unfoldable pub is_valid_name : List ℕ → Bool
is_valid_name bytes = if ltb (length bytes) 3 || ltb 50 (length bytes) then false else true

-- The loop over the bytes of a symbol: `-`, `A` to `Z` and `a` to `z` pass.
unfoldable pub all_symbol_bytes : List ℕ → Bool
all_symbol_bytes [] = true
all_symbol_bytes (byte ∷ rest) =
    if not (byte == 45) && ((ltb byte 65 || ltb 90 byte) && (ltb byte 97 || ltb 122 byte))
    then false
    else all_symbol_bytes rest

unfoldable pub is_valid_symbol : List ℕ → Bool
is_valid_symbol bytes =
    if ltb (length bytes) 3 || ltb 12 (length bytes) then false else all_symbol_bytes bytes

unfoldable pub validate : TokenInstantiateMsg → StdResult (Unit {0})
validate msg = do
  ensure (is_valid_name msg.name)
      (generic_err "Name is not in the expected format (3-50 UTF-8 bytes)")
  ensure (is_valid_symbol msg.symbol)
      (generic_err "Ticker symbol is not in expected format [a-zA-Z\\-]{3,12}")
  if ltb 18 msg.decimals then err (generic_err "Decimals must not exceed 18") else ok tt

pub record MinterData : Type 0 where
  pub minter : CanonicalAddr
  pub cap : Option ℕ

pub record TokenInfo : Type 0 where
  pub name : List ℕ
  pub symbol : List ℕ
  pub decimals : ℕ
  pub total_supply : ℕ
  pub mint : Option MinterData

-- `total_supply > limit`, where the message sets a limit.
unfoldable pub above_cap : Option ℕ → ℕ → Bool
above_cap none total_supply = false
above_cap (some limit) total_supply = ltb limit total_supply

unfoldable pub minter_data : Host → Option MinterResponse → StdResult (Option MinterData)
minter_data h none = ok none
minter_data h (some m) = do
  minter ← h.addr_canonicalize m.minter
  ok (some (record { minter = minter; cap = m.cap }))

-- The token info that `instantiate` stores.
unfoldable pub instantiate :
    Host
    → (set_contract_version : StdResult (Unit {0}))
    → (create_accounts : List Cw20Coin → StdResult ℕ) → TokenInstantiateMsg
    → StdResult TokenInfo
instantiate h set_contract_version create_accounts msg = do
  set_contract_version
  validate msg
  total_supply ← create_accounts msg.initial_balances
  ensure (not (above_cap (get_cap msg) total_supply))
      (generic_err "Initial supply greater than cap")
  mint ← minter_data h msg.mint
  ok (record {
    name = msg.name;
    symbol = msg.symbol;
    decimals = msg.decimals;
    total_supply = total_supply;
    mint = mint;
  })

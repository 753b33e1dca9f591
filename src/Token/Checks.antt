-- ===== src/Token/Checks.antt =====
-- What the token contract's `instantiate` accepts (packages/terraswap/src/token.rs and
-- contracts/terraswap_token/src/contract.rs).
use terraswap.Prelude.{All, Option, length, none, ok, some, ℕ, ◌≡◌, ◌≤◌, ◌⊎◌}
use terraswap.Host.{CanonicalAddr, Host}
use terraswap.Token.{MinterData, MinterResponse, TokenInfo, TokenInstantiateMsg}

-- `-`, or a letter from `A` to `Z` or from `a` to `z`.
abbrev pub IsSymbolByte : ℕ → Type 0
IsSymbolByte b = (b ≡ 45) ⊎ ((65 ≤ b) × (b ≤ 90)) ⊎ ((97 ≤ b) × (b ≤ 122))

abbrev pub IsValidMsg : TokenInstantiateMsg → Type 0
IsValidMsg msg =
    ((3 ≤ length msg.name) × (length msg.name ≤ 50))
    × ((3 ≤ length msg.symbol) × (length msg.symbol ≤ 12))
    × All IsSymbolByte msg.symbol
    × (msg.decimals ≤ 18)

-- A cap that is set bounds the supply.
abbrev pub IsWithinCap : Option ℕ → ℕ → Type 0
IsWithinCap none supply = Unit
IsWithinCap (some limit) supply = supply ≤ limit

-- The minter that is stored is the one that the message names, if any, with its cap.
abbrev pub IsMinter : Host → Option MinterResponse → Option MinterData → Type 0
IsMinter h none stored = stored ≡ none
IsMinter h (some m) stored =
    (minter : CanonicalAddr) × (h.addr_canonicalize m.minter ≡ ok minter)
    × (stored ≡ some (record { minter = minter; cap = m.cap }))

-- The token has the name, the symbol, the decimals and the minter of the message.
abbrev pub IsNamed : Host → TokenInstantiateMsg → TokenInfo → Type 0
IsNamed h msg info =
    (info.name ≡ msg.name)
    × (info.symbol ≡ msg.symbol)
    × (info.decimals ≡ msg.decimals)
    × IsMinter h msg.mint info.mint

-- ===== src/Replay.antt =====
-- The tests of the contracts (contracts/terraswap_stable/src/testing.rs) as statements: what each test
-- asserts of the calls that it makes. `MockLib` is what the tests take from outside the repository.
pub mod Stable
pub mod Trades
pub mod Deprecated
pub mod Prices
pub mod Assets
pub mod Factory
pub mod Routes
pub mod Router
use terraswap.Prelude.{List, Option, String, [], ℕ, ◌∷◌}
use terraswap.Asset.{Asset, native_token, token}
use terraswap.Host.{Addr, Coin, Env, Host, MessageInfo, StdResult}
use terraswap.Stable.Types.{Binary, Cw20HookMsg}

pub record MockLib : Type 0 where
  -- The libraries' mocks, for the coins that `MockQuerier` was given.
  pub host : List (Addr × List Coin) → Host
  -- The decoding of a reply, and `to_binary` and `from_binary` of the pair's hook messages.
  pub parse_reply : Binary → Option String
  pub to_binary : Cw20HookMsg → Binary
  pub from_binary : Binary → StdResult Cw20HookMsg

-- `MOCK_CONTRACT_ADDR` of `cosmwasm_std`
abbrev pub mock_contract_addr : Addr
mock_contract_addr = "cosmos2contract"

abbrev pub mock_env : Env
mock_env = record { contract_address = mock_contract_addr }

abbrev pub mock_info : Addr → List Coin → MessageInfo
mock_info sender funds = record { sender = sender; funds = funds }

abbrev pub uusd_coin : ℕ → Coin
uusd_coin amount = record { denom = "uusd"; amount = amount }

abbrev pub uusd_asset : ℕ → Asset
uusd_asset amount = record { info = native_token "uusd"; amount = amount }

abbrev pub token_asset : ℕ → Asset
token_asset amount = record { info = token "asset0000"; amount = amount }

-- The reply's data: the field of the address, its length and its bytes.
abbrev pub reply_data : Binary
reply_data = 10 ∷ 13 ∷ 108 ∷ 105 ∷ 113 ∷ 117 ∷ 105 ∷ 100 ∷ 105 ∷ 116 ∷ 121 ∷ 48 ∷ 48 ∷ 48 ∷ 48 ∷ []

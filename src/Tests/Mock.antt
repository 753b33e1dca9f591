-- ===== src/Tests/Mock.antt =====
-- The libraries' mocks, as far as the tests of the contracts use them.
use terraswap.Prelude.{
  List, Option, String, [], err, if◌then◌else◌, list_eq, nat_eq, none, ok, some, string_eq, ℕ, ◌==◌,
  ◌∷◌,
}
use terraswap.Host.{Addr, CanonicalAddr, Coin, Host, StdResult, other}
use terraswap.Replay.{MockLib, reply_data, uusd_asset}
use terraswap.Replay.Factory.{pair_reply_data}
use terraswap.Stable.Types.{Binary, Cw20HookMsg}
use terraswap.Tests.Host.{sample_host}

abbrev known : List (String × CanonicalAddr)
known =
    ("cosmos2contract", 1 ∷ [])
    ∷ ("liquidity0000", 2 ∷ [])
    ∷ ("asset0000", 3 ∷ [])
    ∷ ("addr0000", 4 ∷ [])
    ∷ ("addr0001", 5 ∷ [])
    ∷ ("pair0000", 6 ∷ [])
    ∷ ("asset0001", 7 ∷ [])
    ∷ ("terraswapfactory", 8 ∷ [])
    ∷ []

abbrev canonical_in : List (String × CanonicalAddr) → String → StdResult CanonicalAddr
canonical_in [] a = err (other 0)
canonical_in ((x, c) ∷ rest) a = if x == a then ok c else canonical_in rest a

abbrev human_in : List (String × CanonicalAddr) → CanonicalAddr → StdResult Addr
human_in [] c = err (other 0)
human_in ((a, x) ∷ rest) c = if x == c then ok a else human_in rest c

-- The coins of the denomination that the address was given last.
abbrev coins_of : List (Addr × List Coin) → Addr → List Coin
coins_of [] address = []
coins_of ((x, coins) ∷ rest) address = if x == address then coins else coins_of rest address

abbrev coin_amount : List Coin → String → ℕ
coin_amount [] denom = 0
coin_amount (coin ∷ coins) denom =
    if coin.denom == denom then coin.amount else coin_amount coins denom

abbrev mocks : List (Addr × List Coin) → Host
mocks base = record sample_host {
  addr_canonicalize = canonical_in known;
  addr_humanize = human_in known;
  bank_balance = λ address denom. ok (coin_amount (coins_of base address) denom);
}

abbrev hook_bytes : Cw20HookMsg → Binary
hook_bytes (Cw20HookMsg.swap ask_asset min_out_amount to) = 1 ∷ []
hook_bytes (Cw20HookMsg.withdraw_single_liquidity asset min_out_amount) = 2 ∷ []
hook_bytes Cw20HookMsg.withdraw_liquidity = 3 ∷ []

-- The hook messages that the tests send.
abbrev hook_of : Binary → StdResult Cw20HookMsg
hook_of bytes =
    if bytes == (1 ∷ [])
    then ok (Cw20HookMsg.swap (uusd_asset 0) 0 none)
    else ok Cw20HookMsg.withdraw_liquidity

-- The addresses of the replies.
abbrev pub address_in : Binary → Option String
address_in bytes =
    if bytes == reply_data
    then some "liquidity0000"
    else if bytes == pair_reply_data
    then some "pair0000"
    else none

abbrev pub mock_lib : MockLib
mock_lib = record {
  host = mocks;
  parse_reply = address_in;
  to_binary = hook_bytes;
  from_binary = hook_of;
}

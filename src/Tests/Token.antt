-- ===== src/Tests/Token.antt =====
-- A token that contracts/terraswap_token/src/contract.rs makes.
use terraswap.Prelude.{List, [], ok, some, ℕ, ◌∷◌}
use terraswap.Host.{StdResult}
use terraswap.Token.{Cw20Coin, TokenInfo, TokenInstantiateMsg, ascii}

abbrev token_msg : TokenInstantiateMsg
token_msg = record {
  name = ascii "terraswap liquidity token";
  symbol = ascii "uLP";
  decimals = 6;
  initial_balances = record { address = "holder"; amount = 40 } ∷ [];
  mint = some (record { minter = "pair"; cap = some 100 });
}

abbrev token_info : TokenInfo
token_info = record {
  name = ascii "terraswap liquidity token";
  symbol = ascii "uLP";
  decimals = 6;
  total_supply = 40;
  mint = some (record { minter = 1 ∷ []; cap = some 100 });
}

-- The sum of the balances, for one account.
abbrev first_balance : List Cw20Coin → StdResult ℕ
first_balance [] = ok 0
first_balance (coin ∷ rest) = ok coin.amount

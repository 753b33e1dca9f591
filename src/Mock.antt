-- ===== src/Mock.antt =====
-- packages/terraswap/src/mock_querier.rs: the chain that the tests run on. A `HashMap` is the list of
-- its entries, each key once. `lib` is the mocks of `cosmwasm_std`, for the coins that its
-- `MockQuerier` was given, the last ones first. A request is the query that it encodes.
use Prim.Native.String.{◌++◌ as append}
use terraswap.Prelude.{
  List, Option, String, [], err, if◌then◌else◌, list_eq, nat_eq, none, ok, some, string_eq, unwrap,
  ℕ, ◌==◌, ◌>>=◌, ◌∷◌,
}
use terraswap.Asset.{AssetInfo, PairInfo, PairInfoRaw, native_token_raw}
use terraswap.Host.{Addr, Coin, Decimal, Host, StdError, StdResult, other}
use terraswap.Router.{shown}

module _ {ℓ} {A : Type ℓ} where
  -- `HashMap::get`
  unfoldable pub get : String → List (String × A) → Option A
  get k [] = none
  get k ((x, a) ∷ rest) = if x == k then some a else get k rest

  unfoldable pub without : String → List (String × A) → List (String × A)
  without k [] = []
  without k ((x, a) ∷ rest) = if x == k then without k rest else (x, a) ∷ without k rest

  -- The loop that fills a map: a later entry for a key replaces the one before.
  unfoldable pub fill : (map : List (String × A)) → List (String × A) → List (String × A)
  fill map [] = map
  fill map ((k, a) ∷ rest) = fill ((k, a) ∷ without k map) rest

unfoldable pub caps_to_map : List (String × ℕ) → List (String × ℕ)
caps_to_map caps = fill [] caps

unfoldable pub pairs_to_map : List (String × PairInfo) → List (String × PairInfo)
pairs_to_map pairs = fill [] pairs

-- The inner loop of `balances_to_map`, for each contract.
unfoldable pub contract_balances :
    List (String × List (String × ℕ)) → List (String × List (String × ℕ))
contract_balances [] = []
contract_balances ((contract_addr, balances) ∷ rest) =
    (contract_addr, fill [] balances) ∷ contract_balances rest

unfoldable pub balances_to_map :
    List (String × List (String × ℕ)) → List (String × List (String × ℕ))
balances_to_map balances = fill [] (contract_balances balances)

pub record TaxQuerier : Type 0 where
  pub rate : Decimal
  pub caps : List (String × ℕ)

pub record WasmMockQuerier : Type 0 where
  pub base : List (Addr × List Coin)
  pub token_querier : List (String × List (String × ℕ))
  pub tax_querier : TaxQuerier
  pub terraswap_factory_querier : List (String × PairInfo)

unfoldable pub mock_dependencies : (contract_addr : Addr) → List Coin → WasmMockQuerier
mock_dependencies contract_addr contract_balance = record {
  base = (contract_addr, contract_balance) ∷ [];
  token_querier = [];
  tax_querier = record { rate = record { atomics = 0 }; caps = [] };
  terraswap_factory_querier = [];
}

unfoldable pub with_token_balances :
    WasmMockQuerier → List (String × List (String × ℕ)) → WasmMockQuerier
with_token_balances querier balances = record querier { token_querier = balances_to_map balances }

unfoldable pub with_tax : WasmMockQuerier → Decimal → List (String × ℕ) → WasmMockQuerier
with_tax querier rate caps = record querier {
  tax_querier = record { rate = rate; caps = caps_to_map caps };
}

unfoldable pub with_terraswap_pairs : WasmMockQuerier → List (String × PairInfo) → WasmMockQuerier
with_terraswap_pairs querier pairs = record querier {
  terraswap_factory_querier = pairs_to_map pairs;
}

-- `with_balance` of the pairs' copies: the coins that an address holds from now on.
unfoldable pub with_balance : WasmMockQuerier → List (Addr × List Coin) → WasmMockQuerier
with_balance querier [] = querier
with_balance querier ((addr, balance) ∷ rest) =
    with_balance (record querier { base = (addr, balance) ∷ querier.base }) rest

-- `SystemError::InvalidRequest`
abbrev pub invalid_request : StdError
invalid_request = other 1

unfoldable pub found_or : {A : Type 0} → Option A → StdResult A
found_or none = err invalid_request
found_or (some a) = ok a

unfoldable pub or_zero : Option ℕ → ℕ
or_zero none = 0
or_zero (some n) = n

module _ (lib : List (Addr × List Coin) → Host) (querier : WasmMockQuerier) where
  -- `TaxRate` and `TaxCap` of `handle_query`
  unfoldable pub tax_rate_answer : StdResult Decimal
  tax_rate_answer = ok querier.tax_querier.rate

  unfoldable pub tax_cap_answer : String → StdResult ℕ
  tax_cap_answer denom = ok (or_zero (get denom querier.tax_querier.caps))

  -- `TokenInfo`: the sum of the balances.
  unfoldable pub sum_balances : ℕ → List (String × ℕ) → StdResult ℕ
  sum_balances total_supply [] = ok total_supply
  sum_balances total_supply ((address, balance) ∷ rest) =
      (lib querier.base).uint_add total_supply balance >>= λ total. sum_balances total rest

  unfoldable pub token_info_answer : (contract_addr : String) → StdResult ℕ
  token_info_answer contract_addr = do
    balances ← found_or (get contract_addr querier.token_querier)
    sum_balances 0 balances

  -- `Balance`: 0 for an address that has none.
  unfoldable pub balance_answer : (contract_addr address : String) → StdResult ℕ
  balance_answer contract_addr address = do
    balances ← found_or (get contract_addr querier.token_querier)
    ok (or_zero (get address balances))

  -- `Pair` of the factory, by the two assets as `to_string` shows them.
  unfoldable pub listed_pair_answer : AssetInfo → AssetInfo → StdResult PairInfo
  listed_pair_answer first second =
      found_or (get (append (shown first) (shown second)) querier.terraswap_factory_querier)

  -- The queries that `base` answers are those of `lib`.
  unfoldable pub mock_host : Host
  mock_host = record (lib querier.base) {
    cw20_balance = balance_answer;
    cw20_total_supply = token_info_answer;
    query_tax_rate = tax_rate_answer;
    query_tax_cap = tax_cap_answer;
  }

-- `Raw` of contracts/terraswap_factory/src/mock_querier.rs: the pair as it is stored, with "uusd" for
-- both assets. The fields that the factory's package does not have are 0.
unfoldable pub raw_pair_answer :
    (lib : Host)
    → (pairs : List (String × PairInfo)) → (contract_addr : Addr) → StdResult PairInfoRaw
raw_pair_answer lib pairs contract_addr = do
  pair_info ← found_or (get contract_addr pairs)
  canonical ← unwrap (lib.addr_canonicalize pair_info.contract_addr)
  liquidity_token ← unwrap (lib.addr_canonicalize pair_info.liquidity_token)
  ok (record {
    asset_infos = native_token_raw "uusd" ∷ native_token_raw "uusd" ∷ [];
    contract_addr = canonical;
    liquidity_token = liquidity_token;
    amplification = 0;
    fee = 0;
  })

-- ===== src/Lib.antt =====
-- A model of the terraswap contracts, and what holds of it.
--
-- The program. A pair of contracts/terraswap_stable holds the coins and tokens of a pool and prices
-- them by the stable-swap invariant of its src/curve.rs. It mints and burns the tokens of a contract
-- of contracts/terraswap_token, which it makes when it is instantiated. The factory of
-- contracts/terraswap_factory makes pairs and keeps their registry. The router of
-- contracts/terraswap_router runs swaps over several pairs. They share packages/terraswap.
-- contracts/terraswap_pair_deprecated is the pair that came before, of two assets and priced by their
-- constant product.
--
-- The files.
--   Prelude: tests on numbers, lists, equality as an instance, and `Outcome`, how a call ends.
--   Checked: the checked operations of `u64` and `u128`.
--   Host: what the contracts take from outside the repository, as the record `Host` of functions.
--     `IsUint128` and `IsAddress` are the documented laws of the libraries that proofs rely on.
--   Asset: packages/terraswap/src/asset.rs and querier.rs. `info_to_raw`, `info_to_normal` and the
--     like are the methods `to_raw` and `to_normal`. Asset/Methods has what no contract calls.
--   Token: packages/terraswap/src/token.rs and contracts/terraswap_token/src/contract.rs.
--   Stable: contracts/terraswap_stable/src. Stable/Curve and Stable/Liquidity are curve.rs. Types is
--     error.rs, state.rs and packages/terraswap/src/pair.rs. Provide, Withdraw, Swap and Contract are
--     contract.rs, one function for each of its functions, under its name. Query is its `query`.
--   Router: contracts/terraswap_router/src and packages/terraswap/src/router.rs. Router/Operations is
--     operations.rs, and Router/Entry has the entry points.
--   Factory: contracts/terraswap_factory/src and packages/terraswap/src/factory.rs. Factory/Query is
--     its queries, and Factory/History its `execute` and the transactions that it is part of, as a
--     relation on the state.
--   Deprecated: contracts/terraswap_pair_deprecated/src/contract.rs, one function for each of its
--     functions, under its name. Price has the arithmetic and the checks of prices, Pair the state,
--     Provide and Swap the handlers, Entry `execute` and `receive_cw20`, Query `query`. Bignum is what
--     it takes from cosmwasm_bignumber and integer_sqrt, as a record of functions: `IsBignum` says
--     what their results are, and `FitsBignum` when there is one. Reserves has the balances of the
--     pair over time, as a relation.
--   Mock: packages/terraswap/src/mock_querier.rs, the simulated chain of the tests, as a `Host`.
--   Replay: the tests of the repository as statements, one or a few for each test function, by its
--     name: Stable and Trades are contracts/terraswap_stable/src/testing.rs, Deprecated and Prices
--     that of the deprecated pair, Factory that of the factory, Assets packages/terraswap/src/testing.rs,
--     and Routes and Router the router's.
--   Tests: runs, the statements of Replay, and the theorems at concrete inputs.
--   The files below these prove what their names say.
--
-- How the code is modelled.
--   A number of any width is a natural number, and each operation has the overflow of its width: a
--   checked operation gives `err tt`, a plain one panics, since the release profile sets
--   `overflow-checks`, and `as u64` takes the remainder. Lengths and indices (`usize`) are not
--   bounded. `Option` results are `Try`. An error that `?` passes on is `err`, and `unwrap`,
--   `assert_eq!` and an index out of bounds are `panic`.
--   Loops are recursion on the list that they run over, or on the number of rounds, which in the
--   solvers is the 32 of the source: there is no fuel beside it.
--   A storage item is an `Option`, empty before `instantiate`, and a handler that writes returns the
--   new value. A call that fails changes nothing, as on the chain.
--   A message carries the value that the source encodes, and decoding is an argument. Attributes of
--   the pair's responses are kept with the values that the source prints; the router's and the
--   factory's are left out. A name or symbol of a token is its UTF-8 bytes, and an address is its
--   text.
--   The router, the factory and the deprecated pair are outside the workspace of Cargo.toml and use
--   messages and fields that packages/terraswap has dropped. They are modelled as they are written,
--   with `PairSwap`, `FactoryPair` and the types of Deprecated/Types for what they build.
--   The answers of `query` are data, and their encoding is an argument.
--
-- Not modelled: the generated response.rs; `execute` and `query` of the token, which are calls of
-- cw20_legacy; the empty `migrate` of the router and the factory; the schema generators; of the
-- tests, the parsing of raw requests, what only calls the mocks of `cosmwasm_std` and the tests of
-- the storage layout in the state.rs files.
pub mod Prelude
pub mod Checked
pub mod Host
pub mod Asset
pub mod Token
pub mod Stable
pub mod Router
pub mod Factory
pub mod Deprecated
pub mod Mock
pub mod Replay
mod Tests

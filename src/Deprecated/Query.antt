-- ===== src/Deprecated/Query.antt =====
-- `query` of contracts/terraswap_pair_deprecated/src/contract.rs. `to_binary` encodes an answer.
use terraswap.Prelude.{List, Option, Outcome, String, [], none, ok, some, ℕ, ◌>>=◌}
use terraswap.Asset.{Asset, find_coin}
use terraswap.Deprecated.Bignum.{Bignum}
use terraswap.Deprecated.Pair.{query_pair_info, query_pool}
use terraswap.Deprecated.Swap.{query_reverse_simulation, query_simulation}
use terraswap.Deprecated.Types.{PairPools, PairRaw, PairView, ReverseSimulation, Simulation}
use terraswap.Host.{Coin, Host, StdResult}
use terraswap.Stable.Types.{Binary, ContractError, Response, from_std}

pub data PairQueryMsg : Type 0 where
  pair_query : PairQueryMsg
  pool_query : PairQueryMsg
  simulation_query : (offer_asset : Asset) → PairQueryMsg
  reverse_simulation_query : (ask_asset : Asset) → PairQueryMsg

-- What is encoded.
pub data QueryAnswer : Type 0 where
  pair_shown : PairView → QueryAnswer
  pools_shown : PairPools → QueryAnswer
  simulated : Simulation → QueryAnswer
  reverse_simulated : ReverseSimulation → QueryAnswer

module _ (n : Bignum) (h : Host) (to_binary : QueryAnswer → StdResult Binary) where
  unfoldable pub query : Option PairRaw → PairQueryMsg → Outcome ContractError Binary
  query store pair_query =
      from_std (query_pair_info h store) >>= λ pair. from_std (to_binary (pair_shown pair))
  query store pool_query =
      from_std (query_pool h store) >>= λ resp. from_std (to_binary (pools_shown resp))
  query store (simulation_query offer_asset) =
      query_simulation n h store offer_asset >>= λ resp. from_std (to_binary (simulated resp))
  query store (reverse_simulation_query ask_asset) =
      query_reverse_simulation n h store ask_asset >>= λ resp.
      from_std (to_binary (reverse_simulated resp))

unfoldable pub amount_of : List Coin → String → ℕ
amount_of coins denom = elim (find_coin coins denom) [ some coin ↦ coin.amount | none ↦ 0 ]

unfoldable pub migrate : Outcome ContractError Response
migrate = ok (record { messages = []; submessages = []; attributes = [] })

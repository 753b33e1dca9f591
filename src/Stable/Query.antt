-- ===== src/Stable/Query.antt =====
-- `query` of contracts/terraswap_stable/src/contract.rs. `to_binary` encodes an answer.
use terraswap.Prelude.{Option, Outcome, ◌>>=◌}
use terraswap.Asset.{PairInfo, PairInfoRaw}
use terraswap.Host.{Host, StdResult}
use terraswap.Stable.Contract.{query_pair_info, query_pool}
use terraswap.Stable.Types.{Binary, ContractError, PoolResponse, QueryMsg, from_std}

-- What is encoded.
pub data PairAnswer : Type 0 where
  pair_answer : PairInfo → PairAnswer
  pool_answer : PoolResponse → PairAnswer

unfoldable pub query :
    Host
    → (to_binary : PairAnswer → StdResult Binary) → Option PairInfoRaw
    → QueryMsg
    → Outcome ContractError Binary
query h to_binary store QueryMsg.pair =
    query_pair_info h store >>= λ pair. from_std (to_binary (pair_answer pair))
query h to_binary store QueryMsg.pool =
    query_pool h store >>= λ resp. from_std (to_binary (pool_answer resp))

-- ===== src/Factory/History.antt =====
-- `execute` of contracts/terraswap_factory/src/contract.rs, and the transactions that change the
-- factory. A pair is made in one transaction: `execute`, and `reply` when the chain has made the
-- contract that it asks for.
pub mod Keyed
pub mod Kept
use terraswap.Prelude.{List, Option, String, none, ok, some, ℕ, ◌>>=◌, ◌≡◌}
use terraswap.Asset.{AssetInfo, PairInfoRaw}
use terraswap.Factory.{
  FactoryState, PairSubMsg, execute_create_pair, execute_update_config, factory_reply,
}
use terraswap.Host.{Addr, Host, StdResult}
use terraswap.Stable.Types.{Binary}

pub data FactoryExecuteMsg : Type 0 where
  update_config :
      (owner : Option String) → (token_code_id pair_code_id : Option ℕ) → FactoryExecuteMsg
  create_pair : AssetInfo → AssetInfo → FactoryExecuteMsg

-- The new state and the contract to make, if there is one.
unfoldable pub factory_execute :
    (utf8 : String → List ℕ)
    → Host
    → FactoryState
    → (sender : Addr) → FactoryExecuteMsg
    → StdResult (FactoryState × Option PairSubMsg)
factory_execute utf8 h state sender (update_config owner token_code_id pair_code_id) =
    execute_update_config h state sender owner token_code_id pair_code_id >>= λ state'.
    ok (state', none)
factory_execute utf8 h state sender (create_pair first second) =
    execute_create_pair utf8 h state first second >>= λ made. ok (made.0, some made.1)

pub data Transaction (utf8 : String → List ℕ) (h : Host) (parse_reply : Binary → Option String)
    (query_raw : Addr → StdResult PairInfoRaw) (s : FactoryState) : FactoryState → Type 0 where
  executed :
      (sender : Addr) (msg : FactoryExecuteMsg) {t : FactoryState}
      → factory_execute utf8 h s sender msg ≡ ok (t, none)
      → Transaction utf8 h parse_reply query_raw s t
  replied :
      (sender : Addr) (msg : FactoryExecuteMsg) (sub : PairSubMsg) (result : Option (Option Binary))
      {t u : FactoryState}
      → factory_execute utf8 h s sender msg ≡ ok (t, some sub)
      → factory_reply h parse_reply query_raw t result ≡ ok u
      → Transaction utf8 h parse_reply query_raw s u

-- Any number of transactions, one after the other.
pub data History (utf8 : String → List ℕ) (h : Host) (parse_reply : Binary → Option String)
    (query_raw : Addr → StdResult PairInfoRaw) (s : FactoryState) : FactoryState → Type 0 where
  initial : History utf8 h parse_reply query_raw s s
  followed :
      {t u : FactoryState}
      → History utf8 h parse_reply query_raw s t
      → Transaction utf8 h parse_reply query_raw t u
      → History utf8 h parse_reply query_raw s u

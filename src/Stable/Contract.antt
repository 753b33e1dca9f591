-- ===== src/Stable/Contract.antt =====
-- The entry points of contracts/terraswap_stable/src/contract.rs. `instantiate` and `reply` return the
-- state that they save; no other entry point writes it, and a call that fails leaves it as it was.
-- `from_binary` decodes a hook message and `parse_reply` the reply's data: they are arguments.
pub mod Refund
pub mod Access
pub mod Setup
use terraswap.Prelude.{
  Bool, List, Option, Outcome, String, [], ensure, err, false, list_eq, nat_eq, none, ok, panic,
  some, string_eq, traverse, ℕ, ◌==◌, ◌>>=◌, ◌>>◌, ◌||◌, ◌∷◌,
}
use terraswap.Asset.{
  Asset, AssetInfo, PairInfo, PairInfoRaw, find_coin, info_to_raw, is_native_token, mint,
  native_token, pair_to_normal, query_pools, query_supply, token,
}
use terraswap.Host.{Addr, Coin, Env, Host, MessageInfo, StdResult, parse_err}
use terraswap.Stable.Provide.{provide_liquidity}
use terraswap.Stable.Swap.{swap}
use terraswap.Stable.Types.{
  Binary, ContractError, Cw20HookMsg, Cw20ReceiveMsg, ExecuteMsg, InstantiateMsg, PoolResponse,
  Response, from_std, load, text, unauthorized,
}
use terraswap.Stable.Withdraw.{withdraw_liquidity, withdraw_single_liquidity}
use terraswap.Token.{ascii}

abbrev pub instantiate_reply_id : ℕ
instantiate_reply_id = 1

unfoldable pub instantiate : Host → Env → InstantiateMsg → StdResult (Option PairInfoRaw × Response)
instantiate h env msg = do
  asset_infos ← traverse (info_to_raw h) msg.asset_infos
  contract_addr ← h.addr_canonicalize env.contract_address
  ok (
    some (record {
      asset_infos = asset_infos;
      liquidity_token = [];
      contract_addr = contract_addr;
      amplification = msg.amplification;
      fee = msg.fee;
    }),
    record {
      messages = [];
      submessages =
          record {
            id = instantiate_reply_id;
            code_id = msg.token_code_id;
            msg = record {
              name = ascii "terraswap liquidity token";
              symbol = ascii "uLP";
              decimals = 6;
              initial_balances = [];
              mint = some (record { minter = env.contract_address; cap = none });
            };
          }
          ∷ [];
      attributes = [];
    },
  )

-- `msg.result.unwrap().data.unwrap()`
unfoldable pub unwrap_data : Option (Option Binary) → StdResult Binary
unwrap_data none = panic
unwrap_data (some none) = panic
unwrap_data (some (some bytes)) = ok bytes

unfoldable pub parsed : Option String → StdResult String
parsed none = err (parse_err "MsgInstantiateContractResponse" "failed to parse data")
parsed (some address) = ok address

-- `reply`: `result` and `data` are unwrapped, and `parse_reply` reads the contract's address.
unfoldable pub reply :
    Host
    → (parse_reply : Binary → Option String) → Option PairInfoRaw
    → (result : Option (Option Binary)) → StdResult (Option PairInfoRaw × Response)
reply h parse_reply store result = do
  data_bytes ← unwrap_data result
  liquidity_token ← parsed (parse_reply data_bytes)
  meta ← load store
  canonical ← h.addr_canonicalize liquidity_token
  ok (
    some (record meta { liquidity_token = canonical }),
    record {
      messages = [];
      submessages = [];
      attributes = ("liquidity_token_addr", text liquidity_token) ∷ [];
    },
  )

-- `if let Some(to_addr) = to { Some(addr_validate(to_addr)?) } else { None }`
unfoldable pub optional_addr_validate : Host → Option String → StdResult (Option Addr)
optional_addr_validate h none = ok none
optional_addr_validate h (some to) = do addr ← h.addr_validate to; ok (some addr)

unfoldable pub is_token_at : Addr → AssetInfo → Bool
is_token_at sender (token contract_addr) = contract_addr == sender
is_token_at sender (native_token denom) = false

-- Whether one of the pools is the token contract at the address.
unfoldable pub is_pool_token : Addr → List Asset → Bool
is_pool_token sender [] = false
is_pool_token sender (pool ∷ pools) = is_token_at sender pool.info || is_pool_token sender pools

-- `addr_canonicalize(sender)? != liquidity_token`
unfoldable pub assert_liquidity_token : Host → Addr → PairInfoRaw → Outcome ContractError (Unit {0})
assert_liquidity_token h sender config = do
  canonical ← from_std (h.addr_canonicalize sender)
  ensure (canonical == config.liquidity_token) unauthorized

module _ (h : Host) (from_binary : Binary → StdResult Cw20HookMsg) where
  unfoldable pub receive_hook :
      Option PairInfoRaw
      → Env
      → MessageInfo
      → Cw20ReceiveMsg
      → Cw20HookMsg
      → Outcome ContractError Response
  receive_hook store env message_info cw20_msg (Cw20HookMsg.swap ask_asset min_out_amount to) = do
    config ← from_std (load store)
    pools ← from_std (query_pools h config env.contract_address)
    ensure (is_pool_token message_info.sender pools) unauthorized
    to_addr ← from_std (optional_addr_validate h to)
    swap h store env message_info cw20_msg.sender
        (record { info = token message_info.sender; amount = cw20_msg.amount }) ask_asset
        min_out_amount to_addr
  receive_hook store env message_info cw20_msg
        (Cw20HookMsg.withdraw_single_liquidity wanted min_out_amount) =
      do
        config ← from_std (load store)
        assert_liquidity_token h message_info.sender config
        withdraw_single_liquidity h store env message_info wanted cw20_msg.amount min_out_amount
  receive_hook store env message_info cw20_msg Cw20HookMsg.withdraw_liquidity = do
    config ← from_std (load store)
    assert_liquidity_token h message_info.sender config
    sender_addr ← from_std (h.addr_validate cw20_msg.sender)
    withdraw_liquidity h store env sender_addr cw20_msg.amount

  unfoldable pub receive_cw20 :
      Option PairInfoRaw → Env → MessageInfo → Cw20ReceiveMsg → Outcome ContractError Response
  receive_cw20 store env message_info cw20_msg = do
    hook ← from_std (from_binary cw20_msg.msg)
    receive_hook store env message_info cw20_msg hook

  unfoldable pub execute :
      Option PairInfoRaw → Env → MessageInfo → ExecuteMsg → Outcome ContractError Response
  execute store env message_info (ExecuteMsg.receive msg) = receive_cw20 store env message_info msg
  execute store env message_info (ExecuteMsg.provide_liquidity assets min_out_amount receiver) =
      provide_liquidity h store env message_info assets min_out_amount receiver
  execute store env message_info (ExecuteMsg.swap offer_asset ask_asset min_out_amount to) = do
    ensure (is_native_token offer_asset.info) unauthorized
    to_addr ← from_std (optional_addr_validate h to)
    swap h store env message_info message_info.sender offer_asset ask_asset min_out_amount to_addr

unfoldable pub query_pair_info : Host → Option PairInfoRaw → Outcome ContractError PairInfo
query_pair_info h store = do
  pair_info ← from_std (load store)
  from_std (pair_to_normal h pair_info)

unfoldable pub query_pool : Host → Option PairInfoRaw → Outcome ContractError PoolResponse
query_pool h store = do
  pair_info ← from_std (load store)
  contract_addr ← from_std (h.addr_humanize pair_info.contract_addr)
  assets ← from_std (query_pools h pair_info contract_addr)
  liquidity_token ← from_std (h.addr_humanize pair_info.liquidity_token)
  total_share ← from_std (query_supply h liquidity_token)
  ok (record { assets = assets; total_share = total_share })

-- The amount of the first coin of a denomination, or 0.
unfoldable pub amount_of : List Coin → String → ℕ
amount_of coins denom = elim (find_coin coins denom) [ some coin ↦ coin.amount | none ↦ 0 ]

unfoldable pub migrate : Outcome ContractError Response
migrate = ok (record { messages = []; submessages = []; attributes = [] })

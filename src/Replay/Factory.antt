-- ===== src/Replay/Factory.antt =====
-- contracts/terraswap_factory/src/testing.rs. What a query answers is compared before it is encoded,
-- and the attributes of the responses are left out.
use terraswap.Prelude.{List, Option, String, [], err, none, ok, some, ℕ, ◌∷◌, ◌≡◌}
use terraswap.Asset.{AssetInfoRaw, PairInfo, info_to_raw, native_token, token}
use terraswap.Factory.{FactoryState, factory_reply, instantiate, pair_key, query_factory_config}
use terraswap.Factory.History.{FactoryExecuteMsg, factory_execute}
use terraswap.Factory.Query.{query_pair}
use terraswap.Host.{Host, generic_err}
use terraswap.Mock.{pairs_to_map, raw_pair_answer}
use terraswap.Stable.Types.{Binary}

pub record FactoryLib : Type 0 where
  -- The libraries' mocks, the bytes of a text and the decoding of a reply.
  pub host : Host
  pub utf8 : String → List ℕ
  pub parse_reply : Binary → Option String

abbrev pub no_state : FactoryState
no_state = record { config = none; tmp_pair_info = none; pairs = [] }

-- `proper_initialization`
abbrev pub FactoryInitialization : FactoryLib → Type 0
FactoryInitialization lib =
    (state : FactoryState) × (instantiate lib.host no_state "addr0000" 321 123 ≡ ok state)
    × (query_factory_config lib.host state ≡ ok ("addr0000", (123, 321)))

-- `update_config`
abbrev pub UpdateConfig : FactoryLib → Type 0
UpdateConfig lib =
    (state owned changed : FactoryState) × (instantiate lib.host no_state "addr0000" 321 123
      ≡ ok state)
    × (factory_execute lib.utf8 lib.host state "addr0000"
          (FactoryExecuteMsg.update_config (some "addr0001") none none)
        ≡ ok (owned, none))
    × (query_factory_config lib.host owned ≡ ok ("addr0001", (123, 321)))
    × (factory_execute lib.utf8 lib.host owned "addr0001"
          (FactoryExecuteMsg.update_config none (some 200) (some 100))
        ≡ ok (changed, none))
    × (query_factory_config lib.host changed ≡ ok ("addr0001", (200, 100)))
    × (factory_execute lib.utf8 lib.host changed "addr0000"
          (FactoryExecuteMsg.update_config none none none)
        ≡ err (generic_err "unauthorized"))

-- `create_pair`
abbrev pub CreatePair : FactoryLib → Type 0
CreatePair lib =
    let first = token "asset0000" in
    let second = token "asset0001" in
    (state made : FactoryState) × (raw_first raw_second : AssetInfoRaw) × (instantiate lib.host
        no_state "addr0000" 321 123
      ≡ ok state)
    × (factory_execute lib.utf8 lib.host state "addr0000"
          (FactoryExecuteMsg.create_pair first second)
        ≡ ok (
          made,
          some (record {
            id = 1;
            code_id = 321;
            asset_infos = (first, second);
            token_code_id = 123;
          }),
        ))
    × (info_to_raw lib.host first ≡ ok raw_first)
    × (info_to_raw lib.host second ≡ ok raw_second)
    × (made.tmp_pair_info
        ≡ some (record {
          pair_key = pair_key lib.utf8 raw_first raw_second;
          asset_infos = (raw_first, raw_second);
        }))

-- The data of the pair's reply: the field of the address, its length and its bytes.
abbrev pub pair_reply_data : Binary
pair_reply_data = 10 ∷ 8 ∷ 112 ∷ 97 ∷ 105 ∷ 114 ∷ 48 ∷ 48 ∷ 48 ∷ 48 ∷ []

-- `reply_test`
abbrev pub ReplyTest : FactoryLib → Type 0
ReplyTest lib =
    let first = token "asset0000" in
    let second = token "asset0001" in
    let pair : PairInfo = record {
      asset_infos = native_token "uusd" ∷ native_token "uusd" ∷ [];
      contract_addr = "pair0000";
      liquidity_token = "liquidity0000";
      amplification = 0;
      fee = 0;
    } in
    let query_raw = raw_pair_answer lib.host (pairs_to_map (("pair0000", pair) ∷ [])) in
    (state : FactoryState) × (raw_first raw_second : AssetInfoRaw) × (info_to_raw lib.host first
      ≡ ok raw_first)
    × (info_to_raw lib.host second ≡ ok raw_second)
    × (factory_reply lib.host lib.parse_reply query_raw
          (record no_state {
            tmp_pair_info = some (record {
              pair_key = pair_key lib.utf8 raw_first raw_second;
              asset_infos = (raw_first, raw_second);
            });
          })
          (some (some pair_reply_data))
        ≡ ok state)
    × (query_pair lib.utf8 lib.host state first second
        ≡ ok (record {
          liquidity_token = "liquidity0000";
          contract_addr = "pair0000";
          asset_infos = (first, second);
        }))

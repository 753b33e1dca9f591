-- ===== src/Tests/Pair.antt =====
-- Runs of contracts/terraswap_stable/src/contract.rs and of packages/terraswap/src/asset.rs.
use terraswap.Prelude.{All, List, String, [], false, none, ok, refl, some, ℕ, ◌∷◌, ◌≡◌}
use terraswap.Asset.{
  Asset, PairInfoRaw, assert_sent_native_token_balance, bank_send, compute_tax, deduct_tax, equal,
  find_coin, info_to_normal, info_to_raw, into_msg, is_native_token, native_token, native_token_raw,
  pair_to_normal, pool_of, query_balance, query_pool, query_pools, query_supply,
  query_token_balance, taxed, token, token_raw, transfer, wasm_execute,
}
use terraswap.Host.{Coin, Env, MessageInfo}
use terraswap.Stable.Contract.{
  assert_liquidity_token, execute, instantiate, is_pool_token, is_token_at, optional_addr_validate,
  parsed, query_pair_info, receive_cw20, receive_hook, reply, unwrap_data,
}
use terraswap.Stable.Provide.{
  add_deposits, assert_all_sent, match_deposits, provide_liquidity, share_for, take_deposit,
  take_deposits,
}
use terraswap.Stable.Swap.{pay, scan, swap, visit}
use terraswap.Stable.Swap.Foreign.{IsForeignPaid, swap_foreign}
use terraswap.Stable.Swap.Paid.{IsSwapPaid, swap-IsSwapPaid}
use terraswap.Stable.Types.{Response, curve_of, load, number, shown_info, text}
use terraswap.Stable.Withdraw.{
  find_pool, refund_asset, withdraw_liquidity, withdraw_single_liquidity,
}
use terraswap.Tests.Curve.{curve_code}
use terraswap.Tests.Host.{sample_host, sample_host-IsUint128}
use terraswap.Token.{all_symbol_bytes, is_valid_name, is_valid_symbol, validate}

abbrev pub sample_pair : PairInfoRaw
sample_pair = record {
  asset_infos = token_raw (3 ∷ []) ∷ native_token_raw "uusd" ∷ [];
  liquidity_token = 2 ∷ [];
  contract_addr = 1 ∷ [];
  amplification = 60;
  fee = 4;
}

abbrev pub sample_env : Env
sample_env = record { contract_address = "pair" }

-- What a run computes with.
unfoldable pub pair_code : Unit {0}
unfolding curve_code all_symbol_bytes is_valid_name is_valid_symbol validate is_native_token equal
    find_coin assert_sent_native_token_balance query_balance query_token_balance query_supply taxed
    compute_tax deduct_tax into_msg info_to_raw info_to_normal query_pool pair_to_normal pool_of
    query_pools load curve_of match_deposits take_deposit take_deposits add_deposits assert_all_sent
    share_for provide_liquidity visit scan pay swap refund_asset withdraw_liquidity find_pool
    withdraw_single_liquidity instantiate unwrap_data parsed reply optional_addr_validate
    is_token_at is_pool_token assert_liquidity_token receive_hook receive_cw20 execute
    query_pair_info
pair_code = tt

abbrev pub coin_asset : ℕ → Asset
coin_asset amount = record { info = token "coin"; amount = amount }

abbrev pub uusd : ℕ → Asset
uusd amount = record { info = native_token "uusd"; amount = amount }

abbrev pub ukrw : ℕ → Asset
ukrw amount = record { info = native_token "ukrw"; amount = amount }

abbrev pub sample_pools : List Asset
sample_pools = coin_asset 1_000_000 ∷ uusd 1_000_000 ∷ []

abbrev pub sender_info : String → List Coin → MessageInfo
sender_info sender funds = record { sender = sender; funds = funds }

abbrev pub ukrw_info : MessageInfo
ukrw_info = sender_info "trader" (record { denom = "ukrw"; amount = 1000 } ∷ [])

pub pools_run : query_pools sample_host sample_pair "pair" ≡ ok sample_pools
unfolding pair_code
pools_run = refl

sent_run : assert_sent_native_token_balance (ukrw 1000) ukrw_info ≡ ok tt
unfolding pair_code
sent_run = refl

foreign_run : All (λ (pool : Asset). equal (native_token "ukrw") pool.info ≡ false) sample_pools
unfolding pair_code
foreign_run = (refl, (refl, tt))

abbrev foreign_response : Response
foreign_response = record {
  messages = bank_send "trader" (record { denom = "uusd"; amount = 989 } ∷ []) ∷ [];
  submessages = [];
  attributes =
      ("action", text "swap")
      ∷ ("sender", text "trader")
      ∷ ("receiver", text "trader")
      ∷ ("offer_asset", shown_info (native_token "ukrw"))
      ∷ ("ask_asset", shown_info (native_token "uusd"))
      ∷ ("offer_amount", number 1000)
      ∷ ("return_amount", number 999)
      ∷ [];
}

foreign_swap_run :
    swap sample_host (some sample_pair) sample_env ukrw_info "trader" (ukrw 1000) (uusd 0) 10 none
    ≡ ok foreign_response
unfolding pair_code
foreign_swap_run = refl

swap_foreign_example :
    IsForeignPaid sample_host sample_pair
      (ukrw 1000)
      (uusd 0)
      sample_pools
      (coin_asset 1_000_000)
      10
      "trader"
      foreign_response
swap_foreign_example =
    swap_foreign sample_host sample_pair sample_env ukrw_info "trader" (ukrw 1000) (uusd 0)
      (coin_asset 1_000_000) (uusd 1_000_000 ∷ []) 10 none sent_run pools_run foreign_run
      foreign_swap_run

abbrev pub uusd_message : MessageInfo
uusd_message = sender_info "trader" (record { denom = "uusd"; amount = 1000 } ∷ [])

abbrev swap_response : Response
swap_response = record {
  messages = wasm_execute "coin" (transfer "trader" 999) [] ∷ [];
  submessages = [];
  attributes =
      ("action", text "swap")
      ∷ ("sender", text "trader")
      ∷ ("receiver", text "trader")
      ∷ ("offer_asset", shown_info (native_token "uusd"))
      ∷ ("ask_asset", shown_info (token "coin"))
      ∷ ("offer_amount", number 1000)
      ∷ ("return_amount", number 999)
      ∷ [];
}

swap_run :
    swap sample_host
      (some sample_pair)
      sample_env
      uusd_message
      "trader"
      (uusd 1000)
      (coin_asset 0)
      990
      none
    ≡ ok swap_response
unfolding pair_code
swap_run = refl

swap-IsSwapPaid_example :
    IsSwapPaid sample_host sample_pair sample_env
      (uusd 1000)
      (coin_asset 0)
      990
      "trader"
      swap_response
swap-IsSwapPaid_example =
    swap-IsSwapPaid sample_host sample_host-IsUint128 sample_pair sample_env uusd_message "trader"
      (uusd 1000) (coin_asset 0) 990 none swap_run

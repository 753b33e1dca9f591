-- ===== src/Factory/Registry.antt =====
-- What the registry of contracts/terraswap_factory/src/contract.rs keeps.
use terraswap.Prelude.{
  >>=-elim, List, Option, String, ap, ensure, ensure-eq-ok, err, list_beq_iff, list_eq, nat_eq,
  none, ok, ok-injective, refl, some, string_eq, sym, ℕ, ◌==◌, ◌∷◌, ◌≡◌,
}
use terraswap.Asset.{AssetInfo, AssetInfoRaw, PairInfoRaw, info_to_raw}
use terraswap.Factory.{
  FactoryConfig, FactoryPair, FactoryState, PairSubMsg, TmpPairInfo, assert_new,
  execute_create_pair, execute_update_config, factory_reply, load_item, may_load, new_owner,
  or_current, pair_key, query_liquidity_token, query_pair_raw,
}
use terraswap.Factory.Key.{pair_key_comm}
use terraswap.Host.{Addr, Host, StdResult, generic_err}
use terraswap.Stable.Contract.{parsed, unwrap_data}
use terraswap.Stable.Types.{Binary}

may_load_new :
    (k : List ℕ) (pair : FactoryPair) (rest : List (List ℕ × FactoryPair))
    → may_load ((k, pair) ∷ rest) k ≡ some pair
unfolding may_load
may_load_new k pair rest = rw ((list_beq_iff k k).1 refl) refl

-- What a pair is registered as: `pair`, for its assets in the order of the call and in the other
-- order, and neither can be created again.
abbrev pub IsRegistered :
    (utf8 : String → List ℕ) → Host → FactoryState → AssetInfo → AssetInfo → FactoryPair → Type 0
IsRegistered utf8 h state first second pair =
    (query_pair_raw utf8 h state first second ≡ ok pair)
    × (query_pair_raw utf8 h state second first ≡ ok pair)
    × (execute_create_pair utf8 h state first second ≡ err (generic_err "Pair already exists"))
    × (execute_create_pair utf8 h state second first ≡ err (generic_err "Pair already exists"))

found-IsRegistered :
    (utf8 : String → List ℕ) (h : Host) (config : FactoryConfig) (tmp : Option TmpPairInfo)
    (pairs : List (List ℕ × FactoryPair)) (first second : AssetInfo) (a b : AssetInfoRaw)
    (pair : FactoryPair)
    → info_to_raw h first ≡ ok a
    → info_to_raw h second ≡ ok b
    → may_load pairs (pair_key utf8 a b) ≡ some pair
    → IsRegistered utf8 h
        (record { config = some config; tmp_pair_info = tmp; pairs = pairs })
        first
        second
        pair
unfolding query_pair_raw execute_create_pair load_item assert_new
found-IsRegistered utf8 h config tmp pairs first second a b pair ea eb e =
    let e' : may_load pairs (pair_key utf8 b a) ≡ some pair = rw (pair_key_comm utf8 b a) e in
    (
      rw ea (rw eb (rw e refl)),
      rw eb (rw ea (rw e' refl)),
      rw ea (rw eb (rw e refl)),
      rw eb (rw ea (rw e' refl)),
    )

pub load_item-eq-ok {κ} :
    {A : Type κ} (item : Option A) {a : A} → load_item item ≡ ok a → item ≡ some a
unfolding load_item
load_item-eq-ok none e = cc
load_item-eq-ok (some b) e = cc

assert_new-eq-ok :
    (known : Option FactoryPair) {u : Unit {0}} → assert_new known ≡ ok u → known ≡ none
unfolding assert_new
assert_new-eq-ok none e = refl
assert_new-eq-ok (some pair) e = cc

-- What `execute_create_pair` leaves for the reply.
pub create_pair_lem :
    (utf8 : String → List ℕ) (h : Host) (state state' : FactoryState) (first second : AssetInfo)
    (sub : PairSubMsg)
    → execute_create_pair utf8 h state first second ≡ ok (state', sub)
    → (config : FactoryConfig) × (a b : AssetInfoRaw) × (info_to_raw h first ≡ ok a)
      × (info_to_raw h second ≡ ok b)
      × (may_load state.pairs (pair_key utf8 a b) ≡ none)
      × (state' ≡ record {
        config = some config;
        tmp_pair_info = some (record { pair_key = pair_key utf8 a b; asset_infos = (a, b) });
        pairs = state.pairs;
      })
unfolding execute_create_pair
create_pair_lem utf8 h state state' first second sub e =
    >>=-elim (load_item state.config) _ e λ config e₁ r₁.
      >>=-elim (info_to_raw h first) _ r₁ λ a e₂ r₂. >>=-elim (info_to_raw h second) _ r₂ λ b e₃ r₃.
        >>=-elim (assert_new (may_load state.pairs (pair_key utf8 a b))) _ r₃ λ u e₄ r₄. (
          config,
          a,
          b,
          e₂,
          e₃,
          assert_new-eq-ok _ e₄,
          rw (← load_item-eq-ok state.config e₁)
              (ap (λ (x : FactoryState × PairSubMsg). x.0) (sym (ok-injective _ (state', sub) r₄))),
        )

-- A pair that was created and whose contract was made is registered under both orders of its
-- assets, with the assets as they were given, and cannot be created again in either order.
pub create_pair-IsRegistered :
    (utf8 : String → List ℕ) (h : Host) (parse_reply : Binary → Option String)
    (query_raw : Addr → StdResult PairInfoRaw) (state : FactoryState) (first second : AssetInfo)
    (result : Option (Option Binary)) {state' state'' : FactoryState} {sub : PairSubMsg}
    → execute_create_pair utf8 h state first second ≡ ok (state', sub)
    → factory_reply h parse_reply query_raw state' result ≡ ok state''
    → (pair : FactoryPair) × IsRegistered utf8 h state'' first second pair
      × (info_to_raw h first ≡ ok pair.asset_infos.0)
      × (info_to_raw h second ≡ ok pair.asset_infos.1)
unfolding factory_reply load_item
create_pair-IsRegistered utf8 h parse_reply query_raw state first second result {state'} {state''}
      {sub} e r =
    let (config, a, b, ea, eb, _, same) = create_pair_lem utf8 h state state' first second sub e in
    let r₀ = rw same at r in
    >>=-elim (unwrap_data result) _ r₀ λ bytes _ r₁.
      >>=-elim (parsed (parse_reply bytes)) _ r₁ λ contract _ r₂.
        >>=-elim (query_liquidity_token h query_raw contract) _ r₂ λ token_addr _ r₃.
          >>=-elim (h.addr_canonicalize token_addr) _ r₃ λ token_canonical _ r₄.
            >>=-elim (h.addr_canonicalize contract) _ r₄ λ address _ r₅.
              let k = pair_key utf8 a b in
              let pair : FactoryPair = record {
                liquidity_token = token_canonical;
                contract_addr = address;
                asset_infos = (a, b);
              } in
              let found = may_load_new k pair state.pairs in
              let tmp = some (record { pair_key = k; asset_infos = (a, b) }) in
              let known =
                found-IsRegistered utf8 h config tmp ((k, pair) ∷ state.pairs) first second a b pair
                  ea eb found in
              (pair, rw (← ok-injective _ state'' r₅) known, ea, eb)

pub update_config-IsOwner :
    (h : Host) (state : FactoryState) (sender : Addr) (owner : Option String)
    (token_code_id pair_code_id : Option ℕ) {state' : FactoryState}
    → execute_update_config h state sender owner token_code_id pair_code_id ≡ ok state'
    → (config config' : FactoryConfig) × (state.config ≡ some config)
      × (h.addr_canonicalize sender ≡ ok config.owner)
      × (state' ≡ record state { config = some config' })
      × (new_owner h owner config.owner ≡ ok config'.owner)
      × (config'.token_code_id ≡ or_current token_code_id config.token_code_id)
      × (config'.pair_code_id ≡ or_current pair_code_id config.pair_code_id)
unfolding execute_update_config
update_config-IsOwner h state sender owner token_code_id pair_code_id {state'} e =
    >>=-elim (load_item state.config) _ e λ config e₁ r₁.
      >>=-elim (h.addr_canonicalize sender) _ r₁ λ canonical e₂ r₂.
        >>=-elim (ensure (canonical == config.owner) _) _ r₂ λ u e₃ r₃.
          >>=-elim (new_owner h owner config.owner) _ r₃ λ owner' e₄ r₄.
            let same : canonical ≡ config.owner =
              (list_beq_iff canonical config.owner).0 (ensure-eq-ok _ _ e₃) in
            (
              config,
              record {
                owner = owner';
                pair_code_id = or_current pair_code_id config.pair_code_id;
                token_code_id = or_current token_code_id config.token_code_id;
              },
              load_item-eq-ok state.config e₁,
              rw (← same) e₂,
              sym (ok-injective _ state' r₄),
              e₄,
              refl,
              refl,
            )

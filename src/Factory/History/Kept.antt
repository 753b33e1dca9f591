-- ===== src/Factory/History/Kept.antt =====
-- What no transaction of contracts/terraswap_factory/src/contract.rs changes.
use terraswap.Prelude.{
  >>=-elim, Bool-cases, List, Option, String, ap, inl, inr, list_beq_iff, list_eq, nat_eq, none, ok,
  ok-injective, refl, some, string_eq, sym, ℕ, ◌==◌, ◌∙◌, ◌∷◌, ◌≡◌, ◌⊎◌,
}
use terraswap.Asset.{PairInfoRaw}
use terraswap.Factory.{
  FactoryPair, FactoryState, PairSubMsg, TmpPairInfo, execute_create_pair, execute_update_config,
  factory_reply, load_item, may_load, pair_key, query_liquidity_token,
}
use terraswap.Factory.History.{
  History, Transaction, create_pair, executed, factory_execute, followed, initial, replied,
  update_config,
}
use terraswap.Factory.Registry.{create_pair_lem, update_config-IsOwner}
use terraswap.Host.{Addr, Host, StdResult}
use terraswap.Stable.Contract.{parsed, unwrap_data}
use terraswap.Stable.Types.{Binary}

-- What a transaction does to the registry: nothing, or it adds a pair under the key of its assets,
-- which was free.
abbrev pub IsGrown : (utf8 : String → List ℕ) → (s t : FactoryState) → Type 0
IsGrown utf8 s t =
    (t.pairs ≡ s.pairs)
    ⊎ ((pair : FactoryPair) × (may_load s.pairs
            (pair_key utf8 pair.asset_infos.0 pair.asset_infos.1)
          ≡ none)
        × (t.pairs ≡ (pair_key utf8 pair.asset_infos.0 pair.asset_infos.1, pair) ∷ s.pairs))

replied_lem :
    (h : Host) (parse_reply : Binary → Option String) (query_raw : Addr → StdResult PairInfoRaw)
    (t : FactoryState) (tmp : TmpPairInfo) (result : Option (Option Binary)) (u : FactoryState)
    → t.tmp_pair_info ≡ some tmp
    → factory_reply h parse_reply query_raw t result ≡ ok u
    → (pair : FactoryPair) × (pair.asset_infos ≡ tmp.asset_infos)
      × (u.pairs ≡ (tmp.pair_key, pair) ∷ t.pairs)
unfolding factory_reply load_item
replied_lem h parse_reply query_raw t tmp result u known r =
    let r₀ = rw known at r in
    >>=-elim (unwrap_data result) _ r₀ λ bytes _ r₁.
      >>=-elim (parsed (parse_reply bytes)) _ r₁ λ contract _ r₂.
        >>=-elim (query_liquidity_token h query_raw contract) _ r₂ λ token_addr _ r₃.
          >>=-elim (h.addr_canonicalize token_addr) _ r₃ λ token_canonical _ r₄.
            >>=-elim (h.addr_canonicalize contract) _ r₄ λ address _ r₅. (
              record {
                liquidity_token = token_canonical;
                contract_addr = address;
                asset_infos = tmp.asset_infos;
              },
              refl,
              ap (λ (x : FactoryState). x.pairs) (sym (ok-injective _ u r₅)),
            )

pub Transaction-IsGrown :
    (utf8 : String → List ℕ) (h : Host) (parse_reply : Binary → Option String)
    (query_raw : Addr → StdResult PairInfoRaw) (s t : FactoryState)
    → Transaction utf8 h parse_reply query_raw s t
    → IsGrown utf8 s t
unfolding factory_execute
Transaction-IsGrown utf8 h parse_reply query_raw s t
      (executed sender (update_config owner token_code_id pair_code_id) e) =
    >>=-elim (execute_update_config h s sender owner token_code_id pair_code_id) _ e λ s' e₁ e₂.
      let (config, config', _, _, same, _, _, _) =
        update_config-IsOwner h s sender owner token_code_id pair_code_id e₁ in
      let same' = ap (λ (x : FactoryState × Option PairSubMsg). x.0) (ok-injective _ _ e₂) in
      inl (ap (λ (x : FactoryState). x.pairs) (sym same' ∙ same))
Transaction-IsGrown utf8 h parse_reply query_raw s t
      (executed sender (create_pair first second) e) =
    >>=-elim (execute_create_pair utf8 h s first second) _ e λ made _ e₂. absurd (cc)
Transaction-IsGrown utf8 h parse_reply query_raw s u
      (replied sender (update_config owner token_code_id pair_code_id) sub result e r) =
    >>=-elim (execute_update_config h s sender owner token_code_id pair_code_id) _ e
      λ s' _ e₂. absurd (cc)
Transaction-IsGrown utf8 h parse_reply query_raw s u
      (replied sender (create_pair first second) sub result {t} e r) =
    >>=-elim (execute_create_pair utf8 h s first second) _ e λ made e₁ e₂.
      let (config, a, b, _, _, free, left) =
        create_pair_lem utf8 h s made.0 first second made.1 e₁ in
      let tmp : made.0.tmp_pair_info
          ≡ some (record { pair_key = pair_key utf8 a b; asset_infos = (a, b) }) =
        ap (λ (x : FactoryState). x.tmp_pair_info) left in
      let pairs : made.0.pairs ≡ s.pairs = ap (λ (x : FactoryState). x.pairs) left in
      let same = ap (λ (x : FactoryState × Option PairSubMsg). x.0) (ok-injective _ _ e₂) in
      let r' = rw (← same) at r in
      let (pair, infos, added) = replied_lem h parse_reply query_raw made.0 _ result u tmp r' in
      inr (
        pair,
        rw infos free,
        rw infos (
            added
            ∙ ap (λ (rest : List (List ℕ × FactoryPair)). (pair_key utf8 a b, pair) ∷ rest) pairs),
      )

-- A pair under another key is found as before.
kept_lem :
    (pairs : List (List ℕ × FactoryPair)) (k key : List ℕ) (new pair : FactoryPair)
    → may_load pairs k ≡ none
    → may_load pairs key ≡ some pair
    → may_load ((k, new) ∷ pairs) key ≡ some pair
unfolding may_load
kept_lem pairs k key new pair free known = elim (Bool-cases (k == key)) [
  | inl y ↦ absurd (both (rw ((list_beq_iff k key).0 y) at free) known)
  | inr n ↦ rw n known
]
  where
    both : may_load pairs key ≡ none → may_load pairs key ≡ some pair → ⊥
    both e e' = absurd (cc)

-- A registered pair stays registered under its key, as it is, whatever transactions follow.
pub History-keeps_pairs :
    (utf8 : String → List ℕ) (h : Host) (parse_reply : Binary → Option String)
    (query_raw : Addr → StdResult PairInfoRaw) (s t : FactoryState) (key : List ℕ)
    (pair : FactoryPair)
    → History utf8 h parse_reply query_raw s t
    → may_load s.pairs key ≡ some pair
    → may_load t.pairs key ≡ some pair
History-keeps_pairs utf8 h parse_reply query_raw s _ key pair initial e = e
History-keeps_pairs utf8 h parse_reply query_raw s u key pair (followed {t} before last) e =
    let known = History-keeps_pairs utf8 h parse_reply query_raw s t key pair before e in
    elim (Transaction-IsGrown utf8 h parse_reply query_raw t u last) [
      | inl same ↦ rw same known
      | inr (added, free, grown) ↦ rw grown (kept_lem t.pairs _ key added pair free known)
    ]

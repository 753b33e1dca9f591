-- ===== src/Factory/History/Keyed.antt =====
-- Under which key contracts/terraswap_factory/src/contract.rs keeps a pair.
use terraswap.Prelude.{
  >>=-elim, All, Bool-cases, List, Option, String, [], ap, inl, inr, list_beq_iff, list_eq, nat_eq,
  none, ok, ok-injective, refl, some, string_eq, sym, ℕ, ◌==◌, ◌∙◌, ◌∷◌, ◌≡◌,
}
use terraswap.Asset.{AssetInfo, AssetInfoRaw, PairInfoRaw, info_to_raw}
use terraswap.Factory.{
  FactoryPair, FactoryState, instantiate, load_item, may_load, pair_key, query_pair_raw,
}
use terraswap.Factory.History.{History, followed, initial}
use terraswap.Factory.History.Kept.{Transaction-IsGrown}
use terraswap.Factory.Registry.{load_item-eq-ok}
use terraswap.Host.{Addr, Host, StdResult}
use terraswap.Stable.Types.{Binary}

-- Every pair is registered under the key of its assets.
abbrev pub IsKeyed : (utf8 : String → List ℕ) → FactoryState → Type 0
IsKeyed utf8 s =
    All
      (λ (entry : List ℕ × FactoryPair).
        entry.0 ≡ pair_key utf8 entry.1.asset_infos.0 entry.1.asset_infos.1)
      s.pairs

pub History-IsKeyed :
    (utf8 : String → List ℕ) (h : Host) (parse_reply : Binary → Option String)
    (query_raw : Addr → StdResult PairInfoRaw) (s t : FactoryState)
    → IsKeyed utf8 s
    → History utf8 h parse_reply query_raw s t
    → IsKeyed utf8 t
History-IsKeyed utf8 h parse_reply query_raw s _ keyed initial = keyed
History-IsKeyed utf8 h parse_reply query_raw s u keyed (followed {t} before last) =
    let keyed' = History-IsKeyed utf8 h parse_reply query_raw s t keyed before in
    elim (Transaction-IsGrown utf8 h parse_reply query_raw t u last) [
      | inl same ↦ rw same keyed'
      | inr (_, _, grown) ↦ rw grown (refl, keyed')
    ]

pub found-IsKeyed :
    (utf8 : String → List ℕ) (pairs : List (List ℕ × FactoryPair)) (key : List ℕ)
    (pair : FactoryPair)
    → All
        (λ (entry : List ℕ × FactoryPair).
          entry.0 ≡ pair_key utf8 entry.1.asset_infos.0 entry.1.asset_infos.1)
        pairs
    → may_load pairs key ≡ some pair
    → key ≡ pair_key utf8 pair.asset_infos.0 pair.asset_infos.1
unfolding may_load
found-IsKeyed utf8 [] key pair keyed e = cc
found-IsKeyed utf8 ((k, other') ∷ pairs) key pair (here, keyed) e = elim (Bool-cases (k == key)) [
  | inl y ↦
      let same : other' ≡ pair = some-injective (rw y at e) in
      sym ((list_beq_iff k key).0 y) ∙ rw (← same) here
  | inr n ↦ found-IsKeyed utf8 pairs key pair keyed (rw n at e)
]
  where
    some-injective : {a b : FactoryPair} → some a ≡ some b → a ≡ b
    some-injective e = cc

pub instantiate-IsKeyed :
    (utf8 : String → List ℕ) (h : Host) (sender : Addr) (pair_code_id token_code_id : ℕ)
    (s : FactoryState)
    → instantiate h
        (record { config = none; tmp_pair_info = none; pairs = [] })
        sender
        pair_code_id
        token_code_id
      ≡ ok s
    → IsKeyed utf8 s
unfolding instantiate
instantiate-IsKeyed utf8 h sender pair_code_id token_code_id s e =
    >>=-elim (h.addr_canonicalize sender) _ e λ owner _ e₁.
      let empty : s.pairs ≡ [] = ap (λ (x : FactoryState). x.pairs) (sym (ok-injective _ s e₁)) in
      rw empty tt

-- At any time after `instantiate` of an empty store, a pair that is found for two assets is one
-- whose own assets have the same key as these.
pub History-query_pair :
    (utf8 : String → List ℕ) (h : Host) (parse_reply : Binary → Option String)
    (query_raw : Addr → StdResult PairInfoRaw) (sender : Addr) (pair_code_id token_code_id : ℕ)
    (s t : FactoryState) (first second : AssetInfo) (pair : FactoryPair)
    → instantiate h
        (record { config = none; tmp_pair_info = none; pairs = [] })
        sender
        pair_code_id
        token_code_id
      ≡ ok s
    → History utf8 h parse_reply query_raw s t
    → query_pair_raw utf8 h t first second ≡ ok pair
    → (a b : AssetInfoRaw) × (info_to_raw h first ≡ ok a)
      × (info_to_raw h second ≡ ok b)
      × (pair_key utf8 pair.asset_infos.0 pair.asset_infos.1 ≡ pair_key utf8 a b)
unfolding query_pair_raw load_item
History-query_pair utf8 h parse_reply query_raw sender pair_code_id token_code_id s t first second
      pair e before r =
    let start_keyed = instantiate-IsKeyed utf8 h sender pair_code_id token_code_id s e in
    let keyed = History-IsKeyed utf8 h parse_reply query_raw s t start_keyed before in
    >>=-elim (info_to_raw h first) _ r λ a ea r₁. >>=-elim (info_to_raw h second) _ r₁ λ b eb r₂.
      let known = load_item-eq-ok (may_load t.pairs (pair_key utf8 a b)) r₂ in
      (a, b, ea, eb, sym (found-IsKeyed utf8 t.pairs (pair_key utf8 a b) pair keyed known))

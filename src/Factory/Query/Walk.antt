-- ===== src/Factory/Query/Walk.antt =====
-- The pages of `query_pairs` (contracts/terraswap_factory/src/contract.rs) one after the other.
use mathlib.Core.Option.{some-injective}
use terraswap.Prelude.{
  >>=-elim, All, Bool, Bool-cases, List, Option, String, [], arith, false, if◌then◌else◌, inl, inr,
  length, ltb, none, ok, ok-injective, refl, some, suc, true, zero, ℕ, ◌++◌, ◌<◌, ◌∷◌, ◌≡◌, ◌⊎◌,
}
use terraswap.Asset.{
  AssetInfo, AssetInfoRaw, PairInfoRaw, info_to_normal, info_to_raw, native_token, native_token_raw,
  token, token_raw,
}
use terraswap.Deprecated.Types.{PairView}
use terraswap.Factory.{FactoryPair, FactoryState, bytes_lt, instantiate, may_load}
use terraswap.Factory.History.{History}
use terraswap.Factory.History.Keyed.{History-IsKeyed, IsKeyed, found-IsKeyed, instantiate-IsKeyed}
use terraswap.Factory.Query.{Entries, page_limit, query_pairs, view_of}
use terraswap.Factory.Query.Complete.{
  Any, IsOrdered, IsPast, IsShownBefore, query_pairs-IsShownOrLater,
}
use terraswap.Factory.Query.Pages.{IsRange}
use terraswap.Host.{Addr, Host, IsCanonical, StdResult}
use terraswap.Stable.Types.{Binary}

abbrev pub last {ℓ} : {A : Type ℓ} → List A → Option A
last [] = none
last (x ∷ []) = some x
last (x ∷ y ∷ ys) = last (y ∷ ys)

-- What a reader does: after a full page the next one starts after the last pair listed, and a page
-- that is not full is the last one.
pub data Walk (utf8 : String → List ℕ) (h : Host)
    (range : List (List ℕ × FactoryPair) → Option (List ℕ) → Entries) (state : FactoryState)
    (limit : Option ℕ) : Option (AssetInfo × AssetInfo) → List PairView → Type 0 where
  last_page :
      {from : Option (AssetInfo × AssetInfo)} {page : List PairView}
      → query_pairs utf8 h range state from limit ≡ ok page
      → length page < page_limit limit
      → Walk utf8 h range state limit from page
  full_page :
      {from : Option (AssetInfo × AssetInfo)} {page rest : List PairView} {view : PairView}
      → query_pairs utf8 h range state from limit ≡ ok page
      → last page ≡ some view
      → Walk utf8 h range state limit (some view.asset_infos) rest
      → Walk utf8 h range state limit from (page ++ rest)

-- The key is that of a registered pair with a 1 byte added, or a 0 byte and more.
abbrev pub IsSkipped : FactoryState → List ℕ → Type 0
IsSkipped state key =
    (k : List ℕ) × (pair : FactoryPair) × (may_load state.pairs k ≡ some pair)
    × ((key ≡ k ++ (1 ∷ [])) ⊎ ((more : List ℕ) × (key ≡ k ++ (0 ∷ more))))

same_head :
    (x y : ℕ) (b b' : Bool)
    → (if ltb x y then true else if ltb y x then false else b) ≡ true
    → (if ltb x y then true else if ltb y x then false else b') ≡ false
    → (x ≡ y) × (b ≡ true) × (b' ≡ false)
same_head x y b b' e e' = ground arith

between_lem :
    (k key : List ℕ)
    → bytes_lt k key ≡ true
    → bytes_lt (k ++ (1 ∷ [])) key ≡ false
    → (key ≡ k ++ (1 ∷ [])) ⊎ ((more : List ℕ) × (key ≡ k ++ (0 ∷ more)))
unfolding bytes_lt
between_lem [] [] e e' = absurd (cc)
between_lem [] (zero ∷ ys) e e' = inr (ys, refl)
between_lem [] (suc zero ∷ []) e e' = inl refl
between_lem [] (suc zero ∷ y ∷ ys) e e' = absurd (cc)
between_lem [] (suc (suc y) ∷ ys) e e' = absurd (ground (arith, e'))
between_lem (x ∷ xs) [] e e' = absurd (cc)
between_lem (x ∷ xs) (y ∷ ys) e e' =
    let (same, less, not_less) =
      same_head x y (bytes_lt xs ys) (bytes_lt (xs ++ (1 ∷ [])) ys) e e' in
    elim (between_lem xs ys less not_less) [
      | inl one ↦ inl (rw (same, one) refl)
      | inr (more, rest) ↦ inr (more, rw (same, rest) refl)
    ]

info_to_raw-info_to_normal :
    (h : Host) (laws : IsCanonical h) (raw : AssetInfoRaw) (info : AssetInfo)
    → info_to_normal h raw ≡ ok info
    → info_to_raw h info ≡ ok raw
unfolding info_to_raw info_to_normal
info_to_raw-info_to_normal h laws (native_token_raw denom) info e =
    rw (← ok-injective (native_token denom) info e)
info_to_raw-info_to_normal h laws (token_raw contract_addr) info e =
    >>=-elim (h.addr_humanize contract_addr) _ e λ human e₁ e₂.
      rw (← ok-injective (token human) info e₂)
        (rw (laws.canonicalize_lem contract_addr human e₁) refl)

-- The assets of a view are those of the pair.
pub view_of_lem :
    (h : Host) (laws : IsCanonical h) (pair : FactoryPair) (view : PairView)
    → view_of h pair ≡ ok view
    → (info_to_raw h view.asset_infos.0 ≡ ok pair.asset_infos.0)
      × (info_to_raw h view.asset_infos.1 ≡ ok pair.asset_infos.1)
unfolding view_of
view_of_lem h laws pair view e = >>=-elim (info_to_normal h pair.asset_infos.0) _ e λ first e₁ r₁.
    >>=-elim (info_to_normal h pair.asset_infos.1) _ r₁ λ second e₂ r₂.
      >>=-elim (h.addr_humanize pair.liquidity_token) _ r₂ λ lp _ r₃.
        >>=-elim (h.addr_humanize pair.contract_addr) _ r₃ λ contract _ r₄.
          rw (← ok-injective _ view r₄) (
            info_to_raw-info_to_normal h laws pair.asset_infos.0 first e₁,
            info_to_raw-info_to_normal h laws pair.asset_infos.1 second e₂,
          )

pub last_lem :
    (P : PairView → Type 0) (page : List PairView) (view : PairView)
    → last page ≡ some view
    → All P page
    → P view
last_lem P [] view e all = absurd (cc)
last_lem P (x ∷ []) view e (px, _) = rw (← some-injective x view e) px
last_lem P (x ∷ y ∷ ys) view e (_, all) = last_lem P (y ∷ ys) view e all

-- One of either list.
Any-left : (P : PairView → Type 0) (xs ys : List PairView) → Any P xs → Any P (xs ++ ys)
Any-left P [] ys at = elim at [ ]
Any-left P (x ∷ xs) ys (inl here) = inl here
Any-left P (x ∷ xs) ys (inr there) = inr (Any-left P xs ys there)

Any-right : (P : PairView → Type 0) (xs ys : List PairView) → Any P ys → Any P (xs ++ ys)
Any-right P [] ys at = at
Any-right P (x ∷ xs) ys at = inr (Any-right P xs ys at)

module _ (utf8 : String → List ℕ) (h : Host) (canonical : IsCanonical h)
    (range : List (List ℕ × FactoryPair) → Option (List ℕ) → Entries) (laws : IsRange range)
    (order : IsOrdered range) (state : FactoryState) (keyed : IsKeyed utf8 state)
    (limit : Option ℕ) where
  -- After a full page, a pair that is left out is past the start of the next page, or skipped.
  next_lem :
      (key : List ℕ) (view : PairView)
      → IsShownBefore h state key view
      → IsPast utf8 h (some view.asset_infos) key ⊎ IsSkipped state key
  next_lem key view (k, pair, registered, viewed, less) =
      let (e₁, e₂) = view_of_lem h canonical pair view viewed in
      let kept = found-IsKeyed utf8 state.pairs k pair keyed registered in
      elim (Bool-cases (bytes_lt (k ++ (1 ∷ [])) key)) [
        | inl past ↦ inl (pair.asset_infos.0, pair.asset_infos.1, e₁, e₂, rw (← kept) past)
        | inr not_past ↦ inr (k, pair, registered, between_lem k key less not_past)
      ]

  walk_lem :
      (from : Option (AssetInfo × AssetInfo)) (views : List PairView) (key : List ℕ)
      (pair : FactoryPair)
      → Walk utf8 h range state limit from views
      → may_load state.pairs key ≡ some pair
      → IsPast utf8 h from key
      → Any (λ (view : PairView). view_of h pair ≡ ok view) views ⊎ IsSkipped state key
  walk_lem _ _ key pair (last_page {from} {page} r few) known past =
      elim (query_pairs-IsShownOrLater utf8 h range laws order state from limit page key pair r
        known past) [ inl listed ↦ inl listed | inr (full, _) ↦ absurd (omega (arith, few, full)) ]
  walk_lem _ _ key pair (full_page {from} {page} {rest} {view} r at_end further) known past =
      elim (query_pairs-IsShownOrLater utf8 h range laws order state from limit page key pair r
        known past) [
          | inl listed ↦ inl (Any-left (λ (v : PairView). view_of h pair ≡ ok v) page rest listed)
          | inr (_, before) ↦
              elim (next_lem key view
                (last_lem (IsShownBefore h state key) page view at_end before)) [
                  | inl past' ↦
                      elim (walk_lem (some view.asset_infos) rest key pair further known past') [
                        | inl listed ↦
                            inl
                              (Any-right (λ (v : PairView). view_of h pair ≡ ok v) page rest listed)
                        | inr skipped ↦ inr skipped
                      ]
                  | inr skipped ↦ inr skipped
                ]
        ]

-- At any time after `instantiate` of an empty store, pages of any one limit, each after the last
-- pair of the page before, until one is not full, show every registered pair, but for those that
-- `IsSkipped` names: those whose key is the key of another registered pair with a 1 byte added,
-- or a 0 byte and more. The storage lists the entries after the bound that it is given, all of
-- them and in order, and addresses are read back as they were.
pub Walk-lists_registered :
    (utf8 : String → List ℕ) (h : Host) (canonical : IsCanonical h)
    (range : List (List ℕ × FactoryPair) → Option (List ℕ) → Entries) (laws : IsRange range)
    (order : IsOrdered range) (parse_reply : Binary → Option String)
    (query_raw : Addr → StdResult PairInfoRaw) (sender : Addr) (pair_code_id token_code_id : ℕ)
    (s t : FactoryState) (limit : Option ℕ) (views : List PairView) (key : List ℕ)
    (pair : FactoryPair)
    → instantiate h
        (record { config = none; tmp_pair_info = none; pairs = [] })
        sender
        pair_code_id
        token_code_id
      ≡ ok s
    → History utf8 h parse_reply query_raw s t
    → Walk utf8 h range t limit none views
    → may_load t.pairs key ≡ some pair
    → Any (λ (view : PairView). view_of h pair ≡ ok view) views ⊎ IsSkipped t key
Walk-lists_registered utf8 h canonical range laws order parse_reply query_raw sender pair_code_id
      token_code_id s t limit views key pair e before walk known =
    let start_keyed = instantiate-IsKeyed utf8 h sender pair_code_id token_code_id s e in
    let keyed = History-IsKeyed utf8 h parse_reply query_raw s t start_keyed before in
    walk_lem utf8 h canonical range laws order t keyed limit none views key pair walk known tt

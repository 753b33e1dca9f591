-- ===== src/Factory/Query/Pages.antt =====
-- What a page of `query_pairs` (contracts/terraswap_factory/src/contract.rs) lists.
use terraswap.Prelude.{
  >>=-elim, All, List, Option, String, [], ap, arith, err, length, none, ok, ok-injective, panic,
  refl, some, suc, traverse, true, zero, ℕ, ◌++◌, ◌∷◌, ◌≡◌, ◌≤◌,
}
use terraswap.Asset.{AssetInfo, AssetInfoRaw, info_to_raw}
use terraswap.Deprecated.Types.{PairView}
use terraswap.Factory.{FactoryPair, FactoryState, bytes_lt, calc_range_start, may_load, pair_key}
use terraswap.Factory.Query.{Entries, page_limit, read_item, read_pairs, take, view_of}
use terraswap.Host.{Host, StdResult}
use terraswap.Router.{shown}

-- The entry's key is after the bound, if there is one.
abbrev pub IsBeyond : Option (List ℕ) → List ℕ → Type 0
IsBeyond none key = Unit
IsBeyond (some bound) key = bytes_lt bound key ≡ true

abbrev pub IsEntry :
    List (List ℕ × FactoryPair) → Option (List ℕ) → StdResult (List ℕ × FactoryPair) → Type 0
IsEntry pairs bound (ok (key, pair)) = (may_load pairs key ≡ some pair) × IsBeyond bound key
IsEntry pairs bound (err e) = Unit
IsEntry pairs bound panic = Unit

-- `Map::range` lists entries of the map whose keys are after the bound.
pub record IsRange (range : List (List ℕ × FactoryPair) → Option (List ℕ) → Entries) : Type 0 where
  pub range_lem :
      (pairs : List (List ℕ × FactoryPair)) (bound : Option (List ℕ))
      → All (IsEntry pairs bound) (range pairs bound)

-- The key is after that of the two assets, if they are given.
abbrev pub IsAfter :
    (utf8 : String → List ℕ) → Host → Option (AssetInfo × AssetInfo) → List ℕ → Type 0
IsAfter utf8 h none key = Unit
IsAfter utf8 h (some (first, second)) key =
    (a b : AssetInfoRaw) × (info_to_raw h first ≡ ok a)
    × (info_to_raw h second ≡ ok b)
    × (bytes_lt (pair_key utf8 a b) key ≡ true)

-- The pair shown is registered under a key after that of the two assets.
abbrev pub IsListed :
    (utf8 : String → List ℕ)
    → Host
    → FactoryState
    → Option (AssetInfo × AssetInfo)
    → PairView
    → Type 0
IsListed utf8 h state start_after view =
    (key : List ℕ) × (pair : FactoryPair) × (may_load state.pairs key ≡ some pair)
    × (view_of h pair ≡ ok view)
    × IsAfter utf8 h start_after key

pub bytes_lt-append : (xs zs ys : List ℕ) → bytes_lt (xs ++ zs) ys ≡ true → bytes_lt xs ys ≡ true
unfolding bytes_lt
bytes_lt-append [] [] [] e = e
bytes_lt-append [] (z ∷ zs) [] e = e
bytes_lt-append [] zs (y ∷ ys) e = refl
bytes_lt-append (x ∷ xs) zs [] e = e
bytes_lt-append (x ∷ xs) zs (y ∷ ys) e = ground (arith, bytes_lt-append xs zs ys)

take-length {ℓ} : {A : Type ℓ} (n : ℕ) (xs : List A) → length (take n xs) ≤ n
take-length zero xs = omega arith
take-length (suc n) [] = omega arith
take-length (suc n) (x ∷ xs) = let e = take-length n xs in omega (arith, e)

pub take-All {ℓ κ} :
    {A : Type ℓ} (P : A → Type κ) (n : ℕ) (xs : List A) → All P xs → All P (take n xs)
take-All P zero xs all = tt
take-All P (suc n) [] all = tt
take-All P (suc n) (x ∷ xs) (px, all) = (px, take-All P n xs all)

-- The pair shown is that of an entry after the bound.
abbrev pub IsShownFrom : Host → List (List ℕ × FactoryPair) → Option (List ℕ) → PairView → Type 0
IsShownFrom h pairs bound view =
    (key : List ℕ) × (pair : FactoryPair) × (may_load pairs key ≡ some pair)
    × (view_of h pair ≡ ok view)
    × IsBeyond bound key

items_lem :
    (h : Host) (pairs : List (List ℕ × FactoryPair)) (bound : Option (List ℕ)) (items : Entries)
    (page : List PairView)
    → All (IsEntry pairs bound) items
    → traverse (read_item h) items ≡ ok page
    → (length page ≡ length items) × All (IsShownFrom h pairs bound) page
unfolding read_item
items_lem h pairs bound [] page all r = rw (← ok-injective [] page r) (refl, tt)
items_lem h pairs bound (ok (key, pair) ∷ items) page ((registered, after), all) r =
    >>=-elim (view_of h pair) _ r λ view e r₁.
      >>=-elim (traverse (read_item h) items) _ r₁ λ views e' r₂.
        let (same, shown) = items_lem h pairs bound items views all e' in
        rw (← ok-injective (view ∷ views) page r₂)
          (ap suc same, ((key, pair, registered, e, after), shown))
items_lem h pairs bound (err x ∷ items) page all r = absurd (cc)
items_lem h pairs bound (panic ∷ items) page all r = absurd (cc)

pub page_lem :
    (utf8 : String → List ℕ) (h : Host)
    (range : List (List ℕ × FactoryPair) → Option (List ℕ) → Entries) (laws : IsRange range)
    (state : FactoryState) (raw : Option (AssetInfoRaw × AssetInfoRaw)) (limit : Option ℕ)
    (page : List PairView)
    → read_pairs utf8 h range state raw limit ≡ ok page
    → (length page ≤ page_limit limit)
      × All (IsShownFrom h state.pairs (calc_range_start utf8 raw)) page
unfolding read_pairs
page_lem utf8 h range laws state raw limit page r =
    let bound = calc_range_start utf8 raw in
    let items = range state.pairs bound in
    let entries = laws.range_lem state.pairs bound in
    let (same, shown) =
      items_lem h state.pairs bound (take (page_limit limit) items) page
        (take-All (IsEntry state.pairs bound) (page_limit limit) items entries) r in
    (rw same (take-length (page_limit limit) items), shown)

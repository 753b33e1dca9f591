-- ===== src/Factory/Query/Complete.antt =====
-- Which pairs a page of `query_pairs` (contracts/terraswap_factory/src/contract.rs) leaves out.
use terraswap.Prelude.{
  >>=-elim, All, List, Option, String, [], ap, err, inl, inr, length, none, ok, ok-injective, panic,
  refl, some, suc, traverse, true, zero, ℕ, ◌++◌, ◌>>=◌, ◌∙◌, ◌∷◌, ◌≡◌, ◌⊎◌,
}
use terraswap.Asset.{AssetInfo, AssetInfoRaw, info_to_raw}
use terraswap.Deprecated.Types.{PairView}
use terraswap.Factory.{FactoryPair, FactoryState, bytes_lt, calc_range_start, may_load, pair_key}
use terraswap.Factory.Query.{
  Entries, page_limit, query_pairs, raw_start, read_item, read_pairs, take, view_of,
}
use terraswap.Factory.Query.Pages.{IsBeyond, IsEntry, IsRange, take-All}
use terraswap.Host.{Host, StdResult}

-- One of the entries has the property.
abbrev pub Any {ℓ} : {A : Type ℓ} → (A → Type 0) → List A → Type 0
Any P [] = ⊥
Any P (x ∷ xs) = P x ⊎ Any P xs

-- An entry that can be read has a smaller key.
abbrev pub IsBefore : (key : List ℕ) → StdResult (List ℕ × FactoryPair) → Type 0
IsBefore key (ok (k, pair)) = bytes_lt k key ≡ true
IsBefore key (err e) = Unit
IsBefore key panic = Unit

-- Each entry that can be read has a key after that of the ones before it.
abbrev pub IsAscending : Entries → Type 0
IsAscending [] = Unit
IsAscending (item ∷ items) =
    ((key : List ℕ) (pair : FactoryPair)
      → Any (λ (x : StdResult (List ℕ × FactoryPair)). x ≡ ok (key, pair)) items
      → IsBefore key item)
    × IsAscending items

-- `Map::range` lists every entry of the map whose key is after the bound, in ascending order.
pub record IsOrdered (range : List (List ℕ × FactoryPair) → Option (List ℕ) → Entries)
    : Type 0 where
  pub ascending_lem :
      (pairs : List (List ℕ × FactoryPair)) (bound : Option (List ℕ))
      → IsAscending (range pairs bound)
  pub all_lem :
      (pairs : List (List ℕ × FactoryPair)) (bound : Option (List ℕ)) (key : List ℕ)
      (pair : FactoryPair)
      → may_load pairs key ≡ some pair
      → IsBeyond bound key
      → Any (λ (item : StdResult (List ℕ × FactoryPair)). item ≡ ok (key, pair)) (range pairs bound)

-- The key is after the bound that the page for the two assets starts from, if they are given.
abbrev pub IsPast :
    (utf8 : String → List ℕ) → Host → Option (AssetInfo × AssetInfo) → List ℕ → Type 0
IsPast utf8 h none key = Unit
IsPast utf8 h (some (first, second)) key =
    (a b : AssetInfoRaw) × (info_to_raw h first ≡ ok a)
    × (info_to_raw h second ≡ ok b)
    × (bytes_lt (pair_key utf8 a b ++ (1 ∷ [])) key ≡ true)

-- The view is of a registered pair with a smaller key.
abbrev pub IsShownBefore : Host → FactoryState → (key : List ℕ) → PairView → Type 0
IsShownBefore h state key view =
    (k : List ℕ) × (pair : FactoryPair) × (may_load state.pairs k ≡ some pair)
    × (view_of h pair ≡ ok view)
    × (bytes_lt k key ≡ true)

-- The pair is on the page, or the page is full of pairs with smaller keys.
abbrev pub IsShownOrLater :
    Host
    → FactoryState
    → (limit : Option ℕ) → (key : List ℕ) → FactoryPair
    → (page : List PairView) → Type 0
IsShownOrLater h state limit key pair page =
    Any (λ (view : PairView). view_of h pair ≡ ok view) page
    ⊎ ((length page ≡ page_limit limit) × All (IsShownBefore h state key) page)

-- An entry is among the first `n`, or after all of these.
taken_lem :
    (key : List ℕ) (pair : FactoryPair) (n : ℕ) (items : Entries)
    → IsAscending items
    → Any (λ (x : StdResult (List ℕ × FactoryPair)). x ≡ ok (key, pair)) items
    → Any (λ (x : StdResult (List ℕ × FactoryPair)). x ≡ ok (key, pair)) (take n items)
      ⊎ ((length (take n items) ≡ n) × All (IsBefore key) (take n items))
taken_lem key pair n [] rising at = elim at [ ]
taken_lem key pair zero (item ∷ items) rising at = inr (refl, tt)
taken_lem key pair (suc n) (item ∷ items) (first, rising) (inl here) = inl (inl here)
taken_lem key pair (suc n) (item ∷ items) (first, rising) (inr there) =
    elim (taken_lem key pair n items rising there) [
      | inl listed ↦ inl (inr listed)
      | inr (full, before) ↦ inr (ap suc full, (first key pair there, before))
    ]

shown_lem :
    (h : Host) (key : List ℕ) (pair : FactoryPair) (items : Entries) (page : List PairView)
    → traverse (read_item h) items ≡ ok page
    → Any (λ (x : StdResult (List ℕ × FactoryPair)). x ≡ ok (key, pair)) items
    → Any (λ (view : PairView). view_of h pair ≡ ok view) page
unfolding read_item
shown_lem h key pair [] page r at = elim at [ ]
shown_lem h key pair (item ∷ items) page r at =
    >>=-elim (item >>= λ entry. view_of h entry.1) _ r λ view e r₁.
      >>=-elim (traverse (read_item h) items) _ r₁ λ views e' r₂.
        rw (← ok-injective (view ∷ views) page r₂) (elim at [
          | inl here ↦ inl (rw here at e)
          | inr there ↦ inr (shown_lem h key pair items views e' there)
        ])

before_lem :
    (h : Host) (state : FactoryState) (bound : Option (List ℕ)) (key : List ℕ) (items : Entries)
    (page : List PairView)
    → All (IsEntry state.pairs bound) items
    → All (IsBefore key) items
    → traverse (read_item h) items ≡ ok page
    → (length page ≡ length items) × All (IsShownBefore h state key) page
unfolding read_item
before_lem h state bound key [] page known before r = rw (← ok-injective [] page r) (refl, tt)
before_lem h state bound key (ok (k, pair) ∷ items) page ((registered, _), known) (less, before) r =
    >>=-elim (view_of h pair) _ r λ view e r₁.
      >>=-elim (traverse (read_item h) items) _ r₁ λ views e' r₂.
        let (same, listed) = before_lem h state bound key items views known before e' in
        rw (← ok-injective (view ∷ views) page r₂)
          (ap suc same, ((k, pair, registered, e, less), listed))
before_lem h state bound key (err x ∷ items) page known before r = absurd (cc)
before_lem h state bound key (panic ∷ items) page known before r = absurd (cc)

read_pairs-IsShownOrLater :
    (utf8 : String → List ℕ) (h : Host)
    (range : List (List ℕ × FactoryPair) → Option (List ℕ) → Entries) (laws : IsRange range)
    (order : IsOrdered range) (state : FactoryState) (raw : Option (AssetInfoRaw × AssetInfoRaw))
    (limit : Option ℕ) (page : List PairView) (key : List ℕ) (pair : FactoryPair)
    → read_pairs utf8 h range state raw limit ≡ ok page
    → may_load state.pairs key ≡ some pair
    → IsBeyond (calc_range_start utf8 raw) key
    → IsShownOrLater h state limit key pair page
unfolding read_pairs
read_pairs-IsShownOrLater utf8 h range laws order state raw limit page key pair r known past =
    let bound = calc_range_start utf8 raw in
    let items = range state.pairs bound in
    let n = page_limit limit in
    elim (taken_lem key pair n items (order.ascending_lem state.pairs bound)
      (order.all_lem state.pairs bound key pair known past)) [
        | inl listed ↦ inl (shown_lem h key pair (take n items) page r listed)
        | inr (full, before) ↦
            let (same, listed) =
              before_lem h state bound key (take n items) page
                (take-All (IsEntry state.pairs bound) n items (laws.range_lem state.pairs bound))
                before r in
            inr (same ∙ full, listed)
      ]

-- Placeholder.
pub query_pairs-IsShownOrLater :
    (utf8 : String → List ℕ) (h : Host)
    (range : List (List ℕ × FactoryPair) → Option (List ℕ) → Entries) (laws : IsRange range)
    (order : IsOrdered range) (state : FactoryState) (start_after : Option (AssetInfo × AssetInfo))
    (limit : Option ℕ) (page : List PairView) (key : List ℕ) (pair : FactoryPair)
    → query_pairs utf8 h range state start_after limit ≡ ok page
    → may_load state.pairs key ≡ some pair
    → IsPast utf8 h start_after key
    → IsShownOrLater h state limit key pair page
unfolding query_pairs raw_start calc_range_start
query_pairs-IsShownOrLater utf8 h range laws order state none limit page key pair r known past =
    read_pairs-IsShownOrLater utf8 h range laws order state none limit page key pair r known tt
query_pairs-IsShownOrLater utf8 h range laws order state (some (first, second)) limit page key pair
      r known (a, b, ea, eb, past) =
    let r₁ = rw (ea, eb) at r in
    read_pairs-IsShownOrLater utf8 h range laws order state (some (a, b)) limit page key pair r₁
      known past

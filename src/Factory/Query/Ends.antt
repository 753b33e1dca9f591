-- ===== src/Factory/Query/Ends.antt =====
-- That the pages of `query_pairs` (contracts/terraswap_factory/src/contract.rs) come to an end.
use terraswap.Prelude.{
  All, List, Option, String, [], arith, inl, inr, length, none, ok, refl, some, suc, traverse, true,
  zero, ℕ, ◌++◌, ◌<◌, ◌∷◌, ◌≡◌, ◌≤◌, ◌⊎◌,
}
use terraswap.Asset.{AssetInfo, AssetInfoRaw, PairInfoRaw}
use terraswap.Deprecated.Types.{PairView}
use terraswap.Factory.{FactoryPair, FactoryState, bytes_lt, calc_range_start, instantiate, may_load}
use terraswap.Factory.History.{History}
use terraswap.Factory.History.Keyed.{History-IsKeyed, IsKeyed, found-IsKeyed, instantiate-IsKeyed}
use terraswap.Factory.Query.{
  Entries, page_limit, query_pairs, raw_start, read_item, read_pairs, take, view_of,
}
use terraswap.Factory.Query.Complete.{IsOrdered}
use terraswap.Factory.Query.Pages.{
  IsBeyond, IsRange, IsShownFrom, bytes_lt-append, page_lem, take-All,
}
use terraswap.Factory.Query.Suffix.{IsSuffix, keep, keep-keep, keep-lt, next_lem, trans_lem}
use terraswap.Factory.Query.Walk.{Walk, full_page, last, last_lem, last_page, view_of_lem}
use terraswap.Host.{Addr, Host, IsCanonical, StdResult}
use terraswap.Stable.Types.{Binary}

-- An entry that is read, of a pair that can be shown.
abbrev pub IsReadable : Host → StdResult (List ℕ × FactoryPair) → Type 0
IsReadable h item =
    (key : List ℕ) × (pair : FactoryPair) × (view : PairView) × (item ≡ ok (key, pair))
    × (view_of h pair ≡ ok view)

readable_page :
    (h : Host) (items : Entries)
    → All (IsReadable h) items
    → (page : List PairView) × (traverse (read_item h) items ≡ ok page)
unfolding read_item
readable_page h [] all = ([], refl)
readable_page h (item ∷ items) ((key, pair, view, e, viewed), all) =
    let (views, rest) = readable_page h items all in (view ∷ views, rw (e, viewed, rest) refl)

page_end : (page : List PairView) → 0 < length page → (view : PairView) × (last page ≡ some view)
page_end [] pos = absurd (omega (arith, pos))
page_end (x ∷ []) pos = (x, refl)
page_end (x ∷ y ∷ ys) pos = page_end (y ∷ ys) (omega arith)

lt-cases : (a b : ℕ) → (a < b) ⊎ (b ≤ a)
lt-cases a b = ground arith

module _ (utf8 : String → List ℕ) (h : Host) (canonical : IsCanonical h)
    (range : List (List ℕ × FactoryPair) → Option (List ℕ) → Entries) (laws : IsRange range)
    (order : IsOrdered range) (suffix : IsSuffix range) (state : FactoryState)
    (keyed : IsKeyed utf8 state)
    (readable : (bound : Option (List ℕ)) → All (IsReadable h) (range state.pairs bound))
    (limit : Option ℕ) (some_limit : 0 < page_limit limit) where
  -- What is left after a pair past the bound is less than what is left from the bound on.
  left_lem :
      (bound : Option (List ℕ)) (k : List ℕ) (pair : FactoryPair)
      → may_load state.pairs k ≡ some pair
      → IsBeyond bound k
      → length (range state.pairs (some (k ++ (1 ∷ [])))) < length (range state.pairs bound)
  left_lem none k pair registered past = rw (suffix.from_lem state.pairs (k ++ (1 ∷ []))) (
      keep-lt (k ++ (1 ∷ [])) k pair (range state.pairs none) (next_lem k)
        (order.all_lem state.pairs none k pair registered past))
  left_lem (some bound) k pair registered past =
      let wider : (key : List ℕ) → bytes_lt (k ++ (1 ∷ [])) key ≡ true → bytes_lt bound key ≡ true =
        λ key e. trans_lem bound k key past (bytes_lt-append k (1 ∷ []) key e) in
      let less : length (keep (k ++ (1 ∷ [])) (range state.pairs (some bound)))
          < length (range state.pairs (some bound)) =
        keep-lt (k ++ (1 ∷ [])) k pair (range state.pairs (some bound)) (next_lem k)
          (order.all_lem state.pairs (some bound) k pair registered past) in
      let same : keep (k ++ (1 ∷ [])) (range state.pairs (some bound))
          ≡ range state.pairs (some (k ++ (1 ∷ []))) =
        rw (suffix.from_lem state.pairs bound, suffix.from_lem state.pairs (k ++ (1 ∷ [])))
          (keep-keep bound (k ++ (1 ∷ [])) (range state.pairs none) wider) in
      rw same at less

  -- The page from any bound on.
  page_from :
      (from : Option (AssetInfo × AssetInfo)) (raw : Option (AssetInfoRaw × AssetInfoRaw))
      → raw_start h from ≡ ok raw
      → (page : List PairView) × (query_pairs utf8 h range state from limit ≡ ok page)
        × All (IsShownFrom h state.pairs (calc_range_start utf8 raw)) page
  unfolding query_pairs read_pairs
  page_from from raw e =
      let items = range state.pairs (calc_range_start utf8 raw) in
      let (page, r) =
        readable_page h (take (page_limit limit) items) (
          take-All (IsReadable h) (page_limit limit) items
            (readable (calc_range_start utf8 raw))) in
      let (_, listed) = page_lem utf8 h range laws state raw limit page r in (page, rw e r, listed)

  -- After a pair past the bound, the next page starts from its key.
  start_lem :
      (bound : Option (List ℕ)) (view : PairView)
      → IsShownFrom h state.pairs bound view
      → (raw : Option (AssetInfoRaw × AssetInfoRaw)) × (raw_start h (some view.asset_infos)
          ≡ ok raw)
        × (length (range state.pairs (calc_range_start utf8 raw))
            < length (range state.pairs bound))
  unfolding raw_start calc_range_start
  start_lem bound view (k, pair, registered, viewed, past) =
      let (e₁, e₂) = view_of_lem h canonical pair view viewed in
      let kept = found-IsKeyed utf8 state.pairs k pair keyed registered in
      let less = left_lem bound k pair registered past in
      (some pair.asset_infos, rw (e₁, e₂) refl, rw (← kept) less)

  pages_from :
      (n : ℕ) (from : Option (AssetInfo × AssetInfo)) (raw : Option (AssetInfoRaw × AssetInfoRaw))
      → raw_start h from ≡ ok raw
      → length (range state.pairs (calc_range_start utf8 raw)) < n
      → (views : List PairView) × Walk utf8 h range state limit from views
  pages_from zero from raw e few = absurd (omega (arith, few))
  pages_from (suc n) from raw e few =
      let bound = calc_range_start utf8 raw in
      let (page, r, listed) = page_from from raw e in
      elim (lt-cases (length page) (page_limit limit)) [
        | inl short ↦ (page, last_page r short)
        | inr full ↦
            let (view, at_end) = page_end page (omega (arith, full, some_limit)) in
            let (raw', e', less) =
              start_lem bound view
                (last_lem (IsShownFrom h state.pairs bound) page view at_end listed) in
            let (rest, further) =
              pages_from n (some view.asset_infos) raw' e' (omega (arith, less, few)) in
            (page ++ rest, full_page r at_end further)
      ]

-- At any time after `instantiate` of an empty store, for every limit that lets a page have a
-- pair, there are finitely many pages, each after the last pair of the page before, until one is
-- not full, if the storage lists readable entries, all those after the bound that it is given
-- and in order, and from a bound on the same as without it, and addresses are read back as they
-- were.
pub Walk-ends :
    (utf8 : String → List ℕ) (h : Host) (canonical : IsCanonical h)
    (range : List (List ℕ × FactoryPair) → Option (List ℕ) → Entries) (laws : IsRange range)
    (order : IsOrdered range) (suffix : IsSuffix range) (parse_reply : Binary → Option String)
    (query_raw : Addr → StdResult PairInfoRaw) (sender : Addr) (pair_code_id token_code_id : ℕ)
    (s t : FactoryState) (limit : Option ℕ)
    → instantiate h
        (record { config = none; tmp_pair_info = none; pairs = [] })
        sender
        pair_code_id
        token_code_id
      ≡ ok s
    → History utf8 h parse_reply query_raw s t
    → ((bound : Option (List ℕ)) → All (IsReadable h) (range t.pairs bound))
    → 0 < page_limit limit
    → (views : List PairView) × Walk utf8 h range t limit none views
unfolding raw_start
Walk-ends utf8 h canonical range laws order suffix parse_reply query_raw sender pair_code_id
      token_code_id s t limit e before readable some_limit =
    let start_keyed = instantiate-IsKeyed utf8 h sender pair_code_id token_code_id s e in
    let keyed = History-IsKeyed utf8 h parse_reply query_raw s t start_keyed before in
    pages_from utf8 h canonical range laws order suffix t keyed readable limit some_limit
      (suc (length (range t.pairs (calc_range_start utf8 none)))) none none refl (omega arith)

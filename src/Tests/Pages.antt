-- ===== src/Tests/Pages.antt =====
-- The pages of contracts/terraswap_factory/src/contract.rs over a store in order.
use terraswap.Prelude.{
  All, Bool-cases, List, Option, [], ap, arith, inl, inr, none, ok, ok-injective, refl, some, true,
  ℕ, ◌∷◌, ◌≡◌, ◌⊎◌,
}
use terraswap.Deprecated.Types.{PairView}
use terraswap.Factory.{FactoryPair, bytes_lt, calc_range_start, may_load}
use terraswap.Factory.Query.{Entries, query_pairs, raw_start, read_item, read_pairs, view_of}
use terraswap.Factory.Query.Complete.{Any, IsAscending, IsOrdered}
use terraswap.Factory.Query.Ends.{IsReadable, Walk-ends}
use terraswap.Factory.Query.Pages.{IsBeyond, IsEntry, IsRange}
use terraswap.Factory.Query.Suffix.{IsSuffix, keep}
use terraswap.Factory.Query.Walk.{IsSkipped, Walk, Walk-lists_registered, full_page, last_page}
use terraswap.Host.{StdResult}
use terraswap.Tests.Factory.{
  coin_uusd_key, factory_code, factory_state, parse_pair, registered, registered_state, stored_pair,
}
use terraswap.Tests.History.{instantiate_run, kept_run, made, shown_pair}
use terraswap.Tests.Host.{sample_host, sample_host-IsCanonical}
use terraswap.Tests.Store.{
  IsFound, IsIn, Ordered, Pairs, sort, sort-IsFound, sort-IsIn, sort-Ordered, store_range, wrap,
}
use terraswap.Token.{ascii}

keep-IsEntry :
    (pairs xs : Pairs) (bound : List ℕ)
    → All (IsFound pairs) xs
    → All (IsEntry pairs (some bound)) (keep bound (wrap xs))
keep-IsEntry pairs [] bound all = tt
keep-IsEntry pairs ((key, pair) ∷ rest) bound (here, all) = elim (Bool-cases (bytes_lt bound key)) [
  | inl y ↦ rw y ((here, y), keep-IsEntry pairs rest bound all)
  | inr n ↦ rw n (keep-IsEntry pairs rest bound all)
]

wrap-IsEntry : (pairs xs : Pairs) → All (IsFound pairs) xs → All (IsEntry pairs none) (wrap xs)
wrap-IsEntry pairs [] all = tt
wrap-IsEntry pairs ((key, pair) ∷ rest) (here, all) = ((here, tt), wrap-IsEntry pairs rest all)

abbrev IsEntryIn : List ℕ × FactoryPair → Entries → Type 0
IsEntryIn entry items = Any (λ (x : StdResult (List ℕ × FactoryPair)). x ≡ ok entry) items

keep-IsIn :
    (bound : List ℕ) (xs : Pairs) (entry : List ℕ × FactoryPair)
    → IsEntryIn entry (keep bound (wrap xs))
    → IsIn entry xs
keep-IsIn bound [] entry at = elim at [ ]
keep-IsIn bound ((key, pair) ∷ rest) entry at = elim (Bool-cases (bytes_lt bound key)) [
  | inl y ↦ elim (rw y at at) [
    | inl e ↦ inl (ok-injective (key, pair) entry e)
    | inr there ↦ inr (keep-IsIn bound rest entry there)
  ]
  | inr n ↦ inr (keep-IsIn bound rest entry (rw n at at))
]

wrap-IsIn : (xs : Pairs) (entry : List ℕ × FactoryPair) → IsEntryIn entry (wrap xs) → IsIn entry xs
wrap-IsIn [] entry at = elim at [ ]
wrap-IsIn (x ∷ xs) entry (inl e) = inl (ok-injective x entry e)
wrap-IsIn (x ∷ xs) entry (inr there) = inr (wrap-IsIn xs entry there)

later_lem :
    (k : List ℕ) (xs : Pairs) (entry : List ℕ × FactoryPair)
    → All (λ (e : List ℕ × FactoryPair). bytes_lt k e.0 ≡ true) xs
    → IsIn entry xs
    → bytes_lt k entry.0 ≡ true
later_lem k [] entry all at = elim at [ ]
later_lem k (x ∷ xs) entry (first, all) (inl e) = rw e at first
later_lem k (x ∷ xs) entry (first, all) (inr there) = later_lem k xs entry all there

wrap-IsAscending : (xs : Pairs) → Ordered xs → IsAscending (wrap xs)
wrap-IsAscending [] ordered = tt
wrap-IsAscending ((k, p) ∷ rest) (above, ordered) = (
  λ key pair at. later_lem k rest (key, pair) above (wrap-IsIn rest (key, pair) at),
  wrap-IsAscending rest ordered,
)

keep-IsAscending : (bound : List ℕ) (xs : Pairs) → Ordered xs → IsAscending (keep bound (wrap xs))
keep-IsAscending bound [] ordered = tt
keep-IsAscending bound ((k, p) ∷ rest) (above, ordered) = elim (Bool-cases (bytes_lt bound k)) [
  | inl y ↦ rw y (
    λ key pair at. later_lem k rest (key, pair) above (keep-IsIn bound rest (key, pair) at),
    keep-IsAscending bound rest ordered,
  )
  | inr n ↦ rw n (keep-IsAscending bound rest ordered)
]

wrap-IsEntryIn :
    (xs : Pairs) (entry : List ℕ × FactoryPair) → IsIn entry xs → IsEntryIn entry (wrap xs)
wrap-IsEntryIn [] entry at = elim at [ ]
wrap-IsEntryIn (x ∷ xs) entry (inl e) = inl (ap ok e)
wrap-IsEntryIn (x ∷ xs) entry (inr there) = inr (wrap-IsEntryIn xs entry there)

keep-IsEntryIn :
    (bound : List ℕ) (xs : Pairs) (key : List ℕ) (pair : FactoryPair)
    → bytes_lt bound key ≡ true
    → IsIn (key, pair) xs
    → IsEntryIn (key, pair) (keep bound (wrap xs))
keep-IsEntryIn bound [] key pair past at = elim at [ ]
keep-IsEntryIn bound ((k, p) ∷ xs) key pair past (inl e) =
    let known : bytes_lt bound k ≡ true = rw (← ap (λ (e : List ℕ × FactoryPair). e.0) e) at past in
    rw known (inl (ap ok e))
keep-IsEntryIn bound ((k, p) ∷ xs) key pair past (inr there) =
    let rest = keep-IsEntryIn bound xs key pair past there in
    elim (Bool-cases (bytes_lt bound k)) [ inl y ↦ rw y (inr rest) | inr n ↦ rw n rest ]

store_range-IsRange : IsRange store_range
store_range-IsRange = record { range_lem = entries }
  where
    entries :
        (pairs : Pairs) (bound : Option (List ℕ))
        → All (IsEntry pairs bound) (store_range pairs bound)
    entries pairs none = wrap-IsEntry pairs (sort pairs) (sort-IsFound pairs)
    entries pairs (some bound) = keep-IsEntry pairs (sort pairs) bound (sort-IsFound pairs)

store_range-IsOrdered : IsOrdered store_range
store_range-IsOrdered = record { ascending_lem = ascending; all_lem = everything }
  where
    ascending : (pairs : Pairs) (bound : Option (List ℕ)) → IsAscending (store_range pairs bound)
    ascending pairs none = wrap-IsAscending (sort pairs) (sort-Ordered pairs)
    ascending pairs (some bound) = keep-IsAscending bound (sort pairs) (sort-Ordered pairs)

    everything :
        (pairs : Pairs) (bound : Option (List ℕ)) (key : List ℕ) (pair : FactoryPair)
        → may_load pairs key ≡ some pair
        → IsBeyond bound key
        → IsEntryIn (key, pair) (store_range pairs bound)
    everything pairs none key pair known past =
        wrap-IsEntryIn (sort pairs) (key, pair) (sort-IsIn pairs key pair known)
    everything pairs (some bound) key pair known past =
        keep-IsEntryIn bound (sort pairs) key pair past (sort-IsIn pairs key pair known)

store_range-IsSuffix : IsSuffix store_range
store_range-IsSuffix = record { from_lem = λ pairs bound. refl }

abbrev one : Option ℕ
one = some 1

page_code : Unit {0}
unfolding factory_code query_pairs raw_start read_pairs read_item view_of calc_range_start
page_code = tt

first_page :
    query_pairs ascii sample_host store_range registered_state none one ≡ ok (shown_pair ∷ [])
unfolding page_code
first_page = refl

empty_page :
    query_pairs ascii sample_host store_range registered_state (some shown_pair.asset_infos) one
    ≡ ok []
unfolding page_code
empty_page = refl

walk : Walk ascii sample_host store_range registered_state one none (shown_pair ∷ [])
walk = full_page first_page refl (last_page empty_page (omega arith))

Walk-lists_registered_example :
    Any (λ (view : PairView). view_of sample_host registered ≡ ok view) (shown_pair ∷ [])
    ⊎ IsSkipped registered_state coin_uusd_key
Walk-lists_registered_example =
    Walk-lists_registered ascii sample_host sample_host-IsCanonical store_range store_range-IsRange
      store_range-IsOrdered parse_pair stored_pair "coin" 8 7 factory_state registered_state one
      (shown_pair ∷ []) coin_uusd_key registered instantiate_run made walk kept_run

registered_view : view_of sample_host registered ≡ ok shown_pair
unfolding page_code
registered_view = refl

readable :
    (bound : Option (List ℕ))
    → All (IsReadable sample_host) (store_range registered_state.pairs bound)
readable none = ((coin_uusd_key, registered, shown_pair, refl, registered_view), tt)
readable (some bound) = elim (Bool-cases (bytes_lt bound coin_uusd_key)) [
  | inl y ↦ rw y ((coin_uusd_key, registered, shown_pair, refl, registered_view), tt)
  | inr n ↦ rw n tt
]

Walk-ends_example :
    (views : List PairView) × Walk ascii sample_host store_range registered_state one none views
Walk-ends_example =
    Walk-ends ascii sample_host sample_host-IsCanonical store_range store_range-IsRange
      store_range-IsOrdered store_range-IsSuffix parse_pair stored_pair "coin" 8 7 factory_state
      registered_state one instantiate_run made readable (omega arith)

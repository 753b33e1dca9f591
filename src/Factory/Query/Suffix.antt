-- ===== src/Factory/Query/Suffix.antt =====
-- The order of the keys, and the entries after a bound (contracts/terraswap_factory/src/state.rs).
use terraswap.Prelude.{
  Bool-cases, List, Option, [], arith, err, false, if◌then◌else◌, inl, inr, length, none, ok, panic,
  refl, some, true, ℕ, ◌++◌, ◌<◌, ◌∷◌, ◌≡◌, ◌≤◌,
}
use terraswap.Factory.{FactoryPair, bytes_lt}
use terraswap.Factory.Query.{Entries}
use terraswap.Factory.Query.Complete.{Any}
use terraswap.Factory.Query.Pages.{bytes_lt-append}
use terraswap.Host.{StdResult}

-- The entries after the bound.
abbrev pub keep : List ℕ → Entries → Entries
keep bound [] = []
keep bound (ok (key, pair) ∷ items) =
    if bytes_lt bound key then ok (key, pair) ∷ keep bound items else keep bound items
keep bound (err e ∷ items) = err e ∷ keep bound items
keep bound (panic ∷ items) = panic ∷ keep bound items

-- `Map::range` from a bound on lists what it lists without one, but for the entries up to the bound.
pub record IsSuffix (range : List (List ℕ × FactoryPair) → Option (List ℕ) → Entries) : Type 0 where
  pub from_lem :
      (pairs : List (List ℕ × FactoryPair)) (bound : List ℕ)
      → range pairs (some bound) ≡ keep bound (range pairs none)

pub trans_lem :
    (xs ys zs : List ℕ) → bytes_lt xs ys ≡ true → bytes_lt ys zs ≡ true → bytes_lt xs zs ≡ true
unfolding bytes_lt
trans_lem [] [] zs e e' = absurd (cc)
trans_lem [] (y ∷ ys) [] e e' = absurd (cc)
trans_lem [] (y ∷ ys) (z ∷ zs) e e' = refl
trans_lem (x ∷ xs) [] zs e e' = absurd (cc)
trans_lem (x ∷ xs) (y ∷ ys) [] e e' = absurd (cc)
trans_lem (x ∷ xs) (y ∷ ys) (z ∷ zs) e e' = ground (arith, trans_lem xs ys zs)

pub irrefl_lem : (xs : List ℕ) → bytes_lt xs xs ≡ false
unfolding bytes_lt
irrefl_lem [] = refl
irrefl_lem (x ∷ xs) = ground (arith, irrefl_lem xs)

pub next_lem : (k : List ℕ) → bytes_lt (k ++ (1 ∷ [])) k ≡ false
next_lem k = elim (Bool-cases (bytes_lt (k ++ (1 ∷ [])) k)) [
  | inl less ↦
      let self = bytes_lt-append k (1 ∷ []) k less in let not_self = irrefl_lem k in absurd (cc)
  | inr e ↦ e
]

pub keep-keep :
    (b b' : List ℕ) (items : Entries)
    → ((key : List ℕ) → bytes_lt b' key ≡ true → bytes_lt b key ≡ true)
    → keep b' (keep b items) ≡ keep b' items
keep-keep b b' [] wider = refl
keep-keep b b' (ok (key, pair) ∷ items) wider = elim (Bool-cases (bytes_lt b key)) [
  | inl y ↦ rw y (rw (keep-keep b b' items wider) refl)
  | inr n ↦ elim (Bool-cases (bytes_lt b' key)) [
    | inl y' ↦ let y = wider key y' in absurd (cc)
    | inr n' ↦ rw (n, n') (keep-keep b b' items wider)
  ]
]
keep-keep b b' (err e ∷ items) wider = rw (keep-keep b b' items wider) refl
keep-keep b b' (panic ∷ items) wider = rw (keep-keep b b' items wider) refl

keep-le : (b : List ℕ) (items : Entries) → length (keep b items) ≤ length items
keep-le b [] = omega arith
keep-le b (ok (key, pair) ∷ items) = ground (arith, keep-le b items)
keep-le b (err e ∷ items) = let le = keep-le b items in omega (arith, le)
keep-le b (panic ∷ items) = let le = keep-le b items in omega (arith, le)

pub keep-lt :
    (b k : List ℕ) (pair : FactoryPair) (items : Entries)
    → bytes_lt b k ≡ false
    → Any (λ (x : StdResult (List ℕ × FactoryPair)). x ≡ ok (k, pair)) items
    → length (keep b items) < length items
keep-lt b k pair [] out at = elim at [ ]
keep-lt b k pair (item ∷ items) out (inl here) =
    let le = keep-le b items in rw (here, out) (omega (arith, le))
keep-lt b k pair (ok (key, pair') ∷ items) out (inr there) =
    ground (arith, keep-lt b k pair items out there)
keep-lt b k pair (err e ∷ items) out (inr there) =
    let less = keep-lt b k pair items out there in omega (arith, less)
keep-lt b k pair (panic ∷ items) out (inr there) =
    let less = keep-lt b k pair items out there in omega (arith, less)

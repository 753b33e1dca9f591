-- ===== src/Tests/Store.antt =====
-- A store that lists its entries in order, for contracts/terraswap_factory/src/state.rs.
use mathlib.Core.Option.{some-injective}
use terraswap.Prelude.{
  All, Bool, Bool-cases, List, Option, [], ap, arith, false, if◌then◌else◌, inl, inr, list_beq,
  list_beq_iff, list_eq, ltb, nat_eq, none, ok, refl, some, string_eq, sym, true, ℕ, ◌∙◌, ◌∷◌, ◌≡◌,
  ◌≢◌,
}
use terraswap.Factory.{FactoryPair, bytes_lt, may_load}
use terraswap.Factory.Query.{Entries}
use terraswap.Factory.Query.Complete.{Any}
use terraswap.Factory.Query.Suffix.{irrefl_lem, keep, trans_lem}
use terraswap.Tests.Factory.{factory_code}

abbrev pub Pairs : Type 0
Pairs = List (List ℕ × FactoryPair)

abbrev pub enter : List ℕ → FactoryPair → Pairs → Pairs
enter key pair [] = (key, pair) ∷ []
enter key pair ((k, p) ∷ rest) =
    if bytes_lt key k
    then (key, pair) ∷ (k, p) ∷ rest
    else if bytes_lt k key
    then (k, p) ∷ enter key pair rest
    else (key, pair) ∷ rest

-- The first entry for a key counts.
abbrev pub sort : Pairs → Pairs
sort [] = []
sort ((key, pair) ∷ rest) = enter key pair (sort rest)

abbrev pub wrap : Pairs → Entries
wrap [] = []
wrap (entry ∷ rest) = ok entry ∷ wrap rest

abbrev pub store_range : Pairs → Option (List ℕ) → Entries
store_range pairs none = wrap (sort pairs)
store_range pairs (some bound) = keep bound (wrap (sort pairs))

abbrev pub Ordered : Pairs → Type 0
Ordered [] = Unit
Ordered ((k, p) ∷ rest) =
    All (λ (e : List ℕ × FactoryPair). bytes_lt k e.0 ≡ true) rest × Ordered rest

equal_lem : (xs ys : List ℕ) → bytes_lt xs ys ≡ false → bytes_lt ys xs ≡ false → xs ≡ ys
unfolding factory_code
equal_lem [] [] e e' = refl
equal_lem [] (y ∷ ys) e e' = absurd (cc)
equal_lem (x ∷ xs) [] e e' = absurd (cc)
equal_lem (x ∷ xs) (y ∷ ys) e e' =
    let (same, less, less') = same_head x y (bytes_lt xs ys) (bytes_lt ys xs) e e' in
    rw (same, equal_lem xs ys less less') refl
  where
    same_head :
        (x y : ℕ) (b b' : Bool)
        → (if ltb x y then true else if ltb y x then false else b) ≡ false
        → (if ltb y x then true else if ltb x y then false else b') ≡ false
        → (x ≡ y) × (b ≡ false) × (b' ≡ false)
    same_head x y b b' e e' = ground arith

pub differ_lem : (xs ys : List ℕ) → bytes_lt xs ys ≡ true → ys ≢ xs
differ_lem xs ys less same =
    let not_less = irrefl_lem xs in let less' = rw same at less in absurd (cc)

above_lem :
    (key k : List ℕ) (rest : Pairs)
    → bytes_lt key k ≡ true
    → All (λ (e : List ℕ × FactoryPair). bytes_lt k e.0 ≡ true) rest
    → All (λ (e : List ℕ × FactoryPair). bytes_lt key e.0 ≡ true) rest
above_lem key k [] less all = tt
above_lem key k ((k', p) ∷ rest) less (first, all) =
    (trans_lem key k k' less first, above_lem key k rest less all)

-- What holds of the entries with another key.
abbrev Others : (List ℕ × FactoryPair → Type 0) → List ℕ → Pairs → Type 0
Others P key xs = All (λ (e : List ℕ × FactoryPair). e.0 ≢ key → P e) xs

others_lem :
    (P : List ℕ × FactoryPair → Type 0) (key : List ℕ) (xs : Pairs)
    → All (λ (e : List ℕ × FactoryPair). bytes_lt key e.0 ≡ true) xs
    → Others P key xs
    → All P xs
others_lem P key [] above old = tt
others_lem P key ((k, p) ∷ rest) (less, above) (first, old) =
    (first (differ_lem key k less), others_lem P key rest above old)

weaken :
    (P : List ℕ × FactoryPair → Type 0) (key : List ℕ) (xs : Pairs) → All P xs → Others P key xs
weaken P key [] all = tt
weaken P key (x ∷ xs) (first, all) = (λ _. first, weaken P key xs all)

-- The three places of a new entry.
module _ {ℓ} (C : Type ℓ) (key k : List ℕ) (before : bytes_lt key k ≡ true → C)
    (after : bytes_lt key k ≡ false → bytes_lt k key ≡ true → C)
    (here : bytes_lt key k ≡ false → bytes_lt k key ≡ false → key ≡ k → C) where
  placed : C
  placed = elim (Bool-cases (bytes_lt key k)) [
    | inl y ↦ before y
    | inr n ↦ elim (Bool-cases (bytes_lt k key)) [
      | inl y ↦ after n y
      | inr n' ↦ here n n' (equal_lem key k n n')
    ]
  ]

enter-All :
    (P : List ℕ × FactoryPair → Type 0) (key : List ℕ) (pair : FactoryPair) (xs : Pairs)
    → Ordered xs
    → P (key, pair)
    → Others P key xs
    → All P (enter key pair xs)
enter-All P key pair [] ordered new old = (new, tt)
enter-All P key pair ((k, p) ∷ rest) (above, ordered) new (first, old) =
    placed (All P (enter key pair ((k, p) ∷ rest))) key k
      (λ y. rw y (
        new,
        (first (differ_lem key k y), others_lem P key rest (above_lem key k rest y above) old),
      ))
      (λ n y.
        rw (n, y)
          (
            first (λ same. differ_lem k key y (sym same)),
            enter-All P key pair rest ordered new old,
          ))
      (λ n n' same. rw (n, n') (new, others_lem P key rest (rw (← same) at above) old))

enter-Ordered :
    (key : List ℕ) (pair : FactoryPair) (xs : Pairs) → Ordered xs → Ordered (enter key pair xs)
enter-Ordered key pair [] ordered = (tt, tt)
enter-Ordered key pair ((k, p) ∷ rest) (above, ordered) =
    placed (Ordered (enter key pair ((k, p) ∷ rest))) key k
      (λ y. rw y ((y, above_lem key k rest y above), (above, ordered)))
      (λ n y.
        rw (n, y)
          (
            enter-All (λ (e : List ℕ × FactoryPair). bytes_lt k e.0 ≡ true) key pair rest ordered y
                (weaken (λ (e : List ℕ × FactoryPair). bytes_lt k e.0 ≡ true) key rest above),
            enter-Ordered key pair rest ordered,
          ))
      (λ n n' same. rw (n, n') (rw (← same) at above, ordered))

pub sort-Ordered : (pairs : Pairs) → Ordered (sort pairs)
sort-Ordered [] = tt
sort-Ordered ((key, pair) ∷ rest) = enter-Ordered key pair (sort rest) (sort-Ordered rest)

load_here :
    (key : List ℕ) (pair : FactoryPair) (rest : Pairs)
    → may_load ((key, pair) ∷ rest) key ≡ some pair
unfolding factory_code
load_here key pair rest = rw ((list_beq_iff key key).1 refl) refl

load_other :
    (k key : List ℕ) (pair : FactoryPair) (rest : Pairs)
    → k ≢ key
    → may_load ((key, pair) ∷ rest) k ≡ may_load rest k
unfolding factory_code
load_other k key pair rest ne = elim (Bool-cases (list_beq key k)) [
  | inl y ↦ absurd (ne (sym ((list_beq_iff key k).0 y)))
  | inr n ↦ rw n refl
]

abbrev pub IsFound : Pairs → List ℕ × FactoryPair → Type 0
IsFound pairs entry = may_load pairs entry.0 ≡ some entry.1

IsFound-Others :
    (key : List ℕ) (pair : FactoryPair) (rest xs : Pairs)
    → All (IsFound rest) xs
    → Others (IsFound ((key, pair) ∷ rest)) key xs
IsFound-Others key pair rest [] all = tt
IsFound-Others key pair rest ((k, p) ∷ xs) (first, all) =
    (λ ne. load_other k key pair rest ne ∙ first, IsFound-Others key pair rest xs all)

pub sort-IsFound : (pairs : Pairs) → All (IsFound pairs) (sort pairs)
sort-IsFound [] = tt
sort-IsFound ((key, pair) ∷ rest) =
    enter-All (IsFound ((key, pair) ∷ rest)) key pair (sort rest) (sort-Ordered rest)
      (load_here key pair rest) (IsFound-Others key pair rest (sort rest) (sort-IsFound rest))

-- Entry `x` is one of them.
abbrev pub IsIn : List ℕ × FactoryPair → Pairs → Type 0
IsIn x xs = Any (λ (e : List ℕ × FactoryPair). e ≡ x) xs

enter-new : (key : List ℕ) (pair : FactoryPair) (xs : Pairs) → IsIn (key, pair) (enter key pair xs)
enter-new key pair [] = inl refl
enter-new key pair ((k, p) ∷ rest) =
    placed (IsIn (key, pair) (enter key pair ((k, p) ∷ rest))) key k (λ y. rw y (inl refl))
      (λ n y. rw (n, y) (inr (enter-new key pair rest))) (λ n n' same. rw (n, n') (inl refl))

enter-old :
    (key : List ℕ) (pair : FactoryPair) (x : List ℕ × FactoryPair) (xs : Pairs)
    → x.0 ≢ key
    → IsIn x xs
    → IsIn x (enter key pair xs)
enter-old key pair x [] ne at = elim at [ ]
enter-old key pair x ((k, p) ∷ rest) ne at =
    placed (IsIn x (enter key pair ((k, p) ∷ rest))) key k (λ y. rw y (inr at))
      (λ n y.
        rw (n, y)
          (elim at [ inl e ↦ inl e | inr there ↦ inr (enter-old key pair x rest ne there) ]))
      (λ n n' same.
        rw (n, n')
          (elim at [
            | inl e ↦ absurd (ne (ap (λ (e : List ℕ × FactoryPair). e.0) (sym e) ∙ sym same))
            | inr there ↦ inr there
          ]))

pub sort-IsIn :
    (pairs : Pairs) (key : List ℕ) (pair : FactoryPair)
    → may_load pairs key ≡ some pair
    → IsIn (key, pair) (sort pairs)
unfolding factory_code
sort-IsIn [] key pair e = absurd (cc)
sort-IsIn ((k, p) ∷ rest) key pair e = elim (Bool-cases (list_beq k key)) [
  | inl y ↦
      let same : k ≡ key = (list_beq_iff k key).0 y in
      let same' : p ≡ pair = some-injective p pair (rw y at e) in
      rw (same, same') (enter-new key pair (sort rest))
  | inr n ↦
      enter-old k p (key, pair) (sort rest) (λ same. no_more k key n same)
        (sort-IsIn rest key pair (rw n at e))
]
  where
    no_more : (k key : List ℕ) → list_beq k key ≡ false → key ≢ k
    no_more k key n same = let y = (list_beq_iff k key).1 (sym same) in absurd (cc)

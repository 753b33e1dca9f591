-- ===== src/Router/Route.antt =====
-- What `assert_operations` of contracts/terraswap_router/src/contract.rs accepts.
use text.Mathlib.TextEquality.{eq_iff}
use terraswap.Prelude.{
  Bool-cases, List, String, [], arith, ensure-eq-ok, inl, inr, length, list_eq, nat_eq, ok, refl,
  string_eq, sym, true, ◌==◌, ◌∙◌, ◌∷◌, ◌≡◌, ◌⊎◌,
}
use terraswap.Router.{
  SwapOperation, assert_operations, ends_of, insert, last_of, outputs, remove, shown,
}

abbrev pub offer_key : SwapOperation → String
offer_key op = shown (ends_of op).0

abbrev pub ask_key : SwapOperation → String
ask_key op = shown (ends_of op).1

-- One of the operations offers the key.
abbrev pub Offered : String → List SwapOperation → Type 0
Offered k [] = ⊥
Offered k (op ∷ rest) = (offer_key op ≡ k) ⊎ Offered k rest

-- What each operation asks for is the target, or a later operation offers it.
abbrev pub IsRoute : String → List SwapOperation → Type 0
IsRoute target [] = Unit
IsRoute target (op ∷ rest) =
    ((ask_key op ≡ target) ⊎ Offered (ask_key op) rest) × IsRoute target rest

abbrev pub IsKey : String → List String → Type 0
IsKey k [] = ⊥
IsKey k (x ∷ xs) = (x ≡ k) ⊎ IsKey k xs

remove-IsKey :
    (k x : String) (keys : List String) → IsKey x keys → (k ≡ x) ⊎ IsKey x (remove k keys)
unfolding remove
remove-IsKey k x [] at = elim at [ ]
remove-IsKey k x (y ∷ ys) (inl same) = elim (Bool-cases (y == k)) [
  | inl yes' ↦ inl (sym ((eq_iff y k).0 yes') ∙ same)
  | inr no' ↦ inr (rw no' (inl same))
]
remove-IsKey k x (y ∷ ys) (inr there) = elim (Bool-cases (y == k)) [
  | inl yes' ↦ rw yes' (remove-IsKey k x ys there)
  | inr no' ↦ elim (remove-IsKey k x ys there) [
    | inl same ↦ inl same
    | inr kept ↦ inr (rw no' (inr kept))
  ]
]

insert-IsKey : (k x : String) (keys : List String) → IsKey x keys → IsKey x (insert k keys)
unfolding insert
insert-IsKey k x keys at = elim (remove-IsKey k x keys at) [
  | inl same ↦ inl same
  | inr kept ↦ inr kept
]

-- A key stays until an operation offers it.
outputs-IsKey :
    (x : String) (keys : List String) (ops : List SwapOperation)
    → IsKey x keys
    → Offered x ops ⊎ IsKey x (outputs keys ops)
unfolding outputs
outputs-IsKey x keys [] at = inr at
outputs-IsKey x keys (op ∷ rest) at = elim (remove-IsKey (offer_key op) x keys at) [
  | inl offered ↦ inl (inl offered)
  | inr kept ↦
      elim (outputs-IsKey x (insert (ask_key op) (remove (offer_key op) keys)) rest
        (insert-IsKey (ask_key op) x (remove (offer_key op) keys) kept)) [
          | inl later ↦ inl (inr later)
          | inr final ↦ inr final
        ]
]

-- The last operation's ask is among the outputs.
outputs-last :
    (keys : List String) (op : SwapOperation) (rest : List SwapOperation)
    → IsKey (ask_key (last_of op rest)) (outputs keys (op ∷ rest))
unfolding outputs last_of insert
outputs-last keys op [] = inl refl
outputs-last keys op (next ∷ rest) =
    outputs-last (insert (ask_key op) (remove (offer_key op) keys)) next rest

single_key :
    (keys : List String) (x y : String)
    → (length keys == 1) ≡ true
    → IsKey x keys
    → IsKey y keys
    → x ≡ y
single_key [] x y one at_x at_y = elim at_x [ ]
single_key (k ∷ []) x y one (inr at_x) at_y = elim at_x [ ]
single_key (k ∷ []) x y one (inl ex) (inr at_y) = elim at_y [ ]
single_key (k ∷ []) x y one (inl ex) (inl ey) = sym ex ∙ ey
single_key (k ∷ k' ∷ ks) x y one at_x at_y = absurd (ground arith)

outputs-IsRoute :
    (target : String) (keys : List String) (ops : List SwapOperation)
    → (length (outputs keys ops) == 1) ≡ true
    → IsKey target (outputs keys ops)
    → IsRoute target ops
unfolding outputs insert
outputs-IsRoute target keys [] one at = tt
outputs-IsRoute target keys (op ∷ rest) one at =
    let keys' = insert (ask_key op) (remove (offer_key op) keys) in
    (
      elim (outputs-IsKey (ask_key op) keys' rest (inl refl)) [
        | inl later ↦ inr later
        | inr final ↦ inl (single_key (outputs keys' rest) (ask_key op) target one final at)
      ],
      outputs-IsRoute target keys' rest one at,
    )

-- Operations that pass leave one output: what an operation asks for is what the last one asks for,
-- or a later operation offers it.
pub assert_operations-IsRoute :
    (op : SwapOperation) (rest : List SwapOperation)
    → assert_operations (op ∷ rest) ≡ ok tt
    → IsRoute (ask_key (last_of op rest)) (op ∷ rest)
unfolding assert_operations
assert_operations-IsRoute op rest e =
    outputs-IsRoute (ask_key (last_of op rest)) [] (op ∷ rest) (ensure-eq-ok _ _ e)
      (outputs-last [] op rest)

-- ===== src/Common/Set.antt =====
-- Go's `map[K]bool` whose entries are only ever `true`: the list of its keys. The order of the list
-- stands for the order of iteration, which Go leaves open.
use mathlib.Core.Path.{◌≡◌, refl, ap}
use mathlib.Core.Bool.{Bool, true, false, not, ◌&&◌, ◌||◌}
use mathlib.Core.List.{List, [], ◌∷◌, ◌++◌}
use mathlib.Core.Logic.{inl, inr}
use Prim.Native.Nat.{◌≤◌, ◌+◌}
use native.Mathlib.Omega.{arith}
use django_websocket_gateway.Common.Compare.{
  Eq, ◌==◌, ==_refl, if◌then◌else◌, Bool-cases, length, All,
}

module _ {ℓ} {A : Type ℓ} ⦃e : Eq A⦄ where
  -- `m[k]`
  unfoldable pub contains : A → List A → Bool
  contains a [] = false
  contains a (x ∷ xs) = (x == a) || contains a xs

  -- `m[k] = true`
  unfoldable pub add : A → List A → List A
  add a xs = if contains a xs then xs else a ∷ xs

  -- `delete(m, k)`
  unfoldable pub delete : A → List A → List A
  delete a [] = []
  delete a (x ∷ xs) = if x == a then delete a xs else x ∷ delete a xs

  abbrev pub IsNodup : List A → Type 0
  IsNodup [] = Unit
  IsNodup (x ∷ xs) = (contains x xs ≡ false) × IsNodup xs

  pub contains-subst : (a b : A) (xs : List A) → (a == b) ≡ true → contains a xs ≡ contains b xs
  contains-subst a b xs h = ap (λ x. contains x xs) ((e.beq_iff a b).0 h)

  pub contains-add : (a b : A) (xs : List A) → contains b (add a xs) ≡ ((a == b) || contains b xs)
  unfolding add contains
  contains-add a b xs = elim (Bool-cases (contains a xs)) [
    | inl old ↦ rw old (elim (Bool-cases (a == b)) [
      | inl same ↦ ground (arith, contains-subst a b xs same)
      | inr other ↦ rw other
    ])
    | inr new ↦ rw new
  ]

  pub contains-delete :
      (a b : A) (xs : List A) → contains b (delete a xs) ≡ (not (a == b) && contains b xs)
  unfolding delete contains
  contains-delete a b [] = ground arith
  contains-delete a b (x ∷ xs) =
      ground (arith, contains-delete a b xs, e.beq_iff x a, e.beq_iff x b, e.beq_iff a b)

  pub add-IsNodup : (a : A) (xs : List A) → IsNodup xs → IsNodup (add a xs)
  unfolding add
  add-IsNodup a xs h = elim (Bool-cases (contains a xs)) [
    | inl old ↦ rw old h
    | inr new ↦ rw new (new, h)
  ]

  pub delete-IsNodup : (a : A) (xs : List A) → IsNodup xs → IsNodup (delete a xs)
  unfolding delete contains
  delete-IsNodup a [] h = tt
  delete-IsNodup a (x ∷ xs) h = ground (arith, delete-IsNodup a xs h.1, contains-delete a x xs)

  pub length-add-le : (a : A) (xs : List A) → length (add a xs) ≤ length xs + 1
  unfolding add
  length-add-le a xs = ground arith

  pub length-delete-le : (a : A) (xs : List A) → length (delete a xs) ≤ length xs
  unfolding delete
  length-delete-le a [] = omega arith
  length-delete-le a (x ∷ xs) = ground (arith, length-delete-le a xs)

  pub add-ne-nil : (a : A) (xs : List A) → add a xs ≡ [] → ⊥
  unfolding add contains
  add-ne-nil a [] h = cc
  add-ne-nil a (x ∷ xs) h = ground arith

  -- A set is empty when nothing is in it.
  pub eq-nil_of_contains : (xs : List A) → ((a : A) → contains a xs ≡ false) → xs ≡ []
  unfolding contains
  eq-nil_of_contains [] h = refl
  eq-nil_of_contains (x ∷ xs) h = ground (arith, h x, ==_refl x)

module _ {ℓ} {A : Type ℓ} ⦃e : Eq A⦄ where
  pub contains-append :
      (a : A) (xs ys : List A) → contains a (xs ++ ys) ≡ (contains a xs || contains a ys)
  unfolding contains
  contains-append a [] ys = refl
  contains-append a (x ∷ xs) ys = ground (arith, contains-append a xs ys)

  -- A new value at the end.
  pub append-IsNodup :
      (a : A) (xs : List A) → contains a xs ≡ false → IsNodup xs → IsNodup (xs ++ a ∷ [])
  unfolding contains
  append-IsNodup a [] out h = (refl, tt)
  append-IsNodup a (x ∷ xs) out h = (
    ground (arith, contains-append x xs (a ∷ []), e.beq_iff a x, e.beq_iff x a),
    append-IsNodup a xs (ground arith) h.1,
  )

module _ {ℓ κ} {A : Type ℓ} ⦃e : Eq A⦄ where
  pub All-of_contains :
      {P : A → Type κ} (xs : List A) → ((a : A) → contains a xs ≡ true → P a) → All P xs
  unfolding contains
  All-of_contains [] h = tt
  All-of_contains (x ∷ xs) h =
      (h x (rw ==_refl refl), All-of_contains xs (λ a m. h a (ground arith)))

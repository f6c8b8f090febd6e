-- ===== src/Prelude/Places.antt =====
-- What stands at a place of a list after a write or an addition at the end.
use Prim.Native.Nat.{ℕ, zero, suc, ◌<◌}
use mathlib.Core.Path.{◌≡◌, refl, ap}
use mathlib.Core.Logic.{◌⊎◌, inl, inr, ◌≢◌}
use mathlib.Core.List.{List, [], ◌∷◌, ◌++◌}
use mathlib.Core.Option.{Option, some}
use native.Mathlib.Omega.{arith}
use minerule.Prelude.Lists.{length, get_elem?, set}

module _ {ℓ} {A : Type ℓ} where
  pub get_elem?-set_same :
      (xs : List A) (i : ℕ) (x v : A) → get_elem? xs i ≡ some x → get_elem? (set xs i v) i ≡ some v
  get_elem?-set_same [] i x v h = cc
  get_elem?-set_same (y ∷ xs) zero x v h = refl
  get_elem?-set_same (y ∷ xs) (suc i) x v h = get_elem?-set_same xs i x v h

  pub get_elem?-set_other :
      (xs : List A) (i j : ℕ) (v : A) → i ≢ j → get_elem? (set xs i v) j ≡ get_elem? xs j
  get_elem?-set_other [] i j v h = refl
  get_elem?-set_other (y ∷ xs) zero zero v h = ground arith
  get_elem?-set_other (y ∷ xs) zero (suc j) v h = refl
  get_elem?-set_other (y ∷ xs) (suc i) zero v h = refl
  get_elem?-set_other (y ∷ xs) (suc i) (suc j) v h =
      get_elem?-set_other xs i j v (λ e. h (ap suc e))

  pub get_elem?-append :
      (xs ys : List A) (i : ℕ) (x : A) → get_elem? xs i ≡ some x → get_elem? (xs ++ ys) i ≡ some x
  get_elem?-append [] ys i x h = cc
  get_elem?-append (y ∷ xs) ys zero x h = h
  get_elem?-append (y ∷ xs) ys (suc i) x h = get_elem?-append xs ys i x h

  pub get_elem?-append_last : (xs : List A) (y : A) → get_elem? (xs ++ y ∷ []) (length xs) ≡ some y
  get_elem?-append_last [] y = refl
  get_elem?-append_last (x ∷ xs) y = get_elem?-append_last xs y

  pub get_elem?-append_cases :
      (xs : List A) (y z : A) (i : ℕ)
      → get_elem? (xs ++ y ∷ []) i ≡ some z
      → (get_elem? xs i ≡ some z) ⊎ ((i ≡ length xs) × (z ≡ y))
  get_elem?-append_cases [] y z zero h = inr (refl, cc)
  get_elem?-append_cases [] y z (suc i) h = cc
  get_elem?-append_cases (x ∷ xs) y z zero h = inl h
  get_elem?-append_cases (x ∷ xs) y z (suc i) h = elim (get_elem?-append_cases xs y z i h) [
    | inl e ↦ inl e
    | inr (e, f) ↦ inr (ap suc e, f)
  ]

  pub get_elem?-lt : (xs : List A) (i : ℕ) (x : A) → get_elem? xs i ≡ some x → i < length xs
  get_elem?-lt [] i x h = cc
  get_elem?-lt (y ∷ xs) zero x h = omega arith
  get_elem?-lt (y ∷ xs) (suc i) x h = omega (arith, get_elem?-lt xs i x h)

  pub get_elem?-same : (o : Option A) (x y : A) → o ≡ some x → o ≡ some y → x ≡ y
  get_elem?-same o x y h k = cc

  pub get_elem?-set_cases :
      (xs : List A) (i j : ℕ) (v y : A)
      → get_elem? (set xs i v) j ≡ some y
      → ((j ≡ i) × (y ≡ v)) ⊎ (get_elem? xs j ≡ some y)
  get_elem?-set_cases [] i j v y h = inr h
  get_elem?-set_cases (x ∷ xs) zero zero v y h = inl (refl, cc)
  get_elem?-set_cases (x ∷ xs) zero (suc j) v y h = inr h
  get_elem?-set_cases (x ∷ xs) (suc i) zero v y h = inr h
  get_elem?-set_cases (x ∷ xs) (suc i) (suc j) v y h = elim (get_elem?-set_cases xs i j v y h) [
    | inl (e, f) ↦ inl (ap suc e, f)
    | inr e ↦ inr e
  ]

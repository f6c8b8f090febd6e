-- ===== src/Predicate/Meaning.antt =====
-- What a predicate means under a valuation of the simple predicates, and that `evaluate` computes it.
use minerule.Prelude.{
  ℕ, ◌<◌, ◌≡◌, refl, Bool, true, ◌&&◌, ◌||◌, Option, some, List, [], ◌∷◌, ◌++◌, all, any, arith,
  append-nil,
}
use minerule.VarSet.{VarSet}
use minerule.VarSet.Digits.{get_var-bit}
use minerule.Bits.{bit}
use minerule.Predicate.{
  Ref, PredConjunction, Predicate, evaluate_conjunction, evaluate_any, evaluate, or_with,
}

-- A predicate with no disjunct holds.
abbrev pub holds_any : (Ref → Bool) → Predicate → Bool
holds_any v p = any (all v) p

abbrev pub holds : (Ref → Bool) → Predicate → Bool
holds v [] = true
holds v (c ∷ cs) = holds_any v (c ∷ cs)

-- Each pointer of the predicate has an id below `n`, and `v` reads that variable of the word `x`.
abbrev pub Reads : (Ref → Option ℕ) → ℕ → ℕ → (Ref → Bool) → PredConjunction → Type 0
Reads ids n x v [] = Unit
Reads ids n x v (r ∷ rs) =
    ((id : ℕ) × (ids r ≡ some id) × (id < n) × (v r ≡ bit x id)) × Reads ids n x v rs

abbrev pub ReadsAll : (Ref → Option ℕ) → ℕ → ℕ → (Ref → Bool) → Predicate → Type 0
ReadsAll ids n x v [] = Unit
ReadsAll ids n x v (c ∷ cs) = Reads ids n x v c × ReadsAll ids n x v cs

module _ (ids : Ref → Option ℕ) (w : VarSet) (v : Ref → Bool) where
  evaluate_conjunction-all :
      (c : PredConjunction)
      → Reads ids w.vset_size w.vset v c
      → evaluate_conjunction ids w c ≡ some (all v c)
  unfolding evaluate_conjunction
  evaluate_conjunction-all [] h = refl
  evaluate_conjunction-all (r ∷ rs) ((id, e, small, reads), h) =
      ground (arith, get_var-bit w id small, evaluate_conjunction-all rs h)

  evaluate_any-holds :
      (p : Predicate)
      → ReadsAll ids w.vset_size w.vset v p
      → evaluate_any ids w p ≡ some (holds_any v p)
  unfolding evaluate_any
  evaluate_any-holds [] h = refl
  evaluate_any-holds (c ∷ cs) (hc, hs) =
      ground (arith, evaluate_conjunction-all c hc, evaluate_any-holds cs hs)

  -- If each pointer of a predicate has an id below the size of the configuration and the valuation
  -- reads the variable with that id, evaluate returns what the predicate means under the valuation.
  pub evaluate-holds :
      (p : Predicate) → ReadsAll ids w.vset_size w.vset v p → evaluate ids w p ≡ some (holds v p)
  unfolding evaluate
  evaluate-holds [] h = refl
  evaluate-holds (c ∷ cs) h = evaluate_any-holds (c ∷ cs) h

pub any-append {ℓ} :
    {A : Type ℓ} (f : A → Bool) (xs ys : List A) → any f (xs ++ ys) ≡ (any f xs || any f ys)
any-append f [] ys = refl
any-append f (x ∷ xs) ys = ground (arith, any-append f xs ys)

pub all-append {ℓ} :
    {A : Type ℓ} (f : A → Bool) (xs ys : List A) → all f (xs ++ ys) ≡ (all f xs && all f ys)
all-append f [] ys = refl
all-append f (x ∷ xs) ys = ground (arith, all-append f xs ys)

-- The disjunction of two predicates, where an empty side is passed over, although it holds alone.
abbrev pub or_holds : (Ref → Bool) → Predicate → Predicate → Bool
or_holds v [] q = holds v q
or_holds v (c ∷ p) [] = holds v (c ∷ p)
or_holds v (c ∷ p) (d ∷ q) = holds v (c ∷ p) || holds v (d ∷ q)

-- The operator |= gives the disjunction of the two predicates, except that an operand without
-- disjuncts, which holds alone, is passed over.
pub holds-or_with : (v : Ref → Bool) (p q : Predicate) → holds v (or_with p q) ≡ or_holds v p q
unfolding or_with
holds-or_with v [] q = refl
holds-or_with v (c ∷ p) [] = rw append-nil
holds-or_with v (c ∷ p) (d ∷ q) = any-append (all v) (c ∷ p) (d ∷ q)

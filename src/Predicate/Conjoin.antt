-- ===== src/Predicate/Conjoin.antt =====
-- `Predicate::operator&=`: the in-place loop is the product of the disjuncts, and it means "and".
use minerule.Prelude.{
  ℕ, zero, suc, ◌+◌, ◌-◌, ◌*◌, ◌<◌, ◌%◌, ◌≡◌, refl, Bool, ◌&&◌, some, List, [], ◌∷◌, ◌++◌, all,
  arith, ◌∙◌, ap, sym, map, length, length-append, length-map, get_elem?, set, append-nil,
  append_assoc,
}
use minerule.Predicate.{
  Ref, PredConjunction, Predicate, or_with, and_with, append_copies, conjoin_rows, conjoin_all,
  size_mod,
}
use minerule.Predicate.Meaning.{holds, holds_any, any-append, all-append}

-- Each disjunct of `self` with each of `p`, those with the first of `p` first.
abbrev pub product : Predicate → Predicate → Predicate
product self [] = []
product self (c ∷ p) = map (λ d. d ++ c) self ++ product self p

repeat : ℕ → Predicate → Predicate
repeat zero self = []
repeat (suc n) self = self ++ repeat n self

append_copies-repeat :
    (n : ℕ) (copy self : Predicate) → append_copies n copy self ≡ self ++ repeat n copy
unfolding append_copies or_with repeat
append_copies-repeat zero copy self = rw append-nil
append_copies-repeat (suc n) copy self =
    append_copies-repeat n copy (self ++ copy) ∙ append_assoc self copy (repeat n copy)

module _ {ℓ} {A : Type ℓ} where
  get_elem?-middle :
      (pre : List A) (a : A) (post : List A) → get_elem? (pre ++ a ∷ post) (length pre) ≡ some a
  get_elem?-middle [] a post = refl
  get_elem?-middle (x ∷ pre) a post = get_elem?-middle pre a post

  set-middle :
      (pre : List A) (a b : A) (post : List A)
      → set (pre ++ a ∷ post) (length pre) b ≡ pre ++ b ∷ post
  set-middle [] a b post = refl
  set-middle (x ∷ pre) a b post = ap (λ xs. x ∷ xs) (set-middle pre a b post)

-- One pass of the inner loop over the rows that stand between `pre` and `post`.
conjoin_rows-map :
    (old i : ℕ) (c : PredConjunction) (j : ℕ) (pre rows post : Predicate)
    → length pre ≡ j + i * old
    → conjoin_rows old i c j (length rows) (pre ++ (rows ++ post))
      ≡ some (pre ++ (map (λ d. d ++ c) rows ++ post))
unfolding conjoin_rows
conjoin_rows-map old i c j pre [] post e = refl
conjoin_rows-map old i c j pre (d ∷ rows) post e =
    let longer : length (pre ++ (d ++ c) ∷ []) ≡ j + 1 + i * old =
      omega (arith, length-append pre ((d ++ c) ∷ [])) in
    rw (sym e, get_elem?-middle pre d (rows ++ post), set-middle pre d (d ++ c) (rows ++ post))
      (simp append_assoc at
        (conjoin_rows-map old i c (j + 1) (pre ++ (d ++ c) ∷ []) rows post longer))

-- The outer loop, when `i` passes are done and `done` is what they made.
conjoin_all-product :
    (self : Predicate) (i : ℕ) (p done : Predicate)
    → length done ≡ i * length self
    → conjoin_all (length self) i p (done ++ repeat (length p) self) ≡ some (done ++ product self p)
unfolding conjoin_all repeat
conjoin_all-product self i [] done e = refl
conjoin_all-product self i (c ∷ p) done e =
    let row = map (λ d. d ++ c) self in
    let longer : length (done ++ row) ≡ (i + 1) * length self =
      omega (arith, length-append done row, length-map self (λ d. d ++ c)) in
    rw (conjoin_rows-map (length self) i c 0 done self (repeat (length p) self) (omega arith))
      (simp append_assoc at (conjoin_all-product self (i + 1) p (done ++ row) longer))

-- For a second operand with at least one disjunct and fewer than 2 ^ 64, the loop of &= over
-- indices stays inside the vector and leaves the product of the disjuncts, those with the first
-- disjunct of the operand first.
pub and_with-product :
    (self : Predicate) (c : PredConjunction) (p : Predicate)
    → length (c ∷ p) < size_mod
    → and_with self (c ∷ p) ≡ some (product self (c ∷ p))
unfolding and_with repeat
and_with-product self c p h =
    let rounds : (length (c ∷ p) + size_mod - 1) % size_mod ≡ length p = omega arith in
    rw (rounds, append_copies-repeat (length p) self self)
      (conjoin_all-product self 0 (c ∷ p) [] (omega arith))

any-map :
    (v : Ref → Bool) (c : PredConjunction) (self : Predicate)
    → holds_any v (map (λ d. d ++ c) self) ≡ (holds_any v self && all v c)
any-map v c [] = refl
any-map v c (d ∷ self) = ground (arith, any-map v c self, all-append v d c)

pub holds_any-product :
    (v : Ref → Bool) (self p : Predicate)
    → holds_any v (product self p) ≡ (holds_any v self && holds_any v p)
holds_any-product v self [] = ground arith
holds_any-product v self (c ∷ p) = ground (
  arith,
  any-append (all v) (map (λ d. d ++ c) self) (product self p),
  any-map v c self,
  holds_any-product v self p,
)

-- For two predicates with disjuncts, the second with fewer than 2 ^ 64, the operator &= succeeds
-- and its result means the conjunction, under every valuation.
pub holds-and_with :
    (v : Ref → Bool) (b c : PredConjunction) (self p : Predicate)
    → length (c ∷ p) < size_mod
    → (r : Predicate) × (and_with (b ∷ self) (c ∷ p) ≡ some r)
      × (holds v r ≡ (holds v (b ∷ self) && holds v (c ∷ p)))
holds-and_with v b c self p h = (
  product (b ∷ self) (c ∷ p),
  and_with-product (b ∷ self) c p h,
  holds_any-product v (b ∷ self) (c ∷ p),
)

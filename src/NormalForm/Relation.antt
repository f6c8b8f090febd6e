-- ===== src/NormalForm/Relation.antt =====
-- `getCodesRelationship` and `computeHammingDistance` on the codes of two predicates.
use minerule.Prelude.{
  ℕ, zero, suc, ◌+◌, ◌^◌, ◌<◌, ◌≤◌, ◌≡◌, refl, Bool, true, false, List, [], ◌∷◌, arith, length,
  none, some, Option, ◌∙◌, sym, any, upto, keep, Bool-cases, inl, inr, ◌⊎◌, ap, map, length-keep-le,
  length-upto, ◌==◌, ltb,
}
use minerule.VarSet.{VarSet}
use minerule.VarSet as V
use minerule.VarSet.Enumerate.{config, words, visited, visited-le}
use minerule.NormalForm.{
  EncodedNf, Iterator, read_next, relate_loop, codes_relationship, Relationship, equivalent,
  unrelated, only_first, only_second,
}
use minerule.NormalForm.Encode.{Encodes}
use minerule.NormalForm.Reading.{Yields, Fits, Encodes-Yields}
use minerule.NormalForm.Merge.{relate_words, of_flags, relate_words-joined, only}

module _ (n x y : ℕ) where
  same_size : (n == n) ≡ true
  same_size = ground arith

  pub eq-config : V.eq (config n x) (config n y) ≡ some (x == y)
  unfolding V.eq
  eq-config = rw same_size

  pub lt-config : V.lt (config n x) (config n y) ≡ some (ltb x y)
  unfolding V.lt
  lt-config = rw same_size

  pub gt-config : V.gt (config n x) (config n y) ≡ some (ltb y x)
  unfolding V.gt
  gt-config = rw same_size

-- One round of each loop.
module _ (fuel : ℕ) (it1 it2 : Iterator) (ok1 : it1.itok ≡ true) (ok2 : it2.itok ≡ true) where
  relate_loop-same :
      (rel : Relationship) (it1' it2' : Iterator)
      → V.eq it1.current it2.current ≡ some true
      → read_next it1 ≡ some it1'
      → read_next it2 ≡ some it2'
      → relate_loop (suc fuel) rel it1 it2 ≡ relate_loop fuel rel it1' it2'
  unfolding relate_loop
  relate_loop-same rel it1' it2' e n1 n2 = ground arith

  relate_loop-less :
      (rel : Relationship) (it1' : Iterator)
      → V.eq it1.current it2.current ≡ some false
      → V.lt it1.current it2.current ≡ some true
      → read_next it1 ≡ some it1'
      → relate_loop (suc fuel) rel it1 it2 ≡ (elim (only_first rel) [
        | none ↦ some unrelated
        | some rel' ↦ relate_loop fuel rel' it1' it2
      ])
  unfolding relate_loop
  relate_loop-less rel it1' e l n1 = ground arith

  relate_loop-greater :
      (rel : Relationship) (it2' : Iterator)
      → V.eq it1.current it2.current ≡ some false
      → V.lt it1.current it2.current ≡ some false
      → V.gt it1.current it2.current ≡ some true
      → read_next it2 ≡ some it2'
      → relate_loop (suc fuel) rel it1 it2 ≡ (elim (only_second rel) [
        | none ↦ some unrelated
        | some rel' ↦ relate_loop fuel rel' it1 it2'
      ])
  unfolding relate_loop
  relate_loop-greater rel it2' e l g n2 = ground arith

pub ℕ_cases : (x y : ℕ) → (x ≡ y) ⊎ ((x < y) ⊎ (y < x))
ℕ_cases x y = omega arith

module _ (rel : Relationship) (x y : ℕ) (xs ys : List ℕ) where
  relate_words-eq : x ≡ y → relate_words rel (x ∷ xs) (y ∷ ys) ≡ relate_words rel xs ys
  unfolding relate_words
  relate_words-eq h = ground arith

  relate_words-lt :
      x < y
      → relate_words rel (x ∷ xs) (y ∷ ys)
        ≡ (elim (only_first rel) [ none ↦ unrelated | some rel' ↦ relate_words rel' xs (y ∷ ys) ])
  unfolding relate_words
  relate_words-lt h = ground arith

  relate_words-gt :
      y < x
      → relate_words rel (x ∷ xs) (y ∷ ys)
        ≡ (elim (only_second rel) [ none ↦ unrelated | some rel' ↦ relate_words rel' (x ∷ xs) ys ])
  unfolding relate_words
  relate_words-gt h = ground arith

either_way :
    (o : Option Relationship) (f : Relationship → Option Relationship)
    (g : Relationship → Relationship)
    → ((r : Relationship) → f r ≡ some (g r))
    → ◌≡◌ {A = Option Relationship}
        (elim o [ none ↦ some unrelated | some r ↦ f r ])
        (some (elim o [ none ↦ unrelated | some r ↦ g r ]))
either_way none f g h = refl
either_way (some r) f g h = h r

module _ (n : ℕ) where
  relate_loop-words :
      (fuel : ℕ) (rel : Relationship) (xs ys : List ℕ) (it1 it2 : Iterator)
      → length xs + length ys < fuel
      → Yields it1 (map (config n) xs)
      → Yields it2 (map (config n) ys)
      → relate_loop fuel rel it1 it2 ≡ some (relate_words rel xs ys)
  unfolding relate_loop relate_words
  relate_loop-words zero rel xs ys it1 it2 h y1 y2 = absurd (omega arith)
  relate_loop-words (suc fuel) rel [] [] it1 it2 h y1 y2 = ground arith
  relate_loop-words (suc fuel) rel [] (y ∷ ys) it1 it2 h y1 y2 = ground arith
  relate_loop-words (suc fuel) rel (x ∷ xs) [] it1 it2 h y1 y2 = ground arith
  relate_loop-words (suc fuel) rel (x ∷ xs) (y ∷ ys) it1 it2 h z1 z2 =
      let (ok1, c1, (it1', n1, y1)) = z1 in
      let (ok2, c2, (it2', n2, y2)) = z2 in
      let same : V.eq it1.current it2.current ≡ some (x == y) = rw (c1, c2) (eq-config n x y) in
      let less : V.lt it1.current it2.current ≡ some (ltb x y) = rw (c1, c2) (lt-config n x y) in
      let greater : V.gt it1.current it2.current ≡ some (ltb y x) = rw (c1, c2) (gt-config n x y) in
      elim (ℕ_cases x y) [
        | inl e ↦
            relate_loop-same fuel it1 it2 ok1 ok2 rel it1' it2' (ground arith) n1 n2
            ∙ relate_loop-words fuel rel xs ys it1' it2' (omega arith) y1 y2
            ∙ ap some (sym (relate_words-eq rel x y xs ys e))
        | inr (inl l) ↦
            relate_loop-less fuel it1 it2 ok1 ok2 rel it1' (ground arith) (ground arith) n1
            ∙ either_way (only_first rel) _ _
                (λ r. relate_loop-words fuel r xs (y ∷ ys) it1' it2 (omega arith) y1 z2)
            ∙ ap some (sym (relate_words-lt rel x y xs ys l))
        | inr (inr g) ↦
            relate_loop-greater fuel it1 it2 ok1 ok2 rel it2' (ground arith) (ground arith)
              (ground arith) n2
            ∙ either_way (only_second rel) _ _
                (λ r. relate_loop-words fuel r (x ∷ xs) ys it1 it2' (omega arith) z1 y2)
            ∙ ap some (sym (relate_words-gt rel x y xs ys g))
      ]

keep-Fits :
    (n : ℕ) (p : ℕ → Bool) (first count : ℕ)
    → 0 < n
    → first + count ≤ 2 ^ n
    → Fits n (keep p (upto first count))
keep-Fits n p first zero pos h = tt
keep-Fits n p first (suc count) pos h = elim (Bool-cases (p first)) [
  | inl yes_p ↦ rw yes_p (pos, omega arith, keep-Fits n p (suc first) count pos (omega arith))
  | inr no_p ↦ rw no_p (keep-Fits n p (suc first) count pos (omega arith))
]

pub words-Fits : (n : ℕ) (p : ℕ → Bool) → Fits n (keep p (words n))
words-Fits zero p = tt
words-Fits (suc n) p = keep-Fits (suc n) p 0 (visited (suc n)) (omega arith) (omega arith)

pub length-words : (n : ℕ) (p : ℕ → Bool) → length (keep p (words n)) ≤ 2 ^ n
length-words n p =
    omega (arith, length-keep-le p (words n), length-upto 0 (visited n), visited-le n)

-- The relationship of two sets of configurations of `n` variables.
abbrev pub relationship_of : ℕ → (ℕ → Bool) → (ℕ → Bool) → Relationship
relationship_of n p q = of_flags (any (only p q) (words n)) (any (only q p) (words n))

-- On codes of two predicates over the same variables, at most 31, and with more fuel than twice the
-- number of configurations, getCodesRelationship ends and tells exactly which of the two predicates
-- has a configuration that the other does not have.
pub codes_relationship-relationship_of :
    (n fuel : ℕ) (p q : ℕ → Bool) (nf1 nf2 : EncodedNf)
    → n < 32
    → 2 ^ n + 2 ^ n < fuel
    → Encodes n (keep p (words n)) nf1
    → Encodes n (keep q (words n)) nf2
    → codes_relationship fuel nf1 nf2 ≡ some (relationship_of n p q)
unfolding codes_relationship
codes_relationship-relationship_of n fuel p q nf1 nf2 small enough enc1 enc2 =
    let (it1, it1', b1, n1, y1) =
      Encodes-Yields n (keep p (words n)) nf1 small (words-Fits n p) enc1 in
    let (it2, it2', b2, n2, y2) =
      Encodes-Yields n (keep q (words n)) nf2 small (words-Fits n q) enc2 in
    let vars : (nf1.num_vars == nf2.num_vars) ≡ true =
      ground (arith, enc1.variables, enc2.variables) in
    let loop =
      relate_loop-words n fuel equivalent (keep p (words n)) (keep q (words n)) it1' it2'
        (omega (arith, length-words n p, length-words n q)) y1 y2 in
    rw (vars, b1, b2, n1, n2)
      (loop ∙ ap some (relate_words-joined p q equivalent 0 (visited n) (λ e. cc)))

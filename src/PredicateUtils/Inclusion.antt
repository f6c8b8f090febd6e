-- ===== src/PredicateUtils/Inclusion.antt =====
-- The relationship that `getPredicateRelationship` returns, read as inclusion of the predicates over
-- all valuations of the simple predicates.
use minerule.Prelude.{
  ℕ, ◌+◌, ◌^◌, ◌<◌, ◌≡◌, refl, ◌≢◌, Bool, true, false, not, ◌&&◌, Option, some, List, [], ◌∷◌,
  length, arith, ◌∙◌, sym, ap, ◌↔◌, any,
}
use minerule.VarSet.{VarSet}
use minerule.VarSet.Enumerate.{config, words}
use minerule.Predicate.{Ref, Pool, ParsedPred, Predicate}
use minerule.Predicate.Meaning.{holds}
use minerule.NormalForm.{
  Relationship, first_more_general, first_more_specific, equivalent, unrelated,
}
use minerule.NormalForm.Merge.{only, of_flags}
use minerule.PredicateUtils.{count_into, get_predicate_relationship}
use minerule.PredicateUtils.Sets.{
  In, Rising, EachOf, all_of, all_of-Rising, EachOf-all_of_first, EachOf-all_of_second,
}
use minerule.PredicateUtils.Numbering.{Pooled}
use minerule.PredicateUtils.Valuation.{
  val_of, word_of, word_of-lt, word_of-val_of, holds-word_of, holds_closed,
}
use minerule.PredicateUtils.Relationship.{
  chosen, any-upto, any-upto_none, get_predicate_relationship-relationship_of,
}

-- The first includes the second, by the relationship found.
abbrev pub includes_second : Relationship → Bool
includes_second equivalent = true
includes_second first_more_general = true
includes_second first_more_specific = false
includes_second unrelated = false

abbrev pub includes_first : Relationship → Bool
includes_first equivalent = true
includes_first first_more_general = false
includes_first first_more_specific = true
includes_first unrelated = false

-- A valuation on the simple predicates of the list only.
abbrev pub restrict : List Ref → (Ref → Bool) → Ref → Bool
restrict rs v = val_of rs (word_of v rs)

-- On the possible valuations, `q` gives `p`.
abbrev pub Implied : List Ref → ((Ref → Bool) → Bool) → Predicate → Predicate → Type 0
Implied rs impossible q p =
    (v : Ref → Bool) → impossible (restrict rs v) ≡ false → holds v q ≡ true → holds v p ≡ true

includes_second-of_flags : (a b : Bool) → includes_second (of_flags a b) ≡ not b
includes_second-of_flags a b = ground arith

includes_first-of_flags : (a b : Bool) → includes_first (of_flags a b) ≡ not a
includes_first-of_flags a b = ground arith

module _ (impossible : (Ref → Bool) → Bool) (p q : Predicate) where
  abbrev refutes : List Ref → ℕ → Bool
  refutes rs =
      only (chosen rs (λ c. impossible (val_of rs c)) q)
        (chosen rs (λ c. impossible (val_of rs c)) p)

  refutes-none :
      (rs : List Ref)
      → EachOf (λ r. In r rs) p
      → EachOf (λ r. In r rs) q
      → any (refutes rs) (words (length rs)) ≡ false
      → Implied rs impossible q p
  refutes-none [] p_in q_in h v possible hq = holds_closed v p p_in
  refutes-none (x ∷ xs) p_in q_in h v possible hq =
      let c = word_of v (x ∷ xs) in
      let here =
        any-upto (refutes (x ∷ xs)) 0 (2 ^ length (x ∷ xs)) c h (omega arith)
          (omega (arith, word_of-lt v (x ∷ xs))) in
      let in_p = holds-word_of v (x ∷ xs) p p_in in
      let in_q = holds-word_of v (x ∷ xs) q q_in in
      not_only (holds (val_of (x ∷ xs) c) q) (holds (val_of (x ∷ xs) c) p)
        (impossible (restrict (x ∷ xs) v)) (holds v q) (holds v p) here possible in_q in_p hq
    where
      not_only :
          (a b i a' b' : Bool)
          → (a && not i) && not (b && not i) ≡ false
          → i ≡ false
          → a ≡ a'
          → b ≡ b'
          → a' ≡ true
          → b' ≡ true
      not_only a b i a' b' h1 h2 h3 h4 h5 = ground arith

  none-refutes :
      (rs : List Ref)
      → Rising rs
      → EachOf (λ r. In r rs) p
      → EachOf (λ r. In r rs) q
      → Implied rs impossible q p
      → any (refutes rs) (words (length rs)) ≡ false
  none-refutes [] up p_in q_in h = refl
  none-refutes (x ∷ xs) up p_in q_in h =
      any-upto_none (refutes (x ∷ xs)) 0 (2 ^ length (x ∷ xs)) (λ c lo hi.
        let same = word_of-val_of (x ∷ xs) c up (omega arith) in
        let implied = h (val_of (x ∷ xs) c) in
        none_only (holds (val_of (x ∷ xs) c) q) (holds (val_of (x ∷ xs) c) p)
          (impossible (val_of (x ∷ xs) c)) (λ k. implied (rw same k)))
    where
      none_only :
          (a b i : Bool)
          → (i ≡ false → a ≡ true → b ≡ true)
          → (a && not i) && not (b && not i) ≡ false
      none_only a b true h = ground arith
      none_only false b false h = refl
      none_only true b false h = rw (h refl refl) refl

module _ (filter : List ParsedPred → Pool → VarSet → Option Bool) (uninit1 uninit2 : ℕ → ℕ)
    (fuel : ℕ) (p1 p2 : Predicate) (pool pool' : Pool) (l : List ParsedPred)
    (impossible : (Ref → Bool) → Bool) (pooled1 : EachOf (Pooled pool) p1)
    (pooled2 : EachOf (Pooled pool) p2) (few : length (all_of p1 p2) < 31)
    (four : length (all_of p1 p2) ≢ 4)
    (enough : 2 ^ length (all_of p1 p2) + 2 ^ length (all_of p1 p2) < fuel)
    (counts : count_into (all_of p1 p2) 0 pool [] ≡ some (length (all_of p1 p2), pool', l))
    (filters : (c : ℕ)
      → c < 2 ^ length (all_of p1 p2)
      → filter l pool' (config (length (all_of p1 p2)) c)
        ≡ some (impossible (val_of (all_of p1 p2) c))) where
  -- For two predicates over objects of the pool with fewer than 31 simple predicates together, and
  -- not four, where the fuel exceeds twice the number of configurations the numbering leaves the
  -- pool `pool'` and the list `l`, and the filter answers for them whether the valuation of a
  -- configuration is impossible, getPredicateRelationship returns. What it returns lets the first
  -- predicate include the second (equivalent or more general) exactly when on every possible
  -- valuation of the simple predicates the second gives the first, and the same with the sides
  -- exchanged.
  pub get_predicate_relationship-Implied :
      (rel : Relationship) × (get_predicate_relationship filter uninit1 uninit2 fuel p1 p2 pool
        ≡ some (rel, pool'))
      × (includes_second rel ≡ true ↔ Implied (all_of p1 p2) impossible p2 p1)
      × (includes_first rel ≡ true ↔ Implied (all_of p1 p2) impossible p1 p2)
  get_predicate_relationship-Implied =
      let rs = all_of p1 p2 in
      let drop : ℕ → Bool = λ c. impossible (val_of rs c) in
      let in1 = EachOf-all_of_first p1 p2 in
      let in2 = EachOf-all_of_second p1 p2 in
      let up = all_of-Rising p1 p2 in
      let first_only = any (refutes impossible p2 p1 rs) (words (length rs)) in
      let second_only = any (refutes impossible p1 p2 rs) (words (length rs)) in
      (
        of_flags first_only second_only,
        get_predicate_relationship-relationship_of filter uninit1 uninit2 fuel p1 p2 pool pool' l
            drop pooled1 pooled2 few four enough counts filters,
        (
          λ h.
              refutes-none impossible p1 p2 rs in1 in2
                (not_true second_only (sym (includes_second-of_flags first_only second_only) ∙ h)),
          λ h.
              includes_second-of_flags first_only second_only
              ∙ ap not (none-refutes impossible p1 p2 rs up in1 in2 h),
        ),
        (
          λ h.
              refutes-none impossible p2 p1 rs in2 in1
                (not_true first_only (sym (includes_first-of_flags first_only second_only) ∙ h)),
          λ h.
              includes_first-of_flags first_only second_only
              ∙ ap not (none-refutes impossible p2 p1 rs up in2 in1 h),
        ),
      )
    where
      not_true : (b : Bool) → not b ≡ true → b ≡ false
      not_true false h = refl
      not_true true h = cc

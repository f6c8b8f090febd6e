-- ===== src/PredicateUtils/Relationship.antt =====
-- What `getPredicateRelationship` and `predicatesAreEquivalent` tell of the predicates themselves.
use minerule.Prelude.{
  ℕ, zero, suc, ◌+◌, ◌^◌, ◌<◌, ◌≤◌, ◌≡◌, refl, ◌≢◌, Bool, false, not, ◌&&◌, Option, some, List, [],
  length, arith, ◌∙◌, sym, ap, any, keep, upto, some_inj, inl, inr,
}
use minerule.VarSet.{VarSet}
use minerule.VarSet.Enumerate.{config, words}
use minerule.Predicate.{Ref, Pool, ParsedPred, Predicate, evaluate, get_var_id}
use minerule.Predicate.Meaning.{holds}
use minerule.NormalForm as NF
use minerule.NormalForm.{
  Relationship, first_more_general, first_more_specific, equivalent, unrelated, encode, selected,
}
use minerule.NormalForm.Encode.{Encodes, encode_total}
use minerule.NormalForm.Relation.{ℕ_cases, relationship_of, codes_relationship-relationship_of}
use minerule.PredicateUtils.{encode_both, count_into, get_predicate_relationship}
use minerule.PredicateUtils.Sets.{
  In, EachOf, all_of, all_of-Rising, all_of-Each, EachOf-all_of_first, EachOf-all_of_second,
}
use minerule.PredicateUtils.Numbering.{Pooled, Numbered, Counted, count_into-Counted}
use minerule.PredicateUtils.Valuation.{val_of, evaluate-val_of}

-- The configurations that `encode` selects for a predicate, where the filter drops those that `drop`
-- tells.
abbrev pub chosen : List Ref → (ℕ → Bool) → Predicate → ℕ → Bool
chosen rs drop p c = holds (val_of rs c) p && not (drop c)

selected-chosen :
    (ids : Ref → Option ℕ) (filter : VarSet → Option Bool) (v : VarSet) (p : Predicate) (h d : Bool)
    → evaluate ids v p ≡ some h
    → filter v ≡ some d
    → selected (λ w. evaluate ids w p) filter v ≡ some (h && not d)
unfolding selected
selected-chosen ids filter v p h d e f = ground arith

Numbered-count_into :
    (xs : List Ref) (n : ℕ) (pool pool' : Pool) (l l' : List ParsedPred)
    → Counted xs 0 pool l
    → count_into xs 0 pool l ≡ some (n, pool', l')
    → Numbered pool' 0 xs
Numbered-count_into xs n pool pool' l l' c h =
    let same : c.pool' ≡ pool' = ap (λ t. t.1) (some_inj (sym c.counted ∙ h)) in
    rw same at c.numbered

pub any-upto :
    (f : ℕ → Bool) (lo k c : ℕ) → any f (upto lo k) ≡ false → lo ≤ c → c < lo + k → f c ≡ false
any-upto f lo zero c h below above = absurd (omega arith)
any-upto f lo (suc k) c h below above = elim (ℕ_cases lo c) [
  | inl e ↦ ground arith
  | inr (inl less) ↦ any-upto f (suc lo) k c (ground arith) (omega arith) (omega arith)
  | inr (inr more) ↦ absurd (omega arith)
]

pub any-upto_none :
    (f : ℕ → Bool) (lo k : ℕ)
    → ((c : ℕ) → lo ≤ c → c < lo + k → f c ≡ false)
    → any f (upto lo k) ≡ false
any-upto_none f lo zero h = refl
any-upto_none f lo (suc k) h =
    let here = h lo (omega arith) (omega arith) in
    let rest = any-upto_none f (suc lo) k (λ c a b. h c (omega arith) (omega arith)) in ground arith

module _ (filter : List ParsedPred → Pool → VarSet → Option Bool) (uninit1 uninit2 : ℕ → ℕ)
    (fuel : ℕ) (p1 p2 : Predicate) (pool pool' : Pool) (l : List ParsedPred) (drop : ℕ → Bool)
    (pooled1 : EachOf (Pooled pool) p1) (pooled2 : EachOf (Pooled pool) p2)
    (few : length (all_of p1 p2) < 31) (four : length (all_of p1 p2) ≢ 4)
    (enough : 2 ^ length (all_of p1 p2) + 2 ^ length (all_of p1 p2) < fuel)
    (counts : count_into (all_of p1 p2) 0 pool [] ≡ some (length (all_of p1 p2), pool', l))
    (filters : (c : ℕ)
      → c < 2 ^ length (all_of p1 p2)
      → filter l pool' (config (length (all_of p1 p2)) c) ≡ some (drop c)) where
  pub coded :
      (p : Predicate) (uninit : ℕ → ℕ)
      → EachOf (λ r. In r (all_of p1 p2)) p
      → (nf : NF.EncodedNf) × (encode
            (λ v. evaluate (get_var_id pool') v p)
            (filter l pool')
            uninit
            fuel
            (length (all_of p1 p2))
          ≡ some nf)
        × Encodes
            (length (all_of p1 p2))
            (keep (chosen (all_of p1 p2) drop p) (words (length (all_of p1 p2))))
            nf
  coded p uninit each =
      let numbered =
        Numbered-count_into (all_of p1 p2) (length (all_of p1 p2)) pool pool' [] l
          (count_into-Counted (all_of p1 p2) 0 pool [] (all_of-Rising p1 p2)
            (all_of-Each (Pooled pool) p1 p2 pooled1 pooled2))
          counts in
      encode_total (λ v. evaluate (get_var_id pool') v p) (filter l pool') uninit
        (length (all_of p1 p2)) fuel few (omega arith) (chosen (all_of p1 p2) drop p)
        (λ c small.
          selected-chosen (get_var_id pool') (filter l pool') (config (length (all_of p1 p2)) c) p
            (holds (val_of (all_of p1 p2) c) p) (drop c)
            (evaluate-val_of pool' (all_of p1 p2) c numbered p each) (filters c small))
        four

  -- For two predicates over objects of the pool with fewer than 31 simple predicates together, and
  -- not four, where the fuel exceeds twice the number of configurations, the numbering leaves the
  -- pool `pool'` and the list `l`, and the filter answers `drop` on each configuration,
  -- getPredicateRelationship returns the relationship of the sets of configurations that satisfy
  -- the two predicates and are not dropped, and leaves the numbered pool.
  pub get_predicate_relationship-relationship_of :
      get_predicate_relationship filter uninit1 uninit2 fuel p1 p2 pool
      ≡ some (
        relationship_of
            (length (all_of p1 p2))
            (chosen (all_of p1 p2) drop p1)
            (chosen (all_of p1 p2) drop p2),
        pool',
      )
  unfolding get_predicate_relationship encode_both
  get_predicate_relationship-relationship_of =
      let (nf1, e1, enc1) = coded p1 uninit1 (EachOf-all_of_first p1 p2) in
      let (nf2, e2, enc2) = coded p2 uninit2 (EachOf-all_of_second p1 p2) in
      let related =
        codes_relationship-relationship_of (length (all_of p1 p2)) fuel
          (chosen (all_of p1 p2) drop p1) (chosen (all_of p1 p2) drop p2) nf1 nf2 (omega arith)
          enough enc1 enc2 in
      rw (counts, e1, e2, related) refl

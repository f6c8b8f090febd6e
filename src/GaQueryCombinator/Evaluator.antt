-- ===== src/GaQueryCombinator/Evaluator.antt =====
-- The fitness of a genome is HUGE_VAL where its combination is equivalent to the target.
use minerule.Prelude.{
  ℕ, ◌+◌, ◌^◌, ◌<◌, ◌≡◌, ◌≢◌, refl, arith, Bool, false, ◌||◌, ltb, Option, some, List, [], length,
  keep, ◌*◌, ◌==◌, if◌then◌else◌,
}
use minerule.VarSet.{VarSet}
use minerule.VarSet.Enumerate.{config, words}
use minerule.Predicate.{Pool, ParsedPred, Predicate}
use minerule.NormalForm.Merge.{differs}
use minerule.NormalForm.Hamming.{hamming_distance-differs}
use minerule.PredicateUtils.{count_into, encode_both}
use minerule.PredicateUtils.Sets.{EachOf, all_of, EachOf-all_of_first, EachOf-all_of_second}
use minerule.PredicateUtils.Numbering.{Pooled}
use minerule.PredicateUtils.Relationship.{chosen, coded}
use minerule.GaQueryCombinator.{
  Combination, build_associated_predicate, Fitness, huge_val, finite, fitness_of, evaluator,
}

-- The score for a distance, written out.
abbrev pub score : ℕ → ℕ → ℕ → ℕ → ℕ → Fitness
score max_distinct conj_size max_disjuncts bits distance =
    if distance == 0
    then huge_val
    else finite (2 ^ max_distinct * 10 + conj_size * max_disjuncts) (distance * 10 + bits)

fitness_of-score :
    (max_distinct conj_size max_disjuncts bits distance : ℕ)
    → 2 ^ max_distinct * 10 < 2 ^ 31
    → fitness_of max_distinct conj_size max_disjuncts bits distance
      ≡ some (score max_distinct conj_size max_disjuncts bits distance)
unfolding fitness_of
fitness_of-score max_distinct conj_size max_disjuncts bits distance h = ground arith

module _ (filter : List ParsedPred → Pool → VarSet → Option Bool) (uninit1 uninit2 : ℕ → ℕ)
    (fuel : ℕ) (target : Predicate) (candidates : List Predicate)
    (max_disjuncts max_queries max_distinct : ℕ) (genome : List Bool) (built : Combination)
    (pool pool' : Pool) (l : List ParsedPred) (drop : ℕ → Bool)
    (builds : build_associated_predicate genome candidates max_disjuncts ≡ some built)
    (allowed : (ltb max_disjuncts built.num_used_disjuncts
        || ltb max_queries built.num_used_queries)
      ≡ false)
    (no_overflow : 2 ^ max_distinct * 10 < 2 ^ 31) (pooled1 : EachOf (Pooled pool) target)
    (pooled2 : EachOf (Pooled pool) built.predicate)
    (few : length (all_of target built.predicate) < 31)
    (four : length (all_of target built.predicate) ≢ 4)
    (enough : 2 ^ length (all_of target built.predicate)
        + 2 ^ length (all_of target built.predicate)
      < fuel)
    (counts : count_into (all_of target built.predicate) 0 pool []
      ≡ some (length (all_of target built.predicate), pool', l))
    (filters : (c : ℕ)
      → c < 2 ^ length (all_of target built.predicate)
      → filter l pool' (config (length (all_of target built.predicate)) c) ≡ some (drop c)) where
  -- For a genome whose combination is built and uses no more disjuncts and queries than allowed,
  -- before the time out, where ten times two to the number of distinct predicates is an int, and
  -- where the target and the combination are over objects of the pool with fewer than 31 simple
  -- predicates together and not four, with fuel for twice the configurations, a numbering of the
  -- simple predicates and a filter that answers on each configuration, evaluator leaves the pool
  -- numbered and returns the score for a distance that is the number of configurations that are not
  -- dropped and satisfy one of the two predicates only: HUGE_VAL for none, and otherwise ten times
  -- two to the number of distinct predicates and the number of candidates times that of disjuncts,
  -- less ten times the distance and the number of bits that are set.
  pub evaluator-differs :
      evaluator filter uninit1 uninit2 fuel false target candidates max_disjuncts max_queries
        max_distinct genome pool
      ≡ some (
        score max_distinct (length candidates) max_disjuncts built.num_asserted_bits (
            length (
              keep
                (differs
                  (chosen (all_of target built.predicate) drop target)
                  (chosen (all_of target built.predicate) drop built.predicate))
                (words (length (all_of target built.predicate))))),
        pool',
      )
  unfolding evaluator encode_both
  evaluator-differs =
      let q = built.predicate in
      let (nf1, e1, enc1) =
        coded filter uninit1 uninit2 fuel target q pool pool' l drop pooled1 pooled2 few four enough
          counts filters target uninit1 (EachOf-all_of_first target q) in
      let (nf2, e2, enc2) =
        coded filter uninit1 uninit2 fuel target q pool pool' l drop pooled1 pooled2 few four enough
          counts filters q uninit2 (EachOf-all_of_second target q) in
      let distance =
        hamming_distance-differs (length (all_of target q)) fuel
          (chosen (all_of target q) drop target) (chosen (all_of target q) drop q) nf1 nf2
          (omega (arith, few)) enough enc1 enc2 in
      rw
        (
          builds,
          allowed,
          counts,
          e1,
          e2,
          distance,
          fitness_of-score max_distinct (length candidates) max_disjuncts built.num_asserted_bits
              (length (
                keep
                  (differs (chosen (all_of target q) drop target) (chosen (all_of target q) drop q))
                  (words (length (all_of target q)))))
              no_overflow,
        )
        refl

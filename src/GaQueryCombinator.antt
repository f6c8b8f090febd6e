-- ===== src/GaQueryCombinator.antt =====
-- src/Optimizer/GAQueryCombinator.cpp: which combination of past queries a genome stands for. The
-- genome is a list of bits, as the genetic algorithm's library gives it; `none` is a failed assertion
-- or a thrown exception.
pub mod Joined
pub mod Meaning
pub mod Evaluator
use minerule.Prelude.{
  ℕ, zero, suc, ◌+◌, ◌*◌, ◌^◌, Bool, true, false, ◌==◌, if◌then◌else◌, Option, none, some, ◌>>=◌,
  List, [], ◌∷◌, ◌++◌, length, get_elem?, set, replicate, indicator, not, ◌||◌, ltb, guard, ◌>>◌,
}
use minerule.VarSet.{VarSet}
use minerule.Predicate.{Predicate, ParsedPred, Pool, or_with, and_with}
use minerule.NormalForm.{hamming_distance}
use minerule.PredicateUtils.{encode_both}

-- The output arguments of `buildAssociatedPredicate` and its local variables.
pub record Building : Type 0 where
  pub inner_pred : Predicate
  pub last_used_disj : ℕ
  pub used_queries : List Bool
  pub num_used_disjuncts : ℕ
  pub num_asserted_bits : ℕ

-- The conjunction with one more candidate.
unfoldable pub join_candidate : Predicate → Predicate → Option Predicate
unfolding or_with
join_candidate [] c = some (or_with [] c)
join_candidate (d ∷ inner_pred) c = and_with (d ∷ inner_pred) c

-- The body of the inner loop where the bit of candidate `j` in disjunct `i` is set.
unfoldable pub assert_query : ℕ → ℕ → Predicate → Building → Option Building
assert_query i j c b = do
  joined ← join_candidate b.inner_pred c
  some (record {
    inner_pred = joined;
    last_used_disj = i;
    used_queries = set b.used_queries j true;
    num_used_disjuncts = b.num_used_disjuncts + (if b.last_used_disj == i then 0 else 1);
    num_asserted_bits = b.num_asserted_bits + 1;
  })

-- The inner loop, on the candidates from `j` on; `first` is `i*mr_candidates.size()`.
unfoldable pub join_candidates : List Bool → ℕ → ℕ → ℕ → List Predicate → Building → Option Building
join_candidates genome first i j [] b = some b
join_candidates genome first i j (c ∷ mr_candidates) b = do
  qj_asserted ← get_elem? genome (first + j)
  b' ← if qj_asserted then assert_query i j c b else some b
  join_candidates genome first i (j + 1) mr_candidates b'

-- The outer loop, from disjunct `i` with `left` to go.
unfoldable pub build_disjuncts :
    List Bool → List Predicate → ℕ → ℕ → Predicate → Building → Option (Predicate × Building)
build_disjuncts genome mr_candidates i zero p b = some (p, b)
build_disjuncts genome mr_candidates i (suc left) p b = do
  b' ←
      join_candidates genome (i * length mr_candidates) i 0 mr_candidates
        (record b { inner_pred = [] })
  build_disjuncts genome mr_candidates (i + 1) left (or_with p b'.inner_pred) b'

abbrev pub count_true : List Bool → ℕ
count_true [] = 0
count_true (b ∷ l) = indicator b + count_true l

-- `buildAssociatedPredicate` on an empty predicate: the predicate, and how many disjuncts, queries
-- and bits are used.
pub record Combination : Type 0 where
  pub predicate : Predicate
  pub num_used_disjuncts : ℕ
  pub num_used_queries : ℕ
  pub num_asserted_bits : ℕ

unfoldable pub build_associated_predicate : List Bool → List Predicate → ℕ → Option Combination
build_associated_predicate genome mr_candidates max_disjuncts = do
  (p, b) ← build_disjuncts genome mr_candidates 0 max_disjuncts [] (record {
    inner_pred = [];
    last_used_disj = 2 ^ 10;
    used_queries = replicate (length mr_candidates) false;
    num_used_disjuncts = 0;
    num_asserted_bits = 0;
  })
  some (record {
    predicate = p;
    num_used_disjuncts = b.num_used_disjuncts;
    num_used_queries = count_true b.used_queries;
    num_asserted_bits = b.num_asserted_bits;
  })

-- `QueryAndList` and `QueryOrList`
abbrev pub QueryAndList : Type 0
QueryAndList = List ℕ

abbrev pub QueryOrList : Type 0
QueryOrList = List QueryAndList

-- The loops of `buildResult`.
unfoldable pub and_list : List Bool → ℕ → ℕ → ℕ → QueryAndList → Option QueryAndList
and_list solution first j zero curr_and = some curr_and
and_list solution first j (suc left) curr_and = do
  gene ← get_elem? solution (first + j)
  and_list solution first (j + 1) left (if gene then curr_and ++ j ∷ [] else curr_and)

unfoldable pub or_list : List Bool → ℕ → ℕ → ℕ → QueryOrList → Option QueryOrList
unfolding and_list
or_list solution conj_size i zero result = some result
or_list solution conj_size i (suc left) result = do
  curr_and ← and_list solution (i * conj_size) 0 conj_size []
  or_list solution conj_size (i + 1) left
      (elim curr_and as (λ _. QueryOrList) [ [] ↦ result | j ∷ js ↦ result ++ (j ∷ js) ∷ [] ])

-- `buildResult`; `maximum_huge` tells whether the best fitness is `HUGE_VAL`.
unfoldable pub build_result : Bool → List Bool → ℕ → ℕ → Option QueryOrList
unfolding or_list
build_result maximum_huge solution conj_size max_disjuncts =
    if maximum_huge then or_list solution conj_size 0 max_disjuncts [] else some []

-- What `evaluator` returns: 0, `HUGE_VAL`, or a number with a sign, the first less the second, which
-- the code computes as a float.
pub data Fitness : Type 0 where
  no_fitness : Fitness
  huge_val : Fitness
  finite : ℕ → ℕ → Fitness

-- The end of `evaluator`. `(1 << maxDistinctPredicates) * HAM_LOSS` is an int; `none` is its overflow,
-- which has no defined value.
unfoldable pub fitness_of : ℕ → ℕ → ℕ → ℕ → ℕ → Option Fitness
fitness_of max_distinct_predicates conj_size max_disjuncts bits ham_distance =
    if ham_distance == 0 then some huge_val else (do
      guard (ltb (2 ^ max_distinct_predicates * 10) (2 ^ 31))
      some (
          finite (2 ^ max_distinct_predicates * 10 + conj_size * max_disjuncts)
            (ham_distance * 10 + bits)))

module _ (filter : List ParsedPred → Pool → VarSet → Option Bool) (uninit1 uninit2 : ℕ → ℕ)
    (fuel : ℕ) where
  -- `evaluator`, with the pool that it leaves; `timed_out` is the comparison of the clock with the
  -- time out.
  unfoldable pub evaluator :
      Bool → Predicate → List Predicate → ℕ → ℕ → ℕ → List Bool → Pool → Option (Fitness × Pool)
  evaluator timed_out mr_target mr_candidates max_disjuncts max_queries max_distinct_predicates
        genome pool =
      do
        guard (not timed_out)
        c ← build_associated_predicate genome mr_candidates max_disjuncts
        if ltb max_disjuncts c.num_used_disjuncts || ltb max_queries c.num_used_queries
            then some (no_fitness, pool)
            else do
              (e1, e2, pool') ← encode_both filter uninit1 uninit2 fuel mr_target c.predicate pool
              ham_distance ← hamming_distance fuel e1 e2
              fitness ←
                  fitness_of max_distinct_predicates (length mr_candidates) max_disjuncts
                    c.num_asserted_bits ham_distance
              some (fitness, pool')

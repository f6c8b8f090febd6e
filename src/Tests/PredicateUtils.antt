-- ===== src/Tests/PredicateUtils.antt =====
-- The relationship of two predicates over two simple predicates.
use minerule.Prelude.{
  ◌↔◌, ◌⊎◌, ℕ, ◌+◌, ◌/◌, ap, ◌^◌, ◌<◌, ◌≡◌, refl, Bool, Option, some, List, [], ◌∷◌, ◌&&◌, true,
  arith, length, ◌↔◌, false, keep, any, ◌≢◌, ◌==◌,
}
use minerule.VarSet.{VarSet}
use minerule.VarSet.Enumerate.{config}
use minerule.Bits.{bit}
use minerule.Predicate.{ParsedPred, Ref, Pool, Predicate, find, compare_text, set_var_id}
use minerule.NormalForm.{Relationship}
use minerule.NormalForm.Relation.{relationship_of}
use minerule.PredicateUtils.{
  get_predicate_relationship, count_into, set_union, get_predicate_list, insert_predicate,
  insert_conjunction, insert_ref, new_list_and_node,
}
use minerule.PredicateUtils.Sets.{all_of, Rising, In, Occurs, all_of-Occurs}
use minerule.PredicateUtils.Numbering.{Pooled, Counted, count_into-Counted}
use minerule.PredicateUtils.Valuation.{val_of}
use minerule.PredicateUtils.Relationship.{chosen, get_predicate_relationship-relationship_of}
use minerule.PredicateUtils.Inclusion.{
  includes_first, includes_second, Implied, get_predicate_relationship-Implied,
}
use minerule.Predicate.{or_with}
use minerule.Predicate.Meaning.{holds_any}
use minerule.VarSet.Enumerate.{words}
use minerule.NormalForm.Merge.{differs}
use minerule.GaQueryCombinator.{
  Combination, QueryOrList, build_associated_predicate, build_disjuncts, join_candidates,
  assert_query, join_candidate, build_result, evaluator,
}
use minerule.GaQueryCombinator.Joined.{and_holds}
use minerule.GaQueryCombinator.Meaning.{total_length, build_associated_predicate-build_result}
use minerule.GaQueryCombinator.Evaluator.{score, evaluator-differs}

-- `a=1` and `a=2`, of which at most one can hold.
abbrev ref_1 : Ref
ref_1 = b'a' ∷ b'=' ∷ b'1' ∷ []

abbrev ref_2 : Ref
ref_2 = b'a' ∷ b'=' ∷ b'2' ∷ []

abbrev pool_with : ℕ → ℕ → Pool
pool_with i j =
    record { val1 = b'a' ∷ []; val2 = b'1' ∷ []; op = b'=' ∷ []; var_id = i }
    ∷ record { val1 = b'a' ∷ []; val2 = b'2' ∷ []; op = b'=' ∷ []; var_id = j }
    ∷ []

abbrev parsed : List ParsedPred
parsed =
    record { val1 = b'a' ∷ []; op = b'=' ∷ []; val2 = b'2' ∷ [] }
    ∷ record { val1 = b'a' ∷ []; op = b'=' ∷ []; val2 = b'1' ∷ [] }
    ∷ []

abbrev one_or_two : Predicate
one_or_two = (ref_1 ∷ []) ∷ (ref_2 ∷ []) ∷ []

abbrev two : Predicate
two = (ref_2 ∷ []) ∷ []

-- The filter drops the configuration where both are true.
abbrev not_both : List ParsedPred → Pool → VarSet → Option Bool
not_both l pool v = some (v.vset == 3)

abbrev junk : ℕ → ℕ
junk i = 7

abbrev both : (Ref → Bool) → Bool
both v = v ref_1 && v ref_2

Pooled-ref_1 : Pooled (pool_with 0 0) ref_1
unfolding find compare_text
Pooled-ref_1 = (_, refl)

Pooled-ref_2 : Pooled (pool_with 0 0) ref_2
unfolding find compare_text
Pooled-ref_2 = (_, refl)

counts :
    count_into (all_of one_or_two two) 0 (pool_with 0 0) []
    ≡ some (length (all_of one_or_two two), pool_with 0 1, parsed)
unfolding count_into set_union get_predicate_list compare_text set_var_id new_list_and_node find
    insert_predicate insert_conjunction insert_ref
counts = refl

two_long : length (all_of one_or_two two) ≡ 2
unfolding set_union get_predicate_list compare_text insert_predicate insert_conjunction insert_ref
two_long = refl

few : length (all_of one_or_two two) < 31
few = rw two_long (omega arith)

not_four : length (all_of one_or_two two) ≢ 4
not_four = rw two_long (omega arith)

enough : 2 ^ length (all_of one_or_two two) + 2 ^ length (all_of one_or_two two) < 9
enough = rw two_long (omega arith)

three_is_both : (c : ℕ) → c < 4 → (c == 3) ≡ (bit c 0 && bit (c / 2) 0)
unfolding bit
three_is_both c h = ground arith

drops :
    (c : ℕ)
    → c < 2 ^ length (all_of one_or_two two)
    → not_both parsed (pool_with 0 1) (config (length (all_of one_or_two two)) c)
      ≡ some (both (val_of (all_of one_or_two two) c))
unfolding set_union get_predicate_list compare_text insert_predicate insert_conjunction insert_ref
    val_of
drops c h = ap some (three_is_both c (omega arith))

get_predicate_relationship-relationship_of_example :
    get_predicate_relationship not_both junk junk 9 one_or_two two (pool_with 0 0)
    ≡ some (
      relationship_of
          (length (all_of one_or_two two))
          (chosen (all_of one_or_two two) (λ c. c == 3) one_or_two)
          (chosen (all_of one_or_two two) (λ c. c == 3) two),
      pool_with 0 1,
    )
get_predicate_relationship-relationship_of_example =
    get_predicate_relationship-relationship_of not_both junk junk 9 one_or_two two (pool_with 0 0)
      (pool_with 0 1) parsed (λ c. c == 3) ((Pooled-ref_1, tt), ((Pooled-ref_2, tt), tt))
      ((Pooled-ref_2, tt), tt) few not_four enough counts (λ c h. refl)

get_predicate_relationship-Implied_example :
    (rel : Relationship) × (get_predicate_relationship not_both junk junk 9 one_or_two two
        (pool_with 0 0)
      ≡ some (rel, pool_with 0 1))
    × (includes_second rel ≡ true ↔ Implied (all_of one_or_two two) both two one_or_two)
    × (includes_first rel ≡ true ↔ Implied (all_of one_or_two two) both one_or_two two)
get_predicate_relationship-Implied_example =
    get_predicate_relationship-Implied not_both junk junk 9 one_or_two two (pool_with 0 0)
      (pool_with 0 1) parsed both ((Pooled-ref_1, tt), ((Pooled-ref_2, tt), tt))
      ((Pooled-ref_2, tt), tt) few not_four enough counts drops

count_into-Counted_example : Counted (ref_1 ∷ ref_2 ∷ []) 0 (pool_with 0 0) []
unfolding compare_text
count_into-Counted_example =
    count_into-Counted (ref_1 ∷ ref_2 ∷ []) 0 (pool_with 0 0) [] (refl, tt)
      (Pooled-ref_1, (Pooled-ref_2, tt))

all_of-Occurs_example :
    Rising (all_of one_or_two two)
    × ((r : Ref) → In r (all_of one_or_two two) ↔ (Occurs r one_or_two ⊎ Occurs r two))
all_of-Occurs_example = all_of-Occurs one_or_two two

abbrev built_two : Combination
built_two = record {
  predicate = two;
  num_used_disjuncts = 1;
  num_used_queries = 1;
  num_asserted_bits = 1;
}

builds_two : build_associated_predicate (true ∷ []) (two ∷ []) 1 ≡ some built_two
unfolding build_associated_predicate build_disjuncts join_candidates assert_query join_candidate
    or_with
builds_two = refl

evaluator-differs_example :
    evaluator not_both junk junk 9 false one_or_two (two ∷ []) 1 5 10 (true ∷ []) (pool_with 0 0)
    ≡ some (
      score 10 1 1 1 (
          length (
            keep
              (differs
                (chosen (all_of one_or_two two) (λ c. c == 3) one_or_two)
                (chosen (all_of one_or_two two) (λ c. c == 3) two))
              (words (length (all_of one_or_two two))))),
      pool_with 0 1,
    )
evaluator-differs_example =
    evaluator-differs not_both junk junk 9 one_or_two (two ∷ []) 1 5 10 (true ∷ []) built_two
      (pool_with 0 0) (pool_with 0 1) parsed (λ c. c == 3) builds_two refl (omega arith)
      ((Pooled-ref_1, tt), ((Pooled-ref_2, tt), tt)) ((Pooled-ref_2, tt), tt) few not_four enough
      counts (λ c h. refl)

build_associated_predicate-build_result_example :
    (c : Combination) × (rows : QueryOrList) × (build_associated_predicate
        (true ∷ true ∷ false ∷ true ∷ [])
        (one_or_two ∷ two ∷ [])
        2
      ≡ some c)
    × (build_result true (true ∷ true ∷ false ∷ true ∷ []) 2 2 ≡ some rows)
    × ((v : Ref → Bool) → holds_any v c.predicate ≡ any (and_holds (one_or_two ∷ two ∷ []) v) rows)
    × (c.num_used_disjuncts ≡ length rows)
    × (c.num_asserted_bits ≡ total_length rows)
build_associated_predicate-build_result_example =
    build_associated_predicate-build_result (one_or_two ∷ two ∷ [])
      (true ∷ true ∷ false ∷ true ∷ []) 2 (omega arith, (omega arith, tt)) (omega arith)
      (omega arith)

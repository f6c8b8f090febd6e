-- ===== src/PredicateUtils.antt =====
-- src/PredicateUtils/PredicateUtils.cpp, include/minerule/PredicateUtils/PredicateUtils.hpp and
-- `Predicate::getPredicateList`: the relationship of two predicates through their codes. The filter
-- of impossible configurations is an argument, built as the code builds it from the list of all the
-- simple predicates.
pub mod Sets
pub mod Numbering
pub mod Valuation
pub mod Relationship
pub mod Inclusion
use minerule.Prelude.{
  ℕ, zero, suc, ◌+◌, Bool, true, false, Option, none, some, ◌>>=◌, List, [], ◌∷◌, Ordering,
}
use minerule.VarSet.{VarSet}
use minerule.Predicate.{
  Ref, Pool, ParsedPred, SimplePredicate, PredConjunction, Predicate, compare_text, find,
  set_var_id, get_var_id, evaluate,
}
use minerule.NormalForm as NF
use minerule.NormalForm.{encode, equal, codes_relationship}

-- `insert` into a set of pointers ordered by `PtrSimplePredComp`.
unfoldable pub insert_ref : Ref → List Ref → List Ref
insert_ref r [] = r ∷ []
insert_ref r (x ∷ xs) = elim (compare_text r x) [
  | Ordering.lt ↦ r ∷ x ∷ xs
  | Ordering.eq ↦ x ∷ xs
  | Ordering.gt ↦ x ∷ insert_ref r xs
]

unfoldable pub insert_conjunction : PredConjunction → List Ref → List Ref
unfolding insert_ref
insert_conjunction [] acc = acc
insert_conjunction (r ∷ rs) acc = insert_conjunction rs (insert_ref r acc)

unfoldable pub insert_predicate : Predicate → List Ref → List Ref
unfolding insert_conjunction
insert_predicate [] acc = acc
insert_predicate (c ∷ cs) acc = insert_predicate cs (insert_conjunction c acc)

-- `Predicate::getPredicateList` on a predicate that has no cached list.
unfoldable pub get_predicate_list : Predicate → List Ref
get_predicate_list p = insert_predicate p []

-- `std::set_union` of two such sets.
unfoldable pub set_union : List Ref → List Ref → List Ref
set_union [] ys = ys
set_union (x ∷ xs) [] = x ∷ xs
set_union (x ∷ xs) (y ∷ ys) = elim (compare_text x y) [
  | Ordering.lt ↦ x ∷ set_union xs (y ∷ ys)
  | Ordering.eq ↦ x ∷ set_union xs ys
  | Ordering.gt ↦ y ∷ set_union (x ∷ xs) ys
]

-- `CountingIterator`: each assignment through it gives the predicate the next number and puts its
-- text in front of the list.
unfoldable pub new_list_and_node : SimplePredicate → List ParsedPred → List ParsedPred
new_list_and_node s old_list = record { val1 = s.val1; op = s.op; val2 = s.val2 } ∷ old_list

unfoldable pub count_into :
    List Ref → ℕ → Pool → List ParsedPred → Option (ℕ × Pool × List ParsedPred)
unfolding new_list_and_node
count_into [] cur_num pool l_and = some (cur_num, pool, l_and)
count_into (r ∷ rs) cur_num pool l_and = do
  pred ← find r pool
  count_into rs (cur_num + 1) (set_var_id r cur_num pool) (new_list_and_node pred l_and)

module _ (filter : List ParsedPred → Pool → VarSet → Option Bool) (uninit1 uninit2 : ℕ → ℕ)
    (fuel : ℕ) where
  -- The two codes, over the numbering of all the simple predicates of both.
  unfoldable pub encode_both :
      Predicate → Predicate → Pool → Option (NF.EncodedNf × NF.EncodedNf × Pool)
  encode_both p1 p2 pool = do
    (counter, pool', all_preds) ←
        count_into (set_union (get_predicate_list p1) (get_predicate_list p2)) 0 pool []
    e1 ←
        encode (λ v. evaluate (get_var_id pool') v p1) (filter all_preds pool') uninit1 fuel counter
    e2 ←
        encode (λ v. evaluate (get_var_id pool') v p2) (filter all_preds pool') uninit2 fuel counter
    some (e1, e2, pool')

  -- `PredicateUtils::getPredicateRelationship`, with the pool that it leaves.
  unfoldable pub get_predicate_relationship :
      Predicate → Predicate → Pool → Option (NF.Relationship × Pool)
  unfolding encode_both
  get_predicate_relationship p1 p2 pool = do
    (e1, e2, pool') ← encode_both p1 p2 pool
    rel ← codes_relationship fuel e1 e2
    some (rel, pool')

  -- `PredicateUtils::predicatesAreEquivalent`
  unfoldable pub predicates_are_equivalent : Predicate → Predicate → Pool → Option (Bool × Pool)
  unfolding encode_both
  predicates_are_equivalent p1 p2 pool = do
    (e1, e2, pool') ← encode_both p1 p2 pool
    same ← equal e1 e2
    some (same, pool')

-- ===== src/OptimizedMinerule/Relations.antt =====
-- What `getMineruleRelationship` tells from the relationships of the three conditions.
use minerule.Prelude.{◌≡◌, refl, List, [], ◌∷◌, all, if◌then◌else◌}
use minerule.NormalForm.{
  Relationship, first_more_general, first_more_specific, equivalent, unrelated,
}
use minerule.PredicateUtils.Inclusion.{includes_second, includes_first}
use minerule.OptimizedMinerule.{no_relationship, dominance, equivalence, relation_loop}

relation_loop-dominance :
    (relations : List Relationship)
    → relation_loop dominance relations
      ≡ (if all includes_second relations then dominance else no_relationship)
unfolding relation_loop
relation_loop-dominance [] = refl
relation_loop-dominance (first_more_general ∷ rest) = relation_loop-dominance rest
relation_loop-dominance (first_more_specific ∷ rest) = refl
relation_loop-dominance (equivalent ∷ rest) = relation_loop-dominance rest
relation_loop-dominance (unrelated ∷ rest) = refl

-- The loop of getMineruleRelationship over the relationships of the conditions gives an equivalence
-- if each includes the second and each includes the first, a dominance if each includes the second
-- but not each the first, and no relationship otherwise.
pub relation_loop-includes :
    (relations : List Relationship)
    → relation_loop equivalence relations ≡ (
        if all includes_second relations
        then (if all includes_first relations then equivalence else dominance)
        else no_relationship)
unfolding relation_loop
relation_loop-includes [] = refl
relation_loop-includes (first_more_general ∷ rest) = relation_loop-dominance rest
relation_loop-includes (first_more_specific ∷ rest) = refl
relation_loop-includes (equivalent ∷ rest) = relation_loop-includes rest
relation_loop-includes (unrelated ∷ rest) = refl

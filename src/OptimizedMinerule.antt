-- ===== src/OptimizedMinerule.antt =====
-- include/minerule/Optimizer/OptimizedMinerule.hpp and src/Optimizer/OptimizedMinerule.cpp: the
-- relationship of a past minerule to the current one, and the search for the best past minerule.
-- A float is its bit pattern, and `<=` on floats is an argument.
pub mod Relations
pub mod Search
pub mod Candidates
use minerule.Prelude.{
  ℕ, zero, suc, Bool, true, false, not, ◌&&◌, ltb, ◌==◌, if◌then◌else◌, Option, none, some, ◌>>=◌,
  List, [], ◌∷◌, ◌++◌, Ordering,
}
use minerule.Predicate.{Text, ParsedPred, Pool, Predicate, compare_text, predicate_of}
use minerule.NormalForm.{
  Relationship, first_more_general, first_more_specific, equivalent, unrelated,
}
use minerule.MinMaxPair.{MinMaxPair, contains}

-- The fields of `ParsedMinerule` that the optimizer compares.
pub record ParsedMinerule : Type 0 where
  pub ga : List Text
  pub ca : List Text
  pub ra : List Text
  pub ba : List Text
  pub ha : List Text
  pub mc : List (List ParsedPred)
  pub gc : List (List ParsedPred)
  pub cc : List (List ParsedPred)
  pub c_aggr_list : List Text
  pub sup : ℕ
  pub body_cardinalities : MinMaxPair
  pub head_cardinalities : MinMaxPair
  pub tab_source : Text
  pub tab_result : Text

-- `MineruleRelationship`
pub data MineruleRelationship : Type 0 where
  no_relationship dominance inclusion equivalence combination : MineruleRelationship

-- `==` on strings and on vectors of strings.
unfoldable pub same_text : Text → Text → Bool
same_text s t = elim (compare_text s t) [ Ordering.eq ↦ true | _ ↦ false ]

unfoldable pub same_texts : List Text → List Text → Bool
same_texts [] [] = true
same_texts [] (t ∷ ts) = false
same_texts (s ∷ ss) [] = false
same_texts (s ∷ ss) (t ∷ ts) = same_text s t && same_texts ss ts

-- The loop of `getMineruleRelationship` over the three relationships.
unfoldable pub relation_loop : MineruleRelationship → List Relationship → MineruleRelationship
relation_loop current [] = current
relation_loop current (first_more_general ∷ rest) = relation_loop dominance rest
relation_loop current (equivalent ∷ rest) = relation_loop current rest
relation_loop current (first_more_specific ∷ rest) = no_relationship
relation_loop current (unrelated ∷ rest) = no_relationship

module _ (le_float : ℕ → ℕ → Bool) where
  -- The guard of `getMineruleRelationship`.
  unfoldable pub comparable : ParsedMinerule → ParsedMinerule → Bool
  comparable mr1 mr2 =
      same_texts mr1.ga mr2.ga
      && same_texts mr1.ca mr2.ca
      && same_texts mr1.ra mr2.ra
      && same_texts mr1.ba mr2.ba
      && same_texts mr1.ha mr2.ha
      && same_texts mr1.c_aggr_list mr2.c_aggr_list
      && le_float mr1.sup mr2.sup
      && contains mr1.body_cardinalities mr2.body_cardinalities
      && contains mr1.head_cardinalities mr2.head_cardinalities
      && same_text mr1.tab_source mr2.tab_source

-- What `getMineruleRelationship` is given: the option that turns it off, `<=` on floats, and
-- `getPredicateRelationship` on a source table.
module _ (avoid_dominance_detection : Bool) (le_float : ℕ → ℕ → Bool)
    (relate : Text → Predicate → Predicate → Pool → Option (Relationship × Pool)) where
  unfoldable pub three_relationships :
      ParsedMinerule → ParsedMinerule → Pool → Option (List Relationship × Pool)
  three_relationships mr1 mr2 pool =
      let (mr1pmc, pool1) = predicate_of mr1.mc pool in
      let (mr2pmc, pool2) = predicate_of mr2.mc pool1 in
      let (mr1pgc, pool3) = predicate_of mr1.gc pool2 in
      let (mr2pgc, pool4) = predicate_of mr2.gc pool3 in
      let (mr1pcc, pool5) = predicate_of mr1.cc pool4 in
      let (mr2pcc, pool6) = predicate_of mr2.cc pool5 in
      do
        (mcrel, pool7) ← relate mr1.tab_source mr1pmc mr2pmc pool6
        (gcrel, pool8) ← relate mr1.tab_source mr1pgc mr2pgc pool7
        (ccrel, pool9) ← relate mr1.tab_source mr1pcc mr2pcc pool8
        some (mcrel ∷ gcrel ∷ ccrel ∷ [], pool9)

  -- `getMineruleRelationship`
  unfoldable pub get_minerule_relationship :
      ParsedMinerule → ParsedMinerule → Pool → Option (MineruleRelationship × Pool)
  get_minerule_relationship mr1 mr2 pool = elim (avoid_dominance_detection) [
    | true ↦ some (no_relationship, pool)
    | false ↦ elim (comparable le_float mr1 mr2) [
      | false ↦ some (no_relationship, pool)
      | true ↦ do
        (relations, pool1) ← three_relationships mr1 mr2 pool
        some (relation_loop equivalence relations, pool1)
    ]
  ]

-- `CatalogueInfo`, with the minerule that its text parses to.
pub record CatalogueInfo : Type 0 where
  pub mr : ParsedMinerule
  pub res_size : ℕ

-- `OptimizationInfo`, without the combination formula.
pub record OptimizationInfo : Type 0 where
  pub relationship : MineruleRelationship
  pub minerule : ParsedMinerule
  pub minerules_to_combine : List ParsedMinerule

-- What the loop of `optimize` is given: the relationship of a past minerule to the current one,
-- whether it is a candidate for a combination, the option that avoids equivalences, and the size
-- of a past result, which the catalogue tells by its name.
module _ (relation : ParsedMinerule → MineruleRelationship) (candidate : ParsedMinerule → Bool)
    (avoid_equivalence_detection : Bool) (query_size : Text → Option ℕ) where
  -- `currentRel`, after equivalences have been turned into dominances.
  unfoldable pub current_rel : ParsedMinerule → MineruleRelationship
  current_rel mr = elim (relation mr) [
    | equivalence ↦ if avoid_equivalence_detection then dominance else equivalence
    | no_relationship ↦ no_relationship
    | dominance ↦ dominance
    | inclusion ↦ inclusion
    | combination ↦ combination
  ]

  -- The case of a dominant minerule.
  unfoldable pub dominated : CatalogueInfo → OptimizationInfo → Option OptimizationInfo
  dominated it opt = elim opt.relationship [
    | no_relationship ↦ some (record opt { minerule = it.mr; relationship = dominance })
    | _ ↦ do
      old_size ← query_size opt.minerule.tab_result
      some (
          if ltb it.res_size old_size
          then record opt { minerule = it.mr; relationship = dominance }
          else record opt { relationship = dominance })
  ]

  -- The loop of `optimize` over the past minerules.
  unfoldable pub optimize_loop : List CatalogueInfo → OptimizationInfo → Option OptimizationInfo
  optimize_loop [] opt = some opt
  optimize_loop (it ∷ rest) opt =
      let opt1 =
        if candidate it.mr
        then record opt { minerules_to_combine = opt.minerules_to_combine ++ it.mr ∷ [] }
        else opt in
      elim (current_rel it.mr) [
        | equivalence ↦ some (record opt1 { relationship = equivalence; minerule = it.mr })
        | dominance ↦ dominated it opt1 >>= optimize_loop rest
        | _ ↦ optimize_loop rest opt1
      ]

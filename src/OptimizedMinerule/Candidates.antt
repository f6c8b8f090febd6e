-- ===== src/OptimizedMinerule/Candidates.antt =====
-- The other comparisons of two minerules: inclusion, dominance, and the condition on attributes
-- under which a past query is a candidate for a combination.
use minerule.Prelude.{
  ℕ, ◌≡◌, refl, Bool, true, false, not, ◌&&◌, any, all, Option, none, some, ◌>>=◌, List, [], ◌∷◌,
  arith, if◌then◌else◌,
}
use minerule.Predicate.{Text, ParsedPred, Pool, Predicate, predicate_of}
use minerule.NormalForm.{
  Relationship, first_more_general, first_more_specific, equivalent, unrelated,
}
use minerule.SqlUtils.{is_attribute, strip_prefix, remove_head_body, head_dot, body_dot}
use minerule.OptimizedMinerule.{
  ParsedMinerule, MineruleRelationship, no_relationship, dominance, inclusion, equivalence,
  combination, comparable, same_text, relation_loop, three_relationships, get_minerule_relationship,
}

-- `attributesInPredicate`: what is not a number, of both sides.
unfoldable pub attributes_in_predicate : (Text → Bool) → List (List ParsedPred) → List Text
attributes_in_predicate is_number [] = []
attributes_in_predicate is_number ([] ∷ l) = attributes_in_predicate is_number l
attributes_in_predicate is_number ((p ∷ l_and) ∷ l) =
    let rest = attributes_in_predicate is_number (l_and ∷ l) in
    let rest2 = if not (is_number p.val2) then p.val2 ∷ rest else rest in
    if not (is_number p.val1) then p.val1 ∷ rest2 else rest2

-- `includes` on the two sets: every attribute of the first is one of the second.
unfoldable pub predicate_attributes_are_included :
    (Text → Bool) → ParsedMinerule → ParsedMinerule → Bool
predicate_attributes_are_included is_number mr1 mr2 =
    all (λ s. any (same_text s) (attributes_in_predicate is_number mr2.mc))
      (attributes_in_predicate is_number mr1.mc)

-- `OptimizerCatalogue::hasIDConstraints`, where the catalogue tells `isIDAttribute`.
unfoldable pub selected_attributes : ParsedMinerule → Text → Option (List Text)
selected_attributes minerule attr = elim (strip_prefix body_dot attr) [
  | some _ ↦ some minerule.ba
  | none ↦ elim (strip_prefix head_dot attr) [ some _ ↦ some minerule.ha | none ↦ none ]
]

module _ (is_number : Text → Bool) (is_id_attribute : Text → List Text → Text → Bool) where
  unfoldable pub has_id_loop : ParsedMinerule → List (List ParsedPred) → Option Bool
  has_id_loop minerule [] = some true
  has_id_loop minerule ([] ∷ l) = has_id_loop minerule l
  has_id_loop minerule ((p ∷ l_and) ∷ l) =
      let attr1 = is_attribute is_number p.val1 in
      let attr2 = is_attribute is_number p.val2 in
      let the_attr = if attr2 then p.val2 else (if attr1 then p.val1 else []) in
      elim (attr1 && attr2) [
        | true ↦ some false
        | false ↦ do
          attr_list ← selected_attributes minerule the_attr
          elim (is_id_attribute minerule.tab_source attr_list (remove_head_body the_attr)) [
            | true ↦ has_id_loop minerule (l_and ∷ l)
            | false ↦ some false
          ]
      ]

  unfoldable pub has_id_constraints : ParsedMinerule → Option Bool
  has_id_constraints minerule = has_id_loop minerule minerule.mc

  -- `isACandidateQuery`
  unfoldable pub is_a_candidate_query :
      (ℕ → ℕ → Bool) → ParsedMinerule → ParsedMinerule → Option Bool
  is_a_candidate_query le_float mr1 mr2 = elim (comparable le_float mr1 mr2) [
    | false ↦ some false
    | true ↦ do
      id_constraints ← has_id_constraints mr1
      some (id_constraints && predicate_attributes_are_included is_number mr1 mr2)
  ]

-- `mcrel == FirstMoreGeneral || mcrel == Equivalent`
abbrev pub general_or_equivalent : Relationship → Bool
general_or_equivalent first_more_general = true
general_or_equivalent first_more_specific = false
general_or_equivalent equivalent = true
general_or_equivalent unrelated = false

module _ (le_float : ℕ → ℕ → Bool)
    (relate : Text → Predicate → Predicate → Pool → Option (Relationship × Pool)) where
  -- `firstMineruleDominatesSecondMinerule`
  unfoldable pub first_minerule_dominates :
      ParsedMinerule → ParsedMinerule → Pool → Option (Bool × Pool)
  first_minerule_dominates mr1 mr2 pool = do
    (relations, pool1) ← three_relationships false le_float relate mr1 mr2 pool
    some (comparable le_float mr1 mr2 && all general_or_equivalent relations, pool1)

  abbrev pub dominates_or_equals : MineruleRelationship → Bool
  dominates_or_equals no_relationship = false
  dominates_or_equals dominance = true
  dominates_or_equals inclusion = false
  dominates_or_equals equivalence = true
  dominates_or_equals combination = false

  dominates-relation_loop :
      (current : MineruleRelationship) (relations : List Relationship)
      → dominates_or_equals current ≡ true
      → all general_or_equivalent relations ≡ dominates_or_equals (relation_loop current relations)
  unfolding relation_loop
  dominates-relation_loop current [] h = ground arith
  dominates-relation_loop current (first_more_general ∷ rest) h =
      dominates-relation_loop dominance rest refl
  dominates-relation_loop current (first_more_specific ∷ rest) h = refl
  dominates-relation_loop current (equivalent ∷ rest) h = dominates-relation_loop current rest h
  dominates-relation_loop current (unrelated ∷ rest) h = refl

  -- For comparable minerules whose three predicate relationships can be computed, and with
  -- dominance detection on, getMineruleRelationship returns, and
  -- firstMineruleDominatesSecondMinerule answers true exactly where the result is a dominance or an
  -- equivalence.
  pub first_minerule_dominates-get_minerule_relationship :
      (mr1 mr2 : ParsedMinerule) (pool pool' : Pool) (relations : List Relationship)
      → comparable le_float mr1 mr2 ≡ true
      → three_relationships false le_float relate mr1 mr2 pool ≡ some (relations, pool')
      → (rel : MineruleRelationship) × (get_minerule_relationship false le_float relate mr1 mr2 pool
          ≡ some (rel, pool'))
        × (first_minerule_dominates mr1 mr2 pool ≡ some (dominates_or_equals rel, pool'))
  unfolding get_minerule_relationship first_minerule_dominates
  first_minerule_dominates-get_minerule_relationship mr1 mr2 pool pool' relations same e = (
    relation_loop equivalence relations,
    rw (same, get_minerule_relationship) (rw e refl),
    rw (e, first_minerule_dominates)
        (rw (same, dominates-relation_loop equivalence relations refl) refl),
  )

-- `&&` over calls of `predicatesAreEquivalent`, which stops at the first that is false.
module _ (le_float : ℕ → ℕ → Bool)
    (equivalent_predicates : Text → Predicate → Predicate → Pool → Option (Bool × Pool)) where
  unfoldable pub all_equivalent : Text → List (Predicate × Predicate) → Pool → Option (Bool × Pool)
  all_equivalent tab [] pool = some (true, pool)
  all_equivalent tab (ps ∷ rest) pool = do
    (same, pool1) ← equivalent_predicates tab ps.0 ps.1 pool
    elim same [ true ↦ all_equivalent tab rest pool1 | false ↦ some (false, pool1) ]

  -- `firstMineruleIncludesSecondMinerule`
  unfoldable pub first_minerule_includes :
      ParsedMinerule → ParsedMinerule → Pool → Option (Bool × Pool)
  first_minerule_includes mr1 mr2 pool =
      let (mr1pmc, pool1) = predicate_of mr1.mc pool in
      let (mr2pmc, pool2) = predicate_of mr2.mc pool1 in
      let (mr1pgc, pool3) = predicate_of mr1.gc pool2 in
      let (mr2pgc, pool4) = predicate_of mr2.gc pool3 in
      let (mr1pcc, pool5) = predicate_of mr1.cc pool4 in
      let (mr2pcc, pool6) = predicate_of mr2.cc pool5 in
      elim (comparable le_float mr1 mr2) [
        | true ↦
            all_equivalent mr1.tab_source
              ((mr1pmc, mr2pmc) ∷ (mr1pgc, mr2pgc) ∷ (mr1pcc, mr2pcc) ∷ []) pool6
        | false ↦ some (false, pool6)
      ]

-- ===== src/Tests/Optimizer.antt =====
-- The bounds of `MinMaxPair` and the search of the optimizer on small inputs.
use minerule.Prelude.{
  ◌↔◌, false, ℕ, ℤ, pos, le_int, leb, ◌≡◌, refl, Bool, true, false, ◌==◌, Option, some, none, List,
  [], ◌∷◌, if◌then◌else◌, all,
}
use minerule.Predicate.{Text, Predicate, Pool, predicate_of, compare_text}
use minerule.OptimizedMinerule.{
  comparable, same_texts, same_text, three_relationships, get_minerule_relationship,
}
use minerule.OptimizedMinerule.Candidates.{
  first_minerule_dominates, dominates_or_equals, first_minerule_dominates-get_minerule_relationship,
}
use minerule.NormalForm.{Relationship, equivalent, first_more_general}
use minerule.PredicateUtils.Inclusion.{includes_first, includes_second}
use minerule.MinMaxPair.{MinMaxPair, apply_constraints, contains, validate}
use minerule.MinMaxPair.Bounds.{validate-contains, contains-apply_constraints}
use minerule.OptimizedMinerule.{
  ParsedMinerule, MineruleRelationship, no_relationship, dominance, equivalence, CatalogueInfo,
  OptimizationInfo, current_rel, optimize_loop, relation_loop,
}
use minerule.OptimizedMinerule.Relations.{relation_loop-includes}
use minerule.OptimizedMinerule.Search.{verdict, optimize_loop-verdict}

abbrev one_to_five : MinMaxPair
one_to_five = record { min = pos 1; max = pos 5 }

abbrev three_to_nine : MinMaxPair
three_to_nine = record { min = pos 3; max = pos 9 }

abbrev two_to_four : MinMaxPair
two_to_four = record { min = pos 2; max = pos 4 }

validate-contains_example :
    (contains one_to_five two_to_four ≡ true)
    ↔ ((v : ℤ) → validate two_to_four v ≡ true → validate one_to_five v ≡ true)
validate-contains_example = validate-contains one_to_five two_to_four refl

contains-apply_constraints_example :
    (r : MinMaxPair) × (apply_constraints one_to_five three_to_nine ≡ some r)
    × (le_int r.min r.max ≡ true)
    × (contains three_to_nine r ≡ true)
    × ((v : ℤ)
        → validate one_to_five v ≡ true
        → validate three_to_nine v ≡ true
        → validate r v ≡ true)
    × ((v : ℤ)
        → validate one_to_five v ≡ true
        → validate three_to_nine v ≡ true
        → contains one_to_five r ≡ true)
    × (le_int three_to_nine.min one_to_five.max ≡ false
        → (r.min ≡ three_to_nine.min) × (r.max ≡ three_to_nine.min))
    × (le_int one_to_five.min three_to_nine.max ≡ false
        → (r.min ≡ three_to_nine.max) × (r.max ≡ three_to_nine.max))
contains-apply_constraints_example = contains-apply_constraints one_to_five three_to_nine refl refl

abbrev some_general : List Relationship
some_general = equivalent ∷ first_more_general ∷ equivalent ∷ []

relation_loop-includes_example : relation_loop equivalence some_general ≡ (
    if all includes_second some_general
    then (if all includes_first some_general then equivalence else dominance)
    else no_relationship)
relation_loop-includes_example = relation_loop-includes some_general

-- Minerules that differ in the name of their result only.
abbrev named : ℕ → ParsedMinerule
named c = record {
  ga = [];
  ca = [];
  ra = [];
  ba = [];
  ha = [];
  mc = [];
  gc = [];
  cc = [];
  c_aggr_list = [];
  sup = 0;
  body_cardinalities = one_to_five;
  head_cardinalities = one_to_five;
  tab_source = [];
  tab_result = c ∷ [];
}

-- `x` has no relationship, `y` and `z` dominate; the sizes are 3, 9 and 4.
abbrev relation_to : ParsedMinerule → MineruleRelationship
relation_to mr = elim mr.tab_result [
  | [] ↦ no_relationship
  | c ∷ rest ↦ if c == b'x' then no_relationship else dominance
]

abbrev size_of : Text → Option ℕ
size_of [] = none
size_of (c ∷ rest) = if c == b'x' then some 3 else (if c == b'y' then some 9 else some 4)

abbrev no_candidate : ParsedMinerule → Bool
no_candidate mr = false

abbrev catalogue : List CatalogueInfo
catalogue =
    record { mr = named b'x'; res_size = 3 }
    ∷ record { mr = named b'y'; res_size = 9 }
    ∷ record { mr = named b'z'; res_size = 4 }
    ∷ []

abbrev begin : OptimizationInfo
begin = record { relationship = no_relationship; minerule = named b'q'; minerules_to_combine = [] }

optimize_loop-verdict_example :
    (r : OptimizationInfo) × (optimize_loop relation_to no_candidate false size_of catalogue begin
      ≡ some r)
    × (◌≡◌ {A = MineruleRelationship × ParsedMinerule}
        (r.relationship, r.minerule)
        (verdict relation_to no_candidate false size_of (named b'q') catalogue))
optimize_loop-verdict_example =
    optimize_loop-verdict relation_to no_candidate false size_of catalogue begin refl
      (refl, (refl, (refl, tt)))

smallest_dominant :
    verdict relation_to no_candidate false size_of (named b'q') catalogue ≡ (dominance, named b'z')
unfolding current_rel
smallest_dominant = refl

-- Two minerules without conditions, where every pair of predicates is equivalent.
abbrev every_equivalent : Text → Predicate → Predicate → Pool → Option (Relationship × Pool)
every_equivalent tab p1 p2 pool = some (equivalent, pool)

comparable_xy : comparable leb (named b'x') (named b'y') ≡ true
unfolding comparable same_texts same_text contains compare_text
comparable_xy = refl

three_xy :
    three_relationships false leb every_equivalent (named b'x') (named b'y') []
    ≡ some (equivalent ∷ equivalent ∷ equivalent ∷ [], [])
unfolding three_relationships predicate_of
three_xy = refl

first_minerule_dominates-get_minerule_relationship_example :
    (rel : MineruleRelationship) × (get_minerule_relationship false leb every_equivalent
        (named b'x')
        (named b'y')
        []
      ≡ some (rel, []))
    × (first_minerule_dominates leb every_equivalent (named b'x') (named b'y') []
        ≡ some (dominates_or_equals leb every_equivalent rel, []))
first_minerule_dominates-get_minerule_relationship_example =
    first_minerule_dominates-get_minerule_relationship leb every_equivalent (named b'x')
      (named b'y') [] [] (equivalent ∷ equivalent ∷ equivalent ∷ []) comparable_xy three_xy

-- ===== src/Tests/Analyzer.antt =====
-- The table of relations at two comparisons of strings.
use minerule.Prelude.{ℕ, ◌≡◌, refl, Bool, true, false, some, [], ◌∷◌}
use minerule.Predicate.{Text, compare_text}
use minerule.SqlUtils.{string}
use minerule.Interval.{less, less_eq}
use minerule.Interval.Order.{compare_text-IsOrder}
use minerule.Interval.Contents.{satisfies}
use minerule.SimplePredAnalyzer.{
  get_operator_index, get_relation, op_relation_table, get_values_relationship_index, values_order,
}
use minerule.SimplePredAnalyzer.Table.{index_of, means, is_same, get_relation-means}

abbrev no_number : Text → Bool
no_number s = false

less_index : get_operator_index (b'<' ∷ []) ≡ some (index_of less)
unfolding get_operator_index
less_index = refl

less_eq_index : get_operator_index (b'<' ∷ b'=' ∷ []) ≡ some (index_of less_eq)
unfolding get_operator_index
less_eq_index = refl

-- `a < 5` and `a <= 5`, where `a` is 4.
get_relation-means_example :
    (c : ℕ) × (get_relation no_number compare_text
        (b'<' ∷ [])
        (b'5' ∷ [])
        (b'<' ∷ b'=' ∷ [])
        (b'5' ∷ [])
        string
      ≡ some c)
    × (means c
          (satisfies compare_text less (b'4' ∷ []) (b'5' ∷ []))
          (satisfies compare_text less_eq (b'4' ∷ []) (b'5' ∷ []))
          (is_same (compare_text (b'4' ∷ []) (b'5' ∷ [])))
        ≡ true)
get_relation-means_example =
    get_relation-means no_number compare_text string compare_text-IsOrder less less_eq (b'<' ∷ [])
      (b'<' ∷ b'=' ∷ []) (b'5' ∷ []) (b'5' ∷ []) (b'4' ∷ []) less_index less_eq_index tt tt

right_more_general :
    get_relation no_number compare_text
      (b'<' ∷ [])
      (b'5' ∷ [])
      (b'<' ∷ b'=' ∷ [])
      (b'5' ∷ [])
      string
    ≡ some b'r'
unfolding get_relation get_operator_index op_relation_table get_values_relationship_index
    values_order compare_text
right_more_general = refl

-- ===== src/SimplePredAnalyzer.antt =====
-- src/PredicateUtils/SimplePredAnalyzer.cpp: the relation of `a Xop x` to `a Yop y` for an attribute
-- `a`, from a table. A character of the table is its code. `none` is an exception or an access
-- outside the table.
pub mod Table
use minerule.Prelude.{
  ℕ, zero, suc, Bool, true, false, ◌&&◌, ◌==◌, if◌then◌else◌, Option, none, some, ◌>>=◌, List, [],
  ◌∷◌, get_elem?, get_or, Ordering,
}
use minerule.Predicate.{Text, compare_text}
use minerule.SqlUtils.{SqlKind, numeric, string, binary, date_time, bit_kind}

-- `opRelationTable`
unfoldable pub op_relation_table : List (List Text)
op_relation_table =
    ((b'l' ∷ b'b' ∷ b'r' ∷ [])
      ∷ (b'l' ∷ b'r' ∷ b'r' ∷ [])
      ∷ (b'l' ∷ b'!' ∷ b'!' ∷ [])
      ∷ (b'/' ∷ b'!' ∷ b'!' ∷ [])
      ∷ (b'/' ∷ b'!' ∷ b'!' ∷ [])
      ∷ (b'/' ∷ b'r' ∷ b'r' ∷ [])
      ∷ [])
    ∷ ((b'l' ∷ b'l' ∷ b'r' ∷ [])
        ∷ (b'l' ∷ b'b' ∷ b'r' ∷ [])
        ∷ (b'l' ∷ b'l' ∷ b'!' ∷ [])
        ∷ (b'/' ∷ b'=' ∷ b'!' ∷ [])
        ∷ (b'/' ∷ b'!' ∷ b'!' ∷ [])
        ∷ (b'/' ∷ b'<' ∷ b'r' ∷ [])
        ∷ [])
    ∷ ((b'!' ∷ b'!' ∷ b'r' ∷ [])
        ∷ (b'!' ∷ b'r' ∷ b'r' ∷ [])
        ∷ (b'!' ∷ b'b' ∷ b'!' ∷ [])
        ∷ (b'r' ∷ b'r' ∷ b'!' ∷ [])
        ∷ (b'r' ∷ b'!' ∷ b'!' ∷ [])
        ∷ (b'r' ∷ b'!' ∷ b'r' ∷ [])
        ∷ [])
    ∷ ((b'!' ∷ b'!' ∷ b'/' ∷ [])
        ∷ (b'!' ∷ b'=' ∷ b'/' ∷ [])
        ∷ (b'!' ∷ b'l' ∷ b'l' ∷ [])
        ∷ (b'r' ∷ b'b' ∷ b'l' ∷ [])
        ∷ (b'r' ∷ b'l' ∷ b'l' ∷ [])
        ∷ (b'r' ∷ b'>' ∷ b'/' ∷ [])
        ∷ [])
    ∷ ((b'!' ∷ b'!' ∷ b'/' ∷ [])
        ∷ (b'!' ∷ b'!' ∷ b'/' ∷ [])
        ∷ (b'!' ∷ b'!' ∷ b'l' ∷ [])
        ∷ (b'r' ∷ b'r' ∷ b'l' ∷ [])
        ∷ (b'r' ∷ b'b' ∷ b'l' ∷ [])
        ∷ (b'r' ∷ b'r' ∷ b'/' ∷ [])
        ∷ [])
    ∷ ((b'l' ∷ b'l' ∷ b'/' ∷ [])
        ∷ (b'l' ∷ b'<' ∷ b'/' ∷ [])
        ∷ (b'l' ∷ b'!' ∷ b'l' ∷ [])
        ∷ (b'/' ∷ b'>' ∷ b'l' ∷ [])
        ∷ (b'/' ∷ b'l' ∷ b'l' ∷ [])
        ∷ (b'/' ∷ b'b' ∷ b'/' ∷ [])
        ∷ [])
    ∷ []

-- `getOperatorIndex`, on a string that ends with a zero.
unfoldable pub get_operator_index : Text → Option ℕ
get_operator_index op =
    let c0 = get_or op 0 0 in
    let c1 = get_or op 1 0 in
    if c0 == b'<'
    then (if c1 == 0
        then some 0
        else (if c1 == b'=' then some 1 else (if c1 == b'>' then some 5 else none)))
    else (if c0 == b'>'
        then (if c1 == 0 then some 4 else (if c1 == b'=' then some 3 else none))
        else (if c0 == b'=' then (if c1 == 0 then some 2 else none) else none))

-- What the code is given: whether `toDouble` accepts a string, and the sign of
-- `toDouble(v) - toDouble(w)`.
module _ (is_number : Text → Bool) (numeric_order : Text → Text → Ordering) where
  unfoldable pub values_order : SqlKind → Text → Text → Option Ordering
  values_order string v w = some (compare_text v w)
  values_order numeric v w = if is_number v && is_number w then some (numeric_order v w) else none
  values_order binary v w = none
  values_order date_time v w = none
  values_order bit_kind v w = none

  -- `getValuesRelationshipIndex`
  unfoldable pub get_values_relationship_index : Text → Text → SqlKind → Option ℕ
  get_values_relationship_index v w t = do
    order ← values_order t v w
    some (elim order [ Ordering.lt ↦ 2 | Ordering.eq ↦ 1 | Ordering.gt ↦ 0 ])

  -- `getRelation`
  unfoldable pub get_relation : Text → Text → Text → Text → SqlKind → Option ℕ
  get_relation x_op x_value y_op y_value t = do
    x_op_index ← get_operator_index x_op
    y_op_index ← get_operator_index y_op
    xy_vals_index ← get_values_relationship_index x_value y_value t
    row ← get_elem? op_relation_table x_op_index
    entry ← get_elem? row y_op_index
    get_elem? entry xy_vals_index

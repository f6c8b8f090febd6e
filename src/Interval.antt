-- ===== src/Interval.antt =====
-- include/minerule/PredicateUtils/Interval.hpp, src/PredicateUtils/Interval.cpp and
-- InvalidConfigurationFilter.hpp: the intervals of values that a configuration leaves to each
-- attribute, and the filter of configurations that leave none. An infinite limit is told by its
-- address in the code, and is a constructor here. `none` is an exception or a failed assertion.
pub mod Order
pub mod Contents
pub mod Agreement
pub mod Checker
use minerule.Prelude.{
  ℕ, zero, suc, Bool, true, false, not, ◌&&◌, ◌||◌, ◌==◌, if◌then◌else◌, Option, none, some, guard,
  ◌>>=◌, ◌>>◌, List, [], ◌∷◌, ◌++◌, any, get_or, Ordering, ℤ, pos, negsuc,
}
use minerule.VarSet.{VarSet, get_var}
use minerule.Predicate.{Text, ParsedPred, Pool, compare_text, new_simple_predicate, get_var_id}
use minerule.SqlUtils.{SqlKind, numeric, string, binary, date_time, bit_kind, is_attribute}

-- `Interval::Operator`
pub data Operator : Type 0 where
  less less_eq grt grt_eq eq not_eq : Operator

-- The strings `lwr` and `upp`.
pub data Limit : Type 0 where
  neg_infty pos_infty : Limit
  value : Text → Limit

-- `class Interval`; `kind` is `type`, or `none` while `typeOk` is false.
pub record Interval : Type 0 where
  pub lwr : Limit
  pub upp : Limit
  pub lwr_open : Bool
  pub upp_open : Bool
  pub kind : Option SqlKind
  pub open_points : List Text

-- `Interval()`
abbrev pub everything : Interval
everything = record {
  lwr = neg_infty;
  upp = pos_infty;
  lwr_open = true;
  upp_open = true;
  kind = none;
  open_points = [];
}

-- `Interval(op, val, t)`
unfoldable pub of_operator : Operator → Text → SqlKind → Interval
of_operator less val t = record everything { kind = some t; upp = value val }
of_operator less_eq val t = record everything { kind = some t; upp = value val; upp_open = false }
of_operator grt val t = record everything { kind = some t; lwr = value val }
of_operator grt_eq val t = record everything { kind = some t; lwr = value val; lwr_open = false }
of_operator eq val t = record everything {
  kind = some t;
  lwr = value val;
  upp = value val;
  lwr_open = false;
  upp_open = false;
}
of_operator not_eq val t = record everything { kind = some t; open_points = val ∷ [] }

-- `Interval::getOperator`, on a string that ends with a zero.
unfoldable pub get_operator : Text → Bool → Option Operator
get_operator op negate_it =
    let c0 = get_or op 0 0 in
    let c1 = get_or op 1 0 in
    if c0 == 60
    then (if c1 == 0
        then some (if negate_it then grt_eq else less)
        else (if c1 == 62
            then some (if negate_it then eq else not_eq)
            else (if c1 == 61 then some (if negate_it then grt else less_eq) else none)))
    else (if c0 == 62
        then (if c1 == 0
            then some (if negate_it then less_eq else grt)
            else (if c1 == 61 then some (if negate_it then less else grt_eq) else none))
        else (if c0 == 61
            then (if c1 == 0 then some (if negate_it then not_eq else eq) else none)
            else none))

-- The values of a `std::set` of strings ordered by `strcmp`.
unfoldable pub mem_text : Text → List Text → Bool
mem_text s points = any (λ p. elim (compare_text s p) [ Ordering.eq ↦ true | _ ↦ false ]) points

-- The text at the address of a limit.
abbrev pub text_of : Limit → Text
text_of neg_infty = 45 ∷ []
text_of pos_infty = 43 ∷ []
text_of (value s) = s

-- The numbers of the machine: `toDouble` on the strings that it accepts, the difference of two
-- doubles, and the conversion to int, which cuts a fraction off.
pub record Doubles : Type 1 where
  pub Double : Type 0
  pub to_double : Text → Double
  pub minus : Double → Double → Double
  pub to_int : Double → ℤ

-- The order that an int tells.
abbrev pub sign_of : ℤ → Ordering
sign_of (pos zero) = Ordering.eq
sign_of (pos (suc n)) = Ordering.gt
sign_of (negsuc n) = Ordering.lt

-- The sign of `int(toDouble(v) - toDouble(w))`.
unfoldable pub numeric_compare : Doubles → Text → Text → Ordering
numeric_compare d v w = sign_of (d.to_int (d.minus (d.to_double v) (d.to_double w)))

-- What the code is given: whether `toDouble` accepts a string, and the types of the columns in the
-- data base. The numeric comparison `numeric_order` is `numeric_compare` in the code.
module _ (is_number : Text → Bool) (numeric_order : Text → Text → Ordering)
    (type_for_attribute : Text → Option SqlKind) where
  unfoldable pub compare_strings : SqlKind → Text → Text → Option Ordering
  compare_strings string v w = some (compare_text v w)
  compare_strings numeric v w =
      if is_number v && is_number w then some (numeric_order v w) else none
  compare_strings binary v w = none
  compare_strings date_time v w = none
  compare_strings bit_kind v w = none

  -- `Interval::compareValues`
  unfoldable pub compare_values : Option SqlKind → Limit → Limit → Option Ordering
  compare_values none a b = none
  compare_values (some t) neg_infty neg_infty = some Ordering.eq
  compare_values (some t) neg_infty pos_infty = some Ordering.lt
  compare_values (some t) neg_infty (value w) = some Ordering.lt
  compare_values (some t) pos_infty pos_infty = some Ordering.eq
  compare_values (some t) pos_infty neg_infty = some Ordering.gt
  compare_values (some t) pos_infty (value w) = some Ordering.gt
  compare_values (some t) (value v) neg_infty = some Ordering.gt
  compare_values (some t) (value v) pos_infty = some Ordering.lt
  compare_values (some t) (value v) (value w) = compare_strings t v w

  -- `Interval::getMaxLwr` and `Interval::getMinUpp`, called on the interval whose type is `t`.
  unfoldable pub get_max_lwr : Option SqlKind → Interval → Interval → Option (Limit × Bool)
  get_max_lwr t lhs rhs = do
    order ← compare_values t lhs.lwr rhs.lwr
    some (elim order [
      | Ordering.lt ↦ (rhs.lwr, rhs.lwr_open)
      | Ordering.gt ↦ (lhs.lwr, lhs.lwr_open)
      | Ordering.eq ↦ (lhs.lwr, lhs.lwr_open || rhs.lwr_open)
    ])

  unfoldable pub get_min_upp : Option SqlKind → Interval → Interval → Option (Limit × Bool)
  get_min_upp t lhs rhs = do
    order ← compare_values t lhs.upp rhs.upp
    some (elim order [
      | Ordering.lt ↦ (lhs.upp, lhs.upp_open)
      | Ordering.gt ↦ (rhs.upp, rhs.upp_open)
      | Ordering.eq ↦ (lhs.upp, lhs.upp_open || rhs.upp_open)
    ])

  -- `Interval::intersect`
  unfoldable pub intersect : Interval → Interval → Option Interval
  intersect self i = do
    (lwr, lwr_open) ← get_max_lwr self.kind self i
    (upp, upp_open) ← get_min_upp self.kind self i
    some (record self {
      lwr = lwr;
      lwr_open = lwr_open;
      upp = upp;
      upp_open = upp_open;
      open_points = self.open_points ++ i.open_points;
    })

  -- `Interval::isEmpty`
  unfoldable pub is_empty : Interval → Option Bool
  is_empty i = do
    order ← compare_values i.kind i.lwr i.upp
    some (elim order [
      | Ordering.lt ↦ false
      | Ordering.eq ↦ i.lwr_open || i.upp_open || mem_text (text_of i.lwr) i.open_points
      | Ordering.gt ↦ true
    ])

  -- `Interval::getValue` and `Interval::getAttribute`
  unfoldable pub get_value : Text → Text → Option Text
  get_value val1 val2 =
      if not (is_attribute is_number val1)
      then some val1
      else (if not (is_attribute is_number val2) then some val2 else none)

  unfoldable pub get_attribute : Text → Text → Option Text
  get_attribute val1 val2 =
      if is_attribute is_number val1
      then some val1
      else (if is_attribute is_number val2 then some val2 else none)

  -- `Interval::update`, which passes over a comparison of two attributes.
  unfoldable pub update : ParsedPred → Bool → Interval → Option Interval
  update p negate_it self = elim (get_value p.val1 p.val2) [
    | none ↦ some self
    | some v ↦ do
      op ← get_operator p.op negate_it
      t ← self.kind
      intersect self (of_operator op v t)
  ]

  -- `intervals[attr]`, with the interval of everything for a new attribute, and its update.
  unfoldable pub interval_of : Text → List (Text × Interval) → Interval
  interval_of attr [] = everything
  interval_of attr ((a, i) ∷ rest) = elim (compare_text attr a) [
    | Ordering.eq ↦ i
    | _ ↦ interval_of attr rest
  ]

  -- One round of `IntervalChecker::impossibleVariableSetting`, for a predicate with an attribute:
  -- whether its interval becomes empty, the intervals, and the pool.
  unfoldable pub check_predicate :
      VarSet
      → Text
      → ParsedPred
      → List (Text × Interval)
      → Pool
      → Option (Bool × List (Text × Interval) × Pool)
  check_predicate vset attr p intervals pool = do
    t ← type_for_attribute attr
    let (pred, pool1) = new_simple_predicate p pool
    id ← get_var_id pool1 pred
    holds ← get_var vset id
    i ← update p (not holds) (record (interval_of attr intervals) { kind = some t })
    empty ← is_empty i
    some (empty, (attr, i) ∷ intervals, pool1)

  -- `IntervalChecker::impossibleVariableSetting`
  unfoldable pub impossible_variable_setting :
      VarSet → List ParsedPred → List (Text × Interval) → Pool → Option (Bool × Pool)
  impossible_variable_setting vset [] intervals pool = some (false, pool)
  impossible_variable_setting vset (p ∷ l) intervals pool = elim (get_attribute p.val1 p.val2) [
    | none ↦ impossible_variable_setting vset l intervals pool
    | some attr ↦ do
      (empty, intervals1, pool1) ← check_predicate vset attr p intervals pool
      elim empty [
        | true ↦ some (true, pool1)
        | false ↦ impossible_variable_setting vset l intervals1 pool1
      ]
  ]

  -- `InvalidConfigurationFilter::operator()`. The pool is the program's own, and the call leaves it
  -- as it is when the predicates are in it.
  unfoldable pub filter_out : List ParsedPred → Pool → VarSet → Option Bool
  filter_out preds pool vset = do
    (out, pool1) ← impossible_variable_setting vset preds [] pool
    some out

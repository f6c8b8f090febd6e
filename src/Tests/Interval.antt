-- ===== src/Tests/Interval.antt =====
-- The filter of configurations and the quoting of strings on small inputs.
use minerule.Prelude.{◌≡◌, refl, Bool, true, false, Option, some, [], ◌∷◌, arith}
use minerule.VarSet.{VarSet, get_var}
use minerule.Predicate.{
  Text, ParsedPred, Pool, compare_text, find, new_simple_predicate, get_var_id, simple,
}
use minerule.SqlUtils.{SqlKind, string, is_attribute, quote}
use minerule.SqlUtils.Quote.{unquote, unquote-quote}
use minerule.Interval.{
  Operator, get_operator, filter_out, impossible_variable_setting, check_predicate, get_attribute,
  get_value, update, interval_of, intersect, get_max_lwr, get_min_upp, compare_values,
  compare_strings, is_empty, of_operator, mem_text,
}
use minerule.Interval.Contents.{
  contains, satisfies, negated, contains-of_operator, get_operator-negated,
}
use minerule.Interval.Order.{compare_text-IsOrder}

-- No string is a number, and every column holds strings.
abbrev no_number : Text → Bool
no_number s = false

abbrev strings : Text → Option SqlKind
strings attr = some string

-- `a=1` and `a>=2`
abbrev is_1 : ParsedPred
is_1 = record { val1 = b'a' ∷ []; op = b'=' ∷ []; val2 = b'1' ∷ [] }

abbrev from_2 : ParsedPred
from_2 = record { val1 = b'a' ∷ []; op = b'>' ∷ b'=' ∷ []; val2 = b'2' ∷ [] }

abbrev pool : Pool
pool =
    record { val1 = b'a' ∷ []; val2 = b'1' ∷ []; op = b'=' ∷ []; var_id = 0 }
    ∷ record { val1 = b'a' ∷ []; val2 = b'2' ∷ []; op = b'>' ∷ b'=' ∷ []; var_id = 1 }
    ∷ []

abbrev both_true : VarSet
both_true = record { vset = 3; vset_size = 2 }

-- Both cannot hold.
dropped : filter_out no_number compare_text strings (is_1 ∷ from_2 ∷ []) pool both_true ≡ some true
unfolding filter_out impossible_variable_setting check_predicate get_attribute get_value update
    interval_of intersect get_max_lwr get_min_upp compare_values compare_strings is_empty
    of_operator mem_text new_simple_predicate simple get_var_id get_var get_operator is_attribute
    find compare_text
dropped = refl

-- `5<a` and `a=9` hold together, and are dropped: the operator of the first is not turned round.
abbrev five_less : ParsedPred
five_less = record { val1 = b'5' ∷ []; op = b'<' ∷ []; val2 = b'a' ∷ [] }

abbrev is_9 : ParsedPred
is_9 = record { val1 = b'a' ∷ []; op = b'=' ∷ []; val2 = b'9' ∷ [] }

abbrev reversed_pool : Pool
reversed_pool =
    record { val1 = b'5' ∷ []; val2 = b'a' ∷ []; op = b'<' ∷ []; var_id = 0 }
    ∷ record { val1 = b'a' ∷ []; val2 = b'9' ∷ []; op = b'=' ∷ []; var_id = 1 }
    ∷ []

reversed_dropped :
    filter_out no_number compare_text strings (five_less ∷ is_9 ∷ []) reversed_pool both_true
    ≡ some true
unfolding filter_out impossible_variable_setting check_predicate get_attribute get_value update
    interval_of intersect get_max_lwr get_min_upp compare_values compare_strings is_empty
    of_operator mem_text new_simple_predicate simple get_var_id get_var get_operator is_attribute
    find compare_text
reversed_dropped = refl

-- `it's`
abbrev its : Text
its = b'i' ∷ b't' ∷ 39 ∷ b's' ∷ []

unquote-quote_example : (t : Text) × (quote 6 its ≡ some (39 ∷ t)) × (unquote t ≡ its)
unquote-quote_example = unquote-quote 6 its (omega arith)

contains-of_operator_example :
    contains compare_text (of_operator Operator.grt (b'5' ∷ []) string) (b'9' ∷ [])
    ≡ satisfies compare_text Operator.grt (b'9' ∷ []) (b'5' ∷ [])
contains-of_operator_example =
    contains-of_operator compare_text Operator.grt (b'5' ∷ []) (b'9' ∷ []) string
      compare_text-IsOrder

at_most : get_operator (b'<' ∷ b'=' ∷ []) false ≡ some Operator.less_eq
unfolding get_operator
at_most = refl

get_operator-negated_example :
    get_operator (b'<' ∷ b'=' ∷ []) true ≡ some (negated Operator.less_eq)
get_operator-negated_example = get_operator-negated (b'<' ∷ b'=' ∷ []) Operator.less_eq at_most

-- ===== src/Tests/NumericFilter.antt =====
-- The filter of configurations on numbers with one digit before the point and one after it.
use minerule.Prelude.{
  ℕ, ◌+◌, ◌-◌, ◌*◌, ◌/◌, ◌≡◌, refl, Ordering, Bool, true, false, ◌&&◌, ltb, leb, ◌==◌,
  if◌then◌else◌, Option, some, [], ◌∷◌, List, inl, inr, arith, ℤ, pos, negsuc, get_or, ◌⊎◌, ◌∙◌,
  sym, ap,
}
use minerule.VarSet.{VarSet, get_var}
use minerule.Predicate.{
  Text, ParsedPred, Pool, compare_text, find, new_simple_predicate, get_var_id, simple, insert,
}
use minerule.SqlUtils.{SqlKind, numeric, is_attribute}
use minerule.Interval.{
  Operator, Doubles, numeric_compare, get_operator, filter_out, impossible_variable_setting,
  check_predicate, get_attribute, get_value, update, interval_of, intersect, get_max_lwr,
  get_min_upp, compare_values, compare_strings, is_empty, of_operator, mem_text,
}
use minerule.Interval.Order.{IsOrder}
use minerule.Interval.Agreement.{Constant, AgreeOn}
use minerule.Interval.Checker.{AllAgree, filter_out-possible}

-- A text that begins with a digit is a number, and `1.5` is 15 tenths.
abbrev digit_first : Text → Bool
digit_first s = leb 48 (get_or s 0 0) && leb (get_or s 0 0) 57

abbrev tenths_of : Text → ℕ
tenths_of s = 10 * (get_or s 0 48 - 48) + (get_or s 2 48 - 48)

-- A difference of tenths, and the conversion that cuts the tenths off.
abbrev cut : ℕ × ℕ → ℤ
cut (a, b) =
    if leb b a
    then pos ((a - b) / 10)
    else (if (b - a) / 10 == 0 then pos 0 else negsuc ((b - a) / 10 - 1))

abbrev tenths : Doubles
tenths = record {
  Double = ℕ × ℕ;
  to_double = λ s. (tenths_of s, 0);
  minus = λ x y. (x.0 + y.1, x.1 + y.0);
  to_int = cut;
}

-- The order of the numbers, tenths included.
abbrev by_tenths : Text → Text → Ordering
by_tenths v w =
    if ltb (tenths_of v) (tenths_of w)
    then Ordering.lt
    else (if ltb (tenths_of w) (tenths_of v) then Ordering.gt else Ordering.eq)

by_tenths-IsOrder : IsOrder by_tenths
by_tenths-IsOrder = record {
  swap = λ a b. ground arith;
  same = λ a b c e. ground arith;
  trans = λ a b c h k. ground arith;
}

abbrev numbers : Text → Option SqlKind
numbers attr = some numeric

-- `a>1` and `a<2`
abbrev above_1 : ParsedPred
above_1 = record { val1 = b'a' ∷ []; op = b'>' ∷ []; val2 = b'1' ∷ [] }

abbrev below_2 : ParsedPred
below_2 = record { val1 = b'a' ∷ []; op = b'<' ∷ []; val2 = b'2' ∷ [] }

abbrev pool : Pool
pool =
    record { val1 = b'a' ∷ []; val2 = b'2' ∷ []; op = b'<' ∷ []; var_id = 1 }
    ∷ record { val1 = b'a' ∷ []; val2 = b'1' ∷ []; op = b'>' ∷ []; var_id = 0 }
    ∷ []

abbrev both_true : VarSet
both_true = record { vset = 3; vset_size = 2 }

-- The value `1.5` for every attribute.
abbrev one_and_half : Text → Text
one_and_half attr = b'1' ∷ b'.' ∷ b'5' ∷ []

agree : AllAgree digit_first by_tenths numbers both_true pool one_and_half (above_1 ∷ below_2 ∷ [])
unfolding new_simple_predicate simple get_var_id get_var get_operator is_attribute find compare_text
    insert
agree = (
  inl (
    refl,
    refl,
    record {
      kind = numeric;
      typed = refl;
      id = 0;
      truth = true;
      in_pool = refl;
      found = refl;
      reads = refl;
      operator = Operator.grt;
      known = refl;
      comparable = refl;
      same_truth = refl;
    },
  ),
  (
    inl (
      refl,
      refl,
      record {
        kind = numeric;
        typed = refl;
        id = 1;
        truth = true;
        in_pool = refl;
        found = refl;
        reads = refl;
        operator = Operator.less;
        known = refl;
        comparable = refl;
        same_truth = refl;
      },
    ),
    tt,
  ),
)

-- The numbers among the constants are whole.
one_or_two :
    (v : Text)
    → Constant v (above_1 ∷ below_2 ∷ [])
    → digit_first v ≡ true
    → (v ≡ b'1' ∷ []) ⊎ (v ≡ b'2' ∷ [])
one_or_two v (inl (inl e)) m = cc (sym (ap digit_first e) ∙ m)
one_or_two v (inl (inr e)) m = inl e
one_or_two v (inr (inl (inl e))) m = cc (sym (ap digit_first e) ∙ m)
one_or_two v (inr (inl (inr e))) m = inr e
one_or_two v (inr (inr h)) m = elim h [ ]

by_tenths_whole :
    (v w : Text)
    → (v ≡ b'1' ∷ []) ⊎ (v ≡ b'2' ∷ [])
    → (w ≡ b'1' ∷ []) ⊎ (w ≡ b'2' ∷ [])
    → numeric_compare tenths v w ≡ by_tenths v w
unfolding numeric_compare
by_tenths_whole v w (inl e) (inl k) = rw (e, k) refl
by_tenths_whole v w (inl e) (inr k) = rw (e, k) refl
by_tenths_whole v w (inr e) (inl k) = rw (e, k) refl
by_tenths_whole v w (inr e) (inr k) = rw (e, k) refl

whole_constants :
    AgreeOn
      (λ v. Constant v (above_1 ∷ below_2 ∷ []))
      digit_first
      (numeric_compare tenths)
      by_tenths
whole_constants v w h k m n = by_tenths_whole v w (one_or_two v h m) (one_or_two w k n)

filter_out-possible_example :
    filter_out digit_first (numeric_compare tenths) numbers (above_1 ∷ below_2 ∷ []) pool both_true
    ≡ some false
filter_out-possible_example =
    filter_out-possible digit_first tenths numbers by_tenths both_true pool one_and_half
      (above_1 ∷ below_2 ∷ []) by_tenths-IsOrder whole_constants agree

-- `a>0.2` and `a<0.7` hold together for `0.5`, and are dropped: the two constants compare as equal.
abbrev fractions : List ParsedPred
fractions =
    record { val1 = b'a' ∷ []; op = b'>' ∷ []; val2 = b'0' ∷ b'.' ∷ b'2' ∷ [] }
    ∷ record { val1 = b'a' ∷ []; op = b'<' ∷ []; val2 = b'0' ∷ b'.' ∷ b'7' ∷ [] }
    ∷ []

abbrev fraction_pool : Pool
fraction_pool =
    record { val1 = b'a' ∷ []; val2 = b'0' ∷ b'.' ∷ b'7' ∷ []; op = b'<' ∷ []; var_id = 1 }
    ∷ record { val1 = b'a' ∷ []; val2 = b'0' ∷ b'.' ∷ b'2' ∷ []; op = b'>' ∷ []; var_id = 0 }
    ∷ []

fractions_dropped :
    filter_out digit_first (numeric_compare tenths) numbers fractions fraction_pool both_true
    ≡ some true
unfolding numeric_compare filter_out impossible_variable_setting check_predicate get_attribute
    get_value update interval_of intersect get_max_lwr get_min_upp compare_values compare_strings
    is_empty of_operator mem_text new_simple_predicate simple get_var_id get_var get_operator
    is_attribute find compare_text insert
fractions_dropped = refl

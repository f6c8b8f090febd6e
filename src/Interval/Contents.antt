-- ===== src/Interval/Contents.antt =====
-- The values that an interval contains, through the operations on intervals.
use Prim.Native.Nat.Ordering.{lt, eq, gt}
use minerule.Prelude.{
  ◌≡◌, refl, Ordering, arith, Bool, true, false, not, ◌&&◌, ◌||◌, some, Option, List, [], ◌∷◌, ◌++◌,
  all, ◌⊎◌, inl, inr, ◌∙◌, ap, sym,
}
use minerule.Predicate.{Text, compare_text}
use minerule.Predicate.Pool.{eq_of_compare_text}
use minerule.Predicate.Meaning.{all-append}
use minerule.SqlUtils.{SqlKind, numeric, string, binary, date_time, bit_kind}
use minerule.Interval.{
  Operator, less, less_eq, grt, grt_eq, not_eq, Limit, neg_infty, pos_infty, value, Interval,
  of_operator, get_operator, mem_text, text_of, compare_strings, compare_values, get_max_lwr,
  get_min_upp, intersect, is_empty,
}
use minerule.Interval.Order.{IsOrder, kind_order, Comparable}

-- `x op v`
abbrev pub satisfies : (Text → Text → Ordering) → Operator → Text → Text → Bool
satisfies cmp less x v = elim (cmp x v) [ lt ↦ true | _ ↦ false ]
satisfies cmp less_eq x v = elim (cmp x v) [ gt ↦ false | _ ↦ true ]
satisfies cmp grt x v = elim (cmp x v) [ gt ↦ true | _ ↦ false ]
satisfies cmp grt_eq x v = elim (cmp x v) [ lt ↦ false | _ ↦ true ]
satisfies cmp Operator.eq x v = elim (cmp x v) [ eq ↦ true | _ ↦ false ]
satisfies cmp not_eq x v = elim (cmp x v) [ eq ↦ false | _ ↦ true ]

abbrev pub above : (Text → Text → Ordering) → Limit → Bool → Text → Bool
above cmp neg_infty is_open x = true
above cmp pos_infty is_open x = false
above cmp (value v) is_open x = elim (cmp v x) [ lt ↦ true | eq ↦ not is_open | gt ↦ false ]

abbrev pub below : (Text → Text → Ordering) → Limit → Bool → Text → Bool
below cmp neg_infty is_open x = false
below cmp pos_infty is_open x = true
below cmp (value v) is_open x = elim (cmp x v) [ lt ↦ true | eq ↦ not is_open | gt ↦ false ]

abbrev pub differs_from : (Text → Text → Ordering) → Text → Text → Bool
differs_from cmp x p = elim (cmp x p) [ eq ↦ false | _ ↦ true ]

abbrev pub contains : (Text → Text → Ordering) → Interval → Text → Bool
contains cmp i x =
    above cmp i.lwr i.lwr_open x
    && below cmp i.upp i.upp_open x
    && all (differs_from cmp x) i.open_points

-- Where the comparison is an order, the interval built from an operator and a value contains
-- exactly the values that satisfy the comparison, for each of the six operators.
pub contains-of_operator :
    (cmp : Text → Text → Ordering) (op : Operator) (v x : Text) (t : SqlKind)
    → IsOrder cmp
    → contains cmp (of_operator op v t) x ≡ satisfies cmp op x v
unfolding of_operator
contains-of_operator cmp less v x t h = ground (arith, h.swap v x)
contains-of_operator cmp less_eq v x t h = ground (arith, h.swap v x)
contains-of_operator cmp grt v x t h = ground (arith, h.swap v x)
contains-of_operator cmp grt_eq v x t h = ground (arith, h.swap v x)
contains-of_operator cmp Operator.eq v x t h = ground (arith, h.swap v x)
contains-of_operator cmp not_eq v x t h = ground (arith, h.swap v x)

abbrev pub negated : Operator → Operator
negated less = grt_eq
negated less_eq = grt
negated grt = less_eq
negated grt_eq = less
negated Operator.eq = not_eq
negated not_eq = Operator.eq

-- On a string that getOperator knows, the negated call returns the opposite operator.
pub get_operator-negated :
    (op : Text) (o : Operator)
    → get_operator op false ≡ some o
    → get_operator op true ≡ some (negated o)
unfolding get_operator
get_operator-negated op o h = ground arith

pub satisfies-negated :
    (cmp : Text → Text → Ordering) (o : Operator) (x v : Text)
    → satisfies cmp (negated o) x v ≡ not (satisfies cmp o x v)
satisfies-negated cmp less x v = ground arith
satisfies-negated cmp less_eq x v = ground arith
satisfies-negated cmp grt x v = ground arith
satisfies-negated cmp grt_eq x v = ground arith
satisfies-negated cmp Operator.eq x v = ground arith
satisfies-negated cmp not_eq x v = ground arith

module _ (is_number : Text → Bool) (numeric_order : Text → Text → Ordering)
    (type_for_attribute : Text → Option SqlKind) where
  compare_strings-Comparable :
      (t : SqlKind) (v w : Text)
      → Comparable is_number t v
      → Comparable is_number t w
      → compare_strings is_number numeric_order type_for_attribute t v w
        ≡ some (kind_order numeric_order t v w)
  unfolding compare_strings
  compare_strings-Comparable string v w h k = refl
  compare_strings-Comparable numeric v w h k = rw (h, k) refl
  compare_strings-Comparable binary v w h k = elim h [ ]
  compare_strings-Comparable date_time v w h k = elim h [ ]
  compare_strings-Comparable bit_kind v w h k = elim h [ ]

abbrev pub ComparableLimit : (Text → Bool) → SqlKind → Limit → Type 0
ComparableLimit is_number t neg_infty = Unit {0}
ComparableLimit is_number t pos_infty = Unit {0}
ComparableLimit is_number t (value v) = Comparable is_number t v

abbrev limit_order : (Text → Text → Ordering) → Limit → Limit → Ordering
limit_order cmp neg_infty neg_infty = eq
limit_order cmp neg_infty pos_infty = lt
limit_order cmp neg_infty (value w) = lt
limit_order cmp pos_infty neg_infty = gt
limit_order cmp pos_infty pos_infty = eq
limit_order cmp pos_infty (value w) = gt
limit_order cmp (value v) neg_infty = gt
limit_order cmp (value v) pos_infty = lt
limit_order cmp (value v) (value w) = cmp v w

module _ (cmp : Text → Text → Ordering) (ordered : IsOrder cmp) (x : Text) where
  above-both :
      (a b : Limit) (ao bo : Bool)
      → above cmp a ao x ≡ true
      → above cmp b bo x ≡ true
      → limit_order cmp a b ≡ eq
      → above cmp a (ao || bo) x ≡ true
  above-both neg_infty b ao bo h k e = refl
  above-both pos_infty b ao bo h k e = h
  above-both (value v) neg_infty ao bo h k e = absurd (ground arith)
  above-both (value v) pos_infty ao bo h k e = absurd (ground arith)
  above-both (value v) (value w) ao bo h k e = ground (arith, ordered.same v w x)

  below-both :
      (a b : Limit) (ao bo : Bool)
      → below cmp a ao x ≡ true
      → below cmp b bo x ≡ true
      → limit_order cmp a b ≡ eq
      → below cmp a (ao || bo) x ≡ true
  below-both neg_infty b ao bo h k e = h
  below-both pos_infty b ao bo h k e = refl
  below-both (value v) neg_infty ao bo h k e = absurd (ground arith)
  below-both (value v) pos_infty ao bo h k e = absurd (ground arith)
  below-both (value v) (value w) ao bo h k e =
      ground (arith, ordered.same v w x, ordered.swap v x, ordered.swap w x)

  between_values :
      (v w : Text) (ao bo : Bool)
      → above cmp (value v) ao x ≡ true
      → below cmp (value w) bo x ≡ true
      → (cmp v w ≡ lt) ⊎ ((cmp v w ≡ eq) × (ao ≡ false) × (bo ≡ false) × (cmp x v ≡ eq))
  between_values v w ao bo h k = ground (
    arith,
    ordered.trans v x w,
    ordered.same v x w,
    ordered.same x w v,
    ordered.swap v x,
    ordered.swap w v,
    ordered.swap x w,
    ordered.swap v w,
  )

  -- A value between two limits puts the lower one below the upper one, or both on itself.
  between :
      (a b : Limit) (ao bo : Bool)
      → above cmp a ao x ≡ true
      → below cmp b bo x ≡ true
      → (limit_order cmp a b ≡ lt)
        ⊎ ((limit_order cmp a b ≡ eq)
            × (ao ≡ false)
            × (bo ≡ false)
            × ((v : Text) × (a ≡ value v) × (cmp x v ≡ eq)))
  between neg_infty neg_infty ao bo h k = absurd (ground arith)
  between neg_infty pos_infty ao bo h k = inl refl
  between neg_infty (value w) ao bo h k = inl refl
  between pos_infty b ao bo h k = absurd (ground arith)
  between (value v) neg_infty ao bo h k = absurd (ground arith)
  between (value v) pos_infty ao bo h k = inl refl
  between (value v) (value w) ao bo h k = elim (between_values v w ao bo h k) [
    | inl less_than ↦ inl less_than
    | inr (same, closed, closed', on) ↦ inr (same, closed, closed', (v, refl, on))
  ]

module _ (is_number : Text → Bool) (numeric_order : Text → Text → Ordering)
    (type_for_attribute : Text → Option SqlKind) (t : SqlKind) where
  compare_values-Comparable :
      (a b : Limit)
      → ComparableLimit is_number t a
      → ComparableLimit is_number t b
      → compare_values is_number numeric_order type_for_attribute (some t) a b
        ≡ some (limit_order (kind_order numeric_order t) a b)
  unfolding compare_values
  compare_values-Comparable neg_infty neg_infty h k = refl
  compare_values-Comparable neg_infty pos_infty h k = refl
  compare_values-Comparable neg_infty (value w) h k = refl
  compare_values-Comparable pos_infty neg_infty h k = refl
  compare_values-Comparable pos_infty pos_infty h k = refl
  compare_values-Comparable pos_infty (value w) h k = refl
  compare_values-Comparable (value v) neg_infty h k = refl
  compare_values-Comparable (value v) pos_infty h k = refl
  compare_values-Comparable (value v) (value w) h k =
      compare_strings-Comparable is_number numeric_order type_for_attribute t v w h k

  -- The interval is of type `t`, its limits can be compared, and it contains `x`.
  pub record Allows (x : Text) (i : Interval) : Type 0 where
    pub kind : i.kind ≡ some t
    pub lower : ComparableLimit is_number t i.lwr
    pub upper : ComparableLimit is_number t i.upp
    pub over : above (kind_order numeric_order t) i.lwr i.lwr_open x ≡ true
    pub under : below (kind_order numeric_order t) i.upp i.upp_open x ≡ true
    pub points : all (differs_from (kind_order numeric_order t) x) i.open_points ≡ true

  three : (a b c : Bool) → a && b && c ≡ true → (a ≡ true) × (b ≡ true) × (c ≡ true)
  three a b c h = ground arith

  pub Allows-contains :
      (x : Text) (i : Interval)
      → i.kind ≡ some t
      → ComparableLimit is_number t i.lwr
      → ComparableLimit is_number t i.upp
      → contains (kind_order numeric_order t) i x ≡ true
      → Allows x i
  Allows-contains x i h l u c =
      let (over, under, points) =
        three (above (kind_order numeric_order t) i.lwr i.lwr_open x)
          (below (kind_order numeric_order t) i.upp i.upp_open x)
          (all (differs_from (kind_order numeric_order t) x) i.open_points) c in
      record { kind = h; lower = l; upper = u; over = over; under = under; points = points }

  module _ (ordered : IsOrder (kind_order numeric_order t)) (x : Text) where
    get_max_lwr-above :
        (i j : Interval)
        → Allows x i
        → Allows x j
        → (l : Limit) × (o : Bool) × (get_max_lwr is_number numeric_order type_for_attribute
              (some t)
              i
              j
            ≡ some (l, o))
          × ComparableLimit is_number t l
          × (above (kind_order numeric_order t) l o x ≡ true)
    unfolding get_max_lwr
    get_max_lwr-above i j h k =
        let compared = compare_values-Comparable i.lwr j.lwr h.lower k.lower in
        pick (limit_order (kind_order numeric_order t) i.lwr j.lwr) refl compared h.over k.over
      where
        pick :
            (o : Ordering)
            → limit_order (kind_order numeric_order t) i.lwr j.lwr ≡ o
            → compare_values is_number numeric_order type_for_attribute (some t) i.lwr j.lwr
              ≡ some o
            → above (kind_order numeric_order t) i.lwr i.lwr_open x ≡ true
            → above (kind_order numeric_order t) j.lwr j.lwr_open x ≡ true
            → (l : Limit) × (o : Bool) × (get_max_lwr is_number numeric_order type_for_attribute
                  (some t)
                  i
                  j
                ≡ some (l, o))
              × ComparableLimit is_number t l
              × (above (kind_order numeric_order t) l o x ≡ true)
        pick lt e c ai aj = (j.lwr, j.lwr_open, rw c refl, k.lower, aj)
        pick gt e c ai aj = (i.lwr, i.lwr_open, rw c refl, h.lower, ai)
        pick eq e c ai aj = (
          i.lwr,
          i.lwr_open || j.lwr_open,
          rw c refl,
          h.lower,
          above-both (kind_order numeric_order t) ordered x i.lwr j.lwr i.lwr_open j.lwr_open ai aj
              e,
        )

    get_min_upp-below :
        (i j : Interval)
        → Allows x i
        → Allows x j
        → (l : Limit) × (o : Bool) × (get_min_upp is_number numeric_order type_for_attribute
              (some t)
              i
              j
            ≡ some (l, o))
          × ComparableLimit is_number t l
          × (below (kind_order numeric_order t) l o x ≡ true)
    unfolding get_min_upp
    get_min_upp-below i j h k =
        let compared = compare_values-Comparable i.upp j.upp h.upper k.upper in
        pick (limit_order (kind_order numeric_order t) i.upp j.upp) refl compared h.under k.under
      where
        pick :
            (o : Ordering)
            → limit_order (kind_order numeric_order t) i.upp j.upp ≡ o
            → compare_values is_number numeric_order type_for_attribute (some t) i.upp j.upp
              ≡ some o
            → below (kind_order numeric_order t) i.upp i.upp_open x ≡ true
            → below (kind_order numeric_order t) j.upp j.upp_open x ≡ true
            → (l : Limit) × (o : Bool) × (get_min_upp is_number numeric_order type_for_attribute
                  (some t)
                  i
                  j
                ≡ some (l, o))
              × ComparableLimit is_number t l
              × (below (kind_order numeric_order t) l o x ≡ true)
        pick lt e c bi bj = (i.upp, i.upp_open, rw c refl, h.upper, bi)
        pick gt e c bi bj = (j.upp, j.upp_open, rw c refl, k.upper, bj)
        pick eq e c bi bj = (
          i.upp,
          i.upp_open || j.upp_open,
          rw c refl,
          h.upper,
          below-both (kind_order numeric_order t) ordered x i.upp j.upp i.upp_open j.upp_open bi bj
              e,
        )

    pub intersect-Allows :
        (i j : Interval)
        → Allows x i
        → Allows x j
        → (r : Interval) × (intersect is_number numeric_order type_for_attribute i j ≡ some r)
          × Allows x r
    unfolding intersect
    intersect-Allows i j h k =
        let (l, lo, el, cl, al) = get_max_lwr-above i j h k in
        let (u, uo, eu, cu, bu) = get_min_upp-below i j h k in
        let lower : get_max_lwr is_number numeric_order type_for_attribute i.kind i j
            ≡ some (l, lo) =
          ap (λ q. get_max_lwr is_number numeric_order type_for_attribute q i j) h.kind ∙ el in
        let upper : get_min_upp is_number numeric_order type_for_attribute i.kind i j
            ≡ some (u, uo) =
          ap (λ q. get_min_upp is_number numeric_order type_for_attribute q i j) h.kind ∙ eu in
        (
          record i {
            lwr = l;
            lwr_open = lo;
            upp = u;
            upp_open = uo;
            open_points = i.open_points ++ j.open_points;
          },
          rw (lower, upper) refl,
          record {
            kind = h.kind;
            lower = cl;
            upper = cu;
            over = al;
            under = bu;
            points =
                let joined =
                  all-append (differs_from (kind_order numeric_order t) x) i.open_points
                    j.open_points in
                rw (h.points, k.points) at joined;
          },
        )

    not_open_point :
        (v : Text) (points : List Text)
        → all (differs_from (kind_order numeric_order t) x) points ≡ true
        → kind_order numeric_order t x v ≡ eq
        → mem_text v points ≡ false
    unfolding mem_text
    not_open_point v [] h e = refl
    not_open_point v (p ∷ points) h e =
        let (here, rest) =
          two (differs_from (kind_order numeric_order t) x p)
            (all (differs_from (kind_order numeric_order t) x) points) h in
        none_of (mem_text v points) (λ k. rw (sym (eq_of_compare_text v p k)) at here)
          (not_open_point v points rest e)
      where
        two : (a b : Bool) → a && b ≡ true → (a ≡ true) × (b ≡ true)
        two a b h = ground arith

        none_of :
            (later : Bool)
            → (compare_text v p ≡ eq → differs_from (kind_order numeric_order t) x v ≡ true)
            → later ≡ false
            → (elim (compare_text v p) as (λ _. Bool) [ eq ↦ true | _ ↦ false ]) || later ≡ false
        none_of later k l = ground (arith, e)

    pub is_empty-Allows :
        (i : Interval)
        → Allows x i
        → is_empty is_number numeric_order type_for_attribute i ≡ some false
    unfolding is_empty
    is_empty-Allows i h =
        let compared : compare_values is_number numeric_order type_for_attribute i.kind i.lwr i.upp
            ≡ some (limit_order (kind_order numeric_order t) i.lwr i.upp) =
          ap (λ q. compare_values is_number numeric_order type_for_attribute q i.lwr i.upp) h.kind
          ∙ compare_values-Comparable i.lwr i.upp h.lower h.upper in
        elim (between (kind_order numeric_order t) ordered x i.lwr i.upp i.lwr_open i.upp_open
          h.over h.under) [
            | inl before ↦ rw (compared, before) refl
            | inr (same, closed, closed', (v, at_v, on)) ↦
                let free = not_open_point v i.open_points h.points on in
                rw (compared, same)
                  (ap some (
                    last closed closed' (ap (λ l. mem_text (text_of l) i.open_points) at_v ∙ free)))
          ]
      where
        last : {a b c : Bool} → a ≡ false → b ≡ false → c ≡ false → a || b || c ≡ false
        last h k l = ground arith

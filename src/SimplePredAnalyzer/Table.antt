-- ===== src/SimplePredAnalyzer/Table.antt =====
-- What the characters of the table mean, for every value of the attribute.
use Prim.Native.Nat.Ordering.{lt, eq, gt}
use minerule.Prelude.{
  ℕ, ◌≡◌, refl, Bool, true, false, not, ◌&&◌, ◌||◌, ◌==◌, if◌then◌else◌, Option, some, ◌>>=◌,
  Ordering, arith, ◌⊎◌, ◌∙◌, get_elem?, ap,
}
use minerule.Predicate.{Text}
use minerule.SqlUtils.{SqlKind, numeric, string, binary, date_time, bit_kind}
use minerule.Interval.{Operator, less, less_eq, grt, grt_eq, not_eq}
use minerule.Interval.Order.{IsOrder, swapped, kind_order, kind_order-IsOrder, Comparable}
use minerule.Interval.Contents.{satisfies}
use minerule.SimplePredAnalyzer.{
  op_relation_table, get_operator_index, values_order, get_values_relationship_index, get_relation,
}

abbrev pub index_of : Operator → ℕ
index_of less = 0
index_of less_eq = 1
index_of Operator.eq = 2
index_of grt_eq = 3
index_of grt = 4
index_of not_eq = 5

abbrev order_index : Ordering → ℕ
order_index lt = 2
order_index eq = 1
order_index gt = 0

-- The left comparison is `p`, the right one `q`, and `same` tells that the attribute has the value
-- of the left one: `b` both or none, `l` the left whenever the right, `r` the right whenever the left,
-- `!` never both, `=` both on that value only. The other characters mean an overlap.
abbrev pub means : ℕ → Bool → Bool → Bool → Bool
means c p q same =
    if c == b'b'
    then (p && q || not p && not q)
    else (if c == b'l'
        then (not q || p)
        else (if c == b'r'
            then (not p || q)
            else (if c == b'!'
                then not (p && q)
                else (if c == b'=' then (not (p && q) || same) else true))))

abbrev pub is_same : Ordering → Bool
is_same lt = false
is_same eq = true
is_same gt = false

entry_of : Operator → Operator → Ordering → Option ℕ
unfolding op_relation_table
entry_of x_op y_op o = do
  row ← get_elem? op_relation_table (index_of x_op)
  entry ← get_elem? row (index_of y_op)
  get_elem? entry (order_index o)

-- The entry is in the table, and means what it should.
abbrev Right : Option ℕ → Bool → Bool → Bool → Type 0
Right entry p q same = (c : ℕ) × (entry ≡ some c) × (means c p q same ≡ true)

module _ (cmp : Text → Text → Ordering) (ordered : IsOrder cmp) (a x y : Text) where
  -- How the attribute stands to the two values, for each order of these.
  placed_lt : cmp x y ≡ lt → (cmp a y ≡ lt) ⊎ (cmp a x ≡ gt)
  placed_lt e =
      ground (arith, ordered.trans a x y, ordered.same a x y, ordered.swap x a, ordered.swap a x)

  placed_gt : cmp x y ≡ gt → (cmp a x ≡ lt) ⊎ (cmp a y ≡ gt)
  placed_gt e = ground (
    arith,
    ordered.trans a y x,
    ordered.same a y x,
    ordered.swap y a,
    ordered.swap a y,
    ordered.swap x y,
  )

  placed_eq : cmp x y ≡ eq → cmp a x ≡ cmp a y
  placed_eq e = ground (arith, ordered.same x y a, ordered.swap x a, ordered.swap y a)

  placed_both_lt : cmp x y ≡ lt → cmp a x ≡ lt → cmp a y ≡ lt
  placed_both_lt e h = ordered.trans a x y h e

  placed_both_gt : cmp x y ≡ gt → cmp a y ≡ lt → cmp a x ≡ lt
  placed_both_gt e h = ordered.trans a y x h (ordered.swap x y ∙ ap swapped e)

  placed_at_lt : cmp x y ≡ lt → cmp a x ≡ eq → cmp a y ≡ lt
  placed_at_lt e h = ordered.same a x y h ∙ e

  placed_at_gt : cmp x y ≡ gt → cmp a y ≡ eq → cmp a x ≡ lt
  placed_at_gt e h = ordered.same a y x h ∙ ordered.swap x y ∙ ap swapped e

  entry_of-Right :
      (x_op y_op : Operator) (o : Ordering)
      → cmp x y ≡ o
      → Right
          (entry_of x_op y_op o)
          (satisfies cmp x_op a x)
          (satisfies cmp y_op a y)
          (is_same (cmp a x))
  unfolding entry_of op_relation_table
  entry_of-Right less less lt e =
      (_, refl, ground (arith, placed_lt e, placed_both_lt e, placed_at_lt e))
  entry_of-Right less less eq e = (_, refl, ground (arith, placed_eq e))
  entry_of-Right less less gt e =
      (_, refl, ground (arith, placed_gt e, placed_both_gt e, placed_at_gt e))
  entry_of-Right less less_eq lt e =
      (_, refl, ground (arith, placed_lt e, placed_both_lt e, placed_at_lt e))
  entry_of-Right less less_eq eq e = (_, refl, ground (arith, placed_eq e))
  entry_of-Right less less_eq gt e =
      (_, refl, ground (arith, placed_gt e, placed_both_gt e, placed_at_gt e))
  entry_of-Right less Operator.eq lt e =
      (_, refl, ground (arith, placed_lt e, placed_both_lt e, placed_at_lt e))
  entry_of-Right less Operator.eq eq e = (_, refl, ground (arith, placed_eq e))
  entry_of-Right less Operator.eq gt e =
      (_, refl, ground (arith, placed_gt e, placed_both_gt e, placed_at_gt e))
  entry_of-Right less grt_eq lt e =
      (_, refl, ground (arith, placed_lt e, placed_both_lt e, placed_at_lt e))
  entry_of-Right less grt_eq eq e = (_, refl, ground (arith, placed_eq e))
  entry_of-Right less grt_eq gt e =
      (_, refl, ground (arith, placed_gt e, placed_both_gt e, placed_at_gt e))
  entry_of-Right less grt lt e =
      (_, refl, ground (arith, placed_lt e, placed_both_lt e, placed_at_lt e))
  entry_of-Right less grt eq e = (_, refl, ground (arith, placed_eq e))
  entry_of-Right less grt gt e =
      (_, refl, ground (arith, placed_gt e, placed_both_gt e, placed_at_gt e))
  entry_of-Right less not_eq lt e =
      (_, refl, ground (arith, placed_lt e, placed_both_lt e, placed_at_lt e))
  entry_of-Right less not_eq eq e = (_, refl, ground (arith, placed_eq e))
  entry_of-Right less not_eq gt e =
      (_, refl, ground (arith, placed_gt e, placed_both_gt e, placed_at_gt e))
  entry_of-Right less_eq less lt e =
      (_, refl, ground (arith, placed_lt e, placed_both_lt e, placed_at_lt e))
  entry_of-Right less_eq less eq e = (_, refl, ground (arith, placed_eq e))
  entry_of-Right less_eq less gt e =
      (_, refl, ground (arith, placed_gt e, placed_both_gt e, placed_at_gt e))
  entry_of-Right less_eq less_eq lt e =
      (_, refl, ground (arith, placed_lt e, placed_both_lt e, placed_at_lt e))
  entry_of-Right less_eq less_eq eq e = (_, refl, ground (arith, placed_eq e))
  entry_of-Right less_eq less_eq gt e =
      (_, refl, ground (arith, placed_gt e, placed_both_gt e, placed_at_gt e))
  entry_of-Right less_eq Operator.eq lt e =
      (_, refl, ground (arith, placed_lt e, placed_both_lt e, placed_at_lt e))
  entry_of-Right less_eq Operator.eq eq e = (_, refl, ground (arith, placed_eq e))
  entry_of-Right less_eq Operator.eq gt e =
      (_, refl, ground (arith, placed_gt e, placed_both_gt e, placed_at_gt e))
  entry_of-Right less_eq grt_eq lt e =
      (_, refl, ground (arith, placed_lt e, placed_both_lt e, placed_at_lt e))
  entry_of-Right less_eq grt_eq eq e = (_, refl, ground (arith, placed_eq e))
  entry_of-Right less_eq grt_eq gt e =
      (_, refl, ground (arith, placed_gt e, placed_both_gt e, placed_at_gt e))
  entry_of-Right less_eq grt lt e =
      (_, refl, ground (arith, placed_lt e, placed_both_lt e, placed_at_lt e))
  entry_of-Right less_eq grt eq e = (_, refl, ground (arith, placed_eq e))
  entry_of-Right less_eq grt gt e =
      (_, refl, ground (arith, placed_gt e, placed_both_gt e, placed_at_gt e))
  entry_of-Right less_eq not_eq lt e =
      (_, refl, ground (arith, placed_lt e, placed_both_lt e, placed_at_lt e))
  entry_of-Right less_eq not_eq eq e = (_, refl, ground (arith, placed_eq e))
  entry_of-Right less_eq not_eq gt e =
      (_, refl, ground (arith, placed_gt e, placed_both_gt e, placed_at_gt e))
  entry_of-Right Operator.eq less lt e =
      (_, refl, ground (arith, placed_lt e, placed_both_lt e, placed_at_lt e))
  entry_of-Right Operator.eq less eq e = (_, refl, ground (arith, placed_eq e))
  entry_of-Right Operator.eq less gt e =
      (_, refl, ground (arith, placed_gt e, placed_both_gt e, placed_at_gt e))
  entry_of-Right Operator.eq less_eq lt e =
      (_, refl, ground (arith, placed_lt e, placed_both_lt e, placed_at_lt e))
  entry_of-Right Operator.eq less_eq eq e = (_, refl, ground (arith, placed_eq e))
  entry_of-Right Operator.eq less_eq gt e =
      (_, refl, ground (arith, placed_gt e, placed_both_gt e, placed_at_gt e))
  entry_of-Right Operator.eq Operator.eq lt e =
      (_, refl, ground (arith, placed_lt e, placed_both_lt e, placed_at_lt e))
  entry_of-Right Operator.eq Operator.eq eq e = (_, refl, ground (arith, placed_eq e))
  entry_of-Right Operator.eq Operator.eq gt e =
      (_, refl, ground (arith, placed_gt e, placed_both_gt e, placed_at_gt e))
  entry_of-Right Operator.eq grt_eq lt e =
      (_, refl, ground (arith, placed_lt e, placed_both_lt e, placed_at_lt e))
  entry_of-Right Operator.eq grt_eq eq e = (_, refl, ground (arith, placed_eq e))
  entry_of-Right Operator.eq grt_eq gt e =
      (_, refl, ground (arith, placed_gt e, placed_both_gt e, placed_at_gt e))
  entry_of-Right Operator.eq grt lt e =
      (_, refl, ground (arith, placed_lt e, placed_both_lt e, placed_at_lt e))
  entry_of-Right Operator.eq grt eq e = (_, refl, ground (arith, placed_eq e))
  entry_of-Right Operator.eq grt gt e =
      (_, refl, ground (arith, placed_gt e, placed_both_gt e, placed_at_gt e))
  entry_of-Right Operator.eq not_eq lt e =
      (_, refl, ground (arith, placed_lt e, placed_both_lt e, placed_at_lt e))
  entry_of-Right Operator.eq not_eq eq e = (_, refl, ground (arith, placed_eq e))
  entry_of-Right Operator.eq not_eq gt e =
      (_, refl, ground (arith, placed_gt e, placed_both_gt e, placed_at_gt e))
  entry_of-Right grt_eq less lt e =
      (_, refl, ground (arith, placed_lt e, placed_both_lt e, placed_at_lt e))
  entry_of-Right grt_eq less eq e = (_, refl, ground (arith, placed_eq e))
  entry_of-Right grt_eq less gt e =
      (_, refl, ground (arith, placed_gt e, placed_both_gt e, placed_at_gt e))
  entry_of-Right grt_eq less_eq lt e =
      (_, refl, ground (arith, placed_lt e, placed_both_lt e, placed_at_lt e))
  entry_of-Right grt_eq less_eq eq e = (_, refl, ground (arith, placed_eq e))
  entry_of-Right grt_eq less_eq gt e =
      (_, refl, ground (arith, placed_gt e, placed_both_gt e, placed_at_gt e))
  entry_of-Right grt_eq Operator.eq lt e =
      (_, refl, ground (arith, placed_lt e, placed_both_lt e, placed_at_lt e))
  entry_of-Right grt_eq Operator.eq eq e = (_, refl, ground (arith, placed_eq e))
  entry_of-Right grt_eq Operator.eq gt e =
      (_, refl, ground (arith, placed_gt e, placed_both_gt e, placed_at_gt e))
  entry_of-Right grt_eq grt_eq lt e =
      (_, refl, ground (arith, placed_lt e, placed_both_lt e, placed_at_lt e))
  entry_of-Right grt_eq grt_eq eq e = (_, refl, ground (arith, placed_eq e))
  entry_of-Right grt_eq grt_eq gt e =
      (_, refl, ground (arith, placed_gt e, placed_both_gt e, placed_at_gt e))
  entry_of-Right grt_eq grt lt e =
      (_, refl, ground (arith, placed_lt e, placed_both_lt e, placed_at_lt e))
  entry_of-Right grt_eq grt eq e = (_, refl, ground (arith, placed_eq e))
  entry_of-Right grt_eq grt gt e =
      (_, refl, ground (arith, placed_gt e, placed_both_gt e, placed_at_gt e))
  entry_of-Right grt_eq not_eq lt e =
      (_, refl, ground (arith, placed_lt e, placed_both_lt e, placed_at_lt e))
  entry_of-Right grt_eq not_eq eq e = (_, refl, ground (arith, placed_eq e))
  entry_of-Right grt_eq not_eq gt e =
      (_, refl, ground (arith, placed_gt e, placed_both_gt e, placed_at_gt e))
  entry_of-Right grt less lt e =
      (_, refl, ground (arith, placed_lt e, placed_both_lt e, placed_at_lt e))
  entry_of-Right grt less eq e = (_, refl, ground (arith, placed_eq e))
  entry_of-Right grt less gt e =
      (_, refl, ground (arith, placed_gt e, placed_both_gt e, placed_at_gt e))
  entry_of-Right grt less_eq lt e =
      (_, refl, ground (arith, placed_lt e, placed_both_lt e, placed_at_lt e))
  entry_of-Right grt less_eq eq e = (_, refl, ground (arith, placed_eq e))
  entry_of-Right grt less_eq gt e =
      (_, refl, ground (arith, placed_gt e, placed_both_gt e, placed_at_gt e))
  entry_of-Right grt Operator.eq lt e =
      (_, refl, ground (arith, placed_lt e, placed_both_lt e, placed_at_lt e))
  entry_of-Right grt Operator.eq eq e = (_, refl, ground (arith, placed_eq e))
  entry_of-Right grt Operator.eq gt e =
      (_, refl, ground (arith, placed_gt e, placed_both_gt e, placed_at_gt e))
  entry_of-Right grt grt_eq lt e =
      (_, refl, ground (arith, placed_lt e, placed_both_lt e, placed_at_lt e))
  entry_of-Right grt grt_eq eq e = (_, refl, ground (arith, placed_eq e))
  entry_of-Right grt grt_eq gt e =
      (_, refl, ground (arith, placed_gt e, placed_both_gt e, placed_at_gt e))
  entry_of-Right grt grt lt e =
      (_, refl, ground (arith, placed_lt e, placed_both_lt e, placed_at_lt e))
  entry_of-Right grt grt eq e = (_, refl, ground (arith, placed_eq e))
  entry_of-Right grt grt gt e =
      (_, refl, ground (arith, placed_gt e, placed_both_gt e, placed_at_gt e))
  entry_of-Right grt not_eq lt e =
      (_, refl, ground (arith, placed_lt e, placed_both_lt e, placed_at_lt e))
  entry_of-Right grt not_eq eq e = (_, refl, ground (arith, placed_eq e))
  entry_of-Right grt not_eq gt e =
      (_, refl, ground (arith, placed_gt e, placed_both_gt e, placed_at_gt e))
  entry_of-Right not_eq less lt e =
      (_, refl, ground (arith, placed_lt e, placed_both_lt e, placed_at_lt e))
  entry_of-Right not_eq less eq e = (_, refl, ground (arith, placed_eq e))
  entry_of-Right not_eq less gt e =
      (_, refl, ground (arith, placed_gt e, placed_both_gt e, placed_at_gt e))
  entry_of-Right not_eq less_eq lt e =
      (_, refl, ground (arith, placed_lt e, placed_both_lt e, placed_at_lt e))
  entry_of-Right not_eq less_eq eq e = (_, refl, ground (arith, placed_eq e))
  entry_of-Right not_eq less_eq gt e =
      (_, refl, ground (arith, placed_gt e, placed_both_gt e, placed_at_gt e))
  entry_of-Right not_eq Operator.eq lt e =
      (_, refl, ground (arith, placed_lt e, placed_both_lt e, placed_at_lt e))
  entry_of-Right not_eq Operator.eq eq e = (_, refl, ground (arith, placed_eq e))
  entry_of-Right not_eq Operator.eq gt e =
      (_, refl, ground (arith, placed_gt e, placed_both_gt e, placed_at_gt e))
  entry_of-Right not_eq grt_eq lt e =
      (_, refl, ground (arith, placed_lt e, placed_both_lt e, placed_at_lt e))
  entry_of-Right not_eq grt_eq eq e = (_, refl, ground (arith, placed_eq e))
  entry_of-Right not_eq grt_eq gt e =
      (_, refl, ground (arith, placed_gt e, placed_both_gt e, placed_at_gt e))
  entry_of-Right not_eq grt lt e =
      (_, refl, ground (arith, placed_lt e, placed_both_lt e, placed_at_lt e))
  entry_of-Right not_eq grt eq e = (_, refl, ground (arith, placed_eq e))
  entry_of-Right not_eq grt gt e =
      (_, refl, ground (arith, placed_gt e, placed_both_gt e, placed_at_gt e))
  entry_of-Right not_eq not_eq lt e =
      (_, refl, ground (arith, placed_lt e, placed_both_lt e, placed_at_lt e))
  entry_of-Right not_eq not_eq eq e = (_, refl, ground (arith, placed_eq e))
  entry_of-Right not_eq not_eq gt e =
      (_, refl, ground (arith, placed_gt e, placed_both_gt e, placed_at_gt e))

-- The relation that the table gives for two comparisons of an attribute holds.
module _ (is_number : Text → Bool) (numeric_order : Text → Text → Ordering) (t : SqlKind)
    (ordered : IsOrder numeric_order) (x_op y_op : Operator) (x_text y_text x y a : Text)
    (x_known : get_operator_index x_text ≡ some (index_of x_op))
    (y_known : get_operator_index y_text ≡ some (index_of y_op))
    (x_comparable : Comparable is_number t x) (y_comparable : Comparable is_number t y) where
  values_order-Comparable :
      (t : SqlKind)
      → Comparable is_number t x
      → Comparable is_number t y
      → values_order is_number numeric_order t x y ≡ some (kind_order numeric_order t x y)
  unfolding values_order
  values_order-Comparable string h k = refl
  values_order-Comparable numeric h k = rw (h, k) refl
  values_order-Comparable binary h k = elim h [ ]
  values_order-Comparable date_time h k = elim h [ ]
  values_order-Comparable bit_kind h k = elim h [ ]

  get_relation-entry_of :
      get_relation is_number numeric_order x_text x y_text y t
      ≡ entry_of x_op y_op (kind_order numeric_order t x y)
  unfolding get_relation get_values_relationship_index entry_of
  get_relation-entry_of =
      rw (x_known, y_known, values_order-Comparable t x_comparable y_comparable) refl

  -- Where the numeric comparison is an order, and for two known operators and two values that can
  -- be compared, getRelation finds an entry of its table, and the entry is right for every value of
  -- the attribute: `b` says that both comparisons hold or none, `l` that the left holds whenever
  -- the right does, `r` the other way round, `!` that they never hold together, and `=` that they
  -- do so only where the attribute equals the left value.
  pub get_relation-means :
      (c : ℕ) × (get_relation is_number numeric_order x_text x y_text y t ≡ some c)
      × (means c
            (satisfies (kind_order numeric_order t) x_op a x)
            (satisfies (kind_order numeric_order t) y_op a y)
            (is_same (kind_order numeric_order t a x))
          ≡ true)
  get_relation-means =
      let (c, e, m) =
        entry_of-Right (kind_order numeric_order t) (kind_order-IsOrder numeric_order t ordered) a x
          y x_op y_op (kind_order numeric_order t x y) refl in
      (c, get_relation-entry_of ∙ e, m)

-- ===== src/Interval/Checker.antt =====
-- The filter never drops a configuration that some values of the attributes produce.
use Prim.Native.Nat.Ordering.{lt, eq, gt}
use minerule.Prelude.{
  ℕ, ◌≡◌, refl, Ordering, arith, Bool, true, false, not, some, none, Option, List, [], ◌∷◌, ◌⊎◌,
  ◌∙◌, ap, sym, if◌then◌else◌, some_inj, inl, inr,
}
use mathlib.Core.Path.{subst}
use minerule.VarSet.{VarSet, get_var}
use minerule.Predicate.{Text, ParsedPred, Pool, compare_text, new_simple_predicate, get_var_id}
use minerule.Predicate.Pool.{eq_of_compare_text}
use minerule.SqlUtils.{SqlKind, is_attribute}
use minerule.Interval.{
  Operator, less, less_eq, grt, grt_eq, not_eq, Interval, of_operator, get_operator, intersect,
  get_value, get_attribute, update, interval_of, check_predicate, impossible_variable_setting,
  filter_out, Doubles, numeric_compare,
}
use minerule.Interval.Agreement.{Constant, AgreeOn, filter_out-agree}
use minerule.Interval.Order.{IsOrder, kind_order, kind_order-IsOrder, Comparable}
use minerule.Interval.Contents.{
  contains, satisfies, negated, get_operator-negated, satisfies-negated, contains-of_operator,
  Allows, Allows-contains, intersect-Allows, is_empty-Allows,
}

module _ (is_number : Text → Bool) (numeric_order : Text → Text → Ordering)
    (type_for_attribute : Text → Option SqlKind) (vset : VarSet) (pool : Pool)
    (env : Text → Text) where
  -- The predicate `attr op v` has, for the values `env` of the attributes, the truth value that the
  -- configuration gives it.
  pub record Agrees (p : ParsedPred) : Type 0 where
    pub kind : SqlKind
    pub typed : type_for_attribute p.val1 ≡ some kind
    pub id : ℕ
    pub truth : Bool
    pub in_pool : (new_simple_predicate p pool).1 ≡ pool
    pub found : get_var_id pool (new_simple_predicate p pool).0 ≡ some id
    pub reads : get_var vset id ≡ some truth
    pub operator : Operator
    pub known : get_operator p.op false ≡ some operator
    pub comparable : Comparable is_number kind p.val2
    pub same_truth : satisfies (kind_order numeric_order kind) operator (env p.val1) p.val2 ≡ truth

  -- A list whose members are of that form, or compare no attribute at all.
  abbrev pub AllAgree : List ParsedPred → Type 0
  AllAgree [] = Unit {0}
  AllAgree (p ∷ l) =
      (((is_attribute is_number p.val1 ≡ true) × (is_attribute is_number p.val2 ≡ false) × Agrees p)
        ⊎ ((is_attribute is_number p.val1 ≡ false) × (is_attribute is_number p.val2 ≡ false)))
      × AllAgree l

  -- Each interval so far contains the value of its attribute.
  abbrev Covers : List (Text × Interval) → Type 0
  Covers [] = Unit {0}
  Covers ((a, i) ∷ rest) =
      ((t : SqlKind) × (type_for_attribute a ≡ some t)
        × Allows is_number numeric_order type_for_attribute t (env a) i)
      × Covers rest

  retyped :
      (attr a : Text) (t t' : SqlKind) (i : Interval)
      → type_for_attribute a ≡ some t'
      → type_for_attribute attr ≡ some t
      → attr ≡ a
      → Allows is_number numeric_order type_for_attribute t' (env a) i
      → Allows is_number numeric_order type_for_attribute t (env attr) (record i { kind = some t })
  retyped attr a t t' i e' e q h =
      let same : t' ≡ t = some_inj (sym e' ∙ ap type_for_attribute (sym q) ∙ e) in
      let h' : Allows is_number numeric_order type_for_attribute t (env attr) i =
        subst (λ k. Allows is_number numeric_order type_for_attribute k (env attr) i) same
          (subst (λ b. Allows is_number numeric_order type_for_attribute t' (env b) i) (sym q) h) in
      record {
        kind = refl;
        lower = h'.lower;
        upper = h'.upper;
        over = h'.over;
        under = h'.under;
        points = h'.points;
      }

  interval_of-Allows :
      (attr : Text) (t : SqlKind) (intervals : List (Text × Interval))
      → type_for_attribute attr ≡ some t
      → Covers intervals
      → Allows is_number numeric_order type_for_attribute t
          (env attr)
          (record (interval_of is_number numeric_order type_for_attribute attr intervals) {
            kind = some t;
          })
  unfolding interval_of
  interval_of-Allows attr t [] e c = record {
    kind = refl;
    lower = tt;
    upper = tt;
    over = refl;
    under = refl;
    points = refl;
  }
  interval_of-Allows attr t ((a, i) ∷ rest) e ((t', e', h), c) =
      go (compare_text attr a) refl (interval_of-Allows attr t rest e c)
    where
      go :
          (o : Ordering)
          → compare_text attr a ≡ o
          → Allows is_number numeric_order type_for_attribute t
              (env attr)
              (record (interval_of is_number numeric_order type_for_attribute attr rest) {
                kind = some t;
              })
          → Allows is_number numeric_order type_for_attribute t
              (env attr)
              (record (elim o as (λ _. Interval) [
                | eq ↦ i
                | _ ↦ interval_of is_number numeric_order type_for_attribute attr rest
              ]) { kind = some t })
      go lt q later = later
      go gt q later = later
      go eq q later = retyped attr a t t' i e' e (eq_of_compare_text attr a q) h

  -- The operator that the code takes: negated if the predicate is false in the configuration.
  applied : Operator → Bool → Operator
  applied o truth = if truth then o else negated o

  get_operator-applied :
      (op : Text) (o : Operator) (truth : Bool)
      → get_operator op false ≡ some o
      → get_operator op (not truth) ≡ some (applied o truth)
  unfolding applied
  get_operator-applied op o true h = h
  get_operator-applied op o false h = get_operator-negated op o h

  satisfies-applied :
      (cmp : Text → Text → Ordering) (o : Operator) (x v : Text) (truth : Bool)
      → satisfies cmp o x v ≡ truth
      → satisfies cmp (applied o truth) x v ≡ true
  unfolding applied
  satisfies-applied cmp o x v true h = h
  satisfies-applied cmp o x v false h = satisfies-negated cmp o x v ∙ ap not h

  of_operator-Allows :
      (o : Operator) (v x : Text) (t : SqlKind)
      → IsOrder numeric_order
      → Comparable is_number t v
      → satisfies (kind_order numeric_order t) o x v ≡ true
      → Allows is_number numeric_order type_for_attribute t x (of_operator o v t)
  unfolding of_operator
  of_operator-Allows o v x t ordered h e =
      let c =
        contains-of_operator (kind_order numeric_order t) o v x t
          (kind_order-IsOrder numeric_order t ordered)
        ∙ e in
      by_operator o c
    where
      by_operator :
          (o : Operator)
          → contains (kind_order numeric_order t) (of_operator o v t) x ≡ true
          → Allows is_number numeric_order type_for_attribute t x (of_operator o v t)
      by_operator less c =
          Allows-contains is_number numeric_order type_for_attribute t x _ refl tt h c
      by_operator less_eq c =
          Allows-contains is_number numeric_order type_for_attribute t x _ refl tt h c
      by_operator grt c =
          Allows-contains is_number numeric_order type_for_attribute t x _ refl h tt c
      by_operator grt_eq c =
          Allows-contains is_number numeric_order type_for_attribute t x _ refl h tt c
      by_operator Operator.eq c =
          Allows-contains is_number numeric_order type_for_attribute t x _ refl h h c
      by_operator not_eq c =
          Allows-contains is_number numeric_order type_for_attribute t x _ refl tt tt c

  get_value-second :
      (v w : Text)
      → is_attribute is_number v ≡ true
      → is_attribute is_number w ≡ false
      → get_value is_number numeric_order type_for_attribute v w ≡ some w
  unfolding get_value
  get_value-second v w h k = ground arith

  get_attribute-first :
      (v w : Text)
      → is_attribute is_number v ≡ true
      → get_attribute is_number numeric_order type_for_attribute v w ≡ some v
  unfolding get_attribute
  get_attribute-first v w h = ground arith

  get_attribute-none :
      (v w : Text)
      → is_attribute is_number v ≡ false
      → is_attribute is_number w ≡ false
      → get_attribute is_number numeric_order type_for_attribute v w ≡ none
  unfolding get_attribute
  get_attribute-none v w h k = ground arith

  update-known :
      (p : ParsedPred) (negate_it : Bool) (i : Interval) (v : Text) (o : Operator) (t : SqlKind)
      → get_value is_number numeric_order type_for_attribute p.val1 p.val2 ≡ some v
      → get_operator p.op negate_it ≡ some o
      → i.kind ≡ some t
      → update is_number numeric_order type_for_attribute p negate_it i
        ≡ intersect is_number numeric_order type_for_attribute i (of_operator o v t)
  unfolding update
  update-known p negate_it i v o t e1 e2 e3 = ground arith

  impossible-step :
      (p : ParsedPred) (l : List ParsedPred) (intervals intervals1 : List (Text × Interval))
      → get_attribute is_number numeric_order type_for_attribute p.val1 p.val2 ≡ some p.val1
      → check_predicate is_number numeric_order type_for_attribute vset p.val1 p intervals pool
        ≡ some (false, intervals1, pool)
      → impossible_variable_setting is_number numeric_order type_for_attribute vset
          (p ∷ l)
          intervals
          pool
        ≡ impossible_variable_setting is_number numeric_order type_for_attribute vset l intervals1
            pool
  unfolding impossible_variable_setting
  impossible-step p l intervals intervals1 e1 e2 = rw (e1, impossible_variable_setting) (rw e2 refl)

  impossible-skip :
      (p : ParsedPred) (l : List ParsedPred) (intervals : List (Text × Interval))
      → get_attribute is_number numeric_order type_for_attribute p.val1 p.val2 ≡ none
      → impossible_variable_setting is_number numeric_order type_for_attribute vset
          (p ∷ l)
          intervals
          pool
        ≡ impossible_variable_setting is_number numeric_order type_for_attribute vset l intervals
            pool
  unfolding impossible_variable_setting
  impossible-skip p l intervals e1 = rw (e1, impossible_variable_setting) refl

  update-Allows :
      (p : ParsedPred) (i : Interval) (g : Agrees p)
      → is_attribute is_number p.val1 ≡ true
      → is_attribute is_number p.val2 ≡ false
      → IsOrder numeric_order
      → Allows is_number numeric_order type_for_attribute g.kind (env p.val1) i
      → (r : Interval) × (update is_number numeric_order type_for_attribute p (not g.truth) i
          ≡ some r)
        × Allows is_number numeric_order type_for_attribute g.kind (env p.val1) r
  update-Allows p i g here there ordered h =
      let o = applied g.operator g.truth in
      let j = of_operator o p.val2 g.kind in
      let (r, e, a) =
        intersect-Allows is_number numeric_order type_for_attribute g.kind
          (kind_order-IsOrder numeric_order g.kind ordered) (env p.val1) i j h
          (of_operator-Allows o p.val2 (env p.val1) g.kind ordered g.comparable (
            satisfies-applied (kind_order numeric_order g.kind) g.operator (env p.val1) p.val2
              g.truth g.same_truth)) in
      (
        r,
        update-known p (not g.truth) i p.val2 o g.kind (get_value-second p.val1 p.val2 here there)
              (get_operator-applied p.op g.operator g.truth g.known) h.kind
            ∙ e,
        a,
      )

  check_predicate-Covers :
      (p : ParsedPred) (intervals : List (Text × Interval))
      → is_attribute is_number p.val1 ≡ true
      → is_attribute is_number p.val2 ≡ false
      → IsOrder numeric_order
      → Agrees p
      → Covers intervals
      → (i : Interval) × (check_predicate is_number numeric_order type_for_attribute vset p.val1 p
            intervals pool
          ≡ some (false, (p.val1, i) ∷ intervals, pool))
        × Covers ((p.val1, i) ∷ intervals)
  unfolding check_predicate
  check_predicate-Covers p intervals here there ordered g c =
      let old = interval_of-Allows p.val1 g.kind intervals g.typed c in
      let (r, e, a) =
        update-Allows p
          (record (interval_of is_number numeric_order type_for_attribute p.val1 intervals) {
            kind = some g.kind;
          })
          g here there ordered old in
      let empty =
        is_empty-Allows is_number numeric_order type_for_attribute g.kind
          (kind_order-IsOrder numeric_order g.kind ordered) (env p.val1) r a in
      (r, rw (g.typed, g.in_pool, g.found, g.reads, e, empty) refl, ((g.kind, g.typed, a), c))

  impossible_variable_setting-Covers :
      (l : List ParsedPred) (intervals : List (Text × Interval))
      → IsOrder numeric_order
      → AllAgree l
      → Covers intervals
      → impossible_variable_setting is_number numeric_order type_for_attribute vset l intervals pool
        ≡ some (false, pool)
  unfolding impossible_variable_setting
  impossible_variable_setting-Covers [] intervals ordered h c = refl
  impossible_variable_setting-Covers (p ∷ l) intervals ordered (inl (here, there, g), h) c =
      let (i, e, c') = check_predicate-Covers p intervals here there ordered g c in
      impossible-step p l intervals ((p.val1, i) ∷ intervals)
        (get_attribute-first p.val1 p.val2 here) e
      ∙ impossible_variable_setting-Covers l ((p.val1, i) ∷ intervals) ordered h c'
  impossible_variable_setting-Covers (p ∷ l) intervals ordered (inr (here, there), h) c =
      impossible-skip p l intervals (get_attribute-none p.val1 p.val2 here there)
      ∙ impossible_variable_setting-Covers l intervals ordered h c

  filter_out-ordered :
      (l : List ParsedPred)
      → IsOrder numeric_order
      → AllAgree l
      → filter_out is_number numeric_order type_for_attribute l pool vset ≡ some false
  unfolding filter_out
  filter_out-ordered l ordered h = rw (impossible_variable_setting-Covers l [] ordered h tt) refl

-- Where the comparison of the code, which cuts the difference of two numbers to an int, agrees on
-- the numbers among the constants of the predicates with a total order of all values, the filter
-- answers false on a configuration that some values of the attributes produce in that order: each
-- predicate of the list compares an attribute on its left with a constant by a known operator, is
-- in the pool with the id of a variable of the configuration, and has for those values the truth
-- value of that variable, or it compares no attribute at all.
pub filter_out-possible :
    (is_number : Text → Bool) (doubles : Doubles) (type_for_attribute : Text → Option SqlKind)
    (numeric_order : Text → Text → Ordering) (vset : VarSet) (pool : Pool) (env : Text → Text)
    (l : List ParsedPred)
    → IsOrder numeric_order
    → AgreeOn (λ v. Constant v l) is_number (numeric_compare doubles) numeric_order
    → AllAgree is_number numeric_order type_for_attribute vset pool env l
    → filter_out is_number (numeric_compare doubles) type_for_attribute l pool vset ≡ some false
filter_out-possible is_number doubles type_for_attribute numeric_order vset pool env l ordered agree
      h =
    filter_out-agree (λ v. Constant v l) is_number (numeric_compare doubles) numeric_order
      type_for_attribute agree vset l pool (λ v k. k)
    ∙ filter_out-ordered is_number numeric_order type_for_attribute vset pool env l ordered h

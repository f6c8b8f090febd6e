-- ===== src/Interval/Agreement.antt =====
-- Two comparisons that agree on the constants of the predicates filter the same configurations.
use Prim.Native.Nat.Ordering.{lt, eq, gt}
use minerule.Prelude.{
  ◌≡◌, refl, Ordering, arith, Bool, true, false, not, if◌then◌else◌, some, none, Option, List, [],
  ◌∷◌, ◌⊎◌, ap, sym, some_inj, inl, inr, ◌>>=◌, ◌||◌,
}
use mathlib.Core.Path.{subst}
use minerule.VarSet.{VarSet, get_var}
use minerule.Predicate.{Text, ParsedPred, Pool, compare_text, new_simple_predicate, get_var_id}
use minerule.SqlUtils.{SqlKind, numeric, string, binary, date_time, bit_kind, is_attribute}
use minerule.Interval.{
  Operator, less, less_eq, grt, grt_eq, not_eq, Limit, neg_infty, pos_infty, value, Interval,
  of_operator, get_operator, compare_strings, compare_values, get_max_lwr, get_min_upp, intersect,
  is_empty, get_value, get_attribute, update, interval_of, check_predicate,
  impossible_variable_setting, filter_out,
}

-- Texts that stand in a predicate of the list.
abbrev pub Constant : Text → List ParsedPred → Type 0
Constant v [] = ⊥
Constant v (p ∷ l) = ((v ≡ p.val1) ⊎ (v ≡ p.val2)) ⊎ Constant v l

-- Two comparisons that agree on the numbers among some texts.
abbrev pub AgreeOn :
    (Text → Type 0) → (Text → Bool) → (Text → Text → Ordering) → (Text → Text → Ordering) → Type 0
AgreeOn Within is_number c1 c2 =
    (v w : Text) → Within v → Within w → is_number v ≡ true → is_number w ≡ true → c1 v w ≡ c2 v w

-- The same result, which satisfies `Good` if there is one.
abbrev Both {ℓ} : {A : Type ℓ} → (A → Type 0) → Option A → Option A → Type ℓ
Both Good m1 m2 = (m1 ≡ m2) × ((a : _) → m2 ≡ some a → Good a)

Both-same {ℓ} : {A : Type ℓ} (m : Option A) → Both (λ _. Unit {0}) m m
Both-same m = (refl, λ a e. tt)

Both-some {ℓ} : {A : Type ℓ} {Good : A → Type 0} (a : A) → Good a → Both Good (some a) (some a)
Both-some {Good = Good} a h = (refl, λ b e. subst Good (some_inj e) h)

Both-bind {ℓ κ} :
    {A : Type ℓ} {B : Type κ} {Good : A → Type 0} {Fine : B → Type 0} (m1 m2 : Option A)
    (f g : A → Option B)
    → Both Good m1 m2
    → ((a : A) → Good a → Both Fine (f a) (g a))
    → Both Fine (m1 >>= f) (m2 >>= g)
Both-bind {Fine = Fine} m1 none f g (e, good) h =
    subst (λ m. Both Fine (m >>= f) none) (sym e) (refl, λ b k. cc)
Both-bind {Fine = Fine} m1 (some a) f g (e, good) h =
    subst (λ m. Both Fine (m >>= f) (g a)) (sym e) (h a (good a refl))

module _ (Within : Text → Type 0) (is_number : Text → Bool) (c1 c2 : Text → Text → Ordering)
    (type_for_attribute : Text → Option SqlKind) (agree : AgreeOn Within is_number c1 c2) where
  abbrev LimitIn : Limit → Type 0
  LimitIn neg_infty = Unit {0}
  LimitIn pos_infty = Unit {0}
  LimitIn (value v) = Within v

  record IntervalIn (i : Interval) : Type 0 where
    lower : LimitIn i.lwr
    upper : LimitIn i.upp

  compare_strings-agree :
      (t : SqlKind) (v w : Text)
      → Within v
      → Within w
      → compare_strings is_number c1 type_for_attribute t v w
        ≡ compare_strings is_number c2 type_for_attribute t v w
  unfolding compare_strings
  compare_strings-agree string v w h k = refl
  compare_strings-agree numeric v w h k = ground (arith, agree v w h k)
  compare_strings-agree binary v w h k = refl
  compare_strings-agree date_time v w h k = refl
  compare_strings-agree bit_kind v w h k = refl

  compare_values-agree :
      (kind : Option SqlKind) (a b : Limit)
      → LimitIn a
      → LimitIn b
      → compare_values is_number c1 type_for_attribute kind a b
        ≡ compare_values is_number c2 type_for_attribute kind a b
  unfolding compare_values
  compare_values-agree none a b h k = refl
  compare_values-agree (some t) neg_infty neg_infty h k = refl
  compare_values-agree (some t) neg_infty pos_infty h k = refl
  compare_values-agree (some t) neg_infty (value w) h k = refl
  compare_values-agree (some t) pos_infty neg_infty h k = refl
  compare_values-agree (some t) pos_infty pos_infty h k = refl
  compare_values-agree (some t) pos_infty (value w) h k = refl
  compare_values-agree (some t) (value v) neg_infty h k = refl
  compare_values-agree (some t) (value v) pos_infty h k = refl
  compare_values-agree (some t) (value v) (value w) h k = compare_strings-agree t v w h k

  -- The limit that an order of two limits picks is one of them.
  picked-In :
      (order : Ordering) (below equal above : Limit × Bool)
      → LimitIn below.0
      → LimitIn equal.0
      → LimitIn above.0
      → LimitIn (elim order as (λ _. Limit × Bool) [ lt ↦ below | gt ↦ above | eq ↦ equal ]).0
  picked-In lt below equal above h k m = h
  picked-In eq below equal above h k m = k
  picked-In gt below equal above h k m = m

  -- The two limits of an intersection are limits of the two intervals.
  get_max_lwr-agree :
      (kind : Option SqlKind) (i j : Interval)
      → IntervalIn i
      → IntervalIn j
      → Both
          (λ q. LimitIn q.0)
          (get_max_lwr is_number c1 type_for_attribute kind i j)
          (get_max_lwr is_number c2 type_for_attribute kind i j)
  unfolding get_max_lwr
  get_max_lwr-agree kind i j h k =
      Both-bind _ _ _ _ (compare_values-agree kind i.lwr j.lwr h.lower k.lower, λ o e. tt)
        (λ o _. Both-some _ (
          picked-In o (j.lwr, j.lwr_open) (i.lwr, i.lwr_open || j.lwr_open) (i.lwr, i.lwr_open)
            k.lower h.lower h.lower))

  get_min_upp-agree :
      (kind : Option SqlKind) (i j : Interval)
      → IntervalIn i
      → IntervalIn j
      → Both
          (λ q. LimitIn q.0)
          (get_min_upp is_number c1 type_for_attribute kind i j)
          (get_min_upp is_number c2 type_for_attribute kind i j)
  unfolding get_min_upp
  get_min_upp-agree kind i j h k =
      Both-bind _ _ _ _ (compare_values-agree kind i.upp j.upp h.upper k.upper, λ o e. tt)
        (λ o _. Both-some _ (
          picked-In o (i.upp, i.upp_open) (i.upp, i.upp_open || j.upp_open) (j.upp, j.upp_open)
            h.upper h.upper k.upper))

  is_empty-agree :
      (i : Interval)
      → IntervalIn i
      → is_empty is_number c1 type_for_attribute i ≡ is_empty is_number c2 type_for_attribute i
  unfolding is_empty
  is_empty-agree i h = rw (compare_values-agree i.kind i.lwr i.upp h.lower h.upper) refl

  of_operator-In :
      (o : Operator) (v : Text) (t : SqlKind) → Within v → IntervalIn (of_operator o v t)
  unfolding of_operator
  of_operator-In less v t h = record { lower = tt; upper = h }
  of_operator-In less_eq v t h = record { lower = tt; upper = h }
  of_operator-In grt v t h = record { lower = h; upper = tt }
  of_operator-In grt_eq v t h = record { lower = h; upper = tt }
  of_operator-In Operator.eq v t h = record { lower = h; upper = h }
  of_operator-In not_eq v t h = record { lower = tt; upper = tt }

  intersect-agree :
      (i j : Interval)
      → IntervalIn i
      → IntervalIn j
      → Both IntervalIn
          (intersect is_number c1 type_for_attribute i j)
          (intersect is_number c2 type_for_attribute i j)
  unfolding intersect
  intersect-agree i j h k =
      Both-bind _ _ _ _ (get_max_lwr-agree i.kind i j h k) (λ (lwr, lwr_open) low.
        Both-bind _ _ _ _ (get_min_upp-agree i.kind i j h k)
          (λ (upp, upp_open) high. Both-some _ (record { lower = low; upper = high })))

  get_value-agree :
      (v w : Text)
      → get_value is_number c1 type_for_attribute v w
        ≡ get_value is_number c2 type_for_attribute v w
  unfolding get_value
  get_value-agree v w = refl

  get_value-Within :
      (v w x : Text)
      → Within v
      → Within w
      → get_value is_number c2 type_for_attribute v w ≡ some x
      → Within x
  unfolding get_value
  get_value-Within v w x h k = chosen (is_attribute is_number v) (is_attribute is_number w)
    where
      chosen :
          (here there : Bool)
          → (if not here then some v else (if not there then some w else none)) ≡ some x
          → Within x
      chosen false there e = subst Within (some_inj e) h
      chosen true false e = subst Within (some_inj e) k
      chosen true true e = cc

  update-agree :
      (p : ParsedPred) (negate_it : Bool) (i : Interval)
      → Within p.val1
      → Within p.val2
      → IntervalIn i
      → Both IntervalIn
          (update is_number c1 type_for_attribute p negate_it i)
          (update is_number c2 type_for_attribute p negate_it i)
  unfolding update
  update-agree p negate_it i h1 h2 k =
      rw (get_value-agree p.val1 p.val2, update)
        (known (get_value is_number c2 type_for_attribute p.val1 p.val2)
          (λ x. get_value-Within p.val1 p.val2 x h1 h2))
    where
      known :
          (val : Option Text)
          → ((x : Text) → val ≡ some x → Within x)
          → Both IntervalIn
              (elim val as (λ _. Option Interval) [
                | none ↦ some i
                | some v ↦ do
                  op ← get_operator p.op negate_it
                  t ← i.kind
                  intersect is_number c1 type_for_attribute i (of_operator op v t)
              ])
              (elim val as (λ _. Option Interval) [
                | none ↦ some i
                | some v ↦ do
                  op ← get_operator p.op negate_it
                  t ← i.kind
                  intersect is_number c2 type_for_attribute i (of_operator op v t)
              ])
      known none h = Both-some i k
      known (some v) h = Both-bind _ _ _ _ (Both-same (get_operator p.op negate_it)) (λ op _.
          Both-bind _ _ _ _ (Both-same i.kind)
            (λ t _. intersect-agree i (of_operator op v t) k (of_operator-In op v t (h v refl))))

  abbrev AllIn : List (Text × Interval) → Type 0
  AllIn [] = Unit {0}
  AllIn ((a, i) ∷ rest) = IntervalIn i × AllIn rest

  interval_of-agree :
      (attr : Text) (l : List (Text × Interval))
      → interval_of is_number c1 type_for_attribute attr l
        ≡ interval_of is_number c2 type_for_attribute attr l
  unfolding interval_of
  interval_of-agree attr [] = refl
  interval_of-agree attr ((a, i) ∷ rest) =
      ap (λ later. elim (compare_text attr a) as (λ _. Interval) [ eq ↦ i | _ ↦ later ])
        (interval_of-agree attr rest)

  interval_of-In :
      (attr : Text) (l : List (Text × Interval))
      → AllIn l
      → IntervalIn (interval_of is_number c2 type_for_attribute attr l)
  unfolding interval_of
  interval_of-In attr [] h = record { lower = tt; upper = tt }
  interval_of-In attr ((a, i) ∷ rest) h = go (compare_text attr a) (interval_of-In attr rest h.1)
    where
      go :
          (o : Ordering)
          → IntervalIn (interval_of is_number c2 type_for_attribute attr rest)
          → IntervalIn (elim o as (λ _. Interval) [
            | eq ↦ i
            | _ ↦ interval_of is_number c2 type_for_attribute attr rest
          ])
      go lt later = later
      go gt later = later
      go eq later = h.0

  module _ (vset : VarSet) where
    check_predicate-agree :
        (attr : Text) (p : ParsedPred) (l : List (Text × Interval)) (pool : Pool)
        → Within p.val1
        → Within p.val2
        → AllIn l
        → Both
            (λ r. AllIn r.1)
            (check_predicate is_number c1 type_for_attribute vset attr p l pool)
            (check_predicate is_number c2 type_for_attribute vset attr p l pool)
    unfolding check_predicate
    check_predicate-agree attr p l pool h1 h2 h =
        let (pred, pool1) = new_simple_predicate p pool in
        let old = interval_of-In attr l h in
        rw (interval_of-agree attr l) (
          Both-bind _ _ _ _ (Both-same (type_for_attribute attr)) (λ t _.
            Both-bind _ _ _ _ (Both-same (get_var_id pool1 pred)) (λ id _.
              Both-bind _ _ _ _ (Both-same (get_var vset id)) (λ holds _.
                Both-bind _ _ _ _
                  (update-agree p (not holds)
                    (record (interval_of is_number c2 type_for_attribute attr l) { kind = some t })
                    h1 h2 (record { lower = old.lower; upper = old.upper }))
                  (λ i inside.
                    Both-bind _ _ _ _ (is_empty-agree i inside, λ b e. tt)
                      (λ empty _. Both-some _ (inside, h)))))))

    -- The rest of a round of the checker, and of its loop.
    abbrev continue :
        (Text → Text → Ordering)
        → List ParsedPred
        → Bool
        → List (Text × Interval)
        → Pool
        → Option (Bool × Pool)
    continue c ps empty l pool = elim empty [
      | true ↦ some (true, pool)
      | false ↦ impossible_variable_setting is_number c type_for_attribute vset ps l pool
    ]

    abbrev round :
        (Text → Text → Ordering)
        → ParsedPred
        → List ParsedPred
        → List (Text × Interval)
        → Pool
        → Option Text
        → Option (Bool × Pool)
    round c p ps l pool attribute = elim attribute [
      | none ↦ impossible_variable_setting is_number c type_for_attribute vset ps l pool
      | some attr ↦ do
        (empty, l', pool') ← check_predicate is_number c type_for_attribute vset attr p l pool
        continue c ps empty l' pool'
    ]

    impossible-agree :
        (ps : List ParsedPred) (l : List (Text × Interval)) (pool : Pool)
        → ((v : Text) → Constant v ps → Within v)
        → AllIn l
        → impossible_variable_setting is_number c1 type_for_attribute vset ps l pool
          ≡ impossible_variable_setting is_number c2 type_for_attribute vset ps l pool
    unfolding impossible_variable_setting get_attribute
    impossible-agree [] l pool w h = refl
    impossible-agree (p ∷ ps) l pool w h =
        by_attribute (get_attribute is_number c2 type_for_attribute p.val1 p.val2)
          (λ l' pool' h'. impossible-agree ps l' pool' (λ v k. w v (inr k)) h')
      where
        after :
            (empty : Bool) (l' : List (Text × Interval)) (pool' : Pool)
            → impossible_variable_setting is_number c1 type_for_attribute vset ps l' pool'
              ≡ impossible_variable_setting is_number c2 type_for_attribute vset ps l' pool'
            → continue c1 ps empty l' pool' ≡ continue c2 ps empty l' pool'
        after false l' pool' e = e
        after true l' pool' e = refl

        by_attribute :
            (attribute : Option Text)
            → ((l' : List (Text × Interval)) (pool' : Pool)
                → AllIn l'
                → impossible_variable_setting is_number c1 type_for_attribute vset ps l' pool'
                  ≡ impossible_variable_setting is_number c2 type_for_attribute vset ps l' pool')
            → round c1 p ps l pool attribute ≡ round c2 p ps l pool attribute
        by_attribute none later = later l pool h
        by_attribute (some attr) later =
            (Both-bind {Fine = λ _. Unit {0}} _ _ _ _
              (check_predicate-agree attr p l pool (w p.val1 (inl (inl refl)))
                (w p.val2 (inl (inr refl))) h)
              (λ (empty, l', pool') h'. (after empty l' pool' (later l' pool' h'), λ b e. tt))).0

    pub filter_out-agree :
        (ps : List ParsedPred) (pool : Pool)
        → ((v : Text) → Constant v ps → Within v)
        → filter_out is_number c1 type_for_attribute ps pool vset
          ≡ filter_out is_number c2 type_for_attribute ps pool vset
    unfolding filter_out
    filter_out-agree ps pool w = rw (impossible-agree ps [] pool w tt) refl

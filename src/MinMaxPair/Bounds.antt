-- ===== src/MinMaxPair/Bounds.antt =====
-- What the bounds admit, after constraints and by inclusion.
use minerule.Prelude.{
  ℤ, le_int, le_int_trans, le_int_total, le_int_refl, le_int_antisym, true, false, ◌≡◌, refl, some,
  arith, ◌⊎◌, ◌↔◌,
}
use minerule.MinMaxPair.{MinMaxPair, min_of, max_of, apply_constraints, validate, contains}

-- For a pair whose minimum is at most its maximum, contains tells whether each value that it admits
-- is admitted by the other pair.
pub validate-contains :
    (p q : MinMaxPair)
    → le_int q.min q.max ≡ true
    → (contains p q ≡ true) ↔ ((v : ℤ) → validate q v ≡ true → validate p v ≡ true)
unfolding contains validate
validate-contains p q h = (
  λ inside v k. ground (arith, le_int_trans p.min q.min v, le_int_trans v q.max p.max),
  λ admits.
      let low : validate p q.min ≡ true = admits q.min (ground (arith, le_int_refl q.min)) in
      let high : validate p q.max ≡ true = admits q.max (ground (arith, le_int_refl q.max)) in
      ground (arith, low, high),
)

min_of_cases :
    (x y : ℤ) → ((min_of x y ≡ x) × (le_int x y ≡ true)) ⊎ ((min_of x y ≡ y) × (le_int y x ≡ true))
unfolding min_of
min_of_cases x y = ground (arith, le_int_total x y)

max_of_cases :
    (x y : ℤ) → ((max_of x y ≡ x) × (le_int y x ≡ true)) ⊎ ((max_of x y ≡ y) × (le_int x y ≡ true))
unfolding max_of
max_of_cases x y = ground (arith, le_int_total x y)

-- The two limits that the constraints leave.
module _ (a b c d : ℤ) (ab : le_int a b ≡ true) (cd : le_int c d ≡ true) where
  lower-between :
      (le_int c (min_of (max_of a c) d) ≡ true) × (le_int (min_of (max_of a c) d) d ≡ true)
  lower-between =
      ground (arith, min_of_cases (max_of a c) d, max_of_cases a c, le_int_refl c, le_int_refl d)

  upper-between :
      (le_int c (max_of (min_of b d) c) ≡ true) × (le_int (max_of (min_of b d) c) d ≡ true)
  upper-between =
      ground (arith, max_of_cases (min_of b d) c, min_of_cases b d, le_int_refl c, le_int_refl d)

  lower-upper : le_int (min_of (max_of a c) d) (max_of (min_of b d) c) ≡ true
  lower-upper = ground (
    arith,
    max_of_cases (min_of b d) c,
    min_of_cases b d,
    min_of_cases (max_of a c) d,
    max_of_cases a c,
    le_int_refl c,
    le_int_refl d,
    lower-between,
    upper-between,
    le_int_trans (min_of (max_of a c) d) a b,
    le_int_trans c b d,
  )

  lower-v :
      (v : ℤ) → le_int a v ≡ true → le_int c v ≡ true → le_int (min_of (max_of a c) d) v ≡ true
  lower-v v h k =
      ground (
        arith,
        min_of_cases (max_of a c) d,
        max_of_cases a c,
        le_int_trans d a v,
        le_int_trans d c v,
      )

  upper-v :
      (v : ℤ) → le_int v b ≡ true → le_int v d ≡ true → le_int v (max_of (min_of b d) c) ≡ true
  upper-v v h k =
      ground (
        arith,
        max_of_cases (min_of b d) c,
        min_of_cases b d,
        le_int_trans v b c,
        le_int_trans v d c,
      )

  -- The limits coincide with those of the intersection, or with the near limit of the constraints.
  lower_own :
      (v : ℤ) → le_int a v ≡ true → le_int v d ≡ true → le_int a (min_of (max_of a c) d) ≡ true
  lower_own v h k =
      ground
        (arith, min_of_cases (max_of a c) d, max_of_cases a c, le_int_refl a, le_int_trans a v d)

  upper_own :
      (v : ℤ) → le_int v b ≡ true → le_int c v ≡ true → le_int (max_of (min_of b d) c) b ≡ true
  upper_own v h k =
      ground
        (arith, max_of_cases (min_of b d) c, min_of_cases b d, le_int_refl b, le_int_trans c v b)

  below : le_int c b ≡ false → (min_of (max_of a c) d ≡ c) × (max_of (min_of b d) c ≡ c)
  below h = ground (
    arith,
    min_of_cases (max_of a c) d,
    max_of_cases a c,
    max_of_cases (min_of b d) c,
    min_of_cases b d,
    le_int_total b c,
    le_int_trans a b c,
    le_int_trans b c d,
    le_int_antisym c d,
    le_int_antisym b c,
    le_int_antisym a c,
    le_int_antisym d c,
  )

  above : le_int a d ≡ false → (min_of (max_of a c) d ≡ d) × (max_of (min_of b d) c ≡ d)
  above h = ground (
    arith,
    min_of_cases (max_of a c) d,
    max_of_cases a c,
    max_of_cases (min_of b d) c,
    min_of_cases b d,
    le_int_total d a,
    le_int_trans d a b,
    le_int_trans c d a,
    le_int_antisym c d,
    le_int_antisym a c,
    le_int_antisym b d,
    le_int_antisym d c,
    le_int_antisym a d,
  )

module _ (self constr : MinMaxPair) (self_ok : le_int self.min self.max ≡ true)
    (constr_ok : le_int constr.min constr.max ≡ true) where
  -- On two pairs whose minimum is at most their maximum, applyConstraints passes its assertions and
  -- leaves such a pair, inside the constraints, that admits every value that both pairs admit; if
  -- there is such a value it is inside the first pair too, and if there is none both its limits are
  -- the limit of the constraints that is nearest to the first pair.
  pub contains-apply_constraints :
      (r : MinMaxPair) × (apply_constraints self constr ≡ some r)
      × (le_int r.min r.max ≡ true)
      × (contains constr r ≡ true)
      × ((v : ℤ) → validate self v ≡ true → validate constr v ≡ true → validate r v ≡ true)
      × ((v : ℤ) → validate self v ≡ true → validate constr v ≡ true → contains self r ≡ true)
      × (le_int constr.min self.max ≡ false → (r.min ≡ constr.min) × (r.max ≡ constr.min))
      × (le_int self.min constr.max ≡ false → (r.min ≡ constr.max) × (r.max ≡ constr.max))
  unfolding contains validate apply_constraints
  contains-apply_constraints =
      let (c_lower, lower_d) =
        lower-between self.min self.max constr.min constr.max self_ok constr_ok in
      let (c_upper, upper_d) =
        upper-between self.min self.max constr.min constr.max self_ok constr_ok in
      let fits = lower-upper self.min self.max constr.min constr.max self_ok constr_ok in
      (
        record {
          min = min_of (max_of self.min constr.min) constr.max;
          max = max_of (min_of self.max constr.max) constr.min;
        },
        rw (self_ok, constr_ok, fits) refl,
        fits,
        rw (c_lower, upper_d) refl,
        λ v h k.
            let low = lower-v self.min self.max constr.min constr.max self_ok constr_ok v in
            let high = upper-v self.min self.max constr.min constr.max self_ok constr_ok v in
            ground arith,
        λ v h k.
            let low = lower_own self.min self.max constr.min constr.max self_ok constr_ok v in
            let high = upper_own self.min self.max constr.min constr.max self_ok constr_ok v in
            ground arith,
        below self.min self.max constr.min constr.max self_ok constr_ok,
        above self.min self.max constr.min constr.max self_ok constr_ok,
      )

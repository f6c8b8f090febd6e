-- ===== src/MinMaxPair.antt =====
-- include/minerule/Utils/MinMaxPair.hpp: the bounds on the sizes of bodies and heads. `none` is a
-- failed assertion.
pub mod Bounds
use minerule.Prelude.{
  ℤ, pos, le_int, Bool, true, false, not, ◌&&◌, if◌then◌else◌, Option, none, some, guard, ◌>>=◌,
  ◌>>◌,
}

-- `class MinMaxPair`
pub record MinMaxPair : Type 0 where
  pub min : ℤ
  pub max : ℤ

-- `MinMaxPair(m, M)`
unfoldable pub make_pair : ℤ → ℤ → Option MinMaxPair
make_pair m n = do guard (le_int m n); some (record { min = m; max = n })

-- `_MIN` and `_MAX`; `m1 < m2` is the negation of `m2 <= m1`.
unfoldable pub min_of : ℤ → ℤ → ℤ
min_of m1 m2 = if not (le_int m2 m1) then m1 else m2

unfoldable pub max_of : ℤ → ℤ → ℤ
max_of m1 m2 = if not (le_int m1 m2) then m1 else m2

-- `applyConstraints`
unfoldable pub apply_constraints : MinMaxPair → MinMaxPair → Option MinMaxPair
apply_constraints self constr = do
  guard (le_int self.min self.max)
  guard (le_int constr.min constr.max)
  let min1 = min_of (max_of self.min constr.min) constr.max
  let max1 = max_of (min_of self.max constr.max) constr.min
  guard (le_int min1 max1)
  some (record { min = min1; max = max1 })

-- `validate` and `contains`
unfoldable pub validate : MinMaxPair → ℤ → Bool
validate p v = le_int p.min v && le_int v p.max

unfoldable pub contains : MinMaxPair → MinMaxPair → Bool
contains p mm = le_int p.min mm.min && le_int mm.max p.max

unfoldable pub set_default_max : MinMaxPair → MinMaxPair
set_default_max p = record p { max = pos 1000 }

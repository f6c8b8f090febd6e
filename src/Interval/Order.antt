-- ===== src/Interval/Order.antt =====
-- What the filter relies on in the order of the values of an attribute.
use Prim.Native.Nat.Ordering.{lt, eq, gt}
use minerule.Prelude.{◌≡◌, refl, Ordering, arith, Bool, true, [], ◌∷◌}
use minerule.Predicate.{Text, compare_text}
use minerule.Predicate.Pool.{eq_of_compare_text, lt_trans_text}
use minerule.SqlUtils.{SqlKind, numeric, string, binary, date_time, bit_kind}

abbrev pub swapped : Ordering → Ordering
swapped lt = gt
swapped eq = eq
swapped gt = lt

-- A total order on classes of texts.
pub record IsOrder (cmp : Text → Text → Ordering) : Type 0 where
  pub swap : (a b : Text) → cmp b a ≡ swapped (cmp a b)
  pub same : (a b c : Text) → cmp a b ≡ eq → cmp a c ≡ cmp b c
  pub trans : (a b c : Text) → cmp a b ≡ lt → cmp b c ≡ lt → cmp a c ≡ lt

compare_text-swap : (a b : Text) → compare_text b a ≡ swapped (compare_text a b)
unfolding compare_text
compare_text-swap [] [] = refl
compare_text-swap [] (y ∷ b) = refl
compare_text-swap (x ∷ a) [] = refl
compare_text-swap (x ∷ a) (y ∷ b) = ground (arith, compare_text-swap a b)

pub compare_text-IsOrder : IsOrder compare_text
compare_text-IsOrder = record {
  swap = compare_text-swap;
  same = λ a b c e. rw (eq_of_compare_text a b e) refl;
  trans = lt_trans_text;
}

-- The order on the values of a type, where `numeric_order` is that on numbers.
abbrev pub kind_order : (Text → Text → Ordering) → SqlKind → Text → Text → Ordering
kind_order numeric_order string = compare_text
kind_order numeric_order numeric = numeric_order
kind_order numeric_order binary = compare_text
kind_order numeric_order date_time = compare_text
kind_order numeric_order bit_kind = compare_text

-- The type has an order, and the value can be compared in it.
abbrev pub Comparable : (Text → Bool) → SqlKind → Text → Type 0
Comparable is_number string v = Unit {0}
Comparable is_number numeric v = is_number v ≡ true
Comparable is_number binary v = ⊥
Comparable is_number date_time v = ⊥
Comparable is_number bit_kind v = ⊥

pub kind_order-IsOrder :
    (numeric_order : Text → Text → Ordering) (t : SqlKind)
    → IsOrder numeric_order
    → IsOrder (kind_order numeric_order t)
kind_order-IsOrder numeric_order string h = compare_text-IsOrder
kind_order-IsOrder numeric_order numeric h = h
kind_order-IsOrder numeric_order binary h = compare_text-IsOrder
kind_order-IsOrder numeric_order date_time h = compare_text-IsOrder
kind_order-IsOrder numeric_order bit_kind h = compare_text-IsOrder

-- ===== src/Tests/Predicate.antt =====
-- Predicates over two simple predicates, and the theorems about them.
use minerule.Prelude.{◌≡◌, refl, Bool, some, [], ◌∷◌, ◌&&◌, arith, get_or, ◌==◌}
use minerule.VarSet.{VarSet}
use minerule.Bits.{bit}
use minerule.Predicate.{
  ParsedPred, Ref, Pool, Predicate, get_var_id, evaluate, or_with, and_with, new_simple_predicate,
  find, compare_text,
}
use minerule.Predicate.Pool.{Pooled, new_simple_predicate-Pooled}
use minerule.Predicate.Meaning.{holds, evaluate-holds, or_holds, holds-or_with}
use minerule.Predicate.Conjoin.{product, and_with-product, holds-and_with}

-- `a=1` and `b=2`
abbrev a_is_1 : ParsedPred
a_is_1 = record { val1 = b'a' ∷ []; op = b'=' ∷ []; val2 = b'1' ∷ [] }

abbrev b_is_2 : ParsedPred
b_is_2 = record { val1 = b'b' ∷ []; op = b'=' ∷ []; val2 = b'2' ∷ [] }

abbrev ref_a : Ref
ref_a = b'a' ∷ b'=' ∷ b'1' ∷ []

abbrev ref_b : Ref
ref_b = b'b' ∷ b'=' ∷ b'2' ∷ []

abbrev pool_a : Pool
pool_a = record { val1 = b'a' ∷ []; val2 = b'1' ∷ []; op = b'=' ∷ []; var_id = 0 } ∷ []

abbrev pool_ab : Pool
pool_ab =
    record { val1 = b'a' ∷ []; val2 = b'1' ∷ []; op = b'=' ∷ []; var_id = 0 }
    ∷ record { val1 = b'b' ∷ []; val2 = b'2' ∷ []; op = b'=' ∷ []; var_id = 1 }
    ∷ []

new_simple_predicate-Pooled_example :
    Pooled b_is_2 pool_a
      (new_simple_predicate b_is_2 pool_a).0
      (new_simple_predicate b_is_2 pool_a).1
new_simple_predicate-Pooled_example = new_simple_predicate-Pooled b_is_2 pool_a tt

-- `a=1 AND b=2 OR b=2`, in a configuration where only `b=2` is true.
abbrev both_or_b : Predicate
both_or_b = (ref_a ∷ ref_b ∷ []) ∷ (ref_b ∷ []) ∷ []

abbrev only_b : VarSet
only_b = record { vset = 2; vset_size = 2 }

abbrev b_true : Ref → Bool
b_true r = get_or r 0 0 == b'b'

evaluate-holds_example :
    evaluate (get_var_id pool_ab) only_b both_or_b ≡ some (holds b_true both_or_b)
unfolding get_var_id find compare_text bit
evaluate-holds_example = evaluate-holds (get_var_id pool_ab) only_b b_true both_or_b (
  ((0, refl, omega arith, refl), ((1, refl, omega arith, refl), tt)),
  (((1, refl, omega arith, refl), tt), tt),
)

and_with-product_example :
    and_with both_or_b ((ref_a ∷ []) ∷ (ref_b ∷ []) ∷ [])
    ≡ some (product both_or_b ((ref_a ∷ []) ∷ (ref_b ∷ []) ∷ []))
and_with-product_example = and_with-product both_or_b (ref_a ∷ []) ((ref_b ∷ []) ∷ []) (omega arith)

holds-and_with_example :
    (r : Predicate) × (and_with ((ref_a ∷ []) ∷ (ref_b ∷ []) ∷ []) ((ref_b ∷ []) ∷ []) ≡ some r)
    × (holds b_true r
        ≡ (holds b_true ((ref_a ∷ []) ∷ (ref_b ∷ []) ∷ []) && holds b_true ((ref_b ∷ []) ∷ [])))
holds-and_with_example =
    holds-and_with b_true (ref_a ∷ []) (ref_b ∷ []) ((ref_b ∷ []) ∷ []) [] (omega arith)

holds-or_with_example :
    holds b_true (or_with ((ref_a ∷ []) ∷ []) ((ref_b ∷ []) ∷ []))
    ≡ or_holds b_true ((ref_a ∷ []) ∷ []) ((ref_b ∷ []) ∷ [])
holds-or_with_example = holds-or_with b_true ((ref_a ∷ []) ∷ []) ((ref_b ∷ []) ∷ [])

-- ===== src/Predicate/Pool.antt =====
-- The pool of simple predicates: the order of its keys, and that building a predicate keeps every
-- object that was there.
use Prim.Native.Nat.Ordering.{lt, eq, gt}
use minerule.Prelude.{◌≡◌, refl, none, some, [], ◌∷◌, ◌++◌, arith, inl, inr, Option-cases}
use minerule.Predicate.{
  Text, compare_text, ParsedPred, SimplePredicate, simple, Ref, key, Pool, find, insert,
  new_simple_predicate,
}

pub compare_text_refl : (s : Text) → compare_text s s ≡ eq
unfolding compare_text
compare_text_refl [] = refl
compare_text_refl (a ∷ s) = ground (arith, compare_text_refl s)

pub eq_of_compare_text : (s t : Text) → compare_text s t ≡ eq → s ≡ t
unfolding compare_text
eq_of_compare_text [] [] h = refl
eq_of_compare_text [] (b ∷ t) h = ground arith
eq_of_compare_text (a ∷ s) [] h = ground arith
eq_of_compare_text (a ∷ s) (b ∷ t) h = ground (arith, eq_of_compare_text s t)

pub lt_of_gt_text : (s t : Text) → compare_text s t ≡ gt → compare_text t s ≡ lt
unfolding compare_text
lt_of_gt_text [] [] h = ground arith
lt_of_gt_text [] (b ∷ t) h = ground arith
lt_of_gt_text (a ∷ s) [] h = refl
lt_of_gt_text (a ∷ s) (b ∷ t) h = ground (arith, lt_of_gt_text s t)

pub gt_of_lt_text : (s t : Text) → compare_text s t ≡ lt → compare_text t s ≡ gt
unfolding compare_text
gt_of_lt_text [] [] h = ground arith
gt_of_lt_text [] (b ∷ t) h = refl
gt_of_lt_text (a ∷ s) [] h = ground arith
gt_of_lt_text (a ∷ s) (b ∷ t) h = ground (arith, gt_of_lt_text s t)

pub lt_trans_text :
    (s t u : Text) → compare_text s t ≡ lt → compare_text t u ≡ lt → compare_text s u ≡ lt
unfolding compare_text
lt_trans_text [] [] u h k = ground arith
lt_trans_text [] (b ∷ t) [] h k = ground arith
lt_trans_text [] (b ∷ t) (c ∷ u) h k = refl
lt_trans_text (a ∷ s) [] u h k = ground arith
lt_trans_text (a ∷ s) (b ∷ t) [] h k = ground arith
lt_trans_text (a ∷ s) (b ∷ t) (c ∷ u) h k = ground (arith, lt_trans_text s t u)

-- Keys rise along the pool, from above `r` on.
abbrev pub Above : Ref → Pool → Type 0
Above r [] = Unit {0}
Above r (s ∷ pool) = (compare_text r (key s) ≡ lt) × Above (key s) pool

abbrev pub IsOrdered : Pool → Type 0
IsOrdered [] = Unit {0}
IsOrdered (s ∷ pool) = Above (key s) pool

insert-Above :
    (r : Ref) (s : SimplePredicate) (pool : Pool)
    → compare_text r (key s) ≡ lt
    → Above r pool
    → Above r (insert s pool)
unfolding insert
insert-Above r s [] h a = (h, tt)
insert-Above r s (t ∷ pool) h a =
    ground (arith, lt_of_gt_text (key s) (key t), insert-Above (key t) s pool)

insert-IsOrdered : (s : SimplePredicate) (pool : Pool) → IsOrdered pool → IsOrdered (insert s pool)
unfolding insert
insert-IsOrdered s [] h = tt
insert-IsOrdered s (t ∷ pool) h =
    ground (arith, lt_of_gt_text (key s) (key t), insert-Above (key t) s pool)

find-insert_self :
    (s : SimplePredicate) (pool : Pool)
    → find (key s) pool ≡ none
    → find (key s) (insert s pool) ≡ some s
unfolding find insert
find-insert_self s [] h = ground (arith, compare_text_refl (key s))
find-insert_self s (t ∷ pool) h = ground (arith, compare_text_refl (key s), find-insert_self s pool)

find-insert_other :
    (q : Ref) (s t : SimplePredicate) (pool : Pool)
    → find (key s) pool ≡ none
    → find q pool ≡ some t
    → find q (insert s pool) ≡ some t
unfolding find insert
find-insert_other q s t [] h e = ground arith
find-insert_other q s t (u ∷ pool) h e = ground (
  arith,
  find-insert_other q s t pool,
  lt_of_gt_text q (key u),
  lt_trans_text (key s) (key u) q,
  gt_of_lt_text (key s) q,
  gt_of_lt_text (key s) (key u),
  eq_of_compare_text q (key u),
)

key-find : (r : Ref) (s : SimplePredicate) (pool : Pool) → find r pool ≡ some s → key s ≡ r
unfolding find
key-find r s [] h = ground arith
key-find r s (t ∷ pool) h = ground (arith, key-find r s pool, eq_of_compare_text r (key t))

-- What a call of `newSimplePredicate` leaves: an ordered pool, so no key twice; a pointer to an object
-- with the text of the request; and every object that was in the pool, unchanged.
pub record Pooled (p : ParsedPred) (pool : Pool) (r : Ref) (pool' : Pool) : Type 0 where
  pub ordered : IsOrdered pool'
  pub object : (s : SimplePredicate) × (find r pool' ≡ some s) × (key s ≡ p.val1 ++ p.op ++ p.val2)
  pub kept : (q : Ref) (s : SimplePredicate) → find q pool ≡ some s → find q pool' ≡ some s

new_missing :
    (p : ParsedPred) (pool : Pool)
    → find (key (simple p)) pool ≡ none
    → new_simple_predicate p pool ≡ (key (simple p), insert (simple p) pool)
unfolding new_simple_predicate
new_missing p pool e = rw (e, new_simple_predicate)

new_found :
    (p : ParsedPred) (pool : Pool) (s : SimplePredicate)
    → find (key (simple p)) pool ≡ some s
    → new_simple_predicate p pool ≡ (key s, pool)
unfolding new_simple_predicate
new_found p pool s e = rw (e, new_simple_predicate)

-- On an ordered pool, newSimplePredicate returns a pointer to an object with the text of the
-- request, keeps the pool ordered, and keeps every object that was in it.
pub new_simple_predicate-Pooled :
    (p : ParsedPred) (pool : Pool)
    → IsOrdered pool
    → Pooled p pool (new_simple_predicate p pool).0 (new_simple_predicate p pool).1
unfolding new_simple_predicate
new_simple_predicate-Pooled p pool h = elim (Option-cases (find (key (simple p)) pool)) [
  | inl e ↦ rw (new_missing p pool e) (record {
    ordered = insert-IsOrdered (simple p) pool h;
    object = (simple p, find-insert_self (simple p) pool e, refl);
    kept = λ q s. find-insert_other q (simple p) s pool e;
  })
  | inr (s, e) ↦
      let same : key s ≡ key (simple p) = key-find (key (simple p)) s pool e in
      rw (new_found p pool s e)
        (record { ordered = h; object = (s, rw same e, same); kept = λ q t f. f })
]

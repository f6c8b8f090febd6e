-- ===== src/PredicateUtils/Numbering.antt =====
-- The numbers that `CountingIterator` gives to the simple predicates.
use Prim.Native.Nat.Ordering.{lt}
use minerule.Prelude.{
  ℕ, ◌+◌, ◌≡◌, refl, ◌≢◌, some, List, [], ◌∷◌, length, arith, inl, inr, ◌∙◌, sym,
}
use minerule.Predicate.{
  Ref, Pool, ParsedPred, SimplePredicate, compare_text, find, set_var_id, get_var_id, key,
}
use minerule.Predicate.Pool.{compare_text_refl, eq_of_compare_text, lt_trans_text}
use minerule.PredicateUtils.{count_into, new_list_and_node}
use minerule.PredicateUtils.Sets.{In, Rises, Rising, Each}

-- The pointer leads to an object.
abbrev pub Pooled : Pool → Ref → Type 0
Pooled pool r = (s : SimplePredicate) × (find r pool ≡ some s)

find-set_var_id_self :
    (r : Ref) (id : ℕ) (s : SimplePredicate) (pool : Pool)
    → find r pool ≡ some s
    → find r (set_var_id r id pool) ≡ some (record s { var_id = id })
unfolding find set_var_id
find-set_var_id_self r id s [] h = ground arith
find-set_var_id_self r id s (t ∷ pool) h = ground (arith, find-set_var_id_self r id s pool)

find-set_var_id_other :
    (q r : Ref) (id : ℕ) (pool : Pool) → q ≢ r → find q (set_var_id r id pool) ≡ find q pool
unfolding find set_var_id
find-set_var_id_other q r id [] h = refl
find-set_var_id_other q r id (t ∷ pool) h = ground (
  arith,
  find-set_var_id_other q r id pool,
  eq_of_compare_text q (key t),
  eq_of_compare_text r (key t),
)

Pooled-set_var_id :
    (q r : Ref) (id : ℕ) (pool : Pool) → q ≢ r → Pooled pool q → Pooled (set_var_id r id pool) q
Pooled-set_var_id q r id pool h (s, e) = (s, find-set_var_id_other q r id pool h ∙ e)

-- A pointer below a rising list is not in it.
pub Rises-lt : (b q : Ref) (xs : List Ref) → Rises b xs → In q xs → compare_text b q ≡ lt
Rises-lt b q [] h k = elim k [ ]
Rises-lt b q (x ∷ xs) h (inl same) = rw same h.0
Rises-lt b q (x ∷ xs) h (inr k) = lt_trans_text b x q h.0 (Rises-lt x q xs h.1 k)

Rises-ne : (b q : Ref) (xs : List Ref) → Rises b xs → In q xs → b ≢ q
Rises-ne b q xs h k e = ground (arith, Rises-lt b q xs h k, compare_text_refl b)

pub Rises-Rising : (b : Ref) (xs : List Ref) → Rises b xs → Rising xs
Rises-Rising b [] h = tt
Rises-Rising b (x ∷ xs) h = h.1

Each-set_var_id :
    (b : Ref) (id : ℕ) (pool : Pool) (xs : List Ref)
    → ((q : Ref) → In q xs → b ≢ q)
    → Each (Pooled pool) xs
    → Each (Pooled (set_var_id b id pool)) xs
Each-set_var_id b id pool [] h k = tt
Each-set_var_id b id pool (x ∷ xs) h k = (
  Pooled-set_var_id x b id pool (λ e. h x (inl refl) (sym e)) k.0,
  Each-set_var_id b id pool xs (λ q m. h q (inr m)) k.1,
)

-- The pointers of `xs` have the ids from `i` on, in order.
abbrev pub Numbered : Pool → ℕ → List Ref → Type 0
Numbered pool i [] = Unit {0}
Numbered pool i (x ∷ xs) = (get_var_id pool x ≡ some i) × Numbered pool (i + 1) xs

-- What the numbering of `xs` from `i` leaves.
pub record Counted (xs : List Ref) (i : ℕ) (pool : Pool) (l : List ParsedPred) : Type 0 where
  pub pool' : Pool
  pub list' : List ParsedPred
  pub counted : count_into xs i pool l ≡ some (i + length xs, pool', list')
  pub numbered : Numbered pool' i xs
  pub others : (q : Ref) → ¬ In q xs → find q pool' ≡ find q pool

count_into-cons :
    (x : Ref) (xs : List Ref) (i : ℕ) (pool : Pool) (l : List ParsedPred) (s : SimplePredicate)
    → find x pool ≡ some s
    → count_into (x ∷ xs) i pool l
      ≡ count_into xs (i + 1) (set_var_id x i pool) (new_list_and_node s l)
unfolding count_into
count_into-cons x xs i pool l s e = rw e

-- Over a rising list of pointers to objects of the pool, the numbering succeeds, gives the pointers
-- consecutive ids in order, and leaves every other object as it was.
pub count_into-Counted :
    (xs : List Ref) (i : ℕ) (pool : Pool) (l : List ParsedPred)
    → Rising xs
    → Each (Pooled pool) xs
    → Counted xs i pool l
count_into-Counted [] i pool l h k = record {
  pool' = pool;
  list' = l;
  counted = unfold count_into in (let same : i ≡ i + 0 = omega arith in rw (← same));
  numbered = tt;
  others = λ q n. refl;
}
count_into-Counted (x ∷ xs) i pool l h ((s, e), k) =
    let pool1 = set_var_id x i pool in
    let rest =
      count_into-Counted xs (i + 1) pool1 (new_list_and_node s l) (Rises-Rising x xs h)
        (Each-set_var_id x i pool xs (λ q m. Rises-ne x q xs h m) k) in
    record {
      pool' = rest.pool';
      list' = rest.list';
      counted =
          count_into-cons x xs i pool l s e
          ∙ rest.counted
          ∙ (let same : i + 1 + length xs ≡ i + length (x ∷ xs) = omega arith in rw same);
      numbered = (
        id_here x i rest.pool' (record s { var_id = i })
            (rest.others x (λ m. Rises-ne x x xs h m refl) ∙ find-set_var_id_self x i s pool e),
        rest.numbered,
      );
      others =
          λ q n. rest.others q (λ m. n (inr m)) ∙ find-set_var_id_other q x i pool (λ m. n (inl m));
    }
  where
    id_here :
        (r : Ref) (i : ℕ) (p : Pool) (t : SimplePredicate)
        → find r p ≡ some t
        → get_var_id p r ≡ some t.var_id
    id_here r i p t f = unfold get_var_id in rw f

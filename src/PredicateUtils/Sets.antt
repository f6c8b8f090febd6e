-- ===== src/PredicateUtils/Sets.antt =====
-- The sets of pointers and their union: ordered, and with every pointer of the predicates.
use Prim.Native.Nat.Ordering.{lt}
use minerule.Prelude.{◌≡◌, refl, List, [], ◌∷◌, arith, ◌⊎◌, inl, inr, ◌↔◌, sym}
use mathlib.Core.Path.{subst}
use minerule.Predicate.{Ref, PredConjunction, Predicate, compare_text}
use minerule.Predicate.Pool.{eq_of_compare_text, lt_of_gt_text}
use minerule.PredicateUtils.{
  insert_ref, insert_conjunction, insert_predicate, get_predicate_list, set_union,
}

abbrev pub In : Ref → List Ref → Type 0
In r [] = ⊥
In r (x ∷ xs) = (r ≡ x) ⊎ In r xs

-- A strictly rising list, from above `r` on.
abbrev pub Rises : Ref → List Ref → Type 0
Rises r [] = Unit {0}
Rises r (x ∷ xs) = (compare_text r x ≡ lt) × Rises x xs

abbrev pub Rising : List Ref → Type 0
Rising [] = Unit {0}
Rising (x ∷ xs) = Rises x xs

In-insert_ref : (r : Ref) (xs : List Ref) → In r (insert_ref r xs)
unfolding insert_ref
In-insert_ref r [] = inl refl
In-insert_ref r (x ∷ xs) = ground (arith, In-insert_ref r xs, eq_of_compare_text r x)

In-insert_ref_other : (q r : Ref) (xs : List Ref) → In q xs → In q (insert_ref r xs)
unfolding insert_ref
In-insert_ref_other q r [] h = elim h [ ]
In-insert_ref_other q r (x ∷ xs) h = ground (arith, In-insert_ref_other q r xs)

insert_ref-Rises :
    (b r : Ref) (xs : List Ref) → compare_text b r ≡ lt → Rises b xs → Rises b (insert_ref r xs)
unfolding insert_ref
insert_ref-Rises b r [] h k = (h, tt)
insert_ref-Rises b r (x ∷ xs) h k = ground (arith, lt_of_gt_text r x, insert_ref-Rises x r xs)

insert_ref-Rising : (r : Ref) (xs : List Ref) → Rising xs → Rising (insert_ref r xs)
unfolding insert_ref
insert_ref-Rising r [] h = tt
insert_ref-Rising r (x ∷ xs) h = ground (arith, lt_of_gt_text r x, insert_ref-Rises x r xs)

insert_conjunction-Rising :
    (c : PredConjunction) (acc : List Ref) → Rising acc → Rising (insert_conjunction c acc)
unfolding insert_conjunction
insert_conjunction-Rising [] acc h = h
insert_conjunction-Rising (r ∷ rs) acc h =
    insert_conjunction-Rising rs (insert_ref r acc) (insert_ref-Rising r acc h)

In-insert_conjunction :
    (q : Ref) (c : PredConjunction) (acc : List Ref)
    → In q c ⊎ In q acc
    → In q (insert_conjunction c acc)
unfolding insert_conjunction
In-insert_conjunction q [] acc (inl h) = elim h [ ]
In-insert_conjunction q [] acc (inr h) = h
In-insert_conjunction q (r ∷ rs) acc (inl (inl e)) =
    In-insert_conjunction q rs (insert_ref r acc) (inr (rw e (In-insert_ref r acc)))
In-insert_conjunction q (r ∷ rs) acc (inl (inr h)) =
    In-insert_conjunction q rs (insert_ref r acc) (inl h)
In-insert_conjunction q (r ∷ rs) acc (inr h) =
    In-insert_conjunction q rs (insert_ref r acc) (inr (In-insert_ref_other q r acc h))

-- Every pointer of the predicate satisfies `P`.
abbrev pub Each : (Ref → Type 0) → List Ref → Type 0
Each P [] = Unit {0}
Each P (r ∷ rs) = P r × Each P rs

abbrev pub EachOf : (Ref → Type 0) → Predicate → Type 0
EachOf P [] = Unit {0}
EachOf P (c ∷ cs) = Each P c × EachOf P cs

insert_predicate-Rising :
    (p : Predicate) (acc : List Ref) → Rising acc → Rising (insert_predicate p acc)
unfolding insert_predicate
insert_predicate-Rising [] acc h = h
insert_predicate-Rising (c ∷ cs) acc h =
    insert_predicate-Rising cs (insert_conjunction c acc) (insert_conjunction-Rising c acc h)

In-insert_predicate_old :
    (q : Ref) (p : Predicate) (acc : List Ref) → In q acc → In q (insert_predicate p acc)
unfolding insert_predicate
In-insert_predicate_old q [] acc h = h
In-insert_predicate_old q (c ∷ cs) acc h =
    In-insert_predicate_old q cs (insert_conjunction c acc) (In-insert_conjunction q c acc (inr h))

Each-In : (c xs : List Ref) → ((q : Ref) → In q c → In q xs) → Each (λ r. In r xs) c
Each-In [] xs h = tt
Each-In (r ∷ rs) xs h = (h r (inl refl), Each-In rs xs (λ q k. h q (inr k)))

insert_predicate-EachOf :
    (p : Predicate) (acc : List Ref) → EachOf (λ r. In r (insert_predicate p acc)) p
unfolding insert_predicate
insert_predicate-EachOf [] acc = tt
insert_predicate-EachOf (c ∷ cs) acc = (
  Each-In c _ (λ q h.
      In-insert_predicate_old q cs (insert_conjunction c acc)
        (In-insert_conjunction q c acc (inl h))),
  insert_predicate-EachOf cs (insert_conjunction c acc),
)

module _ (P : Ref → Type 0) where
  insert_ref-Each : (r : Ref) (xs : List Ref) → P r → Each P xs → Each P (insert_ref r xs)
  unfolding insert_ref
  insert_ref-Each r [] h k = (h, tt)
  insert_ref-Each r (x ∷ xs) h k = ground (arith, insert_ref-Each r xs)

  insert_conjunction-Each :
      (c acc : List Ref) → Each P c → Each P acc → Each P (insert_conjunction c acc)
  unfolding insert_conjunction
  insert_conjunction-Each [] acc h k = k
  insert_conjunction-Each (r ∷ rs) acc h k =
      insert_conjunction-Each rs (insert_ref r acc) h.1 (insert_ref-Each r acc h.0 k)

  insert_predicate-Each :
      (p : Predicate) (acc : List Ref) → EachOf P p → Each P acc → Each P (insert_predicate p acc)
  unfolding insert_predicate
  insert_predicate-Each [] acc h k = k
  insert_predicate-Each (c ∷ cs) acc h k =
      insert_predicate-Each cs (insert_conjunction c acc) h.1 (insert_conjunction-Each c acc h.0 k)

  set_union-Each : (xs ys : List Ref) → Each P xs → Each P ys → Each P (set_union xs ys)
  unfolding set_union
  set_union-Each [] ys h k = k
  set_union-Each (x ∷ xs) [] h k = h
  set_union-Each (x ∷ xs) (y ∷ ys) h k = ground (
    arith,
    set_union-Each xs (y ∷ ys) h.1 k,
    set_union-Each xs ys h.1 k.1,
    set_union-Each (x ∷ xs) ys h k.1,
  )

set_union-Rises : (b : Ref) (xs ys : List Ref) → Rises b xs → Rises b ys → Rises b (set_union xs ys)
unfolding set_union
set_union-Rises b [] ys h k = k
set_union-Rises b (x ∷ xs) [] h k = h
set_union-Rises b (x ∷ xs) (y ∷ ys) h k = ground (
  arith,
  set_union-Rises x xs (y ∷ ys) h.1,
  set_union-Rises x xs ys h.1,
  set_union-Rises y (x ∷ xs) ys,
  lt_of_gt_text x y,
  eq_of_compare_text x y,
)

set_union-Rising : (xs ys : List Ref) → Rising xs → Rising ys → Rising (set_union xs ys)
unfolding set_union
set_union-Rising [] ys h k = k
set_union-Rising (x ∷ xs) [] h k = h
set_union-Rising (x ∷ xs) (y ∷ ys) h k = ground (
  arith,
  set_union-Rises x xs (y ∷ ys) h,
  set_union-Rises x xs ys h,
  set_union-Rises y (x ∷ xs) ys,
  lt_of_gt_text x y,
  eq_of_compare_text x y,
)

In-set_union_left : (q : Ref) (xs ys : List Ref) → In q xs → In q (set_union xs ys)
unfolding set_union
In-set_union_left q [] ys h = elim h [ ]
In-set_union_left q (x ∷ xs) [] h = h
In-set_union_left q (x ∷ xs) (y ∷ ys) h = ground (
  arith,
  In-set_union_left q xs (y ∷ ys),
  In-set_union_left q xs ys,
  In-set_union_left q (x ∷ xs) ys h,
)

In-set_union_right : (q : Ref) (xs ys : List Ref) → In q ys → In q (set_union xs ys)
unfolding set_union
In-set_union_right q [] ys h = h
In-set_union_right q (x ∷ xs) [] h = elim h [ ]
In-set_union_right q (x ∷ xs) (y ∷ ys) h = ground (
  arith,
  eq_of_compare_text x y,
  In-set_union_right q xs (y ∷ ys) h,
  In-set_union_right q xs ys,
  In-set_union_right q (x ∷ xs) ys,
)

Each-imp : (P Q : Ref → Type 0) (c : List Ref) → ((r : Ref) → P r → Q r) → Each P c → Each Q c
Each-imp P Q [] f h = tt
Each-imp P Q (r ∷ rs) f h = (f r h.0, Each-imp P Q rs f h.1)

EachOf-imp :
    (P Q : Ref → Type 0) (p : Predicate) → ((r : Ref) → P r → Q r) → EachOf P p → EachOf Q p
EachOf-imp P Q [] f h = tt
EachOf-imp P Q (c ∷ cs) f h = (Each-imp P Q c f h.0, EachOf-imp P Q cs f h.1)

-- All the simple predicates of two predicates, as the code collects them.
abbrev pub all_of : Predicate → Predicate → List Ref
all_of p1 p2 = set_union (get_predicate_list p1) (get_predicate_list p2)

pub all_of-Rising : (p1 p2 : Predicate) → Rising (all_of p1 p2)
unfolding get_predicate_list
all_of-Rising p1 p2 =
    set_union-Rising (insert_predicate p1 []) (insert_predicate p2 [])
      (insert_predicate-Rising p1 [] tt) (insert_predicate-Rising p2 [] tt)

pub all_of-Each :
    (P : Ref → Type 0) (p1 p2 : Predicate) → EachOf P p1 → EachOf P p2 → Each P (all_of p1 p2)
unfolding get_predicate_list
all_of-Each P p1 p2 h k =
    set_union-Each P (insert_predicate p1 []) (insert_predicate p2 [])
      (insert_predicate-Each P p1 [] h tt) (insert_predicate-Each P p2 [] k tt)

pub EachOf-all_of_first : (p1 p2 : Predicate) → EachOf (λ r. In r (all_of p1 p2)) p1
unfolding get_predicate_list
EachOf-all_of_first p1 p2 =
    EachOf-imp (λ r. In r (insert_predicate p1 [])) (λ r. In r (all_of p1 p2)) p1
      (λ r. In-set_union_left r (insert_predicate p1 []) (insert_predicate p2 []))
      (insert_predicate-EachOf p1 [])

pub EachOf-all_of_second : (p1 p2 : Predicate) → EachOf (λ r. In r (all_of p1 p2)) p2
unfolding get_predicate_list
EachOf-all_of_second p1 p2 =
    EachOf-imp (λ r. In r (insert_predicate p2 [])) (λ r. In r (all_of p1 p2)) p2
      (λ r. In-set_union_right r (insert_predicate p1 []) (insert_predicate p2 []))
      (insert_predicate-EachOf p2 [])

-- The simple predicate stands in some conjunction of the predicate.
abbrev pub Occurs : Ref → Predicate → Type 0
Occurs r [] = ⊥
Occurs r (c ∷ cs) = In r c ⊎ Occurs r cs

Each-apply : (P : Ref → Type 0) (r : Ref) (xs : List Ref) → Each P xs → In r xs → P r
Each-apply P r [] h k = elim k [ ]
Each-apply P r (x ∷ xs) h (inl e) = subst P (sym e) h.0
Each-apply P r (x ∷ xs) h (inr k) = Each-apply P r xs h.1 k

EachOf-apply : (P : Ref → Type 0) (r : Ref) (p : Predicate) → EachOf P p → Occurs r p → P r
EachOf-apply P r [] h k = elim k [ ]
EachOf-apply P r (c ∷ cs) h (inl k) = Each-apply P r c h.0 k
EachOf-apply P r (c ∷ cs) h (inr k) = EachOf-apply P r cs h.1 k

Each-self : (c : List Ref) → Each (λ r. In r c) c
Each-self c = Each-In c c (λ q h. h)

EachOf-Occurs : (p : Predicate) → EachOf (λ r. Occurs r p) p
EachOf-Occurs [] = tt
EachOf-Occurs (c ∷ cs) = (
  Each-imp (λ r. In r c) (λ r. Occurs r (c ∷ cs)) c (λ r. inl) (Each-self c),
  EachOf-imp (λ r. Occurs r cs) (λ r. Occurs r (c ∷ cs)) cs (λ r. inr) (EachOf-Occurs cs),
)

-- The union of the sets of simple predicates of two predicates is strictly rising, so that no
-- simple predicate is numbered twice, and its members are exactly the simple predicates that stand
-- in some conjunction of one of the two.
pub all_of-Occurs :
    (p1 p2 : Predicate)
    → Rising (all_of p1 p2) × ((r : Ref) → In r (all_of p1 p2) ↔ (Occurs r p1 ⊎ Occurs r p2))
all_of-Occurs p1 p2 =
    let P : Ref → Type 0 = λ r. Occurs r p1 ⊎ Occurs r p2 in
    let only =
      all_of-Each P p1 p2 (EachOf-imp (λ r. Occurs r p1) P p1 (λ r. inl) (EachOf-Occurs p1))
        (EachOf-imp (λ r. Occurs r p2) P p2 (λ r. inr) (EachOf-Occurs p2)) in
    (all_of-Rising p1 p2, λ r. (Each-apply P r (all_of p1 p2) only, found r))
  where
    found : (r : Ref) → Occurs r p1 ⊎ Occurs r p2 → In r (all_of p1 p2)
    found r (inl k) = EachOf-apply (λ q. In q (all_of p1 p2)) r p1 (EachOf-all_of_first p1 p2) k
    found r (inr k) = EachOf-apply (λ q. In q (all_of p1 p2)) r p2 (EachOf-all_of_second p1 p2) k

-- ===== src/FsTree/Growth.antt =====
-- What `appendChild` and `insertTree` do to the tree: each node is found by its path from the root,
-- and an insertion counts once every prefix of the sequence.
use minerule.Prelude.{
  ℕ, zero, suc, ◌+◌, ◌<◌, ◌≡◌, refl, sym, ap, ◌∙◌, arith, true, false, ◌==◌, ==_iff, none, some,
  List, [], ◌∷◌, ◌++◌, length, get_elem?, set, length-set, length-append, ◌⊎◌, inl, inr, Bool-cases,
  get_elem?-set_same, get_elem?-set_other, get_elem?-set_cases, ℕ_discrete, get_elem?-append,
  get_elem?-append_last, get_elem?-append_cases, get_elem?-lt, get_elem?-same,
}
use mathlib.Core.Path.{subst}
use minerule.FsTreeSequence.{Item, Seq, SeqMap}
use minerule.FsTree.{Node, find_child, linked}
use minerule.FsTree.Sums.{listed, deep, deep_sum, deep_sum-append, weigh, weigh-append, weigh-set}

abbrev pub In : ℕ → List ℕ → Type 0
In c [] = ⊥
In c (d ∷ ds) = (c ≡ d) ⊎ In c ds

In-append : (c e : ℕ) (ds : List ℕ) → In c (ds ++ e ∷ []) → In c ds ⊎ (c ≡ e)
In-append c e [] (inl h) = inr h
In-append c e [] (inr h) = elim h [ ]
In-append c e (d ∷ ds) (inl h) = inl (inl h)
In-append c e (d ∷ ds) (inr h) = elim (In-append c e ds h) [ inl k ↦ inl (inr k) | inr k ↦ inr k ]

-- The mark of a node: its labels up to the root, which is 0 and has the empty mark.
abbrev pub Marked : List Seq → ℕ → Node → Type 0
Marked marks i nod =
    ((i ≡ 0) × (get_elem? marks i ≡ some []))
    ⊎ ((p : Seq) × (get_elem? marks nod.parent ≡ some p)
        × (get_elem? marks i ≡ some (nod.label ∷ p))
        × (nod.parent < i))

-- A tree, with the marks of its nodes.
pub record Grown (heap : List Node) (m_list : SeqMap (List ℕ)) (marks : List Seq) : Type 0 where
  pub sized : length marks ≡ length heap
  pub rooted : get_elem? marks 0 ≡ some []
  pub marked : (i : ℕ) (nod : Node) → get_elem? heap i ≡ some nod → Marked marks i nod
  pub kids :
      (r c : ℕ) (nod : Node)
      → get_elem? heap r ≡ some nod
      → In c nod.child
      → (kid : Node) × (get_elem? heap c ≡ some kid) × (kid.parent ≡ r) × (0 < c)
  pub listing : (w : ℕ → ℕ) → listed w m_list ≡ deep_sum w marks 0

pub get_elem?-reached :
    {A B : Type 0} (xs : List A) (ys : List B) (i : ℕ) (y : B)
    → length ys ≡ length xs
    → get_elem? ys i ≡ some y
    → (x : A) × (get_elem? xs i ≡ some x)
get_elem?-reached [] [] i y e h = cc
get_elem?-reached [] (z ∷ ys) i y e h = ground arith
get_elem?-reached (x ∷ xs) [] i y e h = cc
get_elem?-reached (x ∷ xs) (z ∷ ys) zero y e h = (x, refl)
get_elem?-reached (x ∷ xs) (z ∷ ys) (suc i) y e h = get_elem?-reached xs ys i y (omega (arith, e)) h

-- Whether a child has the label.
abbrev pub FoundChild : List Node → List ℕ → Item → Type 0
FoundChild heap ve t =
    (find_child heap ve t ≡ some none)
    ⊎ ((c : ℕ) × (kid : Node) × In c ve
        × (get_elem? heap c ≡ some kid)
        × (kid.label ≡ t)
        × (find_child heap ve t ≡ some (some c)))

module _ (heap : List Node) (c : ℕ) (ve : List ℕ) (kid : Node) (t : Item) where
  find_child-here :
      get_elem? heap c ≡ some kid
      → (kid.label == t) ≡ true
      → find_child heap (c ∷ ve) t ≡ some (some c)
  unfolding find_child
  find_child-here h e = ground (arith, h)

  find_child-later :
      get_elem? heap c ≡ some kid
      → (kid.label == t) ≡ false
      → find_child heap (c ∷ ve) t ≡ find_child heap ve t
  unfolding find_child
  find_child-later h e = ground (arith, h)

pub find_child-FoundChild :
    (heap : List Node) (ve : List ℕ) (t : Item)
    → ((c : ℕ) → In c ve → (kid : Node) × (get_elem? heap c ≡ some kid))
    → FoundChild heap ve t
unfolding find_child
find_child-FoundChild heap [] t h = inl refl
find_child-FoundChild heap (c ∷ ve) t h =
    let (kid, e) = h c (inl refl) in
    step kid e (Bool-cases (kid.label == t)) (find_child-FoundChild heap ve t (λ d k. h d (inr k)))
  where
    step :
        (kid : Node)
        → get_elem? heap c ≡ some kid
        → ((kid.label == t) ≡ true) ⊎ ((kid.label == t) ≡ false)
        → FoundChild heap ve t
        → FoundChild heap (c ∷ ve) t
    step kid e (inl same) later =
        inr
          (c, kid, inl refl, e, (==_iff kid.label t).0 same, find_child-here heap c ve kid t e same)
    step kid e (inr other) (inl none_there) =
        inl (find_child-later heap c ve kid t e other ∙ none_there)
    step kid e (inr other) (inr (d, nod, there, at, label, found)) =
        inr (d, nod, inr there, at, label, find_child-later heap c ve kid t e other ∙ found)

Marked-same :
    (marks : List Seq) (i : ℕ) (a b : Node)
    → a.label ≡ b.label
    → a.parent ≡ b.parent
    → Marked marks i a
    → Marked marks i b
Marked-same marks i a b e f (inl h) = inl h
Marked-same marks i a b e f (inr (p, h, k, l)) = inr (
  p,
  subst (λ q. get_elem? marks q ≡ some p) f h,
  subst (λ x. get_elem? marks i ≡ some (x ∷ p)) e k,
  subst (λ q. q < i) f l,
)

-- A node whose label and parent stay is replaced.
module _ (heap : List Node) (marks : List Seq) (c : ℕ) (nod now : Node)
    (h : get_elem? heap c ≡ some nod) (same_label : nod.label ≡ now.label)
    (same_parent : nod.parent ≡ now.parent) where
  Marked-set :
      ((i : ℕ) (m : Node) → get_elem? heap i ≡ some m → Marked marks i m)
      → (i : ℕ) (m : Node) → get_elem? (set heap c now) i ≡ some m
      → Marked marks i m
  Marked-set old i m e = elim (get_elem?-set_cases heap c i now m e) [
    | inl (at, is) ↦
        subst (λ j. Marked marks j m) (sym at)
          (Marked-same marks c nod m (same_label ∙ ap (λ n. n.label) (sym is))
            (same_parent ∙ ap (λ n. n.parent) (sym is)) (old c nod h))
    | inr e' ↦ old i m e'
  ]

  parent-set :
      (i : ℕ) (m : Node)
      → get_elem? heap i ≡ some m
      → (m' : Node) × (get_elem? (set heap c now) i ≡ some m') × (m'.parent ≡ m.parent)
  parent-set i m e = elim (ℕ_discrete c i) [
    | yes at ↦ (
      now,
      subst (λ j. get_elem? (set heap c now) j ≡ some now) at (get_elem?-set_same heap c nod now h),
      sym same_parent
          ∙ ap (λ n. n.parent)
              (get_elem?-same (get_elem? heap i) nod m
                (subst (λ j. get_elem? heap j ≡ some nod) at h) e),
    )
    | no other ↦ (m, get_elem?-set_other heap c i now other ∙ e, refl)
  ]

-- One more sequence passes through the node `c`.
pub counted-Grown :
    (heap : List Node) (m_list : SeqMap (List ℕ)) (marks : List Seq) (c : ℕ) (nod : Node)
    → get_elem? heap c ≡ some nod
    → Grown heap m_list marks
    → Grown (set heap c (record nod { count = nod.count + 1 })) m_list marks
counted-Grown heap m_list marks c nod h g =
    let now : Node = record nod { count = nod.count + 1 } in
    let same_child : (r : ℕ) (m : Node)
        → get_elem? (set heap c now) r ≡ some m
        → (was : Node) × (get_elem? heap r ≡ some was) × (was.child ≡ m.child) =
      λ r m e. elim (get_elem?-set_cases heap c r now m e) [
        | inl (at, is) ↦
            (nod, subst (λ j. get_elem? heap j ≡ some nod) (sym at) h, ap (λ n. n.child) (sym is))
        | inr e' ↦ (m, e', refl)
      ] in
    record {
      sized = g.sized ∙ sym (length-set heap c now);
      rooted = g.rooted;
      marked = Marked-set heap marks c nod now h refl refl g.marked;
      kids = λ r d m e k.
          let (was, e', child) = same_child r m e in
          let (kid, f, par, pos) = g.kids r d was e' (subst (λ l. In d l) (sym child) k) in
          let (kid', f', par') = parent-set heap marks c nod now h refl refl d kid f in
          (kid', f', par' ∙ par, pos);
      listing = g.listing;
    }

Marked-append :
    (marks : List Seq) (q : Seq) (i : ℕ) (m : Node)
    → Marked marks i m
    → Marked (marks ++ q ∷ []) i m
Marked-append marks q i m (inl (e, h)) = inl (e, get_elem?-append marks (q ∷ []) i [] h)
Marked-append marks q i m (inr (p, h, k, l)) = inr (
  p,
  get_elem?-append marks (q ∷ []) m.parent p h,
  get_elem?-append marks (q ∷ []) i (m.label ∷ p) k,
  l,
)

zero_add : {a b : ℕ} → a ≡ b → 0 + a ≡ b
zero_add h = omega (arith, h)

-- A node with the label `t` is created below the node `r`.
module _ (heap : List Node) (m_list m_list' : SeqMap (List ℕ)) (marks : List Seq) (r : ℕ)
    (nod : Node) (t : Item) (p : Seq) (h : get_elem? heap r ≡ some nod)
    (at : get_elem? marks r ≡ some p) (g : Grown heap m_list marks) where
  abbrev extended : Node
  extended = record nod { child = nod.child ++ length heap ∷ [] }

  abbrev fresh : Node
  fresh = record { label = t; count = 1; parent = r; child = [] }

  linked-Marked :
      (i : ℕ) (m : Node)
      → get_elem? (linked heap r nod t) i ≡ some m
      → Marked (marks ++ (t ∷ p) ∷ []) i m
  unfolding linked
  linked-Marked i m e = elim (get_elem?-append_cases (set heap r extended) fresh m i e) [
    | inl e' ↦
        Marked-append marks (t ∷ p) i m
          (Marked-set heap marks r nod extended h refl refl g.marked i m e')
    | inr (last, is) ↦
        let place : i ≡ length marks = last ∙ length-set heap r extended ∙ sym g.sized in
        let marked : Marked (marks ++ (t ∷ p) ∷ []) i fresh = inr (
          p,
          get_elem?-append marks ((t ∷ p) ∷ []) r p at,
          subst (λ j. get_elem? (marks ++ (t ∷ p) ∷ []) j ≡ some (t ∷ p)) (sym place)
              (get_elem?-append_last marks (t ∷ p)),
          omega (arith, place, get_elem?-lt marks r p at),
        ) in
        subst (λ n. Marked (marks ++ (t ∷ p) ∷ []) i n) (sym is) marked
  ]

  abbrev HasKid : ℕ → ℕ → Type 0
  HasKid s c =
      (kid : Node) × (get_elem? (linked heap r nod t) c ≡ some kid) × (kid.parent ≡ s) × (0 < c)

  old_kid : (s c : ℕ) (m : Node) → get_elem? heap s ≡ some m → In c m.child → HasKid s c
  unfolding linked
  old_kid s c m e k =
      let (kid, f, par, pos) = g.kids s c m e k in
      let (kid', f', par') = parent-set heap marks r nod extended h refl refl c kid f in
      (kid', get_elem?-append (set heap r extended) (fresh ∷ []) c kid' f', par' ∙ par, pos)

  new_kid : HasKid r (length heap)
  unfolding linked
  new_kid = (
    fresh,
    subst (λ j. get_elem? (set heap r extended ++ fresh ∷ []) j ≡ some fresh)
        (length-set heap r extended) (get_elem?-append_last (set heap r extended) fresh),
    refl,
    omega (arith, get_elem?-lt heap r nod h),
  )

  kid_below : (c : ℕ) → In c (nod.child ++ length heap ∷ []) → HasKid r c
  kid_below c k = elim (In-append c (length heap) nod.child k) [
    | inl k' ↦ old_kid r c nod h k'
    | inr e ↦ subst (λ d. HasKid r d) (sym e) new_kid
  ]

  linked-kids :
      (s c : ℕ) (m : Node) → get_elem? (linked heap r nod t) s ≡ some m → In c m.child → HasKid s c
  unfolding linked
  linked-kids s c m e k = elim (get_elem?-append_cases (set heap r extended) fresh m s e) [
    | inl e' ↦ elim (get_elem?-set_cases heap r s extended m e') [
      | inl (place, is) ↦
          subst (λ j. HasKid j c) (sym place) (kid_below c (subst (λ n. In c n.child) is k))
      | inr e'' ↦ old_kid s c m e'' k
    ]
    | inr (last, is) ↦ absurd (subst (λ n. In c n.child) is k)
  ]

  pub linked-Grown :
      ((w : ℕ → ℕ) → listed w m_list' ≡ listed w m_list + deep (t ∷ p) (w (length heap)))
      → Grown (linked heap r nod t) m_list' (marks ++ (t ∷ p) ∷ [])
  unfolding linked
  linked-Grown added = record {
    sized =
        length-append marks ((t ∷ p) ∷ [])
        ∙ omega (
          arith,
          g.sized,
          length-append (set heap r extended) (fresh ∷ []),
          length-set heap r extended,
        );
    rooted = get_elem?-append marks ((t ∷ p) ∷ []) 0 [] g.rooted;
    marked = linked-Marked;
    kids = linked-kids;
    listing = λ w.
        added w
        ∙ omega (
          arith,
          g.listing w,
          deep_sum-append w marks (t ∷ p) 0,
          ap (λ j. deep (t ∷ p) (w j)) (zero_add g.sized),
        );
  }

  pub linked-weigh :
      (f : Seq → ℕ)
      → weigh f (linked heap r nod t) (marks ++ (t ∷ p) ∷ []) ≡ weigh f heap marks + f (t ∷ p)
  unfolding linked
  linked-weigh f =
      weigh-append f (set heap r extended) marks fresh (t ∷ p)
        (g.sized ∙ sym (length-set heap r extended))
      ∙ omega (arith, weigh-set f heap marks r nod extended p 0 h at (omega arith))

-- ===== src/FsTree/Insert.antt =====
-- `appendChild` and `insertTree` succeed on a tree, and count each prefix of the sequence once.
use minerule.Prelude.{
  ℕ, ◌+◌, ◌<◌, ◌≡◌, refl, sym, ap, ◌∙◌, arith, Bool, true, false, ◌==◌, ==_iff, none, some, List,
  [], ◌∷◌, ◌++◌, length, get_elem?, set, inl, inr, Bool-cases, get_elem?-append, get_elem?-set_same,
  length-set, get_elem?-append_last, get_elem?-same, if◌then◌else◌,
}
use mathlib.Core.Path.{subst}
use minerule.FsTreeSequence.{Item, Seq, SeqMap, value, put}
use minerule.FsTree.{
  Node, FsTree, add_list, find_child, count_again, linked, create_child, append_child, insert_tree,
}
use minerule.FsTree.Sums.{listed, listed-put, deep, weigh, weigh-set}
use minerule.FsTree.Growth.{
  In, Grown, find_child-FoundChild, get_elem?-reached, counted-Grown, linked-Grown, linked-weigh,
}

-- A tree `st'` that differs from `st` in its nodes only, and whose nodes weigh `more` than those of
-- `st`.
pub record Heavier (st : FsTree) (marks : List Seq) (st' : FsTree) (marks' : List Seq)
    (more : (Seq → ℕ) → ℕ) : Type 0 where
  pub grown : Grown st'.heap st'.m_list marks'
  pub weighed : (f : Seq → ℕ) → weigh f st'.heap marks' ≡ weigh f st.heap marks + more f
  pub result : st'.result ≡ st.result
  pub link_ns : st'.link_ns ≡ st.link_ns
  pub max_length : st'.max_length ≡ st.max_length

-- What `appendChild` returns.
abbrev Appended : FsTree → List Seq → ℕ → Item → Seq → Type 0
Appended st marks r t p =
    (st' : FsTree) × (marks' : List Seq) × (n : ℕ) × (append_child st r t ≡ some (st', n))
    × (get_elem? marks' n ≡ some (t ∷ p))
    × Heavier st marks st' marks' (λ f. f (t ∷ p))

m_list-either :
    (b : Bool) (st : FsTree) (m : SeqMap (List ℕ))
    → (if b then st else record st { m_list = m })
      ≡ record st { m_list = if b then st.m_list else m }
m_list-either true st m = refl
m_list-either false st m = refl

module _ (st : FsTree) (marks : List Seq) (r : ℕ) (nod : Node) (t : Item) (p : Seq)
    (g : Grown st.heap st.m_list marks) (here : get_elem? st.heap r ≡ some nod)
    (at : get_elem? marks r ≡ some p) where
  append_child-counts :
      (c : ℕ) (kid : Node)
      → get_elem? st.heap c ≡ some kid
      → find_child st.heap nod.child t ≡ some (some c)
      → append_child st r t
        ≡ some (record st { heap = set st.heap c (record kid { count = kid.count + 1 }) }, c)
  unfolding append_child count_again
  append_child-counts c kid h e = rw (here, e, h) refl

  append_child-creates :
      find_child st.heap nod.child t ≡ some none → append_child st r t ≡ create_child st r nod t
  unfolding append_child
  append_child-creates e = rw (here, e) refl

  mark_of_child :
      (c : ℕ) (kid : Node)
      → get_elem? st.heap c ≡ some kid
      → kid.parent ≡ r
      → 0 < c
      → kid.label ≡ t
      → get_elem? marks c ≡ some (t ∷ p)
  mark_of_child c kid h par pos label = elim (g.marked c kid h) [
    | inl (e, k) ↦ absurd (ground arith)
    | inr (q, up, own, l) ↦
        own
        ∙ ap some (
            ap (λ x. x ∷ q) label
            ∙ ap (λ s. t ∷ s)
                (get_elem?-same (get_elem? marks r) q p
                  (subst (λ j. get_elem? marks j ≡ some q) par up) at))
  ]

  append_child-old :
      (c : ℕ) (kid : Node)
      → In c nod.child
      → get_elem? st.heap c ≡ some kid
      → kid.label ≡ t
      → find_child st.heap nod.child t ≡ some (some c)
      → Appended st marks r t p
  append_child-old c kid inside h label found =
      let (kid', h', par, pos) = g.kids r c nod here inside in
      let same = get_elem?-same (get_elem? st.heap c) kid' kid h' h in
      let mark = mark_of_child c kid h (ap (λ n. n.parent) (sym same) ∙ par) pos label in
      (
        record st { heap = set st.heap c (record kid { count = kid.count + 1 }) },
        marks,
        c,
        append_child-counts c kid h found,
        mark,
        record {
          grown = counted-Grown st.heap st.m_list marks c kid h g;
          weighed = λ f.
              weigh-set f st.heap marks c kid (record kid { count = kid.count + 1 }) (t ∷ p) 1 h
                mark refl
              ∙ omega arith;
          result = refl;
          link_ns = refl;
          max_length = refl;
        },
      )

  -- The lists of nodes after a creation.
  abbrev new_list : SeqMap (List ℕ)
  new_list =
      if r == 0
      then st.m_list
      else put (nod.label ∷ t ∷ []) (value [] (nod.label ∷ t ∷ []) st.m_list ++ length st.heap ∷ [])
          st.m_list

  abbrev created : FsTree
  created = record st { heap = linked st.heap r nod t; m_list = new_list; n_nodi = st.n_nodi + 1 }

  create_child-created : create_child st r nod t ≡ some (created, length st.heap)
  unfolding create_child add_list linked
  create_child-created =
      let extended : Node = record nod { child = nod.child ++ length st.heap ∷ [] } in
      let fresh : Node = record { label = t; count = 1; parent = r; child = [] } in
      let father : get_elem? (set st.heap r extended ++ fresh ∷ []) r ≡ some extended =
        get_elem?-append (set st.heap r extended) (fresh ∷ []) r extended
          (get_elem?-set_same st.heap r nod extended here) in
      let child : get_elem? (set st.heap r extended ++ fresh ∷ []) (length st.heap) ≡ some fresh =
        subst (λ j. get_elem? (set st.heap r extended ++ fresh ∷ []) j ≡ some fresh)
          (length-set st.heap r extended) (get_elem?-append_last (set st.heap r extended) fresh) in
      rw (father, child)
        (ap (λ s. some (s, length st.heap))
          (m_list-either (r == 0)
            (record st { heap = linked st.heap r nod t; n_nodi = st.n_nodi + 1 })
            (put (nod.label ∷ t ∷ [])
              (value [] (nod.label ∷ t ∷ []) st.m_list ++ length st.heap ∷ []) st.m_list)))

  new_list-listed :
      (w : ℕ → ℕ) → listed w new_list ≡ listed w st.m_list + deep (t ∷ p) (w (length st.heap))
  new_list-listed w = elim (Bool-cases (r == 0)) [
    | inl e ↦
        let empty : p ≡ [] =
          get_elem?-same (get_elem? marks 0) p []
            (subst (λ j. get_elem? marks j ≡ some p) ((==_iff r 0).0 e) at) g.rooted in
        rw e (rw empty (omega arith))
    | inr e ↦ elim (g.marked r nod here) [
      | inl (root, k) ↦ absurd (ground arith)
      | inr (q, up, own, l) ↦
          let long : p ≡ nod.label ∷ q =
            get_elem?-same (get_elem? marks r) p (nod.label ∷ q) at own in
          rw e (rw long (listed-put w (nod.label ∷ t ∷ []) (length st.heap) st.m_list))
    ]
  ]

  append_child-new : find_child st.heap nod.child t ≡ some none → Appended st marks r t p
  append_child-new e = (
    created,
    marks ++ (t ∷ p) ∷ [],
    length st.heap,
    append_child-creates e ∙ create_child-created,
    subst (λ j. get_elem? (marks ++ (t ∷ p) ∷ []) j ≡ some (t ∷ p)) g.sized
        (get_elem?-append_last marks (t ∷ p)),
    record {
      grown = linked-Grown st.heap st.m_list new_list marks r nod t p here at g new_list-listed;
      weighed = linked-weigh st.heap st.m_list new_list marks r nod t p here at g;
      result = refl;
      link_ns = refl;
      max_length = refl;
    },
  )

  append_child-Appended : Appended st marks r t p
  append_child-Appended =
      elim (find_child-FoundChild st.heap nod.child t
        (λ c k. let (kid, e, par, pos) = g.kids r c nod here k in (kid, e))) [
          | inl e ↦ append_child-new e
          | inr (c, kid, inside, h, label, found) ↦ append_child-old c kid inside h label found
        ]

-- The weight of the nonempty prefixes of `t`, below the mark `p`.
abbrev pub prefix_weight : (Seq → ℕ) → Seq → Seq → ℕ
prefix_weight f p [] = 0
prefix_weight f p (x ∷ t) = f (x ∷ p) + prefix_weight f (x ∷ p) t

-- What `insertTree` returns.
unfoldable pub Inserted : FsTree → List Seq → ℕ → Seq → Seq → Type 0
Inserted st marks r t p =
    (st' : FsTree) × (marks' : List Seq) × (insert_tree st r t ≡ some st')
    × Heavier st marks st' marks' (λ f. prefix_weight f p t)

module _ (st : FsTree) (marks : List Seq) (r : ℕ) (x : Item) (p : Seq) (st' : FsTree)
    (marks' : List Seq) (n : ℕ) (e : append_child st r x ≡ some (st', n))
    (h : Heavier st marks st' marks' (λ f. f (x ∷ p))) where
  last_item : Inserted st marks r (x ∷ []) p
  unfolding Inserted insert_tree
  last_item = (
    st',
    marks',
    rw (e, insert_tree) refl,
    record {
      grown = h.grown;
      weighed = λ f. h.weighed f ∙ omega arith;
      result = h.result;
      link_ns = h.link_ns;
      max_length = h.max_length;
    },
  )

  one_more_item :
      (y : Item) (t : Seq)
      → Inserted st' marks' n (y ∷ t) (x ∷ p)
      → Inserted st marks r (x ∷ y ∷ t) p
  unfolding Inserted insert_tree
  one_more_item y t (st'', marks'', e', h') = (
    st'',
    marks'',
    rw (e, insert_tree) e',
    record {
      grown = h'.grown;
      weighed = λ f. omega (arith, h.weighed f, h'.weighed f);
      result = h'.result ∙ h.result;
      link_ns = h'.link_ns ∙ h.link_ns;
      max_length = h'.max_length ∙ h.max_length;
    },
  )

-- On a tree whose nodes have their paths for marks, whose children point back to their parents, and
-- whose lists hold each node at depth two or more once, insertTree succeeds for a sequence that is
-- not empty and leaves such a tree, in which for every weight of paths the counts weigh more by the
-- weights of the nonempty prefixes of the sequence, below the node where it began; the results, the
-- table of infrequent pairs and the bound on lengths are as before.
pub insert_tree-Inserted :
    (st : FsTree) (marks : List Seq) (r : ℕ) (x : Item) (t p : Seq)
    → Grown st.heap st.m_list marks
    → get_elem? marks r ≡ some p
    → Inserted st marks r (x ∷ t) p
insert_tree-Inserted st marks r x [] p g at =
    let (nod, here) = get_elem?-reached st.heap marks r p g.sized at in
    let (st', marks', n, e, mark, h) = append_child-Appended st marks r nod x p g here at in
    last_item st marks r x p st' marks' n e h
insert_tree-Inserted st marks r x (y ∷ t) p g at =
    let (nod, here) = get_elem?-reached st.heap marks r p g.sized at in
    let (st', marks', n, e, mark, h) = append_child-Appended st marks r nod x p g here at in
    one_more_item st marks r x p st' marks' n e h y t
      (insert_tree-Inserted st' marks' n y t (x ∷ p) h.grown mark)

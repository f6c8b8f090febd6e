-- ===== src/FsTree/Correct.antt =====
-- What FSMiner finds: the sequences that are frequent, with their numbers of occurrences.
use minerule.Prelude.{
  ℕ, zero, suc, ◌+◌, ◌<◌, ◌≤◌, ◌≡◌, refl, sym, ap, ◌∙◌, arith, Bool, false, some, some_inj, List,
  [], ◌∷◌, length, get_elem?, inl, inr, Bool-cases, if◌then◌else◌,
}
use mathlib.Core.Path.{subst}
use minerule.FsTreeSequence.{Item, Seq, SeqMap, value}
use minerule.FsTreeSequence.Keys.{Distinct}
use minerule.FsTree.{Node, FsTree, fs_tree, ns_loop, create_link_ns_table, construct_tree, Row}
use minerule.FsTree.Mine.{mine, get_result, mine_rules}
use minerule.FsTree.Sums.{weigh}
use minerule.FsTree.Growth.{In, Marked, Grown}
use minerule.FsTree.Collect.{gain, mine-weigh}
use minerule.FsTree.Occurrences.{Fits}
use minerule.FsTree.Tables.{result_loop-value}
use minerule.FsTree.Rows.{runs}
use minerule.FsTree.Support.{support, DownClosed, frequent-Sound}
use minerule.FsTree.Links.{create_link_s_table-Linked, with_links}
use minerule.FsTree.Build.{construct_tree-Built}

abbrev pub root : Node
root = record { label = 0; count = 0; parent = 0; child = [] }

pub root-Grown : Grown (root ∷ []) [] ([] ∷ [])
root-Grown = record {
  sized = refl;
  rooted = refl;
  marked = only_root;
  kids = no_kids;
  listing = λ w. omega arith;
}
  where
    only_root : (i : ℕ) (nod : Node) → get_elem? (root ∷ []) i ≡ some nod → Marked ([] ∷ []) i nod
    only_root zero nod h = inl (refl, refl)
    only_root (suc i) nod h = cc

    no_kids :
        (r c : ℕ) (nod : Node)
        → get_elem? (root ∷ []) r ≡ some nod
        → In c nod.child
        → (kid : Node) × (get_elem? (root ∷ []) c ≡ some kid) × (kid.parent ≡ r) × (0 < c)
    no_kids zero c nod h k = absurd (subst (λ n. In c n.child) (sym (some_inj h)) k)
    no_kids (suc r) c nod h k = cc

-- The number of occurrences, if it is not low.
abbrev pub reported : (ℕ → Bool) → ℕ → ℕ
reported low n = if low n then 0 else n

reported-exact :
    (low : ℕ → Bool) (found all : ℕ)
    → DownClosed low
    → found ≤ all
    → (low all ≡ false → found ≡ all)
    → reported low found ≡ reported low all
reported-exact low found all closed l exact = elim (Bool-cases (low all)) [
  | inl e ↦ rw (e, closed found all l e) refl
  | inr e ↦ ap (reported low) (exact e)
]

nothing_yet : (k : Seq) → value {V = ℕ} 0 k [] ≡ 0
unfolding value
nothing_yet k = refl

module _ (max_length n_nodi : ℕ) where
  no_rows_yet :
      (rs : List Row) → (fs_tree max_length n_nodi).num + length (runs rs) ≡ length (runs rs)
  unfolding fs_tree
  no_rows_yet rs = omega arith

  no_pairs_yet : Distinct (fs_tree max_length n_nodi).link_s
  unfolding fs_tree
  no_pairs_yet = tt

  no_count_yet :
      (a b : Item) (rs : List Row)
      → value 0 (a ∷ b ∷ []) (fs_tree max_length n_nodi).link_s + support (a ∷ b ∷ []) (runs rs)
        ≡ support (a ∷ b ∷ []) (runs rs)
  unfolding fs_tree
  no_count_yet a b rs = omega (arith, nothing_yet (a ∷ b ∷ []))

module _ (low : ℕ → Bool) (max_length n_nodi fuel num : ℕ) (rs : List Row) (link_s : SeqMap ℕ)
    (l : length rs ≤ fuel) (closed : DownClosed low) (distinct : Distinct link_s)
    (counts : (a b : Item) → value 0 (a ∷ b ∷ []) link_s ≡ support (a ∷ b ∷ []) (runs rs)) where
  abbrev Reports : SeqMap ℕ → Type 0
  Reports ris =
      (a b : Item) (k : Seq)
      → Fits max_length (a ∷ b ∷ k)
      → value 0 (a ∷ b ∷ k) ris ≡ reported low (support (a ∷ b ∷ k) (runs rs))

  -- What follows the table of pairs.
  mined_from_links :
      (built : FsTree) × (mined : FsTree) × (construct_tree fuel rs
          (create_link_ns_table low (with_links link_s num (fs_tree max_length n_nodi)))
        ≡ some built)
      × (mine built ≡ some mined)
      × Reports (get_result low mined)
  unfolding fs_tree create_link_ns_table get_result
  mined_from_links =
      let original = ns_loop low link_s [] in
      let start = create_link_ns_table low (with_links link_s num (fs_tree max_length n_nodi)) in
      let (built, marks, e, h) =
        construct_tree-Built original fuel rs start ([] ∷ []) l root-Grown (λ k. refl) in
      let (mined, e', keeps, gained) = mine-weigh built marks h.grown in
      (
        built,
        mined,
        e,
        e',
        λ a b k fits.
            let key = a ∷ b ∷ k in
            let found : value 0 key mined.result ≡ weigh (gain max_length key) built.heap marks =
              omega (
                arith,
                gained key,
                ap (value 0 key) h.result,
                ap (λ n. weigh (gain n key) built.heap marks) h.max_length,
                nothing_yet key,
              ) in
            result_loop-value low key mined.result [] (keeps (subst Distinct (sym h.result) tt))
              (nothing_yet key)
            ∙ reported-exact low (value 0 key mined.result) (support key (runs rs)) closed
                (omega (arith, found, h.at_most a b k fits))
                (λ high. omega (
                  arith,
                  found,
                  h.exact a b k fits
                      (frequent-Sound low closed (runs rs) link_s distinct counts a b k high),
                )),
      )

-- With fuel for each row, and where the test for a low count holds of every lower count, the steps
-- of mineRules after prepareData return, and report each sequence of two items or more that the
-- bound on lengths admits with the number of its occurrences in the runs of rows of one group, as
-- neighbours and overlaps included, if that number is not low, and do not report it otherwise.
pub mine_rules-support :
    (below : ℕ → ℕ → Bool) (max_length n_nodi fuel : ℕ) (rs : List Row)
    → length rs ≤ fuel
    → DownClosed (below (length (runs rs)))
    → (ris : SeqMap ℕ) × (mine_rules below max_length n_nodi fuel rs ≡ some ris)
      × ((a b : Item) (k : Seq)
          → Fits max_length (a ∷ b ∷ k)
          → value 0 (a ∷ b ∷ k) ris
            ≡ reported (below (length (runs rs))) (support (a ∷ b ∷ k) (runs rs)))
unfolding mine_rules
mine_rules-support below max_length n_nodi fuel rs l closed =
    let low = below (length (runs rs)) in
    let start = fs_tree max_length n_nodi in
    let (linked, e, k) = create_link_s_table-Linked fuel rs start l in
    let all : linked.num ≡ length (runs rs) = k.counted ∙ no_rows_yet max_length n_nodi rs in
    let state : linked ≡ with_links linked.link_s (length (runs rs)) start =
      k.only ∙ ap (λ n. with_links linked.link_s n start) all in
    let (built, mined, c, m, r) =
      mined_from_links low max_length n_nodi fuel (length (runs rs)) rs linked.link_s l closed
        (k.distinct (no_pairs_yet max_length n_nodi))
        (λ a b. k.pairs a b ∙ no_count_yet max_length n_nodi a b rs) in
    (get_result low mined, rw (e ∙ ap some state, c, m) refl, r)

-- ===== src/FsTree/Links.antt =====
-- `createLinkSTable` counts the occurrences of each pair in the data set.
use minerule.Prelude.{
  ℕ, zero, suc, ◌+◌, ◌-◌, ◌≤◌, ◌≡◌, refl, sym, ap, ◌∙◌, arith, Bool, true, false, ltb, some, List,
  [], ◌∷◌, length, if◌then◌else◌,
}
use mathlib.Core.Path.{subst}
use minerule.FsTreeSequence.{Item, Seq, SeqMap, value}
use minerule.FsTreeSequence.Keys.{Distinct}
use minerule.FsTree.{FsTree, insert_link, create_link_s_table, Row, read}
use minerule.FsTree.Occurrences.{occurrences}
use minerule.FsTree.Parts.{drop, occurrences-single}
use minerule.FsTree.Tables.{insert_link_loop-occurrences, insert_link_loop-Distinct}
use minerule.FsTree.Rows.{runs, read-runs}
use minerule.FsTree.Support.{support}

-- The state with other counts of pairs and sequences.
abbrev pub with_links : SeqMap ℕ → ℕ → FsTree → FsTree
with_links link_s num st = record st { link_s = link_s; num = num }

-- What `createLinkSTable` makes of `st`.
pub record Linked (st : FsTree) (db : List (Item × Seq)) (st' : FsTree) : Type 0 where
  pub only : st' ≡ with_links st'.link_s st'.num st
  pub counted : st'.num ≡ st.num + length db
  pub distinct : Distinct st.link_s → Distinct st'.link_s
  pub pairs :
      (a b : Item)
      → value 0 (a ∷ b ∷ []) st'.link_s ≡ value 0 (a ∷ b ∷ []) st.link_s + support (a ∷ b ∷ []) db

drop-zero : (s : Seq) → drop s 0 ≡ s
drop-zero [] = refl
drop-zero (x ∷ s) = refl

-- The state after one round of `createLinkSTable`, by the test on the size.
abbrev after_round : Bool → Seq → FsTree → FsTree
after_round test s st =
    let st' = if test then insert_link s st else st in record st' { num = st'.num + 1 }

after_round-Linked :
    (test : Bool) (gid : Item) (s : Seq) (st : FsTree)
    → ltb 1 (length s) ≡ test
    → Linked st ((gid, s) ∷ []) (after_round test s st)
unfolding insert_link
after_round-Linked true gid s st h = record {
  only = refl;
  counted = refl;
  distinct = insert_link_loop-Distinct (length s - 1) 0 s st.link_s;
  pairs = λ a b.
      insert_link_loop-occurrences a b (length s - 1) 0 s st.link_s (ground arith)
      ∙ omega (arith, ap (occurrences (a ∷ b ∷ [])) (drop-zero s));
}
after_round-Linked false gid s st h = record {
  only = refl;
  counted = refl;
  distinct = λ d. d;
  pairs = λ a b. omega (arith, occurrences-single a b [] s (ground arith));
}

Linked-cons :
    (st st' st'' : FsTree) (gid : Item) (s : Seq) (db : List (Item × Seq))
    → Linked st ((gid, s) ∷ []) st'
    → Linked st' db st''
    → Linked st ((gid, s) ∷ db) st''
Linked-cons st st' st'' gid s db h k = record {
  only = k.only ∙ ap (with_links st''.link_s st''.num) h.only;
  counted = omega (arith, h.counted, k.counted);
  distinct = λ d. k.distinct (h.distinct d);
  pairs = λ a b. omega (arith, h.pairs a b, k.pairs a b);
}

pub create_link_s_table-Linked :
    (fuel : ℕ) (rs : List Row) (st : FsTree)
    → length rs ≤ fuel
    → (st' : FsTree) × (create_link_s_table fuel rs st ≡ some st') × Linked st (runs rs) st'
unfolding create_link_s_table
create_link_s_table-Linked fuel [] st l = (
  st,
  refl,
  record { only = refl; counted = omega arith; distinct = λ d. d; pairs = λ a b. omega arith },
)
create_link_s_table-Linked zero (row ∷ rs) st l = ground arith
create_link_s_table-Linked (suc fuel) (row ∷ rs) st l =
    let s = (read (row ∷ rs) []).0 in
    let (split, shorter) = read-runs row rs in
    let st' = after_round (ltb 1 (length s)) s st in
    let (st'', e, k) =
      create_link_s_table-Linked fuel (read (row ∷ rs) []).1 st' (omega (arith, l, shorter)) in
    (
      st'',
      e,
      subst (λ db. Linked st db st'') (sym split)
          (Linked-cons st st' st'' row.group s (runs (read (row ∷ rs) []).1)
            (after_round-Linked (ltb 1 (length s)) row.group s st refl) k),
    )

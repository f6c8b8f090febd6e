-- ===== src/FsTree/Build.antt =====
-- `construct_Tree` puts the data set into the tree.
use minerule.Prelude.{
  ℕ, zero, suc, ◌+◌, ◌<◌, ◌≤◌, ◌≡◌, refl, sym, ap, ◌∙◌, arith, true, false, ltb, some, List, [],
  ◌∷◌, length, inl, inr, Bool-cases, if◌then◌else◌,
}
use mathlib.Core.Path.{subst}
use minerule.FsTreeSequence.{Item, Seq, SeqMap, value}
use minerule.FsTree.{
  FsTree, fraziona, insert_tree, insert_pieces, insert_sequence, construct_tree, Row, read,
}
use minerule.FsTree.Sums.{weigh}
use minerule.FsTree.Growth.{Grown}
use minerule.FsTree.Insert.{Heavier, Inserted, insert_tree-Inserted, prefix_weight}
use minerule.FsTree.Collect.{gain}
use minerule.FsTree.Occurrences.{occurrences, Fits, prefix_weight-gain}
use minerule.FsTree.Parts.{in_pieces, occurrences-single}
use minerule.FsTree.Cuts.{Sound, infrequent, Agrees, fraziona-occurrences}
use minerule.FsTree.Rows.{runs, read-runs}
use minerule.FsTree.Support.{support}

-- The weights of the pieces that are inserted.
abbrev pieces_weight : (Seq → ℕ) → List Seq → ℕ
pieces_weight f [] = 0
pieces_weight f (piece ∷ l) =
    (if ltb 1 (length piece) then prefix_weight f [] piece else 0) + pieces_weight f l

pieces_weight-gain :
    (max_length : ℕ) (a b : Item) (k : Seq) (l : List Seq)
    → Fits max_length (a ∷ b ∷ k)
    → pieces_weight (gain max_length (a ∷ b ∷ k)) l ≡ in_pieces (a ∷ b ∷ k) l
pieces_weight-gain max_length a b k [] h = refl
pieces_weight-gain max_length a b k (piece ∷ l) h =
    rw (prefix_weight-gain max_length a b k piece h)
      (omega (arith, pieces_weight-gain max_length a b k l h))

-- What `insertPieces` returns.
abbrev PiecesIn : FsTree → List Seq → List Seq → Type 0
PiecesIn st marks l =
    (st' : FsTree) × (marks' : List Seq) × (insert_pieces st l ≡ some st')
    × Heavier st marks st' marks' (λ f. pieces_weight f l)

module _ (st : FsTree) (marks : List Seq) (piece : Seq) (l : List Seq) where
  piece_left_out :
      ltb 1 (length piece) ≡ false → PiecesIn st marks l → PiecesIn st marks (piece ∷ l)
  unfolding insert_pieces
  piece_left_out e (st', marks', r, h) = (
    st',
    marks',
    rw e r,
    record {
      grown = h.grown;
      weighed = λ f. rw e (omega (arith, h.weighed f));
      result = h.result;
      link_ns = h.link_ns;
      max_length = h.max_length;
    },
  )

  piece_inserted :
      (st' : FsTree) (marks' : List Seq)
      → ltb 1 (length piece) ≡ true
      → insert_tree st 0 piece ≡ some st'
      → Heavier st marks st' marks' (λ f. prefix_weight f [] piece)
      → PiecesIn st' marks' l
      → PiecesIn st marks (piece ∷ l)
  unfolding insert_pieces
  piece_inserted st' marks' e r h (st'', marks'', r', h') = (
    st'',
    marks'',
    rw (e, r) r',
    record {
      grown = h'.grown;
      weighed = λ f. rw e (omega (arith, h.weighed f, h'.weighed f));
      result = h'.result ∙ h.result;
      link_ns = h'.link_ns ∙ h.link_ns;
      max_length = h'.max_length ∙ h.max_length;
    },
  )

insert_pieces-PiecesIn :
    (st : FsTree) (marks : List Seq) (l : List Seq)
    → Grown st.heap st.m_list marks
    → PiecesIn st marks l
unfolding insert_pieces Inserted
insert_pieces-PiecesIn st marks [] g = (
  st,
  marks,
  refl,
  record {
    grown = g;
    weighed = λ f. omega arith;
    result = refl;
    link_ns = refl;
    max_length = refl;
  },
)
insert_pieces-PiecesIn st marks ([] ∷ l) g =
    piece_left_out st marks [] l (ground arith) (insert_pieces-PiecesIn st marks l g)
insert_pieces-PiecesIn st marks ((x ∷ t) ∷ l) g = elim (Bool-cases (ltb 1 (length (x ∷ t)))) [
  | inr e ↦ piece_left_out st marks (x ∷ t) l e (insert_pieces-PiecesIn st marks l g)
  | inl e ↦
      let (st', marks', r, h) = insert_tree-Inserted st marks 0 x t [] g g.rooted in
      piece_inserted st marks (x ∷ t) l st' marks' e r h
        (insert_pieces-PiecesIn st' marks' l h.grown)
]

-- What the insertion of sequences makes of a state whose table answers as `original`; `more` tells
-- how often each sequence occurs in them.
pub record Built (original : SeqMap ℕ) (st : FsTree) (marks : List Seq) (st' : FsTree)
    (marks' : List Seq) (more : Seq → ℕ) : Type 0 where
  pub grown : Grown st'.heap st'.m_list marks'
  pub agrees : Agrees original st'.link_ns
  pub result : st'.result ≡ st.result
  pub max_length : st'.max_length ≡ st.max_length
  pub exact :
      (a b : Item) (k : Seq)
      → Fits st.max_length (a ∷ b ∷ k)
      → Sound (infrequent original) (a ∷ b ∷ k)
      → weigh (gain st.max_length (a ∷ b ∷ k)) st'.heap marks'
        ≡ weigh (gain st.max_length (a ∷ b ∷ k)) st.heap marks + more (a ∷ b ∷ k)
  pub at_most :
      (a b : Item) (k : Seq)
      → Fits st.max_length (a ∷ b ∷ k)
      → weigh (gain st.max_length (a ∷ b ∷ k)) st'.heap marks'
        ≤ weigh (gain st.max_length (a ∷ b ∷ k)) st.heap marks + more (a ∷ b ∷ k)

SequenceIn : SeqMap ℕ → FsTree → List Seq → Seq → Type 0
SequenceIn original st marks s =
    (st' : FsTree) × (marks' : List Seq) × (insert_sequence st s ≡ some st')
    × Built original st marks st' marks' (λ k. occurrences k s)

insert_sequence-short :
    (original : SeqMap ℕ) (st : FsTree) (marks : List Seq) (s : Seq)
    → Grown st.heap st.m_list marks
    → Agrees original st.link_ns
    → ltb 1 (length s) ≡ false
    → SequenceIn original st marks s
unfolding SequenceIn insert_sequence
insert_sequence-short original st marks s g agrees e = (
  st,
  marks,
  rw e refl,
  record {
    grown = g;
    agrees = agrees;
    result = refl;
    max_length = refl;
    exact = λ a b k fits sound. omega (arith, occurrences-single a b k s (short s e));
    at_most = λ a b k fits. omega arith;
  },
)
  where
    short : (s : Seq) → ltb 1 (length s) ≡ false → length s ≤ 1
    short s e = ground arith

insert_sequence-long :
    (original : SeqMap ℕ) (st : FsTree) (marks : List Seq) (s : Seq)
    → Grown st.heap st.m_list marks
    → Agrees original st.link_ns
    → ltb 1 (length s) ≡ true
    → SequenceIn original st marks s
unfolding SequenceIn insert_sequence
insert_sequence-long original st marks s g agrees e =
    let (same, exact, at_most) = fraziona-occurrences original st.link_ns s (long s e) agrees in
    let parts = (fraziona s st.link_ns).0 in
    let (st', marks', r, h) =
      insert_pieces-PiecesIn (record st { link_ns = (fraziona s st.link_ns).1 }) marks parts g in
    (
      st',
      marks',
      rw e r,
      record {
        grown = h.grown;
        agrees = λ k. ap (value 0 k) h.link_ns ∙ same k;
        result = h.result;
        max_length = h.max_length;
        exact = λ a b k fits sound. omega (
          arith,
          h.weighed (gain st.max_length (a ∷ b ∷ k)),
          pieces_weight-gain st.max_length a b k parts fits,
          exact a b k sound,
        );
        at_most = λ a b k fits. omega (
          arith,
          h.weighed (gain st.max_length (a ∷ b ∷ k)),
          pieces_weight-gain st.max_length a b k parts fits,
          at_most a b k,
        );
      },
    )
  where
    long : (s : Seq) → ltb 1 (length s) ≡ true → 0 < length s
    long s e = ground arith

insert_sequence-SequenceIn :
    (original : SeqMap ℕ) (st : FsTree) (marks : List Seq) (s : Seq)
    → Grown st.heap st.m_list marks
    → Agrees original st.link_ns
    → SequenceIn original st marks s
insert_sequence-SequenceIn original st marks s g agrees = elim (Bool-cases (ltb 1 (length s))) [
  | inl e ↦ insert_sequence-long original st marks s g agrees e
  | inr e ↦ insert_sequence-short original st marks s g agrees e
]

Built-cons :
    (original : SeqMap ℕ) (st : FsTree) (marks : List Seq) (st' : FsTree) (marks' : List Seq)
    (st'' : FsTree) (marks'' : List Seq) (gid : Item) (s : Seq) (db : List (Item × Seq))
    → Built original st marks st' marks' (λ k. occurrences k s)
    → Built original st' marks' st'' marks'' (λ k. support k db)
    → Built original st marks st'' marks'' (λ k. support k ((gid, s) ∷ db))
Built-cons original st marks st' marks' st'' marks'' gid s db h h' =
    let later : (k : Seq)
        → weigh (gain st.max_length k) st''.heap marks''
          ≡ weigh (gain st'.max_length k) st''.heap marks'' =
      λ k. ap (λ n. weigh (gain n k) st''.heap marks'') (sym h.max_length) in
    let before : (k : Seq)
        → weigh (gain st'.max_length k) st'.heap marks'
          ≡ weigh (gain st.max_length k) st'.heap marks' =
      λ k. ap (λ n. weigh (gain n k) st'.heap marks') h.max_length in
    let fits' : (k : Seq) → Fits st.max_length k → Fits st'.max_length k =
      λ k f. subst (λ n. Fits n k) (sym h.max_length) f in
    record {
      grown = h'.grown;
      agrees = h'.agrees;
      result = h'.result ∙ h.result;
      max_length = h'.max_length ∙ h.max_length;
      exact = λ a b k fits sound. omega (
        arith,
        later (a ∷ b ∷ k),
        before (a ∷ b ∷ k),
        h.exact a b k fits sound,
        h'.exact a b k (fits' (a ∷ b ∷ k) fits) sound,
      );
      at_most = λ a b k fits. omega (
        arith,
        later (a ∷ b ∷ k),
        before (a ∷ b ∷ k),
        h.at_most a b k fits,
        h'.at_most a b k (fits' (a ∷ b ∷ k) fits),
      );
    }

pub construct_tree-Built :
    (original : SeqMap ℕ) (fuel : ℕ) (rs : List Row) (st : FsTree) (marks : List Seq)
    → length rs ≤ fuel
    → Grown st.heap st.m_list marks
    → Agrees original st.link_ns
    → (st' : FsTree) × (marks' : List Seq) × (construct_tree fuel rs st ≡ some st')
      × Built original st marks st' marks' (λ k. support k (runs rs))
unfolding construct_tree SequenceIn
construct_tree-Built original fuel [] st marks l g agrees = (
  st,
  marks,
  refl,
  record {
    grown = g;
    agrees = agrees;
    result = refl;
    max_length = refl;
    exact = λ a b k fits sound. omega arith;
    at_most = λ a b k fits. omega arith;
  },
)
construct_tree-Built original zero (row ∷ rs) st marks l g agrees = ground arith
construct_tree-Built original (suc fuel) (row ∷ rs) st marks l g agrees =
    let s = (read (row ∷ rs) []).0 in
    let rest = (read (row ∷ rs) []).1 in
    let (split, shorter) = read-runs row rs in
    let (st', marks', e, h) = insert_sequence-SequenceIn original st marks s g agrees in
    let (st'', marks'', e', h') =
      construct_tree-Built original fuel rest st' marks' (omega (arith, l, shorter)) h.grown
        h.agrees in
    (
      st'',
      marks'',
      rw e e',
      subst (λ db. Built original st marks st'' marks'' (λ k. support k db)) (sym split)
          (Built-cons original st marks st' marks' st'' marks'' row.group s (runs rest) h h'),
    )

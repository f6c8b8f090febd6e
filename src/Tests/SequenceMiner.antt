-- ===== src/Tests/SequenceMiner.antt =====
-- The sequence miner on small inputs.
use minerule.Prelude.{ℕ, ◌≤◌, ◌≡◌, refl, tests, arith, Bool, ltb, some, List, [], ◌∷◌, length}
use minerule.FsTreeSequence.{Item, Seq, SeqMap, value}
use minerule.FsTree.{Row, fs_tree, fraziona, read}
use minerule.FsTree.Mine.{mine_rules}
use minerule.FsTree.Occurrences.{Fits, occurrences}
use minerule.FsTree.Parts.{in_pieces}
use minerule.FsTree.Cuts.{Sound, infrequent, Agrees, fraziona-occurrences}
use minerule.FsTree.Rows.{runs, read-runs}
use minerule.FsTree.Support.{support, DownClosed}
use minerule.FsTree.Insert.{Inserted, insert_tree-Inserted}
use minerule.FsTree.Correct.{root-Grown, reported, mine_rules-support}

abbrev row : Item → Item → Row
row group body = record { group = group; body = body }

-- The sequences 1 2 3 and 1 2 5.
abbrev two_sequences : List Row
two_sequences = row 7 1 ∷ row 7 2 ∷ row 7 3 ∷ row 8 1 ∷ row 8 2 ∷ row 8 5 ∷ []

-- A sequence is frequent where it occurs as often as there are sequences.
abbrev rare : ℕ → ℕ → Bool
rare num count = ltb count num

rare-DownClosed : DownClosed (rare 2)
rare-DownClosed m n l h = ground arith

two_found : support (1 ∷ 2 ∷ []) (runs two_sequences) ≡ 2
two_found = refl

one_found : support (2 ∷ 5 ∷ []) (runs two_sequences) ≡ 1
one_found = refl

mine_rules-support_example :
    (ris : SeqMap ℕ) × (mine_rules rare 4 0 6 two_sequences ≡ some ris)
    × ((a b : Item) (k : Seq)
        → Fits 4 (a ∷ b ∷ k)
        → value 0 (a ∷ b ∷ k) ris ≡ reported (rare 2) (support (a ∷ b ∷ k) (runs two_sequences)))
mine_rules-support_example =
    mine_rules-support rare 4 0 6 two_sequences (omega tests) rare-DownClosed

insert_tree-Inserted_example : Inserted (fs_tree 4 0) ([] ∷ []) 0 (1 ∷ 2 ∷ 1 ∷ []) []
unfolding fs_tree
insert_tree-Inserted_example =
    insert_tree-Inserted (fs_tree 4 0) ([] ∷ []) 0 1 (2 ∷ 1 ∷ []) [] root-Grown refl

-- The pair 1 2 is infrequent.
abbrev one_pair : SeqMap ℕ
one_pair = (1 ∷ 2 ∷ [], 1) ∷ []

fraziona-occurrences_example :
    Agrees one_pair (fraziona (3 ∷ 1 ∷ 2 ∷ 4 ∷ []) one_pair).1
    × ((a b : Item) (k : Seq)
        → Sound (infrequent one_pair) (a ∷ b ∷ k)
        → in_pieces (a ∷ b ∷ k) (fraziona (3 ∷ 1 ∷ 2 ∷ 4 ∷ []) one_pair).0
          ≡ occurrences (a ∷ b ∷ k) (3 ∷ 1 ∷ 2 ∷ 4 ∷ []))
    × ((a b : Item) (k : Seq)
        → in_pieces (a ∷ b ∷ k) (fraziona (3 ∷ 1 ∷ 2 ∷ 4 ∷ []) one_pair).0
          ≤ occurrences (a ∷ b ∷ k) (3 ∷ 1 ∷ 2 ∷ 4 ∷ []))
fraziona-occurrences_example =
    fraziona-occurrences one_pair one_pair (3 ∷ 1 ∷ 2 ∷ 4 ∷ []) (omega tests) (λ k. refl)

read-runs_example :
    (runs two_sequences ≡ (7, (read two_sequences []).0) ∷ runs (read two_sequences []).1)
    × (length (read two_sequences []).1 ≤ 5)
read-runs_example = read-runs (row 7 1) (row 7 2 ∷ row 7 3 ∷ row 8 1 ∷ row 8 2 ∷ row 8 5 ∷ [])

-- ===== src/FsTree.antt =====
-- src/Algorithms/FSTree.cpp and FSTreeNode.cpp, the sequence miner: the tables of frequent and
-- infrequent pairs, the cutting of sequences at infrequent pairs, the prefix tree, and the collection
-- of the results. A pointer to a node is its place in a list of nodes, the root's is 0; `none` is a
-- pointer to no node, or a loop that runs out of fuel. Log output is left out.
pub mod Mine
pub mod Sums
pub mod Growth
pub mod Insert
pub mod Collect
pub mod Cuts
pub mod Support
pub mod Links
pub mod Build
pub mod Correct
pub mod Rows
pub mod Tables
pub mod Parts
pub mod Occurrences
use minerule.Prelude.{
  ℕ, zero, suc, ◌+◌, ◌-◌, Bool, true, false, not, ◌&&◌, ltb, leb, ◌==◌, if◌then◌else◌, Option, none,
  some, guard, ◌>>=◌, List, [], ◌∷◌, ◌++◌, length, get_elem?, set,
}
use minerule.FsTreeSequence.{Item, Seq, slice, SeqMap, value, put}

-- `FSTreeNode`
pub record Node : Type 0 where
  pub label : Item
  pub count : ℕ
  pub parent : ℕ
  pub child : List ℕ

-- `FSTree`; the counters are ints that no data set overflows.
pub record FsTree : Type 0 where
  pub link_s : SeqMap ℕ
  pub link_ns : SeqMap ℕ
  pub result : SeqMap ℕ
  pub m_list : SeqMap (List ℕ)
  pub heap : List Node
  pub num : ℕ
  pub n_nodi : ℕ
  pub max_length : ℕ

-- The constructor. `n_nodi` it does not set, nor the label and the parent of the root, which nothing
-- reads.
unfoldable pub fs_tree : ℕ → ℕ → FsTree
fs_tree max_length n_nodi = record {
  link_s = [];
  link_ns = [];
  result = [];
  m_list = [];
  heap = record { label = 0; count = 0; parent = 0; child = [] } ∷ [];
  num = 0;
  n_nodi = n_nodi;
  max_length = max_length;
}

-- The loop of `insertLink`.
unfoldable pub insert_link_loop : ℕ → ℕ → Seq → SeqMap ℕ → SeqMap ℕ
insert_link_loop zero i s link_s = link_s
insert_link_loop (suc left) i s link_s =
    insert_link_loop left (i + 1) s (put (slice s i 2) (value 0 (slice s i 2) link_s + 1) link_s)

-- `insertLink`, which is called for sequences of two items or more.
unfoldable pub insert_link : Seq → FsTree → FsTree
unfolding insert_link_loop
insert_link s st = record st { link_s = insert_link_loop (length s - 1) 0 s st.link_s }

-- The loop of `createLinkNSTable`; `low` is `count < threshold`.
unfoldable pub ns_loop : (ℕ → Bool) → SeqMap ℕ → SeqMap ℕ → SeqMap ℕ
ns_loop low [] link_ns = link_ns
ns_loop low ((k, count) ∷ entries) link_ns =
    ns_loop low entries (if low count then put k count link_ns else link_ns)

unfoldable pub create_link_ns_table : (ℕ → Bool) → FsTree → FsTree
unfolding ns_loop
create_link_ns_table low st = record st { link_ns = ns_loop low st.link_s st.link_ns }

-- The positions that `fraziona` collects, with the entries of value 0 that its reads add.
unfoldable pub cut_positions : ℕ → ℕ → Seq → SeqMap ℕ → List ℕ × SeqMap ℕ
cut_positions zero i s link_ns = ([], link_ns)
cut_positions (suc left) i s link_ns =
    let count = value 0 (slice s i 2) link_ns in
    let (vec, link_ns') = cut_positions left (i + 1) s (put (slice s i 2) count link_ns) in
    (if count == 0 then vec else i ∷ vec, link_ns')

-- The second loop of `fraziona` and what follows it. The positions are in ascending order already, so
-- that the call of `sort` changes nothing.
unfoldable pub later_pieces : Seq → ℕ → List ℕ → List Seq
later_pieces s a [] =
    if ltb 1 (length s - (a + 1)) then slice s (a + 1) (length s - (a + 1)) ∷ [] else []
later_pieces s a (b ∷ vec) =
    let rest = later_pieces s b vec in
    if not (a + 1 == b) && ltb 1 (b - a) then slice s (a + 1) (b - a) ∷ rest else rest

-- The rest of `fraziona`, from the positions on.
unfoldable pub pieces : Seq → List ℕ → List Seq
unfolding later_pieces
pieces s [] = if ltb 1 (length s) then s ∷ [] else []
pieces s (a ∷ vec) = slice s 0 (a + 1) ∷ later_pieces s a vec

-- `fraziona`, which is called for sequences of two items or more.
unfoldable pub fraziona : Seq → SeqMap ℕ → List Seq × SeqMap ℕ
unfolding cut_positions pieces
fraziona s link_ns =
    let (vec, link_ns') = cut_positions (length s - 1) 0 s link_ns in (pieces s vec, link_ns')

-- `addList`
unfoldable pub add_list : FsTree → ℕ → ℕ → Option FsTree
add_list st father children = do
  f ← get_elem? st.heap father
  c ← get_elem? st.heap children
  let m_string = f.label ∷ c.label ∷ []
  some (
      if father == 0 then st else record st {
        m_list = put m_string (value [] m_string st.m_list ++ children ∷ []) st.m_list;
      })

-- The search of `appendChild`.
unfoldable pub find_child : List Node → List ℕ → Item → Option (Option ℕ)
find_child heap [] t = some none
find_child heap (c ∷ ve) t = do
  nod ← get_elem? heap c
  elim (nod.label == t) [ true ↦ some (some c) | false ↦ find_child heap ve t ]

-- The branches of `appendChild`: a child with the label is there, or is created.
unfoldable pub count_again : FsTree → ℕ → Option (FsTree × ℕ)
count_again st c = do
  nod ← get_elem? st.heap c
  some (record st { heap = set st.heap c (record nod { count = nod.count + 1 }) }, c)

unfoldable pub linked : List Node → ℕ → Node → Item → List Node
linked heap r nod t =
    set heap r (record nod { child = nod.child ++ length heap ∷ [] })
    ++ record { label = t; count = 1; parent = r; child = [] } ∷ []

unfoldable pub create_child : FsTree → ℕ → Node → Item → Option (FsTree × ℕ)
unfolding add_list linked
create_child st r nod t = do
  st' ←
      add_list (record st { heap = linked st.heap r nod t; n_nodi = st.n_nodi + 1 }) r
        (length st.heap)
  some (st', length st.heap)

-- `appendChild`
unfoldable pub append_child : FsTree → ℕ → Item → Option (FsTree × ℕ)
unfolding count_again create_child find_child
append_child st r t = do
  nod ← get_elem? st.heap r
  found ← find_child st.heap nod.child t
  elim found [ some c ↦ count_again st c | none ↦ create_child st r nod t ]

-- `insertTree`; the head of an empty sequence is undefined.
unfoldable pub insert_tree : FsTree → ℕ → Seq → Option FsTree
unfolding append_child
insert_tree st r [] = none
insert_tree st r (x ∷ []) = do (st', nod) ← append_child st r x; some st'
insert_tree st r (x ∷ y ∷ t) = do (st', nod) ← append_child st r x; insert_tree st' nod (y ∷ t)

-- A row of the result set: the group and the item. The rows that are left stand for the result set.
pub record Row : Type 0 where
  pub group : Item
  pub body : Item

-- `FSTreeSequence::read`
unfoldable pub read_loop : Item → List Row → Seq → Seq × List Row
read_loop gid [] seq = (seq, [])
read_loop gid (row ∷ rs) seq = elim (gid == row.group) [
  | true ↦ read_loop gid rs (seq ++ row.body ∷ [])
  | false ↦ (seq, row ∷ rs)
]

unfoldable pub read : List Row → Seq → Seq × List Row
unfolding read_loop
read [] seq = (seq, [])
read (row ∷ rs) seq = read_loop row.group (row ∷ rs) seq

-- The loop of `createLinkSTable`; `svuota` empties the sequence for the next round.
unfoldable pub create_link_s_table : ℕ → List Row → FsTree → Option FsTree
unfolding read insert_link
create_link_s_table fuel [] st = some st
create_link_s_table zero (row ∷ rs) st = none
create_link_s_table (suc fuel) (row ∷ rs) st =
    let (input, rs') = read (row ∷ rs) [] in
    let st' = if ltb 1 (length input) then insert_link input st else st in
    create_link_s_table fuel rs' (record st' { num = st'.num + 1 })

-- The inner loop of `construct_Tree`.
unfoldable pub insert_pieces : FsTree → List Seq → Option FsTree
unfolding insert_tree
insert_pieces st [] = some st
insert_pieces st (piece ∷ collezione) = do
  st' ← if ltb 1 (length piece) then insert_tree st 0 piece else some st
  insert_pieces st' collezione

-- The body of the loop of `construct_Tree`.
unfoldable pub insert_sequence : FsTree → Seq → Option FsTree
unfolding insert_pieces fraziona
insert_sequence st seq =
    let (collezione, link_ns) = fraziona seq st.link_ns in
    if ltb 1 (length seq)
    then insert_pieces (record st { link_ns = link_ns }) collezione
    else some st

-- `construct_Tree`
unfoldable pub construct_tree : ℕ → List Row → FsTree → Option FsTree
unfolding read insert_sequence
construct_tree fuel [] st = some st
construct_tree zero (row ∷ rs) st = none
construct_tree (suc fuel) (row ∷ rs) st = do
  let (seq, rs') = read (row ∷ rs) []
  st' ← insert_sequence st seq
  construct_tree fuel rs' st'

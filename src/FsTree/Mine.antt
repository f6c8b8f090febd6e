-- ===== src/FsTree/Mine.antt =====
-- src/Algorithms/FSTree.cpp, from `countPath` on, and src/Algorithms/FSMiner.cpp: the sequences that
-- the tree holds, with their counts.
use minerule.Prelude.{
  ℕ, zero, suc, ◌+◌, ◌-◌, Bool, true, false, not, ◌&&◌, leb, ◌==◌, if◌then◌else◌, Option, none,
  some, ◌>>=◌, List, [], ◌∷◌, length, get_elem?,
}
use minerule.FsTreeSequence.{Seq, SeqMap, value, put}
use minerule.FsTree.{
  Node, FsTree, fs_tree, Row, create_link_s_table, create_link_ns_table, construct_tree,
}

-- `countPath`, with `c` nodes passed so far.
unfoldable pub count_path : ℕ → List Node → ℕ → ℕ → Option ℕ
count_path zero heap temp c = none
count_path (suc fuel) heap temp c = do
  nod ← get_elem? heap temp
  elim (nod.parent == 0) [ true ↦ some c | false ↦ count_path fuel heap nod.parent (c + 1) ]

-- The loop of `addResult`. `UpperLimit`, which nothing uses, is left out.
unfoldable pub add_result_loop : ℕ → List Node → ℕ → Seq → ℕ → SeqMap ℕ → Option (SeqMap ℕ)
add_result_loop zero heap temp s count result = some result
add_result_loop (suc c) heap temp s count result = do
  nod ← get_elem? heap temp
  up ← get_elem? heap nod.parent
  let longer = up.label ∷ s
  add_result_loop c heap nod.parent longer count (put longer (value 0 longer result + count) result)

-- `addResult`
unfoldable pub add_result : List Node → ℕ → ℕ → SeqMap ℕ → Option (SeqMap ℕ)
unfolding count_path add_result_loop
add_result heap max_length n result = do
  c ← count_path (length heap) heap n 0
  nod ← get_elem? heap n
  let steps = if leb max_length c && not (max_length == 0) then max_length - 1 else c
  add_result_loop steps heap n (nod.label ∷ []) nod.count result

-- `addResults`
unfoldable pub add_results : List Node → ℕ → List ℕ → SeqMap ℕ → Option (SeqMap ℕ)
unfolding add_result
add_results heap max_length [] result = some result
add_results heap max_length (n ∷ vec) result = do
  result' ← add_result heap max_length n result
  add_results heap max_length vec result'

-- The loop of `mine`.
unfoldable pub mine_loop : List Node → ℕ → SeqMap (List ℕ) → SeqMap ℕ → Option (SeqMap ℕ)
unfolding add_results
mine_loop heap max_length [] result = some result
mine_loop heap max_length ((k, vec) ∷ m_list) result = do
  result' ← add_results heap max_length vec result
  mine_loop heap max_length m_list result'

unfoldable pub mine : FsTree → Option FsTree
unfolding mine_loop
mine st = do
  result ← mine_loop st.heap st.max_length st.m_list st.result
  some (record st { result = result })

-- The loop of `getResult`; `low` is `count < threshold`.
unfoldable pub result_loop : (ℕ → Bool) → SeqMap ℕ → SeqMap ℕ → SeqMap ℕ
result_loop low [] t2 = t2
result_loop low ((temp, count) ∷ entries) t2 =
    result_loop low entries (if low count then t2 else put temp count t2)

unfoldable pub get_result : (ℕ → Bool) → FsTree → SeqMap ℕ
unfolding result_loop
get_result low st = result_loop low st.result []

-- `FSMiner::mineRules`, from the construction of the tree on; `below num count` is
-- `count < support * num`, in floating point, and `rs` is what both queries return.
unfoldable pub mine_rules : (ℕ → ℕ → Bool) → ℕ → ℕ → ℕ → List Row → Option (SeqMap ℕ)
mine_rules below max_length n_nodi fuel rs = do
  linked ← create_link_s_table fuel rs (fs_tree max_length n_nodi)
  let low = below linked.num
  built ← construct_tree fuel rs (create_link_ns_table low linked)
  mined ← mine built
  some (get_result low mined)

-- ===== src/FsTree/Collect.antt =====
-- `mine` adds to the count of a sequence the counts of the nodes whose path ends in it.
use minerule.Prelude.{
  ℕ, zero, suc, ◌+◌, ◌-◌, ◌*◌, ◌<◌, ◌≤◌, ◌≡◌, ◌≢◌, refl, ap, ◌∙◌, arith, false, not, ◌&&◌, leb,
  ◌==◌, Option, none, some, List, [], ◌∷◌, length, get_elem?, ◌⊎◌, inl, inr, Bool-cases,
  get_elem?-same, get_elem?-lt, if◌then◌else◌, indicator,
}
use mathlib.Core.Path.{subst}
use minerule.FsTreeSequence.{Item, Seq, SeqMap, value, put, same_key}
use minerule.FsTreeSequence.Keys.{
  Distinct, Distinct-put, eq_of_same_key, value-put_same, value-put_other,
}
use minerule.FsTree.{Node, FsTree}
use minerule.FsTree.Mine.{count_path, add_result_loop, add_result, add_results, mine_loop, mine}
use minerule.FsTree.Sums.{total, listed, deep, weigh, deep_sum-weigh, weigh-nothing}
use minerule.FsTree.Growth.{Grown, get_elem?-reached}

-- How many of the next `c` extensions of `s` to the front, by the items of `q`, are `k`.
abbrev pub hits : ℕ → Seq → Seq → Seq → ℕ
hits zero s q k = 0
hits (suc c) s [] k = 0
hits (suc c) s (x ∷ q) k = let rest = hits c (x ∷ s) q k in indicator (same_key k (x ∷ s)) + rest

-- The number of rounds of `addResult`, for a path that is `c` longer than one item.
abbrev pub steps : ℕ → ℕ → ℕ
steps max_length c = if leb max_length c && not (max_length == 0) then max_length - 1 else c

-- How often `addResult` counts `k` for a node with the mark `p`.
abbrev pub gain : ℕ → Seq → Seq → ℕ
gain max_length k [] = 0
gain max_length k (x ∷ q) = hits (steps max_length (length q)) (x ∷ []) q k

pub value-add :
    (k l : Seq) (n : ℕ) (m : SeqMap ℕ)
    → value 0 k (put l (value 0 l m + n) m) ≡ value 0 k m + n * indicator (same_key k l)
value-add k l n m = elim (Bool-cases (same_key k l)) [
  | inl e ↦
      let same : k ≡ l = eq_of_same_key k l e in
      rw (e, same) (value-put_same 0 l (value 0 l m + n) m ∙ omega arith)
  | inr e ↦ rw e (value-put_other 0 l k (value 0 l m + n) m e ∙ omega arith)
]

pub steps-le : (max_length c : ℕ) → steps max_length c ≤ c
steps-le max_length c = ground arith

pub steps-cases :
    (max_length c : ℕ)
    → (steps max_length c ≡ c) ⊎ ((max_length ≢ 0) × (max_length ≤ 1 + steps max_length c))
steps-cases max_length c = elim (Bool-cases (leb max_length c && not (max_length == 0))) [
  | inl e ↦ inr (λ z. ground arith, rw e (omega arith))
  | inr e ↦ inl (rw e refl)
]

zero_add : (a : ℕ) → 0 + a ≡ a
zero_add a = omega arith

distribute : (v c a b : ℕ) → v + c * a + c * b ≡ v + c * (a + b)
distribute v c a b = grind arith

-- 1 for a pointer to the root or to no node.
abbrev stray_mark : Option Seq → ℕ
stray_mark none = 1
stray_mark (some []) = 1
stray_mark (some (x ∷ q)) = 0

stray_mark-zero : (o : Option Seq) → stray_mark o ≡ 0 → (x : Item) × (q : Seq) × (o ≡ some (x ∷ q))
stray_mark-zero none h = ground arith
stray_mark-zero (some []) h = ground arith
stray_mark-zero (some (x ∷ q)) h = (x, q, refl)

deep-stray : (p : Seq) (n : ℕ) → n ≡ stray_mark (some p) → deep p n ≡ 0
deep-stray [] n h = refl
deep-stray (x ∷ []) n h = refl
deep-stray (x ∷ y ∷ p) n h = h

deep-share :
    (f : Seq → ℕ) (p : Seq) (n c : ℕ)
    → ((x : Item) → f (x ∷ []) ≡ 0)
    → f [] ≡ 0
    → n ≡ c * f p
    → deep p n ≡ c * f p
deep-share f [] n c one none_there h = rw none_there (omega arith)
deep-share f (x ∷ []) n c one none_there h = rw (one x) (omega arith)
deep-share f (x ∷ y ∷ p) n c one none_there h = h

module _ (heap : List Node) (m_list : SeqMap (List ℕ)) (marks : List Seq)
    (g : Grown heap m_list marks) where
  -- The node with a given mark, and its parent's mark.
  View : ℕ → Item → Seq → Type 0
  View i x q =
      (nod : Node) × (get_elem? heap i ≡ some nod)
      × (nod.label ≡ x)
      × (get_elem? marks nod.parent ≡ some q)
      × (nod.parent < i)

  marks-View : (i : ℕ) (x : Item) (q : Seq) → get_elem? marks i ≡ some (x ∷ q) → View i x q
  unfolding View
  marks-View i x q h =
      let (nod, here) = get_elem?-reached heap marks i (x ∷ q) g.sized h in
      elim (g.marked i nod here) [
        | inl (e, k) ↦ absurd (cc)
        | inr (p, up, own, l) ↦
            let same : nod.label ∷ p ≡ x ∷ q =
              get_elem?-same (get_elem? marks i) (nod.label ∷ p) (x ∷ q) own h in
            (nod, here, cc, subst (λ r. get_elem? marks nod.parent ≡ some r) (tail_eq same) up, l)
      ]
    where
      tail_eq : {a b : ℕ} {p q : Seq} → a ∷ p ≡ b ∷ q → p ≡ q
      tail_eq e = cc

  empty-root : (i : ℕ) → get_elem? marks i ≡ some [] → i ≡ 0
  empty-root i h =
      let (nod, here) = get_elem?-reached heap marks i [] g.sized h in
      elim (g.marked i nod here) [ inl (e, k) ↦ e | inr (p, up, own, l) ↦ absurd cc ]

  not_root : (i : ℕ) (x : Item) (q : Seq) → get_elem? marks i ≡ some (x ∷ q) → (i == 0) ≡ false
  not_root zero x q h = absurd (not_empty h g.rooted)
    where
      not_empty : {o : Option Seq} → o ≡ some (x ∷ q) → o ≡ some [] → ⊥
      not_empty a b = cc
  not_root (suc i) x q h = ground arith

  count_path-stops :
      (fuel i : ℕ) (nod : Node) (c : ℕ)
      → get_elem? heap i ≡ some nod
      → nod.parent ≡ 0
      → count_path (suc fuel) heap i c ≡ some c
  unfolding count_path
  count_path-stops fuel i nod c h e = ground (arith, h)

  count_path-climbs :
      (fuel i : ℕ) (nod : Node) (c : ℕ)
      → get_elem? heap i ≡ some nod
      → (nod.parent == 0) ≡ false
      → count_path (suc fuel) heap i c ≡ count_path fuel heap nod.parent (c + 1)
  unfolding count_path
  count_path-climbs fuel i nod c h e = ground (arith, h)

  count_path-length :
      (fuel i : ℕ) (x : Item) (q : Seq) (c : ℕ)
      → i < fuel
      → get_elem? marks i ≡ some (x ∷ q)
      → count_path fuel heap i c ≡ some (c + length q)
  unfolding View
  count_path-length zero i x q c l h = ground arith
  count_path-length (suc fuel) i x [] c l h =
      let (nod, here, label, up, lt) = marks-View i x [] h in
      count_path-stops fuel i nod c here (empty-root nod.parent up) ∙ ap some (omega arith)
  count_path-length (suc fuel) i x (y ∷ q) c l h =
      let (nod, here, label, up, lt) = marks-View i x (y ∷ q) h in
      count_path-climbs fuel i nod c here (not_root nod.parent y q up)
      ∙ count_path-length fuel nod.parent y q (c + 1) (omega (arith, lt, l)) up
      ∙ ap some (omega arith)

  add_result_loop-hits :
      (c temp : ℕ) (x : Item) (s q : Seq) (count : ℕ) (result : SeqMap ℕ)
      → c ≤ length q
      → get_elem? marks temp ≡ some (x ∷ q)
      → (after : SeqMap ℕ) × (add_result_loop c heap temp s count result ≡ some after)
        × (Distinct result → Distinct after)
        × ((k : Seq) → value 0 k after ≡ value 0 k result + count * hits c s q k)
  unfolding add_result_loop View
  add_result_loop-hits zero temp x s q count result l h = (result, refl, λ d. d, λ k. omega arith)
  add_result_loop-hits (suc c) temp x s [] count result l h = ground arith
  add_result_loop-hits (suc c) temp x s (y ∷ q) count result l h =
      let (nod, here, label, up, lt) = marks-View temp x (y ∷ q) h in
      let (above, there, label', up', lt') = marks-View nod.parent y q up in
      let longer = above.label ∷ s in
      let (after, e, distinct, gained) =
        add_result_loop-hits c nod.parent y longer q count
          (put longer (value 0 longer result + count) result) (omega (arith, l)) up in
      let gained' =
        subst
          (λ z.
            (k : Seq)
            → value 0 k after
              ≡ value 0 k (put (z ∷ s) (value 0 (z ∷ s) result + count) result)
                + count * hits c (z ∷ s) q k)
          label' gained in
      (
        after,
        rw (here, there) e,
        λ d. distinct (Distinct-put longer (value 0 longer result + count) result d),
        λ k.
            gained' k
            ∙ ap (λ v. v + count * hits c (y ∷ s) q k) (value-add k (y ∷ s) count result)
            ∙ distribute (value 0 k result) count (indicator (same_key k (y ∷ s)))
                (hits c (y ∷ s) q k),
      )

  add_result-gain :
      (max_length n : ℕ) (x : Item) (q : Seq) (nod : Node) (result : SeqMap ℕ)
      → get_elem? heap n ≡ some nod
      → get_elem? marks n ≡ some (x ∷ q)
      → (after : SeqMap ℕ) × (add_result heap max_length n result ≡ some after)
        × (Distinct result → Distinct after)
        × ((k : Seq) → value 0 k after ≡ value 0 k result + nod.count * gain max_length k (x ∷ q))
  unfolding add_result View
  add_result-gain max_length n x q nod result here h =
      let (nod', here', label, up, lt) = marks-View n x q h in
      let same : nod.label ≡ x =
        ap (λ m. m.label) (get_elem?-same (get_elem? heap n) nod nod' here here') ∙ label in
      let path =
        count_path-length (length heap) n x q 0 (get_elem?-lt heap n nod here) h
        ∙ ap some (zero_add (length q)) in
      let (after, e, distinct, gained) =
        add_result_loop-hits (steps max_length (length q)) n x (x ∷ []) q nod.count result
          (steps-le max_length (length q)) h in
      (after, rw (path, here, same) e, distinct, gained)

  -- What `mine` counts for the node `n`, with the weight `f` of its mark.
  abbrev share : (Seq → ℕ) → ℕ → ℕ
  share f n = elim (get_elem? heap n) [
    | none ↦ 0
    | some nod ↦ elim (get_elem? marks n) [ none ↦ 0 | some p ↦ nod.count * f p ]
  ]

  share_of :
      (f : Seq → ℕ) (n : ℕ) (nod : Node) (p : Seq)
      → get_elem? heap n ≡ some nod
      → get_elem? marks n ≡ some p
      → share f n ≡ nod.count * f p
  share_of f n nod p h k = rw (h, share) (rw k refl)

  abbrev stray : ℕ → ℕ
  stray n = stray_mark (get_elem? marks n)

  listed-share :
      (f : Seq → ℕ)
      → ((x : Item) → f (x ∷ []) ≡ 0)
      → f [] ≡ 0
      → listed (share f) m_list ≡ weigh f heap marks
  listed-share f one none_there =
      g.listing (share f)
      ∙ deep_sum-weigh (share f) f heap marks 0 g.sized (λ j nod p h k.
        let at : share f (0 + j) ≡ nod.count * f p =
          ap (share f) (zero_add j) ∙ share_of f j nod p h k in
        deep-share f p (share f (0 + j)) nod.count one none_there at)

  listed-stray : listed stray m_list ≡ 0
  listed-stray =
      g.listing stray
      ∙ deep_sum-weigh stray (λ p. 0) heap marks 0 g.sized
          (λ j nod p h k.
            let at : stray (0 + j) ≡ stray_mark (some p) = rw (zero_add j, k) refl in
            deep-stray p (stray (0 + j)) at ∙ omega arith)
      ∙ weigh-nothing heap marks

  add_results-gain :
      (max_length : ℕ) (vec : List ℕ) (result : SeqMap ℕ)
      → total stray vec ≡ 0
      → (after : SeqMap ℕ) × (add_results heap max_length vec result ≡ some after)
        × (Distinct result → Distinct after)
        × ((k : Seq) → value 0 k after ≡ value 0 k result + total (share (gain max_length k)) vec)
  unfolding add_results
  add_results-gain max_length [] result h = (result, refl, λ d. d, λ k. omega arith)
  add_results-gain max_length (n ∷ vec) result h =
      let (x, q, at) = stray_mark-zero (get_elem? marks n) (omega (arith, h)) in
      let (nod, here) = get_elem?-reached heap marks n (x ∷ q) g.sized at in
      let (after, e, distinct, gained) = add_result-gain max_length n x q nod result here at in
      let (last, e', distinct', gained') =
        add_results-gain max_length vec after (omega (arith, h)) in
      (
        last,
        rw e e',
        λ d. distinct' (distinct d),
        λ k. omega (arith, gained k, gained' k, share_of (gain max_length k) n nod (x ∷ q) here at),
      )

  mine_loop-gain :
      (max_length : ℕ) (m : SeqMap (List ℕ)) (result : SeqMap ℕ)
      → listed stray m ≡ 0
      → (after : SeqMap ℕ) × (mine_loop heap max_length m result ≡ some after)
        × (Distinct result → Distinct after)
        × ((k : Seq) → value 0 k after ≡ value 0 k result + listed (share (gain max_length k)) m)
  unfolding mine_loop
  mine_loop-gain max_length [] result h = (result, refl, λ d. d, λ k. omega arith)
  mine_loop-gain max_length ((l, vec) ∷ m) result h =
      let (after, e, distinct, gained) =
        add_results-gain max_length vec result (omega (arith, h)) in
      let (last, e', distinct', gained') = mine_loop-gain max_length m after (omega (arith, h)) in
      (last, rw e e', λ d. distinct' (distinct d), λ k. omega (arith, gained k, gained' k))

gain-short : (max_length : ℕ) (k : Seq) (x : Item) → gain max_length k (x ∷ []) ≡ 0
gain-short max_length k x = hits-none (steps max_length 0)
  where
    hits-none : (c : ℕ) → hits c (x ∷ []) [] k ≡ 0
    hits-none zero = refl
    hits-none (suc c) = refl

-- `mine` returns, and adds to the count of each sequence what the nodes weigh.
pub mine-weigh :
    (st : FsTree) (marks : List Seq)
    → Grown st.heap st.m_list marks
    → (st' : FsTree) × (mine st ≡ some st')
      × (Distinct st.result → Distinct st'.result)
      × ((k : Seq)
          → value 0 k st'.result ≡ value 0 k st.result + weigh (gain st.max_length k) st.heap marks)
unfolding mine
mine-weigh st marks g =
    let (after, e, distinct, gained) =
      mine_loop-gain st.heap st.m_list marks g st.max_length st.m_list st.result
        (listed-stray st.heap st.m_list marks g) in
    (
      record st { result = after },
      rw e refl,
      distinct,
      λ k. omega (
        arith,
        gained k,
        listed-share st.heap st.m_list marks g (gain st.max_length k) (gain-short st.max_length k)
            refl,
      ),
    )

-- ===== src/FsTree/Sums.antt =====
-- Sums over the nodes of the tree: along the lists of nodes that `m_list` holds, and along the heap.
use minerule.Prelude.{
  ℕ, zero, suc, ◌+◌, ◌*◌, ◌≡◌, refl, ap, ◌∙◌, arith, true, false, some, List, [], ◌∷◌, ◌++◌, length,
  get_elem?, set, ◌⊎◌, inl, inr, Bool-cases, some_inj,
}
use minerule.FsTreeSequence.{Seq, same_key, SeqMap, value, put}
use minerule.FsTree.{Node}

abbrev pub total : (ℕ → ℕ) → List ℕ → ℕ
total w [] = 0
total w (n ∷ vec) = w n + total w vec

abbrev pub listed : (ℕ → ℕ) → SeqMap (List ℕ) → ℕ
listed w [] = 0
listed w ((k, vec) ∷ m) = total w vec + listed w m

total-append : (w : ℕ → ℕ) (vec : List ℕ) (n : ℕ) → total w (vec ++ n ∷ []) ≡ total w vec + w n
total-append w [] n = omega arith
total-append w (m ∷ vec) n = omega (arith, total-append w vec n)

listed-put_any :
    (w : ℕ → ℕ) (k : Seq) (v : List ℕ) (m : SeqMap (List ℕ))
    → listed w (put k v m) + total w (value [] k m) ≡ listed w m + total w v
unfolding value put
listed-put_any w k v [] = omega arith
listed-put_any w k v ((a, vec) ∷ m) = step (Bool-cases (same_key k a)) (listed-put_any w k v m)
  where
    step :
        (same_key k a ≡ true) ⊎ (same_key k a ≡ false)
        → listed w (put k v m) + total w (value [] k m) ≡ listed w m + total w v
        → listed w (put k v ((a, vec) ∷ m)) + total w (value [] k ((a, vec) ∷ m))
          ≡ total w vec + listed w m + total w v
    step (inl e) later = rw (e, put, value) (omega arith)
    step (inr e) later = rw (e, put, value) (omega (arith, later))

pub listed-put :
    (w : ℕ → ℕ) (k : Seq) (n : ℕ) (m : SeqMap (List ℕ))
    → listed w (put k (value [] k m ++ n ∷ []) m) ≡ listed w m + w n
listed-put w k n m =
    omega (arith, listed-put_any w k (value [] k m ++ n ∷ []) m, total-append w (value [] k m) n)

-- `n` for a path of two items or more.
abbrev pub deep : Seq → ℕ → ℕ
deep [] n = 0
deep (x ∷ []) n = 0
deep (x ∷ y ∷ p) n = n

-- The sum over the places from `i` on that have such a mark.
abbrev pub deep_sum : (ℕ → ℕ) → List Seq → ℕ → ℕ
deep_sum w [] i = 0
deep_sum w (p ∷ marks) i = deep p (w i) + deep_sum w marks (i + 1)

pub deep_sum-append :
    (w : ℕ → ℕ) (marks : List Seq) (p : Seq) (i : ℕ)
    → deep_sum w (marks ++ p ∷ []) i ≡ deep_sum w marks i + deep p (w (i + length marks))
deep_sum-append w [] p i =
    let e : deep p (w i) ≡ deep p (w (i + 0)) = ap (λ k. deep p (w k)) (omega arith) in
    omega (arith, e)
deep_sum-append w (q ∷ marks) p i =
    let e : deep p (w (i + 1 + length marks)) ≡ deep p (w (i + suc (length marks))) =
      ap (λ k. deep p (w k)) (omega arith) in
    omega (arith, deep_sum-append w marks p (i + 1), e)

-- The counts of the nodes, each times the weight of its mark.
abbrev pub weigh : (Seq → ℕ) → List Node → List Seq → ℕ
weigh g [] marks = 0
weigh g (nod ∷ heap) [] = 0
weigh g (nod ∷ heap) (p ∷ marks) = nod.count * g p + weigh g heap marks

pub weigh-append :
    (g : Seq → ℕ) (heap : List Node) (marks : List Seq) (nod : Node) (p : Seq)
    → length marks ≡ length heap
    → weigh g (heap ++ nod ∷ []) (marks ++ p ∷ []) ≡ weigh g heap marks + nod.count * g p
weigh-append g [] [] nod p h = omega arith
weigh-append g [] (q ∷ marks) nod p h = ground arith
weigh-append g (m ∷ heap) [] nod p h = ground arith
weigh-append g (m ∷ heap) (q ∷ marks) nod p h =
    omega (arith, weigh-append g heap marks nod p (omega (arith, h)))

first_weigh :
    (g : Seq → ℕ) (m old new : Node) (q p : Seq) (rest more : ℕ)
    → m ≡ old
    → q ≡ p
    → new.count ≡ old.count + more
    → new.count * g q + rest ≡ m.count * g q + rest + more * g p
first_weigh g m old new q p rest more h k e =
    let h' : m.count ≡ old.count = ap (λ r. r.count) h in
    let k' : g q ≡ g p = ap g k in rw (e, k', h') (ring_step old.count more (g p) rest)
  where
    ring_step : (c m x r : ℕ) → (c + m) * x + r ≡ c * x + r + m * x
    ring_step c m x r = grind arith

pub weigh-set :
    (g : Seq → ℕ) (heap : List Node) (marks : List Seq) (i : ℕ) (old new : Node) (p : Seq)
    (more : ℕ)
    → get_elem? heap i ≡ some old
    → get_elem? marks i ≡ some p
    → new.count ≡ old.count + more
    → weigh g (set heap i new) marks ≡ weigh g heap marks + more * g p
weigh-set g [] marks i old new p more h k e = cc
weigh-set g (m ∷ heap) [] i old new p more h k e = cc
weigh-set g (m ∷ heap) (q ∷ marks) zero old new p more h k e =
    first_weigh g m old new q p (weigh g heap marks) more (some_inj h) (some_inj k) e
weigh-set g (m ∷ heap) (q ∷ marks) (suc i) old new p more h k e =
    omega (arith, weigh-set g heap marks i old new p more h k e)

pub deep_sum-weigh :
    (w : ℕ → ℕ) (f : Seq → ℕ) (heap : List Node) (marks : List Seq) (i : ℕ)
    → length marks ≡ length heap
    → ((j : ℕ) (nod : Node) (p : Seq)
        → get_elem? heap j ≡ some nod
        → get_elem? marks j ≡ some p
        → deep p (w (i + j)) ≡ nod.count * f p)
    → deep_sum w marks i ≡ weigh f heap marks
deep_sum-weigh w f [] [] i e h = refl
deep_sum-weigh w f [] (p ∷ marks) i e h = ground arith
deep_sum-weigh w f (nod ∷ heap) [] i e h = refl
deep_sum-weigh w f (nod ∷ heap) (p ∷ marks) i e h =
    let first : deep p (w i) ≡ nod.count * f p =
      ap (λ k. deep p (w k)) (plus_zero i) ∙ h 0 nod p refl refl in
    let rest : deep_sum w marks (i + 1) ≡ weigh f heap marks =
      deep_sum-weigh w f heap marks (i + 1) (omega (arith, e))
        (λ j m q a b. ap (λ k. deep q (w k)) (plus_suc i j) ∙ h (suc j) m q a b) in
    omega (arith, first, rest)
  where
    plus_zero : (i : ℕ) → i ≡ i + 0
    plus_zero i = omega arith

    plus_suc : (i j : ℕ) → i + 1 + j ≡ i + suc j
    plus_suc i j = omega arith

pub weigh-nothing : (heap : List Node) (marks : List Seq) → weigh (λ p. 0) heap marks ≡ 0
weigh-nothing [] marks = refl
weigh-nothing (nod ∷ heap) [] = refl
weigh-nothing (nod ∷ heap) (p ∷ marks) = omega (arith, weigh-nothing heap marks)

-- ===== src/GaQueryCombinator/Meaning.antt =====
-- The predicate that a genome stands for is the combination that `buildResult` decodes from it.
use minerule.Prelude.{
  ℕ, zero, suc, ◌+◌, ◌*◌, ◌^◌, ◌<◌, ◌≤◌, ◌≡◌, refl, sym, ap, ◌∙◌, arith, Bool, true, false, ◌||◌,
  some, List, [], ◌∷◌, ◌++◌, append-nil, length, replicate, ap₂, all, any, inl, inr, length-append,
}
use mathlib.Core.Path.{subst}
use native.Mathlib.Nat.{suc-mul}
use minerule.Predicate.{Ref, Predicate, or_with}
use minerule.Predicate.Meaning.{holds_any, any-append}
use minerule.GaQueryCombinator.{
  Building, build_disjuncts, Combination, build_associated_predicate, count_true, QueryAndList,
  QueryOrList, or_list, build_result,
}
use minerule.GaQueryCombinator.Joined.{
  AllCandidates, and_holds, Past, Joined, join_candidates-Joined,
}

abbrev pub total_length : QueryOrList → ℕ
total_length [] = 0
total_length (row ∷ rows) = length row + total_length rows

total_length-append :
    (rows : QueryOrList) (row : QueryAndList)
    → total_length (rows ++ row ∷ []) ≡ total_length rows + length row
total_length-append [] row = omega arith
total_length-append (r ∷ rows) row = omega (arith, total_length-append rows row)

plus_zero : (i : ℕ) → i + 0 ≡ i
plus_zero i = omega arith

module _ (candidates : List Predicate) where
  abbrev Combined : ℕ → Predicate → QueryOrList → Building → Type 0
  Combined i p rows b =
      ((v : Ref → Bool) → holds_any v p ≡ any (and_holds candidates v) rows)
      × (b.num_used_disjuncts ≡ length rows)
      × (b.num_asserted_bits ≡ total_length rows)
      × Past i b.last_used_disj

  -- The rows with one more, if it is not empty.
  abbrev with_row : QueryOrList → QueryAndList → QueryOrList
  with_row rows row = elim row as (λ _. QueryOrList) [ [] ↦ rows | j ∷ js ↦ rows ++ (j ∷ js) ∷ [] ]

  one_more_row :
      (i : ℕ) (p : Predicate) (rows : QueryOrList) (b b' : Building) (row : QueryAndList)
      → Combined i p rows b
      → Joined candidates i (length rows) (total_length rows) b' row
      → Combined (i + 1) (or_with p b'.inner_pred) (with_row rows row) b'
  unfolding or_with
  one_more_row i p rows b b' row (means, u, t, past)
        (small, asserted, inl (none, first, past', used)) =
      subst (λ r. Combined (i + 1) (or_with p b'.inner_pred) (with_row rows r) b') (sym first)
        (
          λ v. ap (holds_any v) (ap (λ q. p ++ q) none ∙ append-nil p) ∙ means v,
          used,
          omega (arith, asserted, ap length first),
          later i b'.last_used_disj past',
        )
    where
      later : (i last : ℕ) → Past i last → Past (i + 1) last
      later i last (inl l) = inl (omega (arith, l))
      later i last (inr e) = inr e
  one_more_row i p rows b b' row (means, u, t, past)
        (small, asserted, inr (d, q, j, js, inner, some_yet, last, used, here)) =
      subst (λ r. Combined (i + 1) (or_with p b'.inner_pred) (with_row rows r) b') (sym some_yet)
        (
          λ v.
              ap (λ q. holds_any v (p ++ q)) inner
              ∙ any-append (all v) p (d ∷ q)
              ∙ ap₂ (λ a b. a || b) (means v) (here v ∙ or_false (and_holds candidates v (j ∷ js)))
              ∙ sym (any-append (and_holds candidates v) rows ((j ∷ js) ∷ [])),
          used ∙ sym (length-append rows ((j ∷ js) ∷ [])),
          omega (arith, asserted, ap length some_yet, total_length-append rows (j ∷ js)),
          inl (omega (arith, last)),
        )
    where
      or_false : (b : Bool) → b ≡ (b || false)
      or_false true = refl
      or_false false = refl

  Joined-nothing :
      (i : ℕ) (p : Predicate) (rows : QueryOrList) (b : Building)
      → i < 2 ^ 10
      → Combined i p rows b
      → Joined candidates i (length rows) (total_length rows) (record b { inner_pred = [] }) []
  Joined-nothing i p rows b small (means, u, t, past) =
      (small, omega (arith, t), inl (refl, refl, past, u))

  build_disjuncts-Combined :
      (genome : List Bool) (i left : ℕ) (p : Predicate) (rows : QueryOrList) (b : Building)
      → AllCandidates candidates
      → i * length candidates + left * length candidates ≤ length genome
      → i + left ≤ 2 ^ 10
      → Combined i p rows b
      → (p' : Predicate) × (b' : Building) × (rows' : QueryOrList) × (build_disjuncts genome
            candidates i left p b
          ≡ some (p', b'))
        × (or_list genome (length candidates) i left rows ≡ some rows')
        × Combined (i + left) p' rows' b'
  unfolding build_disjuncts or_list
  build_disjuncts-Combined genome i zero p rows b fits inside small h =
      (p, b, rows, refl, refl, subst (λ n. Combined n p rows b) (sym (plus_zero i)) h)
  build_disjuncts-Combined genome i (suc left) p rows b fits inside small h =
      let n = length candidates in
      let one_more : suc left * n ≡ left * n + n = suc-mul left n in
      let next : (i + 1) * n ≡ i * n + n = next_row i n in
      let (b1, row, e, f, k) =
        join_candidates-Joined candidates genome (i * n) i (length rows) (total_length rows) []
          candidates (record b { inner_pred = [] }) [] refl fits (omega (arith, inside, one_more))
          (Joined-nothing i p rows b (omega (arith, small)) h) in
      let (p', b', rows', e', f', k') =
        build_disjuncts-Combined genome (i + 1) left (or_with p b1.inner_pred) (with_row rows row)
          b1 fits (omega (arith, inside, one_more, next)) (omega (arith, small))
          (one_more_row i p rows b b1 row h k) in
      (p', b', rows', rw e e', rw f f', subst (λ m. Combined m p' rows' b') (plus_suc i left) k')
    where
      next_row : (i n : ℕ) → (i + 1) * n ≡ i * n + n
      next_row i n = grind arith

      plus_suc : (i left : ℕ) → i + 1 + left ≡ i + suc left
      plus_suc i left = omega arith

  -- For candidates that all have a disjunct and fewer than 2 ^ 64, at most 1024 disjuncts, and a
  -- genome with a bit for each candidate in each disjunct, buildAssociatedPredicate and, where the
  -- best fitness is HUGE_VAL, buildResult return; the predicate that is built holds, read as a
  -- disjunction, where some row of the decoded result holds as the conjunction of its candidates,
  -- the disjuncts that are counted are the rows, and the bits their entries.
  pub build_associated_predicate-build_result :
      (genome : List Bool) (max_disjuncts : ℕ)
      → AllCandidates candidates
      → max_disjuncts * length candidates ≤ length genome
      → max_disjuncts ≤ 2 ^ 10
      → (c : Combination) × (rows : QueryOrList) × (build_associated_predicate genome candidates
            max_disjuncts
          ≡ some c)
        × (build_result true genome (length candidates) max_disjuncts ≡ some rows)
        × ((v : Ref → Bool) → holds_any v c.predicate ≡ any (and_holds candidates v) rows)
        × (c.num_used_disjuncts ≡ length rows)
        × (c.num_asserted_bits ≡ total_length rows)
  unfolding build_associated_predicate build_result
  build_associated_predicate-build_result genome max_disjuncts fits inside small =
      let (p, b, rows, e, f, (means, u, t, past)) =
        build_disjuncts-Combined genome 0 max_disjuncts [] []
          (record {
            inner_pred = [];
            last_used_disj = 2 ^ 10;
            used_queries = replicate (length candidates) false;
            num_used_disjuncts = 0;
            num_asserted_bits = 0;
          })
          fits (omega (arith, inside)) (omega (arith, small)) (λ v. refl, refl, refl, inr refl) in
      (
        record {
          predicate = p;
          num_used_disjuncts = b.num_used_disjuncts;
          num_used_queries = count_true b.used_queries;
          num_asserted_bits = b.num_asserted_bits;
        },
        rows,
        rw e refl,
        f,
        means,
        u,
        t,
      )

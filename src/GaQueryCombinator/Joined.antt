-- ===== src/GaQueryCombinator/Joined.antt =====
-- One disjunct: the conjunction that is built from a row of bits, and the indices that are decoded.
use minerule.Prelude.{
  ℕ, zero, suc, ◌+◌, ◌^◌, ◌<◌, ◌≤◌, ◌≡◌, refl, sym, ap, ◌∙◌, arith, Bool, true, false, ◌&&◌, ◌==◌,
  if◌then◌else◌, some, List, [], ◌∷◌, ◌++◌, append_assoc, length, get_elem?, get_or, set, map, ap₂,
  ==_iff, all, ◌⊎◌, inl, inr, length-append,
}
use minerule.Predicate.{Ref, Predicate, or_with, size_mod}
use minerule.Predicate.Meaning.{holds, holds_any, all-append}
use minerule.Predicate.Conjoin.{product, and_with-product, holds_any-product}
use minerule.GaQueryCombinator.{
  Building, join_candidate, assert_query, join_candidates, QueryAndList, and_list,
}

-- A candidate has a disjunct, and fewer than 2 ^ 64.
abbrev pub IsCandidate : Predicate → Type 0
IsCandidate [] = ⊥
IsCandidate (d ∷ p) = length (d ∷ p) < size_mod

abbrev pub AllCandidates : List Predicate → Type 0
AllCandidates [] = Unit {0}
AllCandidates (c ∷ l) = IsCandidate c × AllCandidates l

-- The conjunction of the candidates of a list of indices.
abbrev pub and_holds : List Predicate → (Ref → Bool) → QueryAndList → Bool
and_holds candidates v row = all (λ j. holds v (get_or candidates j [])) row

get_elem?-reaches : (l : List Bool) (i : ℕ) → i < length l → (b : Bool) × (get_elem? l i ≡ some b)
get_elem?-reaches [] i h = ground arith
get_elem?-reaches (b ∷ l) zero h = (b, refl)
get_elem?-reaches (b ∷ l) (suc i) h = get_elem?-reaches l i (omega (arith, h))

get_or-middle :
    (before : List Predicate) (c : Predicate) (after : List Predicate)
    → get_or (before ++ c ∷ after) (length before) [] ≡ c
get_or-middle [] c after = refl
get_or-middle (d ∷ before) c after = get_or-middle before c after

-- The mark of the last used disjunct is not yet that of disjunct `i`.
abbrev pub Past : ℕ → ℕ → Type 0
Past i last = (last < i) ⊎ (last ≡ 2 ^ 10)

other_of_Past : (i last : ℕ) → i < 2 ^ 10 → Past i last → (last == i) ≡ false
other_of_Past i last h (inl l) = ground arith
other_of_Past i last h (inr e) = ground arith

module _ (candidates : List Predicate) where
  -- The conjunction so far, and the indices so far of disjunct `i`; `used` disjuncts and `bits` bits
  -- were counted before it.
  abbrev pub Joined : ℕ → ℕ → ℕ → Building → QueryAndList → Type 0
  Joined i used bits b row =
      (i < 2 ^ 10)
      × (b.num_asserted_bits ≡ bits + length row)
      × (((b.inner_pred ≡ [])
            × (row ≡ [])
            × Past i b.last_used_disj
            × (b.num_used_disjuncts ≡ used))
          ⊎ ((d : List Ref) × (p : Predicate) × (j : ℕ) × (js : QueryAndList) × (b.inner_pred
                ≡ d ∷ p)
              × (row ≡ j ∷ js)
              × (b.last_used_disj ≡ i)
              × (b.num_used_disjuncts ≡ used + 1)
              × ((v : Ref → Bool) → holds_any v (d ∷ p) ≡ and_holds candidates v (j ∷ js))))

  -- The state after the bit of candidate `j` in disjunct `i`.
  abbrev asserted_to : ℕ → ℕ → Predicate → Building → Building
  asserted_to i j joined b = record {
    inner_pred = joined;
    last_used_disj = i;
    used_queries = set b.used_queries j true;
    num_used_disjuncts = b.num_used_disjuncts + (if b.last_used_disj == i then 0 else 1);
    num_asserted_bits = b.num_asserted_bits + 1;
  }

  assert_query-asserted_to :
      (i j : ℕ) (c joined inner : Predicate) (b : Building)
      → b.inner_pred ≡ inner
      → join_candidate inner c ≡ some joined
      → assert_query i j c b ≡ some (asserted_to i j joined b)
  unfolding assert_query
  assert_query-asserted_to i j c joined inner b e h =
      let joins : join_candidate b.inner_pred c ≡ some joined =
        ap (λ p. join_candidate p c) e ∙ h in
      rw joins refl

  join_first : (e : List Ref) (c : Predicate) → join_candidate [] (e ∷ c) ≡ some (e ∷ c)
  unfolding join_candidate or_with
  join_first e c = refl

  join_next :
      (d e : List Ref) (p c : Predicate)
      → length (e ∷ c) < size_mod
      → join_candidate (d ∷ p) (e ∷ c) ≡ some (product (d ∷ p) (e ∷ c))
  unfolding join_candidate
  join_next d e p c h = and_with-product (d ∷ p) e c h

  alone :
      (v : Ref → Bool) (j : ℕ) (e : List Ref) (c : Predicate)
      → get_or candidates j [] ≡ e ∷ c
      → holds_any v (e ∷ c) ≡ and_holds candidates v (j ∷ [])
  alone v j e c at = rw at (and_true (holds v (e ∷ c)))
    where
      and_true : (b : Bool) → b ≡ (b && true)
      and_true true = refl
      and_true false = refl

  assert_query-Joined :
      (i used bits j : ℕ) (c : Predicate) (b : Building) (row : QueryAndList)
      → IsCandidate c
      → get_or candidates j [] ≡ c
      → Joined i used bits b row
      → (b' : Building) × (assert_query i j c b ≡ some b') × Joined i used bits b' (row ++ j ∷ [])
  assert_query-Joined i used bits j [] b row fits at h = absurd fits
  assert_query-Joined i used bits j (e ∷ c) b row fits at
        (small, asserted, inl (none_yet, first, past, u)) =
      (
        asserted_to i j (e ∷ c) b,
        assert_query-asserted_to i j (e ∷ c) (e ∷ c) [] b none_yet (join_first e c),
        (
          small,
          omega (arith, asserted, length-append row (j ∷ [])),
          inr (
            e,
            c,
            j,
            [],
            refl,
            ap (λ r. r ++ j ∷ []) first,
            refl,
            rw (other_of_Past i b.last_used_disj small past) (omega (arith, u)),
            λ v. alone v j e c at,
          ),
        ),
      )
  assert_query-Joined i used bits j (e ∷ c) b row fits at
        (small, asserted, inr (d, p, k, ks, inner, some_yet, same, u, means)) =
      (
        asserted_to i j (product (d ∷ p) (e ∷ c)) b,
        assert_query-asserted_to i j (e ∷ c) (product (d ∷ p) (e ∷ c)) (d ∷ p) b inner
            (join_next d e p c fits),
        (
          small,
          omega (arith, asserted, length-append row (j ∷ [])),
          inr (
            d ++ e,
            map (λ x. x ++ e) p ++ product (d ∷ p) c,
            k,
            ks ++ j ∷ [],
            refl,
            ap (λ r. r ++ j ∷ []) some_yet,
            refl,
            rw ((==_iff b.last_used_disj i).1 same) (omega (arith, u)),
            λ v.
                holds_any-product v (d ∷ p) (e ∷ c)
                ∙ ap₂ (λ a b. a && b) (means v) (alone v j e c at)
                ∙ sym (all-append (λ j. holds v (get_or candidates j [])) (k ∷ ks) (j ∷ [])),
          ),
        ),
      )

  one_bit :
      (bit : Bool) (i used bits j : ℕ) (c : Predicate) (b : Building) (row : QueryAndList)
      → IsCandidate c
      → get_or candidates j [] ≡ c
      → Joined i used bits b row
      → (b' : Building) × ((if bit then assert_query i j c b else some b) ≡ some b')
        × Joined i used bits b' (if bit then row ++ j ∷ [] else row)
  one_bit true i used bits j c b row fit at h = assert_query-Joined i used bits j c b row fit at h
  one_bit false i used bits j c b row fit at h = (b, refl, h)

  -- Both inner loops, on the candidates `after` those that are done.
  pub join_candidates-Joined :
      (genome : List Bool) (first i used bits : ℕ) (before after : List Predicate) (b : Building)
      (row : QueryAndList)
      → candidates ≡ before ++ after
      → AllCandidates after
      → first + length before + length after ≤ length genome
      → Joined i used bits b row
      → (b' : Building) × (row' : QueryAndList) × (join_candidates genome first i
            (length before)
            after
            b
          ≡ some b')
        × (and_list genome first (length before) (length after) row ≡ some row')
        × Joined i used bits b' row'
  unfolding join_candidates and_list
  join_candidates-Joined genome first i used bits before [] b row whole fits inside h =
      (b, row, refl, refl, h)
  join_candidates-Joined genome first i used bits before (c ∷ after) b row whole (fit, fits) inside
        h =
      let (bit, here) = get_elem?-reaches genome (first + length before) (omega (arith, inside)) in
      let at : get_or candidates (length before) [] ≡ c =
        ap (λ l. get_or l (length before) []) whole ∙ get_or-middle before c after in
      let (b1, e1, h1) = one_bit bit i used bits (length before) c b row fit at h in
      let row1 = if bit then row ++ length before ∷ [] else row in
      let longer : length (before ++ c ∷ []) ≡ length before + 1 =
        length-append before (c ∷ []) ∙ omega arith in
      let (b2, row2, e2, e3, h2) =
        join_candidates-Joined genome first i used bits (before ++ c ∷ []) after b1 row1
          (whole ∙ sym (append_assoc before (c ∷ []) after)) fits (omega (arith, inside, longer))
          h1 in
      let e2' = ap (λ n. join_candidates genome first i n after b1) (sym longer) ∙ e2 in
      let e3' = ap (λ n. and_list genome first n (length after) row1) (sym longer) ∙ e3 in
      (b2, row2, rw (here, e1) e2', rw here e3', h2)

-- ===== src/FsTree/Tables.antt =====
-- The tables of pairs: `insertLink` counts the occurrences of each pair, `createLinkNSTable` lists the
-- pairs below the threshold, and `getResult` the sequences that are not.
use minerule.Prelude.{
  ℕ, zero, suc, ◌+◌, ◌<◌, ◌≡◌, refl, sym, ap, ◌∙◌, arith, Bool, true, false, [], ◌∷◌, length, ◌⊎◌,
  inl, inr, Bool-cases, indicator, if◌then◌else◌,
}
use mathlib.Core.Path.{subst}
use minerule.FsTreeSequence.{Item, Seq, slice, same_key, SeqMap, value, put}
use minerule.FsTreeSequence.Keys.{
  Absent, Distinct, Distinct-put, value-Absent, eq_of_same_key, same_key_refl, value-put_same,
  value-put_other, value_here, value_later,
}
use minerule.FsTree.{insert_link_loop, ns_loop}
use minerule.FsTree.Mine.{result_loop}
use minerule.FsTree.Occurrences.{starts, occurrences, same_key-cons}
use minerule.FsTree.Collect.{value-add}
use minerule.FsTree.Parts.{drop, length-drop, occurrences-single}

put_if :
    (k a : Seq) (v : ℕ) (m : SeqMap ℕ) (test : Bool)
    → same_key k a ≡ false
    → value 0 k (if test then put a v m else m) ≡ value 0 k m
put_if k a v m true h = value-put_other 0 a k v m h
put_if k a v m false h = refl

put_unless :
    (k a : Seq) (v : ℕ) (m : SeqMap ℕ) (test : Bool)
    → same_key k a ≡ false
    → value 0 k (if test then m else put a v m) ≡ value 0 k m
put_unless k a v m true h = refl
put_unless k a v m false h = value-put_other 0 a k v m h

put_unless_same :
    (k a : Seq) (v : ℕ) (m : SeqMap ℕ) (test : Bool)
    → same_key k a ≡ true
    → value 0 k m ≡ 0
    → value 0 k (if test then m else put a v m) ≡ (if test then 0 else v)
put_unless_same k a v m true h e = e
put_unless_same k a v m false h e =
    subst (λ l. value 0 l (put a v m) ≡ v) (sym (eq_of_same_key k a h)) (value-put_same 0 a v m)

nothing : (test : Bool) (n : ℕ) → n ≡ (if test then n else n)
nothing true n = refl
nothing false n = refl

module _ (low : ℕ → Bool) where
  ns_loop-Absent :
      (k : Seq) (entries link_ns : SeqMap ℕ)
      → Absent k entries
      → value 0 k (ns_loop low entries link_ns) ≡ value 0 k link_ns
  unfolding ns_loop
  ns_loop-Absent k [] link_ns h = refl
  ns_loop-Absent k ((a, count) ∷ entries) link_ns (h, rest) =
      ns_loop-Absent k entries (if low count then put a count link_ns else link_ns) rest
      ∙ put_if k a count link_ns (low count) h

  -- What is in the table of infrequent pairs has a low count.
  pub ns_loop-low :
      (k : Seq) (entries link_ns : SeqMap ℕ)
      → Distinct entries
      → (value 0 k (ns_loop low entries link_ns) ≡ value 0 k link_ns)
        ⊎ (low (value 0 k entries) ≡ true)
  unfolding ns_loop
  ns_loop-low k [] link_ns h = inl refl
  ns_loop-low k ((a, count) ∷ entries) link_ns (h, rest) =
      let next = if low count then put a count link_ns else link_ns in
      elim (Bool-cases (same_key k a)) [
        | inl e ↦
            let gone : value 0 k (ns_loop low entries next) ≡ value 0 k next =
              ns_loop-Absent k entries next
                (subst (λ l. Absent l entries) (sym (eq_of_same_key k a e)) h) in
            elim (Bool-cases (low count)) [
              | inl f ↦ inr (ap low (value_here k a count entries 0 e) ∙ f)
              | inr f ↦
                  inl (gone ∙ ap (λ b. value 0 k (if b then put a count link_ns else link_ns)) f)
            ]
        | inr e ↦ elim (ns_loop-low k entries next rest) [
          | inl g ↦ inl (g ∙ put_if k a count link_ns (low count) e)
          | inr g ↦ inr (ap low (value_later k a count entries 0 e) ∙ g)
        ]
      ]

  result_loop-Absent :
      (k : Seq) (entries t2 : SeqMap ℕ)
      → Absent k entries
      → value 0 k (result_loop low entries t2) ≡ value 0 k t2
  unfolding result_loop
  result_loop-Absent k [] t2 h = refl
  result_loop-Absent k ((a, count) ∷ entries) t2 (h, rest) =
      result_loop-Absent k entries (if low count then t2 else put a count t2) rest
      ∙ put_unless k a count t2 (low count) h

  pub result_loop-value :
      (k : Seq) (entries t2 : SeqMap ℕ)
      → Distinct entries
      → value 0 k t2 ≡ 0
      → value 0 k (result_loop low entries t2)
        ≡ (if low (value 0 k entries) then 0 else value 0 k entries)
  unfolding result_loop
  result_loop-value k [] t2 h e =
      e ∙ nothing (low 0) 0 ∙ ap (λ v. if low v then 0 else v) (sym (value-Absent k [] tt))
  result_loop-value k ((a, count) ∷ entries) t2 (h, rest) e =
      let next = if low count then t2 else put a count t2 in
      elim (Bool-cases (same_key k a)) [
        | inl f ↦
            result_loop-Absent k entries next
              (subst (λ l. Absent l entries) (sym (eq_of_same_key k a f)) h)
            ∙ put_unless_same k a count t2 (low count) f e
            ∙ ap (λ v. if low v then 0 else v) (sym (value_here k a count entries 0 f))
        | inr f ↦
            result_loop-value k entries next rest (put_unless k a count t2 (low count) f ∙ e)
            ∙ ap (λ v. if low v then 0 else v) (sym (value_later k a count entries 0 f))
      ]

-- `insertLink` adds to the count of a pair its occurrences.
slice-none : (s : Seq) → slice s 0 0 ≡ []
unfolding slice
slice-none [] = refl
slice-none (x ∷ s) = refl

pair_at :
    (a b : Item) (s : Seq) (i : ℕ)
    → suc i < length s
    → occurrences (a ∷ b ∷ []) (drop s i)
      ≡ indicator (same_key (a ∷ b ∷ []) (slice s i 2)) + occurrences (a ∷ b ∷ []) (drop s (i + 1))
unfolding slice
pair_at a b [] i h = ground arith
pair_at a b (x ∷ []) i h = ground arith
pair_at a b (x ∷ y ∷ s) zero h =
    let same : same_key (a ∷ b ∷ []) (x ∷ y ∷ slice s 0 0) ≡ starts (a ∷ b ∷ []) (x ∷ y ∷ s) =
      rw
        (
          slice-none s,
          same_key-cons a x (b ∷ []) (y ∷ []),
          same_key-cons b y [] [],
          same_key_refl [],
        )
        refl in
    omega (arith, ap indicator same)
pair_at a b (x ∷ y ∷ s) (suc i) h =
    pair_at a b (y ∷ s) i (omega (arith, h))
    ∙ ap
        (λ n.
          indicator (same_key (a ∷ b ∷ []) (slice (y ∷ s) i 2))
          + occurrences (a ∷ b ∷ []) (drop (x ∷ y ∷ s) n))
        (one_later i)
  where
    one_later : (i : ℕ) → suc (i + 1) ≡ suc i + 1
    one_later i = omega arith

pub insert_link_loop-occurrences :
    (a b : Item) (left i : ℕ) (s : Seq) (link_s : SeqMap ℕ)
    → i + left + 1 ≡ length s
    → value 0 (a ∷ b ∷ []) (insert_link_loop left i s link_s)
      ≡ value 0 (a ∷ b ∷ []) link_s + occurrences (a ∷ b ∷ []) (drop s i)
unfolding insert_link_loop
insert_link_loop-occurrences a b zero i s link_s h =
    omega (arith, occurrences-single a b [] (drop s i) (omega (arith, length-drop s i, h)))
insert_link_loop-occurrences a b (suc left) i s link_s h = omega (
  arith,
  insert_link_loop-occurrences a b left (i + 1) s
      (put (slice s i 2) (value 0 (slice s i 2) link_s + 1) link_s) (omega (arith, h)),
  value-add (a ∷ b ∷ []) (slice s i 2) 1 link_s,
  pair_at a b s i (omega (arith, h)),
)

pub insert_link_loop-Distinct :
    (left i : ℕ) (s : Seq) (link_s : SeqMap ℕ)
    → Distinct link_s
    → Distinct (insert_link_loop left i s link_s)
unfolding insert_link_loop
insert_link_loop-Distinct zero i s link_s h = h
insert_link_loop-Distinct (suc left) i s link_s h =
    insert_link_loop-Distinct left (i + 1) s
      (put (slice s i 2) (value 0 (slice s i 2) link_s + 1) link_s)
      (Distinct-put (slice s i 2) (value 0 (slice s i 2) link_s + 1) link_s h)

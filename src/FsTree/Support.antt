-- ===== src/FsTree/Support.antt =====
-- How often a sequence occurs in a data set, and that a frequent sequence has no infrequent pair.
use minerule.Prelude.{
  ℕ, ◌+◌, ◌≤◌, ◌≡◌, refl, sym, ap, ◌∙◌, arith, Bool, true, false, not, ◌==◌, List, [], ◌∷◌, inl,
  inr, Bool-cases,
}
use minerule.FsTreeSequence.{Item, Seq, SeqMap, value}
use minerule.FsTreeSequence.Keys.{Distinct}
use minerule.FsTree.{ns_loop}
use minerule.FsTree.Occurrences.{occurrences}
use minerule.FsTree.Cuts.{Sound, infrequent}
use minerule.FsTree.Tables.{ns_loop-low}

-- The occurrences of `k` in the sequences of a data set.
abbrev pub support : Seq → List (Item × Seq) → ℕ
support k [] = 0
support k ((gid, s) ∷ db) = occurrences k s + support k db

occurrences-tail_le :
    (a b : Item) (k : Seq) (x : Item) (t : Seq)
    → occurrences (a ∷ b ∷ k) (x ∷ t) ≤ occurrences (b ∷ k) t
occurrences-tail_le a b k x [] = ground arith
occurrences-tail_le a b k x (y ∷ t) = ground (arith, occurrences-tail_le a b k y t)

occurrences-pair_le :
    (a b : Item) (k t : Seq) → occurrences (a ∷ b ∷ k) t ≤ occurrences (a ∷ b ∷ []) t
occurrences-pair_le a b k [] = omega arith
occurrences-pair_le a b k (x ∷ []) = ground arith
occurrences-pair_le a b k (x ∷ y ∷ t) = ground (arith, occurrences-pair_le a b k (y ∷ t))

support-tail_le :
    (a b : Item) (k : Seq) (db : List (Item × Seq)) → support (a ∷ b ∷ k) db ≤ support (b ∷ k) db
support-tail_le a b k [] = omega arith
support-tail_le a b k ((gid, []) ∷ db) = omega (arith, support-tail_le a b k db)
support-tail_le a b k ((gid, x ∷ t) ∷ db) =
    omega (arith, support-tail_le a b k db, occurrences-tail_le a b k x t)

support-pair_le :
    (a b : Item) (k : Seq) (db : List (Item × Seq))
    → support (a ∷ b ∷ k) db ≤ support (a ∷ b ∷ []) db
support-pair_le a b k [] = omega arith
support-pair_le a b k ((gid, s) ∷ db) =
    omega (arith, support-pair_le a b k db, occurrences-pair_le a b k s)

-- The test for a low count holds of every lower count.
abbrev pub DownClosed : (ℕ → Bool) → Type 0
DownClosed low = (m n : ℕ) → m ≤ n → low n ≡ true → low m ≡ true

high_of_le : (low : ℕ → Bool) (m n : ℕ) → DownClosed low → n ≤ m → low n ≡ false → low m ≡ false
high_of_le low m n closed l h = elim (Bool-cases (low m)) [
  | inl e ↦ absurd (true-ne-false (sym (closed n m l e) ∙ h))
  | inr e ↦ e
]
  where
    true-ne-false : true ≡ false → ⊥
    true-ne-false q = cc

nothing_listed : (k : Seq) → not (value 0 k [] == 0) ≡ false
unfolding value
nothing_listed k = refl

module _ (low : ℕ → Bool) (closed : DownClosed low) (db : List (Item × Seq)) (link_s : SeqMap ℕ)
    (distinct : Distinct link_s)
    (counts : (a b : Item) → value 0 (a ∷ b ∷ []) link_s ≡ support (a ∷ b ∷ []) db) where
  pair-frequent :
      (a b : Item) (k : Seq)
      → low (support (a ∷ b ∷ k) db) ≡ false
      → infrequent (ns_loop low link_s []) a b ≡ false
  pair-frequent a b k h =
      let high : low (value 0 (a ∷ b ∷ []) link_s) ≡ false =
        ap low (counts a b)
        ∙ high_of_le low (support (a ∷ b ∷ []) db) (support (a ∷ b ∷ k) db) closed
            (support-pair_le a b k db) h in
      elim (ns_loop-low low (a ∷ b ∷ []) link_s [] distinct) [
        | inl e ↦ ap (λ n. not (n == 0)) e ∙ nothing_listed (a ∷ b ∷ [])
        | inr e ↦ absurd (true-ne-false (sym e ∙ high))
      ]
    where
      true-ne-false : true ≡ false → ⊥
      true-ne-false q = cc

  pub frequent-Sound :
      (a b : Item) (k : Seq)
      → low (support (a ∷ b ∷ k) db) ≡ false
      → Sound (infrequent (ns_loop low link_s [])) (a ∷ b ∷ k)
  frequent-Sound a b [] h = (pair-frequent a b [] h, tt)
  frequent-Sound a b (c ∷ k) h = (
    pair-frequent a b (c ∷ k) h,
    frequent-Sound b c k (
        high_of_le low (support (b ∷ c ∷ k) db) (support (a ∷ b ∷ c ∷ k) db) closed
          (support-tail_le a b (c ∷ k) db) h),
  )

-- ===== src/FsTree/Cuts.antt =====
-- `fraziona` cuts a sequence where two neighbours are infrequent together, and loses no occurrence of
-- a sequence without such a pair.
use minerule.Prelude.{
  ℕ, zero, suc, ◌+◌, ◌-◌, ◌<◌, ◌≤◌, ◌≡◌, refl, sym, ap, ◌∙◌, arith, Bool, true, false, not, ◌&&◌,
  ltb, ◌==◌, ==_iff, List, [], ◌∷◌, length, inl, inr, Bool-cases, indicator, if◌then◌else◌,
}
use mathlib.Core.Path.{subst}
use minerule.FsTreeSequence.{Item, Seq, slice, same_key, SeqMap, value, put}
use minerule.FsTreeSequence.Keys.{eq_of_same_key, value-put_same, value-put_other}
use minerule.FsTree.{cut_positions, pieces, fraziona}
use minerule.FsTree.Occurrences.{starts, occurrences}
use minerule.FsTree.Parts.{
  in_pieces, drop, slice-drop_further, emitted, Ascending, in_parts, pieces-in_parts, next_part,
  plus_one, pieces-le,
}

-- The pair `x, y` is infrequent for the table `bad`.
module _ (bad : Item → Item → Bool) where
  -- No two neighbours are infrequent together.
  abbrev pub Sound : Seq → Type 0
  Sound [] = Unit {0}
  Sound (a ∷ []) = Unit {0}
  Sound (a ∷ b ∷ k) = (bad a b ≡ false) × Sound (b ∷ k)

  Sound-tail : (a : Item) (k : Seq) → Sound (a ∷ k) → Sound k
  Sound-tail a [] h = tt
  Sound-tail a (b ∷ k) (h, s) = s

  -- The places `i` and `i + 1` of a sequence hold an infrequent pair.
  abbrev pub Cut : Seq → ℕ → Type 0
  Cut s i = (x : Item) × (y : Item) × (slice s i 2 ≡ x ∷ y ∷ []) × (bad x y ≡ true)

  apart :
      (a b z w : Item) (c : Bool)
      → bad a b ≡ false
      → bad z w ≡ true
      → ((a == z) && ((b == w) && c)) ≡ ((a == z) && false)
  apart a b z w c h k = elim (Bool-cases (a == z)) [
    | inr e ↦ rw e refl
    | inl e ↦ elim (Bool-cases (b == w)) [
      | inr f ↦ rw f refl
      | inl f ↦
          let same : bad a b ≡ bad z w =
            ap (λ i. bad i b) ((==_iff a z).0 e) ∙ ap (bad z) ((==_iff b w).0 f) in
          absurd (true-ne-false (sym k ∙ sym same ∙ h))
    ]
  ]
    where
      true-ne-false : true ≡ false → ⊥
      true-ne-false q = cc

  starts-Cut : (k u : Seq) (e : ℕ) → Sound k → Cut u e → starts k u ≡ starts k (slice u 0 (suc e))
  unfolding slice
  starts-Cut [] u e h c = refl
  starts-Cut (a ∷ k) [] e h c = refl
  starts-Cut (a ∷ []) (z ∷ u) zero h c = refl
  starts-Cut (a ∷ b ∷ k) (z ∷ []) zero h (x, y, e, f) = refl
  starts-Cut (a ∷ b ∷ k) (z ∷ w ∷ u) zero (g, h) (x, y, e, f) =
      let f' : bad z w ≡ true = ap (λ i. bad i w) first_eq ∙ ap (bad x) second_eq ∙ f in
      apart a b z w (starts k u) g f'
    where
      first_eq : z ≡ x
      first_eq = cc

      second_eq : w ≡ y
      second_eq = cc
  starts-Cut (a ∷ k) (z ∷ u) (suc e) h c =
      ap (λ b. (a == z) && b) (starts-Cut k u e (Sound-tail a k h) c)

  occurrences-Cut :
      (a b : Item) (k u : Seq) (e : ℕ)
      → Sound (a ∷ b ∷ k)
      → Cut u e
      → occurrences (a ∷ b ∷ k) u
        ≡ occurrences (a ∷ b ∷ k) (slice u 0 (suc e)) + occurrences (a ∷ b ∷ k) (drop u (suc e))
  unfolding slice
  occurrences-Cut a b k [] e h c = omega arith
  occurrences-Cut a b k (z ∷ []) zero h c = omega arith
  occurrences-Cut a b k (z ∷ w ∷ u) zero h c =
      omega (arith, ap indicator (starts-Cut (a ∷ b ∷ k) (z ∷ w ∷ u) zero h c))
  occurrences-Cut a b k (z ∷ u) (suc e) h c = omega (
    arith,
    ap indicator (starts-Cut (a ∷ b ∷ k) (z ∷ u) (suc e) h c),
    occurrences-Cut a b k u e h c,
  )

  -- All the places are cuts.
  abbrev pub Cuts : Seq → List ℕ → Type 0
  Cuts s [] = Unit {0}
  Cuts s (j ∷ vec) = Cut s j × Cuts s vec

  Cut-drop : (s : Seq) (c e j : ℕ) → j ≡ c + e → Cut s j → Cut (drop s c) e
  Cut-drop s c e j h (x, y, f, k) = (x, y, sym (slice-drop_further s c e j 2 h) ∙ f, k)

  in_parts-occurrences :
      (a b : Item) (k s : Seq) (i : ℕ) (vec : List ℕ)
      → Sound (a ∷ b ∷ k)
      → Ascending s (suc i) vec
      → Cuts s vec
      → in_parts (a ∷ b ∷ k) s i vec ≡ occurrences (a ∷ b ∷ k) (drop s (i + 1))
  in_parts-occurrences a b k s i [] h up c = refl
  in_parts-occurrences a b k s i (j ∷ vec) h (l, inside, up) (cut, c) =
      let e = j - (i + 1) in
      omega (
        arith,
        occurrences-Cut a b k (drop s (i + 1)) e h (Cut-drop s (i + 1) e j (omega (arith, l)) cut),
        ap (occurrences (a ∷ b ∷ k)) (next_part s i j l),
        in_parts-occurrences a b k s j vec h up c,
      )

  pub pieces-occurrences :
      (a b : Item) (k s : Seq) (vec : List ℕ)
      → Sound (a ∷ b ∷ k)
      → Ascending s 0 vec
      → Cuts s vec
      → in_pieces (a ∷ b ∷ k) (pieces s vec) ≡ occurrences (a ∷ b ∷ k) s
  unfolding pieces
  pieces-occurrences a b k s [] h up c =
      emitted a b k s [] (ltb 1 (length s)) (λ e. ground arith) ∙ omega arith
  pieces-occurrences a b k s (i ∷ vec) h (l, inside, up) (cut, c) = omega (
    arith,
    pieces-in_parts a b k s i vec (l, inside, up),
    in_parts-occurrences a b k s i vec h up c,
    ap (λ n. occurrences (a ∷ b ∷ k) (drop s n)) (plus_one i),
    occurrences-Cut a b k s i h cut,
  )

value-touch : (k l : Seq) (m : SeqMap ℕ) → value 0 k (put l (value 0 l m) m) ≡ value 0 k m
value-touch k l m = elim (Bool-cases (same_key k l)) [
  | inl e ↦ let same : k ≡ l = eq_of_same_key k l e in rw same (value-put_same 0 l (value 0 l m) m)
  | inr e ↦ value-put_other 0 l k (value 0 l m) m e
]

-- A table that answers as another does.
abbrev pub Agrees : SeqMap ℕ → SeqMap ℕ → Type 0
Agrees m n = (k : Seq) → value 0 k n ≡ value 0 k m

-- The pair has an entry that is not 0.
abbrev pub infrequent : SeqMap ℕ → Item → Item → Bool
infrequent link_ns x y = not (value 0 (x ∷ y ∷ []) link_ns == 0)

slice-pair :
    (s : Seq) (i : ℕ) → suc i < length s → (x : Item) × (y : Item) × (slice s i 2 ≡ x ∷ y ∷ [])
unfolding slice
slice-pair [] i h = ground arith
slice-pair (x ∷ []) i h = ground arith
slice-pair (x ∷ y ∷ []) zero h = (x, y, refl)
slice-pair (x ∷ y ∷ z ∷ s) zero h = (x, y, refl)
slice-pair (x ∷ y ∷ s) (suc i) h = slice-pair (y ∷ s) i (omega (arith, h))

Ascending-weaken : (s : Seq) (i : ℕ) (vec : List ℕ) → Ascending s (suc i) vec → Ascending s i vec
Ascending-weaken s i [] h = tt
Ascending-weaken s i (j ∷ vec) (l, inside, up) = (omega (arith, l), inside, up)

-- What `fraziona` collects for a table that answers as `original`.
Collected : SeqMap ℕ → Seq → ℕ → List ℕ × SeqMap ℕ → Type 0
Collected original s i found =
    Ascending s i found.0 × Cuts (infrequent original) s found.0 × Agrees original found.1

one_more_place :
    (bad : Item → Item → Bool) (s : Seq) (i : ℕ) (vec : List ℕ) (frequent : Bool)
    → (frequent ≡ false → Cut bad s i)
    → suc i < length s
    → Ascending s (suc i) vec
    → Cuts bad s vec
    → Ascending s i (if frequent then vec else i ∷ vec)
      × Cuts bad s (if frequent then vec else i ∷ vec)
one_more_place bad s i vec true cut l up cuts = (Ascending-weaken s i vec up, cuts)
one_more_place bad s i vec false cut l up cuts = ((omega arith, l, up), (cut refl, cuts))

cut_positions-Collected :
    (original : SeqMap ℕ) (left i : ℕ) (s : Seq) (link_ns : SeqMap ℕ)
    → i + left < length s
    → Agrees original link_ns
    → Collected original s i (cut_positions left i s link_ns)
unfolding Collected cut_positions
cut_positions-Collected original zero i s link_ns l h = (tt, tt, h)
cut_positions-Collected original (suc left) i s link_ns l h =
    let key = slice s i 2 in
    let touched = put key (value 0 key link_ns) link_ns in
    let (up, cuts, same) =
      cut_positions-Collected original left (i + 1) s touched (omega (arith, l))
        (λ k. value-touch k key link_ns ∙ h k) in
    let (x, y, e) = slice-pair s i (omega (arith, l)) in
    let entry : value 0 (x ∷ y ∷ []) original ≡ value 0 key link_ns =
      sym (h (x ∷ y ∷ [])) ∙ ap (λ k. value 0 k link_ns) (sym e) in
    let (up', cuts') =
      one_more_place (infrequent original) s i (cut_positions left (i + 1) s touched).0
        (value 0 key link_ns == 0) (λ z. (x, y, e, ap not (ap (λ n. n == 0) entry ∙ z)))
        (omega (arith, l))
        (subst (λ j. Ascending s j (cut_positions left (i + 1) s touched).0) (plus_one i) up)
        cuts in
    (up', cuts', same)

-- On a sequence that is not empty, and a table that answers as the original one, fraziona leaves a
-- table that still does, and its pieces of two items or more contain a sequence of two or more as
-- often as the whole if none of its pairs of neighbours has an entry that is not 0, and never more
-- often.
pub fraziona-occurrences :
    (original link_ns : SeqMap ℕ) (s : Seq)
    → 0 < length s
    → Agrees original link_ns
    → Agrees original (fraziona s link_ns).1
      × ((a b : Item) (k : Seq)
          → Sound (infrequent original) (a ∷ b ∷ k)
          → in_pieces (a ∷ b ∷ k) (fraziona s link_ns).0 ≡ occurrences (a ∷ b ∷ k) s)
      × ((a b : Item) (k : Seq)
          → in_pieces (a ∷ b ∷ k) (fraziona s link_ns).0 ≤ occurrences (a ∷ b ∷ k) s)
unfolding Collected fraziona
fraziona-occurrences original link_ns s l h =
    let (up, cuts, same) =
      cut_positions-Collected original (length s - 1) 0 s link_ns (omega (arith, l)) h in
    let vec = (cut_positions (length s - 1) 0 s link_ns).0 in
    (
      same,
      λ a b k sound. pieces-occurrences (infrequent original) a b k s vec sound up cuts,
      λ a b k. pieces-le a b k s vec up,
    )

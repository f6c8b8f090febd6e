-- ===== src/FsTree/Parts.antt =====
-- The pieces of a sequence that `fraziona` makes, and the occurrences in them.
use minerule.Prelude.{
  ℕ, zero, suc, ◌+◌, ◌-◌, ◌<◌, ◌≤◌, ◌≡◌, refl, sym, ap, ◌∙◌, arith, Bool, true, false, not, ◌&&◌,
  ltb, ◌==◌, List, [], ◌∷◌, length, inl, inr, Bool-cases, if◌then◌else◌, indicator, tests,
}
use minerule.FsTreeSequence.{Item, Seq, slice}
use minerule.FsTree.{later_pieces, pieces}
use minerule.FsTree.Occurrences.{starts, occurrences}

pub plus_one : (i : ℕ) → i + 1 ≡ suc i
plus_one i = omega arith

-- The occurrences in the pieces that are inserted.
abbrev pub in_pieces : Seq → List Seq → ℕ
in_pieces k [] = 0
in_pieces k (piece ∷ l) = (if ltb 1 (length piece) then occurrences k piece else 0) + in_pieces k l

abbrev pub drop : Seq → ℕ → Seq
drop [] c = []
drop (x ∷ s) zero = x ∷ s
drop (x ∷ s) (suc c) = drop s c

pub slice-drop : (s : Seq) (c n : ℕ) → slice s c n ≡ slice (drop s c) 0 n
unfolding slice
slice-drop [] c n = refl
slice-drop (x ∷ s) zero n = refl
slice-drop (x ∷ s) (suc c) n = slice-drop s c n

slice-all : (u : Seq) (n : ℕ) → length u ≤ n → slice u 0 n ≡ u
unfolding slice
slice-all [] n h = refl
slice-all (x ∷ u) zero h = ground arith
slice-all (x ∷ u) (suc n) h = ap (λ s. x ∷ s) (slice-all u n (omega (arith, h)))

pub length-drop : (s : Seq) (c : ℕ) → length (drop s c) ≡ length s - c
length-drop [] c = omega arith
length-drop (x ∷ s) zero = omega arith
length-drop (x ∷ s) (suc c) = omega (arith, length-drop s c)

length-slice-le : (u : Seq) (n : ℕ) → length (slice u 0 n) ≤ n
unfolding slice
length-slice-le [] n = omega arith
length-slice-le (x ∷ u) zero = omega arith
length-slice-le (x ∷ u) (suc n) = omega (arith, length-slice-le u n)

pub drop-drop : (s : Seq) (c d e : ℕ) → e ≡ c + d → drop (drop s c) d ≡ drop s e
drop-drop [] c d e h = refl
drop-drop (x ∷ s) zero d e h = ap (drop (x ∷ s)) (omega (arith, h))
drop-drop (x ∷ s) (suc c) d zero h = ground arith
drop-drop (x ∷ s) (suc c) d (suc e) h = drop-drop s c d e (omega (arith, h))

pub occurrences-single : (a b : Item) (k u : Seq) → length u ≤ 1 → occurrences (a ∷ b ∷ k) u ≡ 0
occurrences-single a b k [] h = refl
occurrences-single a b k (x ∷ []) h = ground arith
occurrences-single a b k (x ∷ y ∷ u) h = ground arith

pub emitted :
    (a b : Item) (k piece : Seq) (l : List Seq) (test : Bool)
    → (test ≡ false → length piece ≤ 1)
    → in_pieces (a ∷ b ∷ k) (if test then piece ∷ l else l)
      ≡ occurrences (a ∷ b ∷ k) piece + in_pieces (a ∷ b ∷ k) l
emitted a b k piece l false h = omega (arith, occurrences-single a b k piece (h refl))
emitted a b k piece l true h = elim (Bool-cases (ltb 1 (length piece))) [
  | inl e ↦ rw e refl
  | inr e ↦ rw e (omega (arith, occurrences-single a b k piece (ground arith)))
]

slice-rest : (s : Seq) (c n : ℕ) → length s - c ≤ n → slice s c n ≡ drop s c
slice-rest s c n h = slice-drop s c n ∙ slice-all (drop s c) n (omega (arith, length-drop s c, h))

length-slice : (s : Seq) (c n : ℕ) → length (slice s c n) ≤ n
length-slice s c n = omega (arith, ap length (slice-drop s c n), length-slice-le (drop s c) n)

pub slice-drop_further : (s : Seq) (c e j n : ℕ) → j ≡ c + e → slice s j n ≡ slice (drop s c) e n
slice-drop_further s c e j n h =
    slice-drop s j n
    ∙ ap (λ u. slice u 0 n) (sym (drop-drop s c e j h))
    ∙ sym (slice-drop (drop s c) e n)

-- Ascending places from `i` on, none of them the last.
abbrev pub Ascending : Seq → ℕ → List ℕ → Type 0
Ascending s i [] = Unit {0}
Ascending s i (j ∷ vec) = (i ≤ j) × (suc j < length s) × Ascending s (suc j) vec

-- The occurrences in the parts of `s` between the places of `vec`, from the place after `i` on.
abbrev pub in_parts : Seq → Seq → ℕ → List ℕ → ℕ
in_parts k s i [] = occurrences k (drop s (i + 1))
in_parts k s i (j ∷ vec) =
    occurrences k (slice (drop s (i + 1)) 0 (suc (j - (i + 1)))) + in_parts k s j vec

pub later_pieces-in_parts :
    (a b : Item) (k s : Seq) (i : ℕ) (vec : List ℕ)
    → Ascending s (suc i) vec
    → in_pieces (a ∷ b ∷ k) (later_pieces s i vec) ≡ in_parts (a ∷ b ∷ k) s i vec
unfolding later_pieces
later_pieces-in_parts a b k s i [] c =
    let piece = slice s (i + 1) (length s - (i + 1)) in
    emitted a b k piece [] (ltb 1 (length s - (i + 1)))
      (λ e. omega (tests, length-slice s (i + 1) (length s - (i + 1)), short e))
    ∙ omega (
      arith,
      ap (occurrences (a ∷ b ∷ k)) (slice-rest s (i + 1) (length s - (i + 1)) (omega arith)),
    )
  where
    short : ltb 1 (length s - (i + 1)) ≡ false → length s - (i + 1) ≤ 1
    short e = ground arith
later_pieces-in_parts a b k s i (j ∷ vec) (l, inside, c) =
    let u = drop s (i + 1) in
    let e = j - (i + 1) in
    let same : slice s (i + 1) (j - i) ≡ slice u 0 (suc e) =
      slice-drop s (i + 1) (j - i) ∙ ap (slice u 0) (omega (arith, l)) in
    emitted a b k (slice s (i + 1) (j - i)) (later_pieces s j vec)
      (not (i + 1 == j) && ltb 1 (j - i))
      (λ f. omega (arith, length-slice s (i + 1) (j - i), short f l))
    ∙ omega (arith, ap (occurrences (a ∷ b ∷ k)) same, later_pieces-in_parts a b k s j vec c)
  where
    short : (not (i + 1 == j) && ltb 1 (j - i)) ≡ false → suc i ≤ j → j - i ≤ 1
    short f l = ground arith

pub pieces-in_parts :
    (a b : Item) (k s : Seq) (i : ℕ) (vec : List ℕ)
    → Ascending s 0 (i ∷ vec)
    → in_pieces (a ∷ b ∷ k) (pieces s (i ∷ vec))
      ≡ occurrences (a ∷ b ∷ k) (slice s 0 (suc i)) + in_parts (a ∷ b ∷ k) s i vec
unfolding pieces
pieces-in_parts a b k s i vec (l, inside, c) =
    emitted a b k (slice s 0 (i + 1)) (later_pieces s i vec) true (λ e. cc)
    ∙ omega (
      arith,
      ap (λ n. occurrences (a ∷ b ∷ k) (slice s 0 n)) (plus_one i),
      later_pieces-in_parts a b k s i vec c,
    )

starts-slice-le : (k u : Seq) (n : ℕ) → indicator (starts k (slice u 0 n)) ≤ indicator (starts k u)
unfolding slice
starts-slice-le [] u n = omega arith
starts-slice-le (a ∷ k) [] n = omega arith
starts-slice-le (a ∷ k) (x ∷ u) zero = omega arith
starts-slice-le (a ∷ k) (x ∷ u) (suc n) = ground (arith, starts-slice-le k u n)

-- Parting a sequence makes no occurrence.
occurrences-part-le :
    (k u : Seq) (n : ℕ) → occurrences k (slice u 0 n) + occurrences k (drop u n) ≤ occurrences k u
unfolding slice
occurrences-part-le k [] n = omega arith
occurrences-part-le k (x ∷ u) zero = omega arith
occurrences-part-le k (x ∷ u) (suc n) =
    omega (arith, starts-slice-le k (x ∷ u) (suc n), occurrences-part-le k u n)

pub next_part :
    (s : Seq) (i j : ℕ) → suc i ≤ j → drop (drop s (i + 1)) (suc (j - (i + 1))) ≡ drop s (j + 1)
next_part s i j l = drop-drop s (i + 1) (suc (j - (i + 1))) (j + 1) (omega (arith, l))

in_parts-le :
    (k s : Seq) (i : ℕ) (vec : List ℕ)
    → Ascending s (suc i) vec
    → in_parts k s i vec ≤ occurrences k (drop s (i + 1))
in_parts-le k s i [] c = omega arith
in_parts-le k s i (j ∷ vec) (l, inside, c) = omega (
  arith,
  in_parts-le k s j vec c,
  occurrences-part-le k (drop s (i + 1)) (suc (j - (i + 1))),
  ap (occurrences k) (next_part s i j l),
)

pub pieces-le :
    (a b : Item) (k s : Seq) (vec : List ℕ)
    → Ascending s 0 vec
    → in_pieces (a ∷ b ∷ k) (pieces s vec) ≤ occurrences (a ∷ b ∷ k) s
unfolding pieces
pieces-le a b k s [] c =
    let e = emitted a b k s [] (ltb 1 (length s)) (λ e. ground arith) in omega (arith, e)
pieces-le a b k s (i ∷ vec) (l, inside, c) = omega (
  arith,
  pieces-in_parts a b k s i vec (l, inside, c),
  in_parts-le (a ∷ b ∷ k) s i vec c,
  occurrences-part-le (a ∷ b ∷ k) s (suc i),
  ap (λ n. occurrences (a ∷ b ∷ k) (drop s n)) (plus_one i),
)

-- ===== src/BitString/Intersect.antt =====
-- `operator&=` is the intersection, whatever the lengths of the two strings.
use minerule.Prelude.{
  ℕ, zero, suc, ◌+◌, ◌-◌, ◌/◌, ◌%◌, ◌≤◌, ◌<◌, ◌≡◌, refl, sym, ap, ◌∙◌, arith, bit_and, true, false,
  ◌&&◌, ltb, some, List, [], ◌∷◌, length, get_or, Bool-cases, inl, inr,
}
use minerule.Bits.{bit, bit-bit_and, bit_and-zero, bit_and-le}
use minerule.BitString.{BitString, each_word, each_pair, and_then_zero, and_with}
use minerule.BitString.Access.{bit_of, IsClean}

-- Words that are the intersection of two lists of words, as many as the first has.
Intersection : List ℕ → List ℕ → List ℕ → Type 0
Intersection l m words =
    (length words ≡ length l) × ((j : ℕ) → get_or words j 0 ≡ bit_and (get_or l j 0) (get_or m j 0))

zero-bit_and : (y : ℕ) → bit_and 0 y ≡ 0
zero-bit_and y = omega (arith, bit_and-le 0 0 y (omega arith))

cons-Intersection :
    (x y : ℕ) (l m words : List ℕ)
    → Intersection l m words
    → Intersection (x ∷ l) (y ∷ m) (bit_and x y ∷ words)
unfolding Intersection
cons-Intersection x y l m words (same, h) = (ap suc same, words_at)
  where
    words_at :
        (j : ℕ)
        → get_or (bit_and x y ∷ words) j 0 ≡ bit_and (get_or (x ∷ l) j 0) (get_or (y ∷ m) j 0)
    words_at zero = refl
    words_at (suc j) = h j

each_pair-Intersection :
    (l m : List ℕ)
    → length l ≤ length m
    → (words : List ℕ) × (each_pair (length l) bit_and l m ≡ some words) × Intersection l m words
unfolding each_pair Intersection
each_pair-Intersection [] m h = ([], refl, (refl, λ j. sym (zero-bit_and (get_or m j 0))))
each_pair-Intersection (x ∷ l) [] h = ground arith
each_pair-Intersection (x ∷ l) (y ∷ m) h =
    let (words, e, k) = each_pair-Intersection l m (omega (arith, h)) in
    (bit_and x y ∷ words, rw e refl, cons-Intersection x y l m words k)

each_word-Intersection :
    (l : List ℕ)
    → (words : List ℕ) × (each_word (length l) (λ x. 0) l ≡ some words) × Intersection l [] words
unfolding each_word Intersection
each_word-Intersection [] = ([], refl, (refl, λ j. refl))
each_word-Intersection (x ∷ l) =
    let (words, e, (same, h)) = each_word-Intersection l in
    (0 ∷ words, rw e refl, (ap suc same, words_at words h))
  where
    words_at :
        (words : List ℕ)
        → ((j : ℕ) → get_or words j 0 ≡ bit_and (get_or l j 0) 0)
        → (j : ℕ) → get_or (0 ∷ words) j 0 ≡ bit_and (get_or (x ∷ l) j 0) 0
    words_at words h zero = sym (bit_and-zero x x (omega arith))
    words_at words h (suc j) = h j

and_then_zero-Intersection :
    (left : ℕ) (l m : List ℕ)
    → length l ≡ length m + left
    → (words : List ℕ) × (and_then_zero (length m) left l m ≡ some words) × Intersection l m words
unfolding and_then_zero Intersection
and_then_zero-Intersection left l [] h =
    let (words, e, k) = each_word-Intersection l in
    (words, ap (λ n. each_word n (λ x. 0) l) (omega (arith, h)) ∙ e, k)
and_then_zero-Intersection left [] (y ∷ m) h = ground arith
and_then_zero-Intersection left (x ∷ l) (y ∷ m) h =
    let (words, e, k) = and_then_zero-Intersection left l m (omega (arith, h)) in
    (bit_and x y ∷ words, rw e refl, cons-Intersection x y l m words k)

and_with-words :
    (b bs : BitString)
    → IsClean b
    → IsClean bs
    → (words : List ℕ) × (and_with b bs ≡ some (record b { bits = words }))
      × Intersection b.bits bs.bits words
unfolding and_with
and_with-words b bs h k = elim (Bool-cases (ltb b.nw bs.nw)) [
  | inl e ↦
      let (words, r, i) =
        each_pair-Intersection b.bits bs.bits
          (omega (arith, h.counted, k.counted, shorter b.nw bs.nw e)) in
      (words, rw e (rw (ap (λ n. each_pair n bit_and b.bits bs.bits) (sym h.counted) ∙ r) refl), i)
  | inr e ↦
      let (words, r, i) =
        and_then_zero-Intersection (b.nw - bs.nw) b.bits bs.bits
          (omega (arith, h.counted, k.counted, longer b.nw bs.nw e)) in
      (
        words,
        rw e
            (rw (ap (λ n. and_then_zero n (b.nw - bs.nw) b.bits bs.bits) (sym k.counted) ∙ r) refl),
        i,
      )
]
  where
    shorter : (a c : ℕ) → ltb a c ≡ true → a < c
    shorter a c e = ground arith

    longer : (a c : ℕ) → ltb a c ≡ false → c ≤ a
    longer a c e = ground arith

-- On two strings that have the words that their lengths take and no bit past them, operator&=
-- succeeds and leaves such a string of the same length, which holds the bits that both held,
-- whichever is longer.
pub and_with-bit_of :
    (b bs : BitString)
    → IsClean b
    → IsClean bs
    → (b' : BitString) × (and_with b bs ≡ some b')
      × IsClean b'
      × (b'.n ≡ b.n)
      × ((i : ℕ) → bit_of b'.bits i ≡ (bit_of b.bits i && bit_of bs.bits i))
unfolding Intersection
and_with-bit_of b bs h k =
    let (words, e, (same, at)) = and_with-words b bs h k in
    let bits : (i : ℕ) → bit_of words i ≡ (bit_of b.bits i && bit_of bs.bits i) = λ i.
      ap (λ x. bit x (i % 32)) (at (i / 32))
      ∙ bit-bit_and (get_or b.bits (i / 32) 0) (get_or bs.bits (i / 32) 0) (i % 32) in
    (
      record b { bits = words },
      e,
      record {
        counted = same ∙ h.counted;
        reached = h.reached;
        tight = h.tight;
        small = λ j. omega (
          arith,
          at j,
          h.small j,
          bit_and-le (get_or b.bits j 0) (get_or b.bits j 0) (get_or bs.bits j 0) (omega arith),
        );
        clean = λ i past. bits i ∙ ap (λ c. c && bit_of bs.bits i) (h.clean i past);
      },
      refl,
      bits,
    )

-- ===== src/BitString/Shifted.antt =====
-- `operator&` leaves the intersection one word too high.
use minerule.Prelude.{
  ℕ, zero, suc, ◌+◌, ◌/◌, ◌%◌, ◌≤◌, ◌<◌, ◌≡◌, refl, ap, ap₂, ◌∙◌, arith, bit_and, false, ◌&&◌, ltb,
  if◌then◌else◌, some, List, [], ◌∷◌, length, get_or,
}
use minerule.Bits.{bit, bit-zero, bit-bit_and}
use minerule.BitString.{BitString, init, meet_words, and_of}
use minerule.BitString.Access.{bit_of, IsClean}

meet_words-get_or :
    (count : ℕ) (l m : List ℕ)
    → count ≤ length l
    → count ≤ length m
    → (words : List ℕ) × (meet_words count l m ≡ some words)
      × ((j : ℕ) → j < count → get_or words j 0 ≡ bit_and (get_or l j 0) (get_or m j 0))
unfolding meet_words
meet_words-get_or zero l m h k = ([], refl, λ j less. ground arith)
meet_words-get_or (suc count) [] m h k = ground arith
meet_words-get_or (suc count) (x ∷ l) [] h k = ground arith
meet_words-get_or (suc count) (x ∷ l) (y ∷ m) h k =
    let (words, e, at) = meet_words-get_or count l m (omega (arith, h)) (omega (arith, k)) in
    (bit_and x y ∷ words, rw e refl, λ j less. here words at j less)
  where
    here :
        (words : List ℕ)
        → ((j : ℕ) → j < count → get_or words j 0 ≡ bit_and (get_or l j 0) (get_or m j 0))
        → (j : ℕ) → j < suc count
        → get_or (bit_and x y ∷ words) j 0 ≡ bit_and (get_or (x ∷ l) j 0) (get_or (y ∷ m) j 0)
    here words at zero less = refl
    here words at (suc j) less = at j (omega (arith, less))

lesser-left : (a c : ℕ) → (if ltb a c then a else c) ≤ a
lesser-left a c = ground arith

lesser-right : (a c : ℕ) → (if ltb a c then a else c) ≤ c
lesser-right a c = ground arith

within_lesser : (a c j : ℕ) → j ≤ a → j ≤ c → j < (if ltb a c then a else c) + 1
within_lesser a c j h k = ground arith

first_word : (i : ℕ) → i < 32 → i / 32 ≡ 0
first_word i h = omega (arith, h)

-- The bits from 32 on of the words of the result.
shifted_bit :
    (words : List ℕ) (i : ℕ) → bit_of (0 ∷ words) (i + 32) ≡ bit (get_or words (i / 32) 0) (i % 32)
shifted_bit words i =
    let word : (i + 32) / 32 ≡ suc (i / 32) = omega arith in
    let place : (i + 32) % 32 ≡ i % 32 = omega arith in
    ap₂ (λ j k. bit (get_or (0 ∷ words) j 0) k) word place

-- On two strings that have the words that their lengths take and no bit past them, operator&
-- returns a string whose words hold the intersection 32 places too high, for the indices below both
-- lengths, and no bit among the first 32.
pub and_of-shifted :
    (b bs : BitString)
    → IsClean b
    → IsClean bs
    → (r : BitString) × (and_of b bs ≡ some r)
      × ((i : ℕ)
          → i < b.n
          → i < bs.n
          → bit_of r.bits (i + 32) ≡ (bit_of b.bits i && bit_of bs.bits i))
      × ((i : ℕ) → i < 32 → bit_of r.bits i ≡ false)
unfolding and_of init
and_of-shifted b bs h k =
    let min = if ltb b.nw bs.nw then b.nw else bs.nw in
    let (words, e, at) =
      meet_words-get_or (min + 1) b.bits bs.bits (omega (arith, h.counted, lesser-left b.nw bs.nw))
        (omega (arith, k.counted, lesser-right b.nw bs.nw)) in
    (
      record { bits = 0 ∷ words; nw = min; n = if ltb b.n bs.n then b.n else bs.n },
      rw e refl,
      λ i l l'.
          shifted_bit words i
          ∙ ap (λ x. bit x (i % 32))
              (at (i / 32) (
                within_lesser b.nw bs.nw (i / 32) (omega (arith, l, h.reached))
                  (omega (arith, l', k.reached))))
          ∙ bit-bit_and (get_or b.bits (i / 32) 0) (get_or bs.bits (i / 32) 0) (i % 32),
      λ i l. ap (λ j. bit (get_or (0 ∷ words) j 0) (i % 32)) (first_word i l) ∙ bit-zero (i % 32),
    )

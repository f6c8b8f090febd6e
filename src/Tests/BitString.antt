-- ===== src/Tests/BitString.antt =====
-- Strings of bits at concrete inputs.
use minerule.Prelude.{
  refl, ltb, [], ◌∷◌, ℕ, ◌+◌, ◌<◌, ◌≡◌, ◌==◌, ◌&&◌, true, false, some, if◌then◌else◌, pos, negsuc,
  arith,
}
use minerule.BitString.{BitString, init, test, set_bit, and_with, and_of}
use minerule.BitString.Access.{bit_of, IsClean, init-IsClean, set_bit-bit_of, test-bit_at, bit_at}
use minerule.BitString.Count.{count, more_than, total_ones, more_than-count}
use minerule.BitString.Intersect.{and_with-bit_of}
use minerule.BitString.Shifted.{and_of-shifted}

abbrev two_words : BitString
two_words = record { bits = 255 ∷ 7 ∷ []; n = 40; nw = 1 }

test-bit_at_example : test (init 40) (pos 39) ≡ some (bit_at (init 40).bits (pos 39))
test-bit_at_example = test-bit_at (init 40) (pos 39) (init-IsClean 40)

-- A negative index reads as no bit.
test_negative : test two_words (negsuc 0) ≡ some false
unfolding test
test_negative = refl

set_bit-bit_of_example :
    (b' : BitString) × (set_bit (init 10) (pos 70) true ≡ some b')
    × IsClean b'
    × (70 < b'.n)
    × ((k : ℕ) → bit_of b'.bits k ≡ (if 70 == k then true else bit_of (init 10).bits k))
set_bit-bit_of_example = set_bit-bit_of (init 10) 70 true (omega arith) (init-IsClean 10)

and_with-bit_of_example :
    (b' : BitString) × (and_with (init 70) (init 10) ≡ some b')
    × IsClean b'
    × (b'.n ≡ (init 70).n)
    × ((i : ℕ) → bit_of b'.bits i ≡ (bit_of (init 70).bits i && bit_of (init 10).bits i))
and_with-bit_of_example = and_with-bit_of (init 70) (init 10) (init-IsClean 70) (init-IsClean 10)

and_of-shifted_example :
    (r : BitString) × (and_of (init 40) (init 50) ≡ some r)
    × ((i : ℕ)
        → i < (init 40).n
        → i < (init 50).n
        → bit_of r.bits (i + 32) ≡ (bit_of (init 40).bits i && bit_of (init 50).bits i))
    × ((i : ℕ) → i < 32 → bit_of r.bits i ≡ false)
and_of-shifted_example = and_of-shifted (init 40) (init 50) (init-IsClean 40) (init-IsClean 50)

more_than-count_example :
    (c : ℕ) × (count two_words ≡ some c)
    × (c ≡ total_ones two_words.bits)
    × (more_than two_words 5 ≡ some (ltb 5 c))
more_than-count_example = more_than-count two_words 5 refl

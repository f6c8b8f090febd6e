-- ===== src/BitString.antt =====
-- src/Utils/Bitstring.cpp and include/minerule/Utils/Bitstring.hpp: strings of bits in 32-bit words,
-- which grow on writes. Indices are ints, and lengths are ints that are not negative; `none` is an
-- access outside of the vector of words, a shift by a negative number or an overflow of an int.
-- The counter of intersections, printing and serialization are left out.
pub mod Access
pub mod Count
pub mod Shifted
pub mod Intersect
use minerule.Prelude.{
  ℕ, zero, suc, ◌+◌, ◌-◌, ◌*◌, ◌/◌, ◌%◌, ◌^◌, bit_and, bit_or, bit_xor, Bool, true, false, not,
  ◌&&◌, ltb, leb, ◌==◌, if◌then◌else◌, Option, none, some, ◌>>=◌, List, [], ◌∷◌, ◌++◌, get_elem?,
  set, replicate, ℤ, pos, negsuc, guard, ◌>>◌,
}
use minerule.Bits.{flip}

-- `class BitString`
pub record BitString : Type 0 where
  pub bits : List ℕ
  pub n : ℕ
  pub nw : ℕ

-- `Nw` of the constructor and of `setNBit`.
unfoldable pub last_word : ℕ → ℕ
last_word nbits = if nbits == 0 then 0 else (nbits - 1) / 32

-- `init`, and the constructors that call it.
unfoldable pub init : ℕ → BitString
unfolding last_word
init nbits = record { bits = replicate (last_word nbits + 1) 0; n = nbits; nw = last_word nbits }

-- `test`
unfoldable pub test : BitString → ℤ → Option Bool
test b (negsuc k) = some false
test b (pos i) =
    if leb b.n i
    then some false
    else do word ← get_elem? b.bits (i / 32); some (not (bit_and word (2 ^ (i % 32)) == 0))

-- `_Xran`: the string grows up to bit `i`, unless `i + 1` overflows.
unfoldable pub xran : BitString → ℕ → Option BitString
xran b i = do
  guard (ltb (i + 1) (2 ^ 31))
  some (record { bits = b.bits ++ replicate (i / 32 - b.nw) 0; n = i + 1; nw = i / 32 })

-- `set(int, boolean)`. A negative index is below the length, so that the string does not grow, and
-- it shifts by a negative number or writes in front of the words.
unfoldable pub set_bit : BitString → ℤ → Bool → Option BitString
unfolding xran
set_bit b (negsuc k) value = none
set_bit b (pos i) value = do
  grown ← if leb b.n i then xran b i else some b
  word ← get_elem? grown.bits (i / 32)
  some (record grown {
    bits =
        set grown.bits (i / 32)
          (if value then bit_or word (2 ^ (i % 32)) else bit_and word (flip 32 (2 ^ (i % 32))));
  })

-- `reset(int)` and `clear(int)`
unfoldable pub reset_bit : BitString → ℤ → Option BitString
unfolding set_bit
reset_bit b i = set_bit b i false

-- `invert(int)`, for a negative index as in `set`.
unfoldable pub invert_bit : BitString → ℤ → Option BitString
unfolding xran
invert_bit b (negsuc k) = none
invert_bit b (pos i) = do
  grown ← if leb b.n i then xran b i else some b
  word ← get_elem? grown.bits (i / 32)
  some (record grown { bits = set grown.bits (i / 32) (bit_xor word (2 ^ (i % 32))) })

-- `for (int i=0; i<count; i++) bits[i] = f(bits[i])`
unfoldable pub each_word : ℕ → (ℕ → ℕ) → List ℕ → Option (List ℕ)
each_word zero f l = some l
each_word (suc count) f [] = none
each_word (suc count) f (x ∷ l) = do rest ← each_word count f l; some (f x ∷ rest)

-- `set()`, `reset()` or `clear()`, and `invert()`
unfoldable pub set_all : BitString → Option BitString
unfolding each_word
set_all b = do
  words ← each_word (b.nw + 1) (λ x. 2 ^ 32 - 1) b.bits
  some (record b { bits = words })

unfoldable pub reset_all : BitString → Option BitString
unfolding each_word
reset_all b = do words ← each_word (b.nw + 1) (λ x. 0) b.bits; some (record b { bits = words })

unfoldable pub invert_all : BitString → Option BitString
unfolding each_word
invert_all b = do words ← each_word (b.nw + 1) (flip 32) b.bits; some (record b { bits = words })

-- `for (i=0; i<count; i++) bits[i] op= bs.bits[i];`
unfoldable pub each_pair : ℕ → (ℕ → ℕ → ℕ) → List ℕ → List ℕ → Option (List ℕ)
each_pair zero op l m = some l
each_pair (suc count) op (x ∷ l) (y ∷ m) = do rest ← each_pair count op l m; some (op x y ∷ rest)
each_pair (suc count) op [] m = none
each_pair (suc count) op (x ∷ l) [] = none

-- The second branch of `operator&=`: the words after those of the operand become 0.
unfoldable pub and_then_zero : ℕ → ℕ → List ℕ → List ℕ → Option (List ℕ)
unfolding each_word
and_then_zero zero left l m = each_word left (λ x. 0) l
and_then_zero (suc count) left (x ∷ l) (y ∷ m) = do
  rest ← and_then_zero count left l m
  some (bit_and x y ∷ rest)
and_then_zero (suc count) left [] m = none
and_then_zero (suc count) left (x ∷ l) [] = none

-- `operator&=`
unfoldable pub and_with : BitString → BitString → Option BitString
unfolding each_pair and_then_zero
and_with b bs = do
  words ←
      if ltb b.nw bs.nw
      then each_pair (b.nw + 1) bit_and b.bits bs.bits
      else and_then_zero (bs.nw + 1) (b.nw - bs.nw) b.bits bs.bits
  some (record b { bits = words })

-- The copying loop of the copy constructor and of `operator=`.
unfoldable pub copy : BitString → Option BitString
unfolding each_word
copy b = do words ← take_words (b.nw + 1) b.bits; some (record { bits = words; n = b.n; nw = b.nw })
  where
    take_words : ℕ → List ℕ → Option (List ℕ)
    take_words zero l = some []
    take_words (suc count) [] = none
    take_words (suc count) (x ∷ l) = do rest ← take_words count l; some (x ∷ rest)

-- The loop of `operator&`.
unfoldable pub meet_words : ℕ → List ℕ → List ℕ → Option (List ℕ)
meet_words zero l m = some []
meet_words (suc count) (x ∷ l) (y ∷ m) = do rest ← meet_words count l m; some (bit_and x y ∷ rest)
meet_words (suc count) [] m = none
meet_words (suc count) (x ∷ l) [] = none

-- `operator&`: its result starts as the empty string, which has one word.
unfoldable pub and_of : BitString → BitString → Option BitString
unfolding init meet_words
and_of b bs1 = do
  let min = if ltb b.nw bs1.nw then b.nw else bs1.nw
  words ← meet_words (min + 1) b.bits bs1.bits
  some
      (record { bits = (init 0).bits ++ words; nw = min; n = if ltb b.n bs1.n then b.n else bs1.n })

-- The first loops of `operator|=` and `operator^=`; `value` tells what is set, and the index is `n`
-- itself.
unfoldable pub fill_word : ℕ → BitString → BitString → (ℕ → Option Bool) → Option BitString
unfolding set_bit
fill_word zero b bs value = none
fill_word (suc fuel) b bs value = elim (ltb b.n ((b.nw + 1) * 32) && ltb b.n bs.n) [
  | false ↦ some b
  | true ↦ do
    v ← value b.n
    b' ← set_bit b (pos b.n) v
    guard (ltb (b'.n + 1) (2 ^ 31))
    fill_word fuel (record b' { n = b'.n + 1 }) bs value
]

-- `operator|=`
unfoldable pub or_with : BitString → BitString → Option BitString
unfolding fill_word each_pair
or_with b bs = do
  longer ←
      if ltb b.n bs.n
      then (do
        filled ← fill_word (bs.n + 1) b bs (λ i. some false)
        some (record filled { n = bs.n }))
      else some b
  let wider =
      if ltb longer.nw bs.nw
      then record longer {
        bits = longer.bits ++ replicate (bs.nw + 1 - longer.nw) 0;
        nw = bs.nw + 1;
      }
      else longer
  words ← each_pair (bs.nw + 1) bit_or wider.bits bs.bits
  some (record wider { bits = words })

-- The words from `first` on that `operator^=` copies.
unfoldable pub words_from : ℕ → ℕ → List ℕ → Option (List ℕ)
words_from zero first l = some []
words_from (suc count) first l = do
  x ← get_elem? l first
  rest ← words_from count (first + 1) l
  some (x ∷ rest)

-- `operator^=`
unfoldable pub xor_with : BitString → BitString → Option BitString
unfolding fill_word test words_from each_pair
xor_with b bs = do
  longer ←
      if ltb b.n bs.n
      then (do
        filled ← fill_word (bs.n + 1) b bs (λ i. test bs (pos i))
        some (record filled { n = bs.n }))
      else some b
  copied ← words_from (bs.nw - longer.nw) (longer.nw + 1) bs.bits
  let wider =
      if ltb longer.nw bs.nw
      then record longer { bits = longer.bits ++ copied; nw = bs.nw }
      else longer
  words ← each_pair (bs.nw + 1) bit_xor wider.bits bs.bits
  some (record wider { bits = words })

-- The loops of `operator==`.
unfoldable pub equal_words : ℕ → ℕ → List ℕ → List ℕ → Option Bool
equal_words zero i l m = some true
equal_words (suc left) i l m = do
  x ← get_elem? l i
  y ← get_elem? m i
  if x == y then equal_words left (i + 1) l m else some false

-- `i++`
abbrev next_index : ℤ → ℤ
next_index (pos i) = pos (i + 1)
next_index (negsuc zero) = pos 0
next_index (negsuc (suc k)) = negsuc k

unfoldable pub equal_tests : ℕ → ℤ → BitString → BitString → Option Bool
unfolding test
equal_tests zero i b bs = some true
equal_tests (suc left) i b bs = do
  x ← test b i
  y ← test bs i
  if (if x then y else not y) then equal_tests left (next_index i) b bs else some false

-- `operator==`; the second loop starts at `(Nw-1)*Nb`, which is -32 for one word.
unfoldable pub equal : BitString → BitString → Option Bool
unfolding equal_words equal_tests
equal b bs = do
  words ← if b.n == bs.n then equal_words b.nw 0 b.bits bs.bits else some false
  if words
      then (if b.nw == 0
          then equal_tests (b.n + 32) (negsuc 31) b bs
          else equal_tests (b.n - (b.nw - 1) * 32) (pos ((b.nw - 1) * 32)) b bs)
      else some false

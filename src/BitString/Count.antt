-- ===== src/BitString/Count.antt =====
-- src/Utils/Bitstring.cpp: the count of bits by a table of bytes, and moreThan.
use minerule.Prelude.{
  ℕ, zero, suc, ◌+◌, ◌-◌, ◌/◌, ◌%◌, ◌<◌, ◌≡◌, refl, ap, ◌∙◌, arith, Bool, true, false, ◌&&◌, ltb,
  ◌==◌, ==_iff, if◌then◌else◌, Option, none, some, ◌>>=◌, List, [], ◌∷◌, length, get_or,
}
use minerule.BitString.{BitString}

-- `NBITS`
abbrev nbits : List ℕ
nbits =
    0 ∷ 1 ∷ 1 ∷ 2 ∷ 1 ∷ 2 ∷ 2 ∷ 3 ∷ 1 ∷ 2 ∷ 2 ∷ 3 ∷ 2 ∷ 3 ∷ 3 ∷ 4 ∷ 1 ∷ 2 ∷ 2 ∷ 3 ∷ 2 ∷ 3 ∷ 3 ∷ 4
    ∷ 2 ∷ 3 ∷ 3 ∷ 4 ∷ 3 ∷ 4 ∷ 4 ∷ 5 ∷ 1 ∷ 2 ∷ 2 ∷ 3 ∷ 2 ∷ 3 ∷ 3 ∷ 4 ∷ 2 ∷ 3 ∷ 3 ∷ 4 ∷ 3 ∷ 4 ∷ 4 ∷ 5
    ∷ 2 ∷ 3 ∷ 3 ∷ 4 ∷ 3 ∷ 4 ∷ 4 ∷ 5 ∷ 3 ∷ 4 ∷ 4 ∷ 5 ∷ 4 ∷ 5 ∷ 5 ∷ 6 ∷ 1 ∷ 2 ∷ 2 ∷ 3 ∷ 2 ∷ 3 ∷ 3 ∷ 4
    ∷ 2 ∷ 3 ∷ 3 ∷ 4 ∷ 3 ∷ 4 ∷ 4 ∷ 5 ∷ 2 ∷ 3 ∷ 3 ∷ 4 ∷ 3 ∷ 4 ∷ 4 ∷ 5 ∷ 3 ∷ 4 ∷ 4 ∷ 5 ∷ 4 ∷ 5 ∷ 5 ∷ 6
    ∷ 2 ∷ 3 ∷ 3 ∷ 4 ∷ 3 ∷ 4 ∷ 4 ∷ 5 ∷ 3 ∷ 4 ∷ 4 ∷ 5 ∷ 4 ∷ 5 ∷ 5 ∷ 6 ∷ 3 ∷ 4 ∷ 4 ∷ 5 ∷ 4 ∷ 5 ∷ 5 ∷ 6
    ∷ 4 ∷ 5 ∷ 5 ∷ 6 ∷ 5 ∷ 6 ∷ 6 ∷ 7 ∷ 1 ∷ 2 ∷ 2 ∷ 3 ∷ 2 ∷ 3 ∷ 3 ∷ 4 ∷ 2 ∷ 3 ∷ 3 ∷ 4 ∷ 3 ∷ 4 ∷ 4 ∷ 5
    ∷ 2 ∷ 3 ∷ 3 ∷ 4 ∷ 3 ∷ 4 ∷ 4 ∷ 5 ∷ 3 ∷ 4 ∷ 4 ∷ 5 ∷ 4 ∷ 5 ∷ 5 ∷ 6 ∷ 2 ∷ 3 ∷ 3 ∷ 4 ∷ 3 ∷ 4 ∷ 4 ∷ 5
    ∷ 3 ∷ 4 ∷ 4 ∷ 5 ∷ 4 ∷ 5 ∷ 5 ∷ 6 ∷ 3 ∷ 4 ∷ 4 ∷ 5 ∷ 4 ∷ 5 ∷ 5 ∷ 6 ∷ 4 ∷ 5 ∷ 5 ∷ 6 ∷ 5 ∷ 6 ∷ 6 ∷ 7
    ∷ 2 ∷ 3 ∷ 3 ∷ 4 ∷ 3 ∷ 4 ∷ 4 ∷ 5 ∷ 3 ∷ 4 ∷ 4 ∷ 5 ∷ 4 ∷ 5 ∷ 5 ∷ 6 ∷ 3 ∷ 4 ∷ 4 ∷ 5 ∷ 4 ∷ 5 ∷ 5 ∷ 6
    ∷ 4 ∷ 5 ∷ 5 ∷ 6 ∷ 5 ∷ 6 ∷ 6 ∷ 7 ∷ 3 ∷ 4 ∷ 4 ∷ 5 ∷ 4 ∷ 5 ∷ 5 ∷ 6 ∷ 4 ∷ 5 ∷ 5 ∷ 6 ∷ 5 ∷ 6 ∷ 6 ∷ 7
    ∷ 4 ∷ 5 ∷ 5 ∷ 6 ∷ 5 ∷ 6 ∷ 6 ∷ 7 ∷ 5 ∷ 6 ∷ 6 ∷ 7 ∷ 6 ∷ 7 ∷ 7 ∷ 8 ∷ []

-- The loop over the bytes of a word.
unfoldable pub count_bytes : ℕ → ℕ → ℕ
count_bytes zero word = 0
count_bytes (suc left) word = get_or nbits (word % 256) 0 + count_bytes left (word / 256)

-- The loop over the words.
unfoldable pub count_words : ℕ → List ℕ → Option ℕ
unfolding count_bytes
count_words zero words = some 0
count_words (suc left) [] = none
count_words (suc left) (word ∷ words) = do
  rest ← count_words left words
  some (count_bytes 4 word + rest)

-- `count`
unfoldable pub count : BitString → Option ℕ
unfolding count_words
count b = count_words (b.nw + 1) b.bits

-- The loop of `moreThan`, where `k` is not negative yet.
unfoldable pub more_loop : ℕ → List ℕ → ℕ → Option Bool
unfolding count_bytes
more_loop zero words k = some false
more_loop (suc left) [] k = none
more_loop (suc left) (word ∷ words) k =
    let rest = more_loop left words (k - count_bytes 4 word) in
    if ltb k (count_bytes 4 word) then some true else rest

-- `moreThan`, for a threshold that is not negative and is cut to an int.
unfoldable pub more_than : BitString → ℕ → Option Bool
unfolding more_loop
more_than b k = more_loop (b.nw + 1) b.bits k

-- The digits of `word` that are 1, among the first `w`.
unfoldable pub ones : ℕ → ℕ → ℕ
ones zero word = 0
ones (suc w) word = word % 2 + ones w (word / 2)

abbrev pub total_ones : List ℕ → ℕ
total_ones [] = 0
total_ones (word ∷ words) = ones 32 word + total_ones words

abbrev table_right : List ℕ → ℕ → Bool
table_right [] i = true
table_right (n ∷ l) i = (n == ones 8 i) && table_right l (i + 1)

nbits_right : table_right nbits 0 ≡ true
unfolding ones
nbits_right = refl

and_left : (a b : Bool) → (a && b) ≡ true → a ≡ true
and_left true b h = refl
and_left false b h = h

and_right : (a b : Bool) → (a && b) ≡ true → b ≡ true
and_right true b h = h
and_right false b h = absurd (false-ne-true h)
  where
    false-ne-true : false ≡ true → ⊥
    false-ne-true q = cc

plus_zero : (i : ℕ) → i ≡ i + 0
plus_zero i = omega arith

plus_suc : (i j : ℕ) → i + 1 + j ≡ i + suc j
plus_suc i j = omega arith

table_right-get_or :
    (l : List ℕ) (i j : ℕ) → table_right l i ≡ true → j < length l → get_or l j 0 ≡ ones 8 (i + j)
table_right-get_or [] i j h less = ground arith
table_right-get_or (n ∷ l) i zero h less =
    (==_iff n (ones 8 i)).0 (and_left (n == ones 8 i) (table_right l (i + 1)) h)
    ∙ ap (ones 8) (plus_zero i)
table_right-get_or (n ∷ l) i (suc j) h less =
    table_right-get_or l (i + 1) j (and_right (n == ones 8 i) (table_right l (i + 1)) h)
      (omega (arith, less))
    ∙ ap (ones 8) (plus_suc i j)

ones-byte : (word : ℕ) → ones 8 (word % 256) ≡ ones 8 word
unfolding ones
ones-byte word = omega arith

-- Eight digits for each byte.
abbrev eight_times : ℕ → ℕ
eight_times zero = 0
eight_times (suc left) = suc (suc (suc (suc (suc (suc (suc (suc (eight_times left))))))))

ones-more :
    (left word : ℕ)
    → ones (eight_times (suc left)) word ≡ ones 8 word + ones (eight_times left) (word / 256)
unfolding ones
ones-more left word =
    let shift : word / 2 / 2 / 2 / 2 / 2 / 2 / 2 / 2 ≡ word / 256 = omega arith in
    omega (arith, ap (ones (eight_times left)) shift)

nbits-ones : (i : ℕ) → i < 256 → get_or nbits i 0 ≡ ones 8 i
nbits-ones i h = table_right-get_or nbits 0 i nbits_right h ∙ ap (ones 8) (omega arith)

no_ones : (word : ℕ) → 0 ≡ ones 0 word
unfolding ones
no_ones word = refl

count_bytes-ones : (left word : ℕ) → count_bytes left word ≡ ones (eight_times left) word
unfolding count_bytes
count_bytes-ones zero word = no_ones word
count_bytes-ones (suc left) word = omega (
  arith,
  nbits-ones (word % 256) (omega arith),
  ones-byte word,
  ones-more left word,
  count_bytes-ones left (word / 256),
)

count_words-total_ones :
    (words : List ℕ) (left : ℕ)
    → length words ≡ left
    → count_words left words ≡ some (total_ones words)
unfolding count_words
count_words-total_ones [] zero h = refl
count_words-total_ones [] (suc left) h = ground arith
count_words-total_ones (word ∷ words) zero h = ground arith
count_words-total_ones (word ∷ words) (suc left) h =
    rw (count_words-total_ones words left (omega (arith, h)))
      (ap some (ap (λ c. c + total_ones words) (count_bytes-ones 4 word)))

pub count-total_ones :
    (b : BitString) → length b.bits ≡ b.nw + 1 → count b ≡ some (total_ones b.bits)
unfolding count
count-total_ones b h = count_words-total_ones b.bits (b.nw + 1) h

more_loop-total_ones :
    (words : List ℕ) (left k : ℕ)
    → length words ≡ left
    → more_loop left words k ≡ some (ltb k (total_ones words))
unfolding more_loop
more_loop-total_ones [] zero k h = ap some (ground arith)
more_loop-total_ones [] (suc left) k h = ground arith
more_loop-total_ones (word ∷ words) zero k h = ground arith
more_loop-total_ones (word ∷ words) (suc left) k h =
    rw
      (
        count_bytes-ones 4 word,
        more_loop-total_ones words left (k - ones 32 word) (omega (arith, h)),
      )
      (spent (ones 32 word) (total_ones words) k)
  where
    spent :
        (c r k : ℕ) → (if ltb k c then some true else some (ltb (k - c) r)) ≡ some (ltb k (c + r))
    spent c r k = ground arith

-- Where there are as many words as the fields say, count returns the number of digits that are 1
-- among the 32 of each word, and moreThan whether that number exceeds the threshold, cut to an int
-- that is not negative.
pub more_than-count :
    (b : BitString) (k : ℕ)
    → length b.bits ≡ b.nw + 1
    → (c : ℕ) × (count b ≡ some c) × (c ≡ total_ones b.bits) × (more_than b k ≡ some (ltb k c))
unfolding more_than
more_than-count b k h =
    (total_ones b.bits, count-total_ones b h, refl, more_loop-total_ones b.bits (b.nw + 1) k h)

-- ===== src/BitString/Access.antt =====
-- What reads and writes of single bits do to a string without stray bits.
use minerule.Prelude.{
  ℕ, zero, suc, ◌+◌, ◌-◌, ◌*◌, ◌/◌, ◌%◌, ◌^◌, ◌≤◌, ◌<◌, ◌≡◌, refl, sym, ap, ◌∙◌, arith, bit_and,
  bit_or, Bool, true, false, not, leb, ◌==◌, ==_iff, if◌then◌else◌, some, List, [], ◌∷◌, ◌++◌,
  length, length-append, length-replicate, length-set, get_elem?, get_or, set, replicate, inl, inr,
  Bool-cases, two_pow_pos, two_pow_lt, ℤ, pos, negsuc,
}
use mathlib.Core.Path.{subst}
use minerule.Bits.{bit, flip, bit-zero, bit_and-one_shl, bit_or-lt, bit_and-le}
use minerule.VarSet.Digits.{bit-set}
use minerule.BitString.{BitString, init, last_word, test, set_bit, xran}

-- Bit `i` of the words, 0 past their end.
abbrev pub bit_of : List ℕ → ℕ → Bool
bit_of words i = bit (get_or words (i / 32) 0) (i % 32)

-- As many words as the bits take, each below 2 ^ 32, and no bit past the length.
pub record IsClean (b : BitString) : Type 0 where
  pub counted : length b.bits ≡ b.nw + 1
  pub reached : b.n ≤ 32 * (b.nw + 1)
  pub tight : 32 * b.nw ≤ b.n
  pub small : (j : ℕ) → get_or b.bits j 0 < 2 ^ 32
  pub clean : (i : ℕ) → b.n ≤ i → bit_of b.bits i ≡ false

pub get_elem?-get_or : (l : List ℕ) (j : ℕ) → j < length l → get_elem? l j ≡ some (get_or l j 0)
get_elem?-get_or [] j h = ground arith
get_elem?-get_or (x ∷ l) zero h = refl
get_elem?-get_or (x ∷ l) (suc j) h = get_elem?-get_or l j (omega (arith, h))

get_or-replicate : (m j : ℕ) → get_or {A = ℕ} (replicate m 0) j 0 ≡ 0
get_or-replicate zero j = refl
get_or-replicate (suc m) zero = refl
get_or-replicate (suc m) (suc j) = get_or-replicate m j

get_or-grown : (l : List ℕ) (m j : ℕ) → get_or (l ++ replicate m 0) j 0 ≡ get_or l j 0
get_or-grown [] m j = get_or-replicate m j
get_or-grown (x ∷ l) m zero = refl
get_or-grown (x ∷ l) m (suc j) = get_or-grown l m j

get_or-set :
    (l : List ℕ) (j k w : ℕ)
    → j < length l
    → get_or (set l j w) k 0 ≡ (if j == k then w else get_or l k 0)
get_or-set [] j k w h = ground arith
get_or-set (x ∷ l) zero zero w h = refl
get_or-set (x ∷ l) zero (suc k) w h = ground arith
get_or-set (x ∷ l) (suc j) zero w h = ground arith
get_or-set (x ∷ l) (suc j) (suc k) w h = get_or-set l j k w (omega (arith, h)) ∙ ground arith

test_bit : (x k : ℕ) → not (bit_and x (2 ^ k) == 0) ≡ bit x k
test_bit x k = ground (arith, bit_and-one_shl x k, two_pow_pos k)

inside : (b : BitString) (i : ℕ) → IsClean b → i < b.n → i / 32 < length b.bits
inside b i h l = omega (arith, h.counted, h.reached, l)

-- The bit at an int: there is none at a negative one.
abbrev pub bit_at : List ℕ → ℤ → Bool
bit_at words (pos i) = bit_of words i
bit_at words (negsuc k) = false

-- On a string that has the words that its length takes and no bit past it, test of any int, also of
-- a negative one, reads no word outside of the vector and returns the bit at that place, which is
-- false where there is none.
pub test-bit_at : (b : BitString) (i : ℤ) → IsClean b → test b i ≡ some (bit_at b.bits i)
unfolding test
test-bit_at b (negsuc k) h = refl
test-bit_at b (pos i) h = elim (Bool-cases (leb b.n i)) [
  | inl e ↦ rw e (ap some (sym (h.clean i (ground arith))))
  | inr e ↦
      rw (e, get_elem?-get_or b.bits (i / 32) (inside b i h (ground arith)))
        (ap some (test_bit (get_or b.bits (i / 32) 0) (i % 32)))
]

-- The string that `_Xran` makes where `i + 1` does not overflow, and the one that `set` writes to.
abbrev longer : BitString → ℕ → BitString
longer b i = record { bits = b.bits ++ replicate (i / 32 - b.nw) 0; n = i + 1; nw = i / 32 }

abbrev pub grown : BitString → ℕ → BitString
grown b i = if leb b.n i then longer b i else b

grows-grown :
    (b : BitString) (i : ℕ)
    → i + 1 < 2 ^ 31
    → (if leb b.n i then xran b i else some b) ≡ some (grown b i)
unfolding xran
grows-grown b i h = ground arith

-- The string that is written to holds the same bits, and bit `i` is inside.
record Grown (b : BitString) (i : ℕ) (g : BitString) : Type 0 where
  valid : IsClean g
  room : i < g.n
  same : (k : ℕ) → bit_of g.bits k ≡ bit_of b.bits k

longer-Grown : (b : BitString) (i : ℕ) → IsClean b → b.n ≤ i → Grown b i (longer b i)
longer-Grown b i h l =
    let m = i / 32 - b.nw in
    let same : (k : ℕ) → bit_of (b.bits ++ replicate m 0) k ≡ bit_of b.bits k =
      λ k. ap (λ x. bit x (k % 32)) (get_or-grown b.bits m (k / 32)) in
    record {
      valid = record {
        counted = omega (
          arith,
          length-append b.bits (replicate m 0),
          length-replicate {A = ℕ} m 0,
          h.counted,
          h.tight,
          l,
        );
        reached = omega arith;
        tight = omega arith;
        small = λ j. rw (get_or-grown b.bits m j) (h.small j);
        clean = λ k past. same k ∙ h.clean k (omega (arith, past, l));
      };
      room = omega arith;
      same = same;
    }

grown-Grown : (b : BitString) (i : ℕ) → IsClean b → Grown b i (grown b i)
grown-Grown b i h = elim (Bool-cases (leb b.n i)) [
  | inl e ↦ rw e (longer-Grown b i h (ground arith))
  | inr e ↦ rw e (record { valid = h; room = ground arith; same = λ k. refl })
]

-- The word after a write.
abbrev pub written : ℕ → ℕ → Bool → ℕ
written word i value =
    if value then bit_or word (2 ^ (i % 32)) else bit_and word (flip 32 (2 ^ (i % 32)))

written-lt : (word i : ℕ) (value : Bool) → word < 2 ^ 32 → written word i value < 2 ^ 32
written-lt word i true h = bit_or-lt 32 word (2 ^ (i % 32)) h (two_pow_lt (i % 32) 32 (omega arith))
written-lt word i false h =
    omega (arith, h, bit_and-le word word (flip 32 (2 ^ (i % 32))) (omega arith))

same_place : (i k : ℕ) → i / 32 ≡ k / 32 → (i % 32 == k % 32) ≡ (i == k)
same_place i k h = ground arith

other_place : (i k : ℕ) → (i / 32 == k / 32) ≡ false → (i == k) ≡ false
other_place i k h = ground arith

bit_of-set :
    (l : List ℕ) (i k : ℕ) (value : Bool)
    → i / 32 < length l
    → bit_of (set l (i / 32) (written (get_or l (i / 32) 0) i value)) k
      ≡ (if i == k then value else bit_of l k)
bit_of-set l i k value h =
    ap (λ w. bit w (k % 32))
      (get_or-set l (i / 32) (k / 32) (written (get_or l (i / 32) 0) i value) h)
    ∙ elim (Bool-cases (i / 32 == k / 32)) [
      | inl e ↦
          let at : i / 32 ≡ k / 32 = (==_iff (i / 32) (k / 32)).0 e in
          rw (e, sym (same_place i k at))
            (bit-set 32 (get_or l (i / 32) 0) (i % 32) (k % 32) value (omega arith) (omega arith)
              ∙ ap (λ j. if i % 32 == k % 32 then value else bit (get_or l j 0) (k % 32)) at)
      | inr e ↦ rw (e, other_place i k e) refl
    ]

either : (c : Bool) (x y : ℕ) → x < 2 ^ 32 → y < 2 ^ 32 → (if c then x else y) < 2 ^ 32
either true x y h k = h
either false x y h k = k

apart : (i j : ℕ) → i < j → (i == j) ≡ false
apart i j h = ground arith

-- On a string that has the words that its length takes and no bit past it, set of an index that is
-- not negative and not the largest int succeeds and leaves such a string, long enough for the
-- index, in which that bit has the value and every other bit is as before.
pub set_bit-bit_of :
    (b : BitString) (i : ℕ) (value : Bool)
    → i + 1 < 2 ^ 31
    → IsClean b
    → (b' : BitString) × (set_bit b (pos i) value ≡ some b')
      × IsClean b'
      × (i < b'.n)
      × ((k : ℕ) → bit_of b'.bits k ≡ (if i == k then value else bit_of b.bits k))
unfolding set_bit
set_bit-bit_of b i value small h =
    let g = grown b i in
    let k = grown-Grown b i h in
    let l = inside g i k.valid k.room in
    let word = get_or g.bits (i / 32) 0 in
    let now = set g.bits (i / 32) (written word i value) in
    let bits : (j : ℕ) → bit_of now j ≡ (if i == j then value else bit_of b.bits j) =
      λ j. bit_of-set g.bits i j value l ∙ ap (λ c. if i == j then value else c) (k.same j) in
    (
      record g { bits = now },
      rw (grows-grown b i small, get_elem?-get_or g.bits (i / 32) l) refl,
      record {
        counted = length-set g.bits (i / 32) (written word i value) ∙ k.valid.counted;
        reached = k.valid.reached;
        tight = k.valid.tight;
        small = λ j.
            subst (λ x. x < 2 ^ 32) (sym (get_or-set g.bits (i / 32) j (written word i value) l))
              (either (i / 32 == j) (written word i value) (get_or g.bits j 0)
                (written-lt word i value (k.valid.small (i / 32))) (k.valid.small j));
        clean = λ j past.
            bit_of-set g.bits i j value l
            ∙ rw (apart i j (omega (arith, past, k.room))) (k.valid.clean j past);
      },
      k.room,
      bits,
    )

-- A new string is clean, and holds no bit.
pub init-IsClean : (nbits : ℕ) → IsClean (init nbits)
unfolding init last_word
init-IsClean nbits = record {
  counted = length-replicate {A = ℕ} (last_word nbits + 1) 0;
  reached = ground arith;
  tight = ground arith;
  small = λ j. rw (get_or-replicate (last_word nbits + 1) j) (omega arith);
  clean = λ i past.
      ap (λ x. bit x (i % 32)) (get_or-replicate (last_word nbits + 1) (i / 32))
      ∙ bit-zero (i % 32);
}

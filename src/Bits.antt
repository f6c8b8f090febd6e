-- ===== src/Bits.antt =====
-- Binary digits of the native numbers: what `|`, `&`, `^`, `~` and `1 << k` on the program's
-- unsigned words do to each digit. Nothing here is code of the program.
mod Step
use Prim.Native.Nat.{differ, bit_and-bitwise}
use Step.{bit_or_step, bit_and_step, bit_xor_step}
use native.Mathlib.Nat.{pow-suc, one-le-pow}
use mathlib.Core.Bool.{xor}
use minerule.Prelude.{
  ℕ, zero, suc, ◌+◌, ◌-◌, ◌*◌, ◌/◌, ◌%◌, ◌^◌, ◌≤◌, ◌<◌, bit_and, bit_or, bit_xor, ◌≡◌, refl, Bool,
  true, false, not, ◌&&◌, ◌||◌, arith, ◌==◌, ltb, if◌then◌else◌, Bool-cases, inl, inr, ap,
}

-- The digit of weight 2 ^ k.
unfoldable pub bit : ℕ → ℕ → Bool
bit x zero = x % 2 == 1
bit x (suc k) = bit (x / 2) k

-- The complement of a word of `w` bits.
abbrev pub flip : ℕ → ℕ → ℕ
flip w x = 2 ^ w - 1 - x

pub bit-bit_or : (a b k : ℕ) → bit (bit_or a b) k ≡ (bit a k || bit b k)
unfolding bit
bit-bit_or a b zero = ground (arith, bit_or_step a b)
bit-bit_or a b (suc k) =
    let half : bit_or a b / 2 ≡ bit_or (a / 2) (b / 2) = ground (arith, bit_or_step a b) in
    rw half (bit-bit_or (a / 2) (b / 2) k)

pub bit-bit_and : (a b k : ℕ) → bit (bit_and a b) k ≡ (bit a k && bit b k)
unfolding bit
bit-bit_and a b zero = ground (arith, bit_and_step a b)
bit-bit_and a b (suc k) =
    let half : bit_and a b / 2 ≡ bit_and (a / 2) (b / 2) = ground (arith, bit_and_step a b) in
    rw half (bit-bit_and (a / 2) (b / 2) k)

-- Parities differ, or do not.
parity_differ :
    (a b : ℕ) → a < 2 → b < 2 → (differ a b ≤ 1) × ((differ a b == 1) ≡ xor (a == 1) (b == 1))
unfolding xor
parity_differ zero zero p q = (omega arith, refl)
parity_differ zero (suc zero) p q = (omega arith, refl)
parity_differ (suc zero) zero p q = (omega arith, refl)
parity_differ (suc zero) (suc zero) p q = (omega arith, refl)
parity_differ zero (suc (suc b)) p q = absurd (omega arith)
parity_differ (suc zero) (suc (suc b)) p q = absurd (omega arith)
parity_differ (suc (suc a)) b p q = absurd (omega arith)

pub bit-bit_xor : (a b k : ℕ) → bit (bit_xor a b) k ≡ xor (bit a k) (bit b k)
unfolding bit
bit-bit_xor a b zero =
    let d = parity_differ (a % 2) (b % 2) (omega arith) (omega arith) in
    let low : bit_xor a b % 2 ≡ differ (a % 2) (b % 2) = omega (arith, bit_xor_step a b, d.0) in
    rw low d.1
bit-bit_xor a b (suc k) =
    let d = parity_differ (a % 2) (b % 2) (omega arith) (omega arith) in
    let half : bit_xor a b / 2 ≡ bit_xor (a / 2) (b / 2) = omega (arith, bit_xor_step a b, d.0) in
    rw half (bit-bit_xor (a / 2) (b / 2) k)

pub bit-zero : (k : ℕ) → bit 0 k ≡ false
unfolding bit
bit-zero zero = refl
bit-zero (suc k) = bit-zero k

pub bit-one_shl : (j k : ℕ) → bit (2 ^ j) k ≡ (j == k)
unfolding bit
bit-one_shl zero zero = refl
bit-one_shl zero (suc k) = rw (bit-zero k) (ground arith)
bit-one_shl (suc j) zero = ground (arith, pow-suc 2 j)
bit-one_shl (suc j) (suc k) =
    let half : 2 ^ suc j / 2 ≡ 2 ^ j = omega (arith, pow-suc 2 j) in
    rw (half, bit-one_shl j k) (ground arith)

pub bit-flip : (w x k : ℕ) → x < 2 ^ w → k < w → bit (flip w x) k ≡ not (bit x k)
unfolding bit
bit-flip zero x k hx hk = absurd (omega arith)
bit-flip (suc w) x zero hx hk = ground (arith, pow-suc 2 w, one-le-pow w 2)
bit-flip (suc w) x (suc k) hx hk =
    let half : flip (suc w) x / 2 ≡ flip w (x / 2) = omega (arith, pow-suc 2 w) in
    rw half (bit-flip w (x / 2) k (omega (arith, pow-suc 2 w)) (omega arith))

pub bit_and-zero : (n x : ℕ) → x ≤ n → bit_and x 0 ≡ 0
bit_and-zero n zero h = refl
bit_and-zero zero (suc x) h = absurd (omega arith)
bit_and-zero (suc n) (suc x) h =
    omega (arith, bit_and_step (suc x) 0, bit_and-zero n (suc x / 2) (omega arith))

-- The test `(x & (1 << k)) != 0` reads one digit.
pub bit_and-one_shl : (x k : ℕ) → bit_and x (2 ^ k) ≡ (if bit x k then 2 ^ k else 0)
unfolding bit
bit_and-one_shl x zero =
    ground (arith, bit_and_step x 1, bit_and-zero (x / 2) (x / 2) (omega arith))
bit_and-one_shl x (suc k) =
    let half : 2 ^ suc k / 2 ≡ 2 ^ k = omega (arith, pow-suc 2 k) in
    let whole : bit_and x (2 ^ suc k) ≡ bit_and (x / 2) (2 ^ k) * 2 =
      ground (arith, pow-suc 2 k, bit_and_step x (2 ^ suc k), ap (bit_and (x / 2)) half) in
    ground (arith, pow-suc 2 k, whole, bit_and-one_shl (x / 2) k)

pub bit_or-lt : (w x y : ℕ) → x < 2 ^ w → y < 2 ^ w → bit_or x y < 2 ^ w
bit_or-lt zero x y hx hy =
    let ex : x ≡ 0 = omega arith in let ey : y ≡ 0 = omega arith in rw (ex, ey) (omega arith)
bit_or-lt (suc w) x y hx hy =
    let p = pow-suc 2 w in
    omega (arith, p, bit_or_step x y, bit_or-lt w (x / 2) (y / 2) (omega arith) (omega arith))

pub bit_and-le : (n x y : ℕ) → x ≤ n → bit_and x y ≤ x
bit_and-le n zero y h = rw bit_and-bitwise (omega arith)
bit_and-le zero (suc x) y h = absurd (omega arith)
bit_and-le (suc n) (suc x) y h =
    omega (arith, bit_and_step (suc x) y, bit_and-le n (suc x / 2) (y / 2) (omega arith))

pub bit_xor-lt : (w x y : ℕ) → x < 2 ^ w → y < 2 ^ w → bit_xor x y < 2 ^ w
bit_xor-lt zero x y hx hy =
    let ex : x ≡ 0 = omega arith in let ey : y ≡ 0 = omega arith in rw (ex, ey) (omega arith)
bit_xor-lt (suc w) x y hx hy =
    let p = pow-suc 2 w in
    let d = parity_differ (x % 2) (y % 2) (omega arith) (omega arith) in
    omega
      (arith, p, d.0, bit_xor_step x y, bit_xor-lt w (x / 2) (y / 2) (omega arith) (omega arith))

pub bit_beyond : (w x k : ℕ) → x < 2 ^ w → w ≤ k → bit x k ≡ false
unfolding bit
bit_beyond zero x k hx hk = let ex : x ≡ 0 = omega arith in rw ex (bit-zero k)
bit_beyond (suc w) x zero hx hk = absurd (omega arith)
bit_beyond (suc w) x (suc k) hx hk =
    bit_beyond w (x / 2) k (omega (arith, pow-suc 2 w)) (omega arith)

-- Two words of `w` digits that agree on each are equal.
pub bit_ext : (w x y : ℕ) → x < 2 ^ w → y < 2 ^ w → ((k : ℕ) → k < w → bit x k ≡ bit y k) → x ≡ y
unfolding bit
bit_ext zero x y hx hy same = omega arith
bit_ext (suc w) x y hx hy same =
    let low = same 0 (omega arith) in
    let half =
      bit_ext w (x / 2) (y / 2) (omega (arith, pow-suc 2 w)) (omega (arith, pow-suc 2 w))
        (λ k h. same (suc k) (omega arith)) in
    ground (arith, low, half)

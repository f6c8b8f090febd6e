-- ===== src/Bits/Step.antt =====
-- The native operations are recursions on digits, with the first argument for fuel. One equation for
-- the lowest digit of each.
use Prim.Native.Nat.{min, max, differ, digits}
use Prim.Native.Nat.{bit_and-bitwise, bit_or-bitwise, bit_xor-bitwise}
use minerule.Prelude.{
  ℕ, zero, suc, ◌+◌, ◌*◌, ◌/◌, ◌%◌, ◌≤◌, bit_and, bit_or, bit_xor, ◌≡◌, refl, arith,
}

module _ (tail : ℕ → ℕ) (op : ℕ → ℕ → ℕ) where
  -- Any two amounts of fuel that are large enough agree.
  same_digits : {f g : ℕ} (x y : ℕ) → x ≤ f → x ≤ g → digits tail op f x y ≡ digits tail op g x y
  same_digits {f = zero} {g = zero} x y _ _ = refl
  same_digits {f = zero} {g = suc g} zero y _ _ = refl
  same_digits {f = zero} {g = suc g} (suc x) y small _ = absurd (omega arith)
  same_digits {f = suc f} {g = zero} zero y _ _ = refl
  same_digits {f = suc f} {g = zero} (suc x) y _ small = absurd (omega arith)
  same_digits {f = suc f} {g = suc g} zero y _ _ = refl
  same_digits {f = suc f} {g = suc g} (suc x) y hf hg =
      let halves = same_digits {f = f} {g = g} (suc x / 2) (y / 2) (omega arith) (omega arith) in
      rw halves refl

  lowest :
      (x y : ℕ)
      → digits tail op (suc x) (suc x) y
        ≡ digits tail op (suc x / 2) (suc x / 2) (y / 2) * 2 + op (suc x % 2) (y % 2)
  lowest x y =
      let halves =
        same_digits {f = x} {g = suc x / 2} (suc x / 2) (y / 2) (omega arith) (omega arith) in
      rw halves refl

pub bit_and_step : (x y : ℕ) → bit_and x y ≡ bit_and (x / 2) (y / 2) * 2 + min (x % 2) (y % 2)
bit_and_step zero y = simp bit_and-bitwise (omega arith)
bit_and_step (suc x) y = simp bit_and-bitwise (lowest (λ _. 0) min x y)

pub bit_or_step : (x y : ℕ) → bit_or x y ≡ bit_or (x / 2) (y / 2) * 2 + max (x % 2) (y % 2)
bit_or_step zero y = simp bit_or-bitwise (omega arith)
bit_or_step (suc x) y = simp bit_or-bitwise (lowest (λ r. r) max x y)

pub bit_xor_step : (x y : ℕ) → bit_xor x y ≡ bit_xor (x / 2) (y / 2) * 2 + differ (x % 2) (y % 2)
bit_xor_step zero y = simp bit_xor-bitwise (omega arith)
bit_xor_step (suc x) y = simp bit_xor-bitwise (lowest (λ r. r) differ x y)

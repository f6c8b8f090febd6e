-- ===== src/Prelude/Integers.antt =====
-- The values of an int, with the order that the code tests.
use Prim.Native.Nat.{ℕ}
use mathlib.Core.Path.{◌≡◌, refl}
use mathlib.Core.Logic.{◌⊎◌, inl, inr}
use mathlib.Core.Bool.{Bool, true, false}
use native.Mathlib.Omega.{arith}
use minerule.Prelude.Tests.{leb}

-- `negsuc n` is `- n - 1`.
pub data ℤ : Type 0 where
  pos negsuc : ℕ → ℤ

abbrev pub le_int : ℤ → ℤ → Bool
le_int (pos a) (pos b) = leb a b
le_int (pos a) (negsuc b) = false
le_int (negsuc a) (pos b) = true
le_int (negsuc a) (negsuc b) = leb b a

pub le_int_trans : (a b c : ℤ) → le_int a b ≡ true → le_int b c ≡ true → le_int a c ≡ true
le_int_trans (pos a) (pos b) (pos c) h k = ground arith
le_int_trans (pos a) (pos b) (negsuc c) h k = k
le_int_trans (pos a) (negsuc b) c h k = absurd (ground arith)
le_int_trans (negsuc a) b (pos c) h k = refl
le_int_trans (negsuc a) (pos b) (negsuc c) h k = absurd (ground arith)
le_int_trans (negsuc a) (negsuc b) (negsuc c) h k = ground arith

pub le_int_total : (a b : ℤ) → (le_int a b ≡ true) ⊎ (le_int b a ≡ true)
le_int_total (pos a) (pos b) = ground arith
le_int_total (pos a) (negsuc b) = inr refl
le_int_total (negsuc a) (pos b) = inl refl
le_int_total (negsuc a) (negsuc b) = ground arith

pub le_int_refl : (a : ℤ) → le_int a a ≡ true
le_int_refl (pos a) = ground arith
le_int_refl (negsuc a) = ground arith

pub le_int_antisym : (a b : ℤ) → le_int a b ≡ true → le_int b a ≡ true → a ≡ b
le_int_antisym (pos a) (pos b) h k = ground arith
le_int_antisym (pos a) (negsuc b) h k = absurd (ground arith)
le_int_antisym (negsuc a) (pos b) h k = absurd (ground arith)
le_int_antisym (negsuc a) (negsuc b) h k = ground arith

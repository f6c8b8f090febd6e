-- ===== src/NormalForm/Encode/Capacity.antt =====
-- When the block that `encode` allocates is large enough.
use native.Mathlib.Nat.{pow-suc}
use minerule.Prelude.{
  ℕ, zero, suc, ◌+◌, ◌*◌, ◌/◌, ◌%◌, ◌^◌, ◌<◌, ◌≤◌, ◌≡◌, refl, false, ◌==◌, ◌≢◌, arith,
}
use minerule.NormalForm.{num_cells}

two_pow_five : (m : ℕ) → 2 ^ suc (suc (suc (suc (suc m)))) ≡ 32 * 2 ^ m
two_pow_five m = omega (
  arith,
  pow-suc 2 (suc (suc (suc (suc m)))),
  pow-suc 2 (suc (suc (suc m))),
  pow-suc 2 (suc (suc m)),
  pow-suc 2 (suc m),
  pow-suc 2 m,
)

num_cells-large : (m : ℕ) → m < 26 → num_cells (suc (suc (suc (suc (suc m))))) ≡ 2 ^ m * (m + 5)
unfolding num_cells
num_cells-large m h =
    let small : (suc (suc (suc (suc (suc m)))) == 31) ≡ false = ground arith in
    let whole : 32 * 2 ^ m / 32 ≡ 2 ^ m = omega arith in
    let rest : 32 * 2 ^ m % 32 ≡ 0 = omega arith in
    let vars : suc (suc (suc (suc (suc m)))) ≡ m + 5 = omega arith in
    rw (small, two_pow_five m, whole, rest, vars) refl

-- Room for every configuration, except with four variables.
pub num_cells_room : (n : ℕ) → n < 31 → n ≢ 4 → 2 ^ n * n ≤ 32 * num_cells n
unfolding num_cells
num_cells_room zero h four = omega arith
num_cells_room (suc zero) h four = omega arith
num_cells_room (suc (suc zero)) h four = omega arith
num_cells_room (suc (suc (suc zero))) h four = omega arith
num_cells_room (suc (suc (suc (suc zero)))) h four = absurd (four refl)
num_cells_room (suc (suc (suc (suc (suc m))))) h four =
    let vars : suc (suc (suc (suc (suc m)))) ≡ m + 5 = omega arith in
    rw (num_cells-large m (omega arith), two_pow_five m, vars) (omega arith)

-- With four variables there is one cell, enough for eight configurations out of sixteen.
pub num_cells_four : num_cells 4 ≡ 1
unfolding num_cells
num_cells_four = refl

-- ===== src/VarSet.antt =====
-- include/minerule/PredicateUtils/VarSet.hpp: the truth values of a set of Boolean variables in one
-- unsigned word, and the enumeration of all of them. `none` is a failed assertion.
pub mod Digits
pub mod Enumerate
use minerule.Prelude.{
  ℕ, zero, suc, ◌+◌, ◌-◌, ◌*◌, ◌%◌, ◌^◌, ◌≤◌, ◌<◌, bit_and, bit_or, ◌≡◌, Bool, true, false, not,
  ◌&&◌, ltb, ◌==◌, if◌then◌else◌, Option, none, some, guard, ◌>>=◌, ◌>>◌, List, [], ◌∷◌,
}
use mathlib.Core.Option
use minerule.Bits.{flip}

-- `class VarSet`; `vset` is an unsigned int.
pub record VarSet : Type 0 where
  pub vset : ℕ
  pub vset_size : ℕ

-- `VarSet(size_t numVars)`. The size is stored in an unsigned short before it is checked.
unfoldable pub make : ℕ → Option VarSet
make num_vars = do
  guard (ltb (num_vars % 2 ^ 16) 32)
  some (record { vset = 0; vset_size = num_vars % 2 ^ 16 })

-- `setSize`
unfoldable pub set_size : VarSet → ℕ → Option VarSet
set_size v num_vars = do guard (ltb num_vars 32); some (record v { vset_size = num_vars % 2 ^ 16 })

-- `setVar`; the mask is a `size_t`.
unfoldable pub set_var : VarSet → ℕ → Bool → Option VarSet
set_var v var_num value = do
  guard (ltb var_num v.vset_size)
  let mask = 2 ^ var_num
  some (record v { vset = if value then bit_or v.vset mask else bit_and v.vset (flip 64 mask) })

-- `getVar`
unfoldable pub get_var : VarSet → ℕ → Option Bool
get_var v var_num = do
  guard (ltb var_num v.vset_size)
  some (not (bit_and v.vset (2 ^ var_num) == 0))

-- `operator++(int)`, with the sum in unsigned arithmetic.
unfoldable pub advance : VarSet → VarSet × Bool
advance v =
    if ltb ((v.vset + 1) % 2 ^ 32) (2 ^ v.vset_size)
    then (record v { vset = (v.vset + 1) % 2 ^ 32 }, true)
    else (v, false)

-- `operator<`, `operator==` and `operator>`
unfoldable pub lt : VarSet → VarSet → Option Bool
lt v w = do guard (w.vset_size == v.vset_size); some (ltb v.vset w.vset)

unfoldable pub eq : VarSet → VarSet → Option Bool
eq v w = do guard (w.vset_size == v.vset_size); some (v.vset == w.vset)

unfoldable pub gt : VarSet → VarSet → Option Bool
gt v w = do guard (w.vset_size == v.vset_size); some (ltb w.vset v.vset)

-- The loop of `operator<<`, from variable `i` with `left` variables to go.
unfoldable pub print_from : VarSet → ℕ → ℕ → Option (List ℕ)
print_from v i zero = some []
print_from v i (suc left) = do
  b ← get_var v i
  rest ← print_from v (i + 1) left
  some ((if b then b'1' else b'0') ∷ rest)

unfoldable pub print : VarSet → Option (List ℕ)
print v = print_from v 0 v.vset_size

-- `class VarSetEnumerator`
pub record Enumerator : Type 0 where
  pub varset : VarSet
  pub first_call : Bool

unfoldable pub enumerator : ℕ → Option Enumerator
unfolding make
enumerator num_vars = do v ← make num_vars; some (record { varset = v; first_call = true })

-- `VarSetEnumerator::operator++(int)`
unfoldable pub next : Enumerator → Enumerator × Bool
unfolding advance
next e =
    if e.first_call && not (e.varset.vset_size == 0)
    then (record e { first_call = false }, true)
    else let (v, more) = advance e.varset in (record e { varset = v }, more)

-- `enumerationSize`
unfoldable pub enumeration_size : Enumerator → ℕ → ℕ
enumeration_size e val = 2 ^ (if val == 0 then e.varset.vset_size else val)

-- `while (vse++) visit(*vse)`: what is visited, in order. `none` when the fuel runs out.
unfoldable pub visits : ℕ → Enumerator → Option (List VarSet)
unfolding next
visits zero e = none
visits (suc fuel) e = elim (next e).1 [
  | true ↦ Option.map (λ vs. (next e).0.varset ∷ vs) (visits fuel (next e).0)
  | false ↦ some []
]

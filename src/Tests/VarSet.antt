-- ===== src/Tests/VarSet.antt =====
-- Runs of the operations of `VarSet`, and its theorems at small sets of variables.
use minerule.Prelude.{◌≡◌, refl, some, none, [], ◌∷◌, true, arith}
use minerule.VarSet.{VarSet, get_var, print, print_from, enumerator, visits}
use minerule.VarSet.Digits.{IsValid, Written, set_var-Written}
use minerule.VarSet.Enumerate.{configs, start, visits-configs}

-- Variables 0 and 2 of three.
abbrev two_of_three : VarSet
two_of_three = record { vset = 5; vset_size = 3 }

two_of_three-IsValid : IsValid two_of_three
two_of_three-IsValid = record { within = omega arith; small = omega arith }

printed : print two_of_three ≡ some (b'1' ∷ b'0' ∷ b'1' ∷ [])
unfolding print print_from get_var
printed = refl

get_outside : get_var two_of_three 3 ≡ none
unfolding get_var
get_outside = refl

set_var-Written_example : (v' : VarSet) × Written two_of_three 1 true v'
set_var-Written_example = set_var-Written two_of_three 1 true two_of_three-IsValid (omega arith)

visits-configs_example : (enumerator 2 ≡ some (start 2)) × (visits 5 (start 2) ≡ some (configs 2))
visits-configs_example = visits-configs 2 5 (omega arith) (omega arith)

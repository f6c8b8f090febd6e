-- ===== src/Separator.antt =====
-- src/PredicateUtils/HeadBodyPredicatesSeparator.cpp: the text of the conditions on the body and of
-- those on the head. `none` is an exception.
use minerule.Prelude.{Bool, if◌then◌else◌, Option, none, some, ◌>>=◌, List, [], ◌∷◌, ◌++◌}
use minerule.Predicate.{Text, ParsedPred}
use minerule.SqlUtils.{is_attribute, strip_prefix, remove_head_body, head_dot, body_dot}

-- `ConstraintClass`, without its error state, in which an exception is thrown.
pub data ConstraintClass : Type 0 where
  no_info body_constr head_constr : ConstraintClass

-- `setState`, with the state that it leaves.
unfoldable pub set_state : ConstraintClass → ConstraintClass → Option ConstraintClass
set_state no_info new_one = some new_one
set_state body_constr body_constr = some body_constr
set_state body_constr no_info = none
set_state body_constr head_constr = none
set_state head_constr head_constr = some head_constr
set_state head_constr no_info = none
set_state head_constr body_constr = none

-- `setStateAccordinglyToString`: the state, and the string without its selector.
unfoldable pub set_state_accordingly_to_string :
    (Text → Bool) → Text → ConstraintClass → Option (ConstraintClass × Text)
set_state_accordingly_to_string is_number str state = elim (strip_prefix body_dot str) [
  | some _ ↦ do state1 ← set_state state body_constr; some (state1, remove_head_body str)
  | none ↦ elim (strip_prefix head_dot str) [
    | some _ ↦ do state1 ← set_state state head_constr; some (state1, remove_head_body str)
    | none ↦ if is_attribute is_number str then none else some (state, str)
  ]
]

-- `updateConstraint`
unfoldable pub update_constraint : Text → Text → Text → Text → Text
update_constraint str v1 op v2 =
    let added = v1 ++ (b' ' ∷ (op ++ (b' ' ∷ v2))) in
    elim str [ [] ↦ added | c ∷ s ↦ (c ∷ s) ++ (b' ' ∷ b'A' ∷ b'N' ∷ b'D' ∷ b' ' ∷ added) ]

-- The loop of `separate`, on the texts for the body and for the head.
unfoldable pub separate_loop : (Text → Bool) → List ParsedPred → Text → Text → Option (Text × Text)
separate_loop is_number [] body head = some (body, head)
separate_loop is_number (p ∷ l_and) body head = do
  (state1, v1) ← set_state_accordingly_to_string is_number p.val1 no_info
  (state2, v2) ← set_state_accordingly_to_string is_number p.val2 state1
  elim state2 [
    | no_info ↦ none
    | body_constr ↦ separate_loop is_number l_and (update_constraint body v1 p.op v2) head
    | head_constr ↦ separate_loop is_number l_and body (update_constraint head v1 p.op v2)
  ]

-- `separate`
unfoldable pub separate : (Text → Bool) → List ParsedPred → Text → Text → Option (Text × Text)
separate is_number [] body head = some (b'1' ∷ b'=' ∷ b'1' ∷ [], b'1' ∷ b'=' ∷ b'1' ∷ [])
separate is_number (p ∷ l_and) body head = separate_loop is_number (p ∷ l_and) body head

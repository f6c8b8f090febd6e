-- ===== src/SqlUtils.antt =====
-- include/minerule/Utils/SQLUtils.hpp and src/Utils/SQLUtils.cpp: which strings name attributes, the
-- kinds of SQL types, and quoting. Whether `Converter::toDouble` accepts a string (it calls `strtod`)
-- is an argument.
pub mod Quote
use minerule.Prelude.{
  ℕ, zero, suc, ◌+◌, Bool, true, false, not, ◌&&◌, ◌||◌, ◌==◌, leb, if◌then◌else◌, any, Option,
  none, some, List, [], ◌∷◌, ◌++◌, ◌>>=◌, length,
}
use minerule.Predicate.{Text}

-- `SQLUtils::Type`
pub data SqlKind : Type 0 where
  numeric string binary date_time bit_kind : SqlKind

-- `SQLUtils::isAttribute`
abbrev pub is_digit : ℕ → Bool
is_digit c = leb 48 c && leb c 57

unfoldable pub is_attribute : (Text → Bool) → Text → Bool
is_attribute is_number [] = false
is_attribute is_number (c ∷ s) =
    not (is_digit c) && not (any (λ d. d == 34 || d == 39) (c ∷ s)) && not (is_number (c ∷ s))

-- `rest.find("'")` and the two substrings around what it finds.
unfoldable pub split_quote : Text → Option (Text × Text)
split_quote [] = none
split_quote (c ∷ s) =
    if c == 39 then some ([], s) else (do (before, after) ← split_quote s; some (c ∷ before, after))

-- The loop of `SQLUtils::quote`.
unfoldable pub quote_loop : ℕ → Text → Text → Option Text
quote_loop zero rest result = none
quote_loop (suc fuel) [] result = some result
quote_loop (suc fuel) (c ∷ s) result = elim (split_quote (c ∷ s)) [
  | none ↦ quote_loop fuel [] (result ++ (c ∷ s))
  | some t ↦ quote_loop fuel t.1 ((result ++ t.0) ++ 39 ∷ 39 ∷ [])
]

-- `SQLUtils::quote`
unfoldable pub quote : ℕ → Text → Option Text
unfolding quote_loop
quote fuel str = do result ← quote_loop fuel str []; some (39 ∷ result ++ 39 ∷ [])

-- `str.substr(0, length) == pat`, and the string behind it.
unfoldable pub strip_prefix : Text → Text → Option Text
strip_prefix [] s = some s
strip_prefix (p ∷ pat) [] = none
strip_prefix (p ∷ pat) (c ∷ s) = if p == c then strip_prefix pat s else none

-- `find` of a pattern and `erase` of what it finds.
unfoldable pub erase_first : Text → Text → Text
erase_first pat [] = []
erase_first pat (c ∷ s) = elim (strip_prefix pat (c ∷ s)) [
  | some rest ↦ rest
  | none ↦ c ∷ erase_first pat s
]

abbrev pub head_dot : Text
head_dot = b'H' ∷ b'E' ∷ b'A' ∷ b'D' ∷ b'.' ∷ []

abbrev pub body_dot : Text
body_dot = b'B' ∷ b'O' ∷ b'D' ∷ b'Y' ∷ b'.' ∷ []

-- `SQLUtils::removeHeadBodyFromAttrName`
unfoldable pub remove_head_body : Text → Text
remove_head_body str = erase_first body_dot (erase_first head_dot str)

-- ===== src/SqlUtils/Quote.antt =====
-- What `SQLUtils::quote` does to a string, and that the string can be read back.
use minerule.Prelude.{
  ℕ, zero, suc, ◌+◌, ◌<◌, ◌≡◌, refl, false, ◌==◌, if◌then◌else◌, Option, none, some, [], ◌∷◌, ◌++◌,
  length, arith, ◌∙◌, ap, sym, append-nil, append_assoc, Option-cases, Bool-cases, some_inj, inl,
  inr,
}
use minerule.Predicate.{Text}
use minerule.SqlUtils.{split_quote, quote_loop, quote}

-- Every quote doubled.
abbrev pub doubled : Text → Text
doubled [] = []
doubled (c ∷ s) = if c == 39 then 39 ∷ 39 ∷ doubled s else c ∷ doubled s

-- A reader of SQL strings: up to a quote that no second quote follows.
abbrev pub unquote : Text → Text
unquote [] = []
unquote (c ∷ []) = []
unquote (c ∷ d ∷ s) =
    if c == 39 then (if d == 39 then 39 ∷ unquote s else []) else c ∷ unquote (d ∷ s)

split-none : (s : Text) → split_quote s ≡ none → doubled s ≡ s
unfolding split_quote
split-none [] h = refl
split-none (c ∷ s) h = ground (arith, split-none s)

split-some :
    (s before after : Text)
    → split_quote s ≡ some (before, after)
    → (doubled s ≡ before ++ 39 ∷ 39 ∷ doubled after) × (length after < length s)
unfolding split_quote
split-some [] before after h = ground arith
split-some (c ∷ s) before after h = elim (Bool-cases (c == 39)) [
  | inl quote_here ↦ ground arith
  | inr other ↦ elim (Option-cases (split_quote s)) [
    | inl no_quote ↦ ground arith
    | inr ((b, a), e) ↦
        let (ends, shorter) = split-some s b a e in
        let found : ◌≡◌ {A = Option (Text × Text)} (some (c ∷ b, a)) (some (before, after)) =
          ground arith in
        let same_before : c ∷ b ≡ before = ap (λ t. t.0) (some_inj found) in
        let same_after : a ≡ after = ap (λ t. t.1) (some_inj found) in
        rw (← same_before, ← same_after, other) (ap (λ t. c ∷ t) ends, omega arith)
  ]
]

module _ (fuel c : ℕ) (s result : Text) where
  quote_loop-none :
      split_quote (c ∷ s) ≡ none
      → quote_loop (suc fuel) (c ∷ s) result ≡ quote_loop fuel [] (result ++ (c ∷ s))
  unfolding quote_loop
  quote_loop-none e = rw (e, quote_loop) refl

  quote_loop-some :
      (before after : Text)
      → split_quote (c ∷ s) ≡ some (before, after)
      → quote_loop (suc fuel) (c ∷ s) result
        ≡ quote_loop fuel after ((result ++ before) ++ 39 ∷ 39 ∷ [])
  unfolding quote_loop
  quote_loop-some before after e = rw (e, quote_loop) refl

quote_loop-nil : (fuel : ℕ) (result : Text) → 0 < fuel → quote_loop fuel [] result ≡ some result
unfolding quote_loop
quote_loop-nil zero result h = absurd (omega arith)
quote_loop-nil (suc fuel) result h = refl

quote_loop-doubled :
    (fuel : ℕ) (rest result : Text)
    → length rest + 1 < fuel
    → quote_loop fuel rest result ≡ some (result ++ doubled rest)
quote_loop-doubled zero rest result h = absurd (omega arith)
quote_loop-doubled (suc fuel) [] result h =
    quote_loop-nil (suc fuel) result (omega arith) ∙ ap some (sym (append-nil result))
quote_loop-doubled (suc fuel) (c ∷ s) result h = elim (Option-cases (split_quote (c ∷ s))) [
  | inl e ↦
      quote_loop-none fuel c s result e
      ∙ quote_loop-nil fuel (result ++ (c ∷ s)) (omega arith)
      ∙ ap (λ t. some (result ++ t)) (sym (split-none (c ∷ s) e))
  | inr ((before, after), e) ↦
      let (ends, shorter) = split-some (c ∷ s) before after e in
      quote_loop-some fuel c s result before after e
      ∙ quote_loop-doubled fuel after ((result ++ before) ++ 39 ∷ 39 ∷ []) (omega arith)
      ∙ ap some (simp append_assoc)
      ∙ ap (λ t. some (result ++ t)) (sym ends)
]

pub quote-doubled :
    (fuel : ℕ) (str : Text)
    → length str + 1 < fuel
    → quote fuel str ≡ some (39 ∷ doubled str ++ 39 ∷ [])
unfolding quote
quote-doubled fuel str h = rw (quote_loop-doubled fuel str [] h)

unquote-cons :
    (c : ℕ) (xs : Text)
    → (c == 39) ≡ false
    → unquote (c ∷ (xs ++ 39 ∷ [])) ≡ c ∷ unquote (xs ++ 39 ∷ [])
unquote-cons c [] h = rw h refl
unquote-cons c (x ∷ xs) h = rw h refl

unquote-doubled : (s : Text) → unquote (doubled s ++ 39 ∷ []) ≡ s
unquote-doubled [] = refl
unquote-doubled (c ∷ s) = elim (Bool-cases (c == 39)) [
  | inl quote_here ↦ ground (arith, unquote-doubled s)
  | inr other ↦ rw other (unquote-cons c (doubled s) other ∙ ap (λ t. c ∷ t) (unquote-doubled s))
]

-- With more fuel than the length of the string and one, quote ends, and reading its result as SQL
-- reads a string, from behind the first quote up to the first quote that is not doubled, gives the
-- string back.
pub unquote-quote :
    (fuel : ℕ) (str : Text)
    → length str + 1 < fuel
    → (t : Text) × (quote fuel str ≡ some (39 ∷ t)) × (unquote t ≡ str)
unquote-quote fuel str h = (doubled str ++ 39 ∷ [], quote-doubled fuel str h, unquote-doubled str)

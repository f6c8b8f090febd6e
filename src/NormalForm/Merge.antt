-- ===== src/NormalForm/Merge.antt =====
-- The loops of `getCodesRelationship` and `computeHammingDistance` over the words that the iterators
-- stand for, and what they say of the two predicates that selected the words.
use Prim.Native.Nat.Ordering.{lt, eq, gt}
use mathlib.Core.Bool.{xor}
use minerule.Prelude.{
  ℕ, zero, suc, ◌≤◌, ◌≡◌, refl, Bool, true, false, ◌&&◌, not, List, [], ◌∷◌, arith, length, none,
  some, ◌∙◌, sym, any, upto, keep, compare, Bool-cases, inl, inr, ap, ◌≢◌, keep_yes, keep_no, ap₂,
}
use minerule.NormalForm.{
  Relationship, first_more_general, first_more_specific, equivalent, unrelated, finish, only_first,
  only_second,
}

unfoldable pub relate_words : Relationship → List ℕ → List ℕ → Relationship
unfolding finish
relate_words rel [] [] = rel
relate_words rel [] (y ∷ ys) = finish rel false true
relate_words rel (x ∷ xs) [] = finish rel true false
relate_words rel (x ∷ xs) (y ∷ ys) = elim (compare x y) [
  | eq ↦ relate_words rel xs ys
  | lt ↦ elim (only_first rel) [ none ↦ unrelated | some rel' ↦ relate_words rel' xs (y ∷ ys) ]
  | gt ↦ elim (only_second rel) [ none ↦ unrelated | some rel' ↦ relate_words rel' (x ∷ xs) ys ]
]

unfoldable pub hamming_words : List ℕ → List ℕ → ℕ
hamming_words [] [] = 0
hamming_words [] (y ∷ ys) = suc (length ys)
hamming_words (x ∷ xs) [] = suc (length xs)
hamming_words (x ∷ xs) (y ∷ ys) = elim (compare x y) [
  | eq ↦ hamming_words xs ys
  | lt ↦ suc (hamming_words xs (y ∷ ys))
  | gt ↦ suc (hamming_words (x ∷ xs) ys)
]

-- The relationship of two predicates: does something satisfy the first only, the second only?
abbrev pub of_flags : Bool → Bool → Relationship
of_flags false false = equivalent
of_flags true false = first_more_general
of_flags false true = first_more_specific
of_flags true true = unrelated

abbrev pub joined : Relationship → Bool → Bool → Relationship
joined equivalent a b = of_flags a b
joined first_more_general a b = of_flags true b
joined first_more_specific a b = of_flags a true
joined unrelated a b = unrelated

-- The words of a list are at least `lo`, if only the first matters.
abbrev Starts : ℕ → List ℕ → Type 0
Starts lo [] = Unit {0}
Starts lo (x ∷ xs) = lo ≤ x

keep-Starts :
    (p : ℕ → Bool) (lo first count : ℕ) → lo ≤ first → Starts lo (keep p (upto first count))
keep-Starts p lo first zero h = tt
keep-Starts p lo first (suc count) h =
    ground (arith, keep-Starts p lo (suc first) count (omega arith))

after_first : Relationship → List ℕ → List ℕ → Relationship
after_first rel xs ys = elim (only_first rel) [
  | none ↦ unrelated
  | some rel' ↦ relate_words rel' xs ys
]

after_second : Relationship → List ℕ → List ℕ → Relationship
after_second rel xs ys = elim (only_second rel) [
  | none ↦ unrelated
  | some rel' ↦ relate_words rel' xs ys
]

relate_words-first :
    (rel : Relationship) (x : ℕ) (xs ys : List ℕ)
    → rel ≢ unrelated
    → Starts (suc x) ys
    → relate_words rel (x ∷ xs) ys ≡ after_first rel xs ys
unfolding relate_words after_first only_first
relate_words-first first_more_general x [] [] r h = refl
relate_words-first first_more_general x (z ∷ xs) [] r h = refl
relate_words-first first_more_specific x xs [] r h = refl
relate_words-first equivalent x [] [] r h = refl
relate_words-first equivalent x (z ∷ xs) [] r h = refl
relate_words-first unrelated x xs [] r h = absurd (r refl)
relate_words-first rel x xs (y ∷ ys) r h = ground arith

relate_words-second :
    (rel : Relationship) (y : ℕ) (xs ys : List ℕ)
    → rel ≢ unrelated
    → Starts (suc y) xs
    → relate_words rel xs (y ∷ ys) ≡ after_second rel xs ys
unfolding relate_words after_second only_second
relate_words-second first_more_general y [] ys r h = refl
relate_words-second first_more_specific y [] [] r h = refl
relate_words-second first_more_specific y [] (z ∷ ys) r h = refl
relate_words-second equivalent y [] [] r h = refl
relate_words-second equivalent y [] (z ∷ ys) r h = refl
relate_words-second unrelated y [] ys r h = absurd (r refl)
relate_words-second rel y (x ∷ xs) ys r h = ground arith

module _ (p q : ℕ → Bool) where
  abbrev pub only : ℕ → Bool
  only c = p c && not (q c)

after_first-joined :
    (rel : Relationship) (xs ys : List ℕ) (a b : Bool)
    → rel ≢ unrelated
    → relate_words first_more_general xs ys ≡ joined first_more_general a b
    → after_first rel xs ys ≡ joined rel true b
unfolding after_first only_first
after_first-joined first_more_general xs ys a b r h = h
after_first-joined first_more_specific xs ys a b r h = refl
after_first-joined equivalent xs ys a b r h = h
after_first-joined unrelated xs ys a b r h = absurd (r refl)

after_second-joined :
    (rel : Relationship) (xs ys : List ℕ) (a b : Bool)
    → rel ≢ unrelated
    → relate_words first_more_specific xs ys ≡ joined first_more_specific a b
    → after_second rel xs ys ≡ joined rel a true
unfolding after_second only_second
after_second-joined first_more_general xs ys a b r h = refl
after_second-joined first_more_specific xs ys a b r h = h
after_second-joined equivalent xs ys a b r h = h
after_second-joined unrelated xs ys a b r h = absurd (r refl)

relate_words-both :
    (rel : Relationship) (x : ℕ) (xs ys : List ℕ)
    → relate_words rel (x ∷ xs) (x ∷ ys) ≡ relate_words rel xs ys
unfolding relate_words
relate_words-both rel x xs ys = ground arith

module _ (p q : ℕ → Bool) where
  -- The merge tells whether one predicate, the other, or both have a configuration of their own.
  pub relate_words-joined :
      (rel : Relationship) (first count : ℕ)
      → rel ≢ unrelated
      → relate_words rel (keep p (upto first count)) (keep q (upto first count))
        ≡ joined rel (any (only p q) (upto first count)) (any (only q p) (upto first count))
  unfolding relate_words
  relate_words-joined first_more_general first zero r = refl
  relate_words-joined first_more_specific first zero r = refl
  relate_words-joined equivalent first zero r = refl
  relate_words-joined unrelated first zero r = absurd (r refl)
  relate_words-joined rel first (suc count) r =
      let xs = keep p (upto (suc first) count) in
      let ys = keep q (upto (suc first) count) in
      let a = any (only p q) (upto (suc first) count) in
      let b = any (only q p) (upto (suc first) count) in
      let general = relate_words-joined first_more_general (suc first) count (λ e. cc) in
      let specific = relate_words-joined first_more_specific (suc first) count (λ e. cc) in
      let same = relate_words-joined rel (suc first) count r in
      let xs_later = keep-Starts p (suc first) (suc first) count (omega arith) in
      let ys_later = keep-Starts q (suc first) (suc first) count (omega arith) in
      elim (Bool-cases (p first)) [
        | inl in_p ↦ elim (Bool-cases (q first)) [
          | inl in_q ↦ rw (in_p, in_q, relate_words-both rel first xs ys) same
          | inr out_q ↦
              rw (in_p, out_q, relate_words-first rel first xs ys r ys_later)
                (after_first-joined rel xs ys a b r general)
        ]
        | inr out_p ↦ elim (Bool-cases (q first)) [
          | inl in_q ↦
              rw (in_q, out_p, relate_words-second rel first xs ys r xs_later)
                (after_second-joined rel xs ys a b r specific)
          | inr out_q ↦ rw (out_p, out_q) same
        ]
      ]

  hamming_first :
      (x : ℕ) (xs ys : List ℕ)
      → Starts (suc x) ys
      → hamming_words (x ∷ xs) ys ≡ suc (hamming_words xs ys)
  unfolding hamming_words
  hamming_first x [] [] h = refl
  hamming_first x (z ∷ xs) [] h = refl
  hamming_first x xs (y ∷ ys) h = ground arith

  hamming_second :
      (y : ℕ) (xs ys : List ℕ)
      → Starts (suc y) xs
      → hamming_words xs (y ∷ ys) ≡ suc (hamming_words xs ys)
  unfolding hamming_words
  hamming_second y [] [] h = refl
  hamming_second y [] (z ∷ ys) h = refl
  hamming_second y (x ∷ xs) ys h = ground arith

  hamming_both : (x : ℕ) (xs ys : List ℕ) → hamming_words (x ∷ xs) (x ∷ ys) ≡ hamming_words xs ys
  unfolding hamming_words
  hamming_both x xs ys = ground arith

  abbrev pub differs : ℕ → Bool
  differs c = xor (p c) (q c)

  -- The merge counts the configurations on which the predicates differ.
  pub hamming_words-length :
      (first count : ℕ)
      → hamming_words (keep p (upto first count)) (keep q (upto first count))
        ≡ length (keep differs (upto first count))
  unfolding hamming_words xor
  hamming_words-length first zero = refl
  hamming_words-length first (suc count) =
      let xs = keep p (upto (suc first) count) in
      let ys = keep q (upto (suc first) count) in
      let rest = hamming_words-length (suc first) count in
      let xs_later = keep-Starts p (suc first) (suc first) count (omega arith) in
      let ys_later = keep-Starts q (suc first) (suc first) count (omega arith) in
      let yes_here = keep_yes differs first (upto (suc first) count) in
      let no_here = keep_no differs first (upto (suc first) count) in
      elim (Bool-cases (p first)) [
        | inl in_p ↦ elim (Bool-cases (q first)) [
          | inl in_q ↦
              ap₂ hamming_words (keep_yes p first _ in_p) (keep_yes q first _ in_q)
              ∙ hamming_both first xs ys
              ∙ rest
              ∙ ap length (sym (no_here (rw (in_p, in_q))))
          | inr out_q ↦
              ap₂ hamming_words (keep_yes p first _ in_p) (keep_no q first _ out_q)
              ∙ hamming_first first xs ys ys_later
              ∙ ap suc rest
              ∙ ap length (sym (yes_here (rw (in_p, out_q))))
        ]
        | inr out_p ↦ elim (Bool-cases (q first)) [
          | inl in_q ↦
              ap₂ hamming_words (keep_no p first _ out_p) (keep_yes q first _ in_q)
              ∙ hamming_second first xs ys xs_later
              ∙ ap suc rest
              ∙ ap length (sym (yes_here (rw (out_p, in_q))))
          | inr out_q ↦
              ap₂ hamming_words (keep_no p first _ out_p) (keep_no q first _ out_q)
              ∙ rest
              ∙ ap length (sym (no_here (rw (out_p, out_q))))
        ]
      ]

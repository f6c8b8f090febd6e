-- ===== src/PredicateUtils/Valuation.antt =====
-- Words and valuations: with its simple predicates numbered, a predicate is evaluated on a word as it
-- means under the valuation that the word encodes, and every valuation is encoded by a word.
use Prim.Native.Nat.Ordering.{eq}
use native.Mathlib.Nat.{pow-suc}
use minerule.Prelude.{
  ℕ, suc, ◌+◌, ◌*◌, ◌/◌, ◌<◌, ◌^◌, ◌≡◌, refl, Bool, true, false, some, List, [], ◌∷◌, length, arith,
  inl, inr, ◌∙◌, ap, if◌then◌else◌, all, Bool-cases,
}
use minerule.Bits.{bit}
use minerule.Predicate.{Ref, Pool, PredConjunction, Predicate, compare_text, get_var_id, evaluate}
use minerule.Predicate.Pool.{compare_text_refl, eq_of_compare_text}
use minerule.Predicate.Meaning.{holds, holds_any, Reads, ReadsAll, evaluate-holds}
use minerule.VarSet.Enumerate.{config}
use minerule.PredicateUtils.Sets.{In, Rises, Rising, Each, EachOf}
use minerule.PredicateUtils.Numbering.{Numbered, Rises-lt, Rises-Rising}

abbrev same_text : Ref → Ref → Bool
same_text r x = elim (compare_text r x) [ eq ↦ true | _ ↦ false ]

-- The valuation that a word encodes, by the places of the pointers in the list.
unfoldable pub val_of : List Ref → ℕ → Ref → Bool
val_of [] c r = false
val_of (x ∷ xs) c r = if same_text r x then bit c 0 else val_of xs (c / 2) r

pub word_of : (Ref → Bool) → List Ref → ℕ
word_of v [] = 0
word_of v (x ∷ xs) = (if v x then 1 else 0) + 2 * word_of v xs

pub word_of-lt : (v : Ref → Bool) (xs : List Ref) → word_of v xs < 2 ^ length xs
unfolding word_of
word_of-lt v [] = omega arith
word_of-lt v (x ∷ xs) = ground (arith, word_of-lt v xs, pow-suc 2 (length xs))

val_of-word_of :
    (v : Ref → Bool) (xs : List Ref) (r : Ref) → In r xs → val_of xs (word_of v xs) r ≡ v r
unfolding val_of word_of bit
val_of-word_of v [] r h = elim h [ ]
val_of-word_of v (x ∷ xs) r h =
    let half : ((if v x then 1 else 0) + 2 * word_of v xs) / 2 ≡ word_of v xs = ground arith in
    ground (arith, half, eq_of_compare_text r x, compare_text_refl r, val_of-word_of v xs r)

word_of-agree :
    (v w : Ref → Bool) (xs : List Ref)
    → ((r : Ref) → In r xs → w r ≡ v r)
    → word_of w xs ≡ word_of v xs
unfolding word_of
word_of-agree v w [] h = refl
word_of-agree v w (x ∷ xs) h =
    let here = h x (inl refl) in
    let rest = word_of-agree v w xs (λ r m. h r (inr m)) in ground arith

Rises-other : (b r : Ref) (xs : List Ref) → Rises b xs → In r xs → same_text r b ≡ false
Rises-other b r xs h m =
    ground (arith, Rises-lt b r xs h m, eq_of_compare_text r b, compare_text_refl b)

-- On a rising list the word of a word's valuation is the word.
pub word_of-val_of :
    (xs : List Ref) (c : ℕ) → Rising xs → c < 2 ^ length xs → word_of (val_of xs c) xs ≡ c
unfolding word_of val_of bit
word_of-val_of [] c h small = omega arith
word_of-val_of (x ∷ xs) c h small =
    let later =
      word_of-agree (val_of xs (c / 2)) (val_of (x ∷ xs) c) xs
        (λ r m. let other = Rises-other x r xs h m in ground arith) in
    let rest =
      word_of-val_of xs (c / 2) (Rises-Rising x xs h) (omega (arith, pow-suc 2 (length xs))) in
    let here = compare_text_refl x in ground arith

eq_of_same : (r x : Ref) → same_text r x ≡ true → r ≡ x
eq_of_same r x h = ground (arith, eq_of_compare_text r x)

In-tail : (r x : Ref) (xs : List Ref) → same_text r x ≡ false → In r (x ∷ xs) → In r xs
In-tail r x xs h (inl e) = ground (arith, compare_text_refl r)
In-tail r x xs h (inr m) = m

-- Where a numbered pointer is found, and which digit it reads.
Numbered-get_var_id :
    (pool : Pool) (i : ℕ) (xs : List Ref) (r : Ref) (c : ℕ)
    → Numbered pool i xs
    → In r xs
    → (k : ℕ) × (get_var_id pool r ≡ some (i + k)) × (k < length xs) × (val_of xs c r ≡ bit c k)
unfolding val_of bit
Numbered-get_var_id pool i [] r c h m = elim m [ ]
Numbered-get_var_id pool i (x ∷ xs) r c h m = elim (Bool-cases (same_text r x)) [
  | inl same ↦
      let e = eq_of_same r x same in
      (0, rw (e, h.0) (ap some (omega arith)), omega arith, rw same refl)
  | inr other ↦
      let (k, found, small, digit) =
        Numbered-get_var_id pool (i + 1) xs r (c / 2) h.1 (In-tail r x xs other m) in
      (suc k, found ∙ ap some (omega arith), omega arith, rw other digit)
]

module _ (pool : Pool) (xs : List Ref) (c : ℕ) (numbered : Numbered pool 0 xs) where
  Reads-val_of :
      (rs : PredConjunction)
      → Each (λ r. In r xs) rs
      → Reads (get_var_id pool) (length xs) c (val_of xs c) rs
  Reads-val_of [] h = tt
  Reads-val_of (r ∷ rs) h =
      let (k, found, small, digit) = Numbered-get_var_id pool 0 xs r c numbered h.0 in
      ((k, found ∙ ap some (omega arith), small, digit), Reads-val_of rs h.1)

  ReadsAll-val_of :
      (p : Predicate)
      → EachOf (λ r. In r xs) p
      → ReadsAll (get_var_id pool) (length xs) c (val_of xs c) p
  ReadsAll-val_of [] h = tt
  ReadsAll-val_of (rs ∷ p) h = (Reads-val_of rs h.0, ReadsAll-val_of p h.1)

  -- The predicate, evaluated by the ids of the numbered pointers, means what the word encodes.
  pub evaluate-val_of :
      (p : Predicate)
      → EachOf (λ r. In r xs) p
      → evaluate (get_var_id pool) (config (length xs) c) p ≡ some (holds (val_of xs c) p)
  evaluate-val_of p h =
      evaluate-holds (get_var_id pool) (config (length xs) c) (val_of xs c) p (ReadsAll-val_of p h)

module _ (v w : Ref → Bool) (xs : List Ref) (agree : (r : Ref) → In r xs → w r ≡ v r) where
  all-agree : (rs : PredConjunction) → Each (λ r. In r xs) rs → all w rs ≡ all v rs
  all-agree [] h = refl
  all-agree (r ∷ rs) h = ground (arith, agree r h.0, all-agree rs h.1)

  holds_any-agree : (p : Predicate) → EachOf (λ r. In r xs) p → holds_any w p ≡ holds_any v p
  holds_any-agree [] h = refl
  holds_any-agree (rs ∷ p) h = ground (arith, all-agree rs h.0, holds_any-agree p h.1)

  holds-agree : (p : Predicate) → EachOf (λ r. In r xs) p → holds w p ≡ holds v p
  holds-agree [] h = refl
  holds-agree (rs ∷ p) h = holds_any-agree (rs ∷ p) h

-- On pointers of the list, the word of a valuation gives its meaning back.
pub holds-word_of :
    (v : Ref → Bool) (xs : List Ref) (p : Predicate)
    → EachOf (λ r. In r xs) p
    → holds (val_of xs (word_of v xs)) p ≡ holds v p
holds-word_of v xs p h = holds-agree v (val_of xs (word_of v xs)) xs (val_of-word_of v xs) p h

-- With no simple predicates at all, a predicate holds.
pub holds_closed : (v : Ref → Bool) (p : Predicate) → EachOf (λ r. In r []) p → holds v p ≡ true
holds_closed v [] h = refl
holds_closed v ([] ∷ p) h = refl
holds_closed v ((r ∷ rs) ∷ p) h = elim h.0.0 [ ]

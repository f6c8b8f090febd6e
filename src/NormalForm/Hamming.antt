-- ===== src/NormalForm/Hamming.antt =====
-- `computeHammingDistance` counts the configurations on which two predicates differ.
use minerule.Prelude.{
  ℕ, zero, suc, ◌+◌, ◌^◌, ◌<◌, ◌≡◌, refl, Bool, true, false, ◌&&◌, List, [], ◌∷◌, arith, length,
  some, ◌∙◌, keep, inl, inr, ap, map, ◌==◌, ltb,
}
use minerule.VarSet as V
use minerule.VarSet.Enumerate.{config, words, visited}
use minerule.NormalForm.{EncodedNf, Iterator, read_next, hamming_loop, count_rest, hamming_distance}
use minerule.NormalForm.Encode.{Encodes}
use minerule.NormalForm.Reading.{Yields, Encodes-Yields}
use minerule.NormalForm.Merge.{hamming_words, hamming_words-length, differs}
use minerule.NormalForm.Relation.{
  eq-config, lt-config, gt-config, ℕ_cases, words-Fits, length-words,
}

-- One round of the loop.
module _ (fuel edt : ℕ) (it1 it2 : Iterator) (ok1 : it1.itok ≡ true) (ok2 : it2.itok ≡ true) where
  hamming_loop-same :
      (it1' it2' : Iterator)
      → V.eq it1.current it2.current ≡ some true
      → read_next it1 ≡ some it1'
      → read_next it2 ≡ some it2'
      → hamming_loop (suc fuel) edt it1 it2 ≡ hamming_loop fuel edt it1' it2'
  unfolding hamming_loop
  hamming_loop-same it1' it2' e n1 n2 = ground arith

  hamming_loop-less :
      (it1' : Iterator)
      → V.eq it1.current it2.current ≡ some false
      → V.lt it1.current it2.current ≡ some true
      → read_next it1 ≡ some it1'
      → hamming_loop (suc fuel) edt it1 it2 ≡ hamming_loop fuel (edt + 1) it1' it2
  unfolding hamming_loop
  hamming_loop-less it1' e l n1 = ground arith

  hamming_loop-greater :
      (it2' : Iterator)
      → V.eq it1.current it2.current ≡ some false
      → V.lt it1.current it2.current ≡ some false
      → V.gt it1.current it2.current ≡ some true
      → read_next it2 ≡ some it2'
      → hamming_loop (suc fuel) edt it1 it2 ≡ hamming_loop fuel (edt + 1) it1 it2'
  unfolding hamming_loop
  hamming_loop-greater it2' e l g n2 = ground arith

module _ (x y : ℕ) (xs ys : List ℕ) where
  hamming_words-eq : x ≡ y → hamming_words (x ∷ xs) (y ∷ ys) ≡ hamming_words xs ys
  unfolding hamming_words
  hamming_words-eq h = ground arith

  hamming_words-lt : x < y → hamming_words (x ∷ xs) (y ∷ ys) ≡ suc (hamming_words xs (y ∷ ys))
  unfolding hamming_words
  hamming_words-lt h = ground arith

  hamming_words-gt : y < x → hamming_words (x ∷ xs) (y ∷ ys) ≡ suc (hamming_words (x ∷ xs) ys)
  unfolding hamming_words
  hamming_words-gt h = ground arith

hamming_words-nil : (ys : List ℕ) → hamming_words [] ys ≡ length ys
unfolding hamming_words
hamming_words-nil [] = refl
hamming_words-nil (y ∷ ys) = refl

module _ (n : ℕ) where
  count_rest-length :
      (fuel edt : ℕ) (xs : List ℕ) (it : Iterator)
      → length xs < fuel
      → Yields it (map (config n) xs)
      → count_rest fuel edt it ≡ some (edt + length xs)
  unfolding count_rest
  count_rest-length zero edt xs it h y = absurd (omega arith)
  count_rest-length (suc fuel) edt [] it h y = ground arith
  count_rest-length (suc fuel) edt (x ∷ xs) it h y =
      let (ok, c, (it', next, y')) = y in
      ground (arith, next, count_rest-length fuel (edt + 1) xs it' (omega arith) y')

  hamming_loop-end :
      (fuel edt a b : ℕ) (it1 it2 : Iterator)
      → it1.itok && it2.itok ≡ false
      → count_rest (suc fuel) edt it1 ≡ some (edt + a)
      → count_rest (suc fuel) (edt + a) it2 ≡ some (edt + a + b)
      → hamming_loop (suc fuel) edt it1 it2 ≡ some (edt + (a + b))
  unfolding hamming_loop
  hamming_loop-end fuel edt a b it1 it2 done c1 c2 = ground arith

  hamming_loop-words :
      (fuel edt : ℕ) (xs ys : List ℕ) (it1 it2 : Iterator)
      → length xs + length ys < fuel
      → Yields it1 (map (config n) xs)
      → Yields it2 (map (config n) ys)
      → hamming_loop fuel edt it1 it2 ≡ some (edt + hamming_words xs ys)
  hamming_loop-words zero edt xs ys it1 it2 h y1 y2 = absurd (omega arith)
  hamming_loop-words (suc fuel) edt [] ys it1 it2 h y1 y2 =
      hamming_loop-end fuel edt 0 (length ys) it1 it2 (ground (arith, y1))
        (count_rest-length (suc fuel) edt [] it1 (omega arith) y1)
        (count_rest-length (suc fuel) (edt + 0) ys it2 (omega arith) y2)
      ∙ ap some (omega (arith, hamming_words-nil ys))
  hamming_loop-words (suc fuel) edt (x ∷ xs) [] it1 it2 h y1 y2 =
      hamming_loop-end fuel edt (suc (length xs)) 0 it1 it2 (ground (arith, y2))
        (count_rest-length (suc fuel) edt (x ∷ xs) it1 (omega arith) y1)
        (count_rest-length (suc fuel) (edt + suc (length xs)) [] it2 (omega arith) y2)
      ∙ ap some (unfold hamming_words in omega arith)
  hamming_loop-words (suc fuel) edt (x ∷ xs) (y ∷ ys) it1 it2 h z1 z2 =
      let (ok1, c1, (it1', n1, y1)) = z1 in
      let (ok2, c2, (it2', n2, y2)) = z2 in
      let same : V.eq it1.current it2.current ≡ some (x == y) = rw (c1, c2) (eq-config n x y) in
      let less : V.lt it1.current it2.current ≡ some (ltb x y) = rw (c1, c2) (lt-config n x y) in
      let greater : V.gt it1.current it2.current ≡ some (ltb y x) = rw (c1, c2) (gt-config n x y) in
      elim (ℕ_cases x y) [
        | inl e ↦
            hamming_loop-same fuel edt it1 it2 ok1 ok2 it1' it2' (ground arith) n1 n2
            ∙ hamming_loop-words fuel edt xs ys it1' it2' (omega arith) y1 y2
            ∙ ap some (omega (arith, hamming_words-eq x y xs ys e))
        | inr (inl l) ↦
            hamming_loop-less fuel edt it1 it2 ok1 ok2 it1' (ground arith) (ground arith) n1
            ∙ hamming_loop-words fuel (edt + 1) xs (y ∷ ys) it1' it2 (omega arith) y1 z2
            ∙ ap some (omega (arith, hamming_words-lt x y xs ys l))
        | inr (inr g) ↦
            hamming_loop-greater fuel edt it1 it2 ok1 ok2 it2' (ground arith) (ground arith)
              (ground arith) n2
            ∙ hamming_loop-words fuel (edt + 1) (x ∷ xs) ys it1 it2' (omega arith) z1 y2
            ∙ ap some (omega (arith, hamming_words-gt x y xs ys g))
      ]

-- On codes of two predicates over the same variables, at most 31, and with more fuel than twice the
-- number of configurations, computeHammingDistance is the number of configurations on which the two
-- predicates give different answers.
pub hamming_distance-differs :
    (n fuel : ℕ) (p q : ℕ → Bool) (nf1 nf2 : EncodedNf)
    → n < 32
    → 2 ^ n + 2 ^ n < fuel
    → Encodes n (keep p (words n)) nf1
    → Encodes n (keep q (words n)) nf2
    → hamming_distance fuel nf1 nf2 ≡ some (length (keep (differs p q) (words n)))
unfolding hamming_distance
hamming_distance-differs n fuel p q nf1 nf2 small enough enc1 enc2 =
    let (it1, it1', b1, n1, y1) =
      Encodes-Yields n (keep p (words n)) nf1 small (words-Fits n p) enc1 in
    let (it2, it2', b2, n2, y2) =
      Encodes-Yields n (keep q (words n)) nf2 small (words-Fits n q) enc2 in
    let vars : (nf1.num_vars == nf2.num_vars) ≡ true =
      ground (arith, enc1.variables, enc2.variables) in
    let loop =
      hamming_loop-words n fuel 0 (keep p (words n)) (keep q (words n)) it1' it2'
        (omega (arith, length-words n p, length-words n q)) y1 y2 in
    rw (vars, b1, b2, n1, n2)
      (loop ∙ ap some (omega (arith, hamming_words-length p q 0 (visited n))))

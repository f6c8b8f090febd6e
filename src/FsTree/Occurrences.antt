-- ===== src/FsTree/Occurrences.antt =====
-- How often a sequence occurs in another as a run of neighbours, which is what the tree counts.
use minerule.Prelude.{
  fun_ext, ℕ, zero, suc, ◌+◌, ◌<◌, ◌≤◌, ◌≡◌, refl, sym, ap, ◌∙◌, arith, Bool, true, false, ◌&&◌,
  ◌==◌, [], ◌∷◌, ◌++◌, length, ◌⊎◌, inl, inr, Bool-cases, if◌then◌else◌, indicator,
}
use minerule.FsTreeSequence.{Item, Seq, seq_less, same_key}
use minerule.FsTreeSequence.Keys.{eq_of_same_key, same_key_refl}
use minerule.FsTree.Collect.{hits, steps, steps-le, steps-cases, gain}
use minerule.FsTree.Insert.{prefix_weight}

abbrev pub starts : Seq → Seq → Bool
starts [] t = true
starts (a ∷ k) [] = false
starts (a ∷ k) (x ∷ t) = (a == x) && starts k t

abbrev pub occurrences : Seq → Seq → ℕ
occurrences k [] = 0
occurrences k (x ∷ t) = indicator (starts k (x ∷ t)) + occurrences k t

-- The nonempty prefixes of `t` that make `k` when they follow `z`.
abbrev front : Seq → Seq → Seq → ℕ
front k z [] = 0
front k z (x ∷ t) = indicator (same_key k (z ++ x ∷ [])) + front k (z ++ x ∷ []) t

pub same_key-cons : (a b : Item) (s t : Seq) → same_key (a ∷ s) (b ∷ t) ≡ (a == b) && same_key s t
unfolding same_key seq_less
same_key-cons a b s t = ground arith

same_key-nil : (a : Item) (s : Seq) → same_key [] (a ∷ s) ≡ false
unfolding same_key seq_less
same_key-nil a s = refl

pub same_key-nil_right : (a : Item) (s : Seq) → same_key (a ∷ s) [] ≡ false
unfolding same_key seq_less
same_key-nil_right a s = refl

front-nil : (z t : Seq) → front [] z t ≡ 0
front-nil z [] = refl
front-nil [] (x ∷ t) = rw (same_key-nil x []) (omega (arith, front-nil (x ∷ []) t))
front-nil (y ∷ z) (x ∷ t) =
    rw (same_key-nil y (z ++ x ∷ [])) (omega (arith, front-nil (y ∷ z ++ x ∷ []) t))

both_or_none :
    (b c : Bool) (n : ℕ)
    → indicator (b && c) + (if b then n else 0) ≡ (if b then indicator c + n else 0)
both_or_none true c n = refl
both_or_none false c n = refl

if_indicator : (b c : Bool) (n : ℕ) → n ≡ indicator c → (if b then n else 0) ≡ indicator (b && c)
if_indicator true c n h = h
if_indicator false c n h = refl

either_way : (b : Bool) (n : ℕ) → n ≡ (if b then n else n)
either_way true n = refl
either_way false n = refl

front-cons :
    (a b : Item) (k z t : Seq) → front (a ∷ k) (b ∷ z) t ≡ (if a == b then front k z t else 0)
front-cons a b k z [] = either_way (a == b) 0
front-cons a b k z (x ∷ t) =
    rw (same_key-cons a b k (z ++ x ∷ []), front-cons a b k (z ++ x ∷ []) t)
      (both_or_none (a == b) (same_key k (z ++ x ∷ [])) (front k (z ++ x ∷ []) t))

front-starts : (a : Item) (k t : Seq) → front (a ∷ k) [] t ≡ indicator (starts (a ∷ k) t)
front-starts a k [] = refl
front-starts a [] (x ∷ t) =
    let last : indicator (same_key [] []) + front [] [] t ≡ 1 =
      rw (same_key_refl [], front-nil [] t) refl in
    rw (same_key-cons a x [] [], front-cons a x [] [] t)
      (both_or_none (a == x) (same_key [] []) (front [] [] t)
        ∙ if_indicator (a == x) true (indicator (same_key [] []) + front [] [] t) last)
front-starts a (b ∷ k) (x ∷ t) =
    let later : indicator (same_key (b ∷ k) []) + front (b ∷ k) [] t
        ≡ indicator (starts (b ∷ k) t) =
      rw (same_key-nil_right b k) (omega (arith, front-starts b k t)) in
    rw (same_key-cons a x (b ∷ k) [], front-cons a x (b ∷ k) [] t)
      (both_or_none (a == x) (same_key (b ∷ k) []) (front (b ∷ k) [] t)
        ∙ if_indicator (a == x) (starts (b ∷ k) t)
            (indicator (same_key (b ∷ k) []) + front (b ∷ k) [] t) later)

-- The items of `q` in front of `s`, the first of them last.
abbrev rv : Seq → Seq → Seq
rv [] s = s
rv (x ∷ q) s = rv q (x ∷ s)

rv-append : (q s u : Seq) → rv q (s ++ u) ≡ rv q s ++ u
rv-append [] s u = refl
rv-append (x ∷ q) s u = rv-append q (x ∷ s) u

ends : Seq → Seq → Seq → ℕ
ends k s q = hits (length q) s q k

ends-append :
    (k s q : Seq) (y : Item)
    → ends k s (q ++ y ∷ []) ≡ ends k s q + indicator (same_key k (y ∷ rv q s))
unfolding ends
ends-append k s [] y = omega arith
ends-append k s (x ∷ q) y = omega (arith, ends-append k (x ∷ s) q y)

-- The weight of a path when no length bounds the rounds.
full : Seq → Seq → ℕ
unfolding ends
full k [] = 0
full k (x ∷ q) = ends k (x ∷ []) q

full-append :
    (k q : Seq) (x y : Item)
    → full k ((x ∷ q) ++ y ∷ []) ≡ full k (x ∷ q) + indicator (same_key k (y ∷ rv (x ∷ q) []))
unfolding full
full-append k q x y = ends-append k (x ∷ []) q y

prefix_weight-append :
    (k p t : Seq) (y : Item)
    → prefix_weight (full k) (p ++ y ∷ []) t ≡ prefix_weight (full k) p t + front k (y ∷ rv p []) t
prefix_weight-append k p [] y = omega arith
prefix_weight-append k p (x ∷ t) y =
    let longer : y ∷ rv (x ∷ p) [] ≡ (y ∷ rv p []) ++ x ∷ [] =
      ap (λ s. y ∷ s) (rv-append p [] (x ∷ [])) in
    let counted : indicator (same_key k (y ∷ rv (x ∷ p) [])) + front k (y ∷ rv (x ∷ p) []) t
        ≡ front k (y ∷ rv p []) (x ∷ t) =
      ap (λ s. indicator (same_key k s) + front k s t) longer in
    omega (arith, full-append k p x y, prefix_weight-append k (x ∷ p) t y, counted)

-- The paths of an inserted sequence end in `k` as often as `k` occurs in it.
prefix_weight-occurrences :
    (a b : Item) (k t : Seq) → prefix_weight (full (a ∷ b ∷ k)) [] t ≡ occurrences (a ∷ b ∷ k) t
unfolding full ends
prefix_weight-occurrences a b k [] = refl
prefix_weight-occurrences a b k (y ∷ t) =
    let l = a ∷ b ∷ k in
    let started : front l (y ∷ []) t ≡ indicator (starts l (y ∷ t)) =
      front-cons a y (b ∷ k) [] t
      ∙ if_indicator (a == y) (starts (b ∷ k) t) (front (b ∷ k) [] t) (front-starts b k t) in
    omega (arith, started, prefix_weight-append l [] t y, prefix_weight-occurrences a b k t)

same_key-longer : (k s : Seq) → length k < length s → same_key k s ≡ false
same_key-longer k s h = elim (Bool-cases (same_key k s)) [
  | inl e ↦ absurd (omega (arith, h, ap length (eq_of_same_key k s e)))
  | inr e ↦ e
]

hits-short : (c : ℕ) (s q k : Seq) → length k ≤ length s → hits c s q k ≡ 0
hits-short zero s q k h = refl
hits-short (suc c) s [] k h = refl
hits-short (suc c) s (x ∷ q) k h =
    rw (same_key-longer k (x ∷ s) (omega (arith, h)))
      (omega (arith, hits-short c (x ∷ s) q k (omega (arith, h))))

hits-enough :
    (c : ℕ) (s q k : Seq)
    → c ≤ length q
    → length k ≤ length s + c
    → hits c s q k ≡ hits (length q) s q k
hits-enough zero s q k h l = sym (hits-short (length q) s q k (omega (arith, l)))
hits-enough (suc c) s [] k h l = ground arith
hits-enough (suc c) s (x ∷ q) k h l =
    omega (arith, hits-enough c (x ∷ s) q k (omega (arith, h)) (omega (arith, l)))

-- The bound on the length of the results.
abbrev pub Fits : ℕ → Seq → Type 0
Fits max_length k = (max_length ≡ 0) ⊎ (length k ≤ max_length)

gain-full : (max_length : ℕ) (k p : Seq) → Fits max_length k → gain max_length k p ≡ full k p
unfolding full ends
gain-full max_length k [] h = refl
gain-full max_length k (x ∷ q) h = elim (steps-cases max_length (length q)) [
  | inl e ↦ ap (λ c. hits c (x ∷ []) q k) e
  | inr (ne, l) ↦
      hits-enough (steps max_length (length q)) (x ∷ []) q k (steps-le max_length (length q))
        (elim h [ inl z ↦ absurd (ne z) | inr m ↦ omega (arith, m, l) ])
]

pub prefix_weight-gain :
    (max_length : ℕ) (a b : Item) (k t : Seq)
    → Fits max_length (a ∷ b ∷ k)
    → prefix_weight (gain max_length (a ∷ b ∷ k)) [] t ≡ occurrences (a ∷ b ∷ k) t
prefix_weight-gain max_length a b k t h =
    let l = a ∷ b ∷ k in
    ap (λ f. prefix_weight f [] t) (fun_ext (λ p. gain-full max_length l p h))
    ∙ prefix_weight-occurrences a b k t

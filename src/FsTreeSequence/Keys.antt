-- ===== src/FsTreeSequence/Keys.antt =====
-- Keys that a map takes for the same are the same, and what a map holds after an assignment.
use minerule.Prelude.{
  ℕ, ◌≡◌, refl, sym, ap, ◌∙◌, arith, true, false, [], ◌∷◌, ◌⊎◌, inl, inr, Bool-cases,
}
use mathlib.Core.Path.{subst}
use minerule.FsTreeSequence.{Seq, seq_less, same_key, SeqMap, value, put}

pub seq_less_irrefl : (s : Seq) → seq_less s s ≡ false
unfolding seq_less
seq_less_irrefl [] = refl
seq_less_irrefl (a ∷ s) = ground (arith, seq_less_irrefl s)

pub same_key_refl : (s : Seq) → same_key s s ≡ true
unfolding same_key
same_key_refl s = rw (seq_less_irrefl s) refl

pub eq_of_same_key : (s t : Seq) → same_key s t ≡ true → s ≡ t
unfolding same_key seq_less
eq_of_same_key [] [] h = refl
eq_of_same_key [] (b ∷ t) h = cc
eq_of_same_key (a ∷ s) [] h = cc
eq_of_same_key (a ∷ s) (b ∷ t) h = ground (arith, eq_of_same_key s t)

pub value-put_same {ℓ} :
    {V : Type ℓ} (none_yet : V) (k : Seq) (v : V) (m : SeqMap V) → value none_yet k (put k v m) ≡ v
unfolding value put
value-put_same none_yet k v [] = rw (same_key_refl k, value) refl
value-put_same none_yet k v ((a, w) ∷ m) =
    ground (arith, value-put_same none_yet k v m, same_key_refl k)

pub value-put_other {ℓ} :
    {V : Type ℓ} (none_yet : V) (k l : Seq) (v : V) (m : SeqMap V)
    → same_key l k ≡ false
    → value none_yet l (put k v m) ≡ value none_yet l m
unfolding value put
value-put_other none_yet k l v [] h = rw (h, value) refl
value-put_other none_yet k l v ((a, w) ∷ m) h =
    step (Bool-cases (same_key k a)) (value-put_other none_yet k l v m h)
  where
    step :
        (same_key k a ≡ true) ⊎ (same_key k a ≡ false)
        → value none_yet l (put k v m) ≡ value none_yet l m
        → value none_yet l (put k v ((a, w) ∷ m)) ≡ value none_yet l ((a, w) ∷ m)
    step (inl e) later =
        let h' = subst (λ b. same_key l b ≡ false) (eq_of_same_key k a e) h in
        rw (e, put) (rw (h', value) refl)
    step (inr e) later = rw (e, put) (ap (λ r. elim (same_key l a) [ true ↦ w | false ↦ r ]) later)

pub same_key-swap : (s t : Seq) → same_key s t ≡ false → same_key t s ≡ false
same_key-swap s t h = elim (Bool-cases (same_key t s)) [
  | inr e ↦ e
  | inl e ↦
      let same : same_key t t ≡ same_key s t = ap (λ r. same_key r t) (eq_of_same_key t s e) in
      absurd (true-ne-false (sym (same_key_refl t) ∙ same ∙ h))
]
  where
    true-ne-false : true ≡ false → ⊥
    true-ne-false q = cc

module _ {ℓ} {V : Type ℓ} (k a : Seq) (w : V) (m : SeqMap V) where
  pub put_here : (v : V) → same_key k a ≡ true → put k v ((a, w) ∷ m) ≡ (a, v) ∷ m
  unfolding put
  put_here v e = rw (e, put) refl

  pub put_later : (v : V) → same_key k a ≡ false → put k v ((a, w) ∷ m) ≡ (a, w) ∷ put k v m
  unfolding put
  put_later v e = rw (e, put) refl

  pub value_here : (d : V) → same_key k a ≡ true → value d k ((a, w) ∷ m) ≡ w
  unfolding value
  value_here d e = rw (e, value) refl

  pub value_later : (d : V) → same_key k a ≡ false → value d k ((a, w) ∷ m) ≡ value d k m
  unfolding value
  value_later d e = rw (e, value) refl

-- No entry of the map has the key.
abbrev pub Absent : Seq → SeqMap ℕ → Type 0
Absent k [] = Unit {0}
Absent k ((a, v) ∷ m) = (same_key k a ≡ false) × Absent k m

-- No two entries have the same key.
abbrev pub Distinct : SeqMap ℕ → Type 0
Distinct [] = Unit {0}
Distinct ((a, v) ∷ m) = Absent a m × Distinct m

pub value-Absent : (k : Seq) (m : SeqMap ℕ) → Absent k m → value 0 k m ≡ 0
unfolding value
value-Absent k [] h = refl
value-Absent k ((a, v) ∷ m) (h, rest) = rw (h, value) (value-Absent k m rest)

Absent-put :
    (k l : Seq) (v : ℕ) (m : SeqMap ℕ) → same_key l k ≡ false → Absent l m → Absent l (put k v m)
unfolding put
Absent-put k l v [] h a = (h, tt)
Absent-put k l v ((b, w) ∷ m) h (a, rest) = elim (Bool-cases (same_key k b)) [
  | inl e ↦ subst (Absent l) (sym (put_here k b w m v e)) (a, rest)
  | inr e ↦ subst (Absent l) (sym (put_later k b w m v e)) (a, Absent-put k l v m h rest)
]

pub Distinct-put : (k : Seq) (v : ℕ) (m : SeqMap ℕ) → Distinct m → Distinct (put k v m)
unfolding put
Distinct-put k v [] h = (tt, tt)
Distinct-put k v ((b, w) ∷ m) (a, rest) = elim (Bool-cases (same_key k b)) [
  | inl e ↦ subst Distinct (sym (put_here k b w m v e)) (a, rest)
  | inr e ↦
      subst Distinct (sym (put_later k b w m v e))
        (Absent-put k b v m (same_key-swap k b e) a, Distinct-put k v m rest)
]

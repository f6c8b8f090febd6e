-- ===== src/NormalForm/Encode/Loop.antt =====
-- The loop of `encode` over the enumerated configurations.
use minerule.Prelude.{
  ℕ, zero, suc, ◌+◌, ◌*◌, ◌^◌, ◌<◌, ◌≤◌, ◌≡◌, refl, Bool, true, false, List, [], ◌∷◌, arith, length,
  none, some, Option, ◌∙◌, sym, ◌>>=◌, map, keep, upto, Bool-cases, inl, inr, Option-cases, dec_lt,
  some_inj, none-ne-some, ap, fun_ext,
}
use minerule.Bits.{bit}
use minerule.VarSet.{VarSet, Enumerator, visits, next}
use minerule.VarSet.Enumerate.{config}
use minerule.NormalForm.{Writer, selected, encode_set, encode_loop, write_set}
use minerule.NormalForm.Stream.{bit_at, Stores}
use minerule.NormalForm.Writing.{position, capacity, Extends, write_set-Extends, write_set-none}

-- `b'` continues `b` by the words `ws`, of `n` digits each.
pub record Appends (n : ℕ) (b : Writer) (ws : List ℕ) (b' : Writer) : Type 0 where
  pub advanced : position b' ≡ position b + length ws * n
  pub in_cell : b'.elem_counter < 32
  pub same_size : length b'.cells ≡ length b.cells
  pub before : (q : ℕ) → q < position b → bit_at b'.cells q ≡ bit_at b.cells q
  pub stored : Stores n b'.cells (position b) ws

Appends-nil : (n : ℕ) (b : Writer) → b.elem_counter < 32 → Appends n b [] b
Appends-nil n b h = record {
  advanced = omega arith;
  in_cell = h;
  same_size = refl;
  before = λ q hq. refl;
  stored = tt;
}

Appends-cons :
    (n x : ℕ) (ws : List ℕ) (b b1 b2 : Writer)
    → Extends b n (λ k. bit x (0 + k)) b1
    → Appends n b1 ws b2
    → Appends n b (x ∷ ws) b2
Appends-cons n x ws b b1 b2 e a = record {
  advanced = omega (arith, e.advanced, a.advanced);
  in_cell = a.in_cell;
  same_size = a.same_size ∙ e.same_size;
  before = λ q hq. a.before q (omega (arith, e.advanced)) ∙ e.before q hq;
  stored = (
    λ k hk. a.before (position b + k) (omega (arith, e.advanced)) ∙ e.after k hk ∙ digit k,
    rw e.advanced at a.stored,
  );
}
  where
    digit : (k : ℕ) → bit x (0 + k) ≡ bit x k
    digit k = let same : 0 + k ≡ k = omega arith in rw same refl

module _ (evaluate filter : VarSet → Option Bool) where
  -- The loop over the list of what is visited.
  pub encode_list : List VarSet → Writer → Option Writer
  encode_list [] b = some b
  encode_list (v ∷ vs) b = encode_set evaluate filter v b >>= encode_list vs

  pub encode_loop-visits :
      (fuel : ℕ) (e : Enumerator) (vs : List VarSet) (b : Writer)
      → visits fuel e ≡ some vs
      → encode_loop evaluate filter fuel e b ≡ encode_list vs b
  unfolding visits encode_loop encode_list
  encode_loop-visits zero e vs b h = ground arith
  encode_loop-visits (suc fuel) e vs b h = elim (Bool-cases (next e).1) [
    | inl more ↦ elim (Option-cases (visits fuel (next e).0)) [
      | inl stuck ↦ absurd (none-ne-some vs (rw (more, visits, stuck) at h))
      | inr (rest, r) ↦
          let seen : vs ≡ (next e).0.varset ∷ rest = sym (some_inj (rw (more, visits, r) at h)) in
          rw (seen, more, encode_loop)
            (ap (λ k. encode_set evaluate filter (next e).0.varset b >>= k)
              (fun_ext (λ b1. encode_loop-visits fuel (next e).0 rest b1 r)))
    ]
    | inr done ↦
        let seen : vs ≡ [] = sym (some_inj (rw (done, visits) at h)) in
        rw (seen, done, encode_loop) refl
  ]

  encode_set-chosen :
      (v : VarSet) (b : Writer)
      → selected evaluate filter v ≡ some true
      → encode_set evaluate filter v b ≡ write_set v 0 v.vset_size b
  unfolding encode_set
  encode_set-chosen v b h = rw h

  encode_set-passed :
      (v : VarSet) (b : Writer)
      → selected evaluate filter v ≡ some false
      → encode_set evaluate filter v b ≡ some b
  unfolding encode_set
  encode_set-passed v b h = rw h

module _ (evaluate filter : VarSet → Option Bool) (n : ℕ) (sel : ℕ → Bool)
    (selects : (c : ℕ) → c < 2 ^ n → selected evaluate filter (config n c) ≡ some (sel c)) where
  taken :
      (c : ℕ) (b : Writer)
      → c < 2 ^ n
      → sel c ≡ true
      → encode_set evaluate filter (config n c) b ≡ write_set (config n c) 0 n b
  taken c b hc h = encode_set-chosen evaluate filter (config n c) b (selects c hc ∙ ap some h)

  skipped :
      (c : ℕ) (b : Writer)
      → c < 2 ^ n
      → sel c ≡ false
      → encode_set evaluate filter (config n c) b ≡ some b
  skipped c b hc h = encode_set-passed evaluate filter (config n c) b (selects c hc ∙ ap some h)

  -- The loop appends the words of the selected configurations, if they fit.
  pub encode_list-Appends :
      (first count : ℕ) (b : Writer)
      → b.elem_counter < 32
      → first + count ≤ 2 ^ n
      → position b + length (keep sel (upto first count)) * n ≤ capacity b
      → (b' : Writer) × (encode_list evaluate filter (map (config n) (upto first count)) b
          ≡ some b')
        × Appends n b (keep sel (upto first count)) b'
  unfolding encode_list
  encode_list-Appends first zero b he hf hc = (b, refl, Appends-nil n b he)
  encode_list-Appends first (suc count) b he hf hc = elim (Bool-cases (sel first)) [
    | inl chosen ↦
        let fits = rw chosen at hc in
        let (b1, e1, x1) =
          write_set-Extends (config n first) 0 n b he (omega arith) (omega (arith, fits)) in
        let (b2, e2, x2) =
          encode_list-Appends (suc first) count b1 x1.in_cell (omega arith)
            (omega (arith, fits, x1.advanced, x1.same_size)) in
        rw chosen (
          (
            b2,
            rw (taken first b (omega arith) chosen, e1) e2,
            Appends-cons n first (keep sel (upto (suc first) count)) b b1 b2 x1 x2,
          ))
    | inr passed ↦
        let fits = rw passed at hc in
        let (b1, e1, x1) = encode_list-Appends (suc first) count b he (omega arith) fits in
        rw passed ((b1, rw (skipped first b (omega arith) passed) e1, x1))
  ]

  -- If they do not fit, the loop writes outside the block.
  pub encode_list-none :
      (first count : ℕ) (b : Writer)
      → b.elem_counter < 32
      → first + count ≤ 2 ^ n
      → position b ≤ capacity b
      → capacity b < position b + length (keep sel (upto first count)) * n
      → encode_list evaluate filter (map (config n) (upto first count)) b ≡ none
  unfolding encode_list
  encode_list-none first zero b he hf hp hc = absurd (omega arith)
  encode_list-none first (suc count) b he hf hp hc = elim (Bool-cases (sel first)) [
    | inl chosen ↦
        let over = rw chosen at hc in
        let entry = taken first b (omega arith) chosen in
        elim (dec_lt (capacity b) (position b + n)) [
          | yes full ↦ rw (entry, write_set-none (config n first) 0 n b he (omega arith) hp full)
          | no room ↦
              let (b1, e1, x1) =
                write_set-Extends (config n first) 0 n b he (omega arith) (omega arith) in
              rw (entry, e1)
                (encode_list-none (suc first) count b1 x1.in_cell (omega arith)
                  (omega (arith, x1.advanced, x1.same_size))
                  (omega (arith, over, x1.advanced, x1.same_size)))
        ]
    | inr passed ↦
        rw (skipped first b (omega arith) passed)
          (encode_list-none (suc first) count b he (omega arith) hp (rw passed at hc))
  ]

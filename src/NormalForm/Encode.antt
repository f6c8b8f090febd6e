-- ===== src/NormalForm/Encode.antt =====
-- What `encode` leaves in memory: the words of the selected configurations, or a fault if they do
-- not fit into the block that it allocates.
pub mod Loop
pub mod Capacity
use minerule.Prelude.{
  ℕ, zero, suc, ◌+◌, ◌-◌, ◌*◌, ◌/◌, ◌%◌, ◌^◌, ◌<◌, ◌≤◌, ◌≡◌, refl, Bool, true, false, ◌==◌,
  if◌then◌else◌, List, [], ◌∷◌, arith, length, none, some, Option, ◌∙◌, sym, ◌>>=◌, map, keep, upto,
  ◌≢◌, length-replicate, replicate, length-keep-le, length-upto, not, ltb, lt→ltb, two_pow_pos, ap,
}
use native.Mathlib.Nat.{le_trans}
use minerule.VarSet.{VarSet, Enumerator, enumerator}
use minerule.VarSet.Enumerate.{config, configs, start, words, visited, visited-le, visits-configs}
use minerule.NormalForm.{Writer, EncodedNf, selected, encode, encode_loop, num_cells, resize}
use minerule.NormalForm.Stream.{Stores, Stores-agree, bit_at, bit_at-resize, length-resize}
use minerule.NormalForm.Writing.{position, capacity}
use Loop.{Appends, encode_list, encode_loop-visits, encode_list-Appends, encode_list-none}
use Capacity.{num_cells_room, num_cells_four}

-- `nf` is a code of the words `ws` of `n` digits.
pub record Encodes (n : ℕ) (ws : List ℕ) (nf : EncodedNf) : Type 0 where
  pub variables : nf.num_vars ≡ n
  pub sized : nf.vec_size ≡ length nf.enc_vector
  pub coded : nf.coding_len ≡ length ws * n
  pub inside : length ws * n ≤ 32 * length nf.enc_vector
  pub stored : Stores n nf.enc_vector 0 ws

abbrev blank : ℕ → Writer
blank n = record { cells = replicate (num_cells n) 0; cell_counter = 0; elem_counter = 0 }

blank-capacity : (n : ℕ) → capacity (blank n) ≡ 32 * num_cells n
blank-capacity n = omega (arith, length-replicate {A = ℕ} (num_cells n) 0)

packed : (ℕ → ℕ) → ℕ → Writer → EncodedNf
packed uninit n b = record {
  enc_vector = resize uninit (b.cell_counter + 1) b.cells;
  num_vars = n;
  vec_size = b.cell_counter + 1;
  coding_len = b.cell_counter * 32 + b.elem_counter;
}

packed-Encodes :
    (uninit : ℕ → ℕ) (n : ℕ) (b b' : Writer) (ws : List ℕ)
    → position b ≡ 0
    → length ws * n ≤ capacity b
    → Appends n b ws b'
    → Encodes n ws (packed uninit n b')
unfolding packed
packed-Encodes uninit n b b' ws start fits a = record {
  variables = refl;
  sized = sym size;
  coded = omega (arith, a.advanced);
  inside = omega (arith, size, a.advanced, a.in_cell);
  stored =
      Stores-agree n b'.cells _ (length ws * n) 0 ws
        (λ q hq.
          bit_at-resize uninit (b'.cell_counter + 1) b'.cells q
            (omega (arith, a.advanced, a.in_cell)) (omega (arith, a.same_size)))
        (omega arith) (rw start at a.stored);
}
  where
    size : length (resize uninit (b'.cell_counter + 1) b'.cells) ≡ b'.cell_counter + 1
    size = length-resize uninit (b'.cell_counter + 1) b'.cells

module _ (evaluate filter : VarSet → Option Bool) (uninit : ℕ → ℕ) (n fuel : ℕ) (small : n < 31)
    (enough : 2 ^ n < fuel) where
  looped :
      (b : Writer)
      → encode_loop evaluate filter fuel (start n) b
        ≡ encode_list evaluate filter (map (config n) (words n)) b
  looped b =
      encode_loop-visits evaluate filter fuel (start n) (map (config n) (words n)) b
        (visits-configs n fuel (omega arith) enough).1

  entered : encode evaluate filter uninit fuel n ≡ (
      encode_list evaluate filter (map (config n) (words n)) (blank n) >>= λ b.
      some (packed uninit n b))
  unfolding encode packed
  entered =
      let built = (visits-configs n fuel (omega arith) enough).0 in
      let allowed : ltb 31 n ≡ false = ground arith in rw (built, allowed, looped (blank n))

module _ (evaluate filter : VarSet → Option Bool) (uninit : ℕ → ℕ) (n fuel : ℕ) (small : n < 31)
    (enough : 2 ^ n < fuel) (sel : ℕ → Bool)
    (selects : (c : ℕ) → c < 2 ^ n → selected evaluate filter (config n c) ≡ some (sel c)) where
  -- With at most 30 variables, enough fuel and room for the selected configurations, `encode`
  -- returns a code of exactly the selected words, in rising order.
  pub encode-Encodes :
      length (keep sel (words n)) * n ≤ 32 * num_cells n
      → (nf : EncodedNf) × (encode evaluate filter uninit fuel n ≡ some nf)
        × Encodes n (keep sel (words n)) nf
  encode-Encodes fits =
      let room = blank-capacity n in
      let (b, e, a) =
        encode_list-Appends evaluate filter n sel selects 0 (visited n) (blank n) (omega arith)
          (omega (arith, visited-le n)) (omega (arith, room)) in
      (
        packed uninit n b,
        rw (entered evaluate filter uninit n fuel small enough, e) refl,
        packed-Encodes uninit n (blank n) b (keep sel (words n)) (omega arith) (omega (arith, room))
            a,
      )

  -- If the digits of the selected configurations are more than the block of num_cells cells holds,
  -- encode writes outside the block.
  pub encode_overflow :
      32 * num_cells n < length (keep sel (words n)) * n
      → encode evaluate filter uninit fuel n ≡ none
  encode_overflow over =
      let room = blank-capacity n in
      rw
        (
          entered evaluate filter uninit n fuel small enough,
          encode_list-none evaluate filter n sel selects 0 (visited n) (blank n) (omega arith)
              (omega (arith, visited-le n)) (omega arith) (omega (arith, room)),
        )
        refl

  length-keep-words : length (keep sel (words n)) * n ≤ 2 ^ n * n
  length-keep-words =
      let some_words = length-keep-le sel (words n) in
      let all_words = length-upto 0 (visited n) in
      let fits : length (keep sel (words n)) ≤ 2 ^ n = omega (arith, visited-le n) in grind arith

  -- With at most 30 variables, not four, and more fuel than configurations, encode returns a code
  -- of exactly the selected configurations, in rising order.
  pub encode_total :
      n ≢ 4
      → (nf : EncodedNf) × (encode evaluate filter uninit fuel n ≡ some nf)
        × Encodes n (keep sel (words n)) nf
  encode_total four = encode-Encodes (le_trans length-keep-words (num_cells_room n small four))

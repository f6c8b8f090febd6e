-- ===== src/NormalForm/Reading.antt =====
-- The iterator over a code gives back the words that the code was made of.
use minerule.Prelude.{
  ℕ, zero, suc, ◌+◌, ◌*◌, ◌/◌, ◌%◌, ◌^◌, ◌<◌, ◌≤◌, ◌≡◌, refl, true, false, ◌==◌, if◌then◌else◌,
  List, [], ◌∷◌, arith, length, some, ◌∙◌, map, not, leb, lt→ltb, two_pow_pos, get_or, bit_and,
}
use minerule.Bits.{bit, bit_and-one_shl, bit_ext}
use minerule.VarSet.{VarSet, make, set_var}
use minerule.VarSet.Digits.{IsValid, set_var-Written}
use minerule.VarSet.Enumerate.{config}
use minerule.NormalForm.{EncodedNf, Iterator, iterator, read_set, read_next}
use minerule.NormalForm.Stream.{Stores, bit_at, get_elem?-get_or}
use minerule.NormalForm.Encode.{Encodes}

-- Repeated `it++` stands on each of `vs` in turn, and then fails.
abbrev pub Yields : Iterator → List VarSet → Type 0
Yields it [] = it.itok ≡ false
Yields it (v ∷ vs) =
    (it.itok ≡ true)
    × (it.current ≡ v)
    × ((it' : Iterator) × (read_next it ≡ some it') × Yields it' vs)

-- Words of `n` digits, at least one.
abbrev pub Fits : ℕ → List ℕ → Type 0
Fits n [] = Unit {0}
Fits n (x ∷ ws) = (0 < n) × (x < 2 ^ n) × Fits n ws

abbrev place : Iterator → ℕ
place it = it.cell_counter * 32 + it.elem_counter

digit_test : (cell k : ℕ) → not (bit_and cell (2 ^ k) == 0) ≡ bit cell k
digit_test cell k = ground (arith, bit_and-one_shl cell k, two_pow_pos k)

-- The state while the word `x`, which stands at `p`, is read, with its first `i` digits in place.
record Within (nf : EncodedNf) (n x p i : ℕ) (it : Iterator) : Type 0 where
  target : it.target ≡ nf
  valid : IsValid it.current
  size : it.current.vset_size ≡ n
  ok : it.itok ≡ true
  in_cell : it.elem_counter < 32
  at : place it ≡ p + i
  digits : (k : ℕ) → k < i → bit it.current.vset k ≡ bit x k

-- The word is inside the code.
record Stands (nf : EncodedNf) (n x p : ℕ) : Type 0 where
  inside : p + n ≤ 32 * length nf.enc_vector
  word : (k : ℕ) → k < n → bit_at nf.enc_vector (p + k) ≡ bit x k

moved : Iterator → VarSet → Iterator
moved it v =
    if leb 32 (it.elem_counter + 1)
    then record it { current = v; cell_counter = it.cell_counter + 1; elem_counter = 0 }
    else record it { current = v; elem_counter = it.elem_counter + 1 }

moved-lem :
    (it : Iterator) (v : VarSet)
    → it.elem_counter < 32
    → (place (moved it v) ≡ place it + 1)
      × ((moved it v).elem_counter < 32)
      × ((moved it v).current ≡ v)
      × ((moved it v).target ≡ it.target)
      × ((moved it v).itok ≡ it.itok)
unfolding moved
moved-lem it v h = ground arith

module _ (nf : EncodedNf) (n x p : ℕ) (stands : Stands nf n x p) where
  digit_here :
      (i : ℕ) (it : Iterator)
      → i < n
      → Within nf n x p i it
      → bit (get_or nf.enc_vector it.cell_counter 0) it.elem_counter ≡ bit x i
  unfolding bit_at
  digit_here i it hi w =
      let cell : (p + i) / 32 ≡ it.cell_counter = omega (arith, w.at, w.in_cell) in
      let elem : (p + i) % 32 ≡ it.elem_counter = omega (arith, w.at, w.in_cell) in
      rw (cell, elem) at (stands.word i hi)

  read_set-suc :
      (i left : ℕ) (it : Iterator) (v : VarSet)
      → i < n
      → Within nf n x p i it
      → set_var it.current i (bit x i) ≡ some v
      → read_set i (suc left) it ≡ read_set (i + 1) left (moved it v)
  unfolding read_set moved
  read_set-suc i left it v hi w e =
      let here = digit_test (get_or nf.enc_vector it.cell_counter 0) it.elem_counter in
      rw
        (
          w.target,
          get_elem?-get_or nf.enc_vector it.cell_counter (omega (arith, stands.inside, w.at)),
          here ∙ digit_here i it hi w,
          e,
        )
        refl

  read_step :
      (i left : ℕ) (it : Iterator)
      → i < n
      → Within nf n x p i it
      → (it' : Iterator) × (read_set i (suc left) it ≡ read_set (i + 1) left it')
        × Within nf n x p (i + 1) it'
  read_step i left it hi w =
      let (v, s) = set_var-Written it.current i (bit x i) w.valid (omega (arith, w.size)) in
      let (at', in_cell', current', target', ok') = moved-lem it v w.in_cell in
      (
        moved it v,
        read_set-suc i left it v hi w s.written,
        record {
          target = target' ∙ w.target;
          valid = rw current' s.valid;
          size = rw current' (s.size ∙ w.size);
          ok = ok' ∙ w.ok;
          in_cell = in_cell';
          at = omega (arith, at', w.at);
          digits =
              λ k hk. rw current' (ground (arith, s.digits k (omega (arith, w.size)), w.digits k));
        },
      )

  read_set-Within :
      (i left : ℕ) (it : Iterator)
      → i + left ≡ n
      → Within nf n x p i it
      → (it' : Iterator) × (read_set i left it ≡ some it') × Within nf n x p n it'
  unfolding read_set
  read_set-Within i zero it h w = (it, refl, let all : i ≡ n = omega arith in rw all at w)
  read_set-Within i (suc left) it h w =
      let (it1, e1, w1) = read_step i left it (omega arith) w in
      let (it2, e2, w2) = read_set-Within (i + 1) left it1 (omega arith) w1 in (it2, e1 ∙ e2, w2)

  -- All its digits read, the word is the current set.
  read_word : (it : Iterator) → x < 2 ^ n → Within nf n x p n it → it.current ≡ config n x
  read_word it hx w =
      let same =
        bit_ext n it.current.vset x (rw w.size at w.valid.within) hx (λ k hk. w.digits k hk) in
      λ i. record { vset = same i; vset_size = w.size i }

-- Between two words, with the digits up to `p` read.
record Between (nf : EncodedNf) (n p : ℕ) (it : Iterator) : Type 0 where
  target : it.target ≡ nf
  valid : IsValid it.current
  size : it.current.vset_size ≡ n
  in_cell : it.elem_counter < 32
  at : place it ≡ p

module _ (nf : EncodedNf) (n : ℕ) (vars : nf.num_vars ≡ n) where
  read_next-end :
      (p : ℕ) (it : Iterator)
      → nf.coding_len ≡ p
      → Between nf n p it
      → read_next it ≡ some (record it { itok = false })
  unfolding read_next
  read_next-end p it len w = rw w.target (ground (arith, w.at))

  read_next-more :
      (p : ℕ) (it : Iterator)
      → p < nf.coding_len
      → Between nf n p it
      → read_next it ≡ read_set 0 n (record it { itok = true })
  unfolding read_next
  read_next-more p it len w =
      let more : leb nf.coding_len (place it) ≡ false = ground (arith, w.at) in
      rw (w.target, vars, more) refl

  read_next-Yields :
      (p : ℕ) (ws : List ℕ) (it : Iterator)
      → nf.coding_len ≡ p + length ws * n
      → p + length ws * n ≤ 32 * length nf.enc_vector
      → Stores n nf.enc_vector p ws
      → Fits n ws
      → Between nf n p it
      → (it' : Iterator) × (read_next it ≡ some it') × Yields it' (map (config n) ws)
  read_next-Yields p [] it len fits st fit w =
      (record it { itok = false }, read_next-end p it (omega arith) w, refl)
  read_next-Yields p (x ∷ ws) it len fits st fit w =
      let stands : Stands nf n x p = record { inside = omega arith; word = st.0 } in
      let begin : Within nf n x p 0 (record it { itok = true }) = record {
        target = w.target;
        valid = w.valid;
        size = w.size;
        ok = refl;
        in_cell = w.in_cell;
        at = omega (arith, w.at);
        digits = λ k hk. absurd (omega arith);
      } in
      let (it1, e1, w1) =
        read_set-Within nf n x p stands 0 n (record it { itok = true }) (omega arith) begin in
      let next : Between nf n (p + n) it1 = record {
        target = w1.target;
        valid = w1.valid;
        size = w1.size;
        in_cell = w1.in_cell;
        at = w1.at;
      } in
      (
        it1,
        read_next-more p it (grind (arith, fit.0)) w ∙ e1,
        (
          w1.ok,
          read_word nf n x p stands it1 fit.1 w1,
          read_next-Yields (p + n) ws it1 (omega (arith, len)) (omega arith) st.1 fit.2 next,
        ),
      )

-- With at most 31 variables, and words of that many digits (at least one digit, if there are
-- words), a new iterator over a code, advanced once, stands before exactly the words of the code,
-- which it then gives in order, and after them it fails.
pub Encodes-Yields :
    (n : ℕ) (ws : List ℕ) (nf : EncodedNf)
    → n < 32
    → Fits n ws
    → Encodes n ws nf
    → (it : Iterator) × (it' : Iterator) × (iterator nf ≡ some it)
      × (read_next it ≡ some it')
      × Yields it' (map (config n) ws)
unfolding iterator make
Encodes-Yields n ws nf small fit enc =
    let begin : Iterator = record {
      target = nf;
      current = config n 0;
      cell_counter = 0;
      elem_counter = 0;
      itok = false;
    } in
    let between : Between nf n 0 begin = record {
      target = refl;
      valid = record { within = two_pow_pos n; small = small };
      size = refl;
      in_cell = omega arith;
      at = refl;
    } in
    let (it', e, y) =
      read_next-Yields nf n enc.variables 0 ws begin (omega (arith, enc.coded))
        (omega (arith, enc.inside)) enc.stored fit between in
    let short : n % 2 ^ 16 ≡ n = omega arith in
    (begin, it', rw (enc.variables, short, lt→ltb n 32 small) refl, e, y)

-- ===== src/NormalForm/Writing.antt =====
-- `write_bit` and `write_set`: inside the buffer they append to the stream, outside they fault.
use minerule.Prelude.{
  ℕ, zero, suc, ◌+◌, ◌*◌, ◌^◌, ◌<◌, ◌≤◌, ◌≡◌, refl, Bool, ◌==◌, if◌then◌else◌, List, [], ◌∷◌,
  get_elem?, get_or, set, arith, length, none, some, ◌∙◌, sym, bit_or, bit_and, length-set, leb,
  dec_lt, ap,
}
use minerule.Bits.{bit, flip}
use minerule.VarSet.{VarSet}
use minerule.VarSet.Digits.{get_var-bit}
use minerule.NormalForm.{Writer, write_bit, write_set}
use minerule.NormalForm.Stream.{bit_at, bit_at-set, get_elem?-get_or}

abbrev pub position : Writer → ℕ
position b = b.cell_counter * 32 + b.elem_counter

abbrev pub capacity : Writer → ℕ
capacity b = 32 * length b.cells

-- `b'` continues `b` by the digits that `f` gives, `count` of them from `f 0` on.
pub record Extends (b : Writer) (count : ℕ) (f : ℕ → Bool) (b' : Writer) : Type 0 where
  pub advanced : position b' ≡ position b + count
  pub in_cell : b'.elem_counter < 32
  pub same_size : length b'.cells ≡ length b.cells
  pub before : (q : ℕ) → q < position b → bit_at b'.cells q ≡ bit_at b.cells q
  pub after : (k : ℕ) → k < count → bit_at b'.cells (position b + k) ≡ f k

bumped : Writer → List ℕ → Writer
bumped b cells1 =
    if leb 32 (b.elem_counter + 1)
    then record { cells = cells1; cell_counter = b.cell_counter + 1; elem_counter = 0 }
    else record { cells = cells1; cell_counter = b.cell_counter; elem_counter = b.elem_counter + 1 }

bumped-lem :
    (b : Writer) (cells1 : List ℕ)
    → b.elem_counter < 32
    → (position (bumped b cells1) ≡ position b + 1)
      × ((bumped b cells1).elem_counter < 32)
      × ((bumped b cells1).cells ≡ cells1)
unfolding bumped
bumped-lem b cells1 h = ground arith

write_bit-Extends :
    (b : Writer) (x : Bool)
    → b.elem_counter < 32
    → position b < capacity b
    → (b' : Writer) × (write_bit b x ≡ some b') × Extends b 1 (λ _. x) b'
unfolding write_bit bumped
write_bit-Extends b x he h = (
  bumped b cells1,
  rw (get_elem?-get_or b.cells b.cell_counter inside, bumped) refl,
  record {
    advanced = shape.0;
    in_cell = shape.1;
    same_size = rw shape.2 (length-set b.cells b.cell_counter word);
    before = λ q hq. rw (shape.2, at q) (ground arith);
    after = λ k hk. rw (shape.2, at (position b + k)) (ground arith);
  },
)
  where
    inside : b.cell_counter < length b.cells
    inside = omega arith

    word : ℕ
    word =
        if x
        then bit_or (get_or b.cells b.cell_counter 0) (2 ^ b.elem_counter)
        else bit_and (get_or b.cells b.cell_counter 0) (flip 32 (2 ^ b.elem_counter))

    cells1 : List ℕ
    cells1 = set b.cells b.cell_counter word

    shape :
        (position (bumped b cells1) ≡ position b + 1)
        × ((bumped b cells1).elem_counter < 32)
        × ((bumped b cells1).cells ≡ cells1)
    shape = bumped-lem b cells1 he

    at : (q : ℕ) → bit_at cells1 q ≡ (if position b == q then x else bit_at b.cells q)
    at q = bit_at-set b.cells b.cell_counter b.elem_counter q x inside he

Extends-trans :
    (b b1 b2 : Writer) (n : ℕ) (x : Bool) (f g : ℕ → Bool)
    → Extends b 1 (λ _. x) b1
    → Extends b1 n g b2
    → f 0 ≡ x
    → ((k : ℕ) → g k ≡ f (suc k))
    → Extends b (suc n) f b2
Extends-trans b b1 b2 n x f g e1 e2 h shift = record {
  advanced = omega (arith, e1.advanced, e2.advanced);
  in_cell = e2.in_cell;
  same_size = e2.same_size ∙ e1.same_size;
  before = λ q hq. e2.before q (omega (arith, e1.advanced)) ∙ e1.before q hq;
  after = later;
}
  where
    later : (k : ℕ) → k < suc n → bit_at b2.cells (position b + k) ≡ f k
    later zero hk =
        e2.before (position b + 0) (omega (arith, e1.advanced)) ∙ e1.after 0 (omega arith) ∙ sym h
    later (suc k) hk =
        let here : position b + suc k ≡ position b1 + k = omega (arith, e1.advanced) in
        rw here (e2.after k (omega arith) ∙ shift k)

-- A set whose variables fit into the buffer is appended.
pub write_set-Extends :
    (v : VarSet) (i left : ℕ) (b : Writer)
    → b.elem_counter < 32
    → i + left ≤ v.vset_size
    → position b + left ≤ capacity b
    → (b' : Writer) × (write_set v i left b ≡ some b') × Extends b left (λ k. bit v.vset (i + k)) b'
unfolding write_set
write_set-Extends v i zero b he hv hc = (
  b,
  refl,
  record {
    advanced = omega arith;
    in_cell = he;
    same_size = refl;
    before = λ q hq. refl;
    after = λ k hk. absurd (omega arith);
  },
)
write_set-Extends v i (suc left) b he hv hc =
    let x = bit v.vset i in
    let (b1, e1, x1) = write_bit-Extends b x he (omega arith) in
    let (b2, e2, x2) =
      write_set-Extends v (i + 1) left b1 x1.in_cell (omega arith)
        (omega (arith, x1.advanced, x1.same_size)) in
    (
      b2,
      rw (get_var-bit v i (omega arith), e1) e2,
      Extends-trans b b1 b2 left x (λ k. bit v.vset (i + k)) (λ k. bit v.vset (i + 1 + k)) x1 x2
          (ap (bit v.vset) (omega arith)) (λ k. ap (bit v.vset) (omega arith)),
    )

get_elem?-beyond : (cells : List ℕ) (i : ℕ) → length cells ≤ i → get_elem? cells i ≡ none
get_elem?-beyond [] i h = refl
get_elem?-beyond (c ∷ cells) zero h = absurd (omega arith)
get_elem?-beyond (c ∷ cells) (suc i) h = get_elem?-beyond cells i (omega arith)

write_bit-full :
    (b : Writer) (x : Bool) → b.elem_counter < 32 → capacity b ≤ position b → write_bit b x ≡ none
unfolding write_bit
write_bit-full b x he h = rw (get_elem?-beyond b.cells b.cell_counter (omega arith))

-- A set whose variables do not fit faults: the write leaves the allocated block.
pub write_set-none :
    (v : VarSet) (i left : ℕ) (b : Writer)
    → b.elem_counter < 32
    → i + left ≤ v.vset_size
    → position b ≤ capacity b
    → capacity b < position b + left
    → write_set v i left b ≡ none
unfolding write_set
write_set-none v i zero b he hv hp hc = absurd (omega arith)
write_set-none v i (suc left) b he hv hp hc = elim (dec_lt (position b) (capacity b)) [
  | yes room ↦
      let (b1, e1, x1) = write_bit-Extends b (bit v.vset i) he room in
      rw (get_var-bit v i (omega arith), e1)
        (write_set-none v (i + 1) left b1 x1.in_cell (omega arith)
          (omega (arith, x1.advanced, x1.same_size)) (omega (arith, x1.advanced, x1.same_size)))
  | no full ↦ rw (get_var-bit v i (omega arith), write_bit-full b (bit v.vset i) he (omega arith))
]

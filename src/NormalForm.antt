-- ===== src/NormalForm.antt =====
-- include/minerule/PredicateUtils/ExpressionNFCoder.hpp and src/PredicateUtils/ExpressionNFCoder.cpp:
-- the configurations that satisfy a predicate, packed into a vector of 32-bit cells, and the
-- comparisons of two such codes. `none` is a failed assertion, an exception, or an access outside
-- an allocated block. A loop that is not counted takes fuel, and gives `none` when it runs out.
pub mod Stream
pub mod Writing
pub mod Encode
pub mod Reading
pub mod Merge
pub mod Relation
pub mod Hamming
use minerule.Prelude.{
  ℕ, zero, suc, ◌+◌, ◌-◌, ◌*◌, ◌/◌, ◌%◌, ◌^◌, ◌≡◌, Bool, true, false, not, ◌&&◌, ltb, leb, ◌==◌,
  bit_or, bit_and, if◌then◌else◌, Option, none, some, guard, ◌>>=◌, ◌>>◌, List, [], ◌∷◌, get_elem?,
  set, replicate,
}
use minerule.Bits.{flip}
use minerule.VarSet.{VarSet, make, set_var, get_var, lt, eq, gt, Enumerator, enumerator, next}

-- `class EncodedNF`
pub record EncodedNf : Type 0 where
  pub enc_vector : List ℕ
  pub num_vars : ℕ
  pub vec_size : ℕ
  pub coding_len : ℕ

-- `CodesRelationship`
pub data Relationship : Type 0 where
  first_more_general first_more_specific equivalent unrelated : Relationship

-- `ExpressionNFCoder::bitsPerCell`
abbrev pub bits_per_cell : ℕ
bits_per_cell = 32

-- `1 << k` is an int, and is converted to `size_t` with its sign.
abbrev pub shl_size : ℕ → ℕ
shl_size k = if k == 31 then 2 ^ 64 - 2 ^ 31 else 2 ^ k

-- The number of cells that `encode` allocates.
unfoldable pub num_cells : ℕ → ℕ
num_cells nvars =
    let cells = shl_size nvars / bits_per_cell * nvars in
    if ltb 0 (shl_size nvars % bits_per_cell) then cells + 1 else cells

-- The buffer with the two counters of `encode`.
pub record Writer : Type 0 where
  pub cells : List ℕ
  pub cell_counter : ℕ
  pub elem_counter : ℕ

-- The body of the inner loop, for the value `x` of one variable.
unfoldable pub write_bit : Writer → Bool → Option Writer
write_bit b x = do
  cell ← get_elem? b.cells b.cell_counter
  let mask = 2 ^ b.elem_counter
  let cells1 =
      set b.cells b.cell_counter (if x then bit_or cell mask else bit_and cell (flip 32 mask))
  some (
      if leb bits_per_cell (b.elem_counter + 1)
      then record { cells = cells1; cell_counter = b.cell_counter + 1; elem_counter = 0 }
      else record {
        cells = cells1;
        cell_counter = b.cell_counter;
        elem_counter = b.elem_counter + 1;
      })

-- The inner loop, from variable `i` with `left` variables to go.
unfoldable pub write_set : VarSet → ℕ → ℕ → Writer → Option Writer
write_set v i zero b = some b
write_set v i (suc left) b = do x ← get_var v i; b1 ← write_bit b x; write_set v (i + 1) left b1

-- `realloc`: the cells that are new hold what `uninit` says.
unfoldable pub resize : (ℕ → ℕ) → ℕ → List ℕ → List ℕ
resize uninit zero cells = []
resize uninit (suc n) [] = uninit 0 ∷ resize (λ i. uninit (suc i)) n []
resize uninit (suc n) (c ∷ cells) = c ∷ resize (λ i. uninit (suc i)) n cells

-- What `encode` is given: `ee.evaluate` and the filter object.
module _ (evaluate filter : VarSet → Option Bool) where
  -- `ee.evaluate(*vse) && !filter(*vse)`
  unfoldable pub selected : VarSet → Option Bool
  selected v = do
    holds ← evaluate v
    if holds then (do out ← filter v; some (not out)) else some false

  unfoldable pub encode_set : VarSet → Writer → Option Writer
  unfolding selected
  encode_set v b = do chosen ← selected v; if chosen then write_set v 0 v.vset_size b else some b

  -- `while (vse++) …`
  unfoldable pub encode_loop : ℕ → Enumerator → Writer → Option Writer
  encode_loop zero e b = none
  encode_loop (suc fuel) e b = elim (next e).1 [
    | true ↦ encode_set (next e).0.varset b >>= encode_loop fuel (next e).0
    | false ↦ some b
  ]

  -- `ExpressionNFCoder::encode` of a predicate with `nvars` variables.
  unfoldable pub encode : (ℕ → ℕ) → ℕ → ℕ → Option EncodedNf
  encode uninit fuel nvars = do
    vse ← enumerator nvars
    guard (not (ltb 31 nvars))
    b ←
        encode_loop fuel vse
          (record { cells = replicate (num_cells nvars) 0; cell_counter = 0; elem_counter = 0 })
    some (record {
      enc_vector = resize uninit (b.cell_counter + 1) b.cells;
      num_vars = nvars;
      vec_size = b.cell_counter + 1;
      coding_len = b.cell_counter * bits_per_cell + b.elem_counter;
    })

-- `class EncodedNFIterator`
pub record Iterator : Type 0 where
  pub target : EncodedNf
  pub current : VarSet
  pub cell_counter : ℕ
  pub elem_counter : ℕ
  pub itok : Bool

unfoldable pub iterator : EncodedNf → Option Iterator
iterator nf = do
  v ← make nf.num_vars
  some (record { target = nf; current = v; cell_counter = 0; elem_counter = 0; itok = false })

-- The loop of `EncodedNFIterator::operator++(int)`, from variable `i` with `left` to go.
unfoldable pub read_set : ℕ → ℕ → Iterator → Option Iterator
read_set i zero it = some it
read_set i (suc left) it = do
  cell ← get_elem? it.target.enc_vector it.cell_counter
  v ← set_var it.current i (not (bit_and cell (2 ^ it.elem_counter) == 0))
  read_set (i + 1) left (
      if leb 32 (it.elem_counter + 1)
      then record it { current = v; cell_counter = it.cell_counter + 1; elem_counter = 0 }
      else record it { current = v; elem_counter = it.elem_counter + 1 })

unfoldable pub read_next : Iterator → Option Iterator
read_next it =
    if leb it.target.coding_len (it.cell_counter * 32 + it.elem_counter)
    then some (record it { itok = false })
    else read_set 0 it.target.num_vars (record it { itok = true })

-- The loop of `EncodedNF::operator==`, from cell `i` with `left` to go.
unfoldable pub equal_cells : List ℕ → List ℕ → ℕ → ℕ → Option Bool
equal_cells xs ys i zero = some true
equal_cells xs ys i (suc left) = do
  x ← get_elem? xs i
  y ← get_elem? ys i
  if x == y then equal_cells xs ys (i + 1) left else some false

-- `EncodedNF::operator==`
unfoldable pub equal : EncodedNf → EncodedNf → Option Bool
unfolding equal_cells
equal a b =
    if a.num_vars == b.num_vars && a.vec_size == b.vec_size && a.coding_len == b.coding_len
    then equal_cells a.enc_vector b.enc_vector 0 a.vec_size
    else some false

-- What `getCodesRelationship` returns after its loop.
unfoldable pub finish : Relationship → Bool → Bool → Relationship
finish rel false false = rel
finish first_more_specific true ok2 = unrelated
finish rel true ok2 = first_more_general
finish first_more_general false true = unrelated
finish rel false true = first_more_specific

-- An early return, or the relationship with which the loop goes on.
unfoldable pub only_first : Relationship → Option Relationship
only_first first_more_specific = none
only_first rel = some first_more_general

unfoldable pub only_second : Relationship → Option Relationship
only_second first_more_general = none
only_second rel = some first_more_specific

-- The loop of `getCodesRelationship`.
unfoldable pub relate_loop : ℕ → Relationship → Iterator → Iterator → Option Relationship
unfolding finish
relate_loop zero rel it1 it2 = none
relate_loop (suc fuel) rel it1 it2 = elim (it1.itok && it2.itok) [
  | false ↦ some (finish rel it1.itok it2.itok)
  | true ↦ do
    same ← eq it1.current it2.current
    elim same [
      | true ↦ do it1' ← read_next it1; it2' ← read_next it2; relate_loop fuel rel it1' it2'
      | false ↦ do
        less ← lt it1.current it2.current
        elim less [
          | true ↦ elim (only_first rel) [
            | none ↦ some unrelated
            | some rel' ↦ read_next it1 >>= λ it1'. relate_loop fuel rel' it1' it2
          ]
          | false ↦ do
            greater ← gt it1.current it2.current
            elim greater [
              | true ↦ elim (only_second rel) [
                | none ↦ some unrelated
                | some rel' ↦ read_next it2 >>= λ it2'. relate_loop fuel rel' it1 it2'
              ]
              | false ↦ relate_loop fuel rel it1 it2
            ]
        ]
    ]
]

-- `EncodedNF::getCodesRelationship`
unfoldable pub codes_relationship : ℕ → EncodedNf → EncodedNf → Option Relationship
codes_relationship fuel nf1 nf2 =
    if nf1.num_vars == nf2.num_vars
    then (do
      it1 ← iterator nf1
      it2 ← iterator nf2
      it1' ← read_next it1
      it2' ← read_next it2
      relate_loop fuel equivalent it1' it2')
    else some unrelated

-- The two loops at the end of `computeHammingDistance`.
unfoldable pub count_rest : ℕ → ℕ → Iterator → Option ℕ
count_rest zero edt it = none
count_rest (suc fuel) edt it = elim it.itok [
  | false ↦ some edt
  | true ↦ read_next it >>= count_rest fuel (edt + 1)
]

unfoldable pub hamming_loop : ℕ → ℕ → Iterator → Iterator → Option ℕ
hamming_loop zero edt it1 it2 = none
hamming_loop (suc fuel) edt it1 it2 = elim (it1.itok && it2.itok) [
  | false ↦ do edt1 ← count_rest (suc fuel) edt it1; count_rest (suc fuel) edt1 it2
  | true ↦ do
    same ← eq it1.current it2.current
    elim same [
      | true ↦ do it1' ← read_next it1; it2' ← read_next it2; hamming_loop fuel edt it1' it2'
      | false ↦ do
        less ← lt it1.current it2.current
        elim less [
          | true ↦ read_next it1 >>= λ it1'. hamming_loop fuel (edt + 1) it1' it2
          | false ↦ do
            greater ← gt it1.current it2.current
            guard greater
            read_next it2 >>= λ it2'. hamming_loop fuel (edt + 1) it1 it2'
        ]
    ]
]

-- `EncodedNF::computeHammingDistance`
unfoldable pub hamming_distance : ℕ → EncodedNf → EncodedNf → Option ℕ
unfolding hamming_loop
hamming_distance fuel nf1 nf2 = do
  guard (nf1.num_vars == nf2.num_vars)
  it1 ← iterator nf1
  it2 ← iterator nf2
  it1' ← read_next it1
  it2' ← read_next it2
  hamming_loop fuel 0 it1' it2'

-- ===== src/VarSet/Digits.antt =====
-- Reading and writing single variables of a `VarSet`.
use minerule.Prelude.{
  ℕ, ◌^◌, ◌<◌, bit_and, bit_or, ◌≡◌, refl, Bool, true, false, ◌==◌, if◌then◌else◌, some, arith,
  lt→ltb, two_pow_pos, two_pow_lt,
}
use minerule.Bits.{
  bit, flip, bit-bit_or, bit-bit_and, bit-one_shl, bit-flip, bit_and-one_shl, bit_or-lt, bit_and-le,
}
use minerule.VarSet.{VarSet, set_var, get_var}

-- Only declared variables are set, and their number is one that the class supports.
pub record IsValid (v : VarSet) : Type 0 where
  pub within : v.vset < 2 ^ v.vset_size
  pub small : v.vset_size < 32

pub get_var-bit : (v : VarSet) (k : ℕ) → k < v.vset_size → get_var v k ≡ some (bit v.vset k)
unfolding get_var
get_var-bit v k h = ground (arith, bit_and-one_shl v.vset k, two_pow_pos k)

-- Writing digit `i` of a word of `w` digits with `|=` or `&= ~` changes that digit.
pub bit-set :
    (w x i k : ℕ) (b : Bool)
    → i < w
    → k < w
    → bit (if b then bit_or x (2 ^ i) else bit_and x (flip w (2 ^ i))) k
      ≡ (if i == k then b else bit x k)
bit-set w x i k true hi hk = rw (bit-bit_or x (2 ^ i) k, bit-one_shl i k) (ground arith)
bit-set w x i k false hi hk =
    rw
      (
        bit-bit_and x (flip w (2 ^ i)) k,
        bit-flip w (2 ^ i) k (two_pow_lt i w hi) hk,
        bit-one_shl i k,
      )
      (ground arith)

-- A write inside the set succeeds, keeps the set valid, and changes the one variable.
pub record Written (v : VarSet) (i : ℕ) (b : Bool) (v' : VarSet) : Type 0 where
  pub written : set_var v i b ≡ some v'
  pub size : v'.vset_size ≡ v.vset_size
  pub valid : IsValid v'
  pub digits : (k : ℕ) → k < v.vset_size → bit v'.vset k ≡ (if i == k then b else bit v.vset k)

-- On a valid set, setVar of a variable inside it succeeds, keeps the set valid and of its size, and
-- changes that variable only.
pub set_var-Written :
    (v : VarSet) (i : ℕ) (b : Bool) → IsValid v → i < v.vset_size → (v' : VarSet) × Written v i b v'
unfolding set_var
set_var-Written v i b valid h = (
  record v { vset = word },
  record {
    written = rw (lt→ltb i v.vset_size h);
    size = refl;
    valid = record { within = bounded b; small = valid.small };
    digits = λ k hk. bit-set 64 v.vset i k b (omega arith) (omega arith);
  },
)
  where
    word : ℕ
    word = if b then bit_or v.vset (2 ^ i) else bit_and v.vset (flip 64 (2 ^ i))

    bounded :
        (b : Bool)
        → (if b then bit_or v.vset (2 ^ i) else bit_and v.vset (flip 64 (2 ^ i))) < 2 ^ v.vset_size
    bounded true = bit_or-lt v.vset_size v.vset (2 ^ i) valid.within (two_pow_lt i v.vset_size h)
    bounded false =
        omega (arith, valid.within, bit_and-le v.vset v.vset (flip 64 (2 ^ i)) (omega arith))

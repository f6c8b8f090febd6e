-- ===== src/NormalForm/Stream.antt =====
-- The cells of a code as one stream of binary digits, and words of `n` digits that stand in it.
use minerule.Prelude.{
  ℕ, zero, suc, ◌+◌, ◌*◌, ◌/◌, ◌%◌, ◌^◌, ◌<◌, ◌≤◌, ◌≡◌, refl, Bool, ◌==◌, if◌then◌else◌, List, [],
  ◌∷◌, get_elem?, get_or, set, arith, length, some, ◌∙◌, ap, bit_or, bit_and,
}
use minerule.Bits.{bit, flip}
use minerule.VarSet.Digits.{bit-set}
use minerule.NormalForm.{resize}

unfoldable pub bit_at : List ℕ → ℕ → Bool
bit_at cells p = bit (get_or cells (p / 32) 0) (p % 32)

-- The words `ws`, of `n` digits each, stand in the cells from position `p` on.
abbrev pub Stores : ℕ → List ℕ → ℕ → List ℕ → Type 0
Stores n cells p [] = Unit {0}
Stores n cells p (x ∷ ws) =
    ((k : ℕ) → k < n → bit_at cells (p + k) ≡ bit x k) × Stores n cells (p + n) ws

get_or-set :
    (cells : List ℕ) (i j v : ℕ)
    → i < length cells
    → get_or (set cells i v) j 0 ≡ (if i == j then v else get_or cells j 0)
get_or-set [] i j v h = absurd (omega arith)
get_or-set (c ∷ cells) zero zero v h = refl
get_or-set (c ∷ cells) zero (suc j) v h = ground arith
get_or-set (c ∷ cells) (suc i) zero v h = ground arith
get_or-set (c ∷ cells) (suc i) (suc j) v h = ground (arith, get_or-set cells i j v)

pub get_elem?-get_or :
    (cells : List ℕ) (i : ℕ) → i < length cells → get_elem? cells i ≡ some (get_or cells i 0)
get_elem?-get_or [] i h = absurd (omega arith)
get_elem?-get_or (c ∷ cells) zero h = refl
get_elem?-get_or (c ∷ cells) (suc i) h = get_elem?-get_or cells i (omega arith)

-- Writing digit `e` of cell `i` changes one position.
pub bit_at-set :
    (cells : List ℕ) (i e q : ℕ) (x : Bool)
    → i < length cells
    → e < 32
    → bit_at
        (set cells i (
          if x
          then bit_or (get_or cells i 0) (2 ^ e)
          else bit_and (get_or cells i 0) (flip 32 (2 ^ e))))
        q
      ≡ (if i * 32 + e == q then x else bit_at cells q)
unfolding bit_at
bit_at-set cells i e q x hi he = ground (
  arith,
  get_or-set cells i (q / 32)
      (if x
        then bit_or (get_or cells i 0) (2 ^ e)
        else bit_and (get_or cells i 0) (flip 32 (2 ^ e)))
      hi,
  bit-set 32 (get_or cells i 0) e (q % 32) x he (omega arith),
)

-- Cells that agree up to a bound store the same words below it.
pub Stores-agree :
    (n : ℕ) (cells cells' : List ℕ) (bound p : ℕ) (ws : List ℕ)
    → ((q : ℕ) → q < bound → bit_at cells' q ≡ bit_at cells q)
    → p + length ws * n ≤ bound
    → Stores n cells p ws
    → Stores n cells' p ws
Stores-agree n cells cells' bound p [] same h s = tt
Stores-agree n cells cells' bound p (x ∷ ws) same h s = (
  λ k hk. same (p + k) (omega arith) ∙ s.0 k hk,
  Stores-agree n cells cells' bound (p + n) ws same (omega arith) s.1,
)

get_or-resize :
    (uninit : ℕ → ℕ) (m : ℕ) (cells : List ℕ) (i : ℕ)
    → i < m
    → i < length cells
    → get_or (resize uninit m cells) i 0 ≡ get_or cells i 0
unfolding resize
get_or-resize uninit zero cells i hm hc = absurd (omega arith)
get_or-resize uninit (suc m) [] i hm hc = absurd (omega arith)
get_or-resize uninit (suc m) (c ∷ cells) zero hm hc = refl
get_or-resize uninit (suc m) (c ∷ cells) (suc i) hm hc =
    get_or-resize (λ i. uninit (suc i)) m cells i (omega arith) (omega arith)

pub length-resize : (uninit : ℕ → ℕ) (m : ℕ) (cells : List ℕ) → length (resize uninit m cells) ≡ m
unfolding resize
length-resize uninit zero cells = refl
length-resize uninit (suc m) [] = ap suc (length-resize (λ i. uninit (suc i)) m [])
length-resize uninit (suc m) (c ∷ cells) = ap suc (length-resize (λ i. uninit (suc i)) m cells)

-- Reallocation keeps the digits that stand in both blocks.
pub bit_at-resize :
    (uninit : ℕ → ℕ) (m : ℕ) (cells : List ℕ) (q : ℕ)
    → q < 32 * m
    → q < 32 * length cells
    → bit_at (resize uninit m cells) q ≡ bit_at cells q
unfolding bit_at
bit_at-resize uninit m cells q hm hc =
    rw (get_or-resize uninit m cells (q / 32) (omega arith) (omega arith))

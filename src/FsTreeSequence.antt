-- ===== src/FsTreeSequence.antt =====
-- src/Algorithms/FSTreeSequence.cpp: sequences of items, their order, and the maps they are keys of.
-- An item counts only through `ItemType::operator<` and `operator==`: it is its place in that order.
pub mod Keys
use minerule.Prelude.{
  ℕ, zero, suc, Ordering, compare, Bool, true, false, not, ◌&&◌, List, [], ◌∷◌, ◌++◌, ◌==◌,
}

abbrev pub Item : Type 0
Item = ℕ

-- `FSTreeSequence`
abbrev pub Seq : Type 0
Seq = List Item

-- `FSTreeSequence(in, start, n_item)`
unfoldable pub slice : Seq → ℕ → ℕ → Seq
slice [] start n_item = []
slice (x ∷ s) (suc start) n_item = slice s start n_item
slice (x ∷ s) zero zero = []
slice (x ∷ s) zero (suc n_item) = x ∷ slice s zero n_item

-- `operator<`: `lexicographical_compare`.
unfoldable pub seq_less : Seq → Seq → Bool
seq_less s [] = false
seq_less [] (b ∷ t) = true
seq_less (a ∷ s) (b ∷ t) = elim (compare a b) [
  | Ordering.lt ↦ true
  | Ordering.eq ↦ seq_less s t
  | Ordering.gt ↦ false
]

-- Whether a map takes two keys for the same one.
unfoldable pub same_key : Seq → Seq → Bool
unfolding seq_less
same_key s t = not (seq_less s t) && not (seq_less t s)

-- `std::map<FSTreeSequence, V, less_sequence>`. The order of the entries, which shows only in the order
-- of iteration, is that of their insertion.
abbrev pub SeqMap {ℓ} : Type ℓ → Type ℓ
SeqMap V = List (Seq × V)

-- `m[k]`, as far as its value goes: `none_yet` is the value of a new entry.
unfoldable pub value {ℓ} : {V : Type ℓ} → V → Seq → SeqMap V → V
value none_yet k [] = none_yet
value none_yet k ((a, v) ∷ m) =
    let rest = value none_yet k m in elim (same_key k a) [ true ↦ v | false ↦ rest ]

-- `m[k] = v`
unfoldable pub put {ℓ} : {V : Type ℓ} → Seq → V → SeqMap V → SeqMap V
put k v [] = (k, v) ∷ []
put k v ((a, w) ∷ m) =
    let rest = put k v m in elim (same_key k a) [ true ↦ (a, v) ∷ m | false ↦ (a, w) ∷ rest ]

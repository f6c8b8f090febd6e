-- ===== src/Tests/NormalForm.antt =====
-- Codes of small predicates, and the theorems about them.
use minerule.Prelude.{
  ℕ, zero, suc, ◌≡◌, refl, Bool, Option, some, none, List, [], ◌∷◌, true, false, arith, ◌<◌, keep,
  ◌+◌, length, ◌==◌, map,
}
use minerule.VarSet.{VarSet}
use minerule.VarSet.Enumerate.{config, words}
use minerule.NormalForm.{
  num_cells, EncodedNf, Iterator, first_more_specific, encode, selected, codes_relationship,
  hamming_distance, iterator, read_next,
}
use minerule.NormalForm.Stream.{bit_at}
use minerule.NormalForm.Encode.{Encodes, encode_total, encode_overflow, encode-Encodes}
use minerule.NormalForm.Encode.Capacity.{num_cells_four}
use minerule.Bits.{bit}
use minerule.NormalForm.Reading.{Yields, Encodes-Yields}
use minerule.NormalForm.Relation.{words-Fits, relationship_of, codes_relationship-relationship_of}
use minerule.NormalForm.Merge.{differs}
use minerule.NormalForm.Hamming.{hamming_distance-differs}

-- The word of two variables in which the first alone is true, and all words.
abbrev is_one : ℕ → Bool
is_one c = c == 1

abbrev always : ℕ → Bool
always c = true

abbrev code_one : EncodedNf
code_one = record { enc_vector = 1 ∷ []; num_vars = 2; vec_size = 1; coding_len = 2 }

abbrev code_always : EncodedNf
code_always = record { enc_vector = 228 ∷ []; num_vars = 2; vec_size = 1; coding_len = 8 }

two_digits :
    (cells : List ℕ) (p x : ℕ)
    → bit_at cells (p + 0) ≡ bit x 0
    → bit_at cells (p + 1) ≡ bit x 1
    → (k : ℕ) → k < 2
    → bit_at cells (p + k) ≡ bit x k
two_digits cells p x h0 h1 zero small = h0
two_digits cells p x h0 h1 (suc zero) small = h1
two_digits cells p x h0 h1 (suc (suc k)) small = absurd (omega arith)

code_one-Encodes : Encodes 2 (keep is_one (words 2)) code_one
unfolding bit_at bit
code_one-Encodes = record {
  variables = refl;
  sized = refl;
  coded = refl;
  inside = omega arith;
  stored = (two_digits (1 ∷ []) 0 1 refl refl, tt);
}

code_always-Encodes : Encodes 2 (keep always (words 2)) code_always
unfolding bit_at bit
code_always-Encodes = record {
  variables = refl;
  sized = refl;
  coded = refl;
  inside = omega arith;
  stored = (
    two_digits (228 ∷ []) 0 0 refl refl,
    (
      two_digits (228 ∷ []) 2 1 refl refl,
      (two_digits (228 ∷ []) 4 2 refl refl, (two_digits (228 ∷ []) 6 3 refl refl, tt)),
    ),
  );
}

Encodes-Yields_example :
    (it : Iterator) × (it' : Iterator) × (iterator code_one ≡ some it)
    × (read_next it ≡ some it')
    × Yields it' (map (config 2) (keep is_one (words 2)))
Encodes-Yields_example =
    Encodes-Yields 2 (keep is_one (words 2)) code_one (omega arith) (words-Fits 2 is_one)
      code_one-Encodes

codes_relationship-relationship_of_example :
    codes_relationship 9 code_one code_always ≡ some (relationship_of 2 is_one always)
codes_relationship-relationship_of_example =
    codes_relationship-relationship_of 2 9 is_one always code_one code_always (omega arith)
      (omega arith) code_one-Encodes code_always-Encodes

one_in_always : relationship_of 2 is_one always ≡ first_more_specific
one_in_always = refl

hamming_distance-differs_example :
    hamming_distance 9 code_one code_always ≡ some (length (keep (differs is_one always) (words 2)))
hamming_distance-differs_example =
    hamming_distance-differs 2 9 is_one always code_one code_always (omega arith) (omega arith)
      code_one-Encodes code_always-Encodes

-- The two predicates as `encode` evaluates them, a filter that drops nothing, and memory.
abbrev always_holds : VarSet → Option Bool
always_holds v = some true

abbrev is_one_holds : VarSet → Option Bool
is_one_holds v = some (v.vset == 1)

abbrev no_filter : VarSet → Option Bool
no_filter v = some false

abbrev junk : ℕ → ℕ
junk i = 7

selects_one : (c : ℕ) → c < 4 → selected is_one_holds no_filter (config 2 c) ≡ some (is_one c)
unfolding selected
selects_one c h = ground arith

selects_all : (c : ℕ) → c < 16 → selected always_holds no_filter (config 4 c) ≡ some (always c)
unfolding selected
selects_all c h = refl

encode_total_example :
    (nf : EncodedNf) × (encode is_one_holds no_filter junk 5 2 ≡ some nf)
    × Encodes 2 (keep is_one (words 2)) nf
encode_total_example =
    encode_total is_one_holds no_filter junk 2 5 (omega arith) (omega arith) is_one selects_one
      (omega arith)

-- The tautology over four variables does not fit into the block.
encode_overflow_example : encode always_holds no_filter junk 17 4 ≡ none
encode_overflow_example =
    encode_overflow always_holds no_filter junk 4 17 (omega arith) (omega arith) always selects_all
      (rw num_cells_four (omega arith))

encode-Encodes_example :
    (nf : EncodedNf) × (encode is_one_holds no_filter junk 5 2 ≡ some nf)
    × Encodes 2 (keep is_one (words 2)) nf
encode-Encodes_example =
    encode-Encodes is_one_holds no_filter junk 2 5 (omega arith) (omega arith) is_one selects_one
      (unfold num_cells in omega arith)

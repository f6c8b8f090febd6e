-- ===== src/Predicate.antt =====
-- include/minerule/PredicateUtils/Predicate.hpp and src/PredicateUtils/Predicate.cpp: predicates in
-- disjunctive normal form over pointers to simple predicates. Strings are lists of bytes. A pointer
-- into the pool of simple predicates is the key by which the pool holds the object, since a pool
-- never holds two objects with one key and keys do not change.
pub mod Pool
pub mod Meaning
pub mod Conjoin
use minerule.Prelude.{
  ℕ, zero, suc, ◌+◌, ◌-◌, ◌*◌, ◌%◌, ◌^◌, ◌≡◌, Bool, true, false, not, ◌&&◌, ltb, ◌==◌,
  if◌then◌else◌, Option, none, some, guard, ◌>>=◌, ◌>>◌, List, [], ◌∷◌, ◌++◌, length, get_elem?,
  set, compare, Ordering,
}
use minerule.VarSet.{VarSet, get_var}

abbrev pub Text : Type 0
Text = List ℕ

-- The order of `std::string`.
unfoldable pub compare_text : Text → Text → Ordering
compare_text [] [] = Ordering.eq
compare_text [] (b ∷ t) = Ordering.lt
compare_text (a ∷ s) [] = Ordering.gt
compare_text (a ∷ s) (b ∷ t) = elim (compare a b) [
  | Ordering.lt ↦ Ordering.lt
  | Ordering.eq ↦ compare_text s t
  | Ordering.gt ↦ Ordering.gt
]

-- `simple_pred`, the parser's form.
pub record ParsedPred : Type 0 where
  pub val1 : Text
  pub op : Text
  pub val2 : Text

-- `class SimplePredicate`
pub record SimplePredicate : Type 0 where
  pub val1 : Text
  pub val2 : Text
  pub op : Text
  pub var_id : ℕ

-- `SimplePredicate(const simple_pred*)`
unfoldable pub simple : ParsedPred → SimplePredicate
simple p = record { val1 = p.val1; val2 = p.val2; op = p.op; var_id = 0 }

-- `operator<` compares `val1 + op + val2`.
abbrev pub Ref : Type 0
Ref = Text

abbrev pub key : SimplePredicate → Ref
key s = s.val1 ++ s.op ++ s.val2

unfoldable pub less : SimplePredicate → SimplePredicate → Bool
unfolding compare_text
less s t = elim (compare_text (key s) (key t)) [ Ordering.lt ↦ true | _ ↦ false ]

-- `PredicatePool`, a `std::set` ordered by `less`: what `find` and `insert` do.
abbrev pub Pool : Type 0
Pool = List SimplePredicate

unfoldable pub find : Ref → Pool → Option SimplePredicate
unfolding compare_text
find r [] = none
find r (s ∷ pool) = elim (compare_text r (key s)) [
  | Ordering.lt ↦ none
  | Ordering.eq ↦ some s
  | Ordering.gt ↦ find r pool
]

unfoldable pub insert : SimplePredicate → Pool → Pool
unfolding compare_text
insert s [] = s ∷ []
insert s (t ∷ pool) = elim (compare_text (key s) (key t)) [
  | Ordering.lt ↦ s ∷ t ∷ pool
  | Ordering.eq ↦ t ∷ pool
  | Ordering.gt ↦ t ∷ insert s pool
]

-- `newSimplePredicate(const simple_pred*)`: the pointer returned and the pool after the call.
unfoldable pub new_simple_predicate : ParsedPred → Pool → Ref × Pool
unfolding simple
new_simple_predicate p pool =
    let newpred = simple p in
    elim (find (key newpred) pool) [
      | none ↦ (key newpred, insert newpred pool)
      | some s ↦ (key s, pool)
    ]

-- `r->setVarId(id)` and `r->getVarId()`; `none` is a dangling pointer.
unfoldable pub set_var_id : Ref → ℕ → Pool → Pool
unfolding compare_text
set_var_id r id [] = []
set_var_id r id (s ∷ pool) = elim (compare_text r (key s)) [
  | Ordering.lt ↦ s ∷ pool
  | Ordering.eq ↦ record s { var_id = id } ∷ pool
  | Ordering.gt ↦ s ∷ set_var_id r id pool
]

unfoldable pub get_var_id : Pool → Ref → Option ℕ
unfolding find
get_var_id pool r = do s ← find r pool; some s.var_id

-- `PredConjunction` and `Predicate` are vectors of pointers.
abbrev pub PredConjunction : Type 0
PredConjunction = List Ref

abbrev pub Predicate : Type 0
Predicate = List PredConjunction

-- The constructors from the parser's lists, which fill the pool.
unfoldable pub conjunction_of : List ParsedPred → Pool → PredConjunction × Pool
unfolding new_simple_predicate
conjunction_of [] pool = ([], pool)
conjunction_of (p ∷ land) pool =
    let (r, pool1) = new_simple_predicate p pool in
    let (rs, pool2) = conjunction_of land pool1 in (r ∷ rs, pool2)

unfoldable pub predicate_of : List (List ParsedPred) → Pool → Predicate × Pool
unfolding conjunction_of
predicate_of [] pool = ([], pool)
predicate_of (land ∷ lor) pool =
    let (c, pool1) = conjunction_of land pool in
    let (cs, pool2) = predicate_of lor pool1 in (c ∷ cs, pool2)

-- `PredConjunction::evaluate`, over the ids of the pointers.
unfoldable pub evaluate_conjunction : (Ref → Option ℕ) → VarSet → PredConjunction → Option Bool
unfolding get_var
evaluate_conjunction ids vset [] = some true
evaluate_conjunction ids vset (r ∷ rs) = do
  id ← ids r
  b ← get_var vset id
  if b then evaluate_conjunction ids vset rs else some false

-- `Predicate::evaluate`
unfoldable pub evaluate_any : (Ref → Option ℕ) → VarSet → Predicate → Option Bool
unfolding evaluate_conjunction
evaluate_any ids vset [] = some false
evaluate_any ids vset (c ∷ cs) = do
  b ← evaluate_conjunction ids vset c
  if b then some true else evaluate_any ids vset cs

unfoldable pub evaluate : (Ref → Option ℕ) → VarSet → Predicate → Option Bool
unfolding evaluate_any
evaluate ids vset [] = some true
evaluate ids vset (c ∷ cs) = evaluate_any ids vset (c ∷ cs)

-- `Predicate::operator|=`
unfoldable pub or_with : Predicate → Predicate → Predicate
or_with self p = self ++ p

-- `Predicate::operator&=`. The copies: `p.size() - 1` is unsigned. The exceptions of a vector that is
-- too long, or for which there is no memory, are not modelled; with an operand that has no disjuncts
-- one of them always ends the 2 ^ 64 - 1 rounds that a predicate with disjuncts begins.
unfoldable pub append_copies : ℕ → Predicate → Predicate → Predicate
unfolding or_with
append_copies zero copy self = self
append_copies (suc rounds) copy self = append_copies rounds copy (or_with self copy)

-- The inner loop, from `j`, on the conjunctions that are joined with `c`.
unfoldable pub conjoin_rows : ℕ → ℕ → PredConjunction → ℕ → ℕ → Predicate → Option Predicate
conjoin_rows old_size i c j zero self = some self
conjoin_rows old_size i c j (suc left) self = do
  d ← get_elem? self (j + i * old_size)
  conjoin_rows old_size i c (j + 1) left (set self (j + i * old_size) (d ++ c))

unfoldable pub conjoin_all : ℕ → ℕ → Predicate → Predicate → Option Predicate
unfolding conjoin_rows
conjoin_all old_size i [] self = some self
conjoin_all old_size i (c ∷ p) self = do
  self1 ← conjoin_rows old_size i c 0 old_size self
  conjoin_all old_size (i + 1) p self1

abbrev pub size_mod : ℕ
size_mod = 2 ^ 64

unfoldable pub and_with : Predicate → Predicate → Option Predicate
unfolding conjoin_all
and_with self p =
    let rounds = (length p + size_mod - 1) % size_mod in
    conjoin_all (length self) 0 p (append_copies rounds self self)

-- ===== src/Lib.antt =====
-- Verification of the query optimizer and of the sequence miner of minerule, a system that keeps the
-- results of data mining queries and answers a new query from the result of an older one, when a
-- predicate of the one implies a predicate of the other. The predicates are compared through codes of
-- their truth tables. Of the miners, the one for sequences is here.
--
-- The parts, from below:
-- * Prelude.antt and its children pass library names on, with Boolean tests and lists over the native
--   numbers. Bits.antt has the digits of the bitwise operations.
-- * VarSet.antt models include/minerule/PredicateUtils/VarSet.hpp: a configuration of at most 31
--   Boolean variables in an unsigned int, and the enumerator of all configurations. Its children are
--   about single variables (VarSet/Digits) and about the enumeration (VarSet/Enumerate).
-- * Predicate.antt models include/minerule/PredicateUtils/Predicate.hpp and
--   src/PredicateUtils/Predicate.cpp: the pool of simple predicates, predicates in disjunctive normal
--   form, `evaluate`, `operator&=` (and_with) and `operator|=` (or_with). A pointer to a simple
--   predicate is the text by which the pool finds it.
-- * NormalForm.antt models ExpressionNFCoder.hpp and ExpressionNFCoder.cpp of the same directories:
--   `encode`, the iterator over a code (Iterator, read_next), `operator==` (equal),
--   `getCodesRelationship` (codes_relationship) and `computeHammingDistance` (hamming_distance).
--   Children: Stream (cells as a stream of digits), Writing and Encode (what encode leaves), Reading
--   (what the iterator yields), Merge, Relation and Hamming (the two merging loops).
-- * PredicateUtils.antt models src/PredicateUtils/PredicateUtils.cpp with the CountingIterator of its
--   header: the numbering of the simple predicates of two predicates, and their relationship.
-- * SqlUtils.antt models isAttribute of include/minerule/Utils/SQLUtils.hpp and quote of
--   src/Utils/SQLUtils.cpp.
-- * Interval.antt models Interval.hpp, Interval.cpp and InvalidConfigurationFilter.hpp of the
--   PredicateUtils directories: which configurations the coder drops because no values of the
--   attributes produce them. strtod, the difference of two doubles, its conversion to int and the types
--   of the columns are arguments. Interval/Agreement compares the filters of two numeric comparisons.
-- * MinMaxPair.antt models include/minerule/Utils/MinMaxPair.hpp, the bounds on cardinalities.
-- * OptimizedMinerule.antt models getMineruleRelationship and the loop of `optimize` of
--   src/Optimizer/OptimizedMinerule.cpp (relation_loop, get_minerule_relationship, optimize_loop):
--   which past minerule the program reuses. The size of a past result, which the catalogue tells, and
--   the comparison of floats are arguments.
-- * SimplePredAnalyzer.antt models the table of relations of src/PredicateUtils/SimplePredAnalyzer.cpp
--   and getRelation, which reads it.
-- * OptimizedMinerule/Candidates.antt has the other comparisons of minerules, with hasIDConstraints of
--   src/Optimizer/OptimizerCatalogue.cpp; which attributes are identifiers is an argument.
-- * Separator.antt models src/PredicateUtils/HeadBodyPredicatesSeparator.cpp.
-- * FsTreeSequence.antt models src/Algorithms/FSTreeSequence.cpp and the maps from sequences.
-- * FsTree.antt and FsTree/Mine.antt model src/Algorithms/FSTree.cpp and FSTreeNode.cpp, and of
--   src/Algorithms/FSMiner.cpp the steps of mineRules that follow prepareData: the tables of pairs
--   (insert_link, create_link_ns_table), the cutting of sequences (fraziona), the prefix tree
--   (append_child, insert_tree) and the collection of the results (add_result, mine, get_result). The
--   heap of nodes is a list and a pointer a place in it. The loops over the rows take fuel, for which the
--   number of rows is enough. FsTree/Sums and Growth have the invariant of the tree, Collect and
--   Occurrences what the tree counts, Parts and Cuts what the cutting keeps.
-- * GaQueryCombinator.antt models src/Optimizer/GAQueryCombinator.cpp: the combination of past queries
--   that a genome stands for, its fitness, and the decoding of the result. The genome is a list of bits;
--   the genetic algorithm is a library. The float arithmetic of the fitness is left symbolic.
-- * BitString.antt models src/Utils/Bitstring.cpp and include/minerule/Utils/Bitstring.hpp, the sets of
--   rows of the miners, without serialization; BitString/Count has count and moreThan.
--
--
-- A failed assertion, an exception, a dangling pointer and an access outside a block are `none`. Loops
-- whose number of rounds is not given by a list take fuel, and give `none` when it runs out; twice the
-- number of configurations and one more is enough for each of them, and the theorems say that the
-- result is then produced. Unsigned arithmetic that can wrap is written out (`% 2 ^ 32`, `% 2 ^ 64`).
-- Memory that the C++ library leaves uninitialised is an argument, and so is the filter of impossible
-- configurations.
--
-- The vectors of the model have no largest size, so that what the code throws when one grows too long is
-- not seen. The items of the sequence miner are in a total order, which the comparison of numeric
-- attributes is for differences that fit in an int. The tests that the loop of optimize applies to a
-- past query return; their exceptions, which leave the loop, are not modelled.
--
-- Not modelled: the SQL that reads and writes the catalogue and the source tables, the grammar, the
-- miners of item sets and rules, logging and the command line programs.
pub mod Prelude
pub mod Bits
pub mod VarSet
pub mod Predicate
pub mod NormalForm
pub mod PredicateUtils
pub mod SqlUtils
pub mod Interval
pub mod MinMaxPair
pub mod OptimizedMinerule
pub mod SimplePredAnalyzer
pub mod Separator
pub mod FsTreeSequence
pub mod FsTree
pub mod GaQueryCombinator
pub mod BitString
pub mod Tests

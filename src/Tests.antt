-- ===== src/Tests.antt =====
-- The functions and the theorems at concrete inputs.
mod VarSet
mod NormalForm
mod Predicate
mod PredicateUtils
mod Interval
mod NumericFilter
mod Optimizer
mod Analyzer
mod SequenceMiner
mod BitString

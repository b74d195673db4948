-- ===== src/Witness.antt =====
-- Concrete runs on which the theorems hold, with the tests of the definitions.
mod OfProxy
mod OfRun
mod OfSequence
mod OfSettle
mod OfTarget
mod OfObserve
mod OfInvariant
mod Recorded
mod OfDeletion
mod OfCollector
mod OfRunner
mod OfGenerate
mod OfConvergence

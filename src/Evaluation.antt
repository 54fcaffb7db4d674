-- ===== src/Evaluation.antt =====
-- internal/evaluation/evaluation.go: `Reports` has the reports and their metrics, `Gate` the
-- comparison with a baseline and the update of a baseline, `Slots`, `Merge` and `Ratchet` the
-- theorems on them, `Ranks` the ranks and percentiles of a run, `Run` the run and `Rag` the run
-- with answers.
pub mod Reports
pub mod Gate
pub mod Slots
pub mod Merge
pub mod Ratchet
pub mod Ranks
pub mod Run
pub mod Judge
pub mod Rag
pub mod Dataset
mod Tests

-- ===== src/Predictor.antt =====
-- The branch predictor, src/machine/predictor.h and predictor.cpp: one child for each class.
pub mod Types
pub mod Stats
pub mod Rows
pub mod History
pub mod TargetBuffer
pub mod Smith
pub mod HistoryTable
pub mod Unit
mod Tests

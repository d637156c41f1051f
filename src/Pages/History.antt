-- ===== src/Pages/History.antt =====
-- What every trace of operations keeps.
pub mod Pages
pub mod Validity
pub mod Evaluations
pub mod Tasks

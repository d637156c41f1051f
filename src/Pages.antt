-- ===== src/Pages.antt =====
-- The durable page workflow (src/draftly/orchestration/page_workflow).
pub mod Rows
pub mod Query
pub mod States
pub mod Tasks
pub mod Evaluations
pub mod Revisions
pub mod Operation
pub mod History
pub mod Results
pub mod Paths
pub mod Executor
pub mod Resume
pub mod Handlers
pub mod Scenarios
pub mod Seeding

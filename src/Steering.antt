-- ===== src/Steering.antt =====
-- The steering of agents: the durable counters and interventions
-- (src/draftly/persistence/repositories/steering.py), the role policies, the read budget of a writer and
-- the guards (src/draftly/steering).
pub mod Decisions
pub mod Policies
pub mod Reads
pub mod Guards
pub mod Attempts
pub mod Budgets
pub mod Refinement
pub mod Interventions
pub mod Claims
mod Scenarios

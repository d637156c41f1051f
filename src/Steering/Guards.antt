-- ===== src/Steering/Guards.antt =====
-- Two handlers around an agent's model: `ToolCallBurstGuard`
-- (src/draftly/steering/tool_call_burst_guard.py), which discards a response with too many tool calls,
-- and `ResearchBudgetGuard` (src/draftly/steering/research_budget_guard.py), which ends a research loop.
pub mod Burst
pub mod Research
use draftly_agent_backend.Prelude.{String}

pub data Action : Type 0 where
  proceed : Action
  guide : String → Action
  deny : String → Action

-- ===== src/Steering/Policies/Guides.antt =====
-- The evaluations of `RolePolicy` that reserve guides, through `SteeringPersistence`
-- (src/draftly/steering/persistence.py), in the table of attempts.
use draftly_agent_backend.Prelude.{
  String, Bool, true, false, Option, none, some, List, if◌then◌else◌, Json, Fields,
}
use draftly_agent_backend.Steering.Attempts.{AttemptKey, Attempt, reserve_with_total}
use draftly_agent_backend.Steering.Decisions.{SteeringDecision, Raises, returns, raises, is_guide}
use draftly_agent_backend.Steering.Policies.{RolePolicy, SteeringLimits}
use draftly_agent_backend.Steering.Policies.Runtime.{SteeringRuntime}
use draftly_agent_backend.Steering.Policies.Evaluation.{
  Judged, apply_judge, terminal, evaluate_tool, evaluate_model,
}
use draftly_agent_backend.Steering.Reads.{DraftScope}

abbrev pub guide_key : String → String → String → String → String → AttemptKey
guide_key run agent node phase tool = record {
  run_id = run;
  agent_id = agent;
  node_id = node;
  phase = phase;
  tool_name = tool;
  model_turn = 0;
}

abbrev pub total_key : String → String → AttemptKey
total_key run agent = guide_key run agent "" "agent_total" ""

-- `SteeringPersistence.reserve_tool_guide`
unfoldable pub reserve_tool_guide :
    SteeringLimits → String → String → String → String → List Attempt → Bool × List Attempt
unfolding reserve_with_total
reserve_tool_guide limits run agent node tool rows =
    reserve_with_total (guide_key run agent node "tool" tool) limits.tool_guides_per_call
      (total_key run agent) limits.total_guides_per_agent rows

-- `SteeringPersistence.reserve_model_guide`
unfoldable pub reserve_model_guide :
    SteeringLimits → String → String → String → List Attempt → Bool × List Attempt
unfolding reserve_with_total
reserve_model_guide limits run agent node rows =
    reserve_with_total (guide_key run agent node "model" "") limits.model_guides_per_turn
      (total_key run agent) limits.total_guides_per_agent rows

abbrev pub run_of : SteeringRuntime → String
run_of runtime = elim runtime.identity [ none ↦ runtime.scope.run_id | some i ↦ i.run_id ]

abbrev pub agent_of : SteeringRuntime → String
agent_of runtime = elim runtime.identity [ none ↦ "" | some i ↦ i.agent_id ]

abbrev pub node_of : SteeringRuntime → String
node_of runtime = elim runtime.identity [ none ↦ "" | some i ↦ i.node_id ]

-- `_reserve_tool_guide`
unfoldable pub reserve_for_tool : SteeringRuntime → String → List Attempt → Bool × List Attempt
unfolding reserve_tool_guide
reserve_for_tool runtime tool rows = elim runtime.attempts [
  | none ↦ (true, rows)
  | some limits ↦
      reserve_tool_guide limits (run_of runtime) (agent_of runtime) (node_of runtime) tool rows
]

-- `_reserve_model_guide`
unfoldable pub reserve_for_model : SteeringRuntime → List Attempt → Bool × List Attempt
unfolding reserve_model_guide
reserve_for_model runtime rows = elim runtime.attempts [
  | none ↦ (true, rows)
  | some limits ↦
      reserve_model_guide limits (run_of runtime) (agent_of runtime) (node_of runtime) rows
]

-- `if not reserved: return self._terminal(…)`
abbrev pub if_reserved :
    RolePolicy
    → SteeringDecision
    → String
    → Bool × List Attempt
    → Raises SteeringDecision × List Attempt
if_reserved p decision rule (true, after) = (returns decision, after)
if_reserved p decision rule (false, after) = (terminal p decision.phase rule, after)

-- A guide is reserved; any other decision stands.
unfoldable pub reserve_guide :
    RolePolicy
    → SteeringDecision
    → String
    → (List Attempt → Bool × List Attempt)
    → List Attempt
    → Raises SteeringDecision × List Attempt
unfolding terminal
reserve_guide p decision rule reserve rows =
    if is_guide decision.kind
    then if_reserved p decision rule (reserve rows)
    else (returns decision, rows)

abbrev pub with_guide :
    RolePolicy
    → String
    → (List Attempt → Bool × List Attempt)
    → List Attempt
    → Raises SteeringDecision
    → Raises SteeringDecision × List Attempt
with_guide p rule reserve rows (raises e) = (raises e, rows)
with_guide p rule reserve rows (returns decision) = reserve_guide p decision rule reserve rows

abbrev pub refine :
    RolePolicy
    → Option (SteeringDecision → Judged)
    → Raises SteeringDecision
    → Raises SteeringDecision
refine p judge (raises e) = raises e
refine p judge (returns decision) = returns (apply_judge p judge decision)

module _ (posix_path : String → String) (repr : Json → String) where
  -- `evaluate_tool_shadow`
  unfoldable pub evaluate_tool_shadow :
      RolePolicy
      → SteeringRuntime
      → Option DraftScope
      → String
      → Fields
      → Option (SteeringDecision → Judged)
      → Raises SteeringDecision
  unfolding evaluate_tool apply_judge
  evaluate_tool_shadow p runtime draft tool call judge =
      refine p judge (evaluate_tool posix_path repr p runtime draft tool call)

  -- `evaluate_tool_async`
  unfoldable pub evaluate_tool_async :
      RolePolicy
      → SteeringRuntime
      → Option DraftScope
      → String
      → Fields
      → Option (SteeringDecision → Judged)
      → List Attempt
      → Raises SteeringDecision × List Attempt
  unfolding evaluate_tool apply_judge reserve_guide reserve_for_tool
  evaluate_tool_async p runtime draft tool call judge rows =
      with_guide p "limit:tool_guides" (reserve_for_tool runtime tool) rows
        (refine p judge (evaluate_tool posix_path repr p runtime draft tool call))

-- `evaluate_model_shadow`
unfoldable pub evaluate_model_shadow :
    RolePolicy
    → SteeringRuntime
    → Fields
    → String
    → Option (SteeringDecision → Judged)
    → SteeringDecision
unfolding evaluate_model apply_judge
evaluate_model_shadow p runtime message stop_reason judge =
    apply_judge p judge (evaluate_model p runtime message stop_reason)

-- `evaluate_model_async`
unfoldable pub evaluate_model_async :
    RolePolicy
    → SteeringRuntime
    → Fields
    → String
    → Option (SteeringDecision → Judged)
    → List Attempt
    → Raises SteeringDecision × List Attempt
unfolding evaluate_model apply_judge reserve_guide reserve_for_model
evaluate_model_async p runtime message stop_reason judge rows =
    reserve_guide p (apply_judge p judge (evaluate_model p runtime message stop_reason))
      "limit:model_guides" (reserve_for_model runtime) rows

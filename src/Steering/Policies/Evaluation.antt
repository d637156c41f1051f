-- ===== src/Steering/Policies/Evaluation.antt =====
-- `RolePolicy._evaluate_tool` and `_evaluate_model`, the judge and the terminal modes.
use draftly_agent_backend.Prelude.{
  String, append_str, Bool, true, false, ◌&&◌, ◌||◌, not, Option, none, some, ◌++◌, contains, ◌==◌,
  string_eq, if◌then◌else◌, Json, Fields, get_field,
}
use draftly_agent_backend.Prelude.{is_given}
use draftly_agent_backend.Steering.Decisions.{
  AgentRole, SteeringPhase, SteeringDecision, Raises, returns, raises, to_proceed, to_interrupt,
  is_interrupt, same_phase, is_writer,
}
use draftly_agent_backend.Steering.Policies.{RolePolicy, FailureMode, is_side_effect_tool}
use draftly_agent_backend.Steering.Policies.Runtime.{
  SteeringRuntime, Failure, guide_for, interrupt_for,
}
use draftly_agent_backend.Steering.Policies.Checks.{
  check_scope, check_side_effect_scope, check_idempotency, check_arguments, check_destination,
  missing_evidence,
}
use draftly_agent_backend.Steering.Policies.Writers.{check_writer_assignment}
use draftly_agent_backend.Steering.Reads.{DraftScope}

-- `if failure is not None: return _guide(…)`
abbrev pub or_guide :
    SteeringRuntime → Option Failure → Raises SteeringDecision → Raises SteeringDecision
or_guide runtime none rest = rest
or_guide runtime (some failure) rest = returns (guide_for runtime failure)

-- `if failure is not None: return _interrupt(…)`
abbrev pub or_interrupt :
    SteeringRuntime → Option Failure → Raises SteeringDecision → Raises SteeringDecision
or_interrupt runtime none rest = rest
or_interrupt runtime (some failure) rest = interrupt_for runtime failure

abbrev pub or_raise :
    SteeringRuntime → Raises (Option Failure) → Raises SteeringDecision → Raises SteeringDecision
or_raise runtime (raises e) rest = raises e
or_raise runtime (returns failure) rest = or_interrupt runtime failure rest

-- `_scope_failure`
abbrev pub or_scope_failure :
    RolePolicy
    → SteeringRuntime
    → String
    → Option Failure
    → Raises SteeringDecision
    → Raises SteeringDecision
or_scope_failure p runtime tool none rest = rest
or_scope_failure p runtime tool (some failure) rest =
    if p.side_effecting && is_side_effect_tool p tool
    then interrupt_for runtime failure
    else returns (guide_for runtime failure)

-- The checks after those of the tool's class.
unfoldable pub evaluate_arguments :
    RolePolicy → SteeringRuntime → String → Fields → Raises SteeringDecision
unfolding check_arguments missing_evidence check_destination
evaluate_arguments p runtime tool call = or_guide runtime (check_arguments p tool call) (
    or_guide runtime (missing_evidence p tool call) (
      or_guide runtime (check_destination p tool call) (
        returns (
          to_proceed SteeringPhase.before_tool "deterministic policy ok" (some p.role)
            "policy:ok"))))

module _ (posix_path : String → String) (repr : Json → String) where
  -- The checks of the tool's class, and the rest.
  unfoldable pub evaluate_class :
      RolePolicy → SteeringRuntime → String → Fields → Raises SteeringDecision
  unfolding check_side_effect_scope check_idempotency check_scope evaluate_arguments
      is_side_effect_tool
  evaluate_class p runtime tool call =
      let rest = evaluate_arguments p runtime tool call in
      if is_side_effect_tool p tool
      then or_interrupt runtime (check_side_effect_scope posix_path repr p runtime.scope tool call)
          (or_raise runtime (check_idempotency call) rest)
      else if contains (p.read_tools ++ p.search_tools ++ p.write_tools) tool
      then or_scope_failure p runtime tool (check_scope posix_path runtime.scope tool call) rest
      else rest

  abbrev writer_check : RolePolicy → Option DraftScope → String → Fields → Option Failure
  writer_check p draft tool call =
      if is_writer p.role then check_writer_assignment repr draft tool call else none

  -- `_evaluate_tool`, in the current draft scope.
  unfoldable pub evaluate_tool :
      RolePolicy → SteeringRuntime → Option DraftScope → String → Fields → Raises SteeringDecision
  unfolding evaluate_class check_writer_assignment
  evaluate_tool p runtime draft tool call =
      or_guide runtime (writer_check p draft tool call) (evaluate_class p runtime tool call)

abbrev pub is_unsafe_stop : String → Bool
is_unsafe_stop s =
    s == "content_filtered" || s == "guardrail_intervened" || s == "limit_total_tokens"

abbrev pub writes_text : AgentRole → Bool
writes_text AgentRole.writer = true
writes_text AgentRole.recommender = true
writes_text AgentRole.reviewer = true
writes_text _ = false

-- `_evaluate_model`
unfoldable pub evaluate_model : RolePolicy → SteeringRuntime → Fields → String → SteeringDecision
evaluate_model p runtime message stop_reason =
    if is_unsafe_stop stop_reason
    then guide_for runtime
        ("model:unsafe-stop", append_str "unsafe model stop reason '" (append_str stop_reason "'"))
    else if writes_text p.role && not (is_given (get_field "content" message))
    then guide_for runtime ("model:empty-output", "model returned empty content for a writing role")
    else to_proceed SteeringPhase.after_model "deterministic model policy ok" (some p.role)
        "policy:model-ok"

-- What a judge does with a decision: it raises, or answers a decision or `None`.
pub data Judged : Type 0 where
  judge_raised : Judged
  judge_answered : Option SteeringDecision → Judged

abbrev pub refined_by : SteeringDecision → Judged → SteeringDecision
refined_by decision judge_raised = decision
refined_by decision (judge_answered none) = decision
refined_by decision (judge_answered (some refined)) =
    if same_phase refined.phase decision.phase then refined else decision

-- `_apply_judge`
unfoldable pub apply_judge :
    RolePolicy → Option (SteeringDecision → Judged) → SteeringDecision → SteeringDecision
apply_judge p none decision = decision
apply_judge p (some judge) decision =
    if not p.judge_enabled
    then decision
    else if is_interrupt decision.kind
    then decision
    else refined_by decision (judge decision)

abbrev pub exhausted_by : FailureMode → AgentRole → SteeringPhase → String → Raises SteeringDecision
exhausted_by FailureMode.interrupt role phase rule =
    to_interrupt phase (append_str "steering budget exhausted in rule '" (append_str rule "'"))
      (some role) rule
exhausted_by FailureMode.proceed role phase rule = returns (
    to_proceed phase
      (append_str "steering budget exhausted in rule '"
        (append_str rule "'; failing open for read-only role"))
      (some role) rule)

-- `_terminal`
unfoldable pub terminal : RolePolicy → SteeringPhase → String → Raises SteeringDecision
terminal p phase rule = exhausted_by p.failure_mode p.role phase rule

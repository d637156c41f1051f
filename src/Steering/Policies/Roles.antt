-- ===== src/Steering/Policies/Roles.antt =====
-- The roles of the matrix: which are never interrupted, and that no model turn raises.
use draftly_agent_backend.Prelude.{
  String, Bool, true, false, ◌&&◌, not, ◌≡◌, refl, sym, inl, inr, ◌⊎◌, Option, none, some, List,
  ◌++◌, contains, string_eq, Json, Fields, get_field, arith, Bool-cases,
}
use mathlib.Core.Path.{subst}
use draftly_agent_backend.Prelude.{is_given}
use draftly_agent_backend.Steering.Attempts.{Attempt}
use draftly_agent_backend.Steering.Decisions.{
  AgentRole, SteeringPhase, SteeringDecision, Raises, returns, raises, is_guide, is_interrupt,
  is_writer,
}
use draftly_agent_backend.Steering.Policies.{
  RolePolicy, FailureMode, is_side_effect_tool, policy_for,
}
use draftly_agent_backend.Steering.Policies.Runtime.{SteeringRuntime, Failure}
use draftly_agent_backend.Steering.Policies.Checks.{
  check_scope, check_arguments, check_destination, missing_evidence,
}
use draftly_agent_backend.Steering.Policies.Writers.{check_writer_assignment}
use draftly_agent_backend.Steering.Policies.Evaluation.{
  Judged, apply_judge, terminal, exhausted_by, evaluate_tool, evaluate_class, evaluate_arguments,
  evaluate_model, or_guide, or_scope_failure, is_unsafe_stop, writes_text,
}
use draftly_agent_backend.Steering.Policies.Guides.{
  reserve_for_tool, reserve_for_model, if_reserved, reserve_guide, with_guide, refine,
  evaluate_tool_async, evaluate_model_async,
}
use draftly_agent_backend.Steering.Reads.{DraftScope}

-- An answer that neither raises nor interrupts.
abbrev pub is_calm : Raises SteeringDecision → Bool
is_calm (raises e) = false
is_calm (returns d) = not (is_interrupt d.kind)

or_guide-calm :
    (runtime : SteeringRuntime) (f : Option Failure) (rest : Raises SteeringDecision)
    → is_calm rest ≡ true
    → is_calm (or_guide runtime f rest) ≡ true
or_guide-calm runtime none rest h = h
or_guide-calm runtime (some f) rest h = refl

evaluate_arguments-calm :
    (p : RolePolicy) (runtime : SteeringRuntime) (tool : String) (call : Fields)
    → is_calm (evaluate_arguments p runtime tool call) ≡ true
unfolding evaluate_arguments
evaluate_arguments-calm p runtime tool call =
    or_guide-calm runtime (check_arguments p tool call) _ (
      or_guide-calm runtime (missing_evidence p tool call) _
        (or_guide-calm runtime (check_destination p tool call) _ refl))

scope_failure-calm :
    (p : RolePolicy) (runtime : SteeringRuntime) (tool : String) (f : Option Failure)
    (rest : Raises SteeringDecision)
    → is_side_effect_tool p tool ≡ false
    → is_calm rest ≡ true
    → is_calm (or_scope_failure p runtime tool f rest) ≡ true
scope_failure-calm p runtime tool none rest h k = k
scope_failure-calm p runtime tool (some f) rest h k =
    rw h (elim (Bool-cases p.side_effecting) [ inl e ↦ rw e refl | inr e ↦ rw e refl ])

module _ (posix_path : String → String) (repr : Json → String) (p : RolePolicy)
    (runtime : SteeringRuntime) (tool : String) (call : Fields) where
  evaluate_class-calm :
      is_side_effect_tool p tool ≡ false
      → is_calm (evaluate_class posix_path repr p runtime tool call) ≡ true
  unfolding evaluate_class
  evaluate_class-calm h =
      let rest = evaluate_arguments-calm p runtime tool call in
      elim (Bool-cases (contains (p.read_tools ++ p.search_tools ++ p.write_tools) tool)) [
        | inl e ↦
            rw (h, e)
              (scope_failure-calm p runtime tool (check_scope posix_path runtime.scope tool call) _
                h rest)
        | inr e ↦ rw (h, e) rest
      ]

  evaluate_tool-calm :
      (draft : Option DraftScope)
      → is_side_effect_tool p tool ≡ false
      → is_calm (evaluate_tool posix_path repr p runtime draft tool call) ≡ true
  unfolding evaluate_tool
  evaluate_tool-calm draft h = elim (Bool-cases (is_writer p.role)) [
    | inl e ↦ rw e (
        or_guide-calm runtime (check_writer_assignment repr draft tool call) _
          (evaluate_class-calm h))
    | inr e ↦ rw e (evaluate_class-calm h)
  ]

-- Where an exhausted budget fails open, the reservation of a guide changes no answer to an interrupt.
reserve_guide-calm :
    (p : RolePolicy) (d : SteeringDecision) (rule : String)
    (reserve : List Attempt → Bool × List Attempt) (rows : List Attempt)
    → p.failure_mode ≡ FailureMode.proceed
    → is_interrupt d.kind ≡ false
    → is_calm (reserve_guide p d rule reserve rows).0 ≡ true
unfolding reserve_guide terminal
reserve_guide-calm p d rule reserve rows lenient h = elim (Bool-cases (is_guide d.kind)) [
  | inr e ↦ rw e (rw h refl)
  | inl e ↦ rw e (go (reserve rows))
]
  where
    go : (q : Bool × List Attempt) → is_calm (if_reserved p d rule q).0 ≡ true
    go (true, after) = rw h refl
    go (false, after) = rw lenient refl

with_guide-calm :
    (p : RolePolicy) (rule : String) (reserve : List Attempt → Bool × List Attempt)
    (rows : List Attempt) (answer : Raises SteeringDecision)
    → p.failure_mode ≡ FailureMode.proceed
    → is_calm answer ≡ true
    → is_calm (with_guide p rule reserve rows (refine p none answer)).0 ≡ true
unfolding apply_judge
with_guide-calm p rule reserve rows (raises e) lenient h = absurd (ground arith)
with_guide-calm p rule reserve rows (returns d) lenient h =
    reserve_guide-calm p d rule reserve rows lenient (ground arith)

-- A read-only role of the matrix has no side-effect tool, and fails open.
read_only_role :
    (role : AgentRole) (tool : String)
    → (policy_for role).side_effecting ≡ false
    → (is_side_effect_tool (policy_for role) tool ≡ false)
      × ((policy_for role).failure_mode ≡ FailureMode.proceed)
unfolding policy_for is_side_effect_tool
read_only_role AgentRole.delivery tool h = absurd (ground arith)
read_only_role AgentRole.support tool h = absurd (ground arith)
read_only_role AgentRole.writer tool h = (refl, refl)
read_only_role AgentRole.reviewer tool h = (refl, refl)
read_only_role AgentRole.research tool h = (refl, refl)
read_only_role AgentRole.classifier tool h = (refl, refl)
read_only_role AgentRole.recommender tool h = (refl, refl)
read_only_role AgentRole.judge tool h = (refl, refl)

-- A read-only role of the matrix is never interrupted at a tool, and its evaluation never raises,
-- where no judge has a say: whatever the call, the draft scope and the table of attempts.
pub read_only_never_interrupted :
    (posix_path : String → String) (repr : Json → String) (role : AgentRole)
    (runtime : SteeringRuntime) (draft : Option DraftScope) (tool : String) (call : Fields)
    (rows : List Attempt)
    → (policy_for role).side_effecting ≡ false
    → is_calm
        (evaluate_tool_async posix_path repr (policy_for role) runtime draft tool call none rows).0
      ≡ true
unfolding evaluate_tool_async
read_only_never_interrupted posix_path repr role runtime draft tool call rows h =
    let (harmless, lenient) = read_only_role role tool h in
    with_guide-calm (policy_for role) "limit:tool_guides" (reserve_for_tool runtime tool) rows
      (evaluate_tool posix_path repr (policy_for role) runtime draft tool call) lenient
      (evaluate_tool-calm posix_path repr (policy_for role) runtime tool call draft harmless)

-- A guide of the model's checks is in the phase of the tools.
model_guide_phase :
    (p : RolePolicy) (runtime : SteeringRuntime) (message : Fields) (stop_reason : String)
    → is_guide (evaluate_model p runtime message stop_reason).kind ≡ true
    → (evaluate_model p runtime message stop_reason).phase ≡ SteeringPhase.before_tool
unfolding evaluate_model
model_guide_phase p runtime message stop_reason h = elim (Bool-cases (is_unsafe_stop stop_reason)) [
  | inl e ↦ rw e refl
  | inr e ↦ elim (Bool-cases (writes_text p.role && not (is_given (get_field "content" message)))) [
    | inl k ↦ rw (e, k) refl
    | inr k ↦ absurd (ground (arith, rw (e, k) at h))
  ]
]

exhausted_returns :
    (mode : FailureMode) (role : AgentRole) (phase : SteeringPhase) (rule : String)
    → (mode ≡ FailureMode.proceed) ⊎ (phase ≡ SteeringPhase.before_tool)
    → (answer : SteeringDecision) × (exhausted_by mode role phase rule ≡ returns answer)
exhausted_returns FailureMode.proceed role phase rule h = (_, refl)
exhausted_returns FailureMode.interrupt role SteeringPhase.before_tool rule h = (_, refl)
exhausted_returns FailureMode.interrupt role SteeringPhase.after_model rule (inl e) =
    absurd (ground arith)
exhausted_returns FailureMode.interrupt role SteeringPhase.after_model rule (inr e) =
    absurd (ground arith)

-- A reservation returns where it fails open, or where the guide is not of the model's phase.
reserve_guide-returns :
    (p : RolePolicy) (d : SteeringDecision) (rule : String)
    (reserve : List Attempt → Bool × List Attempt) (rows : List Attempt)
    → (p.failure_mode ≡ FailureMode.proceed)
      ⊎ (is_guide d.kind ≡ true → d.phase ≡ SteeringPhase.before_tool)
    → (answer : SteeringDecision) × ((reserve_guide p d rule reserve rows).0 ≡ returns answer)
unfolding reserve_guide terminal
reserve_guide-returns p d rule reserve rows h = elim (Bool-cases (is_guide d.kind)) [
  | inr e ↦ (d, rw e refl)
  | inl e ↦ rw e (go e h (reserve rows))
]
  where
    go :
        is_guide d.kind ≡ true
        → (p.failure_mode ≡ FailureMode.proceed)
          ⊎ (is_guide d.kind ≡ true → d.phase ≡ SteeringPhase.before_tool)
        → (q : Bool × List Attempt)
        → (answer : SteeringDecision) × ((if_reserved p d rule q).0 ≡ returns answer)
    go e h (true, after) = (d, refl)
    go e (inl lenient) (false, after) =
        exhausted_returns p.failure_mode p.role d.phase rule (inl lenient)
    go e (inr early) (false, after) =
        exhausted_returns p.failure_mode p.role d.phase rule (inr (early e))

-- The roles that fail closed have no judge.
strict_role :
    (role : AgentRole)
    → ((policy_for role).failure_mode ≡ FailureMode.proceed)
      ⊎ ((policy_for role).judge_enabled ≡ false)
unfolding policy_for
strict_role AgentRole.delivery = inr refl
strict_role AgentRole.support = inr refl
strict_role AgentRole.writer = inl refl
strict_role AgentRole.reviewer = inl refl
strict_role AgentRole.research = inl refl
strict_role AgentRole.classifier = inl refl
strict_role AgentRole.recommender = inl refl
strict_role AgentRole.judge = inl refl

apply_judge-disabled :
    (p : RolePolicy) (judge : Option (SteeringDecision → Judged)) (d : SteeringDecision)
    → p.judge_enabled ≡ false
    → apply_judge p judge d ≡ d
unfolding apply_judge
apply_judge-disabled p none d h = refl
apply_judge-disabled p (some judge) d h = rw h refl

-- The evaluation of a model turn returns a decision for every role of the matrix, with any judge,
-- message and table of attempts: the `ValueError` of an interrupted model is never raised.
pub model_returns :
    (role : AgentRole) (runtime : SteeringRuntime) (message : Fields) (stop_reason : String)
    (judge : Option (SteeringDecision → Judged)) (rows : List Attempt)
    → (answer : SteeringDecision) × ((evaluate_model_async
          (policy_for role)
          runtime
          message
          stop_reason
          judge
          rows).0
        ≡ returns answer)
unfolding evaluate_model_async
model_returns role runtime message stop_reason judge rows =
    let p = policy_for role in
    let base = evaluate_model p runtime message stop_reason in
    reserve_guide-returns p (apply_judge p judge base) "limit:model_guides"
      (reserve_for_model runtime) rows
      (elim (strict_role role) [
        | inl lenient ↦ inl lenient
        | inr off ↦ inr (
            subst
              (λ (d : SteeringDecision).
                is_guide d.kind ≡ true → d.phase ≡ SteeringPhase.before_tool)
              (sym (apply_judge-disabled p judge base off))
              (model_guide_phase p runtime message stop_reason))
      ])

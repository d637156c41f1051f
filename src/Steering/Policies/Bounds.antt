-- ===== src/Steering/Policies/Bounds.antt =====
-- How many guides an agent is given.
use Prim.Native.Nat.{max}
use draftly_agent_backend.Prelude.{
  ℕ, ◌+◌, ◌≤◌, String, Bool, true, false, ◌≡◌, refl, sym, ap, ◌∙◌, inl, inr, ◌⊎◌, Option, some,
  List, [], ◌∷◌, ◌==◌, nat_eq, string_eq, if◌then◌else◌, Json, Fields, arith, Bool-cases,
}
use draftly_agent_backend.Steering.Attempts.{AttemptKey, Attempt, reserve, reserve_with_total}
use draftly_agent_backend.Steering.Budgets.{
  spent, spent_other, reserve_with_total_granted, reserve_with_total_denied,
}
use draftly_agent_backend.Steering.Decisions.{
  SteeringPhase, SteeringDecision, Raises, returns, raises, is_guide,
}
use draftly_agent_backend.Steering.Policies.{RolePolicy, SteeringLimits, FailureMode}
use draftly_agent_backend.Steering.Policies.Runtime.{SteeringRuntime, AgentIdentity}
use draftly_agent_backend.Steering.Policies.Evaluation.{
  Judged, apply_judge, terminal, exhausted_by, evaluate_tool, evaluate_model,
}
use draftly_agent_backend.Steering.Policies.Guides.{
  guide_key, total_key, reserve_tool_guide, reserve_model_guide, reserve_for_tool,
  reserve_for_model, if_reserved, reserve_guide, with_guide, refine, evaluate_tool_async,
  evaluate_model_async,
}
use draftly_agent_backend.Steering.Reads.{DraftScope}

abbrev pub gives_guide : Raises SteeringDecision → ℕ
gives_guide (raises e) = 0
gives_guide (returns decision) = if is_guide decision.kind then 1 else 0

abbrev Granted : Type 0
Granted = Bool × List Attempt

-- What an evaluation did to the total of its agent: it gave no guide and left the total, or it gave
-- one, counted it and kept the bound.
abbrev Counted : AttemptKey → ℕ → List Attempt → Raises SteeringDecision × List Attempt → Type 0
Counted total limit rows (answer, after) =
    ((gives_guide answer ≡ 0) × (spent total after ≡ spent total rows))
    ⊎ ((gives_guide answer ≡ 1)
        × (spent total after ≡ spent total rows + 1)
        × (spent total after ≤ max 1 limit))

terminal_no_guide :
    (p : RolePolicy) (phase : SteeringPhase) (rule : String)
    → gives_guide (terminal p phase rule) ≡ 0
unfolding terminal
terminal_no_guide p phase rule = go p.failure_mode phase
  where
    go :
        (mode : FailureMode) (phase : SteeringPhase)
        → gives_guide (exhausted_by mode p.role phase rule) ≡ 0
    go FailureMode.interrupt SteeringPhase.before_tool = refl
    go FailureMode.interrupt SteeringPhase.after_model = refl
    go FailureMode.proceed phase = refl

-- A reservation of two counters, the second of which is the total.
total_counted :
    (key total : AttemptKey) (limit total_limit : ℕ) (rows : List Attempt)
    → (key.phase == total.phase) ≡ false
    → (reserve_with_total key limit total total_limit rows).0 ≡ true
    → let after = (reserve_with_total key limit total total_limit rows).1 in
      (spent total after ≡ spent total rows + 1) × (spent total after ≤ max 1 total_limit)
total_counted key total limit total_limit rows differs h =
    let (_, _, _, _, counted, within) =
      reserve_with_total_granted key limit total total_limit rows h in
    (omega (arith, counted, spent_other key total limit rows (ground (arith, differs))), within)

reserve_guide-Counted :
    (p : RolePolicy) (decision : SteeringDecision) (rule : String) (key total : AttemptKey)
    (limit total_limit : ℕ) (reserve : List Attempt → Bool × List Attempt) (rows : List Attempt)
    → (key.phase == total.phase) ≡ false
    → reserve rows ≡ reserve_with_total key limit total total_limit rows
    → Counted total total_limit rows (reserve_guide p decision rule reserve rows)
unfolding reserve_guide
reserve_guide-Counted p decision rule key total limit total_limit reserve rows differs same =
    elim (Bool-cases (is_guide decision.kind)) [
      | inr e ↦ rw e (inl (rw e, refl))
      | inl e ↦ rw e (go e (reserve rows) (sym same))
    ]
  where
    go :
        is_guide decision.kind ≡ true
        → (q : Bool × List Attempt) → reserve_with_total key limit total total_limit rows ≡ q
        → Counted total total_limit rows (if_reserved p decision rule q)
    go is (true, after) e =
        let (counted, within) =
          total_counted key total limit total_limit rows differs (ap (λ (q : Granted). q.0) e) in
        let same = ap (λ (q : Granted). spent total q.1) e in
        inr (rw is, sym same ∙ counted, omega (arith, within, same))
    go is (false, after) e =
        let kept =
          reserve_with_total_denied key limit total total_limit rows
            (ap (λ (q : Granted). q.0) e) in
        inl (
          terminal_no_guide p decision.phase rule,
          ap (spent total) (sym (ap (λ (q : Granted). q.1) e) ∙ kept),
        )

-- What an agent does, at a node of the graph, and what is known of it there.
pub data Event : Type 0 where
  tool_call :
      String → Option DraftScope → String → Fields → Option (SteeringDecision → Judged) → Event
  model_turn : String → Fields → String → Option (SteeringDecision → Judged) → Event

module _ (posix_path : String → String) (repr : Json → String) (p : RolePolicy)
    (runtime : SteeringRuntime) where
  -- The runtime of an agent at a node: `SteeringRuntime.for_agent`.
  abbrev at_node : AgentIdentity → String → SteeringRuntime
  at_node identity node = record runtime { identity = some (record identity { node_id = node }) }

  abbrev pub evaluate :
      AgentIdentity → Event → List Attempt → Raises SteeringDecision × List Attempt
  evaluate identity (tool_call node draft tool call judge) rows =
      evaluate_tool_async posix_path repr p (at_node identity node) draft tool call judge rows
  evaluate identity (model_turn node message stop_reason judge) rows =
      evaluate_model_async p (at_node identity node) message stop_reason judge rows

  -- The guides that a sequence of evaluations gives.
  abbrev pub guides : AgentIdentity → List Event → List Attempt → ℕ
  guides identity [] rows = 0
  guides identity (event ∷ events) rows =
      let (answer, after) = evaluate identity event rows in
      gives_guide answer + guides identity events after

  -- An evaluation at a node counts in the total of its agent.
  evaluate-Counted :
      (identity : AgentIdentity) (limits : SteeringLimits) (event : Event) (rows : List Attempt)
      → runtime.attempts ≡ some limits
      → Counted
          (total_key identity.run_id identity.agent_id)
          limits.total_guides_per_agent
          rows
          (evaluate identity event rows)
  unfolding evaluate_tool_async evaluate_model_async reserve_for_tool reserve_for_model
      reserve_tool_guide reserve_model_guide
  evaluate-Counted identity limits (tool_call node draft tool call judge) rows sink =
      go (refine p judge (evaluate_tool posix_path repr p (at_node identity node) draft tool call))
    where
      go :
          (decision : Raises SteeringDecision)
          → Counted
              (total_key identity.run_id identity.agent_id)
              limits.total_guides_per_agent
              rows
              (with_guide p "limit:tool_guides"
                (reserve_for_tool (at_node identity node) tool)
                rows
                decision)
      go (raises e) = inl (refl, refl)
      go (returns decision) =
          reserve_guide-Counted p decision "limit:tool_guides"
            (guide_key identity.run_id identity.agent_id node "tool" tool)
            (total_key identity.run_id identity.agent_id) limits.tool_guides_per_call
            limits.total_guides_per_agent (reserve_for_tool (at_node identity node) tool) rows refl
            (rw (reserve_for_tool, sink) refl)
  evaluate-Counted identity limits (model_turn node message stop_reason judge) rows sink =
      reserve_guide-Counted p
        (apply_judge p judge (evaluate_model p (at_node identity node) message stop_reason))
        "limit:model_guides" (guide_key identity.run_id identity.agent_id node "model" "")
        (total_key identity.run_id identity.agent_id) limits.model_guides_per_turn
        limits.total_guides_per_agent (reserve_for_model (at_node identity node)) rows refl
        (rw (reserve_for_model, sink) refl)

  -- The guides of an agent stay within its total, whatever was counted before.
  guides_within :
      (identity : AgentIdentity) (limits : SteeringLimits) (events : List Event)
      (rows : List Attempt)
      → runtime.attempts ≡ some limits
      → (guides identity events rows ≡ 0)
        ⊎ (guides identity events rows + spent (total_key identity.run_id identity.agent_id) rows
            ≤ max 1 limits.total_guides_per_agent)
  guides_within identity limits [] rows sink = inl refl
  guides_within identity limits (event ∷ events) rows sink =
      let rest = guides_within identity limits events (evaluate identity event rows).1 sink in
      elim (evaluate-Counted identity limits event rows sink) [
        | inl (silent, kept) ↦ elim rest [
          | inl no_more ↦ inl (omega (arith, silent, no_more))
          | inr within ↦ inr (omega (arith, silent, kept, within))
        ]
        | inr (one, counted, bounded) ↦ elim rest [
          | inl no_more ↦ inr (omega (arith, one, no_more, counted, bounded))
          | inr within ↦ inr (omega (arith, one, counted, within))
        ]
      ]

-- Over any tool calls and model turns of one agent, at any nodes and with any judges, a runtime with a
-- sink of attempts gives the agent no more guides than the total of the limits allows, or one.
pub guides_bounded :
    (posix_path : String → String) (repr : Json → String) (p : RolePolicy)
    (runtime : SteeringRuntime) (identity : AgentIdentity) (limits : SteeringLimits)
    (events : List Event) (rows : List Attempt)
    → runtime.attempts ≡ some limits
    → guides posix_path repr p runtime identity events rows ≤ max 1 limits.total_guides_per_agent
guides_bounded posix_path repr p runtime identity limits events rows sink =
    elim (guides_within posix_path repr p runtime identity limits events rows sink) [
      | inl silent ↦ omega (arith, silent)
      | inr within ↦ omega (arith, within)
    ]

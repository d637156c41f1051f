-- ===== src/Steering/Policies/Safety.antt =====
-- What a tool call that goes on has passed, and which roles are never stopped.
use draftly_agent_backend.Prelude.{
  String, is_empty, strip, Bool, true, false, ◌≡◌, refl, sym, ap, ◌∙◌, inl, inr, Option, none, some,
  List, string_eq, Json, null, bool, int, number, str, array, object, Fields, arith, Bool-cases,
  Option-cases,
}
use draftly_agent_backend.Prelude.{is_nonblank}
use draftly_agent_backend.Steering.Attempts.{Attempt}
use draftly_agent_backend.Steering.Decisions.{
  DecisionKind, SteeringDecision, Raises, returns, raises, Crash, is_guide, is_interrupt, is_writer,
}
use draftly_agent_backend.Steering.Policies.{RolePolicy, is_side_effect_tool}
use draftly_agent_backend.Steering.Policies.Runtime.{
  SteeringRuntime, RuntimeScope, Failure, interrupt_for,
}
use draftly_agent_backend.Steering.Policies.Checks.{
  check_scope, check_side_effect_scope, check_idempotency, idempotency_of, needs_key,
  is_other_project, is_other_repo, destination_of, scope_failed,
}
use draftly_agent_backend.Prelude.{get_field, ◌⊎◌, ◌++◌, contains}
use draftly_agent_backend.Steering.Policies.Destinations.{
  IsNamed, IsAuthorized, IsOwnProject, destination-IsNamed, destination-IsAuthorized,
  project-IsOwnProject, paths_lem,
}
use draftly_agent_backend.Steering.Policies.Evaluation.{
  Judged, apply_judge, evaluate_tool, evaluate_class, evaluate_arguments, or_interrupt, or_raise,
}
use draftly_agent_backend.Steering.Policies.Guides.{
  reserve_for_tool, reserve_guide, evaluate_tool_async,
}
use draftly_agent_backend.Steering.Reads.{DraftScope}

-- Whether an answer is an interrupt.
abbrev stops : Raises SteeringDecision → Bool
stops (raises e) = false
stops (returns d) = is_interrupt d.kind

crash_apart : (e : Crash) (d : SteeringDecision) → raises e ≡ returns d → ⊥
crash_apart e d h = ground arith

-- No judge changes an interrupt.
apply_judge-interrupt :
    (p : RolePolicy) (judge : Option (SteeringDecision → Judged)) (d : SteeringDecision)
    → is_interrupt d.kind ≡ true
    → apply_judge p judge d ≡ d
unfolding apply_judge
apply_judge-interrupt p none d h = refl
apply_judge-interrupt p (some judge) d h = ground arith

-- No guide is reserved for an interrupt.
reserve_guide-interrupt :
    (p : RolePolicy) (d : SteeringDecision) (rule : String)
    (reserve : List Attempt → Bool × List Attempt) (rows : List Attempt)
    → is_interrupt d.kind ≡ true
    → reserve_guide p d rule reserve rows ≡ (returns d, rows)
unfolding reserve_guide
reserve_guide-interrupt p d rule reserve rows h = rw (no_guide d.kind h) refl
  where
    no_guide : (kind : DecisionKind) → is_interrupt kind ≡ true → is_guide kind ≡ false
    no_guide kind k = ground arith

module _ (posix_path : String → String) (repr : Json → String) (p : RolePolicy)
    (runtime : SteeringRuntime) (draft : Option DraftScope) (tool : String) (call : Fields)
    (judge : Option (SteeringDecision → Judged)) (rows : List Attempt) where
  -- An interrupt stands.
  interrupt_stands :
      (d : SteeringDecision)
      → is_interrupt d.kind ≡ true
      → evaluate_tool posix_path repr p runtime draft tool call ≡ returns d
      → (evaluate_tool_async posix_path repr p runtime draft tool call judge rows).0 ≡ returns d
  unfolding evaluate_tool_async
  interrupt_stands d h e =
      rw
        (
          e,
          apply_judge-interrupt p judge d h,
          reserve_guide-interrupt p d "limit:tool_guides" (reserve_for_tool runtime tool) rows h,
        )
        refl

  crash_stands :
      (e : Crash)
      → evaluate_tool posix_path repr p runtime draft tool call ≡ raises e
      → (evaluate_tool_async posix_path repr p runtime draft tool call judge rows).0 ≡ raises e
  unfolding evaluate_tool_async
  crash_stands e h = rw h refl

  -- The evaluation of a side-effect tool by an agent that is no writer.
  evaluate_side_effect :
      is_side_effect_tool p tool ≡ true
      → is_writer p.role ≡ false
      → evaluate_tool posix_path repr p runtime draft tool call
        ≡ or_interrupt runtime
            (check_side_effect_scope posix_path repr p runtime.scope tool call)
            (or_raise runtime (check_idempotency call) (evaluate_arguments p runtime tool call))
  unfolding evaluate_tool evaluate_class
  evaluate_side_effect effect role = rw (role, effect) refl

  -- A side-effect tool that is not interrupted has passed both checks.
  passed_checks :
      (d : SteeringDecision)
      → is_side_effect_tool p tool ≡ true
      → is_writer p.role ≡ false
      → (evaluate_tool_async posix_path repr p runtime draft tool call judge rows).0 ≡ returns d
      → is_interrupt d.kind ≡ false
      → (check_side_effect_scope posix_path repr p runtime.scope tool call ≡ none)
        × (check_idempotency call ≡ returns none)
  passed_checks d effect role answered goes =
      let evaluated = evaluate_side_effect effect role in
      elim (Option-cases (check_side_effect_scope posix_path repr p runtime.scope tool call)) [
        | inr (f, e) ↦ absurd (stopped f (rw e at evaluated))
        | inl e ↦ (e, keyed (check_idempotency call) refl (rw e at evaluated))
      ]
    where
      stopped :
          (f : Failure)
          → evaluate_tool posix_path repr p runtime draft tool call ≡ interrupt_for runtime f
          → ⊥
      stopped f h =
          let same = ap stops (sym (interrupt_stands _ refl h) ∙ answered) in ground (arith, same)

      keyed :
          (key : Raises (Option Failure))
          → check_idempotency call ≡ key
          → evaluate_tool posix_path repr p runtime draft tool call
            ≡ or_raise runtime (check_idempotency call) (evaluate_arguments p runtime tool call)
          → check_idempotency call ≡ returns none
      keyed (raises c) e h =
          let crashed =
            sym (
              crash_stands c
                (h ∙ ap (λ k. or_raise runtime k (evaluate_arguments p runtime tool call)) e))
            ∙ answered in
          absurd (crash_apart c d crashed)
      keyed (returns none) e h = e
      keyed (returns (some f)) e h =
          absurd (
            stopped f (h ∙ ap (λ k. or_raise runtime k (evaluate_arguments p runtime tool call)) e))

-- A text that is there and is not blank.
nonblank_text :
    (v : Option Json)
    → is_nonblank v ≡ true
    → (s : String) × (v ≡ some (str s)) × (is_empty (strip s) ≡ false)
unfolding is_nonblank
nonblank_text (some (str s)) h = (s, refl, ground arith)
nonblank_text none h = absurd (ground arith)
nonblank_text (some null) h = absurd (ground arith)
nonblank_text (some (bool b)) h = absurd (ground arith)
nonblank_text (some (int n)) h = absurd (ground arith)
nonblank_text (some (number n)) h = absurd (ground arith)
nonblank_text (some (array xs)) h = absurd (ground arith)
nonblank_text (some (object fields)) h = absurd (ground arith)

-- A call that passes the check carries a key.
keyed_call :
    (call : Fields)
    → check_idempotency call ≡ returns none
    → (key : String) × (idempotency_of call ≡ returns (some (str key)))
      × (is_empty (strip key) ≡ false)
unfolding check_idempotency
keyed_call call h = go (idempotency_of call) refl h
  where
    go :
        (v : Raises (Option Json))
        → idempotency_of call ≡ v
        → needs_key v ≡ returns none
        → (key : String) × (idempotency_of call ≡ returns (some (str key)))
          × (is_empty (strip key) ≡ false)
    go (raises e) same k = absurd (ground arith)
    go (returns v) same k = elim (Bool-cases (is_nonblank v)) [
      | inl e ↦
          let (key, is_key, nonblank) = nonblank_text v e in
          (key, same ∙ ap returns is_key, nonblank)
      | inr e ↦ absurd (ground (arith, rw e at k))
    ]

-- A call in scope goes to the run's project, to no other repository, and stays in the checkout.
scoped_call :
    (posix_path : String → String) (repr : Json → String) (p : RolePolicy) (scope : RuntimeScope)
    (tool : String) (call : Fields)
    → check_side_effect_scope posix_path repr p scope tool call ≡ none
    → (is_other_project scope call ≡ false)
      × (is_other_repo scope (destination_of call) ≡ false)
      × (scope_failed p tool (check_scope posix_path scope tool call) ≡ none)
unfolding check_side_effect_scope
scoped_call posix_path repr p scope tool call h = elim (Bool-cases (is_other_project scope call)) [
  | inl e ↦ absurd (ground (arith, rw e at h))
  | inr e ↦ elim (Bool-cases (is_other_repo scope (destination_of call))) [
    | inl k ↦ absurd (ground (arith, rw (e, k) at h))
    | inr k ↦ (e, k, rw (e, k) at h)
  ]
]

-- A call of a side-effect tool that is not interrupted, by an agent that is no writer and with any
-- judge and table of attempts: it carries an idempotency key that is not blank; it gives no project
-- or the run's; the first destination that it gives, if it is a text like a repository, is the run's
-- repository or has another owner and the run's project; and its paths passed the check of the
-- scope, or the tool neither writes nor is a side-effect tool proper.
pub side_effect_safe :
    (posix_path : String → String) (repr : Json → String) (p : RolePolicy)
    (runtime : SteeringRuntime) (draft : Option DraftScope) (tool : String) (call : Fields)
    (judge : Option (SteeringDecision → Judged)) (rows : List Attempt) (d : SteeringDecision)
    → is_side_effect_tool p tool ≡ true
    → is_writer p.role ≡ false
    → (evaluate_tool_async posix_path repr p runtime draft tool call judge rows).0 ≡ returns d
    → is_interrupt d.kind ≡ false
    → ((key : String) × (idempotency_of call ≡ returns (some (str key)))
        × (is_empty (strip key) ≡ false))
      × IsOwnProject runtime.scope (get_field "destination_project" call)
      × ((v : Option Json) × IsNamed call v × IsAuthorized runtime.scope v)
      × ((check_scope posix_path runtime.scope tool call ≡ none)
          ⊎ (contains (p.write_tools ++ p.side_effect_tools) tool ≡ false))
side_effect_safe posix_path repr p runtime draft tool call judge rows d effect role answered goes =
    let (scoped, keyed) =
      passed_checks posix_path repr p runtime draft tool call judge rows d effect role answered
        goes in
    let (project, repo, paths) = scoped_call posix_path repr p runtime.scope tool call scoped in
    (
      keyed_call call keyed,
      project-IsOwnProject runtime.scope call project,
      (
        destination_of call,
        destination-IsNamed call,
        destination-IsAuthorized runtime.scope (destination_of call) repo,
      ),
      paths_lem p tool (check_scope posix_path runtime.scope tool call) paths,
    )

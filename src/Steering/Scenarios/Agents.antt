-- ===== src/Steering/Scenarios/Agents.antt =====
-- A delivery agent and a page writer under steering.
use Prim.Native.Nat.{max}
use draftly_agent_backend.Prelude.{
  ◌≤◌, String, is_empty, strip, starts_with, ends_with, has_char, true, false, ◌≡◌, refl, Option,
  none, some, List, [], ◌∷◌, length, has_duplicate, Json, str, Fields, end, field,
}
use draftly_agent_backend.Prelude.{◌+◌, text_or, is_nonblank, shown}
use draftly_agent_backend.Prelude.{get_field, ◌⊎◌, ◌++◌, contains, string_eq, Option, Json}
use draftly_agent_backend.Steering.Policies.Destinations.{IsNamed, IsAuthorized, IsOwnProject}
use draftly_agent_backend.Steering.Decisions.{
  AgentRole, SteeringPhase, DecisionKind, SteeringDecision, returns,
}
use draftly_agent_backend.Steering.Policies.{policy_for, is_side_effect_tool, default_limits}
use draftly_agent_backend.Steering.Policies.Runtime.{
  AgentIdentity, SteeringRuntime, looks_like_repo,
}
use draftly_agent_backend.Steering.Policies.Checks.{
  check_scope, check_side_effect_scope, check_idempotency, check_arguments, check_destination,
  missing_evidence, idempotency_of, is_other_repo, first_outside,
}
use draftly_agent_backend.Steering.Policies.Evaluation.{
  judge_answered, evaluate_tool, evaluate_class, evaluate_arguments, apply_judge,
}
use draftly_agent_backend.Steering.Policies.Guides.{
  evaluate_tool_async, evaluate_model_async, reserve_guide,
}
use draftly_agent_backend.Steering.Guards.Research.{
  Guard, new, before_invocation, allowed, new_names, research_bounded,
}
use draftly_agent_backend.Steering.Policies.Bounds.{
  Event, tool_call, model_turn, guides, guides_bounded,
}
use draftly_agent_backend.Steering.Policies.Safety.{side_effect_safe}
use draftly_agent_backend.Steering.Policies.Roles.{
  is_calm, read_only_never_interrupted, model_returns,
}
use draftly_agent_backend.Steering.Reads.{
  WriterReadBudget, DraftScope, failure, reserve as reserve_read, reserve_writer_read, read_file,
  writer_read_key, refused, Refusal, over_budget, already_read, texts_eq,
}
use draftly_agent_backend.Steering.Reads.Guard.{before_tool_call, read_key, partition_slash}
use draftly_agent_backend.Steering.Reads.Bounds.{reserve_each, reads_bounded, guarded_read_refused}

abbrev same_path : String → String
same_path path = path

abbrev repr : Json → String
repr v = "{}"

abbrev runtime : SteeringRuntime
runtime = record {
  scope = record {
    run_id = "r";
    surface = "docs";
    org_id = "acme";
    project_id = "authly";
    workflow_key = none;
    repo_checkout_root = some "/work";
  };
  identity =
      some
        (record { run_id = "r"; agent_id = "a"; node_id = "deliver"; role = AgentRole.delivery });
  attempts = some default_limits;
}

abbrev identity : AgentIdentity
identity = record { run_id = "r"; agent_id = "a"; node_id = ""; role = AgentRole.delivery }

abbrev comment : Fields
comment =
    field "repo" (str "acme/authly")
      (field "body" (str "done") (field "idempotency_key" (str "k1") end))

abbrev approved : SteeringDecision
approved = record {
  kind = DecisionKind.proceed;
  phase = SteeringPhase.before_tool;
  reason = "deterministic policy ok";
  role = some AgentRole.delivery;
  rule = "policy:ok";
  interrupt_id = none;
}

side_effect_safe_example :
    ((key : String) × (idempotency_of comment ≡ returns (some (str key)))
      × (is_empty (strip key) ≡ false))
    × IsOwnProject runtime.scope (get_field "destination_project" comment)
    × ((v : Option Json) × IsNamed comment v × IsAuthorized runtime.scope v)
    × ((check_scope same_path runtime.scope "create_comment" comment ≡ none)
        ⊎ (contains
              ((policy_for AgentRole.delivery).write_tools
                ++ (policy_for AgentRole.delivery).side_effect_tools)
              "create_comment"
            ≡ false))
unfolding evaluate_tool_async evaluate_tool evaluate_class policy_for is_side_effect_tool
    check_side_effect_scope is_other_repo looks_like_repo has_char starts_with ends_with check_scope
    first_outside check_idempotency is_nonblank strip check_arguments missing_evidence
    check_destination evaluate_arguments apply_judge reserve_guide
side_effect_safe_example =
    side_effect_safe same_path repr (policy_for AgentRole.delivery) runtime none "create_comment"
      comment none [] approved refl refl refl refl

-- Two comments without a body, and a model turn without content.
abbrev events : List Event
events =
    tool_call "deliver" none "create_comment" (field "idempotency_key" (str "k1") end) none
    ∷ tool_call "deliver" none "create_comment" (field "idempotency_key" (str "k2") end) none
    ∷ model_turn "deliver" end "content_filtered" none
    ∷ []

guides_bounded_example :
    guides same_path repr (policy_for AgentRole.delivery) runtime identity events [] ≤ max 1 7
guides_bounded_example =
    guides_bounded same_path repr (policy_for AgentRole.delivery) runtime identity default_limits
      events [] refl

read_only_never_interrupted_example :
    is_calm
      (evaluate_tool_async same_path repr
        (policy_for AgentRole.research)
        runtime
        none
        "read_file"
        (field "path" (str "/etc/passwd") end)
        none
        []).0
    ≡ true
unfolding policy_for
read_only_never_interrupted_example =
    read_only_never_interrupted same_path repr AgentRole.research runtime none "read_file"
      (field "path" (str "/etc/passwd") end) [] refl

model_returns_example :
    (answer : SteeringDecision) × ((evaluate_model_async
        (policy_for AgentRole.writer)
        runtime
        end
        "end_turn"
        (some (λ d. judge_answered none))
        []).0
      ≡ returns answer)
model_returns_example =
    model_returns AgentRole.writer runtime end "end_turn" (some (λ d. judge_answered none)) []

abbrev budget : WriterReadBudget
budget = record { max_calls = 1; seen = [] }

abbrev keys : List (List String)
keys = ("github_read_file" ∷ []) ∷ ("github_read_file" ∷ []) ∷ ("github_get_tree" ∷ []) ∷ []

reads_bounded_example :
    (has_duplicate (reserve_each budget keys).seen ≡ false)
    × (length (reserve_each budget keys).seen ≤ 1)
reads_bounded_example = reads_bounded budget keys refl

abbrev draft : DraftScope
draft = record {
  run_id = "r";
  org_id = "acme";
  generation = 1;
  version = some 1;
  assigned_page_id = some "docs/a.md";
  repository = some "acme/authly";
  head_sha = some "abc";
  read_budget = some (record { max_calls = 8; seen = [] });
  progress = none;
}

abbrev input : Fields
input =
    field "owner" (str "acme")
      (field "repo" (str "authly") (field "path" (str "a.py") (field "ref" (str "abc") end)))

abbrev charged : Option DraftScope
charged = some (record draft {
  read_budget = some (record {
    max_calls = 8;
    seen = writer_read_key "github_read_file" "acme" "authly" "a.py" "abc" ∷ [];
  });
})

guarded_read_refused_example :
    (reserve_writer_read (writer_read_key "github_read_file" "acme" "authly" "a.py" "abc") charged
      ≡ refused (over_budget already_read))
    × ((error : Refusal) × (read_file "acme" "authly" "a.py" "abc" charged ≡ refused error))
unfolding before_tool_call read_key text_or partition_slash shown failure reserve_read
guarded_read_refused_example =
    guarded_read_refused repr input "acme" "authly" "a.py" "abc" draft
      (record { max_calls = 8; seen = [] }) charged refl (refl, refl) (refl, refl) (refl, refl)
      (refl, refl) refl

abbrev researcher : Guard
researcher = new 2 3

abbrev searches : List (String × String)
searches =
    ("search", "a") ∷ ("search", "b") ∷ ("search", "c") ∷ ("search", "d") ∷ ("answer", "") ∷ []

research_bounded_example :
    allowed searches (before_invocation researcher).1 ≤ 2 + new_names [] searches
research_bounded_example = research_bounded researcher searches

-- ===== src/Steering/Scenarios.antt =====
-- One counter and one intervention.
mod Agents
use Prim.Native.Nat.{max}
use draftly_agent_backend.Prelude.{
  ◌+◌, ◌≤◌, none, some, true, ◌≡◌, refl, List, [], ◌∷◌, find_row, update_where, string_eq, arith,
  option_eq, end,
}
use draftly_agent_backend.Steering.Attempts.{AttemptKey, Attempt, reserve, reserve_with_total}
use draftly_agent_backend.Steering.Budgets.{
  spent, reserve_granted, reserve_with_total_denied, reserve_with_total_granted,
}
use draftly_agent_backend.Steering.Interventions.{
  Intervention, refused, conflict, action_status, claim_response,
}
use draftly_agent_backend.Steering.Refinement.{
  view, view_of, grant_both, IsCounting, reserve_with_total-refines,
}
use draftly_agent_backend.Steering.Claims.{claim_response_lem}

abbrev scoped : AttemptKey
scoped = record {
  run_id = "r";
  agent_id = "writer";
  node_id = "document";
  phase = "before_tool";
  tool_name = "start_draft";
  model_turn = 0;
}

abbrev whole : AttemptKey
whole = record scoped { tool_name = "" }

abbrev guided : List Attempt
guided = record { key = scoped; guide_count = 1 } ∷ []

reserve_with_total-refines_example :
    (view_of (reserve_with_total scoped 2 whole 3 guided)
      ≡ grant_both scoped 2 whole 3 (view guided))
    × IsCounting (reserve_with_total scoped 2 whole 3 guided).1
reserve_with_total-refines_example =
    reserve_with_total-refines scoped 2 whole 3 guided (omega arith, tt)

abbrev open_question : Intervention
open_question = record {
  id = "i1";
  run_id = "r";
  interrupt_id = "q1";
  org_id = "o";
  surface = "github";
  workflow_key = none;
  agent_id = "writer";
  node_id = "document";
  tool_name = "publish";
  status = "pending";
  reason = end;
  response_message = none;
  metadata = end;
  idempotency_key = none;
  resolver_id = none;
  created_at = 1;
  resolved_at = none;
  expires_at = none;
}

abbrev answered : Intervention
answered = record open_question {
  status = "approved";
  response_message = some "go on";
  idempotency_key = some "k1";
  resolver_id = some "approve";
  resolved_at = some 7;
}

claim_response_lem_example :
    let after =
      (claim_response "r" "q1" "o" "k1" "approve" (some "go on") 7 (open_question ∷ [])).1 in
    claim_response "r" "q1" "o" "k1" "deny" (some "stop") 9 after
    ≡ (refused (conflict answered.id), after)
unfolding claim_response action_status find_row update_where
claim_response_lem_example =
    claim_response_lem "r" "q1" "o" "k1" "approve" (some "go on") 7 (open_question ∷ []) answered
      "r" "q1" "deny" "denied" (some "stop") 9 refl refl refl

-- ===== src/Routing/Scenarios.antt =====
-- A graph whose documentation passed.
use draftly_agent_backend.Prelude.{
  none, some, true, ◌≡◌, refl, ◌⊎◌, [], ◌∷◌, Json, bool, str, object, array, nil, cons, Fields, end,
  field, text_or, shown, String,
}
use draftly_agent_backend.Routing.{GraphState, holds}
use draftly_agent_backend.Routing.Conditions.{changelog_eval_passed}
use draftly_agent_backend.Routing.Documents.{
  documentation_delivery_ready, documentation_escalated, delivery_content_ready,
  documentation_passed, documentation_pair, planned_page_paths, sealed_page_paths, result_of,
}
use draftly_agent_backend.Routing.Delivery.{delivery_sealed, IsEscalated, IsPassed}

abbrev repr : Json → String
repr v = "{}"

abbrev row : String → Json
row action = object (field "path" (str "docs/a.md") (field "action" (str action) end))

abbrev payload : Fields
payload = field "result" (object (field "passed" (bool true) end)) (
    field "files" (array (cons (row "update") nil))
      (field "sealed_pages" (array (cons (row "") nil)) end))

abbrev state : GraphState
state = record {
  task = none;
  results =
      (
        "document",
        record { is_completed = true; payload = some payload; structured_verdict = none },
      )
      ∷ (
        "changelog_evaluate",
        record {
          is_completed = true;
          payload = some (field "passed" (bool true) end);
          structured_verdict = none;
        },
      )
      ∷ [];
}

delivery_sealed_example :
    IsEscalated (result_of payload)
    ⊎ ((changelog_eval_passed state ≡ holds true) × IsPassed repr payload)
unfolding documentation_delivery_ready documentation_escalated delivery_content_ready
    documentation_passed documentation_pair planned_page_paths sealed_page_paths
    changelog_eval_passed text_or shown
delivery_sealed_example = delivery_sealed repr state payload refl refl

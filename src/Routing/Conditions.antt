-- ===== src/Routing/Conditions.antt =====
-- The conditions on the task, the impact, the reviews and the evaluations.
use draftly_agent_backend.Prelude.{
  String, same_char, starts_with, Option, none, some, Bool, false, ◌&&◌, ◌||◌, not, List, [], ◌∷◌,
  any, all, contains, ◌==◌, string_eq, if◌then◌else◌, Json, str, object, Fields, get_field,
  is_given, is_true, is_text, text_or,
}
use draftly_agent_backend.Routing.{
  key_error, attribute_error, decode_error, Checked, holds, faults, then_check, and_also,
  NodeResult, GraphState, find_result, has_result, node_data,
}

-- `RECOGNIZED_SURFACES`
abbrev pub recognized_surfaces : List String
recognized_surfaces = "pull_request" ∷ "issues" ∷ "slack" ∷ "discord" ∷ "release" ∷ []

-- `text.split(".")[0]`
unfoldable pub before_dot : String → String
before_dot String.[] = ""
before_dot (String.◌∷◌ c s) =
    let rest = before_dot s in if same_char c "." then "" else String.◌∷◌ c rest

-- `task_data.get("event_type", "")`, of which a text method is called.
abbrev pub event_type : Json → Checked String
event_type (object fields) = elim (get_field "event_type" fields) [
  | none ↦ holds ""
  | some v ↦ elim v [ str s ↦ holds s | _ ↦ faults attribute_error ]
]
event_type _ = faults attribute_error

module _ (loads : String → Option Json) where
  abbrev surface_of : Option Json → Checked Bool
  surface_of none = holds false
  surface_of (some v) =
      then_check (event_type v) (λ s. holds (contains recognized_surfaces (before_dot s)))

  -- `is_valid_surface`
  unfoldable pub is_valid_surface : GraphState → Checked Bool
  unfolding before_dot
  is_valid_surface state = elim state.task [
    | none ↦ holds false
    | some text ↦ surface_of (loads text)
  ]

  abbrev opened_of : Option Json → Checked Bool
  opened_of none = holds false
  opened_of (some (object fields)) =
      holds (is_text "pull_request.opened" (get_field "event_type" fields))
  opened_of (some v) = faults attribute_error

  -- `pull_request_opened`
  unfoldable pub pull_request_opened : GraphState → Checked Bool
  pull_request_opened state = elim state.task [
    | none ↦ holds false
    | some text ↦ opened_of (loads text)
  ]

  abbrev release_of : Option Json → Checked Bool
  release_of none = faults decode_error
  release_of (some v) = then_check (event_type v) (λ s. holds (starts_with s "release"))

  abbrev chose_none : Option Fields → Bool
  chose_none none = false
  chose_none (some fields) = is_text "none" (get_field "action" fields)

  -- `none_and_release`
  unfoldable pub none_and_release : GraphState → Checked Bool
  unfolding starts_with
  none_and_release state =
      and_also (chose_none (node_data state "impact"))
        (elim state.task [ none ↦ holds false | some text ↦ release_of (loads text) ])

-- `data is not None and data.get("action") == action`
abbrev pub has_action : String → Option Fields → Bool
has_action action none = false
has_action action (some fields) = is_text action (get_field "action" fields)

-- `route_to_answer_of`, `route_to_update_of` and `route_to_create_of`, by the action.
unfoldable pub route_to : String → String → GraphState → Bool
route_to action node state = has_result state node && has_action action (node_data state node)

-- `route_to_write_of`
unfoldable pub route_to_write : String → GraphState → Bool
route_to_write node state =
    let fields = node_data state node in has_action "update" fields || has_action "create" fields

-- `generated`
abbrev pub generated : GraphState → Bool
generated state = any (has_result state) ("answer" ∷ "update" ∷ "create" ∷ "document" ∷ [])

-- `data["passed"]`, as a truth value.
abbrev pub passed_of : Fields → Checked Bool
passed_of fields = elim (get_field "passed" fields) [
  | none ↦ faults key_error
  | some v ↦ holds (is_true v)
]

-- The evaluation of a node, if there is one: whether it passed.
abbrev pub evaluation : GraphState → String → Checked (Option Bool)
evaluation state node = elim (node_data state node) [
  | none ↦ holds none
  | some fields ↦ then_check (passed_of fields) (λ passed. holds (some passed))
]

abbrev pub passed_it : Option Bool → Bool
passed_it none = false
passed_it (some passed) = passed

abbrev pub failed_it : Option Bool → Bool
failed_it none = false
failed_it (some passed) = not passed

-- `needs_revision`
unfoldable pub needs_revision : GraphState → Checked Bool
needs_revision state = then_check (evaluation state "evaluate") (λ e. holds (failed_it e))

-- `needs_revision_of`
unfoldable pub needs_revision_of : List String → GraphState → Checked Bool
needs_revision_of nodes state =
    then_check (evaluation state "evaluate")
      (λ e. holds (failed_it e && any (has_result state) nodes))

-- `eval_passed`
unfoldable pub eval_passed : GraphState → Checked Bool
eval_passed state = then_check (evaluation state "evaluate") (λ e. holds (passed_it e))

-- `changelog_eval_passed`
unfoldable pub changelog_eval_passed : GraphState → Checked Bool
changelog_eval_passed state =
    then_check (evaluation state "changelog_evaluate") (λ e. holds (passed_it e))

-- `changelog_needs_revision`
unfoldable pub changelog_needs_revision : GraphState → Checked Bool
changelog_needs_revision state =
    then_check (evaluation state "changelog_evaluate")
      (λ e. holds (failed_it e && has_result state "changelog"))

-- `answer_eval_passed`
unfoldable pub answer_eval_passed : GraphState → Bool
answer_eval_passed state = elim (node_data state "answer_evaluate") [
  | none ↦ false
  | some fields ↦ is_given (get_field "passed" fields)
]

-- `answer_needs_revision`
unfoldable pub answer_needs_revision : GraphState → Bool
answer_needs_revision state = elim (node_data state "answer_evaluate") [
  | none ↦ false
  | some fields ↦
      not (is_given (get_field "passed" fields) || is_given (get_field "escalated" fields))
      && has_result state "answer"
]

module _ (repr : Json → String) where
  abbrev verdict_of : NodeResult → Option String
  verdict_of r = elim r.payload [
    | none ↦ r.structured_verdict
    | some fields ↦ some (text_or repr (get_field "verdict" fields) "")
  ]

  -- `_review_verdict`
  unfoldable pub review_verdict : GraphState → Option String
  unfolding text_or
  review_verdict state = elim (find_result "review" state.results) [
    | none ↦ none
    | some r ↦ verdict_of r
  ]

  -- `review_clean`
  unfoldable pub review_clean : GraphState → Bool
  unfolding review_verdict
  review_clean state = elim (review_verdict state) [
    | none ↦ false
    | some verdict ↦ verdict == "clean"
  ]

  -- `needs_correction`
  unfoldable pub needs_correction : GraphState → Bool
  unfolding review_verdict
  needs_correction state = elim (review_verdict state) [
    | none ↦ false
    | some verdict ↦ verdict == "correct"
  ]

  -- `eval_ready`
  unfoldable pub eval_ready : GraphState → Bool
  unfolding review_clean
  eval_ready state = has_result state "answer" || review_clean state

abbrev completed_result : Option NodeResult → Bool
completed_result none = false
completed_result (some r) = r.is_completed

-- `all_dependencies_complete`
unfoldable pub all_dependencies_complete : List String → GraphState → Bool
all_dependencies_complete required state =
    all (λ id. completed_result (find_result id state.results)) required

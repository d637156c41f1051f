-- ===== src/Pages/Handlers/CrossPage.antt =====
-- `CrossPageReviewHandler`: the accepted artifacts of a run are reviewed together, and the pages that
-- the reviewer names are revised. The reviewer, the latest drafts, pydantic's validation, the plan of
-- a page that no task has and the text of blank instructions are parameters.
use draftly_agent_backend.Prelude.{
  ℕ, ◌+◌, String, is_empty, strip, Option, none, some, Bool, true, false, ◌&&◌, ◌||◌, not, List, [],
  ◌∷◌, map, keep, all, contains, ◌==◌, nat_eq, string_eq, ltb, if◌then◌else◌, Json, null, bool, int,
  str, array, object, Items, nil, cons, Fields, end, field, get_field,
}
use draftly_agent_backend.Pages.Rows.{
  PageStatus, PageState, WorkflowTask, RevisionSchedule, is_passed,
}
use draftly_agent_backend.Pages.States.{get_page_states}
use draftly_agent_backend.Pages.Tasks.{get_tasks}
use draftly_agent_backend.Pages.Paths.{normalize_page_id}
use draftly_agent_backend.Pages.Revisions.{schedule_revisions}
use draftly_agent_backend.Pages.Handlers.{
  missing_plan, not_canonical, passed_without_artifact, attempt_out_of_budget, not_all_passed,
  path_mismatch, not_current, no_reviewer, no_verdict, clean_with_corrections, unknown_page, Answer,
  done, fails, then_answer, Step, return, from_answer, call, ◌>>=◌,
}
use draftly_agent_backend.Pages.Handlers.Artifacts.{
  PagePlan, DraftFile, DocumentArtifact, is_canonical, text_of, current_artifact,
}
use draftly_agent_backend.Pages.Handlers.Evaluator.{lacks_artifact}

-- A correction of the reviewer's verdict.
pub record Correction : Type 0 where
  pub task_id : String
  pub path : String
  pub instructions : List String

-- What the reviewer answers: there is none, it returns no verdict, or its name and its corrections.
pub data Review : Type 0 where
  unavailable : Review
  silent : Review
  judged : String → List Correction → Review

-- What the handler returns.
pub record Outcome : Type 0 where
  pub passed : Bool
  pub corrected_page_ids : List String

-- What the handler is given beside the database; `construct` is the plan that `_load_page_plan` makes
-- of a page's id, path and action.
pub record ReviewSetting : Type 0 where
  pub validate : Fields → Option PagePlan
  pub construct : String → String → String → Option PagePlan
  pub latest : String → Option DraftFile
  pub review : List PageState → Review
  pub max_attempts : ℕ
  pub now : ℕ

abbrev pub snapshot_of : WorkflowTask → Fields
snapshot_of t = elim (get_field "artifact_snapshot" t.input_data) [
  | none ↦ end
  | some v ↦ elim v [ object shot ↦ shot | _ ↦ end ]
]

-- `value == latest_artifact_id`, where a missing value is `None`.
abbrev pub is_id : Option Json → Option String → Bool
is_id none none = true
is_id (some null) none = true
is_id (some (str s)) (some id) = s == id
is_id _ _ = false

-- `value == latest_version`, where `True` is 1.
abbrev pub is_version : Option Json → ℕ → Bool
is_version (some (int n)) version = n == version
is_version (some (bool b)) version = (if b then 1 else 0) == version
is_version _ version = false

abbrev pub is_revising : PageStatus → Bool
is_revising PageStatus.revising = true
is_revising _ = false

abbrev pub is_shot : PageState → Option Json → Bool
is_shot state (some (object entry)) =
    is_id (get_field "artifact_id" entry) state.latest_artifact_id
    && is_version (get_field "version" entry) state.latest_version
is_shot state _ = false

-- A page that passed, or that is revised from the artifact of the snapshot.
abbrev pub is_reviewable : Fields → PageState → Bool
is_reviewable shot state =
    is_passed state.status
    || (is_revising state.status && is_shot state (get_field state.page_id shot))

abbrev pub is_replaying : Fields → List PageState → Bool
is_replaying shot [] = false
is_replaying shot (state ∷ states) = all (is_reviewable shot) (state ∷ states)

abbrev pub check_state : PageState → Answer (Unit {0})
check_state state =
    if not (is_canonical state.page_id (normalize_page_id state.page_id))
    then fails (not_canonical state.page_id)
    else if not (state.path == state.page_id)
    then fails (path_mismatch state.page_id)
    else if lacks_artifact state
    then fails passed_without_artifact
    else done tt

abbrev pub check_states : List PageState → Answer (Unit {0})
check_states [] = done tt
check_states (state ∷ states) =
    let rest = check_states states in then_answer (check_state state) (λ _. rest)

-- The hash of the snapshot is that of the artifact, where it has one.
abbrev pub check_hash : String → Option Json → DocumentArtifact → Answer (Unit {0})
check_hash page (some (object entry)) a = elim (get_field "content_hash" entry) [
  | none ↦ done tt
  | some v ↦ elim v [
    | null ↦ done tt
    | str hash ↦ if hash == a.content_hash then done tt else fails (not_current page)
    | _ ↦ fails (not_current page)
  ]
]
check_hash page _ a = done tt

abbrev pub known_page : String → List PageState → Option PageState
known_page id [] = none
known_page id (state ∷ states) = elim (known_page id states) [
  | some later ↦ some later
  | none ↦ if state.page_id == id then some state else none
]

-- A page that is revised, its plan and the reviewer's instructions.
pub record Validated : Type 0 where
  pub state : PageState
  pub page : PagePlan
  pub instructions : List String

abbrev pub instructions_of : Correction → List String
instructions_of c = keep (λ (s : String). not (is_empty (strip s))) c.instructions

abbrev pub texts : List String → Items
texts [] = nil
texts (s ∷ ss) = cons (str s) (texts ss)

abbrev pub revision_of : Validated → RevisionSchedule
revision_of v = record {
  page_id = v.state.page_id;
  source_artifact_id = text_of v.state.latest_artifact_id;
  source_version = v.state.latest_version;
  attempt = v.state.evaluation_attempt + 1;
  write_input =
      field "task" v.page.dump (field "reviewer_instructions" (array (texts v.instructions)) end);
  evaluate_input = field "task" v.page.dump (
      field "evidence" (array v.page.evidence) (
        field "attempt" (int (v.state.evaluation_attempt + 1))
          (field "reviewer_instructions" (array (texts v.instructions)) end)));
}

module _ (setting : ReviewSetting) where
  -- The artifacts are current, and those of the snapshot.
  unfoldable pub check_artifacts : Fields → List PageState → Answer (Unit {0})
  unfolding current_artifact
  check_artifacts shot [] = done tt
  check_artifacts shot (state ∷ states) =
      let rest = check_artifacts shot states in
      then_answer
        (current_artifact setting.latest state.page_id state.latest_version
          state.latest_artifact_id)
        (λ a. then_answer (check_hash state.page_id (get_field state.page_id shot) a) (λ _. rest))

  -- The plan of the first task that has one for the page.
  abbrev pub validated_plan : Option PagePlan → Answer PagePlan
  validated_plan none = fails missing_plan
  validated_plan (some plan) = done plan

  abbrev pub is_page : Option String → String → Bool
  is_page none id = false
  is_page (some page) id = page == id

  abbrev pub load_page_plan : List WorkflowTask → PageState → Answer PagePlan
  load_page_plan [] state = validated_plan (setting.construct state.page_id state.path state.action)
  load_page_plan (t ∷ ts) state =
      let rest = load_page_plan ts state in
      elim (is_page t.page_id state.page_id) [
        | false ↦ rest
        | true ↦ elim (get_field "task" t.input_data) [
          | none ↦ rest
          | some v ↦ elim v [ object raw ↦ validated_plan (setting.validate raw) | _ ↦ rest ]
        ]
      ]

  abbrev pub add_validated :
      PageState → List String → Answer PagePlan → Answer (List Validated) → Answer (List Validated)
  add_validated state instructions (fails e) rest = fails e
  add_validated state instructions (done page) (fails e) = fails e
  add_validated state instructions (done page) (done vs) =
      done (record { state = state; page = page; instructions = instructions } ∷ vs)

  module _ (tasks : List WorkflowTask) (states : List PageState) where
    -- A correction, with what follows where its page is skipped, as it was named before, and where it
    -- is taken.
    abbrev pub validate_one :
        Correction
        → List String
        → Answer (List Validated)
        → Answer (List Validated)
        → Answer (List Validated)
    validate_one c corrected skip take = elim (known_page c.task_id states) [
      | none ↦ fails unknown_page
      | some state ↦
          if not (c.path == state.path)
          then fails unknown_page
          else if contains corrected c.task_id
          then skip
          else if ltb setting.max_attempts (state.evaluation_attempt + 1)
          then fails attempt_out_of_budget
          else add_validated state (instructions_of c) (load_page_plan tasks state) take
    ]

    -- The loop over the corrections, from those that were taken.
    unfoldable pub validate_each : List Correction → List String → Answer (List Validated)
    validate_each [] corrected = done []
    validate_each (c ∷ cs) corrected =
        validate_one c corrected (validate_each cs corrected)
          (validate_each cs (c.task_id ∷ corrected))

  abbrev pub corrected_outcome : List Validated → Outcome
  corrected_outcome vs = record {
    passed = false;
    corrected_page_ids = map (λ (v : Validated). v.state.page_id) vs;
  }

  -- The revisions of the corrections.
  abbrev pub revise_pages : WorkflowTask → List Validated → Step Outcome
  revise_pages t vs =
      call (schedule_revisions t.run_id t.org_id setting.now (map revision_of vs)) >>= λ _.
      return (corrected_outcome vs)

  -- What follows the reviewer's verdict.
  abbrev pub after_review :
      WorkflowTask → List WorkflowTask → List PageState → Review → Step Outcome
  after_review t tasks states unavailable = from_answer (fails no_reviewer)
  after_review t tasks states silent = from_answer (fails no_verdict)
  after_review t tasks states (judged name []) =
      if name == "clean"
      then return (record { passed = true; corrected_page_ids = [] })
      else from_answer (fails unknown_page)
  after_review t tasks states (judged name (c ∷ cs)) =
      if name == "clean"
      then from_answer (fails clean_with_corrections)
      else if not (name == "correct")
      then from_answer (fails unknown_page)
      else from_answer (validate_each tasks states (c ∷ cs) []) >>= revise_pages t

  -- The checks before the review.
  unfoldable pub check_review : WorkflowTask → List PageState → Answer (Unit {0})
  unfolding check_artifacts normalize_page_id
  check_review t states =
      let shot = snapshot_of t in
      if not (is_replaying shot states)
      then fails not_all_passed
      else then_answer (check_states states) (λ _. check_artifacts shot states)

  module _ (collate : String → String → Bool) where
    -- `CrossPageReviewHandler.__call__`
    unfoldable pub review_run : WorkflowTask → Step Outcome
    unfolding get_page_states get_tasks check_review validate_each schedule_revisions ◌>>=◌
    review_run t db =
        let states = get_page_states collate t.run_id db in
        (from_answer (check_review t states) >>= λ _.
        after_review t (get_tasks collate t.run_id db) states (setting.review states))
          db

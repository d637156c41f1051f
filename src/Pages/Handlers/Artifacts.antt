-- ===== src/Pages/Handlers/Artifacts.antt =====
-- The page plan of a task, and the artifact that a handler works on: `_document_task`, `_artifact` and
-- `_current_artifact`.
use draftly_agent_backend.Prelude.{
  ℕ, String, is_empty, strip, Option, none, some, Bool, false, not, ◌==◌, nat_eq, string_eq,
  if◌then◌else◌, Json, object, Items, Fields, get_field,
}
use draftly_agent_backend.Pages.Rows.{WorkflowTask}
use draftly_agent_backend.Pages.Paths.{PageId, page_id, normalize_page_id}
use draftly_agent_backend.Pages.Handlers.{
  missing_plan, missing_page_id, not_canonical, other_page, no_sealed_artifact, empty_artifact,
  no_identity, unexpected_version, unexpected_artifact, Answer, done, fails,
}

-- What the evaluator reads of a `DocumentationTask`: its id, its evidence as it is dumped, and its
-- own dump.
pub record PagePlan : Type 0 where
  pub id : String
  pub evidence : Items
  pub dump : Json

-- `DraftFile`
pub record DraftFile : Type 0 where
  pub path : String
  pub artifact_id : String
  pub version : Option ℕ
  pub content_hash : Option String
  pub action : String
  pub content : Option String

-- `DocumentArtifact`
pub record DocumentArtifact : Type 0 where
  pub page_id : String
  pub path : String
  pub artifact_id : String
  pub version : ℕ
  pub content_hash : String
  pub action : String
  pub content : String

-- `_canonical_page_id`
abbrev pub is_canonical : String → PageId → Bool
is_canonical value (page_id normalized) = normalized == value
is_canonical value _ = false

abbrev pub plan_for : String → Option PagePlan → Answer PagePlan
plan_for id none = fails missing_plan
plan_for id (some plan) =
    if not (is_canonical id (normalize_page_id id))
    then fails (not_canonical id)
    else if plan.id == id
    then done plan
    else fails other_page

-- A plan that does not validate fails like a missing one.
abbrev pub plan_at : Option String → Option PagePlan → Answer PagePlan
plan_at id none = fails missing_plan
plan_at none (some plan) = fails missing_page_id
plan_at (some id) (some plan) = plan_for id (some plan)

-- `_document_task`; `validate` is `DocumentationTask.model_validate`.
unfoldable pub document_task : (Fields → Option PagePlan) → WorkflowTask → Answer PagePlan
unfolding normalize_page_id
document_task validate t = elim (get_field "task" t.input_data) [
  | none ↦ fails missing_plan
  | some v ↦ elim v [ object fields ↦ plan_at t.page_id (validate fields) | _ ↦ fails missing_plan ]
]

abbrev pub text_of : Option String → String
text_of none = ""
text_of (some s) = s

-- `_artifact`
abbrev pub artifact : String → DraftFile → Answer DocumentArtifact
artifact page file = elim file.version [
  | none ↦ fails (no_identity page)
  | some version ↦ elim file.content_hash [
    | none ↦ fails (no_identity page)
    | some hash ↦ done (record {
      page_id = page;
      path = file.path;
      artifact_id = file.artifact_id;
      version = version;
      content_hash = hash;
      action = file.action;
      content = text_of file.content;
    })
  ]
]

abbrev pub is_other_id : Option String → String → Bool
is_other_id none id = false
is_other_id (some expected) id = not (id == expected)

abbrev pub expected_one : ℕ → Option String → Answer DocumentArtifact → Answer DocumentArtifact
expected_one version id (fails e) = fails e
expected_one version id (done a) =
    if not (a.version == version)
    then fails (unexpected_version a.version)
    else if is_other_id id a.artifact_id
    then fails (unexpected_artifact a.artifact_id)
    else done a

-- `_current_artifact`, where a version is expected; `latest` is `DraftRepository.get_path_latest`.
unfoldable pub current_artifact :
    (String → Option DraftFile) → String → ℕ → Option String → Answer DocumentArtifact
unfolding strip
current_artifact latest page version id = elim (latest page) [
  | none ↦ fails (no_sealed_artifact page)
  | some file ↦
      if is_empty (strip (text_of file.content))
      then fails (empty_artifact page)
      else expected_one version id (artifact page file)
]

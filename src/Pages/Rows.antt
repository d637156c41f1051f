-- ===== src/Pages/Rows.antt =====
-- The data of src/draftly/orchestration/page_workflow: the statuses of models.py, the rows of the
-- tables that repository.py reads and writes, and the database of one deployment.
use draftly_agent_backend.Prelude.{ℕ, String, Option, Bool, true, false, List, Json, Fields}

-- `PageStatus`
pub data PageStatus : Type 0 where
  pending writing evaluating revising passed awaiting_human_review failed : PageStatus

-- `TaskStatus`
pub data TaskStatus : Type 0 where
  pending running completed failed cancelled : TaskStatus

-- The `status` of a `PageEvaluationResult`.
pub data EvaluationStatus : Type 0 where
  passed revision_required awaiting_human_review : EvaluationStatus

-- The `task_type` of a row; the table admits no other.
pub data TaskType : Type 0 where
  write evaluate cross_page_review : TaskType

abbrev pub is_awaiting : PageStatus → Bool
is_awaiting PageStatus.awaiting_human_review = true
is_awaiting _ = false

abbrev pub is_passed : PageStatus → Bool
is_passed PageStatus.passed = true
is_passed _ = false

abbrev pub is_pending : TaskStatus → Bool
is_pending TaskStatus.pending = true
is_pending _ = false

abbrev pub is_running : TaskStatus → Bool
is_running TaskStatus.running = true
is_running _ = false

abbrev pub is_completed : TaskStatus → Bool
is_completed TaskStatus.completed = true
is_completed _ = false

abbrev pub is_failed : TaskStatus → Bool
is_failed TaskStatus.failed = true
is_failed _ = false

abbrev pub is_write : TaskType → Bool
is_write TaskType.write = true
is_write _ = false

abbrev pub is_evaluate : TaskType → Bool
is_evaluate TaskType.evaluate = true
is_evaluate _ = false

-- `NewPage`
pub record NewPage : Type 0 where
  pub page_id : String
  pub path : String
  pub action : String

-- `PageState`, a row of `documentation_page_states`; `updated_at`, which nothing reads, is left out.
pub record PageState : Type 0 where
  pub run_id : String
  pub org_id : String
  pub page_id : String
  pub path : String
  pub action : String
  pub status : PageStatus
  pub latest_artifact_id : Option String
  pub latest_version : ℕ
  pub next_version : ℕ
  pub evaluation_attempt : ℕ
  pub escalation_reason : Option String

-- `WorkflowTask`, a row of `documentation_workflow_tasks`, with its `error` column.
pub record WorkflowTask : Type 0 where
  pub run_id : String
  pub task_id : String
  pub org_id : String
  pub task_type : TaskType
  pub page_id : Option String
  pub artifact_version : Option ℕ
  pub dependencies : List String
  pub status : TaskStatus
  pub infrastructure_retries : ℕ
  pub lease_owner : Option String
  pub lease_expires_at : Option ℕ
  pub input_data : Fields
  pub output_data : Option Fields
  pub error : Option String
  pub created_at : ℕ

-- `RevisionSchedule`
pub record RevisionSchedule : Type 0 where
  pub page_id : String
  pub source_artifact_id : String
  pub source_version : ℕ
  pub attempt : ℕ
  pub write_input : Fields
  pub evaluate_input : Fields

-- `PageEvaluationResult`; the metrics are stored as the JSON that they are dumped to.
pub record PageEvaluationResult : Type 0 where
  pub page_id : String
  pub artifact_id : String
  pub version : ℕ
  pub content_hash : String
  pub attempt : ℕ
  pub status : EvaluationStatus
  pub score : Json
  pub metrics : List Json
  pub revision_feedback : List String

-- A row of `documentation_page_evaluations`.
pub record EvaluationRow : Type 0 where
  pub run_id : String
  pub org_id : String
  pub result : PageEvaluationResult

-- The columns of a `draft_revisions` row that the repository reads.
pub record Revision : Type 0 where
  pub id : String
  pub run_id : String
  pub org_id : String
  pub version : ℕ
  pub content_hash : Option String
  pub is_sealed : Bool

pub record Database : Type 0 where
  pub pages : List PageState
  pub evaluations : List EvaluationRow
  pub tasks : List WorkflowTask
  pub revisions : List Revision

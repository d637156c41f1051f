-- ===== src/Pages/Operation.antt =====
-- The statements of `PageWorkflowRepository` that write, as one type, and traces of them: what any
-- number of workers, reviewers and handlers may do to one database, in any order.
pub mod Steps
use draftly_agent_backend.Prelude.{ℕ, String, Option, Bool, List, [], ◌∷◌, Fields}
use draftly_agent_backend.Pages.Rows.{
  NewPage, TaskType, PageEvaluationResult, RevisionSchedule, Database,
}
use draftly_agent_backend.Pages.States
use draftly_agent_backend.Pages.Tasks
use draftly_agent_backend.Pages.Evaluations
use draftly_agent_backend.Pages.Revisions

-- The times are the database's clock at the statement.
pub data Operation : Type 0 where
  create_pages : String → String → List NewPage → Operation
  reserve_next_version : String → String → Operation
  record_artifact : String → String → String → ℕ → Operation
  approve_escalated_pages : String → List String → Option String → Operation
  mark_escalated_failed : String → Option String → Operation
  record_evaluation : PageEvaluationResult → Option String → Option String → Operation
  schedule_revisions : String → String → ℕ → List RevisionSchedule → Operation
  schedule_human_revisions : String → Option String → ℕ → Operation
  enqueue_task :
      String
      → String
      → String
      → TaskType
      → Option String
      → Option ℕ
      → List String
      → Fields
      → ℕ
      → Operation
  claim_ready_tasks : (String → Bool) → ℕ → String → String → ℕ → ℕ → Operation
  complete_task : String → String → String → Option Fields → Operation
  retry_or_fail_task : String → String → String → String → Operation
  reset_expired_leases : String → ℕ → Operation
  cancel_pending_tasks : String → Operation

module _ (collate : String → String → Bool) where
  -- The database after an operation, whether it returned or raised.
  unfoldable pub apply : Operation → Database → Database
  apply (create_pages run org pages) db = (States.create_pages run org pages db).1
  apply (reserve_next_version run page) db = (States.reserve_next_version run page db).1
  apply (record_artifact run page artifact version) db =
      (States.record_artifact run page artifact version db).1
  apply (approve_escalated_pages run pages comment) db =
      (States.approve_escalated_pages run pages comment db).1
  apply (mark_escalated_failed run comment) db = (States.mark_escalated_failed run comment db).1
  apply (record_evaluation result run org) db = (Evaluations.record_evaluation result run org db).1
  apply (schedule_revisions run org now revisions) db =
      (Revisions.schedule_revisions run org now revisions db).1
  apply (schedule_human_revisions run comment now) db =
      (Revisions.schedule_human_revisions collate run comment now db).1
  apply (enqueue_task run task org kind page version dependencies input now) db =
      (Tasks.enqueue_task run task org kind page version dependencies input now db).1
  apply (claim_ready_tasks locked now run owner lease limit) db =
      (Tasks.claim_ready_tasks collate locked now run owner lease limit db).1
  apply (complete_task run task owner output) db = (Tasks.complete_task run task owner output db).1
  apply (retry_or_fail_task run task owner message) db =
      (Tasks.retry_or_fail_task run task owner message db).1
  apply (reset_expired_leases run now) db = (Tasks.reset_expired_leases run now db).1
  apply (cancel_pending_tasks run) db = (Tasks.cancel_pending_tasks run db).1

  -- The database after a trace.
  unfoldable pub run : List Operation → Database → Database
  unfolding apply
  run [] db = db
  run (op ∷ ops) db = run ops (apply op db)

-- ===== src/Pages/Resume.antt =====
-- The human decisions on a settled run: `DocumentationWorkflowNode.resume` of
-- src/draftly/orchestration/page_workflow/node.py. Progress events and log lines are left out.
pub mod Decisions
use draftly_agent_backend.Prelude.{
  ℕ, String, strip, Option, none, some, Bool, true, false, List, [], ◌∷◌, map, keep, string_eq,
  ◌==◌, if◌then◌else◌,
}
use draftly_agent_backend.Pages.Rows.{PageState, TaskType, Database, is_awaiting}
use draftly_agent_backend.Pages.Query.{
  Result, ok, err, Query, pure, raise, gets, ◌>>=◌, ◌>>◌, changes_need_comment, unknown_decision,
}
use draftly_agent_backend.Pages.States.{
  get_page_states, approve_escalated_pages, mark_escalated_failed, coalesce,
}
use draftly_agent_backend.Pages.Tasks.{cancel_pending_tasks}
use draftly_agent_backend.Pages.Revisions.{schedule_human_revisions}
use draftly_agent_backend.Pages.Results.{
  DocumentationWorkflowResult, result_from_states, page_escalated, state_page,
}
use draftly_agent_backend.Pages.Executor.{Round, Driven, ongoing, ExecutorResult, drive}

abbrev pub no_ids : ExecutorResult
no_ids = record { completed_task_ids = []; failed_task_ids = []; deadlocked_task_ids = [] }

-- What waits for an executor that was not followed to its end is not returned.
abbrev pub unless_ongoing :
    Driven → DocumentationWorkflowResult → Option DocumentationWorkflowResult
unless_ongoing ongoing report = none
unless_ongoing _ report = some report

-- `if escalated: await self.repository.approve_escalated_pages(…)`
abbrev pub approve_any : String → Option String → List String → Query (Unit {0})
approve_any run comment [] = pure tt
approve_any run comment (page ∷ pages) =
    approve_escalated_pages run (page ∷ pages) comment >>= λ _. pure tt

module _ (collate : String → String → Bool) where
  -- `[s.page_id for s in states if s.status == AWAITING_HUMAN_REVIEW]`
  unfoldable pub escalated_ids : String → Database → List String
  unfolding get_page_states
  escalated_ids run db = map state_page (keep page_escalated (get_page_states collate run db))

  -- `_result_from_states(await self.repository.get_page_states(…))`
  unfoldable pub report : String → Database → DocumentationWorkflowResult
  unfolding get_page_states result_from_states
  report run db = result_from_states (get_page_states collate run db)

  unfoldable pub resume_approve : String → Option String → Query DocumentationWorkflowResult
  unfolding escalated_ids report approve_escalated_pages ◌>>=◌
  resume_approve run comment = do
    escalated ← gets (escalated_ids run)
    _ ← approve_any run comment escalated
    gets (report run)

  unfoldable pub resume_reject : String → Option String → Query DocumentationWorkflowResult
  unfolding report cancel_pending_tasks mark_escalated_failed ◌>>=◌
  resume_reject run comment = do
    _ ← λ db. (ok (cancel_pending_tasks run db).0, (cancel_pending_tasks run db).1)
    _ ← mark_escalated_failed run comment
    gets (report run)

  -- The executor's run after the revisions were scheduled; its exceptions are logged only.
  module _ (handles : TaskType → Bool) (owner : String) (lease now : ℕ) (rounds : List Round) where
    abbrev drive_again : String → Query (Option DocumentationWorkflowResult)
    drive_again run db =
        let (how, after) = drive collate handles run owner lease rounds no_ids db in
        (ok (unless_ongoing how (report run after)), after)

    abbrev change_any :
        String → Option String → List String → Query (Option DocumentationWorkflowResult)
    change_any run comment [] = λ db. (ok (some (report run db)), db)
    change_any run comment (page ∷ pages) =
        schedule_human_revisions collate run comment now >>= λ _. drive_again run

    unfoldable pub request_changes :
        String → Option String → Query (Option DocumentationWorkflowResult)
    unfolding escalated_ids report strip schedule_human_revisions drive ◌>>=◌
    request_changes run comment =
        if strip (coalesce comment) == ""
        then raise changes_need_comment
        else gets (escalated_ids run) >>= change_any run comment

    -- `resume`: `none` is a run whose executor goes on after the given passes.
    unfoldable pub resume :
        String → String → Option String → Query (Option DocumentationWorkflowResult)
    unfolding resume_approve request_changes resume_reject ◌>>=◌
    resume run decision comment =
        if decision == "approve"
        then (resume_approve run comment >>= λ result. pure (some result))
        else if decision == "request_changes"
        then request_changes run comment
        else if decision == "reject"
        then (resume_reject run comment >>= λ result. pure (some result))
        else raise (unknown_decision decision)

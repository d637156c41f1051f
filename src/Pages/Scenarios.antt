-- ===== src/Pages/Scenarios.antt =====
-- One run with two pages, followed through the page workflow.
mod Runs
mod Rounds
mod Corrections
mod Verdicts
use Prim.Native.Nat.{Ordering}
use Prim.Native.String.{compare}
use draftly_agent_backend.Prelude.{
  ℕ, ◌+◌, ◌≤◌, ◌<◌, String, strip, show_nat, join_with, Bool, true, false, Option, none, some, ◌≡◌,
  refl, ◌⊎◌, inl, inr, List, [], ◌∷◌, arith, map, all, any, All, length, find_row, update_where,
  count_where, insert_unless, returned_row, Unique, Json, Fields, end, field, str, null,
  has_duplicate, get_or,
}
use draftly_agent_backend.Pages.Rows.{
  PageStatus, TaskStatus, EvaluationStatus, TaskType, NewPage, PageState, WorkflowTask,
  RevisionSchedule, PageEvaluationResult, EvaluationRow, Revision, Database,
}
use draftly_agent_backend.Pages.Query.{
  Error, Result, ok, err, Query, transaction, ◌>>=◌, leased_by_other, artifact_not_next,
}
use draftly_agent_backend.Pages.States.{
  at_page, reserve_next_version, record_artifact, approve_escalated_pages, approve_each,
  mark_escalated_failed, get_page_states, promote,
}
use draftly_agent_backend.Pages.States.Promotion.{
  same_page, record_artifact_exact, with_page, accepted_row,
}
use draftly_agent_backend.Pages.States.Reviews.{approve_again, mark_escalated_failed_exact, awaits}
use draftly_agent_backend.Pages.Tasks.{
  at_task, claim_ready_tasks, claimable_ids, complete_task, retry_or_fail_task,
  cancel_pending_tasks, is_ready, start, is_open, finish, recycle,
}
use draftly_agent_backend.Pages.Tasks.Claims.{same_task, claim_exact}
use draftly_agent_backend.Pages.Tasks.Batches.{claim_limit, claim-cancel, claim_all_ready}
use draftly_agent_backend.Pages.Tasks.Leases.{
  complete_exact, retry_exact, completion, failed_row, with_task,
}
use draftly_agent_backend.Pages.Operation.{Operation, apply, run}
use draftly_agent_backend.Pages.History.Pages.{reserve_increases, page_history, Advances}
use draftly_agent_backend.Pages.History.Validity.{IsValid, IsPageSound, IsTaskSound, run-IsValid}
use draftly_agent_backend.Pages.History.Tasks.{task_history, Progresses}
use draftly_agent_backend.Pages.History.Evaluations.{evaluation_history}
use draftly_agent_backend.Pages.Evaluations.{
  at_evaluation, record_evaluation, evaluation_body, upsert_evaluation, project_state,
}
use draftly_agent_backend.Pages.Evaluations.Recording.{record_evaluation_lem, Recorded}

abbrev collate : String → String → Bool
collate a b = elim (compare a b) [ Ordering.gt ↦ false | _ ↦ true ]

abbrev nobody : String → Bool
nobody task = false

-- A page under evaluation, and one that waits for a reviewer.
abbrev guide : PageState
guide = record {
  run_id = "r";
  org_id = "o";
  page_id = "guide.md";
  path = "guide.md";
  action = "update";
  status = PageStatus.evaluating;
  latest_artifact_id = some "d1";
  latest_version = 1;
  next_version = 2;
  evaluation_attempt = 0;
  escalation_reason = none;
}

abbrev setup_page : PageState
setup_page = record guide {
  page_id = "setup.md";
  path = "setup.md";
  status = PageStatus.awaiting_human_review;
  latest_artifact_id = some "d2";
  escalation_reason = some "no example";
}

abbrev written : WorkflowTask
written = record {
  run_id = "r";
  task_id = "write:guide.md:1";
  org_id = "o";
  task_type = TaskType.write;
  page_id = some "guide.md";
  artifact_version = some 1;
  dependencies = [];
  status = TaskStatus.completed;
  infrastructure_retries = 0;
  lease_owner = some "w1";
  lease_expires_at = some 20;
  input_data = end;
  output_data = none;
  error = none;
  created_at = 5;
}

abbrev waiting : WorkflowTask
waiting = record written {
  task_id = "evaluate:guide.md:1";
  task_type = TaskType.evaluate;
  dependencies = "write:guide.md:1" ∷ [];
  status = TaskStatus.pending;
  lease_owner = none;
  lease_expires_at = none;
}

abbrev busy : WorkflowTask
busy = record written {
  task_id = "write:setup.md:2";
  page_id = some "setup.md";
  artifact_version = some 2;
  status = TaskStatus.running;
}

abbrev sealed : Revision
sealed = record {
  id = "d1";
  run_id = "r";
  org_id = "o";
  version = 1;
  content_hash = some "h1";
  is_sealed = true;
}

abbrev verdict : PageEvaluationResult
verdict = record {
  page_id = "guide.md";
  artifact_id = "d1";
  version = 1;
  content_hash = "h1";
  attempt = 1;
  status = EvaluationStatus.revision_required;
  score = null;
  metrics = [];
  revision_feedback = "show an example" ∷ [];
}

abbrev stored : EvaluationRow
stored = record { run_id = "r"; org_id = "o"; result = record verdict { artifact_id = "d0" } }

abbrev start_db : Database
start_db = record {
  pages = guide ∷ setup_page ∷ [];
  evaluations = stored ∷ [];
  tasks = written ∷ waiting ∷ busy ∷ [];
  revisions = sealed ∷ [];
}

Unique-pages : Unique same_page start_db.pages
unfolding find_row
Unique-pages = (refl, (refl, tt))

Unique-tasks : Unique same_task start_db.tasks
unfolding find_row
Unique-tasks = (refl, (refl, (refl, tt)))

start_db-IsValid : IsValid start_db
unfolding find_row
start_db-IsValid = record {
  pages_sound = (ground arith, (ground arith, tt));
  pages_unique = Unique-pages;
  tasks_sound = (ground arith, (ground arith, (ground arith, tt)));
  tasks_unique = Unique-tasks;
  evaluations_unique = (refl, tt);
}

-- Another worker's handler and a reviewer act between.
abbrev between : List Operation
between =
    Operation.record_artifact "r" "guide.md" "d3" 2
    ∷ Operation.retry_or_fail_task "r" "write:setup.md:2" "w1" "timeout"
    ∷ Operation.approve_escalated_pages "r" ("setup.md" ∷ []) (some "fine")
    ∷ []

reserve_increases_example : 2 < 3
unfolding run apply reserve_next_version record_artifact approve_escalated_pages approve_each
    retry_or_fail_task find_row update_where returned_row count_where
reserve_increases_example = reserve_increases collate "r" "guide.md" between start_db 2 3 refl refl

page_history_example :
    (q : PageState) × (find_row (at_page "r" "guide.md") (run collate between start_db).pages
      ≡ some q)
    × Advances guide q
unfolding find_row
page_history_example = page_history collate between start_db "r" "guide.md" refl

run-IsValid_example : IsValid (run collate between start_db)
run-IsValid_example = run-IsValid collate between start_db start_db-IsValid

task_history_example :
    (u : WorkflowTask) × (find_row
        (at_task "r" "write:setup.md:2")
        (run collate between start_db).tasks
      ≡ some u)
    × Progresses busy u
unfolding find_row
task_history_example =
    task_history collate between start_db "r" "write:setup.md:2" start_db-IsValid refl

evaluation_history_example :
    find_row (at_evaluation "r" "d0") (run collate between start_db).evaluations ≡ some stored
unfolding find_row
evaluation_history_example = evaluation_history collate between start_db "r" "d0" refl

claim_exact_example :
    let after =
      find_row
        (at_task "r" "evaluate:guide.md:1")
        (claim_ready_tasks collate nobody 30 "r" "w2" 60 10 start_db).1.tasks in
    (after ≡ some waiting)
    ⊎ ((after ≡ some (start "w2" (30 + 60) waiting))
        × (is_ready start_db.tasks "r" waiting ≡ true)
        × (nobody waiting.task_id ≡ false))
unfolding find_row
claim_exact_example =
    claim_exact collate nobody 30 "r" "w2" 60 10 start_db "r" "evaluate:guide.md:1" Unique-tasks
      refl

claim_limit_example :
    let rows = (claim_ready_tasks collate nobody 30 "r" "w2" 60 10 start_db).0 in
    (length rows ≤ 10)
    × All
        (λ (t : WorkflowTask).
          (t.run_id ≡ "r")
          × (t.status ≡ TaskStatus.running)
          × (t.lease_owner ≡ some "w2")
          × (t.lease_expires_at ≡ some (30 + 60)))
        rows
claim_limit_example = claim_limit collate nobody 30 "r" "w2" 60 10 start_db Unique-tasks

claim_all_ready_example :
    find_row
      (at_task "r" "evaluate:guide.md:1")
      (claim_ready_tasks collate nobody 30 "r" "w2" 60 10 start_db).1.tasks
    ≡ some (start "w2" (30 + 60) waiting)
unfolding find_row count_where
claim_all_ready_example =
    claim_all_ready collate nobody 30 "r" "w2" 60 10 start_db "evaluate:guide.md:1" refl refl refl
      (omega arith)

complete_exact_example :
    complete_task "r" "write:setup.md:2" "w1" (some end) start_db
    ≡ completion "r" "write:setup.md:2" "w1" (some end) start_db busy
unfolding find_row
complete_exact_example =
    complete_exact "r" "write:setup.md:2" "w1" start_db (some end) Unique-tasks refl

retry_exact_example : retry_or_fail_task "r" "write:setup.md:2" "w1" "timeout" start_db ≡ (
  ok (some TaskStatus.pending),
  with_task "r" "write:setup.md:2" (failed_row "timeout") start_db,
)
unfolding find_row
retry_exact_example = retry_exact "r" "write:setup.md:2" "w1" start_db "timeout" Unique-tasks refl

record_artifact_exact_example :
    record_artifact "r" "guide.md" "d3" 2 start_db
    ≡ (ok tt, with_page "r" "guide.md" (accepted_row "d3" 2) start_db)
unfolding find_row
record_artifact_exact_example =
    record_artifact_exact "r" "guide.md" "d3" 2 start_db Unique-pages refl

approve_again_example :
    let after = (approve_escalated_pages "r" ("setup.md" ∷ []) (some "fine") start_db).1 in
    approve_escalated_pages "r" ("setup.md" ∷ []) (some "again") after ≡ (ok 0, after)
approve_again_example = approve_again "r" "setup.md" [] (some "fine") (some "again") start_db

record_evaluation_lem_example :
    Recorded verdict none none start_db (record_evaluation verdict none none start_db).1
unfolding record_evaluation evaluation_body upsert_evaluation project_state transaction ◌>>=◌
    find_row update_where returned_row
record_evaluation_lem_example = record_evaluation_lem verdict none none start_db Unique-pages refl

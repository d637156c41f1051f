-- ===== src/Pages/Tasks.antt =====
-- The workflow tasks of `PageWorkflowRepository`: a durable queue with dependencies, leases, one
-- infrastructure retry and cancellation.
pub mod Claims
pub mod Leases
pub mod Batches
use draftly_agent_backend.Prelude.{
  ℕ, suc, ◌+◌, min, String, Option, none, some, get_or, Bool, true, false, ◌&&◌, ◌||◌, not, List,
  [], ◌∷◌, map, take, keep, any, all, contains, sort_by, find_row, update_where, count_where,
  insert_unless, returned_row, ◌==◌, nat_eq, string_eq, option_eq, ltb, if◌then◌else◌, Fields,
}
use draftly_agent_backend.Pages.Rows.{
  TaskType, TaskStatus, WorkflowTask, Database, is_pending, is_running, is_completed,
}
use draftly_agent_backend.Pages.Query.{Result, ok, err, Query, leased_by_other}

-- `WHERE run_id = $1 AND task_id = $2`, which is the primary key.
abbrev pub at_task : String → String → WorkflowTask → Bool
at_task run task t = t.run_id == run && t.task_id == task

abbrev pub with_tasks : Database → List WorkflowTask → Database
with_tasks db tasks = record db { tasks = tasks }

-- The row of a task that is inserted; the columns left out have their defaults.
abbrev pub queued :
    String
    → String
    → String
    → TaskType
    → Option String
    → Option ℕ
    → List String
    → Fields
    → ℕ
    → WorkflowTask
queued run task org kind page version dependencies input now = record {
  run_id = run;
  task_id = task;
  org_id = org;
  task_type = kind;
  page_id = page;
  artifact_version = version;
  dependencies = dependencies;
  status = TaskStatus.pending;
  infrastructure_retries = 0;
  lease_owner = none;
  lease_expires_at = none;
  input_data = input;
  output_data = none;
  error = none;
  created_at = now;
}

-- `INSERT … ON CONFLICT (run_id, task_id) DO NOTHING`
unfoldable pub insert_task : WorkflowTask → Query (Unit {0})
unfolding insert_unless
insert_task t db = (ok tt, with_tasks db (insert_unless (at_task t.run_id t.task_id) t db.tasks))

-- `enqueue_task`, at the time `now`.
unfoldable pub enqueue_task :
    String
    → String
    → String
    → TaskType
    → Option String
    → Option ℕ
    → List String
    → Fields
    → ℕ
    → Query (Unit {0})
unfolding insert_task
enqueue_task run task org kind page version dependencies input now =
    insert_task (queued run task org kind page version dependencies input now)

-- A dependency is met by a completed task of the same run.
abbrev pub is_met : List WorkflowTask → String → String → Bool
is_met tasks run dependency =
    any (λ (c : WorkflowTask). at_task run dependency c && is_completed c.status) tasks

-- Pending, and every dependency completed.
abbrev pub is_ready : List WorkflowTask → String → WorkflowTask → Bool
is_ready tasks run t =
    t.run_id == run && is_pending t.status && all (is_met tasks t.run_id) t.dependencies

abbrev pub start : String → ℕ → WorkflowTask → WorkflowTask
start owner expires t = record t {
  status = TaskStatus.running;
  lease_owner = some owner;
  lease_expires_at = some expires;
}

-- The rows that the outer `UPDATE` of a claim takes.
abbrev pub claimed : String → List String → WorkflowTask → Bool
claimed run ids t = t.run_id == run && contains ids t.task_id

module _ (collate : String → String → Bool) where
  -- `ORDER BY created_at, task_id`
  abbrev pub enqueue_order : WorkflowTask → WorkflowTask → Bool
  enqueue_order t u =
      ltb t.created_at u.created_at || (t.created_at == u.created_at && collate t.task_id u.task_id)

  -- The ids that the inner `SELECT … FOR UPDATE SKIP LOCKED LIMIT` finds; `locked` are the rows that
  -- other transactions hold.
  unfoldable pub claimable_ids : (String → Bool) → ℕ → String → List WorkflowTask → List String
  claimable_ids locked limit run tasks =
      map (λ (t : WorkflowTask). t.task_id)
        (take limit (
          sort_by enqueue_order
            (keep (λ (t : WorkflowTask). is_ready tasks run t && not (locked t.task_id)) tasks)))

  -- `claim_ready_tasks`, at the time `now`: the claimed rows, and the database after.
  unfoldable pub claim_ready_tasks :
      (String → Bool) → ℕ → String → String → ℕ → ℕ → Database → List WorkflowTask × Database
  unfolding claimable_ids update_where
  claim_ready_tasks locked now run owner lease_seconds limit db =
      let ids = claimable_ids locked limit run db.tasks in
      let expires = now + lease_seconds in
      (
        map (start owner expires) (keep (claimed run ids) db.tasks),
        with_tasks db (update_where (claimed run ids) (start owner expires) db.tasks),
      )

  -- `get_tasks`
  unfoldable pub get_tasks : String → Database → List WorkflowTask
  get_tasks run db = sort_by enqueue_order (keep (λ (t : WorkflowTask). t.run_id == run) db.tasks)

-- Running under the lease of `owner`.
abbrev pub is_held : String → String → String → WorkflowTask → Bool
is_held run task owner t =
    at_task run task t && (is_running t.status && t.lease_owner == some owner)

-- Running under another lease: `lease_owner IS DISTINCT FROM $3`.
abbrev pub is_held_by_other : String → String → String → WorkflowTask → Bool
is_held_by_other run task owner t =
    at_task run task t && (is_running t.status && not (t.lease_owner == some owner))

abbrev pub finish : Option Fields → WorkflowTask → WorkflowTask
finish output t = record t { status = TaskStatus.completed; output_data = output; error = none }

-- `complete_task`: whether a task was completed; a task that another owner leases is an error.
unfoldable pub complete_task : String → String → String → Option Fields → Query Bool
unfolding update_where count_where
complete_task run task owner output db =
    let updated = count_where (is_held run task owner) db.tasks in
    let owned_by_other = any (is_held_by_other run task owner) db.tasks in
    (
      (if owned_by_other && updated == 0
          then err (leased_by_other task owner)
          else ok (ltb 0 updated)),
      with_tasks db (update_where (is_held run task owner) (finish output) db.tasks),
    )

abbrev pub retried_status : ℕ → TaskStatus
retried_status retries = if ltb retries 1 then TaskStatus.pending else TaskStatus.failed

abbrev pub recycle : String → WorkflowTask → WorkflowTask
recycle message t = record t {
  status = retried_status t.infrastructure_retries;
  infrastructure_retries = min (t.infrastructure_retries + 1) 1;
  error = some message;
  lease_owner = none;
  lease_expires_at = none;
}

abbrev pub retry_outcome : String → String → Bool → Option WorkflowTask → Result (Option TaskStatus)
retry_outcome task owner owned_by_other (some t) = ok (some t.status)
retry_outcome task owner owned_by_other none =
    if owned_by_other then err (leased_by_other task owner) else ok none

-- `retry_or_fail_task`: the first infrastructure failure recycles the task, the second fails it.
unfoldable pub retry_or_fail_task : String → String → String → String → Query (Option TaskStatus)
unfolding update_where returned_row
retry_or_fail_task run task owner message db = (
  retry_outcome task owner (any (is_held_by_other run task owner) db.tasks)
      (returned_row (is_held run task owner) (recycle message) db.tasks),
  with_tasks db (update_where (is_held run task owner) (recycle message) db.tasks),
)

-- `lease_expires_at < now()`, which is not true of a missing time.
abbrev pub is_before : Option ℕ → ℕ → Bool
is_before none now = false
is_before (some expires) now = ltb expires now

abbrev pub is_expired : String → ℕ → WorkflowTask → Bool
is_expired run now t = t.run_id == run && is_running t.status && is_before t.lease_expires_at now

abbrev pub release : WorkflowTask → WorkflowTask
release t = record t { status = TaskStatus.pending; lease_owner = none; lease_expires_at = none }

-- `reset_expired_leases`, at the time `now`.
unfoldable pub reset_expired_leases : String → ℕ → Database → ℕ × Database
unfolding update_where count_where
reset_expired_leases run now db = (
  count_where (is_expired run now) db.tasks,
  with_tasks db (update_where (is_expired run now) release db.tasks),
)

abbrev pub is_open : String → WorkflowTask → Bool
is_open run t = t.run_id == run && (is_pending t.status || is_running t.status)

abbrev pub cancel : WorkflowTask → WorkflowTask
cancel t = record t {
  status = TaskStatus.cancelled;
  error = some (get_or t.error "cancelled by human review rejection");
}

-- `cancel_pending_tasks`: returns the number of tasks that were cancelled.
unfoldable pub cancel_pending_tasks : String → Database → ℕ × Database
unfolding update_where count_where
cancel_pending_tasks run db =
    (count_where (is_open run) db.tasks, with_tasks db (update_where (is_open run) cancel db.tasks))

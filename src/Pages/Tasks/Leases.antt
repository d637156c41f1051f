-- ===== src/Pages/Tasks/Leases.antt =====
-- How a leased task ends: completion, the one infrastructure retry, expiry and cancellation.
use mathlib.Core.Path.{fun_ext}
use draftly_agent_backend.Prelude.{
  min, ◌+◌, ℕ, zero, suc, refl, ap, ◌∙◌, String, Bool, true, false, ◌&&◌, not, Option, none, some,
  ◌≡◌, List, arith, find_row, update_where, Unique, Unique-OneKey, OneKey, count_keyed, find_keyed,
  any_keyed, update_keyed, update_held, eq_iff, nat_eq, string_eq, option_eq, ◌==◌, Fields,
  if◌then◌else◌,
}
use draftly_agent_backend.Pages.Rows.{TaskStatus, WorkflowTask, Database, is_running}
use draftly_agent_backend.Pages.Query.{Result, ok, err, leased_by_other}
use draftly_agent_backend.Pages.Tasks.{
  at_task, with_tasks, finish, complete_task, recycle, retry_or_fail_task, retried_status,
}
use draftly_agent_backend.Pages.Tasks.Claims.{same_task}

pub one_task :
    (run task : String) (tasks : List WorkflowTask)
    → Unique same_task tasks
    → OneKey (at_task run task) tasks
one_task run task tasks unique =
    Unique-OneKey same_task (at_task run task)
      (λ x y k. ground (
        arith,
        eq_iff x.run_id run,
        eq_iff x.task_id task,
        eq_iff y.run_id run,
        eq_iff y.task_id task,
        eq_iff y.run_id x.run_id,
        eq_iff y.task_id x.task_id,
      ))
      tasks unique

-- The row of a task, changed by `f`, and no other.
abbrev pub with_task : String → String → (WorkflowTask → WorkflowTask) → Database → Database
with_task run task f db = with_tasks db (update_where (at_task run task) f db.tasks)

-- A row that is completed: its plan, its lease and its retries stay, its error is cleared.
abbrev pub completed_row : Option Fields → WorkflowTask → WorkflowTask
completed_row output t = record t {
  status = TaskStatus.completed;
  output_data = output;
  error = none;
}

-- A row that failed: the first time it is pending again with its one retry spent, after that it is
-- failed; its lease is given up and the error is stored.
abbrev pub failed_row : String → WorkflowTask → WorkflowTask
failed_row message t = record t {
  status = elim t.infrastructure_retries [ zero ↦ TaskStatus.pending | suc n ↦ TaskStatus.failed ];
  infrastructure_retries = 1;
  error = some message;
  lease_owner = none;
  lease_expires_at = none;
}

retried_status_lem :
    (n : ℕ) → retried_status n ≡ elim n [ zero ↦ TaskStatus.pending | suc m ↦ TaskStatus.failed ]
retried_status_lem zero = refl
retried_status_lem (suc n) = ground arith

recycle-failed_row :
    (message : String) (t : WorkflowTask) → recycle message t ≡ failed_row message t
recycle-failed_row message t =
    ap
      (λ (status : TaskStatus). record t {
        status = status;
        infrastructure_retries = min (t.infrastructure_retries + 1) 1;
        error = some message;
        lease_owner = none;
        lease_expires_at = none;
      })
      (retried_status_lem t.infrastructure_retries)
    ∙ ap (λ (n : ℕ). record (failed_row message t) { infrastructure_retries = n }) (omega arith)

-- What `complete_task` should do, by the task's row.
abbrev pub completion :
    String → String → String → Option Fields → Database → WorkflowTask → Result Bool × Database
completion run task owner output db t =
    if is_running t.status
    then (if t.lease_owner == some owner
        then (ok true, with_task run task (completed_row output) db)
        else (err (leased_by_other task owner), db))
    else (ok false, db)

module _ (run task owner : String) (db : Database) where
  -- `complete_task` on a task that is there: it completes a running task that the owner holds, and
  -- only that; a running task of another owner is an error; any other task is left, with `False`.
  pub complete_exact :
      (output : Option Fields) {t : WorkflowTask}
      → Unique same_task db.tasks
      → find_row (at_task run task) db.tasks ≡ some t
      → complete_task run task owner output db ≡ completion run task owner output db t
  unfolding complete_task
  complete_exact output {t} unique found =
      let key = at_task run task in
      let one = one_task run task db.tasks unique in
      let mine = λ (u : WorkflowTask). is_running u.status && u.lease_owner == some owner in
      let other = λ (u : WorkflowTask). is_running u.status && not (u.lease_owner == some owner) in
      ground (
        arith,
        count_keyed key mine db.tasks t one found,
        any_keyed key other db.tasks t one found,
        update_keyed key mine (finish output) db.tasks t one found,
        update_held key mine (finish output) db.tasks t one found,
      )

  -- A running task that the owner holds is settled by a change of its row.
  abbrev pub settled_by :
      (WorkflowTask → WorkflowTask) → WorkflowTask → Result (Option TaskStatus) × Database
  settled_by change t =
      if is_running t.status
      then (if t.lease_owner == some owner
          then (ok (some (change t).status), with_task run task change db)
          else (err (leased_by_other task owner), db))
      else (ok none, db)

  retry_recycles :
      (message : String) {t : WorkflowTask}
      → Unique same_task db.tasks
      → find_row (at_task run task) db.tasks ≡ some t
      → retry_or_fail_task run task owner message db ≡ settled_by (recycle message) t
  unfolding retry_or_fail_task
  retry_recycles message {t} unique found =
      let key = at_task run task in
      let one = one_task run task db.tasks unique in
      let mine = λ (u : WorkflowTask). is_running u.status && u.lease_owner == some owner in
      let other = λ (u : WorkflowTask). is_running u.status && not (u.lease_owner == some owner) in
      ground (
        arith,
        find_keyed key mine db.tasks t one found,
        any_keyed key other db.tasks t one found,
        update_keyed key mine (recycle message) db.tasks t one found,
        update_held key mine (recycle message) db.tasks t one found,
      )

  -- What `retry_or_fail_task` should do, by the task's row.
  abbrev pub retrial : String → WorkflowTask → Result (Option TaskStatus) × Database
  retrial message = settled_by (failed_row message)

  -- `retry_or_fail_task` on a task that is there: the running task that the owner holds goes back to
  -- `pending` after its first failure and to `failed` after that; a running task of another owner is
  -- an error; any other task is left, with no status.
  pub retry_exact :
      (message : String) {t : WorkflowTask}
      → Unique same_task db.tasks
      → find_row (at_task run task) db.tasks ≡ some t
      → retry_or_fail_task run task owner message db ≡ retrial message t
  retry_exact message {t} unique found =
      retry_recycles message unique found
      ∙ ap (λ (change : WorkflowTask → WorkflowTask). settled_by change t)
          (fun_ext (recycle-failed_row message))

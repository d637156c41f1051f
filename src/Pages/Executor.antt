-- ===== src/Pages/Executor.antt =====
-- The scheduling loop `_drive` of `PageWorkflowExecutor`
-- (src/draftly/orchestration/page_workflow/executor.py). What happens while the loop waits is the
-- environment's: one `Round` for each pass.
pub mod Settled
mod Work
pub mod Termination
use Prim.Native.Nat.{Ordering}
use Prim.Native.String.{compare}
use draftly_agent_backend.Prelude.{
  ℕ, String, Option, none, some, Bool, true, false, ◌&&◌, not, List, [], ◌∷◌, map, keep, any,
  contains, sort_by, string_eq, if◌then◌else◌, Fields,
}
use draftly_agent_backend.Pages.Rows.{
  TaskType, TaskStatus, WorkflowTask, Database, is_pending, is_running, is_failed,
}
use draftly_agent_backend.Pages.Query.{Error, Result, ok, err, Query, pure, ◌>>=◌}
use draftly_agent_backend.Pages.Results.{is_nonempty}
use draftly_agent_backend.Pages.Tasks.{
  reset_expired_leases, claim_ready_tasks, complete_task, retry_or_fail_task, get_tasks,
}

-- What a handler left: its output, or the text of the exception it raised.
pub data Outcome : Type 0 where
  returned : Fields → Outcome
  raised : String → Outcome

-- The environment of one pass: what other workers commit before it, between the reset and the claim
-- and between the claim and the snapshot, the clock, the rows that other transactions hold, and the
-- gathered handlers, which may write to the database.
pub record Round : Type 0 where
  pub meanwhile : Database → Database
  pub after_reset : Database → Database
  pub after_claim : Database → Database
  pub now : ℕ
  pub locked : String → Bool
  pub gather : List WorkflowTask → Database → List Outcome × Database

-- `ExecutorResult`: sets of task ids; the loop never fills the third.
pub record ExecutorResult : Type 0 where
  pub completed_task_ids : List String
  pub failed_task_ids : List String
  pub deadlocked_task_ids : List String

-- How the loop ends. `ongoing` is a loop that was followed for the given passes and has not ended.
pub data Driven : Type 0 where
  finished : ExecutorResult → Driven
  deadlocked : List String → Driven
  unhandled : TaskType → Driven
  refused : Error → Driven
  ongoing : Driven

-- What one pass decides: to leave the loop, or to go on with the ids so far.
pub data Pass : Type 0 where
  leave : Driven → Pass
  again : ExecutorResult → Pass

-- `ids.add(id)`
abbrev pub add : String → List String → List String
add x xs = if contains xs x then xs else x ∷ xs

abbrev pub note_failed : Option TaskStatus → String → ExecutorResult → ExecutorResult
note_failed none task ids = ids
note_failed (some status) task ids =
    if is_failed status then record ids { failed_task_ids = add task ids.failed_task_ids } else ids

-- The body of the loop over `zip(claimed, outcomes)`.
unfoldable pub settle_task :
    String → String → WorkflowTask → Outcome → ExecutorResult → Query ExecutorResult
unfolding complete_task retry_or_fail_task ◌>>=◌
settle_task run owner task (raised message) ids =
    retry_or_fail_task run task.task_id owner message >>= λ status.
    pure (note_failed status task.task_id ids)
settle_task run owner task (returned output) ids =
    complete_task run task.task_id owner (some output) >>= λ done.
    pure (record ids { completed_task_ids = add task.task_id ids.completed_task_ids })

unfoldable pub settle_all :
    String → String → List WorkflowTask → List Outcome → ExecutorResult → Query ExecutorResult
unfolding settle_task ◌>>=◌
settle_all run owner [] outcomes ids = pure ids
settle_all run owner (t ∷ ts) [] ids = pure ids
settle_all run owner (t ∷ ts) (o ∷ os) ids =
    settle_task run owner t o ids >>= λ more. settle_all run owner ts os more

-- `if failed: return …; continue`
abbrev pub after_settling : Result ExecutorResult → Pass
after_settling (err e) = leave (refused e)
after_settling (ok ids) =
    if is_nonempty ids.failed_task_ids then leave (finished ids) else again ids

-- The first claimed task for which no handler is registered.
abbrev pub missing_handler : (TaskType → Bool) → List WorkflowTask → Option TaskType
missing_handler handles [] = none
missing_handler handles (t ∷ ts) =
    if handles t.task_type then missing_handler handles ts else some t.task_type

-- `raise ValueError` for a missing handler, before any handler runs.
abbrev pub if_handled : Option TaskType → Database → Pass × Database → Pass × Database
if_handled (some kind) db settled = (leave (unhandled kind), db)
if_handled none db settled = settled

-- The order of `sorted`, by code points.
abbrev pub code_order : String → String → Bool
code_order s t = elim (compare s t) [ Ordering.gt ↦ false | _ ↦ true ]

module _ (collate : String → String → Bool) where
  -- The pass when nothing was claimed: the snapshot decides.
  unfoldable pub idle : String → ExecutorResult → Database → Pass
  unfolding get_tasks
  idle run ids db =
      let snapshot = get_tasks collate run db in
      let waiting = keep (λ (t : WorkflowTask). is_pending t.status) snapshot in
      let working = keep (λ (t : WorkflowTask). is_running t.status) snapshot in
      if is_nonempty waiting && not (is_nonempty working)
      then leave (deadlocked (sort_by code_order (map (λ (t : WorkflowTask). t.task_id) waiting)))
      else if is_nonempty waiting
      then again ids
      else if is_nonempty working
      then again ids
      else leave (finished ids)

  -- The rest of a pass, after a claim.
  unfoldable pub dispatch :
      (TaskType → Bool)
      → String
      → String
      → Round
      → ExecutorResult
      → List WorkflowTask
      → Database
      → Pass × Database
  unfolding settle_all idle
  dispatch handles run owner round ids [] db =
      let seen = round.after_claim db in (idle run ids seen, seen)
  dispatch handles run owner round ids (t ∷ ts) db =
      let (outcomes, later) = round.gather (t ∷ ts) db in
      let (settled, after) = settle_all run owner (t ∷ ts) outcomes ids later in
      if_handled (missing_handler handles (t ∷ ts)) db (after_settling settled, after)

  -- One pass of the `while True` loop.
  unfoldable pub pass :
      (TaskType → Bool) → String → String → ℕ → Round → ExecutorResult → Database → Pass × Database
  unfolding dispatch reset_expired_leases claim_ready_tasks
  pass handles run owner lease round ids db =
      let (_, reset) = reset_expired_leases run round.now (round.meanwhile db) in
      let (claimed, held) =
        claim_ready_tasks collate round.locked round.now run owner lease 10
          (round.after_reset reset) in
      dispatch handles run owner round ids claimed held

  -- The loop, followed through the given passes.
  unfoldable pub drive :
      (TaskType → Bool)
      → String
      → String
      → ℕ
      → List Round
      → ExecutorResult
      → Database
      → Driven × Database
  unfolding pass
  drive handles run owner lease [] ids db = (ongoing, db)
  drive handles run owner lease (r ∷ rs) ids db =
      let (decided, after) = pass handles run owner lease r ids db in
      elim decided [
        | leave how ↦ (how, after)
        | again more ↦ drive handles run owner lease rs more after
      ]

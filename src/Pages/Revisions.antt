-- ===== src/Pages/Revisions.antt =====
-- The write/evaluate pairs that `PageWorkflowRepository` schedules: automatic revisions of named
-- source artifacts, and the revisions that a reviewer asks for.
pub mod Scheduling
use draftly_agent_backend.Prelude.{
  ℕ, suc, ◌+◌, max, String, append_str, strip, show_nat, Option, none, some, get_or, Bool, true,
  false, ◌&&◌, ◌||◌, not, List, [], ◌∷◌, map, keep, any, has_duplicate, sort_by, find_row,
  update_where, ◌==◌, nat_eq, string_eq, option_eq, ltb, if◌then◌else◌, Json, Items, Fields, null,
  bool, int, str, array, object, nil, cons, end, field, get_field,
}
use draftly_agent_backend.Pages.Rows.{
  PageState, PageStatus, TaskType, WorkflowTask, RevisionSchedule, Database, is_awaiting, is_write,
  is_evaluate,
}
use draftly_agent_backend.Pages.Query.{
  Error, Result, ok, err, Query, pure, raise, or_raise, raise_if, gets, modify, transaction, ◌>>=◌,
  ◌>>◌, no_page_state, duplicate_page_ids, attempt_out_of_range, revision_is_stale,
  not_next_attempt, comment_required, not_iterable,
}
use draftly_agent_backend.Pages.States.{at_page, with_pages, coalesce}
use draftly_agent_backend.Pages.Tasks.{queued, insert_task}
use draftly_agent_backend.Pages.Evaluations.{str_of}

-- `MAX_AUTOMATIC_EVALUATION_ATTEMPTS`
abbrev pub max_automatic_evaluation_attempts : ℕ
max_automatic_evaluation_attempts = 3

-- `f"{kind}:{page_id}:{version}"`
unfoldable pub task_name : String → String → ℕ → String
unfolding show_nat
task_name kind page version =
    append_str kind (append_str ":" (append_str page (append_str ":" (show_nat version))))

abbrev pub revise : ℕ → PageState → PageState
revise version p = record p {
  next_version = max p.next_version (version + 1);
  status = PageStatus.revising;
}

-- The three statements that attach one revision pair to a page.
unfoldable pub attach_pair : String → String → String → ℕ → ℕ → Fields → Fields → Query ℕ
unfolding task_name insert_task update_where
attach_pair run org page version now write_input evaluate_input = do
  let write_id = task_name "write" page version
  let evaluate_id = task_name "evaluate" page version
  modify (λ db. with_pages db (update_where (at_page run page) (revise version) db.pages))
  insert_task (queued run write_id org TaskType.write (some page) (some version) [] write_input now)
  insert_task (
      queued run evaluate_id org TaskType.evaluate (some page) (some version) (write_id ∷ [])
        evaluate_input now)
  pure version

-- The loop body of `schedule_revisions`, which returns the next version.
unfoldable pub schedule_revision : String → String → ℕ → RevisionSchedule → Query ℕ
unfolding attach_pair find_row
schedule_revision run org now r = do
  found ← gets (λ db. find_row (at_page run r.page_id) db.pages)
  page ← or_raise found (no_page_state r.page_id)
  raise_if
      (not (str_of page.latest_artifact_id == r.source_artifact_id)
        || not (page.latest_version == r.source_version))
      (revision_is_stale r.page_id)
  raise_if (not (page.evaluation_attempt + 1 == r.attempt)) (not_next_attempt r.attempt)
  attach_pair run org r.page_id (r.source_version + 1) now r.write_input r.evaluate_input

unfoldable pub schedule_each : String → String → ℕ → List RevisionSchedule → Query (List ℕ)
unfolding schedule_revision
schedule_each run org now [] = pure []
schedule_each run org now (r ∷ rs) = schedule_revision run org now r >>= λ version.
    schedule_each run org now rs >>= λ versions. pure (version ∷ versions)

abbrev pub is_out_of_range : RevisionSchedule → Bool
is_out_of_range r = ltb r.attempt 1 || ltb max_automatic_evaluation_attempts r.attempt

-- `schedule_revisions`, at the time `now`.
unfoldable pub schedule_revisions : String → String → ℕ → List RevisionSchedule → Query (List ℕ)
unfolding transaction schedule_each
schedule_revisions run org now [] = pure []
schedule_revisions run org now (r ∷ rs) = do
  raise_if (has_duplicate (map (λ (s : RevisionSchedule). s.page_id) (r ∷ rs))) duplicate_page_ids
  raise_if (any is_out_of_range (r ∷ rs)) attempt_out_of_range
  transaction (schedule_each run org now (r ∷ rs))

-- The characters of a text as one-character texts, and the keys of an object.
abbrev pub characters : String → Items
characters String.[] = nil
characters (String.◌∷◌ c s) = cons (str (String.◌∷◌ c "")) (characters s)

abbrev pub keys : Fields → Items
keys end = nil
keys (field k v rest) = cons (str k) (keys rest)

-- `list(value)`, which raises for what is not iterable.
abbrev pub list_of : Json → Query Items
list_of (array xs) = pure xs
list_of (object fs) = pure (keys fs)
list_of (str s) = pure (characters s)
list_of _ = raise not_iterable

-- `list((row["input_data"] or {}).get("evidence", []) if row else [])`
abbrev pub evidence_of : Option WorkflowTask → Query Items
evidence_of none = pure nil
evidence_of (some t) = elim (get_field "evidence" t.input_data) [
  | none ↦ pure nil
  | some value ↦ list_of value
]

-- `(plan_row["input_data"] or {}).get("task")`, `None` where the row or the key is missing.
abbrev pub plan_of : Option WorkflowTask → Json
plan_of none = null
plan_of (some t) = get_or (get_field "task" t.input_data) null

abbrev pub human_write_input : Json → String → Fields
human_write_input task comment =
    field "task" task
      (field "human_guided" (bool true) (field "revision_comment" (str comment) end))

abbrev pub human_evaluate_input : Json → Items → ℕ → String → Fields
human_evaluate_input task evidence attempt comment = field "task" task (
    field "evidence" (array evidence) (
      field "attempt" (int attempt)
        (field "human_guided" (bool true) (field "revision_comment" (str comment) end))))

module _ (collate : String → String → Bool) where
  -- `ORDER BY created_at DESC, task_id DESC`
  abbrev pub newest_first : WorkflowTask → WorkflowTask → Bool
  newest_first t u =
      ltb u.created_at t.created_at || (t.created_at == u.created_at && collate u.task_id t.task_id)

  -- The latest task of one kind for a page.
  unfoldable pub latest_task :
      (TaskType → Bool) → String → String → List WorkflowTask → Option WorkflowTask
  unfolding find_row
  latest_task kind run page tasks =
      find_row (λ t. true)
        (sort_by newest_first (
          keep (λ (t : WorkflowTask). t.run_id == run && t.page_id == some page && kind t.task_type)
            tasks))

  -- The loop body of `schedule_human_revisions`.
  unfoldable pub schedule_human_revision : String → String → ℕ → PageState → Query ℕ
  unfolding latest_task attach_pair
  schedule_human_revision run comment now page = do
    plan ← gets (λ db. latest_task is_write run page.page_id db.tasks)
    evidence_row ← gets (λ db. latest_task is_evaluate run page.page_id db.tasks)
    evidence ← evidence_of evidence_row
    attach_pair run page.org_id page.page_id (page.latest_version + 1) now
        (human_write_input (plan_of plan) comment)
        (human_evaluate_input (plan_of plan) evidence page.evaluation_attempt comment)

  unfoldable pub schedule_human_each : String → String → ℕ → List PageState → Query (List ℕ)
  unfolding schedule_human_revision
  schedule_human_each run comment now [] = pure []
  schedule_human_each run comment now (p ∷ ps) =
      schedule_human_revision run comment now p >>= λ version.
      schedule_human_each run comment now ps >>= λ versions. pure (version ∷ versions)

  -- The pages of a run that await human review, by page id.
  unfoldable pub escalated_pages : String → Database → List PageState
  escalated_pages run db =
      sort_by (λ (p q : PageState). collate p.page_id q.page_id)
        (keep (λ (p : PageState). p.run_id == run && is_awaiting p.status) db.pages)

  -- `schedule_human_revisions`, at the time `now`.
  unfoldable pub schedule_human_revisions : String → Option String → ℕ → Query (List ℕ)
  unfolding strip transaction escalated_pages schedule_human_each
  schedule_human_revisions run given now = do
    let comment = strip (coalesce given)
    raise_if (comment == "") comment_required
    transaction (gets (escalated_pages run) >>= schedule_human_each run comment now)

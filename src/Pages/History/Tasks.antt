-- ===== src/Pages/History/Tasks.antt =====
-- The history of a task: what every operation does to its row.
use draftly_agent_backend.Prelude.{
  ℕ, ◌+◌, ◌≤◌, String, Bool, true, false, not, ◌&&◌, some, ◌≡◌, refl, List, arith, Evolves,
  Evolves_refl, Evolves_trans, Evolves-insert_unless, Evolves-update_where, Evolves-update_All,
  Evolves-find_row, All-map, Unique-finds, find_row, update_where, ◌∙◌, ap, nat_eq, string_eq,
}
use draftly_agent_backend.Pages.Rows.{TaskStatus, WorkflowTask, Database}
use draftly_agent_backend.Pages.Tasks.{
  at_task, queued, start, claimed, claimable_ids, claim_ready_tasks, is_held, finish, recycle,
  is_expired, release, is_open, cancel, is_ready,
}
use draftly_agent_backend.Pages.Tasks.Claims.{
  same_task, same_task_self, same_task_comm, claimed-candidate,
}
use draftly_agent_backend.Pages.Operation.{Operation, run}
use draftly_agent_backend.Pages.Operation.Steps.{Steps, run-steps}
use draftly_agent_backend.Pages.History.Validity.{IsTaskSound, IsValid, valid_steps}

abbrev pub is_settled : TaskStatus → Bool
is_settled TaskStatus.completed = true
is_settled TaskStatus.failed = true
is_settled TaskStatus.cancelled = true
is_settled _ = false

-- A task keeps its plan, its retries never go back, and once it is completed, failed or cancelled
-- its row never changes.
pub record Progresses (t u : WorkflowTask) : Type 0 where
  pub run_id : u.run_id ≡ t.run_id
  pub task_id : u.task_id ≡ t.task_id
  pub org_id : u.org_id ≡ t.org_id
  pub task_type : u.task_type ≡ t.task_type
  pub page_id : u.page_id ≡ t.page_id
  pub artifact_version : u.artifact_version ≡ t.artifact_version
  pub dependencies : u.dependencies ≡ t.dependencies
  pub input_data : u.input_data ≡ t.input_data
  pub created_at : u.created_at ≡ t.created_at
  pub retries : t.infrastructure_retries ≤ u.infrastructure_retries
  pub settled : is_settled t.status ≡ true → u ≡ t

Progresses_refl : (t : WorkflowTask) → Progresses t t
Progresses_refl t = record {
  run_id = refl;
  task_id = refl;
  org_id = refl;
  task_type = refl;
  page_id = refl;
  artifact_version = refl;
  dependencies = refl;
  input_data = refl;
  created_at = refl;
  retries = omega arith;
  settled = λ s. refl;
}

Progresses_trans : (t u v : WorkflowTask) → Progresses t u → Progresses u v → Progresses t v
Progresses_trans t u v h k = record {
  run_id = k.run_id ∙ h.run_id;
  task_id = k.task_id ∙ h.task_id;
  org_id = k.org_id ∙ h.org_id;
  task_type = k.task_type ∙ h.task_type;
  page_id = k.page_id ∙ h.page_id;
  artifact_version = k.artifact_version ∙ h.artifact_version;
  dependencies = k.dependencies ∙ h.dependencies;
  input_data = k.input_data ∙ h.input_data;
  created_at = k.created_at ∙ h.created_at;
  retries = omega arith;
  settled = λ s.
      k.settled (ap (λ (w : WorkflowTask). is_settled w.status) (h.settled s) ∙ s) ∙ h.settled s;
}

-- A change of the columns that the plan does not hold, made only to a task that is not settled.
open_step :
    (t u : WorkflowTask)
    → is_settled t.status ≡ false
    → u ≡ record t {
      status = u.status;
      infrastructure_retries = u.infrastructure_retries;
      lease_owner = u.lease_owner;
      lease_expires_at = u.lease_expires_at;
      output_data = u.output_data;
      error = u.error;
    }
    → t.infrastructure_retries ≤ u.infrastructure_retries
    → Progresses t u
open_step t u unsettled e h = record {
  run_id = ap (λ (w : WorkflowTask). w.run_id) e;
  task_id = ap (λ (w : WorkflowTask). w.task_id) e;
  org_id = ap (λ (w : WorkflowTask). w.org_id) e;
  task_type = ap (λ (w : WorkflowTask). w.task_type) e;
  page_id = ap (λ (w : WorkflowTask). w.page_id) e;
  artifact_version = ap (λ (w : WorkflowTask). w.artifact_version) e;
  dependencies = ap (λ (w : WorkflowTask). w.dependencies) e;
  input_data = ap (λ (w : WorkflowTask). w.input_data) e;
  created_at = ap (λ (w : WorkflowTask). w.created_at) e;
  retries = h;
  settled = λ s. absurd (ground arith);
}

kept : (tasks : List WorkflowTask) → Evolves Progresses tasks tasks
kept = Evolves_refl Progresses Progresses_refl

updated :
    (test : WorkflowTask → Bool) (f : WorkflowTask → WorkflowTask)
    → ((t : WorkflowTask) → test t ≡ true → Progresses t (f t))
    → (tasks : List WorkflowTask) → Evolves Progresses tasks (update_where test f tasks)
updated = Evolves-update_where Progresses Progresses_refl

-- From a valid database, to a valid one in which every task that was there has progressed.
abbrev pub TasksProgress : Database → Database → Type 0
TasksProgress a b = IsValid a → IsValid b × Evolves Progresses a.tasks b.tasks

module _ (collate : String → String → Bool) where
  claim_progress :
      (locked : String → Bool) (now : ℕ) (run owner : String) (lease limit : ℕ) (db : Database)
      → IsValid db
      → Evolves Progresses db.tasks
          (claim_ready_tasks collate locked now run owner lease limit db).1.tasks
  unfolding claim_ready_tasks
  claim_progress locked now run owner lease limit db v =
      Evolves-update_All Progresses Progresses_refl
        (claimed run (claimable_ids collate locked limit run db.tasks)) (start owner (now + lease))
        db.tasks
        (All-map {P = λ t. find_row (same_task t) db.tasks ≡ some t}
          (λ t found taken.
            let both : (is_ready db.tasks run t && not (locked t.task_id)) ≡ true =
              claimed-candidate collate locked limit run db.tasks t v.tasks_unique found taken in
            open_step t (start owner (now + lease) t) (ground arith) refl (omega arith))
          db.tasks (Unique-finds same_task same_task_self same_task_comm db.tasks v.tasks_unique))

  task_steps : Steps collate TasksProgress
  task_steps = record {
    refl_step = λ a v. (v, kept a.tasks);
    trans_step = λ a b c h k v.
        let (w, first) = h v in
        let (x, second) = k w in
        (x, Evolves_trans Progresses Progresses_trans a.tasks b.tasks c.tasks first second);
    seed = λ run org p db v. ((valid_steps collate).seed run org p db v, kept db.tasks);
    reserve = λ run page db v. ((valid_steps collate).reserve run page db v, kept db.tasks);
    promotion = λ run page artifact version db v.
        ((valid_steps collate).promotion run page artifact version db v, kept db.tasks);
    approval = λ run page comment db v.
        ((valid_steps collate).approval run page comment db v, kept db.tasks);
    rejection = λ run reason db v. ((valid_steps collate).rejection run reason db v, kept db.tasks);
    evaluation = λ row db e v. ((valid_steps collate).evaluation row db e v, kept db.tasks);
    projection = λ run result kept_result db v.
        ((valid_steps collate).projection run result kept_result db v, kept db.tasks);
    revision = λ run page version db v.
        ((valid_steps collate).revision run page version db v, kept db.tasks);
    queue = λ run task org kind page version dependencies input now db v. (
      (valid_steps collate).queue run task org kind page version dependencies input now db v,
      Evolves-insert_unless Progresses Progresses_refl (at_task run task)
          (queued run task org kind page version dependencies input now) db.tasks,
    );
    claim = λ locked now run owner lease limit db v. (
      (valid_steps collate).claim locked now run owner lease limit db v,
      claim_progress locked now run owner lease limit db v,
    );
    completion = λ run task owner output db v. (
      (valid_steps collate).completion run task owner output db v,
      updated (is_held run task owner) (finish output)
          (λ t h. open_step t (finish output t) (ground arith) refl (omega arith)) db.tasks,
    );
    recycling = λ run task owner message db v. (
      (valid_steps collate).recycling run task owner message db v,
      Evolves-update_All Progresses Progresses_refl (is_held run task owner) (recycle message)
          db.tasks
          (All-map {P = IsTaskSound}
            (λ t sound h. open_step t (recycle message t) (ground arith) refl (ground arith))
            db.tasks v.tasks_sound),
    );
    expiry = λ run now db v. (
      (valid_steps collate).expiry run now db v,
      updated (is_expired run now) release
          (λ t h. open_step t (release t) (ground arith) refl (omega arith)) db.tasks,
    );
    cancelling = λ run db v. (
      (valid_steps collate).cancelling run db v,
      updated (is_open run) cancel (λ t h. open_step t (cancel t) (ground arith) refl (omega arith))
          db.tasks,
    );
  }

  -- After any trace from a valid database, a task that was there is there, with the plan that it was
  -- queued with and no fewer retries; if it was completed, failed or cancelled, its row is the same.
  pub task_history :
      (ops : List Operation) (db : Database) (run_id task_id : String) {t : WorkflowTask}
      → IsValid db
      → find_row (at_task run_id task_id) db.tasks ≡ some t
      → (u : WorkflowTask) × (find_row (at_task run_id task_id) (run collate ops db).tasks ≡ some u)
        × Progresses t u
  task_history ops db run_id task_id {t} v h =
      Evolves-find_row Progresses (at_task run_id task_id) (λ x y s. ground arith) db.tasks
        (run collate ops db).tasks t (run-steps task_steps ops db v).1 h

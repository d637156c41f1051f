-- ===== src/Pages/Operation/Steps.antt =====
-- A relation that every single statement respects is respected by every operation and every trace.
-- The composite operations (loops, transactions, early errors) are walked here once.
use draftly_agent_backend.Prelude.{
  ℕ, String, Option, none, some, Bool, ◌&&◌, ◌≡◌, inl, inr, Option-cases, Bool-cases, List, [], ◌∷◌,
  ◌++◌, find_row, update_where, insert_unless, ◌==◌, string_eq, Fields, Json, null, bool, int,
  number, str, array, object, get_field, nat_eq, returned_row,
}
use draftly_agent_backend.Pages.Rows.{
  NewPage, PageState, TaskType, WorkflowTask, PageEvaluationResult, EvaluationRow, Revision,
  RevisionSchedule, Database, is_awaiting,
}
use draftly_agent_backend.Pages.Query.{
  Error, Result, ok, err, Query, or_raise, modify, transaction, continue, settle, ◌>>=◌,
}
use draftly_agent_backend.Pages.States.{
  at_page, with_pages, seeded, create_pages, bump, reserve_next_version, promotable, promote,
  record_artifact, approve_page, awaiting_page, approve_each, count_found, approve_escalated_pages,
  reject_page, mark_escalated_failed,
}
use draftly_agent_backend.Pages.Tasks.{
  at_task, with_tasks, queued, insert_task, enqueue_task, claim_ready_tasks, is_held, finish,
  complete_task, recycle, retry_or_fail_task, is_expired, release, reset_expired_leases, is_open,
  cancel, cancel_pending_tasks,
}
use draftly_agent_backend.Pages.Evaluations.{
  require_sealed, at_evaluation, upsert_evaluation, projectable, project, project_state,
  evaluation_body, record_evaluation,
}
use draftly_agent_backend.Pages.Revisions.{
  revise, attach_pair, schedule_each, schedule_revisions, list_of, evidence_of, schedule_human_each,
  schedule_human_revisions,
}
use draftly_agent_backend.Pages.Operation.{Operation, apply, run}

-- One field for each statement that writes.
pub record Steps (collate : String → String → Bool) (R : Database → Database → Type 0)
    : Type 0 where
  pub refl_step : (a : Database) → R a a
  pub trans_step : (a b c : Database) → R a b → R b c → R a c
  pub seed :
      (run org : String) (p : NewPage) (db : Database)
      → R db (with_pages db (insert_unless (at_page run p.page_id) (seeded run org p) db.pages))
  pub reserve :
      (run page : String) (db : Database)
      → R db (with_pages db (update_where (at_page run page) bump db.pages))
  pub promotion :
      (run page artifact : String) (version : ℕ) (db : Database)
      → R db (
          with_pages db (
            update_where
              (promotable run page artifact version)
              (promote artifact version)
              db.pages))
  pub approval :
      (run page : String) (comment : Option String) (db : Database)
      → R db (with_pages db (update_where (awaiting_page run page) (approve_page comment) db.pages))
  pub rejection :
      (run reason : String) (db : Database)
      → R db (
          with_pages db (
            update_where
              (λ (p : PageState). p.run_id == run && is_awaiting p.status)
              (reject_page reason)
              db.pages))
  pub evaluation :
      (row : EvaluationRow) (db : Database)
      → find_row (at_evaluation row.run_id row.result.artifact_id) db.evaluations ≡ none
      → R db (record db { evaluations = db.evaluations ++ row ∷ [] })
  pub projection :
      (run : String) (result kept : PageEvaluationResult) (db : Database)
      → R db (
          with_pages db
            (update_where (projectable run result db.revisions) (project kept) db.pages))
  pub revision :
      (run page : String) (version : ℕ) (db : Database)
      → R db (with_pages db (update_where (at_page run page) (revise version) db.pages))
  pub queue :
      (run task org : String) (kind : TaskType) (page : Option String) (version : Option ℕ)
      (dependencies : List String) (input : Fields) (now : ℕ) (db : Database)
      → R db (
          with_tasks db (
            insert_unless
              (at_task run task)
              (queued run task org kind page version dependencies input now)
              db.tasks))
  pub claim :
      (locked : String → Bool) (now : ℕ) (run owner : String) (lease limit : ℕ) (db : Database)
      → R db (claim_ready_tasks collate locked now run owner lease limit db).1
  pub completion :
      (run task owner : String) (output : Option Fields) (db : Database)
      → R db (with_tasks db (update_where (is_held run task owner) (finish output) db.tasks))
  pub recycling :
      (run task owner message : String) (db : Database)
      → R db (with_tasks db (update_where (is_held run task owner) (recycle message) db.tasks))
  pub expiry :
      (run : String) (now : ℕ) (db : Database)
      → R db (with_tasks db (update_where (is_expired run now) release db.tasks))
  pub cancelling :
      (run : String) (db : Database)
      → R db (with_tasks db (update_where (is_open run) cancel db.tasks))

module _ {collate : String → String → Bool} {R : Database → Database → Type 0}
    (steps : Steps collate R) where
  open steps use {refl_step, trans_step}

  -- Whatever a query returns or raises, it takes the database along `R`.
  record Keeps {A : Type 0} (m : Query A) : Type 0 where
    at : (db : Database) → R db (m db).1

  continue_keeps :
      {A B : Type 0} (r : Result A) (f : A → Query B) (before after : Database)
      → R before after
      → ((a : A) → Keeps (f a))
      → R before (continue r f after).1
  continue_keeps (ok a) f before after h k =
      trans_step before after (f a after).1 h ((k a).at after)
  continue_keeps (err e) f before after h k = h

  bind-Keeps :
      {A B : Type 0} (m : Query A) (f : A → Query B)
      → Keeps m
      → ((a : A) → Keeps (f a))
      → Keeps (m >>= f)
  unfolding ◌>>=◌
  bind-Keeps m f h k = record { at = λ db. continue_keeps (m db).0 f db (m db).1 (h.at db) k }

  -- A query that only reads.
  reads : {A : Type 0} (f : Database → Result A) → Keeps (λ db. (f db, db))
  reads f = record { at = refl_step }

  or_raise-Keeps : {A : Type 0} (o : Option A) (e : Error) → Keeps (or_raise o e)
  or_raise-Keeps none e = reads _
  or_raise-Keeps (some a) e = reads _

  settle_keeps :
      {A : Type 0} (before : Database) (done : Result A × Database)
      → R before done.1
      → R before (settle before done).1
  settle_keeps before (ok a, after) h = h
  settle_keeps before (err e, after) h = refl_step before

  transaction-Keeps : {A : Type 0} (m : Query A) → Keeps m → Keeps (transaction m)
  unfolding transaction
  transaction-Keeps m h = record { at = λ db. settle_keeps db (m db) (h.at db) }

  create_pages-Keeps :
      (run org : String) (pages : List NewPage) → Keeps (create_pages run org pages)
  unfolding create_pages
  create_pages-Keeps run org [] = reads _
  create_pages-Keeps run org (p ∷ ps) = record {
    at = λ db.
        let next =
          with_pages db (insert_unless (at_page run p.page_id) (seeded run org p) db.pages) in
        trans_step db next (create_pages run org ps next).1 (steps.seed run org p db)
          ((create_pages-Keeps run org ps).at next);
  }

  approve_each-Keeps :
      (run : String) (comment : Option String) (pages : List String) (n : ℕ)
      → Keeps (approve_each run comment pages n)
  unfolding approve_each
  approve_each-Keeps run comment [] n = reads _
  approve_each-Keeps run comment (p ∷ ps) n = record {
    at = λ db.
        let test = awaiting_page run p in
        let next = with_pages db (update_where test (approve_page comment) db.pages) in
        let m = count_found (returned_row test (approve_page comment) db.pages) n in
        trans_step db next (approve_each run comment ps m next).1 (steps.approval run p comment db)
          ((approve_each-Keeps run comment ps m).at next);
  }

  approve-Keeps :
      (run : String) (pages : List String) (comment : Option String)
      → Keeps (approve_escalated_pages run pages comment)
  unfolding approve_escalated_pages
  approve-Keeps run [] comment = reads _
  approve-Keeps run (p ∷ ps) comment = approve_each-Keeps run comment (p ∷ ps) 0

  require_sealed-Keeps :
      (artifact : String) (r : Option Revision) → Keeps (require_sealed artifact r)
  require_sealed-Keeps artifact none = reads _
  require_sealed-Keeps artifact (some r) = elim (Bool-cases r.is_sealed) [
    | inl e ↦ rw e (reads _)
    | inr e ↦ rw e (reads _)
  ]

  upsert-Keeps : (row : EvaluationRow) → Keeps (upsert_evaluation row)
  unfolding upsert_evaluation
  upsert-Keeps row = record {
    at = λ db.
        elim (Option-cases
          (find_row (at_evaluation row.run_id row.result.artifact_id) db.evaluations)) [
            | inl e ↦ rw e (steps.evaluation row db e)
            | inr (old, e) ↦ rw e (refl_step db)
          ];
  }

  project-Keeps :
      (run : String) (result kept : PageEvaluationResult) → Keeps (project_state run result kept)
  unfolding project_state
  project-Keeps run result kept = record { at = steps.projection run result kept }

  revise-Keeps :
      (run page : String) (version : ℕ)
      → Keeps
          (modify (λ db. with_pages db (update_where (at_page run page) (revise version) db.pages)))
  revise-Keeps run page version = record { at = steps.revision run page version }

  queue-Keeps :
      (run task org : String) (kind : TaskType) (page : Option String) (version : Option ℕ)
      (dependencies : List String) (input : Fields) (now : ℕ)
      → Keeps (insert_task (queued run task org kind page version dependencies input now))
  unfolding insert_task
  queue-Keeps run task org kind page version dependencies input now = record {
    at = steps.queue run task org kind page version dependencies input now;
  }

  evaluation-Keeps :
      (result : PageEvaluationResult) (run_id org_id : Option String)
      → Keeps (record_evaluation result run_id org_id)
  unfolding record_evaluation
  evaluation-Keeps result run_id org_id = transaction-Keeps (evaluation_body result run_id org_id) (
      bind-Keeps _ _ (reads _) λ found.
        bind-Keeps _ _ (require_sealed-Keeps result.artifact_id found) λ artifact.
          bind-Keeps _ _ (reads _) λ page. bind-Keeps _ _ (or_raise-Keeps page _) λ p.
            bind-Keeps _ _ (reads _) λ _. bind-Keeps _ _ (reads _) λ _.
              bind-Keeps _ _ (reads _)
                λ _. bind-Keeps _ _ (upsert-Keeps _) λ kept. project-Keeps _ result kept.result)

  attach_pair-Keeps :
      (run org page : String) (version now : ℕ) (write_input evaluate_input : Fields)
      → Keeps (attach_pair run org page version now write_input evaluate_input)
  unfolding attach_pair
  attach_pair-Keeps run org page version now write_input evaluate_input =
      bind-Keeps _ _ (revise-Keeps run page version) λ _.
        bind-Keeps _ _ (queue-Keeps run _ org _ _ _ _ write_input now)
          λ _. bind-Keeps _ _ (queue-Keeps run _ org _ _ _ _ evaluate_input now) λ _. reads _

  schedule_each-Keeps :
      (run org : String) (now : ℕ) (revisions : List RevisionSchedule)
      → Keeps (schedule_each run org now revisions)
  unfolding schedule_each
  schedule_each-Keeps run org now [] = reads _
  schedule_each-Keeps run org now (r ∷ rs) =
      bind-Keeps _ _
        (bind-Keeps _ _ (reads _) λ page. bind-Keeps _ _ (or_raise-Keeps page _) λ p.
          bind-Keeps _ _ (reads _)
            λ _. bind-Keeps _ _ (reads _) λ _. attach_pair-Keeps run org r.page_id _ now _ _)
        λ version. bind-Keeps _ _ (schedule_each-Keeps run org now rs) λ versions. reads _

  schedule-Keeps :
      (run org : String) (now : ℕ) (revisions : List RevisionSchedule)
      → Keeps (schedule_revisions run org now revisions)
  unfolding schedule_revisions
  schedule-Keeps run org now [] = reads _
  schedule-Keeps run org now (r ∷ rs) = bind-Keeps _ _ (reads _) λ _.
      bind-Keeps _ _ (reads _) λ _. transaction-Keeps _ (schedule_each-Keeps run org now (r ∷ rs))

  list_of-Keeps : (value : Json) → Keeps (list_of value)
  list_of-Keeps null = reads _
  list_of-Keeps (bool _) = reads _
  list_of-Keeps (int _) = reads _
  list_of-Keeps (number _) = reads _
  list_of-Keeps (str _) = reads _
  list_of-Keeps (array _) = reads _
  list_of-Keeps (object _) = reads _

  evidence-Keeps : (row : Option WorkflowTask) → Keeps (evidence_of row)
  evidence-Keeps none = reads _
  evidence-Keeps (some t) = elim (Option-cases (get_field "evidence" t.input_data)) [
    | inl e ↦ rw (e, evidence_of) (reads _)
    | inr (value, e) ↦ rw (e, evidence_of) (list_of-Keeps value)
  ]

  human_each-Keeps :
      (run comment : String) (now : ℕ) (pages : List PageState)
      → Keeps (schedule_human_each collate run comment now pages)
  unfolding schedule_human_each
  human_each-Keeps run comment now [] = reads _
  human_each-Keeps run comment now (p ∷ ps) =
      bind-Keeps _ _
        (bind-Keeps _ _ (reads _) λ plan. bind-Keeps _ _ (reads _) λ row.
          bind-Keeps _ _ (evidence-Keeps row)
            λ evidence. attach_pair-Keeps run p.org_id p.page_id _ now _ _)
        λ version. bind-Keeps _ _ (human_each-Keeps run comment now ps) λ versions. reads _

  human-Keeps :
      (run : String) (given : Option String) (now : ℕ)
      → Keeps (schedule_human_revisions collate run given now)
  unfolding schedule_human_revisions
  human-Keeps run given now =
      bind-Keeps _ _ (reads _) λ _.
        transaction-Keeps _ (bind-Keeps _ _ (reads _) λ pages. human_each-Keeps run _ now pages)

  -- Every operation, whether it returns or raises, takes the database along the relation.
  pub apply-step : (op : Operation) (db : Database) → R db (apply collate op db)
  unfolding apply reserve_next_version record_artifact mark_escalated_failed enqueue_task
      complete_task retry_or_fail_task reset_expired_leases cancel_pending_tasks
  apply-step (Operation.create_pages run org pages) = (create_pages-Keeps run org pages).at
  apply-step (Operation.reserve_next_version run page) = steps.reserve run page
  apply-step (Operation.record_artifact run page artifact version) =
      steps.promotion run page artifact version
  apply-step (Operation.approve_escalated_pages run pages comment) =
      (approve-Keeps run pages comment).at
  apply-step (Operation.mark_escalated_failed run comment) = steps.rejection run _
  apply-step (Operation.record_evaluation result run org) = (evaluation-Keeps result run org).at
  apply-step (Operation.schedule_revisions run org now revisions) =
      (schedule-Keeps run org now revisions).at
  apply-step (Operation.schedule_human_revisions run comment now) = (human-Keeps run comment now).at
  apply-step (Operation.enqueue_task run task org kind page version dependencies input now) =
      steps.queue run task org kind page version dependencies input now
  apply-step (Operation.claim_ready_tasks locked now run owner lease limit) =
      steps.claim locked now run owner lease limit
  apply-step (Operation.complete_task run task owner output) =
      steps.completion run task owner output
  apply-step (Operation.retry_or_fail_task run task owner message) =
      steps.recycling run task owner message
  apply-step (Operation.reset_expired_leases run now) = steps.expiry run now
  apply-step (Operation.cancel_pending_tasks run) = steps.cancelling run

  -- So does every trace.
  pub run-steps : (ops : List Operation) (db : Database) → R db (run collate ops db)
  unfolding run
  run-steps [] db = refl_step db
  run-steps (op ∷ ops) db =
      trans_step db (apply collate op db) (run collate ops (apply collate op db)) (apply-step op db)
        (run-steps ops (apply collate op db))

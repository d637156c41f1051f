-- ===== src/Pages/History/Validity.antt =====
-- The invariant of the database: keys are unique, and every row is sound.
use draftly_agent_backend.Prelude.{
  ◌+◌, ◌≤◌, ◌<◌, String, Bool, true, none, ◌≡◌, ◌≢◌, refl, List, ◌&&◌, arith, All, All-update_where,
  All-insert_unless, Unique, Unique-update_where, Unique-insert_unless, Unique-append, update_where,
  eq_comm, nat_eq, string_eq, ◌==◌,
}
use draftly_agent_backend.Pages.Rows.{
  PageState, PageStatus, TaskStatus, WorkflowTask, EvaluationRow, Database, is_awaiting,
}
use draftly_agent_backend.Pages.States.{
  at_page, with_pages, seeded, bump, promotable, promote, awaiting_page, approve_page, reject_page,
}
use draftly_agent_backend.Pages.States.Promotion.{same_page}
use draftly_agent_backend.Pages.Tasks.{
  with_tasks, queued, start, claimed, claim_ready_tasks, claimable_ids, is_held, finish, recycle,
  is_expired, release, is_open, cancel,
}
use draftly_agent_backend.Pages.Tasks.Claims.{same_task}
use draftly_agent_backend.Pages.Evaluations.{at_evaluation, projectable, project}
use draftly_agent_backend.Pages.Revisions.{revise}
use draftly_agent_backend.Pages.Operation.{Operation, apply, run}
use draftly_agent_backend.Pages.Operation.Steps.{Steps, apply-step, run-steps}

-- The statuses that a page has only with an accepted artifact.
abbrev pub needs_artifact : PageStatus → Bool
needs_artifact PageStatus.evaluating = true
needs_artifact PageStatus.passed = true
needs_artifact PageStatus.awaiting_human_review = true
needs_artifact PageStatus.failed = true
needs_artifact _ = Bool.false

pub record IsPageSound (p : PageState) : Type 0 where
  pub identified : needs_artifact p.status ≡ true → p.latest_artifact_id ≢ none
  pub versioned : p.latest_artifact_id ≢ none → 0 < p.latest_version
  pub explained : p.status ≡ PageStatus.awaiting_human_review → p.escalation_reason ≢ none
  pub fresh : p.status ≡ PageStatus.pending → p.latest_artifact_id ≡ none
  pub not_writing : p.status ≢ PageStatus.writing

pub record IsTaskSound (t : WorkflowTask) : Type 0 where
  pub leased : t.status ≡ TaskStatus.running → (t.lease_owner ≢ none) × (t.lease_expires_at ≢ none)
  pub unleased :
      t.status ≡ TaskStatus.pending → (t.lease_owner ≡ none) × (t.lease_expires_at ≡ none)
  pub retried_once : t.infrastructure_retries ≤ 1
  pub failed_twice : t.status ≡ TaskStatus.failed → t.infrastructure_retries ≡ 1
  pub clean : t.status ≡ TaskStatus.completed → t.error ≡ none

abbrev pub same_evaluation : EvaluationRow → EvaluationRow → Bool
same_evaluation e = at_evaluation e.run_id e.result.artifact_id

pub record IsValid (db : Database) : Type 0 where
  pub pages_sound : All IsPageSound db.pages
  pub pages_unique : Unique same_page db.pages
  pub tasks_sound : All IsTaskSound db.tasks
  pub tasks_unique : Unique same_task db.tasks
  pub evaluations_unique : Unique same_evaluation db.evaluations

pages_updated :
    (db : Database) (test : PageState → Bool) (f : PageState → PageState)
    → ((p : PageState) → test p ≡ true → IsPageSound p → IsPageSound (f p))
    → ((x y : PageState) → same_page (f x) y ≡ same_page x y)
    → ((x y : PageState) → same_page x (f y) ≡ same_page x y)
    → IsValid db
    → IsValid (with_pages db (update_where test f db.pages))
pages_updated db test f keeps left right v = record {
  pages_sound = All-update_where IsPageSound test f keeps db.pages v.pages_sound;
  pages_unique = Unique-update_where same_page test f left right db.pages v.pages_unique;
  tasks_sound = v.tasks_sound;
  tasks_unique = v.tasks_unique;
  evaluations_unique = v.evaluations_unique;
}

tasks_updated :
    (db : Database) (test : WorkflowTask → Bool) (f : WorkflowTask → WorkflowTask)
    → ((t : WorkflowTask) → test t ≡ true → IsTaskSound t → IsTaskSound (f t))
    → ((x y : WorkflowTask) → same_task (f x) y ≡ same_task x y)
    → ((x y : WorkflowTask) → same_task x (f y) ≡ same_task x y)
    → IsValid db
    → IsValid (with_tasks db (update_where test f db.tasks))
tasks_updated db test f keeps left right v = record {
  pages_sound = v.pages_sound;
  pages_unique = v.pages_unique;
  tasks_sound = All-update_where IsTaskSound test f keeps db.tasks v.tasks_sound;
  tasks_unique = Unique-update_where same_task test f left right db.tasks v.tasks_unique;
  evaluations_unique = v.evaluations_unique;
}

abbrev KeepsValid : Database → Database → Type 0
KeepsValid a b = IsValid a → IsValid b

module _ (collate : String → String → Bool) where
  pub valid_steps : Steps collate KeepsValid
  unfolding claim_ready_tasks
  valid_steps = record {
    refl_step = λ a v. v;
    trans_step = λ a b c h k v. k (h v);
    seed = λ run org p db v. record {
      pages_sound =
          All-insert_unless IsPageSound _ (seeded run org p) (ground arith) db.pages v.pages_sound;
      pages_unique =
          Unique-insert_unless same_page (seeded run org p) db.pages
            (λ y. ground (arith, eq_comm y.run_id run, eq_comm y.page_id p.page_id)) v.pages_unique;
      tasks_sound = v.tasks_sound;
      tasks_unique = v.tasks_unique;
      evaluations_unique = v.evaluations_unique;
    };
    reserve = λ run page db.
        pages_updated db (at_page run page) bump (λ p t s. ground arith) (λ x y. refl)
          (λ x y. refl);
    promotion = λ run page artifact version db.
        pages_updated db (promotable run page artifact version) (promote artifact version)
          (λ p t s. ground arith) (λ x y. refl) (λ x y. refl);
    approval = λ run page comment db.
        pages_updated db (awaiting_page run page) (approve_page comment) (λ p t s. ground arith)
          (λ x y. refl) (λ x y. refl);
    rejection = λ run reason db.
        pages_updated db (λ p. p.run_id == run && is_awaiting p.status) (reject_page reason)
          (λ p t s. ground arith) (λ x y. refl) (λ x y. refl);
    evaluation = λ row db e v. record {
      pages_sound = v.pages_sound;
      pages_unique = v.pages_unique;
      tasks_sound = v.tasks_sound;
      tasks_unique = v.tasks_unique;
      evaluations_unique =
          Unique-append same_evaluation row db.evaluations
            (λ y. ground (
              arith,
              eq_comm y.run_id row.run_id,
              eq_comm y.result.artifact_id row.result.artifact_id,
            ))
            e v.evaluations_unique;
    };
    projection = λ run result kept db.
        pages_updated db (projectable run result db.revisions) (project kept)
          (λ p t s. ground arith) (λ x y. refl) (λ x y. refl);
    revision = λ run page version db.
        pages_updated db (at_page run page) (revise version) (λ p t s. ground arith) (λ x y. refl)
          (λ x y. refl);
    queue = λ run task org kind page version dependencies input now db v. record {
      pages_sound = v.pages_sound;
      pages_unique = v.pages_unique;
      tasks_sound =
          All-insert_unless IsTaskSound _
            (queued run task org kind page version dependencies input now) (ground arith) db.tasks
            v.tasks_sound;
      tasks_unique =
          Unique-insert_unless same_task
            (queued run task org kind page version dependencies input now) db.tasks
            (λ y. ground (arith, eq_comm y.run_id run, eq_comm y.task_id task)) v.tasks_unique;
      evaluations_unique = v.evaluations_unique;
    };
    claim = λ locked now run owner lease limit db.
        tasks_updated db (claimed run (claimable_ids collate locked limit run db.tasks))
          (start owner (now + lease)) (λ p t s. ground arith) (λ x y. refl) (λ x y. refl);
    completion = λ run task owner output db.
        tasks_updated db (is_held run task owner) (finish output) (λ p t s. ground arith)
          (λ x y. refl) (λ x y. refl);
    recycling = λ run task owner message db.
        tasks_updated db (is_held run task owner) (recycle message) (λ p t s. ground arith)
          (λ x y. refl) (λ x y. refl);
    expiry = λ run now db.
        tasks_updated db (is_expired run now) release (λ p t s. ground arith) (λ x y. refl)
          (λ x y. refl);
    cancelling = λ run db.
        tasks_updated db (is_open run) cancel (λ p t s. ground arith) (λ x y. refl) (λ x y. refl);
  }

  pub apply-IsValid : (op : Operation) (db : Database) → IsValid db → IsValid (apply collate op db)
  apply-IsValid op db = apply-step valid_steps op db

  -- Every trace keeps the invariant.
  pub run-IsValid :
      (ops : List Operation) (db : Database) → IsValid db → IsValid (run collate ops db)
  run-IsValid ops db = run-steps valid_steps ops db

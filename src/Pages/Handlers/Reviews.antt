-- ===== src/Pages/Handlers/Reviews.antt =====
-- When the cross-page review is scheduled.
use mathlib.Core.Path.{subst}
use draftly_agent_backend.Prelude.{
  refl, sym, map, All, has_duplicate, String, none, some, Bool, true, false, ◌≡◌, ap, ◌∙◌, inl, inr,
  [], ◌∷◌, any, arith, Bool-cases, find_row, find_row-insert_unless, get_or, ==_self, string_eq,
  Fields, field, end, object,
}
use draftly_agent_backend.Pages.Rows.{TaskStatus, TaskType, WorkflowTask, Database}
use draftly_agent_backend.Pages.States.{get_page_states}
use draftly_agent_backend.Pages.Results.{state_page}
use draftly_agent_backend.Pages.Tasks.{at_task, enqueue_task, insert_task, queued}
use draftly_agent_backend.Pages.Handlers.{Answer, done, fails, then_answer, bind_done, from_answer}
use draftly_agent_backend.Pages.Handlers.Artifacts.{PagePlan}
use draftly_agent_backend.Pages.Handlers.Evaluator.{
  Setting, snapshot, all_passed, lacks_artifact, review_id, enqueue_review,
  schedule_review_if_ready,
}
use draftly_agent_backend.Pages.Handlers.CrossPage.{ReviewSetting, check_states, check_review}
use draftly_agent_backend.Pages.Handlers.Snapshots.{
  IsTaken, snapshot-IsTaken, check_artifacts_lem, replaying_lem,
}

module _ (setting : Setting) (collate : String → String → Bool) (t : WorkflowTask) where
  -- The task of a review, as it is there after it was enqueued: a task of its id stays.
  abbrev review_row : PagePlan → Fields → Database → WorkflowTask
  review_row page shot db = get_or (find_row (at_task t.run_id (review_id setting shot)) db.tasks) (
      queued t.run_id (review_id setting shot) t.org_id TaskType.cross_page_review none none
        (t.task_id ∷ [])
        (field "last_page_task" page.dump (field "artifact_snapshot" (object shot) end))
        setting.now)

  enqueued :
      (page : PagePlan) (shot : Fields) (db : Database)
      → find_row
          (at_task t.run_id (review_id setting shot))
          (enqueue_review setting t page shot db).1.tasks
        ≡ some (review_row page shot db)
  unfolding enqueue_task insert_task
  enqueued page shot db =
      find_row-insert_unless (at_task t.run_id (review_id setting shot)) _ db.tasks
        (ground (arith, ==_self t.run_id, ==_self (review_id setting shot)))

  -- The step that returns, where all pages have passed, has taken the branch that enqueues.
  review_enqueued :
      (page : PagePlan) (db : Database) (u : Unit {0})
      → (schedule_review_if_ready setting collate t page db).0 ≡ done u
      → all_passed (get_page_states collate t.run_id db) ≡ true
      → (shot : Fields) × (row : WorkflowTask) × (snapshot setting
            (get_page_states collate t.run_id db)
          ≡ done shot)
        × (any lacks_artifact (get_page_states collate t.run_id db) ≡ false)
        × (row ≡ review_row page shot db)
        × (find_row
              (at_task t.run_id (review_id setting shot))
              (schedule_review_if_ready setting collate t page db).1.tasks
            ≡ some row)
  unfolding schedule_review_if_ready
  review_enqueued page db u h passed =
      let states = get_page_states collate t.run_id db in
      elim (Bool-cases (any lacks_artifact states)) [
        | inl e ↦ absurd (ground (arith, rw (passed, e) at h))
        | inr e ↦
            let (shot, taken, _, same) =
              bind_done (from_answer (snapshot setting states)) (enqueue_review setting t page) db u
                (rw (passed, e) at h) in
            (
              shot,
              review_row page shot db,
              taken,
              e,
              refl,
              rw (passed, e)
                  (ap
                      (λ (q : Answer (Unit {0}) × Database).
                        find_row (at_task t.run_id (review_id setting shot)) q.1.tasks)
                      same
                    ∙ enqueued page shot db),
            )
      ]

  -- The task that a cross-page review should be: pending and without a lease, after the task whose
  -- evaluation was the last, with the plan of that page and the snapshot.
  abbrev pub due_review : PagePlan → Fields → WorkflowTask
  due_review page shot = record {
    run_id = t.run_id;
    task_id = review_id setting shot;
    org_id = t.org_id;
    task_type = TaskType.cross_page_review;
    page_id = none;
    artifact_version = none;
    dependencies = t.task_id ∷ [];
    status = TaskStatus.pending;
    infrastructure_retries = 0;
    lease_owner = none;
    lease_expires_at = none;
    input_data = field "last_page_task" page.dump (field "artifact_snapshot" (object shot) end);
    output_data = none;
    error = none;
    created_at = setting.now;
  }

  -- A review step that returns, where all pages of the run have passed, have different ids and no
  -- review of the run is a task yet: the due review is a task of the run then; its snapshot holds
  -- the identity, the version and the hash of each accepted artifact; and its handler, with the same
  -- drafts, accepts the run's pages if their ids, paths and artifacts pass its check of each page.
  pub review_scheduled :
      (rs : ReviewSetting) (page : PagePlan) (db : Database) (u : Unit {0})
      → rs.latest ≡ setting.latest
      → (schedule_review_if_ready setting collate t page db).0 ≡ done u
      → all_passed (get_page_states collate t.run_id db) ≡ true
      → has_duplicate (map state_page (get_page_states collate t.run_id db)) ≡ false
      → ((shot : Fields) → find_row (at_task t.run_id (review_id setting shot)) db.tasks ≡ none)
      → let states = get_page_states collate t.run_id db in
        (shot : Fields) × (find_row
            (at_task t.run_id (review_id setting shot))
            (schedule_review_if_ready setting collate t page db).1.tasks
          ≡ some (due_review page shot))
        × All (IsTaken setting.latest shot) states
        × (check_review rs (due_review page shot) states ≡ check_states states)
  unfolding check_review
  review_scheduled rs page db u drafts h passed distinct fresh =
      let states = get_page_states collate t.run_id db in
      let (shot, row, taken, _, is_row, found) = review_enqueued page db u h passed in
      let held = snapshot-IsTaken setting states shot taken distinct in
      (
        shot,
        found ∙ ap some (is_row ∙ rw (fresh shot) refl),
        held,
        rw
            (
              replaying_lem shot states passed,
              check_artifacts_lem rs shot states
                  (subst (λ latest. All (IsTaken latest shot) states) (sym drafts) held),
            )
            (then_tt (check_states states)),
      )
    where
      then_tt : (a : Answer (Unit {0})) → then_answer a (λ _. done tt) ≡ a
      then_tt (done v) = refl
      then_tt (fails e) = refl

-- ===== src/Pages/Scenarios/Runs.antt =====
-- The loop, the reports and the decisions on the same run.
use draftly_agent_backend.Prelude.{
  ◌+◌, String, join_with, true, false, ◌&&◌, none, some, ◌≡◌, refl, List, [], ◌∷◌, map, any, All,
  length, find_row, update_where, count_where, insert_unless, end, has_duplicate, nat_eq, string_eq,
  ◌==◌,
}
use draftly_agent_backend.Pages.Rows.{
  PageStatus, TaskStatus, PageState, WorkflowTask, RevisionSchedule, PageEvaluationResult, Database,
}
use draftly_agent_backend.Pages.Query.{ok, transaction, ◌>>=◌}
use draftly_agent_backend.Pages.States.Reviews.{awaits}
use draftly_agent_backend.Pages.Tasks.{
  is_open, get_tasks, claim_ready_tasks, claimable_ids, complete_task, reset_expired_leases,
  insert_task,
}
use draftly_agent_backend.Pages.Revisions.{
  schedule_revisions, schedule_each, schedule_revision, attach_pair,
}
use draftly_agent_backend.Pages.Revisions.Scheduling.{
  schedule_revisions_lem, next_version_of, IsPaired, IsInRange,
}
use draftly_agent_backend.Pages.Results.{
  result_from_states, from_pages, is_nonempty, page_part, evaluation_part,
  result_from_states-from_pages,
}
use draftly_agent_backend.Pages.Paths.{
  normalize_page_id, page_id, split_slash, forward, IsPart, normalize_page_id_lem,
}
use draftly_agent_backend.Pages.Executor.{
  Round, returned, drive, pass, dispatch, idle, settle_all, settle_task,
}
use draftly_agent_backend.Pages.Executor.Settled.{
  drive_finished, drive_deadlocked, IsSettled, IsDeadlocked,
}
use draftly_agent_backend.Pages.Resume.{report, resume_approve, resume_reject, no_ids}
use draftly_agent_backend.Pages.Resume.Decisions.{resume_approve_lem, resume_reject_lem}
use draftly_agent_backend.Pages.Results.Listing.{IsListed, result_from_states_lem}
use draftly_agent_backend.Pages.Scenarios.{
  collate, nobody, guide, setup_page, written, waiting, verdict, start_db,
}

-- A revision of the guide's first version.
abbrev revision : RevisionSchedule
revision = record {
  page_id = "guide.md";
  source_artifact_id = "d1";
  source_version = 1;
  attempt = 1;
  write_input = end;
  evaluate_input = end;
}

schedule_revisions_lem_example :
    (2 ∷ [] ≡ map next_version_of (revision ∷ []))
    × All (IsPaired "r" (schedule_revisions "r" "o" 40 (revision ∷ []) start_db).1) (revision ∷ [])
    × (has_duplicate {A = String} ("guide.md" ∷ []) ≡ false)
    × All IsInRange (revision ∷ [])
unfolding schedule_revisions schedule_each schedule_revision attach_pair insert_task insert_unless
    transaction ◌>>=◌ find_row update_where
schedule_revisions_lem_example =
    schedule_revisions_lem "r" "o" 40 (revision ∷ []) start_db (2 ∷ []) refl

-- The second revision of the batch is of a page that does not exist.
abbrev half_known : List RevisionSchedule
half_known = revision ∷ record revision { page_id = "lost.md" } ∷ []

result_from_states_lem_example :
    let r = result_from_states (guide ∷ setup_page ∷ []) in
    All (IsListed r) (guide ∷ setup_page ∷ [])
    × (length r.passed_page_ids + length r.escalated_page_ids + length r.failed_page_ids ≡ 2)
    × (r.passed ≡ (
        is_nonempty (guide ∷ setup_page ∷ [])
        && (length r.escalated_page_ids == 0 && length r.failed_page_ids == 0)))
    × (r.ready_for_review
        ≡ (is_nonempty (guide ∷ setup_page ∷ []) && length r.failed_page_ids == 0))
result_from_states_lem_example = result_from_states_lem (guide ∷ setup_page ∷ []) refl

abbrev judged : PageState × PageEvaluationResult
judged = (record guide { status = PageStatus.revising }, verdict)

result_from_states-from_pages_example :
    result_from_states (map page_part (judged ∷ []))
    ≡ from_pages (map evaluation_part (judged ∷ []))
result_from_states-from_pages_example =
    result_from_states-from_pages (judged ∷ []) ((refl, refl), tt)

normalize_page_id_lem_example :
    All IsPart (split_slash "docs/guide.md")
    × (any (λ s. s == "..") (split_slash "docs/guide.md") ≡ false)
    × (normalize_page_id "docs/guide.md" ≡ page_id "docs/guide.md")
unfolding normalize_page_id split_slash forward join_with
normalize_page_id_lem_example = normalize_page_id_lem "docs\\.//guide.md" "docs/guide.md" refl

-- A pass in which every handler returns.
abbrev quiet_round : Round
quiet_round = record {
  meanwhile = λ db. db;
  after_reset = λ db. db;
  after_claim = λ db. db;
  now = 30;
  locked = nobody;
  gather = λ tasks db. (map (λ (t : WorkflowTask). returned end) tasks, db);
}

-- The expired lease is taken again, then both tasks complete.
drive_finished_example :
    IsSettled "r"
      (drive collate (λ k. true) "r" "w2" 60 (quiet_round ∷ quiet_round ∷ []) no_ids start_db).1
unfolding drive pass dispatch idle settle_all settle_task get_tasks claim_ready_tasks claimable_ids
    reset_expired_leases complete_task ◌>>=◌ update_where count_where
drive_finished_example =
    drive_finished collate (λ k. true) "r" "w2" 60 (quiet_round ∷ quiet_round ∷ []) no_ids
      (record {
        completed_task_ids = "write:setup.md:2" ∷ "evaluate:guide.md:1" ∷ [];
        failed_task_ids = [];
        deadlocked_task_ids = [];
      })
      start_db refl refl

-- The evaluation waits for a write that was cancelled.
abbrev stuck_db : Database
stuck_db = record start_db {
  tasks = record written { status = TaskStatus.cancelled } ∷ waiting ∷ [];
}

drive_deadlocked_example :
    IsDeadlocked collate "r"
      ("evaluate:guide.md:1" ∷ [])
      (drive collate (λ k. true) "r" "w2" 60 (quiet_round ∷ []) no_ids stuck_db).1
unfolding drive pass dispatch idle get_tasks claim_ready_tasks claimable_ids reset_expired_leases
    update_where count_where
drive_deadlocked_example =
    drive_deadlocked collate (λ k. true) "r" "w2" 60 (quiet_round ∷ []) no_ids
      ("evaluate:guide.md:1" ∷ []) stuck_db
      (record { unlocked = λ x. refl; unseen = λ db. refl }, tt) refl

resume_approve_lem_example :
    let after = (resume_approve collate "r" (some "fine") start_db).1 in
    (any (awaits "r") after.pages ≡ false)
    × ((resume_approve collate "r" (some "fine") start_db).0 ≡ ok (report collate "r" after))
    × ((report collate "r" after).escalated_page_ids ≡ [])
    × (resume_approve collate "r" none after ≡ (ok (report collate "r" after), after))
resume_approve_lem_example = resume_approve_lem collate "r" (some "fine") none start_db

resume_reject_lem_example :
    let after = (resume_reject collate "r" none start_db).1 in
    (any (is_open "r") after.tasks ≡ false)
    × (any (awaits "r") after.pages ≡ false)
    × ((resume_reject collate "r" none start_db).0 ≡ ok (report collate "r" after))
    × ((report collate "r" after).escalated_page_ids ≡ [])
resume_reject_lem_example = resume_reject_lem collate "r" none start_db

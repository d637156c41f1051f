-- ===== src/Pages/Scenarios/Rounds.antt =====
-- The loop on a run of two tasks, the first of which inserts a third.
use draftly_agent_backend.Prelude.{
  ℕ, true, ◌≡◌, refl, sym, inl, inr, List, [], ◌∷◌, ◌++◌, arith, map, length-map, find_row,
  insert_unless, Unique-insert_unless, Option-cases, end, ◌==◌, nat_eq, string_eq, if◌then◌else◌,
}
use draftly_agent_backend.Pages.Rows.{WorkflowTask, Database}
use draftly_agent_backend.Pages.Tasks.{with_tasks}
use draftly_agent_backend.Pages.Tasks.Claims.{same_task, same_task_comm}
use draftly_agent_backend.Pages.Executor.{Round, returned, drive}
use draftly_agent_backend.Pages.Executor.Termination.{IsCalm, Ends, drive-Ends}
use draftly_agent_backend.Pages.Resume.{no_ids}
use draftly_agent_backend.Pages.Scenarios.{collate, nobody, written, waiting, start_db}

-- What the first handler inserts: a task that has had its infrastructure retry.
abbrev retried : WorkflowTask
retried = record waiting {
  task_id = "write:setup.md:1";
  dependencies = [];
  infrastructure_retries = 1;
}

abbrev inserting : Round
inserting = record {
  meanwhile = λ db. db;
  after_reset = λ db. db;
  after_claim = λ db. db;
  now = 1;
  locked = nobody;
  gather = λ tasks db. (
    map (λ (t : WorkflowTask). returned end) tasks,
    with_tasks db (insert_unless (same_task retried) retried db.tasks),
  );
}

abbrev answering : Round
answering = record {
  meanwhile = λ db. db;
  after_reset = λ db. db;
  after_claim = λ db. db;
  now = 2;
  locked = nobody;
  gather = λ tasks db. (map (λ (t : WorkflowTask). returned end) tasks, db);
}

-- The settlings that a round adds, told by its clock.
abbrev made : Round → ℕ
made r = if r.now == 1 then 1 else 0

append_none : (ts : List WorkflowTask) → ts ≡ ts ++ []
append_none [] = refl
append_none (t ∷ ts) = rw (sym (append_none ts))

inserting-IsCalm : IsCalm "r" 1 inserting
unfolding insert_unless
inserting-IsCalm = record {
  alone = λ db. refl;
  undisturbed = λ db. refl;
  unseen = λ db. refl;
  unlocked = λ task. refl;
  answers = λ ts db. length-map (λ (t : WorkflowTask). returned end) ts;
  inserts = λ ts db. elim (Option-cases (find_row (same_task retried) db.tasks)) [
    | inl e ↦ (retried ∷ [], rw (insert_unless, e), (refl, tt), omega arith)
    | inr (t, e) ↦ ([], rw (insert_unless, e) (append_none db.tasks), tt, omega arith)
  ];
  unique = λ ts db. Unique-insert_unless same_task retried db.tasks (same_task_comm retried);
}

answering-IsCalm : IsCalm "r" 0 answering
answering-IsCalm = record {
  alone = λ db. refl;
  undisturbed = λ db. refl;
  unseen = λ db. refl;
  unlocked = λ task. refl;
  answers = λ ts db. length-map (λ (t : WorkflowTask). returned end) ts;
  inserts = λ ts db. ([], append_none db.tasks, tt, omega arith);
  unique = λ ts db h. h;
}

abbrev rounds : List Round
rounds = inserting ∷ answering ∷ answering ∷ answering ∷ []

abbrev fresh_db : Database
fresh_db = record start_db { tasks = written ∷ waiting ∷ [] }

drive-Ends_example : Ends (drive collate (λ k. true) "r" "w" 60 rounds no_ids fresh_db).0
unfolding find_row
drive-Ends_example =
    drive-Ends collate (λ k. true) "r" "w" made 60 rounds no_ids fresh_db (λ kind. refl)
      (inserting-IsCalm, (answering-IsCalm, (answering-IsCalm, (answering-IsCalm, tt)))) refl
      (refl, (refl, tt)) (omega arith)

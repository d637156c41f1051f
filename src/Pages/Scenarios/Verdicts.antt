-- ===== src/Pages/Scenarios/Verdicts.antt =====
-- The evaluation of the guide's first version, which does not pass.
use draftly_agent_backend.Prelude.{
  ◌+◌, ◌≤◌, none, some, true, false, ◌≡◌, refl, [], ◌∷◌, Json, null, str, object, nil, cons, end,
  field,
}
use draftly_agent_backend.Pages.Rows.{
  EvaluationStatus, WorkflowTask, PageEvaluationResult, Database, PageStatus,
}
use draftly_agent_backend.Pages.Revisions.Scheduling.{has_pair}
use draftly_agent_backend.Pages.Handlers.{done}
use draftly_agent_backend.Pages.Handlers.Artifacts.{DraftFile, PagePlan}
use draftly_agent_backend.Pages.Handlers.Evaluator.{
  review_id, schedule_review_if_ready, Setting, Subject, Metrics, subject_of, evaluate_page,
}
use draftly_agent_backend.Pages.Handlers.Reviews.{due_review, review_scheduled}
use draftly_agent_backend.Pages.Handlers.Snapshots.{IsTaken}
use draftly_agent_backend.Pages.Handlers.CrossPage.{
  ReviewSetting, unavailable, check_states, check_review,
}
use draftly_agent_backend.Prelude.{All}
use draftly_agent_backend.Pages.Handlers.Writer.{
  truncated, Awaited, Attempts, ongoing, invoke_writer, invoke_writer-ends,
}
use draftly_agent_backend.Pages.States.{get_page_states}
use draftly_agent_backend.Pages.Tasks.{at_task}
use draftly_agent_backend.Prelude.{List, ◌≢◌, arith, find_row, Fields}
use draftly_agent_backend.Pages.Handlers.Verdicts.{revision_scheduled}
use draftly_agent_backend.Pages.Scenarios.{guide, collate, waiting, start_db}

abbrev evidence_item : Json
evidence_item = object (field "id" (str "src/oauth.py") end)

abbrev plan : PagePlan
plan = record { id = "guide.md"; evidence = cons evidence_item nil; dump = object end }

abbrev file : DraftFile
file = record {
  path = "guide.md";
  artifact_id = "d1";
  version = some 1;
  content_hash = some "h1";
  action = "update";
  content = some "# Guide";
}

abbrev poor : Metrics
poor = record {
  others = [];
  quality = record {
    blocking = true;
    passed = false;
    reason = "show an example";
    score = null;
    dump = null;
  };
}

abbrev setting : Setting
setting = record {
  validate = λ fields. some plan;
  int_of = λ v. none;
  latest = λ page. some file;
  compute_metrics = λ evidence draft. poor;
  grade = λ draft evidence. none;
  dump_result = λ result. null;
  digest = λ shot. "0";
  max_attempts = 3;
  now = 50;
}

abbrev evaluation_task : WorkflowTask
evaluation_task = record waiting { input_data = field "task" (object end) end }

abbrev outcome : PageEvaluationResult
outcome = record {
  page_id = "guide.md";
  artifact_id = "d1";
  version = 1;
  content_hash = "h1";
  attempt = 1;
  status = EvaluationStatus.revision_required;
  score = null;
  metrics = null ∷ [];
  revision_feedback = "show an example" ∷ [];
}

-- Before its first evaluation.
abbrev before : Database
before = record start_db { evaluations = [] }

revision_scheduled_example :
    (s : Subject) × (subject_of setting evaluation_task ≡ done s)
    × (s.human_guided ≡ false)
    × ((setting.compute_metrics s.evidence s.artifact.content).quality.passed ≡ false)
    × (1 ≤ 1)
    × (1 + 1 ≤ 3)
    × (has_pair "r" "guide.md" (1 + 1) (evaluate_page setting collate evaluation_task before).1
        ≡ true)
unfolding evaluate_page subject_of draftly_agent_backend.Pages.Query.◌>>=◌
revision_scheduled_example =
    revision_scheduled setting collate evaluation_task before outcome refl refl

-- The only page of the run has passed.
abbrev settled : Database
settled = record start_db {
  pages = record guide { status = PageStatus.passed } ∷ [];
  tasks = evaluation_task ∷ [];
}

-- The handler of the review, with the same drafts.
abbrev reviewing : ReviewSetting
reviewing = record {
  validate = λ fields. some plan;
  construct = λ id path action. none;
  latest = λ page. some file;
  review = λ states. unavailable;
  max_attempts = 3;
  now = 60;
}

review_scheduled_example :
    (shot : Fields) × (find_row
        (at_task "r" (review_id setting shot))
        (schedule_review_if_ready setting collate evaluation_task plan settled).1.tasks
      ≡ some (due_review setting collate evaluation_task plan shot))
    × All (IsTaken setting.latest shot) (get_page_states collate "r" settled)
    × (check_review reviewing
          (due_review setting collate evaluation_task plan shot)
          (get_page_states collate "r" settled)
        ≡ check_states (get_page_states collate "r" settled))
unfolding schedule_review_if_ready get_page_states find_row
review_scheduled_example =
    review_scheduled setting collate evaluation_task reviewing plan settled tt refl refl refl refl
      (λ shot. refl)

-- While each of the outputs is cut off, another writer charges its own task.
abbrev cut_off : List Awaited
cut_off =
    record { ends = truncated; charged = "write:setup" ∷ [] }
    ∷ record { ends = truncated; charged = "write:setup" ∷ "write:index" ∷ [] }
    ∷ record { ends = truncated; charged = [] }
    ∷ []

abbrev claimed_before : Attempts
claimed_before = ("write:guide", 1) ∷ []

-- Of a budget of three, an earlier claim spent one: the writer is invoked twice more.
invoke_writer-ends_example :
    let (ending, n) = invoke_writer 3 1024 "write:guide" cut_off claimed_before in
    (n ≤ 2) × (ending ≢ ongoing)
invoke_writer-ends_example =
    invoke_writer-ends 3 1024 "write:guide" cut_off claimed_before (omega arith) (omega arith)

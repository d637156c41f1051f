-- ===== src/Pages/Scenarios/Corrections.antt =====
-- A cross-page review that asks for a correction of the guide.
use draftly_agent_backend.Prelude.{
  none, some, false, ◌≡◌, ◌≢◌, refl, [], ◌∷◌, All, has_duplicate, string_eq, nil, end, field,
  object,
}
use draftly_agent_backend.Pages.Rows.{PageStatus, WorkflowTask, Database}
use draftly_agent_backend.Pages.States.{get_page_states}
use draftly_agent_backend.Pages.Handlers.CrossPage.{judged, Outcome, ReviewSetting, review_run}
use draftly_agent_backend.Pages.Handlers.Corrections.{IsRevised, corrections_scheduled}
use draftly_agent_backend.Pages.Scenarios.{guide, collate, waiting, start_db}

abbrev setting : ReviewSetting
setting = record {
  validate = λ fields. some (record { id = "guide.md"; evidence = nil; dump = object end });
  construct = λ id path action. none;
  latest = λ page. some (record {
    path = "guide.md";
    artifact_id = "d1";
    version = some 1;
    content_hash = some "h1";
    action = "update";
    content = some "# Guide";
  });
  review = λ states. judged "correct" (
      record { task_id = "guide.md"; path = "guide.md"; instructions = "Name the scope" ∷ [] }
      ∷ []);
  max_attempts = 3;
  now = 60;
}

abbrev review_task : WorkflowTask
review_task = record waiting { input_data = field "task" (object end) end }

-- The only page of the run has passed.
abbrev settled : Database
settled = record start_db {
  pages = record guide { status = PageStatus.passed } ∷ [];
  tasks = review_task ∷ [];
}

abbrev asked : Outcome
asked = record { passed = false; corrected_page_ids = "guide.md" ∷ [] }

corrections_scheduled_example :
    (asked.corrected_page_ids ≢ [])
    × (has_duplicate asked.corrected_page_ids ≡ false)
    × All
        (IsRevised setting
          (get_page_states collate "r" settled)
          "r"
          (review_run setting collate review_task settled).1)
        asked.corrected_page_ids
unfolding review_run draftly_agent_backend.Pages.Query.◌>>=◌
corrections_scheduled_example =
    corrections_scheduled setting collate review_task settled asked refl refl

-- ===== src/Pages/Evaluations.antt =====
-- `record_evaluation` of `PageWorkflowRepository`: one immutable evaluation for each sealed
-- artifact, and its projection onto the state of the page.
pub mod Recording
use draftly_agent_backend.Prelude.{
  ℕ, suc, ◌+◌, String, is_empty, join_with, Option, none, some, get_or, Bool, true, false, ◌&&◌,
  ◌||◌, not, List, [], ◌∷◌, ◌++◌, any, find_row, update_where, returned_row, ◌==◌, nat_eq,
  string_eq, option_eq, if◌then◌else◌,
}
use draftly_agent_backend.Pages.Rows.{
  PageState, PageStatus, EvaluationStatus, PageEvaluationResult, EvaluationRow, Revision, Database,
}
use draftly_agent_backend.Pages.Query.{
  Result, ok, err, Query, pure, raise, or_raise, raise_if, gets, transaction, ◌>>=◌, ◌>>◌,
  not_sealed, no_page_state, not_current_artifact, stale_version, hash_mismatch, projection_lost,
}
use draftly_agent_backend.Pages.States.{at_page, with_pages}

-- `str(value)` of a column that may be null.
abbrev pub str_of : Option String → String
str_of none = "None"
str_of (some s) = s

abbrev pub has_id : String → Revision → Bool
has_id artifact r = r.id == artifact

-- `if artifact is None or not artifact["sealed"]: raise`
abbrev pub require_sealed : String → Option Revision → Query Revision
require_sealed artifact none = raise (not_sealed artifact)
require_sealed artifact (some r) = if r.is_sealed then pure r else raise (not_sealed artifact)

-- `given or str(column)`: an empty text counts as not given.
abbrev pub given_or : Option String → String → String
given_or none column = column
given_or (some s) column = if is_empty s then column else s

-- The unique key of the evaluations.
abbrev pub at_evaluation : String → String → EvaluationRow → Bool
at_evaluation run artifact e = e.run_id == run && e.result.artifact_id == artifact

-- `ON CONFLICT (run_id, artifact_id) DO UPDATE SET artifact_id = EXCLUDED.artifact_id RETURNING …`:
-- the row that is there already stays as it is, and is the one returned.
abbrev pub keep_or_insert :
    EvaluationRow → Option EvaluationRow → Database → EvaluationRow × Database
keep_or_insert row (some old) db = (old, db)
keep_or_insert row none db = (row, record db { evaluations = db.evaluations ++ row ∷ [] })

unfoldable pub upsert_evaluation : EvaluationRow → Query EvaluationRow
unfolding find_row
upsert_evaluation row db =
    let stored = find_row (at_evaluation row.run_id row.result.artifact_id) db.evaluations in
    let (kept, after) = keep_or_insert row stored db in (ok kept, after)

-- The status of a page after an evaluation.
abbrev pub projected_status : EvaluationStatus → PageStatus
projected_status EvaluationStatus.passed = PageStatus.passed
projected_status EvaluationStatus.revision_required = PageStatus.revising
projected_status EvaluationStatus.awaiting_human_review = PageStatus.awaiting_human_review

abbrev pub escalation : EvaluationStatus → List String → Option String
escalation EvaluationStatus.awaiting_human_review feedback = some (join_with "; " feedback)
escalation _ feedback = none

-- `EXISTS (SELECT 1 FROM draft_revisions WHERE id = … AND content_hash = … AND sealed)`
abbrev pub is_sealed_as : String → String → Revision → Bool
is_sealed_as artifact hash r = r.id == artifact && r.content_hash == some hash && r.is_sealed

abbrev pub projectable : String → PageEvaluationResult → List Revision → PageState → Bool
projectable run result revisions p =
    at_page run result.page_id p
    && (p.latest_artifact_id == some result.artifact_id
        && p.latest_version == result.version
        && any (is_sealed_as result.artifact_id result.content_hash) revisions)

abbrev pub project : PageEvaluationResult → PageState → PageState
project kept p = record p {
  status = projected_status kept.status;
  evaluation_attempt = kept.attempt;
  escalation_reason = escalation kept.status kept.revision_feedback;
}

abbrev pub found_or_lost : Option PageState → Result (Unit {0})
found_or_lost none = err projection_lost
found_or_lost (some p) = ok tt

-- `UPDATE documentation_page_states … RETURNING page_id`
unfoldable pub project_state :
    String → PageEvaluationResult → PageEvaluationResult → Query (Unit {0})
unfolding update_where returned_row
project_state run result kept db =
    let test = projectable run result db.revisions in
    (
      found_or_lost (returned_row test (project kept) db.pages),
      with_pages db (update_where test (project kept) db.pages),
    )

-- `record_evaluation`, inside its transaction.
unfoldable pub evaluation_body :
    PageEvaluationResult → Option String → Option String → Query (Unit {0})
unfolding find_row upsert_evaluation project_state
evaluation_body result run_id org_id = do
  artifact ←
      require_sealed result.artifact_id
        (← gets (λ db. find_row (has_id result.artifact_id) db.revisions))
  let run = given_or run_id artifact.run_id
  let org = given_or org_id artifact.org_id
  found ← gets (λ db. find_row (at_page run result.page_id) db.pages)
  page ← or_raise found (no_page_state result.page_id)
  raise_if (not (str_of page.latest_artifact_id == result.artifact_id)) not_current_artifact
  raise_if (not (page.latest_version == result.version)) stale_version
  raise_if (not (str_of artifact.content_hash == result.content_hash)) hash_mismatch
  kept ← upsert_evaluation (record { run_id = run; org_id = org; result = result })
  project_state run result kept.result

unfoldable pub record_evaluation :
    PageEvaluationResult → Option String → Option String → Query (Unit {0})
unfolding transaction evaluation_body
record_evaluation result run_id org_id = transaction (evaluation_body result run_id org_id)

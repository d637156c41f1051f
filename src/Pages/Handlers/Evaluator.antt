-- ===== src/Pages/Handlers/Evaluator.antt =====
-- `PageEvaluatorHandler`: the verdict on one sealed artifact, and what it schedules. The metrics, the
-- rubric grader, the validation of a plan and the digest of a snapshot are parameters.
use draftly_agent_backend.Prelude.{
  ℕ, ◌+◌, String, append_str, is_empty, strip, Option, none, some, Bool, true, false, ◌&&◌, ◌||◌,
  not, List, [], ◌∷◌, ◌++◌, map, keep, any, all, contains, ◌==◌, nat_eq, string_eq, ltb, leb,
  if◌then◌else◌, Json, null, int, str, array, object, Items, nil, cons, Fields, end, field,
  get_field, is_given, is_true,
}
use draftly_agent_backend.Pages.Rows.{
  TaskType, EvaluationStatus, PageState, WorkflowTask, RevisionSchedule, PageEvaluationResult,
  is_passed,
}
use draftly_agent_backend.Pages.States.{get_page_states}
use draftly_agent_backend.Pages.Tasks.{enqueue_task}
use draftly_agent_backend.Pages.Evaluations.{record_evaluation}
use draftly_agent_backend.Pages.Revisions.{schedule_revisions, list_of}
use draftly_agent_backend.Pages.Handlers.{
  no_version, attempt_out_of_budget, needs_comment, evidence_no_list, wrong_type,
  passed_without_artifact, Answer, done, fails, then_answer, Step, return, from_answer, call, ◌>>=◌,
}
use draftly_agent_backend.Pages.Handlers.Artifacts.{
  PagePlan, DraftFile, DocumentArtifact, document_task, current_artifact,
}

-- A metric of `compute_page_metrics`, and its dump.
pub record Metric : Type 0 where
  pub blocking : Bool
  pub passed : Bool
  pub reason : String
  pub score : Json
  pub dump : Json

-- The metrics of a draft: the last of them is the quality.
pub record Metrics : Type 0 where
  pub others : List Metric
  pub quality : Metric

abbrev pub all_metrics : Metrics → List Metric
all_metrics m = m.others ++ m.quality ∷ []

-- What the handler is given beside the database: `int` of a value that is no plain number (`none`
-- where it raises or is negative), and the time.
pub record Setting : Type 0 where
  pub validate : Fields → Option PagePlan
  pub int_of : Json → Option ℕ
  pub latest : String → Option DraftFile
  pub compute_metrics : List Fields → String → Metrics
  pub grade : String → List Fields → Option (List String)
  pub dump_result : PageEvaluationResult → Json
  pub digest : Fields → String
  pub max_attempts : ℕ
  pub now : ℕ

-- `(entry.get(field) or "").strip()`
abbrev pub signal : Option Json → Answer Bool
signal (some (str s)) = done (not (is_empty (strip s)))
signal v = if is_given v then fails wrong_type else done false

abbrev pub or_signal : Answer Bool → Answer Bool → Answer Bool
or_signal (fails e) second = fails e
or_signal (done true) second = done true
or_signal (done false) second = second

-- `_evidence_has_signals`
abbrev pub evidence_has_signals : Fields → Answer Bool
evidence_has_signals entry =
    or_signal (signal (get_field "id" entry))
      (or_signal (signal (get_field "url" entry)) (signal (get_field "topic" entry)))

abbrev pub keep_entry : Fields → Answer Bool → Answer (List Fields) → Answer (List Fields)
keep_entry entry (fails e) rest = fails e
keep_entry entry (done test) (fails e) = fails e
keep_entry entry (done test) (done entries) = done (if test then entry ∷ entries else entries)

-- The evidence that carries a signal.
unfoldable pub normalized : Items → Answer (List Fields)
unfolding strip
normalized nil = done []
normalized (cons v rest) =
    let more = normalized rest in
    elim v [ object entry ↦ keep_entry entry (evidence_has_signals entry) more | _ ↦ more ]

-- `input_data.get("evidence")`, or the plan's own.
abbrev pub evidence_for : PagePlan → Option Json → Answer Items
evidence_for page none = done page.evidence
evidence_for page (some null) = done page.evidence
evidence_for page (some (array xs)) = done xs
evidence_for page (some v) = fails evidence_no_list

module _ (setting : Setting) where
  -- `int(input_data.get("attempt") or version)`
  abbrev pub attempt_for : ℕ → Option Json → Answer ℕ
  attempt_for version none = done version
  attempt_for version (some (int n)) = done (if n == 0 then version else n)
  attempt_for version (some v) =
      if is_true v
      then elim (setting.int_of v) [ none ↦ fails attempt_out_of_budget | some n ↦ done n ]
      else done version

-- What the verdict is about.
pub record Subject : Type 0 where
  pub page : PagePlan
  pub artifact : DocumentArtifact
  pub evidence : List Fields
  pub attempt : ℕ
  pub human_guided : Bool

abbrev pub is_any : List Fields → Bool
is_any [] = false
is_any (e ∷ es) = true

-- The reasons that the grader adds to the feedback.
abbrev pub add_reasons : List String → List String → List String
add_reasons feedback [] = feedback
add_reasons feedback (reason ∷ reasons) =
    add_reasons
      (if not (is_empty reason) && not (contains feedback reason)
        then feedback ++ reason ∷ []
        else feedback)
      reasons

abbrev pub with_grade : List String → Option (List String) → List String
with_grade feedback none = feedback
with_grade feedback (some reasons) = add_reasons feedback reasons

abbrev pub own_feedback : Metrics → List String
own_feedback m =
    map (λ (x : Metric). x.reason)
      (keep (λ (x : Metric). x.blocking && not x.passed) (all_metrics m))

module _ (setting : Setting) where
  -- The status and the feedback, on each branch of `__call__`.
  unfoldable pub verdict : Subject → Metrics → EvaluationStatus × List String
  verdict s m =
      let graded = with_grade (own_feedback m) (setting.grade s.artifact.content s.evidence) in
      if not (is_any s.evidence)
      then (
        EvaluationStatus.awaiting_human_review,
        "No page-scoped evidence is available; human review required" ∷ [],
      )
      else if m.quality.passed
      then (EvaluationStatus.passed, [])
      else if s.human_guided
      then (EvaluationStatus.awaiting_human_review, graded)
      else if leb setting.max_attempts s.attempt
      then (EvaluationStatus.awaiting_human_review, graded)
      else (EvaluationStatus.revision_required, graded)

  -- The `PageEvaluationResult` of a subject.
  unfoldable pub evaluated : Subject → PageEvaluationResult
  unfolding verdict
  evaluated s =
      let m = setting.compute_metrics s.evidence s.artifact.content in
      let (status, feedback) = verdict s m in
      record {
        page_id = s.page.id;
        artifact_id = s.artifact.artifact_id;
        version = s.artifact.version;
        content_hash = s.artifact.content_hash;
        attempt = s.attempt;
        status = status;
        score = m.quality.score;
        metrics = map (λ (x : Metric). x.dump) (all_metrics m);
        revision_feedback = feedback;
      }

  abbrev pub version_of : Option ℕ → Answer ℕ
  version_of none = fails no_version
  version_of (some version) = done version

  -- The attempt of a task, within the budget.
  abbrev pub budgeted : ℕ → Answer ℕ
  budgeted attempt =
      if ltb attempt 1 || ltb setting.max_attempts attempt
      then fails attempt_out_of_budget
      else done attempt

  abbrev pub make_subject : WorkflowTask → PagePlan → ℕ → DocumentArtifact → List Fields → Subject
  make_subject t page attempt a entries = record {
    page = page;
    artifact = a;
    evidence = entries;
    attempt = attempt;
    human_guided = is_given (get_field "human_guided" t.input_data);
  }

  -- The artifact and the evidence.
  abbrev pub read_subject : WorkflowTask → PagePlan → ℕ → ℕ → Answer Subject
  read_subject t page version attempt =
      then_answer (current_artifact setting.latest page.id version none) (λ a.
        then_answer (evidence_for page (get_field "evidence" t.input_data)) (λ evidence.
          then_answer (normalized evidence)
            (λ entries. done (make_subject t page attempt a entries))))

  -- A revision that a human asked for needs the comment.
  abbrev pub commented_subject : WorkflowTask → PagePlan → ℕ → ℕ → Answer Subject
  commented_subject t page version attempt =
      if is_given (get_field "human_guided" t.input_data)
        && not (is_given (get_field "revision_comment" t.input_data))
      then fails needs_comment
      else read_subject t page version attempt

  abbrev pub subject_at : WorkflowTask → PagePlan → ℕ → Answer Subject
  subject_at t page version =
      then_answer
        (then_answer (attempt_for setting version (get_field "attempt" t.input_data)) budgeted)
        (commented_subject t page version)

  -- The checks of `__call__`, up to the metrics.
  unfoldable pub subject_of : WorkflowTask → Answer Subject
  unfolding document_task current_artifact normalized
  subject_of t =
      then_answer (document_task setting.validate t)
        (λ page. then_answer (version_of t.artifact_version) (subject_at t page))

-- Whether there are pages and all have passed.
abbrev pub all_passed : List PageState → Bool
all_passed [] = false
all_passed (state ∷ states) = all (λ (s : PageState). is_passed s.status) (state ∷ states)

-- A page without an accepted artifact.
abbrev pub lacks_artifact : PageState → Bool
lacks_artifact state = is_missing state.latest_artifact_id || ltb state.latest_version 1
  where
    is_missing : Option String → Bool
    is_missing none = true
    is_missing (some id) = false

abbrev pub instructions : Option Json → Step Items
instructions v db = if is_given v then call (list_of (given_or_null v)) db else (done nil, db)
  where
    given_or_null : Option Json → Json
    given_or_null none = null
    given_or_null (some w) = w

module _ (setting : Setting) where
  abbrev pub revision_for : PagePlan → PageEvaluationResult → Items → RevisionSchedule
  revision_for page result reviewer = record {
    page_id = page.id;
    source_artifact_id = result.artifact_id;
    source_version = result.version;
    attempt = result.attempt + 1;
    write_input = field "task" page.dump (
        field "evaluation" (setting.dump_result result)
          (field "reviewer_instructions" (array reviewer) end));
    evaluate_input = field "task" page.dump (
        field "evidence" (array page.evidence) (
          field "attempt" (int (result.attempt + 1))
            (field "reviewer_instructions" (array reviewer) end)));
  }

  -- `_schedule_revision`
  unfoldable pub schedule_revision : WorkflowTask → PagePlan → PageEvaluationResult → Step (List ℕ)
  unfolding schedule_revisions ◌>>=◌
  schedule_revision t page result = do
    reviewer ← instructions (get_field "reviewer_instructions" t.input_data)
    call (schedule_revisions t.run_id t.org_id setting.now (revision_for page result reviewer ∷ []))

  abbrev pub state_entry : PageState → DocumentArtifact → Fields → Fields
  state_entry state a rest =
      field state.page_id
        (object (
          field "artifact_id" (str a.artifact_id) (
            field "version" (int state.latest_version)
              (field "content_hash" (str a.content_hash) end))))
        rest

  abbrev pub put_state : PageState → Answer DocumentArtifact → Answer Fields → Answer Fields
  put_state state (fails e) rest = fails e
  put_state state (done a) (fails e) = fails e
  put_state state (done a) (done rest) = done (state_entry state a rest)

  -- The snapshot of the accepted artifacts; each is read again, with its version and its id.
  unfoldable pub snapshot : List PageState → Answer Fields
  unfolding current_artifact
  snapshot [] = done end
  snapshot (state ∷ states) =
      let rest = snapshot states in
      put_state state
        (current_artifact setting.latest state.page_id state.latest_version
          state.latest_artifact_id)
        rest

  abbrev pub review_id : Fields → String
  review_id shot = append_str "cross-page-review:" (setting.digest shot)

  abbrev pub enqueue_review : WorkflowTask → PagePlan → Fields → Step (Unit {0})
  enqueue_review t page shot = call (
      enqueue_task t.run_id (review_id shot) t.org_id TaskType.cross_page_review none none
        (t.task_id ∷ [])
        (field "last_page_task" page.dump (field "artifact_snapshot" (object shot) end))
        setting.now)

  module _ (collate : String → String → Bool) where
    -- `_schedule_review_if_ready`
    unfoldable pub schedule_review_if_ready : WorkflowTask → PagePlan → Step (Unit {0})
    unfolding get_page_states enqueue_task snapshot ◌>>=◌
    schedule_review_if_ready t page db =
        let states = get_page_states collate t.run_id db in
        if not (all_passed states)
        then (done tt, db)
        else if any lacks_artifact states
        then (fails passed_without_artifact, db)
        else (from_answer (snapshot states) >>= enqueue_review t page) db

    abbrev pub follow_up :
        WorkflowTask → PagePlan → PageEvaluationResult → EvaluationStatus → Step (Unit {0})
    follow_up t page result EvaluationStatus.revision_required =
        schedule_revision t page result >>= λ versions. return tt
    follow_up t page result EvaluationStatus.passed = schedule_review_if_ready t page
    follow_up t page result EvaluationStatus.awaiting_human_review = return tt

    -- `return result.model_dump()`, after what follows.
    abbrev pub finish_with :
        WorkflowTask → PagePlan → PageEvaluationResult → Unit {0} → Step PageEvaluationResult
    finish_with t page result _ = follow_up t page result result.status >>= λ _. return result

    abbrev pub record_and_follow : WorkflowTask → Subject → Step PageEvaluationResult
    record_and_follow t subject =
        let result = evaluated setting subject in
        call (record_evaluation result (some t.run_id) (some t.org_id))
        >>= finish_with t subject.page result

    -- `PageEvaluatorHandler.__call__`
    unfoldable pub evaluate_page : WorkflowTask → Step PageEvaluationResult
    unfolding subject_of evaluated record_evaluation schedule_revision schedule_review_if_ready
        ◌>>=◌
    evaluate_page t = from_answer (subject_of setting t) >>= record_and_follow t

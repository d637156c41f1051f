-- ===== src/Pages/Handlers/Verdicts.antt =====
-- What the evaluator's verdict promises.
use draftly_agent_backend.Prelude.{
  ℕ, ◌+◌, ◌≤◌, String, none, some, Bool, true, false, ◌&&◌, ◌||◌, not, ◌≡◌, ap, ◌∙◌, inl, inr, List,
  [], ◌∷◌, arith, Bool-cases, ltb, leb, nat_eq, string_eq, get_field, is_given, Items, Fields,
}
use mathlib.Core.Path.{subst}
use draftly_agent_backend.Pages.Rows.{
  EvaluationStatus, WorkflowTask, PageEvaluationResult, Database,
}
use draftly_agent_backend.Pages.Evaluations.{record_evaluation}
use draftly_agent_backend.Pages.Revisions.{schedule_revisions}
use draftly_agent_backend.Pages.Revisions.Scheduling.{has_pair, schedule_revisions_lem}
use draftly_agent_backend.Pages.Handlers.{
  Answer, done, done-injective, answer_done, then_answer, then_done, bind_done, from_answer, call,
  return,
}
use draftly_agent_backend.Pages.Handlers.Artifacts.{
  PagePlan, DocumentArtifact, document_task, current_artifact,
}
use draftly_agent_backend.Pages.Handlers.Evaluator.{
  Setting, Subject, Metrics, verdict, evaluated, subject_of, revision_for, schedule_revision,
  follow_up, evaluate_page, version_of, subject_at, budgeted, commented_subject, make_subject,
  is_any, attempt_for, evidence_for, normalized, finish_with, record_and_follow, instructions,
}

budgeted_within :
    (setting : Setting) (given attempt : ℕ)
    → budgeted setting given ≡ done attempt
    → (1 ≤ attempt) × (attempt ≤ setting.max_attempts)
budgeted_within setting given attempt h =
    elim (Bool-cases (ltb given 1 || ltb setting.max_attempts given)) [
      | inl e ↦ absurd (ground (arith, rw e at h))
      | inr e ↦
          let same : given ≡ attempt = done-injective given attempt (rw e at h) in
          (ground (arith, e, same), ground (arith, e, same))
    ]

-- The subject has the attempt of its task.
commented_attempt :
    (setting : Setting) (t : WorkflowTask) (page : PagePlan) (version attempt : ℕ) (s : Subject)
    → commented_subject setting t page version attempt ≡ done s
    → attempt ≡ s.attempt
commented_attempt setting t page version attempt s h =
    elim (Bool-cases (
      is_given (get_field "human_guided" t.input_data)
      && not (is_given (get_field "revision_comment" t.input_data)))) [
        | inl e ↦ absurd (ground (arith, rw e at h))
        | inr e ↦
            let last = λ (a : DocumentArtifact) (entries : List Fields).
              done (make_subject setting t page attempt a entries) in
            let read = λ (a : DocumentArtifact) (evidence : Items).
              then_answer (normalized evidence) (last a) in
            let (a, _, h1) =
              then_done (current_artifact setting.latest page.id version none)
                (λ a. then_answer (evidence_for page (get_field "evidence" t.input_data)) (read a))
                s (rw e at h) in
            let (evidence, _, h2) =
              then_done (evidence_for page (get_field "evidence" t.input_data)) (read a) s h1 in
            let (entries, _, h3) = then_done (normalized evidence) (last a) s h2 in
            ap (λ (x : Subject). x.attempt) (done-injective _ s h3)
      ]

-- The attempt of a subject that passed the checks is within the budget.
subject_within :
    (setting : Setting) (t : WorkflowTask) (s : Subject)
    → subject_of setting t ≡ done s
    → (1 ≤ s.attempt) × (s.attempt ≤ setting.max_attempts)
unfolding subject_of
subject_within setting t s h =
    let (page, _, h1) =
      then_done (document_task setting.validate t)
        (λ page. then_answer (version_of setting t.artifact_version) (subject_at setting t page)) s
        h in
    let (version, _, h2) =
      then_done (version_of setting t.artifact_version) (subject_at setting t page) s h1 in
    let (attempt, in_budget, h3) =
      then_done
        (then_answer (attempt_for setting version (get_field "attempt" t.input_data))
          (budgeted setting))
        (commented_subject setting t page version) s h2 in
    let (given, _, h4) =
      then_done (attempt_for setting version (get_field "attempt" t.input_data)) (budgeted setting)
        attempt in_budget in
    let (low, high) = budgeted_within setting given attempt h4 in
    subst (λ n. (1 ≤ n) × (n ≤ setting.max_attempts))
      (commented_attempt setting t page version attempt s h3) (low, high)

-- When the verdict is a revision.
verdict_revision :
    (setting : Setting) (s : Subject) (m : Metrics)
    → (verdict setting s m).0 ≡ EvaluationStatus.revision_required
    → (s.human_guided ≡ false) × (m.quality.passed ≡ false) × (s.attempt + 1 ≤ setting.max_attempts)
unfolding verdict
verdict_revision setting s m h = elim (Bool-cases (is_any s.evidence)) [
  | inr e ↦ absurd (ground (arith, rw e at h))
  | inl e ↦ elim (Bool-cases m.quality.passed) [
    | inl p ↦ absurd (ground (arith, rw (e, p) at h))
    | inr p ↦ elim (Bool-cases s.human_guided) [
      | inl g ↦ absurd (ground (arith, rw (e, p, g) at h))
      | inr g ↦ elim (Bool-cases (leb setting.max_attempts s.attempt)) [
        | inl b ↦ absurd (ground (arith, rw (e, p, g, b) at h))
        | inr b ↦ (g, p, ground (arith, b))
      ]
    ]
  ]
]

-- A revision that was scheduled has its pair of tasks.
schedule_revision-pair :
    (setting : Setting) (t : WorkflowTask) (page : PagePlan) (result : PageEvaluationResult)
    (db : Database) (versions : List ℕ)
    → (schedule_revision setting t page result db).0 ≡ done versions
    → has_pair t.run_id page.id (result.version + 1) (schedule_revision setting t page result db).1
      ≡ true
unfolding schedule_revision
schedule_revision-pair setting t page result db versions h =
    let schedule = λ (reviewer : Items). call (
      schedule_revisions t.run_id t.org_id setting.now
        (revision_for setting page result reviewer ∷ [])) in
    let read = instructions (get_field "reviewer_instructions" t.input_data) in
    let (reviewer, _, h1, same) = bind_done read schedule db versions h in
    let rs = revision_for setting page result reviewer ∷ [] in
    let mid = (read db).1 in
    let returned =
      answer_done (schedule_revisions t.run_id t.org_id setting.now rs mid).0 versions h1 in
    let (_, paired, _, _) =
      schedule_revisions_lem t.run_id t.org_id setting.now rs mid versions returned in
    ap (λ (q : Answer (List ℕ) × Database). has_pair t.run_id page.id (result.version + 1) q.1) same
    ∙ paired.0

module _ (setting : Setting) (collate : String → String → Bool) (t : WorkflowTask) where
  -- What follows a revision.
  follow_revision :
      (page : PagePlan) (result : PageEvaluationResult) (status : EvaluationStatus) (db : Database)
      (u : Unit {0})
      → status ≡ EvaluationStatus.revision_required
      → (follow_up setting collate t page result status db).0 ≡ done u
      → has_pair t.run_id page.id
          (result.version + 1)
          (follow_up setting collate t page result status db).1
        ≡ true
  follow_revision page result EvaluationStatus.passed db u e h = absurd (ground arith)
  follow_revision page result EvaluationStatus.awaiting_human_review db u e h =
      absurd (ground arith)
  follow_revision page result EvaluationStatus.revision_required db u e h =
      let (versions, scheduled, _, same) =
        bind_done (schedule_revision setting t page result) (λ versions. return tt) db u h in
      ap (λ (q : Answer (Unit {0}) × Database). has_pair t.run_id page.id (result.version + 1) q.1)
        same
      ∙ schedule_revision-pair setting t page result db versions scheduled

  -- An evaluation that returns with a revision required was automatic, of a subject whose quality did
  -- not pass; its attempt is at least 1 and before the last of the budget; and the page's next version
  -- has its pair of tasks.
  pub revision_scheduled :
      (db : Database) (result : PageEvaluationResult)
      → (evaluate_page setting collate t db).0 ≡ done result
      → result.status ≡ EvaluationStatus.revision_required
      → (s : Subject) × (subject_of setting t ≡ done s)
        × (s.human_guided ≡ false)
        × ((setting.compute_metrics s.evidence s.artifact.content).quality.passed ≡ false)
        × (1 ≤ result.attempt)
        × (result.attempt + 1 ≤ setting.max_attempts)
        × (has_pair t.run_id result.page_id
              (result.version + 1)
              (evaluate_page setting collate t db).1
            ≡ true)
  unfolding evaluate_page evaluated
  revision_scheduled db result h status =
      let (s, is_subject, h1, same1) =
        bind_done (from_answer (subject_of setting t)) (record_and_follow setting collate t) db
          result h in
      let made = evaluated setting s in
      let record_it = call (record_evaluation made (some t.run_id) (some t.org_id)) in
      let (recorded, _, h2, same2) =
        bind_done record_it (finish_with setting collate t s.page made) db result h1 in
      let mid = (record_it db).1 in
      let (u, followed, h3, same3) =
        bind_done (follow_up setting collate t s.page made made.status) (λ _. return made) mid
          result h2 in
      let is_made : made ≡ result = done-injective made result h3 in
      let status' : made.status ≡ EvaluationStatus.revision_required =
        ap (λ (r : PageEvaluationResult). r.status) is_made ∙ status in
      let (automatic, not_passed, room) =
        verdict_revision setting s (setting.compute_metrics s.evidence s.artifact.content)
          status' in
      let (low, _) = subject_within setting t s is_subject in
      let pair = follow_revision s.page made made.status mid u status' followed in
      let whole = same1 ∙ same2 ∙ same3 in
      subst
        (λ (r : PageEvaluationResult).
          (s : Subject) × (subject_of setting t ≡ done s)
          × (s.human_guided ≡ false)
          × ((setting.compute_metrics s.evidence s.artifact.content).quality.passed ≡ false)
          × (1 ≤ r.attempt)
          × (r.attempt + 1 ≤ setting.max_attempts)
          × (has_pair t.run_id r.page_id (r.version + 1) (evaluate_page setting collate t db).1
              ≡ true))
        is_made
        (
          s,
          is_subject,
          automatic,
          not_passed,
          low,
          room,
          ap
                (λ (q : Answer PageEvaluationResult × Database).
                  has_pair t.run_id s.page.id (made.version + 1) q.1)
                whole
              ∙ pair,
        )

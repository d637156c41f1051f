-- ===== src/Pages/Handlers/Corrections.antt =====
-- What a cross-page review that asks for corrections has scheduled.
use mathlib.Core.Path.{subst}
use draftly_agent_backend.Prelude.{
  ◌+◌, ◌≤◌, String, some, Bool, true, false, ◌≡◌, ◌≢◌, refl, sym, ap, ◌∙◌, inl, inr, List, [], ◌∷◌,
  map, All, contains, has_duplicate, arith, Bool-cases, ◌==◌, string_eq, ltb, Option-cases,
}
use draftly_agent_backend.Pages.Rows.{PageState, WorkflowTask, RevisionSchedule, Database}
use draftly_agent_backend.Pages.States.{get_page_states}
use draftly_agent_backend.Pages.Tasks.{get_tasks}
use draftly_agent_backend.Pages.Revisions.{schedule_revisions}
use draftly_agent_backend.Pages.Revisions.Scheduling.{has_pair, IsPaired, schedule_revisions_lem}
use draftly_agent_backend.Pages.Handlers.{
  Answer, done, fails, from_answer, call, return, bind_done, done-injective, answer_done,
}
use draftly_agent_backend.Pages.Handlers.Artifacts.{PagePlan}
use draftly_agent_backend.Pages.Handlers.CrossPage.{
  Correction, Review, unavailable, silent, judged, Outcome, ReviewSetting, known_page, Validated,
  instructions_of, revision_of, load_page_plan, add_validated, validate_one, validate_each,
  corrected_outcome, revise_pages, after_review, check_review, review_run,
}

some-injective : {A : Type 0} (a b : A) → some a ≡ some b → a ≡ b
some-injective a b h = ground arith

known_page-id :
    (id : String) (states : List PageState) (state : PageState)
    → known_page id states ≡ some state
    → state.page_id ≡ id
known_page-id id [] state h = absurd (ground arith)
known_page-id id (s ∷ ss) state h = elim (Option-cases (known_page id ss)) [
  | inr (later, e) ↦ known_page-id id ss state (e ∙ rw e at h)
  | inl e ↦ elim (Bool-cases (s.page_id == id)) [
    | inl same ↦
        ap (λ (p : PageState). p.page_id) (some-injective state s (sym (rw (e, same) at h)))
        ∙ (string_eq.equals_iff s.page_id id).0 same
    | inr other ↦ absurd (ground (arith, rw (e, other) at h))
  ]
]

add_validated_lem :
    (setting : ReviewSetting) (state : PageState) (instructions : List String)
    (page : Answer PagePlan) (rest : Answer (List Validated)) (vs : List Validated)
    → add_validated setting state instructions page rest ≡ done vs
    → (v : Validated) × (more : List Validated) × (v ∷ more ≡ vs)
      × (v.state ≡ state)
      × (rest ≡ done more)
add_validated_lem setting state ins (done page) (done more) vs h = (
  record { state = state; page = page; instructions = ins },
  more,
  done-injective _ vs h,
  refl,
  refl,
)
add_validated_lem setting state ins (done page) (fails e) vs h = absurd (ground arith)
add_validated_lem setting state ins (fails e) rest vs h = absurd (ground arith)

-- What holds of a page that was corrected: it is a page of the run with an attempt left, and its next
-- version has its pair of tasks.
abbrev pub IsRevised : ReviewSetting → List PageState → String → Database → String → Type 0
IsRevised setting states run after id =
    (state : PageState) × (known_page id states ≡ some state)
    × (state.evaluation_attempt + 1 ≤ setting.max_attempts)
    × (has_pair run id (state.latest_version + 1) after ≡ true)

module _ (setting : ReviewSetting) (tasks : List WorkflowTask) (states : List PageState) where
  -- A page of the run that has an attempt left.
  abbrev IsCorrected : Validated → Type 0
  IsCorrected v =
      (known_page v.state.page_id states ≡ some v.state)
      × (v.state.evaluation_attempt + 1 ≤ setting.max_attempts)

  taken-IsCorrected :
      (id : String) (state : PageState) (v : Validated)
      → known_page id states ≡ some state
      → ltb setting.max_attempts (state.evaluation_attempt + 1) ≡ false
      → v.state ≡ state
      → IsCorrected v
  taken-IsCorrected id state v found within same =
      subst
        (λ (s : PageState).
          (known_page s.page_id states ≡ some s)
          × (s.evaluation_attempt + 1 ≤ setting.max_attempts))
        (sym same)
        (
          ap (λ (i : String). known_page i states) (known_page-id id states state found) ∙ found,
          ground (arith, within),
        )

  -- A correction is skipped, or its page is put before what follows.
  validate_one_cases :
      (P : List Validated → Type 0) (c : Correction) (corrected : List String)
      (skip take : Answer (List Validated)) (vs : List Validated)
      → (contains corrected c.task_id ≡ true → skip ≡ done vs → P vs)
      → ((v : Validated) (more : List Validated) → IsCorrected v → take ≡ done more → P (v ∷ more))
      → validate_one setting tasks states c corrected skip take ≡ done vs
      → P vs
  validate_one_cases P c corrected skip take vs on_skip on_take h =
      elim (Option-cases (known_page c.task_id states)) [
        | inl e ↦ absurd (ground (arith, rw (validate_one, e) at h))
        | inr (state, e) ↦ elim (Bool-cases (c.path == state.path)) [
          | inr other ↦ absurd (ground (arith, rw (validate_one, e, other) at h))
          | inl here ↦ elim (Bool-cases (contains corrected c.task_id)) [
            | inl again ↦ on_skip again (rw (validate_one, e, here, again) at h)
            | inr new ↦
                elim (Bool-cases (ltb setting.max_attempts (state.evaluation_attempt + 1))) [
                  | inl over ↦ absurd (ground (arith, rw (validate_one, e, here, new, over) at h))
                  | inr within ↦
                      let (v, more, same, at, rest) =
                        add_validated_lem setting state (instructions_of c)
                          (load_page_plan setting tasks state) take vs
                          (rw (validate_one, e, here, new, within) at h) in
                      subst P same
                        (on_take v more (taken-IsCorrected c.task_id state v e within at) rest)
                ]
          ]
        ]
      ]

  validate_each_lem :
      (cs : List Correction) (corrected : List String) (vs : List Validated)
      → validate_each setting tasks states cs corrected ≡ done vs
      → All IsCorrected vs
  unfolding validate_each
  validate_each_lem [] corrected vs h = subst (All IsCorrected) (done-injective [] vs h) tt
  validate_each_lem (c ∷ cs) corrected vs h =
      validate_one_cases (All IsCorrected) c corrected
        (validate_each setting tasks states cs corrected)
        (validate_each setting tasks states cs (c.task_id ∷ corrected)) vs
        (λ _. validate_each_lem cs corrected vs)
        (λ v more valid rest. (valid, validate_each_lem cs (c.task_id ∷ corrected) more rest)) h

  -- The first correction is never skipped.
  validate_each-nonempty :
      (c : Correction) (cs : List Correction) (vs : List Validated)
      → validate_each setting tasks states (c ∷ cs) [] ≡ done vs
      → vs ≢ []
  unfolding validate_each
  validate_each-nonempty c cs vs h =
      validate_one_cases (λ (ws : List Validated). ws ≢ []) c []
        (validate_each setting tasks states cs [])
        (validate_each setting tasks states cs (c.task_id ∷ [])) vs
        (λ k. absurd (ground (arith, k))) (λ v more valid rest. ground arith) h

  revised :
      (run : String) (after : Database) (vs : List Validated)
      → All IsCorrected vs
      → All (IsPaired run after) (map revision_of vs)
      → All (IsRevised setting states run after) (map (λ (v : Validated). v.state.page_id) vs)
  revised run after [] h k = tt
  revised run after (v ∷ vs) h k = ((v.state, h.0.0, h.0.1, k.0), revised run after vs h.1 k.1)

revision_ids :
    (vs : List Validated)
    → map (λ (r : RevisionSchedule). r.page_id) (map revision_of vs)
      ≡ map (λ (v : Validated). v.state.page_id) vs
revision_ids [] = refl
revision_ids (v ∷ vs) = ap (λ (ids : List String). v.state.page_id ∷ ids) (revision_ids vs)

map_nonempty : (vs : List Validated) → vs ≢ [] → map (λ (v : Validated). v.state.page_id) vs ≢ []
map_nonempty [] h = absurd (h refl)
map_nonempty (v ∷ vs) h = ground arith

-- What an outcome that asks for corrections promises of the database after it.
abbrev IsScheduled : ReviewSetting → List PageState → String → Outcome → Database → Type 0
IsScheduled setting states run o after =
    (o.corrected_page_ids ≢ [])
    × (has_duplicate o.corrected_page_ids ≡ false)
    × All (IsRevised setting states run after) o.corrected_page_ids

module _ (setting : ReviewSetting) (t : WorkflowTask) (tasks : List WorkflowTask)
    (states : List PageState) where
  revise_pages_lem :
      (vs : List Validated) (db : Database) (o : Outcome)
      → vs ≢ []
      → All (IsCorrected setting tasks states) vs
      → (revise_pages setting t vs db).0 ≡ done o
      → IsScheduled setting states t.run_id o (revise_pages setting t vs db).1
  revise_pages_lem vs db o some_page valid h =
      let (versions, e, e1, same) =
        bind_done (call (schedule_revisions t.run_id t.org_id setting.now (map revision_of vs)))
          (λ _. return (corrected_outcome setting vs)) db o h in
      let (_, pairs, distinct, _) =
        schedule_revisions_lem t.run_id t.org_id setting.now (map revision_of vs) db versions
          (answer_done _ versions e) in
      subst
        (λ (p : Outcome). IsScheduled setting states t.run_id p (revise_pages setting t vs db).1)
        (done-injective _ o e1)
        (subst
          (λ (after : Database).
            IsScheduled setting states t.run_id (corrected_outcome setting vs) after)
          (sym (ap (λ (q : Answer Outcome × Database). q.1) same))
          (
            map_nonempty vs some_page,
            ap has_duplicate (sym (revision_ids vs)) ∙ distinct,
            revised setting tasks states t.run_id
                (schedule_revisions t.run_id t.org_id setting.now (map revision_of vs) db).1 vs
                valid pairs,
          ))

  after_review_lem :
      (review : Review) (db : Database) (o : Outcome)
      → (after_review setting t tasks states review db).0 ≡ done o
      → o.passed ≡ false
      → IsScheduled setting states t.run_id o (after_review setting t tasks states review db).1
  after_review_lem unavailable db o h p = absurd (ground arith)
  after_review_lem silent db o h p = absurd (ground arith)
  after_review_lem (judged name []) db o h p = elim (Bool-cases (name == "clean")) [
    | inl e ↦
        absurd (ground (arith, p, ap (λ (q : Outcome). q.passed) (done-injective _ o (rw e at h))))
    | inr e ↦ absurd (ground (arith, rw e at h))
  ]
  after_review_lem (judged name (c ∷ cs)) db o h p = elim (Bool-cases (name == "clean")) [
    | inl e ↦ absurd (ground (arith, rw e at h))
    | inr e ↦ elim (Bool-cases (name == "correct")) [
      | inr other ↦ absurd (ground (arith, rw (e, other) at h))
      | inl correct ↦
          let (vs, valid, e1, same) =
            bind_done (from_answer (validate_each setting tasks states (c ∷ cs) []))
              (revise_pages setting t) db o (rw (e, correct) at h) in
          rw (e, correct)
            (subst (λ (after : Database). IsScheduled setting states t.run_id o after)
              (sym (ap (λ (q : Answer Outcome × Database). q.1) same))
              (revise_pages_lem vs db o (validate_each-nonempty setting tasks states c cs vs valid)
                (validate_each_lem setting tasks states (c ∷ cs) [] vs valid) e1))
    ]
  ]

module _ (setting : ReviewSetting) (collate : String → String → Bool) (t : WorkflowTask) where
  -- A review that returns without passing has corrected at least one page and none
  -- twice; each is a
  -- page of the run with an attempt left, and the pair of tasks of its next version is there.
  pub corrections_scheduled :
      (db : Database) (o : Outcome)
      → (review_run setting collate t db).0 ≡ done o
      → o.passed ≡ false
      → (o.corrected_page_ids ≢ [])
        × (has_duplicate o.corrected_page_ids ≡ false)
        × All
            (IsRevised setting
              (get_page_states collate t.run_id db)
              t.run_id
              (review_run setting collate t db).1)
            o.corrected_page_ids
  unfolding review_run
  corrections_scheduled db o h p =
      let states = get_page_states collate t.run_id db in
      let tasks = get_tasks collate t.run_id db in
      let (u, _, e, same) =
        bind_done (from_answer (check_review setting t states))
          (λ _. after_review setting t tasks states (setting.review states)) db o h in
      subst (IsScheduled setting states t.run_id o)
        (sym (ap (λ (q : Answer Outcome × Database). q.1) same))
        (after_review_lem setting t tasks states (setting.review states) db o e p)

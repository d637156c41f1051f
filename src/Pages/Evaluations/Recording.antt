-- ===== src/Pages/Evaluations/Recording.antt =====
-- What a recorded evaluation rests on and what it writes.
use draftly_agent_backend.Prelude.{
  String, Bool, true, false, ◌&&◌, not, Option, none, some, get_or, ◌≡◌, refl, inl, inr, arith,
  find_row, find_row-append_none, find_row-update_where, find_row_holds, any, nat_eq, string_eq,
  option_eq, ◌==◌, ==_self, Bool-cases, Option-cases, ap, ◌∙◌,
}
use mathlib.Core.Path.{subst, sym}
use draftly_agent_backend.Prelude.{Unique, find_keyed, option_beq_iff}
use draftly_agent_backend.Pages.States.Promotion.{same_page, one_page}
use draftly_agent_backend.Pages.Rows.{
  PageState, PageEvaluationResult, EvaluationRow, Revision, Database,
}
use draftly_agent_backend.Pages.Query.{
  Error, Result, ok, Query, ◌>>=◌, or_raise, raise_if, found_bind, transaction_succeeds, continue,
  ◌>>◌, gets, no_page_state, not_current_artifact, stale_version, hash_mismatch,
}
use draftly_agent_backend.Pages.States.{at_page}
use draftly_agent_backend.Pages.Evaluations.{
  str_of, has_id, require_sealed, given_or, at_evaluation, upsert_evaluation, is_sealed_as,
  projectable, project, project_state, evaluation_body, record_evaluation,
}

-- The row that an evaluation stores, if none is stored for its artifact.
abbrev pub stored_row :
    PageEvaluationResult → Option String → Option String → Revision → EvaluationRow
stored_row result run_id org_id artifact = record {
  run_id = given_or run_id artifact.run_id;
  org_id = given_or org_id artifact.org_id;
  result = result;
}

-- The evaluation that counts for the page: the first that was stored for the artifact.
abbrev pub first_row :
    PageEvaluationResult → Option String → Option String → Revision → Database → EvaluationRow
first_row result run_id org_id artifact db =
    let row = stored_row result run_id org_id artifact in
    get_or (find_row (at_evaluation row.run_id result.artifact_id) db.evaluations) row

pub record Recorded (result : PageEvaluationResult) (run_id org_id : Option String)
    (db after : Database) : Type 0 where
  pub artifact : Revision
  pub artifact_found : find_row (has_id result.artifact_id) db.revisions ≡ some artifact
  pub sealed : artifact.is_sealed ≡ true
  pub hash : any (is_sealed_as result.artifact_id result.content_hash) db.revisions ≡ true
  pub page : PageState
  pub page_found :
      find_row (at_page (given_or run_id artifact.run_id) result.page_id) db.pages ≡ some page
  pub current : page.latest_artifact_id ≡ some result.artifact_id
  pub version : page.latest_version ≡ result.version
  pub stored :
      find_row
        (at_evaluation (given_or run_id artifact.run_id) result.artifact_id)
        after.evaluations
      ≡ some (first_row result run_id org_id artifact db)
  pub projected :
      find_row (at_page (given_or run_id artifact.run_id) result.page_id) after.pages
      ≡ some (project (first_row result run_id org_id artifact db).result page)

sealed_bind :
    {B : Type 0} (artifact : String) (r : Option Revision) (f : Revision → Query B) (db : Database)
    (b : B)
    → ((require_sealed artifact r >>= f) db).0 ≡ ok b
    → (a : Revision) × (r ≡ some a)
      × (a.is_sealed ≡ true)
      × ((require_sealed artifact r >>= f) db ≡ f a db)
unfolding ◌>>=◌
sealed_bind artifact none f db b h = absurd (ground arith)
sealed_bind artifact (some a) f db b h = elim (Bool-cases a.is_sealed) [
  | inl e ↦ (a, refl, e, rw e)
  | inr e ↦ absurd (ground arith)
]

module _ (result : PageEvaluationResult) (run org : String) where
  abbrev row : EvaluationRow
  row = record { run_id = run; org_id = org; result = result }

  abbrev key : EvaluationRow → Bool
  key = at_evaluation run result.artifact_id

  -- The last two statements of a recording.
  finale : Query (Unit {0})
  finale = upsert_evaluation row >>= λ kept. project_state run result kept.result

  upsert_lem :
      (db : Database)
      → upsert_evaluation row db
        ≡ (ok (get_or (find_row key db.evaluations) row), (upsert_evaluation row db).1)
  unfolding upsert_evaluation
  upsert_lem db = elim (Option-cases (find_row key db.evaluations)) [
    | inl e ↦ rw e
    | inr (old, e) ↦ rw e
  ]

  upsert_frame :
      (db : Database)
      → ((upsert_evaluation row db).1.pages ≡ db.pages)
        × ((upsert_evaluation row db).1.revisions ≡ db.revisions)
        × (find_row key (upsert_evaluation row db).1.evaluations
            ≡ some (get_or (find_row key db.evaluations) row))
  unfolding upsert_evaluation
  upsert_frame db = elim (Option-cases (find_row key db.evaluations)) [
    | inl e ↦ rw e (
      refl,
      refl,
      rw (find_row-append_none key db.evaluations row e)
          (ground (arith, ==_self run, ==_self result.artifact_id)),
    )
    | inr (old, e) ↦ rw e (refl, refl, e)
  ]

  project_lem :
      (kept : PageEvaluationResult) (db : Database) {p : PageState}
      → Unique same_page db.pages
      → find_row (at_page run result.page_id) db.pages ≡ some p
      → (project_state run result kept db).0 ≡ ok tt
      → (any (is_sealed_as result.artifact_id result.content_hash) db.revisions ≡ true)
        × (p.latest_artifact_id ≡ some result.artifact_id)
        × (p.latest_version ≡ result.version)
        × (find_row (at_page run result.page_id) (project_state run result kept db).1.pages
            ≡ some (project kept p))
        × ((project_state run result kept db).1.evaluations ≡ db.evaluations)
  unfolding project_state
  project_lem kept db {p} unique found h =
      let place = at_page run result.page_id in
      let one = one_page run result.page_id db.pages unique in
      let fits = λ (q : PageState).
        q.latest_artifact_id == some result.artifact_id
        && q.latest_version == result.version
        && any (is_sealed_as result.artifact_id result.content_hash) db.revisions in
      let hit : fits p ≡ true = ground (arith, find_keyed place fits db.pages p one found) in
      (
        ground arith,
        (option_beq_iff p.latest_artifact_id (some result.artifact_id)).0 (ground arith),
        ground arith,
        rw
            (
              find_row-update_where place (projectable run result db.revisions) (project kept)
                  (λ x. refl) db.pages,
              found,
            )
            (ground (arith, find_row_holds place db.pages p found)),
        refl,
      )

  finale_lem :
      (db : Database) {p : PageState}
      → Unique same_page db.pages
      → find_row (at_page run result.page_id) db.pages ≡ some p
      → (finale db).0 ≡ ok tt
      → let first = get_or (find_row key db.evaluations) row in
        (any (is_sealed_as result.artifact_id result.content_hash) db.revisions ≡ true)
        × (p.latest_artifact_id ≡ some result.artifact_id)
        × (p.latest_version ≡ result.version)
        × (find_row key (finale db).1.evaluations ≡ some first)
        × (find_row (at_page run result.page_id) (finale db).1.pages
            ≡ some (project first.result p))
  unfolding finale ◌>>=◌
  finale_lem db {p} unique found h =
      let first = get_or (find_row key db.evaluations) row in
      let (pages, revisions, stored) = upsert_frame db in
      let mid = (upsert_evaluation row db).1 in
      let goes_on : (finale db) ≡ project_state run result first.result mid =
        ap
          (λ (r : Result EvaluationRow × Database).
            continue r.0 (λ (kept : EvaluationRow). project_state run result kept.result) r.1)
          (upsert_lem db) in
      let (sealed, current, version, projected, same) =
        project_lem first.result mid {p = p} (subst (Unique same_page) (sym pages) unique)
          (ap (find_row (at_page run result.page_id)) pages ∙ found)
          (ap (λ (r : Result (Unit {0}) × Database). r.0) (sym goes_on) ∙ h) in
      (
        ap (any (is_sealed_as result.artifact_id result.content_hash)) (sym revisions) ∙ sealed,
        current,
        version,
        ap (λ (r : Result (Unit {0}) × Database). find_row key r.1.evaluations) goes_on
            ∙ ap (find_row key) same
            ∙ stored,
        ap (λ (r : Result (Unit {0}) × Database). find_row (at_page run result.page_id) r.1.pages)
              goes_on
            ∙ projected,
      )

abbrev written : Result (Unit {0}) × Database → Database
written r = r.1

three_guards :
    (t1 t2 t3 : Bool) (e1 e2 e3 : Error) (k : Query (Unit {0})) (db : Database)
    → ((raise_if t1 e1 >> (raise_if t2 e2 >> (raise_if t3 e3 >> k))) db).0 ≡ ok tt
    → (raise_if t1 e1 >> (raise_if t2 e2 >> (raise_if t3 e3 >> k))) db ≡ k db
unfolding ◌>>=◌
three_guards true t2 t3 e1 e2 e3 k db h = absurd (ground arith)
three_guards false true t3 e1 e2 e3 k db h = absurd (ground arith)
three_guards false false true e1 e2 e3 k db h = absurd (ground arith)
three_guards false false false e1 e2 e3 k db h = refl

-- The part of the body after the artifact was read, and the part after the page was.
abbrev after_page : PageEvaluationResult → String → String → Revision → PageState → Query (Unit {0})
after_page result run org artifact page =
    raise_if (not (str_of page.latest_artifact_id == result.artifact_id)) not_current_artifact
    >> (raise_if (not (page.latest_version == result.version)) stale_version
        >> (raise_if (not (str_of artifact.content_hash == result.content_hash)) hash_mismatch
            >> finale result run org))

abbrev after_artifact :
    PageEvaluationResult → Option String → Option String → Revision → Query (Unit {0})
after_artifact result run_id org_id artifact =
    let run = given_or run_id artifact.run_id in
    gets (λ db. find_row (at_page run result.page_id) db.pages) >>= λ found.
    or_raise found (no_page_state result.page_id) >>= λ page.
    after_page result run (given_or org_id artifact.org_id) artifact page

abbrev returned : Result (Unit {0}) × Database → Result (Unit {0})
returned r = r.0

-- A successful evaluation rests on a sealed artifact with the same hash, which the page still has as
-- its latest, in the same version. The evaluation that is stored for the artifact is the first that
-- was recorded for it, and the page is projected from that one.
pub record_evaluation_lem :
    (result : PageEvaluationResult) (run_id org_id : Option String) (db : Database)
    → Unique same_page db.pages
    → (record_evaluation result run_id org_id db).0 ≡ ok tt
    → Recorded result run_id org_id db (record_evaluation result run_id org_id db).1
unfolding record_evaluation finale ◌>>=◌
record_evaluation_lem result run_id org_id db unique h =
    let (ran, same) = transaction_succeeds (evaluation_body result run_id org_id) db tt h in
    let (artifact, is_artifact, is_sealed, e1) =
      sealed_bind result.artifact_id (find_row (has_id result.artifact_id) db.revisions)
        (λ a. after_artifact result run_id org_id a) db tt ran in
    let run = given_or run_id artifact.run_id in
    let org = given_or org_id artifact.org_id in
    let (page, is_page, e2) =
      found_bind (find_row (at_page run result.page_id) db.pages) (no_page_state result.page_id)
        (λ p. after_page result run org artifact p) db tt (ap returned (sym e1) ∙ ran) in
    let e3 =
      three_guards (not (str_of page.latest_artifact_id == result.artifact_id))
        (not (page.latest_version == result.version))
        (not (str_of artifact.content_hash == result.content_hash)) not_current_artifact
        stale_version hash_mismatch (finale result run org) db
        (ap returned (sym e2) ∙ ap returned (sym e1) ∙ ran) in
    let whole = same ∙ ap written (e1 ∙ e2 ∙ e3) in
    let (hash, current, version, stored, projected) =
      finale_lem result run org db {p = page} unique is_page
        (ap returned (sym e3) ∙ ap returned (sym e2) ∙ ap returned (sym e1) ∙ ran) in
    record {
      artifact = artifact;
      artifact_found = is_artifact;
      sealed = is_sealed;
      hash = hash;
      page = page;
      page_found = is_page;
      current = current;
      version = version;
      stored =
          ap (λ (d : Database). find_row (at_evaluation run result.artifact_id) d.evaluations) whole
          ∙ stored;
      projected =
          ap (λ (d : Database). find_row (at_page run result.page_id) d.pages) whole ∙ projected;
    }

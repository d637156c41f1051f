-- ===== src/Pages/Revisions/Scheduling.antt =====
-- What a batch of automatic revisions leaves behind.
use draftly_agent_backend.Prelude.{
  ℕ, ◌+◌, ◌≤◌, String, Bool, true, false, ◌&&◌, ◌||◌, not, some, ◌≡◌, refl, inl, inr, List, [], ◌∷◌,
  arith, map, any, All, find_row, insert_unless, has_duplicate, Option-cases, ==_self, any-append,
  nat_eq, string_eq, option_eq, ◌==◌, Fields, ap, ◌∙◌,
}
use mathlib.Core.Path.{sym, subst}
use draftly_agent_backend.Pages.Rows.{RevisionSchedule, WorkflowTask, TaskType, Database, PageState}
use draftly_agent_backend.Pages.Query.{
  Error, Result, ok, err, Query, pure, transaction, ◌>>=◌, ◌>>◌, transaction_rolls_back,
  transaction_succeeds, raise_if, found_bind, guard_bind, continue, no_page_state,
  revision_is_stale, not_next_attempt, duplicate_page_ids, attempt_out_of_range,
}
use draftly_agent_backend.Pages.States.{at_page}
use draftly_agent_backend.Pages.Tasks.{at_task, queued, insert_task}
use draftly_agent_backend.Pages.Evaluations.{str_of}
use draftly_agent_backend.Pages.Revisions.{
  task_name, attach_pair, schedule_revision, schedule_each, is_out_of_range, schedule_revisions,
}

any_inserted :
    (test same : WorkflowTask → Bool) (t : WorkflowTask) (ts : List WorkflowTask)
    → any test ts ≡ true
    → any test (insert_unless same t ts) ≡ true
unfolding insert_unless
any_inserted test same t ts h = elim (Option-cases (find_row same ts)) [
  | inl e ↦ rw (e, insert_unless) (ground (arith, any-append test ts (t ∷ [])))
  | inr (y, e) ↦ rw (e, insert_unless) h
]

any_found_row :
    (test : WorkflowTask → Bool) (t : WorkflowTask) (ts : List WorkflowTask)
    → find_row test ts ≡ some t
    → any test ts ≡ true
unfolding find_row
any_found_row test t [] h = absurd (ground arith)
any_found_row test t (u ∷ us) h = ground (arith, any_found_row test t us)

any_new :
    (test : WorkflowTask → Bool) (t : WorkflowTask) (ts : List WorkflowTask)
    → test t ≡ true
    → any test (insert_unless test t ts) ≡ true
unfolding insert_unless
any_new test t ts h = elim (Option-cases (find_row test ts)) [
  | inl e ↦ rw (e, insert_unless) (ground (arith, any-append test ts (t ∷ [])))
  | inr (y, e) ↦ rw (e, insert_unless) (any_found_row test y ts e)
]

-- Tasks with the two ids of a page's version are in the table.
abbrev pub has_pair : String → String → ℕ → Database → Bool
has_pair run page version db =
    any (at_task run (task_name "write" page version)) db.tasks
    && any (at_task run (task_name "evaluate" page version)) db.tasks

-- The tasks of an earlier state are still there in a later one.
abbrev Keeps : Database → Database → Type 0
Keeps before after =
    (test : WorkflowTask → Bool) → any test before.tasks ≡ true → any test after.tasks ≡ true

attach_pair_lem :
    (run org page : String) (version now : ℕ) (w e : Fields) (db : Database)
    → ((attach_pair run org page version now w e db).0 ≡ ok version)
      × (has_pair run page version (attach_pair run org page version now w e db).1 ≡ true)
      × Keeps db (attach_pair run org page version now w e db).1
unfolding attach_pair insert_task ◌>>=◌
attach_pair_lem run org page version now w e db =
    let write_id = task_name "write" page version in
    let evaluate_id = task_name "evaluate" page version in
    let write = queued run write_id org TaskType.write (some page) (some version) [] w now in
    let evaluate =
      queued run evaluate_id org TaskType.evaluate (some page) (some version) (write_id ∷ []) e
        now in
    let first = insert_unless (at_task run write_id) write db.tasks in
    (
      refl,
      rw
          (
            any_inserted (at_task run write_id) (at_task run evaluate_id) evaluate first (
                any_new (at_task run write_id) write db.tasks
                  (ground (arith, ==_self run, ==_self write_id))),
            any_new (at_task run evaluate_id) evaluate first
                (ground (arith, ==_self run, ==_self evaluate_id)),
          )
          refl,
      λ test h.
          any_inserted test (at_task run evaluate_id) evaluate first
            (any_inserted test (at_task run write_id) write db.tasks h),
    )

-- What a revision that is scheduled has met, and what it leaves.
pub record Scheduled (run : String) (r : RevisionSchedule) (before after : Database) : Type 0 where
  pub page : PageState
  pub page_found : find_row (at_page run r.page_id) before.pages ≡ some page
  pub is_next_attempt : page.evaluation_attempt + 1 ≡ r.attempt
  pub same_version : page.latest_version ≡ r.source_version
  pub pair : has_pair run r.page_id (r.source_version + 1) after ≡ true

abbrev value : Result ℕ × Database → Result ℕ
value r = r.0

abbrev state : Result ℕ × Database → Database
state r = r.1

-- The loop body after the page was read.
abbrev after_page : String → String → ℕ → RevisionSchedule → PageState → Query ℕ
after_page run org now r page =
    raise_if
      (not (str_of page.latest_artifact_id == r.source_artifact_id)
        || not (page.latest_version == r.source_version))
      (revision_is_stale r.page_id)
    >> (raise_if (not (page.evaluation_attempt + 1 == r.attempt)) (not_next_attempt r.attempt)
        >> attach_pair run org r.page_id (r.source_version + 1) now r.write_input r.evaluate_input)

-- A revision is scheduled only for the attempt that follows the page's last, of its current version.
pub schedule_revision_lem :
    (run org : String) (now : ℕ) (r : RevisionSchedule) (db : Database) (version : ℕ)
    → (schedule_revision run org now r db).0 ≡ ok version
    → (version ≡ r.source_version + 1)
      × Scheduled run r db (schedule_revision run org now r db).1
      × Keeps db (schedule_revision run org now r db).1
unfolding schedule_revision ◌>>=◌
schedule_revision_lem run org now r db version h =
    let (page, found, e1) =
      found_bind (find_row (at_page run r.page_id) db.pages) (no_page_state r.page_id)
        (λ page. after_page run org now r page) db version h in
    let (fresh, e2) =
      guard_bind
        (not (str_of page.latest_artifact_id == r.source_artifact_id)
          || not (page.latest_version == r.source_version))
        (revision_is_stale r.page_id)
        (λ _.
          raise_if (not (page.evaluation_attempt + 1 == r.attempt)) (not_next_attempt r.attempt)
          >> attach_pair run org r.page_id (r.source_version + 1) now r.write_input
              r.evaluate_input)
        db version (ap value (sym e1) ∙ h) in
    let (next, e3) =
      guard_bind (not (page.evaluation_attempt + 1 == r.attempt)) (not_next_attempt r.attempt)
        (λ _.
          attach_pair run org r.page_id (r.source_version + 1) now r.write_input r.evaluate_input)
        db version (ap value (sym e2) ∙ ap value (sym e1) ∙ h) in
    let (made, pair, keeps) =
      attach_pair_lem run org r.page_id (r.source_version + 1) now r.write_input r.evaluate_input
        db in
    let whole = e1 ∙ e2 ∙ e3 in
    (
      ground (arith, ap value (sym whole) ∙ h, made),
      record {
        page = page;
        page_found = found;
        is_next_attempt = ground arith;
        same_version = ground arith;
        pair = ap (has_pair run r.page_id (r.source_version + 1)) (ap state whole) ∙ pair;
      },
      subst (Keeps db) (sym (ap state whole)) keeps,
    )

abbrev pub next_version_of : RevisionSchedule → ℕ
next_version_of r = r.source_version + 1

abbrev pub IsPaired : String → Database → RevisionSchedule → Type 0
IsPaired run db r = has_pair run r.page_id (r.source_version + 1) db ≡ true

has_pair_kept :
    (run page : String) (version : ℕ) (before after : Database)
    → Keeps before after
    → has_pair run page version before ≡ true
    → has_pair run page version after ≡ true
has_pair_kept run page version before after keeps h = ground (
  arith,
  keeps (at_task run (task_name "write" page version)),
  keeps (at_task run (task_name "evaluate" page version)),
)

-- A sequence that returns: its first query returned, and so did the rest, from where that ended.
bind_returns :
    {A B : Type 0} (m : Query A) (f : A → Query B) (db : Database) (b : B)
    → ((m >>= f) db).0 ≡ ok b
    → (a : A) × ((m db).0 ≡ ok a) × ((m >>= f) db ≡ f a (m db).1)
unfolding ◌>>=◌
bind_returns {A = A} m f db b h = go (m db).0 refl h
  where
    go :
        (r : Result A)
        → (m db).0 ≡ r
        → (continue r f (m db).1).0 ≡ ok b
        → (a : A) × ((m db).0 ≡ ok a) × ((m >>= f) db ≡ f a (m db).1)
    go (ok a) e k = (a, e, ap (λ r. continue r f (m db).1) e)
    go (err x) e k = absurd (ground arith)

abbrev first : Result (List ℕ) × Database → Result (List ℕ)
first x = x.0

abbrev second : Result (List ℕ) × Database → Database
second x = x.1

schedule_each_lem :
    (run org : String) (now : ℕ) (rs : List RevisionSchedule) (db : Database) (versions : List ℕ)
    → (schedule_each run org now rs db).0 ≡ ok versions
    → (versions ≡ map next_version_of rs)
      × All (IsPaired run (schedule_each run org now rs db).1) rs
      × Keeps db (schedule_each run org now rs db).1
unfolding schedule_each
schedule_each_lem run org now [] db versions h = (ground arith, tt, λ test k. k)
schedule_each_lem run org now (r ∷ rs) db versions h =
    let (version, ran, e1) =
      bind_returns (schedule_revision run org now r)
        (λ version. schedule_each run org now rs >>= λ more. pure (version ∷ more)) db versions h in
    let mid = (schedule_revision run org now r db).1 in
    let (more, ran', e2) =
      bind_returns (schedule_each run org now rs) (λ more. pure (version ∷ more)) mid versions
        (ap first (sym e1) ∙ h) in
    let (is_version, scheduled, keeps) = schedule_revision_lem run org now r db version ran in
    let (are_versions, paired, keeps') = schedule_each_lem run org now rs mid more ran' in
    let whole = e1 ∙ e2 in
    let end = (schedule_each run org now rs mid).1 in
    (
      ground (arith, ap first (sym whole) ∙ h),
      subst (λ (d : Database). All (IsPaired run d) (r ∷ rs)) (sym (ap second whole))
          (
            has_pair_kept run r.page_id (r.source_version + 1) mid end keeps' scheduled.pair,
            paired,
          ),
      subst (Keeps db) (sym (ap second whole)) (λ test k. keeps' test (keeps test k)),
    )

abbrev pub IsInRange : RevisionSchedule → Type 0
IsInRange r = (1 ≤ r.attempt) × (r.attempt ≤ 3)

in_range : (rs : List RevisionSchedule) → any is_out_of_range rs ≡ false → All IsInRange rs
in_range [] h = tt
in_range (r ∷ rs) h = ((ground arith, ground arith), in_range rs (ground arith))

-- Both outcomes of a batch.
schedule_revisions_outcome :
    (run org : String) (now : ℕ) (rs : List RevisionSchedule) (db : Database)
    → ((e : Error)
        → (schedule_revisions run org now rs db).0 ≡ err e
        → (schedule_revisions run org now rs db).1 ≡ db)
      × ((versions : List ℕ)
          → (schedule_revisions run org now rs db).0 ≡ ok versions
          → (versions ≡ map next_version_of rs)
            × All (IsPaired run (schedule_revisions run org now rs db).1) rs
            × (has_duplicate (map (λ (s : RevisionSchedule). s.page_id) rs) ≡ false)
            × All IsInRange rs)
unfolding schedule_revisions ◌>>=◌
schedule_revisions_outcome run org now [] db =
    (λ e h. refl, λ versions h. (ground arith, tt, refl, tt))
schedule_revisions_outcome run org now (r ∷ rs) db =
    go (has_duplicate (map (λ (s : RevisionSchedule). s.page_id) (r ∷ rs)))
      (any is_out_of_range (r ∷ rs)) (in_range (r ∷ rs))
  where
    go :
        (twice out : Bool)
        → (out ≡ false → All IsInRange (r ∷ rs))
        → let m =
            raise_if twice duplicate_page_ids
            >> (raise_if out attempt_out_of_range
                >> transaction (schedule_each run org now (r ∷ rs))) in
          ((e : Error) → (m db).0 ≡ err e → (m db).1 ≡ db)
          × ((versions : List ℕ)
              → (m db).0 ≡ ok versions
              → (versions ≡ map next_version_of (r ∷ rs))
                × All (IsPaired run (m db).1) (r ∷ rs)
                × (twice ≡ false)
                × All IsInRange (r ∷ rs))
    go true out fits = (λ e h. refl, λ versions h. absurd (ground arith))
    go false true fits = (λ e h. refl, λ versions h. absurd (ground arith))
    go false false fits =
        let body = schedule_each run org now (r ∷ rs) in
        (
          transaction_rolls_back body db,
          λ versions h.
              let (ran, same) = transaction_succeeds body db versions h in
              let (are, paired, _) = schedule_each_lem run org now (r ∷ rs) db versions ran in
              (
                are,
                subst (λ (d : Database). All (IsPaired run d) (r ∷ rs)) (sym same) paired,
                refl,
                fits refl,
              ),
        )

-- A batch of revisions that raises leaves the database as it was.
schedule_revisions_rolls_back :
    (run org : String) (now : ℕ) (rs : List RevisionSchedule) (db : Database) (e : Error)
    → (schedule_revisions run org now rs db).0 ≡ err e
    → (schedule_revisions run org now rs db).1 ≡ db
schedule_revisions_rolls_back run org now rs db = (schedule_revisions_outcome run org now rs db).0

-- A batch that returns gives, in order, the versions after the source versions, which all have their
-- two tasks then; no page is named twice, and every attempt is between 1 and 3.
pub schedule_revisions_lem :
    (run org : String) (now : ℕ) (rs : List RevisionSchedule) (db : Database) (versions : List ℕ)
    → (schedule_revisions run org now rs db).0 ≡ ok versions
    → (versions ≡ map next_version_of rs)
      × All (IsPaired run (schedule_revisions run org now rs db).1) rs
      × (has_duplicate (map (λ (s : RevisionSchedule). s.page_id) rs) ≡ false)
      × All IsInRange rs
schedule_revisions_lem run org now rs db = (schedule_revisions_outcome run org now rs db).1

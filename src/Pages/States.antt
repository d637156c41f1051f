-- ===== src/Pages/States.antt =====
-- The page states of `PageWorkflowRepository`: seeding, version allocation, promotion of artifacts,
-- and what a human review does to escalated pages.
pub mod Reviews
pub mod Promotion
use draftly_agent_backend.Prelude.{
  ℕ, zero, suc, ◌+◌, ◌-◌, String, append_str, strip, Option, none, some, Bool, true, false, ◌&&◌,
  ◌||◌, not, List, [], ◌∷◌, keep, sort_by, find_row, update_where, count_where, insert_unless,
  returned_row, ◌==◌, nat_eq, string_eq, option_eq, ltb, if◌then◌else◌,
}
use draftly_agent_backend.Pages.Rows.{NewPage, PageState, Database, PageStatus, is_awaiting}
use draftly_agent_backend.Pages.Query.{
  Result, ok, err, Query, page_not_found, artifact_not_next, approve_needs_pages,
}

-- `WHERE run_id = $1 AND page_id = $2`, which is the primary key.
abbrev pub at_page : String → String → PageState → Bool
at_page run page p = p.run_id == run && p.page_id == page

abbrev pub with_pages : Database → List PageState → Database
with_pages db pages = record db { pages = pages }

-- The row that is seeded for a new page; the columns left out have their defaults.
abbrev pub seeded : String → String → NewPage → PageState
seeded run org p = record {
  run_id = run;
  org_id = org;
  page_id = p.page_id;
  path = p.path;
  action = p.action;
  status = PageStatus.pending;
  latest_artifact_id = none;
  latest_version = 0;
  next_version = 1;
  evaluation_attempt = 0;
  escalation_reason = none;
}

-- `create_pages`: an existing row is left untouched.
unfoldable pub create_pages : String → String → List NewPage → Query (Unit {0})
unfolding insert_unless
create_pages run org [] db = (ok tt, db)
create_pages run org (p ∷ ps) db =
    create_pages run org ps
      (with_pages db (insert_unless (at_page run p.page_id) (seeded run org p) db.pages))

abbrev pub bump : PageState → PageState
bump p = record p { next_version = p.next_version + 1 }

abbrev pub reserved : String → Option PageState → Result ℕ
reserved page none = err (page_not_found page)
reserved page (some row) = ok (row.next_version - 1)

-- `reserve_next_version`: one statement that bumps the counter and returns its value before.
unfoldable pub reserve_next_version : String → String → Query ℕ
unfolding returned_row update_where
reserve_next_version run page db = (
  reserved page (returned_row (at_page run page) bump db.pages),
  with_pages db (update_where (at_page run page) bump db.pages),
)

-- Only a newer version, or the same artifact again, may be promoted.
abbrev pub promotable : String → String → String → ℕ → PageState → Bool
promotable run page artifact version p =
    at_page run page p
    && (ltb p.latest_version version
        || (p.latest_version == version && p.latest_artifact_id == some artifact))

abbrev pub promote : String → ℕ → PageState → PageState
promote artifact version p = record p {
  latest_artifact_id = some artifact;
  latest_version = version;
  status = PageStatus.evaluating;
}

-- `record_artifact`
unfoldable pub record_artifact : String → String → String → ℕ → Query (Unit {0})
unfolding update_where count_where
record_artifact run page artifact version db =
    let test = promotable run page artifact version in
    (
      (if count_where test db.pages == 1 then ok tt else err (artifact_not_next artifact version)),
      with_pages db (update_where test (promote artifact version) db.pages),
    )

module _ (collate : String → String → Bool) where
  -- `get_page_states`, in the order of the page ids under the database's collation.
  unfoldable pub get_page_states : String → Database → List PageState
  get_page_states run db =
      sort_by (λ (p q : PageState). collate p.page_id q.page_id)
        (keep (λ (p : PageState). p.run_id == run) db.pages)

-- The audit trail of an approval.
abbrev pub approved_reason : Option String → Option String → Option String
approved_reason none reason = reason
approved_reason (some comment) none = some (append_str "Approved: " comment)
approved_reason (some comment) (some reason) =
    some (append_str reason (append_str "\nApproved: " comment))

abbrev pub approve_page : Option String → PageState → PageState
approve_page comment p = record p {
  status = PageStatus.passed;
  escalation_reason = approved_reason comment p.escalation_reason;
}

abbrev pub awaiting_page : String → String → PageState → Bool
awaiting_page run page p = at_page run page p && is_awaiting p.status

abbrev pub count_found : Option PageState → ℕ → ℕ
count_found none n = n
count_found (some _) n = n + 1

-- The loop of `approve_escalated_pages` over the page ids, with the number approved so far.
unfoldable pub approve_each : String → Option String → List String → ℕ → Query ℕ
unfolding returned_row update_where
approve_each run comment [] approved db = (ok approved, db)
approve_each run comment (page ∷ pages) approved db =
    let test = awaiting_page run page in
    let row = returned_row test (approve_page comment) db.pages in
    approve_each run comment pages (count_found row approved)
      (with_pages db (update_where test (approve_page comment) db.pages))

-- `approve_escalated_pages`
unfoldable pub approve_escalated_pages : String → List String → Option String → Query ℕ
unfolding approve_each
approve_escalated_pages run [] comment db = (err approve_needs_pages, db)
approve_escalated_pages run (page ∷ pages) comment db = approve_each run comment (page ∷ pages) 0 db

abbrev pub coalesce : Option String → String
coalesce none = ""
coalesce (some s) = s

abbrev pub rejected_reason : String → Option String → Option String
rejected_reason comment reason = some (
    if comment == ""
    then append_str (coalesce reason) "; rejected by human review"
    else append_str (coalesce reason) (append_str "; rejected by human review: " comment))

abbrev pub reject_page : String → PageState → PageState
reject_page comment p = record p {
  status = PageStatus.failed;
  escalation_reason = rejected_reason comment p.escalation_reason;
}

-- `mark_escalated_failed`: returns the number of pages that were moved.
unfoldable pub mark_escalated_failed : String → Option String → Query ℕ
unfolding update_where count_where strip
mark_escalated_failed run comment db =
    let reason = strip (coalesce comment) in
    let test = λ (p : PageState). p.run_id == run && is_awaiting p.status in
    (
      ok (count_where test db.pages),
      with_pages db (update_where test (reject_page reason) db.pages),
    )

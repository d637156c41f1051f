-- ===== src/Pages/States/Promotion.antt =====
-- Which artifact writes are accepted.
use draftly_agent_backend.Prelude.{
  ℕ, String, Bool, ◌&&◌, ◌||◌, some, ◌≡◌, List, arith, find_row, update_where, Unique,
  Unique-OneKey, OneKey, count_keyed, update_keyed, update_held, eq_iff, nat_eq, string_eq,
  option_eq, ◌==◌, ltb, if◌then◌else◌,
}
use draftly_agent_backend.Pages.Rows.{PageStatus, PageState, Database}
use draftly_agent_backend.Pages.Query.{ok, err, artifact_not_next}
use draftly_agent_backend.Pages.States.{at_page, with_pages, promote, record_artifact}

abbrev pub same_page : PageState → PageState → Bool
same_page p = at_page p.run_id p.page_id

pub one_page :
    (run page : String) (pages : List PageState)
    → Unique same_page pages
    → OneKey (at_page run page) pages
one_page run page pages unique =
    Unique-OneKey same_page (at_page run page)
      (λ x y k. ground (
        arith,
        eq_iff x.run_id run,
        eq_iff x.page_id page,
        eq_iff y.run_id run,
        eq_iff y.page_id page,
        eq_iff y.run_id x.run_id,
        eq_iff y.page_id x.page_id,
      ))
      pages unique

-- The row of a page, changed by `f`, and no other.
abbrev pub with_page : String → String → (PageState → PageState) → Database → Database
with_page run page f db = with_pages db (update_where (at_page run page) f db.pages)

-- The row of a page whose artifact was accepted.
abbrev pub accepted_row : String → ℕ → PageState → PageState
accepted_row artifact version p = record p {
  latest_artifact_id = some artifact;
  latest_version = version;
  status = PageStatus.evaluating;
}

-- `record_artifact` on a page that is there promotes a strictly newer version, and the artifact that
-- is promoted already; any other write is stale and changes nothing.
pub record_artifact_exact :
    (run page artifact : String) (version : ℕ) (db : Database) {p : PageState}
    → Unique same_page db.pages
    → find_row (at_page run page) db.pages ≡ some p
    → record_artifact run page artifact version db ≡ (
        if ltb p.latest_version version
          || (p.latest_version == version && p.latest_artifact_id == some artifact)
        then (ok tt, with_page run page (accepted_row artifact version) db)
        else (err (artifact_not_next artifact version), db))
unfolding record_artifact
record_artifact_exact run page artifact version db {p} unique found =
    let key = at_page run page in
    let one = one_page run page db.pages unique in
    let newer = λ (q : PageState).
      ltb q.latest_version version
      || (q.latest_version == version && q.latest_artifact_id == some artifact) in
    ground (
      arith,
      count_keyed key newer db.pages p one found,
      update_keyed key newer (promote artifact version) db.pages p one found,
      update_held key newer (promote artifact version) db.pages p one found,
    )

-- ===== src/Pages/States/Reviews.antt =====
-- What human decisions do to escalated pages.
use draftly_agent_backend.Prelude.{
  append_str, join_with, none, some, ℕ, String, Bool, false, ◌&&◌, Option, ◌≡◌, refl, List, [], ◌∷◌,
  arith, update_where, count_where, returned_row, any, any_quiet, any-update_where, find_quiet,
  update_none, contains, nat_eq, string_eq, ◌==◌, if◌then◌else◌, All, ap,
}
use mathlib.Core.Option
use draftly_agent_backend.Pages.Rows.{PageStatus, PageState, Database, is_awaiting}
use draftly_agent_backend.Pages.Query.{ok}
use draftly_agent_backend.Pages.States.{
  with_pages, awaiting_page, approve_page, approve_each, count_found, approve_escalated_pages,
  mark_escalated_failed,
}

module _ (run : String) (comment : Option String) where
  -- No page waits for review under this id.
  abbrev Quiet : Database → String → Type 0
  Quiet db page = any (awaiting_page run page) db.pages ≡ false

  Quiet-step :
      (page other : String) (db : Database)
      → Quiet db other
      → Quiet
          (with_pages db (update_where (awaiting_page run page) (approve_page comment) db.pages))
          other
  Quiet-step page other db h =
      any_quiet (awaiting_page run other) (awaiting_page run page) (approve_page comment)
        (λ p t. ground arith) db.pages h

  Quiet-after :
      (pages : List String) (n : ℕ) (other : String) (db : Database)
      → Quiet db other
      → Quiet (approve_each run comment pages n db).1 other
  unfolding approve_each
  Quiet-after [] n other db h = h
  Quiet-after (p ∷ ps) n other db h =
      Quiet-after ps
        (count_found (returned_row (awaiting_page run p) (approve_page comment) db.pages) n) other
        (with_pages db (update_where (awaiting_page run p) (approve_page comment) db.pages))
        (Quiet-step p other db h)

  -- After the loop none of its pages waits.
  pub All-Quiet :
      (pages : List String) (n : ℕ) (db : Database)
      → All (Quiet (approve_each run comment pages n db).1) pages
  unfolding approve_each
  All-Quiet [] n db = tt
  All-Quiet (p ∷ ps) n db =
      let test = awaiting_page run p in
      let next = with_pages db (update_where test (approve_page comment) db.pages) in
      let m = count_found (returned_row test (approve_page comment) db.pages) n in
      (
        Quiet-after ps m p next (
            any-update_where test test (approve_page comment) (λ q t. ground arith) (λ q t. t)
              db.pages),
        All-Quiet ps m next,
      )

  -- Approving pages none of which waits counts none and changes nothing.
  idle_loop :
      (pages : List String) (n : ℕ) (db : Database)
      → All (Quiet db) pages
      → approve_each run comment pages n db ≡ (ok n, db)
  unfolding approve_each
  idle_loop [] n db h = refl
  idle_loop (p ∷ ps) n db h =
      let test = awaiting_page run p in
      rw
        (
          update_none test (approve_page comment) db.pages h.0,
          ap (Option.map (approve_page comment)) (find_quiet test db.pages h.0),
        )
        (idle_loop ps n db h.1)

-- A repeated approval of the same pages returns 0 and changes nothing, so it leaves no trace in the
-- escalation reasons, whatever its comment.
pub approve_again :
    (run : String) (page : String) (pages : List String) (first second : Option String)
    (db : Database)
    → let after = (approve_escalated_pages run (page ∷ pages) first db).1 in
      approve_escalated_pages run (page ∷ pages) second after ≡ (ok 0, after)
unfolding approve_escalated_pages
approve_again run page pages first second db =
    let after = (approve_each run first (page ∷ pages) 0 db).1 in
    idle_loop run second (page ∷ pages) 0 after (All-Quiet run first (page ∷ pages) 0 db)

-- The lines of an audit trail: the reason that was there, then the approval's comment.
abbrev pub trail : Option String → Option String → List String
trail none none = []
trail none (some reason) = reason ∷ []
trail (some comment) none = append_str "Approved: " comment ∷ []
trail (some comment) (some reason) = reason ∷ append_str "Approved: " comment ∷ []

-- The lines of a trail as one text; a trail without lines is none.
abbrev pub lines : List String → Option String
lines [] = none
lines (x ∷ xs) = some (join_with "\n" (x ∷ xs))

-- The page after an approval of some page ids: passed, with the lines of its trail.
abbrev pub after_approval : Option String → List String → String → PageState → PageState
after_approval comment pages page p =
    if contains pages page && is_awaiting p.status
    then record p {
      status = PageStatus.passed;
      escalation_reason = lines (trail comment p.escalation_reason);
    }
    else p

-- The page as the loop leaves it.
abbrev moved : Option String → List String → String → PageState → PageState
moved comment pages page p =
    if contains pages page && is_awaiting p.status then approve_page comment p else p

abbrev pub awaits : String → PageState → Bool
awaits run p = p.run_id == run && is_awaiting p.status

-- A rejection leaves no page of the run waiting, and returns how many waited.
pub mark_escalated_failed_exact :
    (run : String) (comment : Option String) (db : Database)
    → ((mark_escalated_failed run comment db).0 ≡ ok (count_where (awaits run) db.pages))
      × (any (awaits run) (mark_escalated_failed run comment db).1.pages ≡ false)
unfolding mark_escalated_failed
mark_escalated_failed_exact run comment db =
    (refl, any-update_where (awaits run) (awaits run) _ (λ p t. ground arith) (λ p t. t) db.pages)

-- ===== src/Pages/History/Pages.antt =====
-- The history of a page: what every operation does to its row.
use draftly_agent_backend.Prelude.{
  ℕ, ◌≤◌, ◌<◌, String, Bool, true, some, ◌≡◌, List, arith, Evolves, Evolves_refl, Evolves_trans,
  Evolves-insert_unless, Evolves-update_where, Evolves-find_row, nat_eq, string_eq, ◌==◌, ◌∙◌, sym,
  update_where, find_row, find_row-update_where, find_row_holds, ap, ◌&&◌, Option-cases, Option,
  none, inl, inr,
}
use mathlib.Core.Option
use draftly_agent_backend.Pages.Rows.{PageState, PageStatus, Database, is_awaiting}
use draftly_agent_backend.Pages.Query.{ok}
use draftly_agent_backend.Pages.States.{
  at_page, bump, reserve_next_version, promotable, promote, awaiting_page, approve_page,
  reject_page,
}
use draftly_agent_backend.Pages.Evaluations.{projectable, project}
use draftly_agent_backend.Pages.Revisions.{revise}
use draftly_agent_backend.Pages.Tasks.{claim_ready_tasks}
use draftly_agent_backend.Pages.Operation.{Operation, run}
use draftly_agent_backend.Pages.Operation.Steps.{Steps, run-steps}

-- A page keeps its identity, its versions never go back, and it never returns to `pending`, nor
-- comes to be `writing`.
pub record Advances (p q : PageState) : Type 0 where
  pub run_id : q.run_id ≡ p.run_id
  pub page_id : q.page_id ≡ p.page_id
  pub org_id : q.org_id ≡ p.org_id
  pub path : q.path ≡ p.path
  pub action : q.action ≡ p.action
  pub next_version : p.next_version ≤ q.next_version
  pub latest_version : p.latest_version ≤ q.latest_version
  pub pending : q.status ≡ PageStatus.pending → p.status ≡ PageStatus.pending
  pub writing : q.status ≡ PageStatus.writing → p.status ≡ PageStatus.writing

Advances_refl : (p : PageState) → Advances p p
Advances_refl p = ground arith

Advances_trans : (p q r : PageState) → Advances p q → Advances q r → Advances p r
Advances_trans p q r h k = record {
  run_id = k.run_id ∙ h.run_id;
  page_id = k.page_id ∙ h.page_id;
  org_id = k.org_id ∙ h.org_id;
  path = k.path ∙ h.path;
  action = k.action ∙ h.action;
  next_version = omega arith;
  latest_version = omega arith;
  pending = λ e. h.pending (k.pending e);
  writing = λ e. h.writing (k.writing e);
}

-- The pages before stand at the head of the pages after, advanced.
abbrev pub PagesAdvance : Database → Database → Type 0
PagesAdvance a b = Evolves Advances a.pages b.pages

kept : (pages : List PageState) → Evolves Advances pages pages
kept = Evolves_refl Advances Advances_refl

updated :
    (test : PageState → Bool) (f : PageState → PageState)
    → ((p : PageState) → test p ≡ true → Advances p (f p))
    → (pages : List PageState) → Evolves Advances pages (update_where test f pages)
updated = Evolves-update_where Advances Advances_refl

module _ (collate : String → String → Bool) where
  page_steps : Steps collate PagesAdvance
  unfolding claim_ready_tasks
  page_steps = record {
    refl_step = λ a. kept a.pages;
    trans_step = λ a b c. Evolves_trans Advances Advances_trans a.pages b.pages c.pages;
    seed = λ run org p db. Evolves-insert_unless Advances Advances_refl _ _ db.pages;
    reserve = λ run page db. updated (at_page run page) bump (λ p t. ground arith) db.pages;
    promotion = λ run page artifact version db.
        updated (promotable run page artifact version) (promote artifact version)
          (λ p t. ground arith) db.pages;
    approval = λ run page comment db.
        updated (awaiting_page run page) (approve_page comment) (λ p t. ground arith) db.pages;
    rejection = λ run reason db.
        updated (λ p. p.run_id == run && is_awaiting p.status) (reject_page reason)
          (λ p t. ground arith) db.pages;
    evaluation = λ row db e. kept db.pages;
    projection = λ run result kept db.
        updated (projectable run result db.revisions) (project kept) (λ p t. ground arith) db.pages;
    revision = λ run page version db.
        updated (at_page run page) (revise version) (λ p t. ground arith) db.pages;
    queue = λ run task org kind page version dependencies input now db. kept db.pages;
    claim = λ locked now run owner lease limit db. kept db.pages;
    completion = λ run task owner output db. kept db.pages;
    recycling = λ run task owner message db. kept db.pages;
    expiry = λ run now db. kept db.pages;
    cancelling = λ run db. kept db.pages;
  }

  -- After any trace a page that was there is there, with the same identity; its version counter and
  -- its accepted version have not gone back, and its status is `pending` or `writing` only if it
  -- was so before.
  pub page_history :
      (ops : List Operation) (db : Database) (run_id page_id : String) {p : PageState}
      → find_row (at_page run_id page_id) db.pages ≡ some p
      → (q : PageState) × (find_row (at_page run_id page_id) (run collate ops db).pages ≡ some q)
        × Advances p q
  page_history ops db run_id page_id {p} h =
      Evolves-find_row Advances (at_page run_id page_id) (λ x y s. ground arith) db.pages
        (run collate ops db).pages p (run-steps page_steps ops db) h

abbrev next_of : Option PageState → ℕ
next_of none = 0
next_of (some p) = p.next_version

-- What a successful reservation has read and written.
reserve_lem :
    (run page : String) (db : Database) (v : ℕ)
    → (reserve_next_version run page db).0 ≡ ok v
    → (p : PageState) × (find_row (at_page run page) db.pages ≡ some p)
      × (p.next_version ≡ v)
      × (find_row (at_page run page) (reserve_next_version run page db).1.pages ≡ some (bump p))
unfolding reserve_next_version
reserve_lem run page db v h = elim (Option-cases (find_row (at_page run page) db.pages)) [
  | inl e ↦ absurd (ground (arith, ap (Option.map bump) e))
  | inr (p, e) ↦ (
    p,
    e,
    ground arith,
    rw
        (
          find_row-update_where (at_page run page) (at_page run page) bump (λ x. ground arith)
              db.pages,
          e,
        )
        (ground (arith, find_row_holds (at_page run page) db.pages p e)),
  )
]

module _ (collate : String → String → Bool) where
  -- Two reservations of one page never give the same version, whatever happens between them: the
  -- later one is greater.
  pub reserve_increases :
      (run_id page_id : String) (ops : List Operation) (db : Database) (v w : ℕ)
      → (reserve_next_version run_id page_id db).0 ≡ ok v
      → (reserve_next_version run_id page_id
          (run collate ops (reserve_next_version run_id page_id db).1)).0
        ≡ ok w
      → v < w
  reserve_increases run_id page_id ops db v w first second =
      let (p, found, is_v, after) = reserve_lem run_id page_id db v first in
      let (q, later, advances) =
        page_history collate ops (reserve_next_version run_id page_id db).1 run_id page_id after in
      let (r, again, is_w, _) =
        reserve_lem run_id page_id (run collate ops (reserve_next_version run_id page_id db).1) w
          second in
      omega
        (arith, ap (λ (x : Option PageState). next_of x) (sym later ∙ again), advances.next_version)

-- ===== src/Pages/Handlers.antt =====
-- The task handlers of src/draftly/orchestration/page_workflow/handlers.py: what they share, a small
-- monad of steps that raise or return and may write to the database.
pub mod Artifacts
pub mod Evaluator
pub mod CrossPage
pub mod Corrections
pub mod Verdicts
pub mod Snapshots
pub mod Reviews
pub mod Writer
use draftly_agent_backend.Prelude.{ℕ, String, Bool, true, false, ◌≡◌, refl, ap, arith}
use draftly_agent_backend.Pages.Rows.{Database}
use draftly_agent_backend.Pages.Query.{Error, Result, ok, err, Query}

-- The exceptions of a handler: its `ValueError`s, an attribute or an item of another type, and what
-- the repository raises.
pub data HandlerError : Type 0 where
  missing_plan : HandlerError
  missing_page_id : HandlerError
  not_canonical : String → HandlerError
  other_page : HandlerError
  no_version : HandlerError
  attempt_out_of_budget : HandlerError
  needs_comment : HandlerError
  no_sealed_artifact : String → HandlerError
  empty_artifact : String → HandlerError
  no_identity : String → HandlerError
  unexpected_version : ℕ → HandlerError
  unexpected_artifact : String → HandlerError
  evidence_no_list : HandlerError
  wrong_type : HandlerError
  passed_without_artifact : HandlerError
  not_all_passed : HandlerError
  path_mismatch : String → HandlerError
  not_current : String → HandlerError
  no_reviewer : HandlerError
  no_verdict : HandlerError
  clean_with_corrections : HandlerError
  unknown_page : HandlerError
  repository : Error → HandlerError

pub data Answer (A : Type 0) : Type 0 where
  done : A → Answer A
  fails : HandlerError → Answer A

abbrev pub Step : Type 0 → Type 0
Step A = Database → Answer A × Database

abbrev pub return : {A : Type 0} → A → Step A
return a db = (done a, db)

abbrev pub fail : {A : Type 0} → HandlerError → Step A
fail e db = (fails e, db)

abbrev pub from_answer : {A : Type 0} → Answer A → Step A
from_answer answer db = (answer, db)

abbrev pub answer_of : {A : Type 0} → Result A → Answer A
answer_of (ok a) = done a
answer_of (err e) = fails (repository e)

-- A call of the repository.
abbrev pub call : {A : Type 0} → Query A → Step A
call q db = (answer_of (q db).0, (q db).1)

abbrev pub proceed : {A B : Type 0} → Answer A → (A → Step B) → Step B
proceed (done a) f db = f a db
proceed (fails e) f db = (fails e, db)

infixl 5 ◌>>=◌ ◌>>◌
unfoldable pub ◌>>=◌ : {A B : Type 0} → Step A → (A → Step B) → Step B
◌>>=◌ m f db = proceed (m db).0 f (m db).1

abbrev pub ◌>>◌ : {A B : Type 0} → Step A → Step B → Step B
m >> k = m >>= λ _. k

-- Steps that read nothing of the database.
abbrev pub then_answer : {A B : Type 0} → Answer A → (A → Answer B) → Answer B
then_answer (fails e) f = fails e
then_answer (done a) f = f a

-- What a sequence that returns has passed.
pub then_done :
    {A B : Type 0} (first : Answer A) (f : A → Answer B) (b : B)
    → then_answer first f ≡ done b
    → (a : A) × (first ≡ done a) × (f a ≡ done b)
then_done (done a) f b h = (a, refl, h)
then_done (fails e) f b h = absurd (ground arith)

pub bind_done :
    {A B : Type 0} (m : Step A) (f : A → Step B) (db : Database) (b : B)
    → ((m >>= f) db).0 ≡ done b
    → (a : A) × ((m db).0 ≡ done a) × ((f a (m db).1).0 ≡ done b) × ((m >>= f) db ≡ f a (m db).1)
unfolding ◌>>=◌
bind_done {A} {B} m f db b h = go (m db).0 refl h
  where
    go :
        (answer : Answer A)
        → (m db).0 ≡ answer
        → (proceed answer f (m db).1).0 ≡ done b
        → (a : A) × ((m db).0 ≡ done a)
          × ((f a (m db).1).0 ≡ done b)
          × (proceed (m db).0 f (m db).1 ≡ f a (m db).1)
    go (done a) e k = (a, e, k, ap (λ answer. proceed answer f (m db).1) e)
    go (fails x) e k = absurd (ground arith)

pub done-injective : {A : Type 0} (a b : A) → done a ≡ done b → a ≡ b
done-injective a b h = ground arith

pub answer_done : {A : Type 0} (r : Result A) (a : A) → answer_of r ≡ done a → r ≡ ok a
answer_done (ok x) a h = ap ok (done-injective x a h)
answer_done (err e) a h = absurd (ground arith)

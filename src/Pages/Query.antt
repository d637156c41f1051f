-- ===== src/Pages/Query.antt =====
-- Statements against the database: they may raise, and what they wrote before stays written, unless
-- a transaction rolls it back.
use draftly_agent_backend.Prelude.{
  ℕ, String, Option, none, some, Bool, true, false, ◌≡◌, refl, arith, if◌then◌else◌,
}
use draftly_agent_backend.Pages.Rows.{Database}

-- One constructor for each `raise` of repository.py, and two for those of `resume` in node.py.
pub data Error : Type 0 where
  page_not_found : String → Error
  artifact_not_next : String → ℕ → Error
  approve_needs_pages : Error
  not_sealed : String → Error
  no_page_state : String → Error
  not_current_artifact : Error
  stale_version : Error
  hash_mismatch : Error
  projection_lost : Error
  duplicate_page_ids : Error
  attempt_out_of_range : Error
  revision_is_stale : String → Error
  not_next_attempt : ℕ → Error
  comment_required : Error
  not_iterable : Error
  leased_by_other : String → String → Error
  changes_need_comment : Error
  unknown_decision : String → Error

-- Whether the exception is a `StaleArtifactError`; the others are `ValueError`s, and a `TypeError`.
abbrev pub is_stale : Error → Bool
is_stale (artifact_not_next _ _) = true
is_stale (not_sealed _) = true
is_stale (no_page_state _) = true
is_stale not_current_artifact = true
is_stale stale_version = true
is_stale hash_mismatch = true
is_stale projection_lost = true
is_stale (revision_is_stale _) = true
is_stale (leased_by_other _ _) = true
is_stale _ = false

pub data Result {ℓ} (A : Type ℓ) : Type ℓ where
  ok : A → Result A
  err : Error → Result A

abbrev pub Query : Type 0 → Type 0
Query A = Database → Result A × Database

module _ {A : Type 0} where
  abbrev pub pure : A → Query A
  pure a db = (ok a, db)

  abbrev pub raise : Error → Query A
  raise e db = (err e, db)

  -- `if row is None: raise`
  abbrev pub or_raise : Option A → Error → Query A
  or_raise none e = raise e
  or_raise (some a) e = pure a

  abbrev pub gets : (Database → A) → Query A
  gets f db = (ok (f db), db)

  abbrev pub settle : Database → Result A × Database → Result A × Database
  settle before (ok a, after) = (ok a, after)
  settle before (err e, after) = (err e, before)

  -- `async with self.database.transaction()`: an exception rolls everything back.
  unfoldable pub transaction : Query A → Query A
  transaction body db = settle db (body db)

abbrev pub raise_if : Bool → Error → Query (Unit {0})
raise_if test e db = (if test then err e else ok tt, db)

abbrev pub modify : (Database → Database) → Query (Unit {0})
modify f db = (ok tt, f db)

abbrev pub continue : {A B : Type 0} → Result A → (A → Query B) → Query B
continue (ok a) f db = f a db
continue (err e) f db = (err e, db)

infixl 5 ◌>>=◌ ◌>>◌
unfoldable pub ◌>>=◌ : {A B : Type 0} → Query A → (A → Query B) → Query B
◌>>=◌ m f db = continue (m db).0 f (m db).1

abbrev pub ◌>>◌ : {A B : Type 0} → Query A → Query B → Query B
m >> k = m >>= λ _. k

-- A transaction that raises leaves the database as it was.
pub transaction_rolls_back :
    {A : Type 0} (body : Query A) (db : Database) (e : Error)
    → (transaction body db).0 ≡ err e
    → (transaction body db).1 ≡ db
unfolding transaction
transaction_rolls_back body db e h = ground arith

-- What a sequence that returns has passed: each rule says what the first query has checked, and that
-- the rest runs from the same database.
module _ {A B : Type 0} where
  pub found_bind :
      (o : Option A) (e : Error) (f : A → Query B) (db : Database) (b : B)
      → ((or_raise o e >>= f) db).0 ≡ ok b
      → (a : A) × (o ≡ some a) × ((or_raise o e >>= f) db ≡ f a db)
  unfolding ◌>>=◌
  found_bind none e f db b h = absurd (ground arith)
  found_bind (some a) e f db b h = (a, refl, refl)

pub guard_bind :
    {B : Type 0} (test : Bool) (e : Error) (f : Unit {0} → Query B) (db : Database) (b : B)
    → ((raise_if test e >>= f) db).0 ≡ ok b
    → (test ≡ false) × ((raise_if test e >>= f) db ≡ f tt db)
unfolding ◌>>=◌
guard_bind true e f db b h = absurd (ground arith)
guard_bind false e f db b h = (refl, refl)

-- A transaction that returns has done what its body did.
pub transaction_succeeds :
    {A : Type 0} (body : Query A) (db : Database) (a : A)
    → (transaction body db).0 ≡ ok a
    → ((body db).0 ≡ ok a) × ((transaction body db).1 ≡ (body db).1)
unfolding transaction
transaction_succeeds body db a h = ground arith

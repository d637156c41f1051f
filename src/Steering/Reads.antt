-- ===== src/Steering/Reads.antt =====
-- The read budget of a page writer: `WriterReadBudget` and `DraftScope` of
-- src/draftly/agents/documentation/draft_scope.py, the reservation that a GitHub tool makes
-- (src/draftly/tools/github/writer_scope.py), and the guard in front of the tools
-- (src/draftly/steering/writer_read_budget_guard.py).
pub mod Guard
pub mod Bounds
use draftly_agent_backend.Prelude.{
  ℕ, String, append_str, show_nat, has_char, is_empty, Bool, true, false, ◌&&◌, ◌||◌, not, ◌≡◌,
  refl, ◌↔◌, inl, inr, Option, none, some, List, [], ◌∷◌, length, contains, Eq, ◌==◌, leb, nat_eq,
  string_eq, if◌then◌else◌, Json, object, str, Fields, get_field, arith, eq_iff,
}
use draftly_agent_backend.Prelude.{shown, is_given, or_else}

-- Tuples of texts are compared by value.
abbrev pub same_texts : List String → List String → Bool
same_texts [] [] = true
same_texts [] (y ∷ ys) = false
same_texts (x ∷ xs) [] = false
same_texts (x ∷ xs) (y ∷ ys) = x == y && same_texts xs ys

pub same_texts_iff : (xs ys : List String) → (same_texts xs ys ≡ true) ↔ (xs ≡ ys)
same_texts_iff [] [] = ground arith
same_texts_iff [] (y ∷ ys) = ground arith
same_texts_iff (x ∷ xs) [] = ground arith
same_texts_iff (x ∷ xs) (y ∷ ys) = ground (arith, eq_iff x y, same_texts_iff xs ys)

instance abbrev pub texts_eq : Eq (List String)
texts_eq = record { equals = same_texts; equals_iff = same_texts_iff }

-- `WriterReadBudget`: the set of keys that were read, and its bound.
pub record WriterReadBudget : Type 0 where
  pub max_calls : ℕ
  pub seen : List (List String)

abbrev pub already_read : String
already_read = "This source was already read; use its existing evidence and draft the page."

abbrev pub exhausted : ℕ → String
exhausted max_calls =
    append_str "Writer read budget of "
      (append_str (show_nat max_calls) " calls exhausted; draft the page from gathered evidence.")

-- `WriterReadBudget.failure`
unfoldable pub failure : WriterReadBudget → List String → Option String
failure budget key =
    if contains budget.seen key
    then some already_read
    else if leb budget.max_calls (length budget.seen)
    then some (exhausted budget.max_calls)
    else none

-- The texts of a `ValueError`, or the budget after.
pub data Reserved : Type 0 where
  reserved : WriterReadBudget → Reserved
  value_error : String → Reserved

abbrev pub add_key : List String → WriterReadBudget → Option String → Reserved
add_key key budget (some reason) = value_error reason
add_key key budget none = reserved (record budget { seen = key ∷ budget.seen })

-- `WriterReadBudget.reserve`
unfoldable pub reserve : WriterReadBudget → List String → Reserved
unfolding failure
reserve budget key = add_key key budget (failure budget key)

pub record DraftProgress : Type 0 where
  pub draft_id : Option String
  pub chunks : ℕ
  pub sealed : Bool

pub record DraftScope : Type 0 where
  pub run_id : String
  pub org_id : String
  pub generation : ℕ
  pub version : Option ℕ
  pub assigned_page_id : Option String
  pub repository : Option String
  pub head_sha : Option String
  pub read_budget : Option WriterReadBudget
  pub progress : Option DraftProgress

-- `writer_read_key`
abbrev pub writer_read_key : String → String → String → String → String → List String
writer_read_key tool owner repo path ref = tool ∷ owner ∷ repo ∷ path ∷ ref ∷ []

-- The `ValueError`s of a tool's first lines: three of the target, and those of the budget.
pub data Refusal : Type 0 where
  no_assigned_repository : Refusal
  outside_repository : Refusal
  not_head_sha : Refusal
  over_budget : String → Refusal

-- What a tool's first lines do: they go on to the client, in the scope after, or raise.
pub data Begun : Type 0 where
  goes_on : Option DraftScope → Begun
  refused : Refusal → Begun

abbrev with_budget : DraftScope → Reserved → Begun
with_budget scope (reserved budget) = goes_on (some (record scope { read_budget = some budget }))
with_budget scope (value_error reason) = refused (over_budget reason)

-- `reserve_writer_read`, in the current scope.
unfoldable pub reserve_writer_read : List String → Option DraftScope → Begun
unfolding reserve
reserve_writer_read key none = goes_on none
reserve_writer_read key (some scope) = elim scope.read_budget [
  | none ↦ goes_on (some scope)
  | some budget ↦ with_budget scope (reserve budget key)
]

abbrev pub is_set : Option String → Bool
is_set none = false
is_set (some s) = not (is_empty s)

-- `value or ""`
abbrev pub or_empty : Option String → String
or_empty none = ""
or_empty (some s) = s

-- The `ValueError`s of `require_writer_target` in a scope that assigns a page.
abbrev target_failure : String → String → String → DraftScope → Option Refusal
target_failure owner repo ref scope =
    if not (is_set scope.repository)
    then some no_assigned_repository
    else if not (append_str owner (append_str "/" repo) == or_empty scope.repository)
    then some outside_repository
    else if is_set scope.head_sha && not (ref == or_empty scope.head_sha)
    then some not_head_sha
    else none

-- `require_writer_target`, with a reference.
unfoldable pub require_writer_target : String → String → String → Option DraftScope → Option Refusal
require_writer_target owner repo ref none = none
require_writer_target owner repo ref (some scope) = elim scope.assigned_page_id [
  | none ↦ none
  | some page ↦ target_failure owner repo ref scope
]

abbrev unless_refused : Option Refusal → Begun → Begun
unless_refused none rest = rest
unless_refused (some reason) rest = refused reason

-- `_read_file`, until it constructs the client.
unfoldable pub read_file : String → String → String → String → Option DraftScope → Begun
unfolding reserve_writer_read require_writer_target
read_file owner repo path ref scope =
    unless_refused (require_writer_target owner repo ref scope)
      (reserve_writer_read (writer_read_key "github_read_file" owner repo path ref) scope)

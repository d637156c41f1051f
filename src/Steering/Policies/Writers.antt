-- ===== src/Steering/Policies/Writers.antt =====
-- `RolePolicy._check_writer_assignment`: a page writer stays with its page, repository and commit.
use draftly_agent_backend.Prelude.{
  String, append_str, is_empty, strip, strip_char, Bool, ◌&&◌, ◌||◌, not, Option, none, some, List,
  [], ◌∷◌, ◌==◌, string_eq, if◌then◌else◌, Json, str, Fields, get_field,
}
use draftly_agent_backend.Prelude.{is_text, shown}
use draftly_agent_backend.Steering.Reads.{WriterReadBudget, DraftScope, failure, is_set, or_empty}
use draftly_agent_backend.Steering.Policies.Runtime.{Failure}

abbrev pub is_github_read : String → Bool
is_github_read tool =
    tool == "github_read_file" || tool == "github_get_tree" || tool == "github_search_code"

-- `prefix.strip().strip("/") or None if isinstance(prefix, str) else None`
unfoldable pub tree_prefix : Option Json → Option Json
unfolding strip strip_char
tree_prefix (some (str s)) =
    let cleaned = strip_char "/" (strip s) in if is_empty cleaned then none else some (str cleaned)
tree_prefix _ = none

-- `expected_ref` in a text.
abbrev shown_ref : Option String → String
shown_ref none = "None"
shown_ref (some s) = s

module _ (repr : Json → String) where
  -- The key of a read, as the policy builds it.
  unfoldable pub policy_key : String → Fields → List String
  unfolding shown tree_prefix
  policy_key tool call =
      let owner = shown repr (get_field "owner" call) in
      let repo = shown repr (get_field "repo" call) in
      let ref = shown repr (get_field "ref" call) in
      if tool == "github_read_file"
      then tool ∷ owner ∷ repo ∷ shown repr (get_field "path" call) ∷ ref ∷ []
      else if tool == "github_get_tree"
      then tool ∷ owner ∷ repo ∷ ref ∷ shown repr (tree_prefix (get_field "path_prefix" call)) ∷ []
      else tool ∷ owner ∷ repo ∷ shown repr (get_field "query" call) ∷ []

  abbrev budget_failure : Option WriterReadBudget → String → Fields → Option Failure
  budget_failure none tool call = none
  budget_failure (some budget) tool call = elim (failure budget (policy_key tool call)) [
    | none ↦ none
    | some reason ↦ some ("writer:read-budget", reason)
  ]

  -- The checks of a GitHub read.
  unfoldable pub read_failure : DraftScope → String → Fields → Option Failure
  unfolding shown policy_key failure
  read_failure scope tool call =
      let expected_repo = or_empty scope.repository in
      let actual_repo =
        append_str (shown repr (get_field "owner" call))
          (append_str "/" (shown repr (get_field "repo" call))) in
      if is_empty expected_repo
      then some (
        "writer:repository",
        "This page has no assigned repository. Stop GitHub reads and report the missing assignment.",
      )
      else if not (actual_repo == expected_repo)
      then some (
        "writer:repository",
        append_str "This page belongs to " (
            append_str expected_repo (
              append_str " at PR head SHA " (
                append_str
                  (if is_set scope.head_sha then or_empty scope.head_sha else "(unavailable)")
                  ". Retry that repository only."))),
      )
      else if tool == "github_search_code"
      then some (
        "writer:unpinned-search",
        append_str "GitHub code search cannot target pinned SHA "
            (append_str (shown_ref scope.head_sha) "; read exact files or a narrow tree instead."),
      )
      else if is_set scope.head_sha
          && not (is_text (or_empty scope.head_sha) (get_field "ref" call))
      then some (
        "writer:ref",
        append_str "Read " (
            append_str expected_repo (
              append_str " at PR head SHA "
                (append_str (or_empty scope.head_sha) ", not a branch."))),
      )
      else budget_failure scope.read_budget tool call

  -- The checks of `start_draft`.
  unfoldable pub draft_failure : DraftScope → String → Fields → Option Failure
  draft_failure scope page call =
      if is_set scope.repository
        && not (is_text (or_empty scope.repository) (get_field "repository" call))
      then some (
        "writer:draft-repository",
        append_str "Start the draft for assigned repository "
            (append_str (or_empty scope.repository) "."),
      )
      else if not (is_text page (get_field "path" call))
      then some ("writer:draft-path", append_str "Draft only assigned page " (append_str page "."))
      else none

  abbrev assigned_failure : DraftScope → Option String → String → Fields → Option Failure
  assigned_failure scope none tool call = none
  assigned_failure scope (some page) tool call =
      if is_github_read tool
      then read_failure scope tool call
      else if tool == "start_draft"
      then draft_failure scope page call
      else none

  -- `_check_writer_assignment`, in the current draft scope.
  unfoldable pub check_writer_assignment : Option DraftScope → String → Fields → Option Failure
  unfolding read_failure draft_failure
  check_writer_assignment none tool call = none
  check_writer_assignment (some scope) tool call =
      assigned_failure scope scope.assigned_page_id tool call

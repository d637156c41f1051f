-- ===== src/Steering/Reads/Guard.antt =====
-- `WriterReadBudgetGuard` of src/draftly/steering/writer_read_budget_guard.py, which runs before each
-- tool call of a page writer.
use draftly_agent_backend.Prelude.{
  String, append_str, show_nat, starts_with, is_empty, same_char, Bool, ◌||◌, Option, none, some,
  List, [], ◌∷◌, contains, ◌==◌, string_eq, if◌then◌else◌, Json, object, Fields, get_field,
}
use draftly_agent_backend.Prelude.{text_or, or_else}
use draftly_agent_backend.Steering.Reads.{
  WriterReadBudget, DraftScope, Reserved, reserved, value_error, failure, reserve, writer_read_key,
  or_empty,
}

-- What the handler answers.
pub data Guarded : Type 0 where
  proceed : Guarded
  guide : String → Guarded
  crash : String → Guarded

-- `_READ_TOOL_NAMES`
abbrev pub read_tool_names : List String
read_tool_names =
    "github_read_file" ∷ "github_get_tree" ∷ "github_search_code" ∷ "github_get_file"
    ∷ "github_list_tree" ∷ "read_file" ∷ "list_directory" ∷ "get_files" ∷ "code_search" ∷ []

-- `_canonical_name`
abbrev pub canonical_name : String → String
canonical_name name =
    if name == "github_get_file"
    then "github_read_file"
    else if name == "github_list_tree"
    then "github_get_tree"
    else name

-- `repository.partition("/")`, without the separator.
unfoldable pub partition_slash : String → String × String
partition_slash String.[] = ("", "")
partition_slash (String.◌∷◌ c s) =
    let (owner, repo) = partition_slash s in
    if same_char c "/" then ("", s) else (String.◌∷◌ c owner, repo)

-- `part in text`
unfoldable pub has_part : String → String → Bool
unfolding starts_with
has_part String.[] part = is_empty part
has_part (String.◌∷◌ c s) part = starts_with (String.◌∷◌ c s) part || has_part s part

module _ (repr : Json → String) where
  -- `_read_key`
  unfoldable pub read_key : String → Fields → DraftScope → List String
  unfolding text_or partition_slash
  read_key tool input scope =
      let (owner, repo) = partition_slash (or_empty scope.repository) in
      writer_read_key tool (text_or repr (get_field "owner" input) owner)
        (text_or repr (get_field "repo" input) repo)
        (text_or repr (or_else (get_field "path" input) (get_field "file_path" input)) "")
        (text_or repr (get_field "ref" input) (or_empty scope.head_sha))

  -- `_feedback_for`
  unfoldable pub feedback_for : String → Fields → WriterReadBudget → String
  unfolding text_or has_part
  feedback_for reason input budget =
      if has_part reason "already read"
      then append_str "You already read " (
          append_str
            (text_or repr (or_else (get_field "path" input) (get_field "file_path" input))
              "that source")
            " for this page. Do not read it again — use the evidence you already gathered and draft the page now.")
      else append_str "The page writer's read budget of " (
          append_str (show_nat budget.max_calls)
            " calls is exhausted. Do not read anything else. Using only the evidence already gathered, draft the page and call the structured-output tool.")

  abbrev reserve_in : DraftScope → Reserved → Guarded × Option DraftScope
  reserve_in scope (reserved budget) = (proceed, some (record scope { read_budget = some budget }))
  reserve_in scope (value_error reason) = (crash reason, some scope)

  abbrev pub judge_read :
      DraftScope
      → WriterReadBudget
      → Fields
      → List String
      → Option String
      → Guarded × Option DraftScope
  judge_read scope budget input key none = reserve_in scope (reserve budget key)
  judge_read scope budget input key (some reason) =
      (guide (feedback_for reason input budget), some scope)

  -- `before_tool_call` on a read, in a scope with a budget.
  abbrev guard_read :
      DraftScope → WriterReadBudget → String → Option Json → Guarded × Option DraftScope
  guard_read scope budget name (some (object input)) =
      let key = read_key (canonical_name name) input scope in
      judge_read scope budget input key (failure budget key)
  guard_read scope budget name _ = (proceed, some scope)

  -- `WriterReadBudgetGuard.before_tool_call`, in the current scope, which it changes.
  unfoldable pub before_tool_call :
      String → Option Json → Option DraftScope → Guarded × Option DraftScope
  unfolding read_key feedback_for failure reserve
  before_tool_call name input none = (proceed, none)
  before_tool_call name input (some scope) = elim scope.read_budget [
    | none ↦ (proceed, some scope)
    | some budget ↦
        if contains read_tool_names name
        then guard_read scope budget name input
        else (proceed, some scope)
  ]

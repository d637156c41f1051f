-- ===== src/Steering/Policies/Checks.antt =====
-- The deterministic checks of `RolePolicy`, each of one tool call.
use draftly_agent_backend.Prelude.{
  String, append_str, is_empty, ends_with, Bool, false, ◌&&◌, ◌||◌, not, Option, none, some, List,
  [], ◌∷◌, ◌++◌, contains, ◌==◌, string_eq, if◌then◌else◌, Json, str, object, Fields, get_field,
}
use draftly_agent_backend.Prelude.{is_true, strip, is_given, or_else, is_nonblank, is_text, shown}
use draftly_agent_backend.Steering.Decisions.{Raises, returns, raises, attribute_error}
use draftly_agent_backend.Steering.Policies.{RolePolicy, look_up}
use draftly_agent_backend.Steering.Policies.Runtime.{
  RuntimeScope, Failure, looks_like_repo, path_within,
}

-- `_SCOPE_PATH_KEYS`
abbrev pub scope_path_keys : List String
scope_path_keys = "path" ∷ "repo_dir" ∷ "repo_root" ∷ "target" ∷ "directory" ∷ []

abbrev quoted : String → String
quoted s = append_str "'" (append_str s "'")

module _ (posix_path : String → String) where
  abbrev pub is_outside : String → Option Json → Bool
  is_outside root (some (str raw)) =
      is_nonblank (some (str raw))
      && (not (raw == "__checkout__") && not (path_within posix_path root raw))
  is_outside root _ = false

  abbrev text_of : Option Json → String
  text_of (some (str s)) = s
  text_of _ = ""

  -- The first path argument outside the root.
  unfoldable pub first_outside : String → String → Fields → List String → Option Failure
  unfolding is_nonblank path_within
  first_outside root tool call [] = none
  first_outside root tool call (key ∷ keys) =
      if is_outside root (get_field key call)
      then some (
        "reroute:scope",
        append_str "tool " (
            append_str (quoted tool) (
              append_str " path " (
                append_str (quoted (text_of (get_field key call)))
                  (append_str " is outside checkout root " (quoted root))))),
      )
      else first_outside root tool call keys

  -- `_check_scope`
  unfoldable pub check_scope : RuntimeScope → String → Fields → Option Failure
  unfolding first_outside
  check_scope scope tool call = elim scope.repo_checkout_root [
    | none ↦ none
    | some root ↦ if is_empty root then none else first_outside root tool call scope_path_keys
  ]

-- Whether a destination is a repository other than the run's.
unfoldable pub is_other_repo : RuntimeScope → Option Json → Bool
unfolding looks_like_repo ends_with
is_other_repo scope (some (str s)) =
    looks_like_repo s
    && (not (s == append_str scope.org_id (append_str "/" scope.project_id))
        && not (ends_with s (append_str "/" scope.project_id)))
is_other_repo scope _ = false

-- `tool_use.get("destination") or tool_use.get("repo") or tool_use.get("channel")`
abbrev pub destination_of : Fields → Option Json
destination_of call =
    or_else (or_else (get_field "destination" call) (get_field "repo" call))
      (get_field "channel" call)

abbrev pub is_other_project : RuntimeScope → Fields → Bool
is_other_project scope call =
    let project = get_field "destination_project" call in
    is_given project && not (is_text scope.project_id project)

abbrev pub scope_failed : RolePolicy → String → Option Failure → Option Failure
scope_failed p tool none = none
scope_failed p tool (some (rule, reason)) =
    if contains (p.write_tools ++ p.side_effect_tools) tool
    then some ("delivery:scope", append_str rule (append_str ": " reason))
    else none

-- `_check_side_effect_scope`
unfoldable pub check_side_effect_scope :
    (String → String)
    → (Json → String)
    → RolePolicy
    → RuntimeScope
    → String
    → Fields
    → Option Failure
unfolding check_scope is_other_repo shown
check_side_effect_scope posix_path repr p scope tool call =
    if is_other_project scope call
    then some (
      "delivery:destination-project",
      append_str "destination_project " (
          append_str (quoted (shown repr (get_field "destination_project" call)))
            " does not match run project"),
    )
    else if is_other_repo scope (destination_of call)
    then some (
      "delivery:destination",
      append_str "destination " (
          append_str (quoted (shown repr (destination_of call))) (
            append_str " is outside authorized repo "
              (quoted (append_str scope.org_id (append_str "/" scope.project_id))))),
    )
    else scope_failed p tool (check_scope posix_path scope tool call)

-- `(tool_use.get("metadata") or {}).get("idempotency_key")`
abbrev pub metadata_key : Option Json → Raises (Option Json)
metadata_key (some (object fields)) = returns (get_field "idempotency_key" fields)
metadata_key v = if is_given v then raises attribute_error else returns none

abbrev pub idempotency_of : Fields → Raises (Option Json)
idempotency_of call =
    if is_given (get_field "idempotency_key" call)
    then returns (get_field "idempotency_key" call)
    else metadata_key (get_field "metadata" call)

abbrev pub needs_key : Raises (Option Json) → Raises (Option Failure)
needs_key (raises e) = raises e
needs_key (returns v) = returns (
    if is_nonblank v
    then none
    else some ("delivery:idempotency", "side-effecting tool requires idempotency metadata"))

-- `_check_idempotency`
unfoldable pub check_idempotency : Fields → Raises (Option Failure)
unfolding is_nonblank
check_idempotency call = needs_key (idempotency_of call)

abbrev pub first_blank : String → Fields → List String → Option Failure
first_blank tool call [] = none
first_blank tool call (arg ∷ args) =
    if is_nonblank (get_field arg call)
    then first_blank tool call args
    else some (
      "argument:required",
      append_str "tool "
          (append_str (quoted tool) (append_str " requires non-empty " (quoted arg))),
    )

-- `mapping.get(tool_name, ())`
abbrev pub or_nothing : Option (List String) → List String
or_nothing none = []
or_nothing (some args) = args

-- `_check_arguments`
unfoldable pub check_arguments : RolePolicy → String → Fields → Option Failure
unfolding is_nonblank
check_arguments p tool call = first_blank tool call (or_nothing (look_up tool p.required_text_args))

-- `_check_destination`
unfoldable pub check_destination : RolePolicy → String → Fields → Option Failure
unfolding is_nonblank
check_destination p tool call =
    if contains p.deliver_tools tool
      && ((tool == "slack_post_message" || tool == "discord_post_message")
          && not (is_nonblank (get_field "channel" call)))
    then some ("delivery:channel", "posting tool requires a channel target")
    else none

-- `_has_evidence`
unfoldable pub has_evidence : Option Json → Bool
unfolding strip
has_evidence none = false
has_evidence (some (str s)) = not (is_empty (strip s))
has_evidence (some v) = is_true v

-- The evidence that a tool lacks: `required_key and not _has_evidence(tool_use, required_key)`.
unfoldable pub missing_evidence : RolePolicy → String → Fields → Option Failure
unfolding has_evidence
missing_evidence p tool call = elim (look_up tool p.required_evidence) [
  | none ↦ none
  | some key ↦
      if not (is_empty key) && not (has_evidence (get_field key call))
      then some ("evidence:missing", append_str "missing required evidence " (quoted key))
      else none
]

-- ===== src/Steering/Policies.antt =====
-- The role policies of src/draftly/steering/policy.py: the record, the sets of tools and the matrix of
-- the eight roles.
pub mod Runtime
pub mod Checks
pub mod Writers
pub mod Evaluation
pub mod Guides
pub mod Bounds
pub mod Destinations
pub mod Safety
pub mod Roles
use draftly_agent_backend.Prelude.{
  ℕ, String, Bool, true, false, ◌&&◌, ◌||◌, not, Option, none, some, List, [], ◌∷◌, ◌++◌, map,
  contains, ◌==◌, string_eq, if◌then◌else◌,
}
use draftly_agent_backend.Steering.Decisions.{AgentRole}

pub data FailureMode : Type 0 where
  interrupt proceed : FailureMode

pub record SteeringLimits : Type 0 where
  pub tool_guides_per_call : ℕ
  pub model_guides_per_turn : ℕ
  pub total_guides_per_agent : ℕ

abbrev pub default_limits : SteeringLimits
default_limits = record {
  tool_guides_per_call = 4;
  model_guides_per_turn = 2;
  total_guides_per_agent = 7;
}

-- Sets of tool names are lists, read by `contains` alone.
pub record RolePolicy : Type 0 where
  pub role : AgentRole
  pub policy_version : String
  pub side_effecting : Bool
  pub failure_mode : FailureMode
  pub side_effect_tools : List String
  pub read_tools : List String
  pub search_tools : List String
  pub write_tools : List String
  pub deliver_tools : List String
  pub read_only_tools : List String
  pub required_evidence : List (String × String)
  pub required_text_args : List (String × List String)
  pub judge_enabled : Bool
  pub limits : SteeringLimits

-- `mapping.get(key)`
abbrev pub look_up : {A : Type 0} → String → List (String × A) → Option A
look_up key [] = none
look_up key ((k, v) ∷ rest) = if k == key then some v else look_up key rest

-- `is_side_effect_tool`
unfoldable pub is_side_effect_tool : RolePolicy → String → Bool
is_side_effect_tool p tool = contains (p.side_effect_tools ++ p.deliver_tools) tool

-- `is_read_only_tool`
unfoldable pub is_read_only_tool : RolePolicy → String → Bool
unfolding is_side_effect_tool
is_read_only_tool p tool =
    if is_side_effect_tool p tool
    then false
    else if contains p.read_only_tools tool
    then true
    else contains (p.read_tools ++ p.search_tools) tool

abbrev pub delivery_tools : List String
delivery_tools = "create_comment" ∷ "create_pull_request" ∷ "create_branch" ∷ "create_commit" ∷ []

abbrev pub messaging_tools : List String
messaging_tools = "slack_post_message" ∷ "discord_post_message" ∷ []

abbrev pub repo_read_tools : List String
repo_read_tools =
    "read_file" ∷ "list_directory" ∷ "file_exists" ∷ "code_search" ∷ "git_diff" ∷ "git_log"
    ∷ "git_status" ∷ []

abbrev pub repo_write_tools : List String
repo_write_tools = "write_file" ∷ "update_frontmatter" ∷ []

abbrev pub github_read_only_tools : List String
github_read_only_tools =
    "github_read_file" ∷ "github_get_file" ∷ "github_get_tree" ∷ "github_list_tree"
    ∷ "github_search_code" ∷ []

abbrev pub outbound_read_tools : List String
outbound_read_tools =
    "get_diff" ∷ "get_files" ∷ "get_issue" ∷ "get_pull_request" ∷ "slack_search_messages"
    ∷ "slack_get_thread" ∷ "discord_search_messages" ∷ "discord_get_thread" ∷ []

abbrev pub search_tools : List String
search_tools =
    "semantic_search" ∷ "keyword_search" ∷ "hybrid_search" ∷ "memory_search" ∷ "get_memory"
    ∷ "affected_docs" ∷ []

abbrev pub doc_tools : List String
doc_tools =
    "extract_frontmatter" ∷ "extract_links" ∷ "markdown_to_text" ∷ "split_sections"
    ∷ "validate_links" ∷ "analyze_structure" ∷ "generate_toc" ∷ "find_section" ∷ []

abbrev pub writer_evidence : List (String × String)
writer_evidence =
    ("write_file", "evidence")
    ∷ ("update_frontmatter", "evidence")
    ∷ ("record_doc_relation", "evidence")
    ∷ ("record_procedure", "evidence")
    ∷ []

abbrev pub delivery_text_args : List (String × List String)
delivery_text_args =
    ("create_comment", "body" ∷ [])
    ∷ ("create_pull_request", "title" ∷ "body" ∷ [])
    ∷ ("create_commit", "message" ∷ [])
    ∷ ("create_branch", "branch" ∷ [])
    ∷ ("slack_post_message", "message" ∷ [])
    ∷ ("discord_post_message", "message" ∷ [])
    ∷ []

-- The defaults of the record's fields, and what all roles give alike.
abbrev plain_policy : AgentRole → List String → List String → RolePolicy
plain_policy role reads searches = record {
  role = role;
  policy_version = "v1";
  side_effecting = false;
  failure_mode = FailureMode.proceed;
  side_effect_tools = [];
  read_tools = reads;
  search_tools = searches;
  write_tools = [];
  deliver_tools = [];
  read_only_tools = [];
  required_evidence = [];
  required_text_args = [];
  judge_enabled = false;
  limits = default_limits;
}

-- `_ROLE_POLICIES`, which `policy_for` reads.
unfoldable pub policy_for : AgentRole → RolePolicy
policy_for AgentRole.delivery =
    record (plain_policy AgentRole.delivery (repo_read_tools ++ outbound_read_tools)
      (search_tools ++ doc_tools)) {
        side_effecting = true;
        failure_mode = FailureMode.interrupt;
        side_effect_tools = delivery_tools ++ messaging_tools;
        write_tools = repo_write_tools;
        deliver_tools = delivery_tools ++ messaging_tools;
        required_evidence = writer_evidence;
        required_text_args = delivery_text_args;
      }
policy_for AgentRole.support =
    record (plain_policy AgentRole.support (outbound_read_tools ++ repo_read_tools) search_tools) {
      side_effecting = true;
      failure_mode = FailureMode.interrupt;
      side_effect_tools = messaging_tools;
      deliver_tools = messaging_tools;
      required_evidence =
          ("slack_post_message", "evidence") ∷ ("discord_post_message", "evidence") ∷ [];
      required_text_args = delivery_text_args;
    }
policy_for AgentRole.writer =
    record (plain_policy AgentRole.writer (repo_read_tools ++ outbound_read_tools)
      (search_tools ++ doc_tools)) {
        write_tools = repo_write_tools ++ map (λ (e : String × String). e.0) writer_evidence;
        read_only_tools = github_read_only_tools;
        required_evidence = writer_evidence;
        judge_enabled = true;
      }
policy_for AgentRole.reviewer =
    plain_policy AgentRole.reviewer (repo_read_tools ++ outbound_read_tools)
      (search_tools ++ doc_tools)
policy_for AgentRole.research =
    plain_policy AgentRole.research (repo_read_tools ++ outbound_read_tools)
      (search_tools ++ doc_tools)
policy_for AgentRole.classifier =
    plain_policy AgentRole.classifier outbound_read_tools (search_tools ++ doc_tools)
policy_for AgentRole.recommender =
    record (plain_policy AgentRole.recommender (repo_read_tools ++ outbound_read_tools)
      (search_tools ++ doc_tools)) {
        write_tools = repo_write_tools;
        read_only_tools = github_read_only_tools;
        required_evidence = writer_evidence;
        judge_enabled = true;
      }
policy_for AgentRole.judge = plain_policy AgentRole.judge outbound_read_tools search_tools

-- `AgentRole(role)`
abbrev pub role_of : String → Option AgentRole
role_of s = look_up s (
    ("delivery", AgentRole.delivery)
    ∷ ("research", AgentRole.research)
    ∷ ("writer", AgentRole.writer)
    ∷ ("reviewer", AgentRole.reviewer)
    ∷ ("classifier", AgentRole.classifier)
    ∷ ("recommender", AgentRole.recommender)
    ∷ ("judge", AgentRole.judge)
    ∷ ("support", AgentRole.support)
    ∷ [])

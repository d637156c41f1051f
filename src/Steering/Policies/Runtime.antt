-- ===== src/Steering/Policies/Runtime.antt =====
-- What the checks know of the run (src/draftly/steering/context.py), and the decisions and path tests
-- that src/draftly/steering/policy.py makes of it.
use draftly_agent_backend.Prelude.{
  String, append_str, is_empty, starts_with, rstrip_char, has_char, Bool, true, false, ◌&&◌, not,
  Option, none, some, ◌==◌, string_eq, if◌then◌else◌,
}
use draftly_agent_backend.Steering.Decisions.{
  AgentRole, SteeringPhase, SteeringDecision, Raises, to_guide, to_interrupt,
}
use draftly_agent_backend.Steering.Policies.{SteeringLimits}

pub record AgentIdentity : Type 0 where
  pub run_id : String
  pub agent_id : String
  pub node_id : String
  pub role : AgentRole

pub record RuntimeScope : Type 0 where
  pub run_id : String
  pub surface : String
  pub org_id : String
  pub project_id : String
  pub workflow_key : Option String
  pub repo_checkout_root : Option String

-- `attempts` holds the limits of the sink of attempts, where the runtime has one.
pub record SteeringRuntime : Type 0 where
  pub scope : RuntimeScope
  pub identity : Option AgentIdentity
  pub attempts : Option SteeringLimits

-- A rule and the reason that it failed.
abbrev pub Failure : Type 0
Failure = String × String

abbrev pub role_in : SteeringRuntime → Option AgentRole
role_in runtime = elim runtime.identity [ none ↦ none | some identity ↦ some identity.role ]

-- `_guide`
abbrev pub guide_for : SteeringRuntime → Failure → SteeringDecision
guide_for runtime (rule, reason) = to_guide SteeringPhase.before_tool reason (role_in runtime) rule

-- `_interrupt`
abbrev pub interrupt_for : SteeringRuntime → Failure → Raises SteeringDecision
interrupt_for runtime (rule, reason) =
    to_interrupt SteeringPhase.before_tool reason (role_in runtime) rule

-- `_looks_like_repo`
unfoldable pub looks_like_repo : String → Bool
unfolding has_char starts_with
looks_like_repo s = has_char "/" s && not (starts_with s "#")

-- `str(PurePosixPath(*PureWindowsPath(path).parts))` is the standard library's.
module _ (posix_path : String → String) where
  -- `_normalize`
  abbrev normalize : String → String
  normalize path =
      let path' = rstrip_char "/" (posix_path path) in if is_empty path' then "/" else path'

  -- `_path_within`
  unfoldable pub path_within : String → String → Bool
  unfolding starts_with rstrip_char
  path_within root path =
      let root' = rstrip_char "/" (normalize root) in
      let path' = rstrip_char "/" (normalize path) in
      if is_empty path'
      then false
      else if path' == root'
      then true
      else starts_with path' (append_str root' "/")

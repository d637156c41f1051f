-- ===== src/Routing.antt =====
-- The routing of the agent graphs: what an edge condition reads of the graph's state
-- (src/draftly/orchestration/routing/conditions.py).
pub mod Conditions
pub mod Documents
pub mod Delivery
mod Scenarios
use draftly_agent_backend.Prelude.{
  String, Option, none, some, Bool, true, false, List, [], ◌∷◌, ◌==◌, string_eq, if◌then◌else◌,
  Json, Fields,
}

-- What a condition may raise: a missing key, an attribute of another type, a value that is no
-- sequence, and a task that is no JSON.
pub data Fault : Type 0 where
  key_error attribute_error type_error decode_error : Fault

pub data Checked {ℓ} (A : Type ℓ) : Type ℓ where
  holds : A → Checked A
  faults : Fault → Checked A

abbrev pub then_check : {A B : Type 0} → Checked A → (A → Checked B) → Checked B
then_check (faults e) f = faults e
then_check (holds a) f = f a

-- `first and second`, where the second is evaluated only if the first is true.
abbrev pub and_also : Bool → Checked Bool → Checked Bool
and_also true second = second
and_also false second = holds false

-- `first or second`, where the second is evaluated only if the first is not true.
abbrev pub or_else_check : Bool → Checked Bool → Checked Bool
or_else_check true second = holds true
or_else_check false second = second

-- The result of a node: whether it completed, what `safe_node_data` reads of it, and the verdict of
-- its structured output, if it has one.
pub record NodeResult : Type 0 where
  pub is_completed : Bool
  pub payload : Option Fields
  pub structured_verdict : Option String

pub record GraphState : Type 0 where
  pub task : Option String
  pub results : List (String × NodeResult)

-- `state.results.get(node_id)`
abbrev pub find_result : String → List (String × NodeResult) → Option NodeResult
find_result id [] = none
find_result id ((k, r) ∷ rest) = if k == id then some r else find_result id rest

abbrev pub is_there : Option NodeResult → Bool
is_there none = false
is_there (some r) = true

-- `node_id in state.results`
abbrev pub has_result : GraphState → String → Bool
has_result state id = is_there (find_result id state.results)

abbrev pub payload_of : Option NodeResult → Option Fields
payload_of none = none
payload_of (some r) = r.payload

-- `safe_node_data`
abbrev pub node_data : GraphState → String → Option Fields
node_data state id = payload_of (find_result id state.results)

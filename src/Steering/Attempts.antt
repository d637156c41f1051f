-- ===== src/Steering/Attempts.antt =====
-- `SteeringAttemptsRepository`: counters of guides, in the table `steering_attempts`.
use draftly_agent_backend.Prelude.{
  ℕ, ◌+◌, String, Option, none, some, Bool, true, false, ◌&&◌, List, [], ◌∷◌, ◌++◌, find_row,
  update_where, ◌==◌, nat_eq, string_eq, ltb, if◌then◌else◌,
}

-- `AttemptKey`, the primary key of a counter.
pub record AttemptKey : Type 0 where
  pub run_id : String
  pub agent_id : String
  pub node_id : String
  pub phase : String
  pub tool_name : String
  pub model_turn : ℕ

-- A row of `steering_attempts`.
pub record Attempt : Type 0 where
  pub key : AttemptKey
  pub guide_count : ℕ

abbrev pub same_key : AttemptKey → AttemptKey → Bool
same_key j k =
    j.run_id == k.run_id
    && j.agent_id == k.agent_id
    && j.node_id == k.node_id
    && j.phase == k.phase
    && j.tool_name == k.tool_name
    && j.model_turn == k.model_turn

abbrev pub at_key : AttemptKey → Attempt → Bool
at_key k a = same_key a.key k

abbrev pub count_up : Attempt → Attempt
count_up a = record a { guide_count = a.guide_count + 1 }

abbrev pub upsert : AttemptKey → ℕ → List Attempt → Option Attempt → Bool × List Attempt
upsert key limit rows none = (true, rows ++ record { key = key; guide_count = 1 } ∷ [])
upsert key limit rows (some a) =
    if ltb a.guide_count limit
    then (true, update_where (at_key key) count_up rows)
    else (false, rows)

-- `reserve`: one upsert, whose condition guards the conflict branch alone.
unfoldable pub reserve : AttemptKey → ℕ → List Attempt → Bool × List Attempt
unfolding find_row update_where
reserve key limit rows = upsert key limit rows (find_row (at_key key) rows)

abbrev pub or_back : List Attempt → Bool × List Attempt → Bool × List Attempt
or_back before (true, after) = (true, after)
or_back before (false, after) = (false, before)

abbrev pub and_then :
    Bool × List Attempt → (List Attempt → Bool × List Attempt) → Bool × List Attempt
and_then (true, after) next = next after
and_then (false, after) next = (false, after)

-- `reserve_with_total`: both counters in one transaction, rolled back when either is denied.
unfoldable pub reserve_with_total :
    AttemptKey → ℕ → AttemptKey → ℕ → List Attempt → Bool × List Attempt
unfolding reserve
reserve_with_total key limit total_key total_limit rows =
    or_back rows (and_then (reserve key limit rows) (reserve total_key total_limit))

-- ===== src/Steering/Interventions.antt =====
-- `SteeringInterventionsRepository`: the inbox of human interventions, in the table
-- `workflow_interventions`.
use draftly_agent_backend.Prelude.{
  ℕ, String, Option, none, some, Bool, false, ◌&&◌, not, List, [], ◌∷◌, ◌++◌, keep, any, find_row,
  update_where, returned_row, count_where, sort_by, ◌==◌, string_eq, option_eq, ltb, if◌then◌else◌,
  Fields,
}

-- `InterventionRecord`, a row of the table; `updated_at`, which nothing reads, is left out.
pub record Intervention : Type 0 where
  pub id : String
  pub run_id : String
  pub interrupt_id : String
  pub org_id : String
  pub surface : String
  pub workflow_key : Option String
  pub agent_id : String
  pub node_id : String
  pub tool_name : String
  pub status : String
  pub reason : Fields
  pub response_message : Option String
  pub metadata : Fields
  pub idempotency_key : Option String
  pub resolver_id : Option String
  pub created_at : ℕ
  pub resolved_at : Option ℕ
  pub expires_at : Option ℕ

-- The exceptions of the methods, and the database's own when a key is taken.
pub data Refusal : Type 0 where
  conflict : String → Refusal
  not_found : Refusal
  invalid_action : String → Refusal
  key_taken : Refusal

pub data Answer {ℓ} (A : Type ℓ) : Type ℓ where
  got : A → Answer A
  refused : Refusal → Answer A

-- `_ACTION_STATUS`
unfoldable pub action_status : String → Option String
action_status action =
    if action == "approve"
    then some "approved"
    else if action == "approve_and_review"
    then some "approved"
    else if action == "deny"
    then some "denied"
    else if action == "denied"
    then some "denied"
    else if action == "guide"
    then some "guided"
    else if action == "cancel"
    then some "cancelled"
    else none

abbrev pub is_pending : Intervention → Bool
is_pending r = r.status == "pending"

abbrev pub at_interrupt : String → String → String → Intervention → Bool
at_interrupt run interrupt org r = r.run_id == run && r.interrupt_id == interrupt && r.org_id == org

-- `UNIQUE (org_id, idempotency_key)`, which null keys do not violate.
abbrev pub has_key : String → Option String → Intervention → Bool
has_key org none r = false
has_key org (some key) r = r.org_id == org && r.idempotency_key == some key

abbrev pub stored_or_other :
    Intervention
    → List Intervention
    → Option Intervention
    → Option Intervention
    → Answer Intervention × List Intervention
stored_or_other record_ rows (some same) (some existing) = (got existing, rows)
stored_or_other record_ rows (some same) none = (refused not_found, rows)
stored_or_other record_ rows none existing =
    if any (has_key record_.org_id record_.idempotency_key) rows
    then (refused key_taken, rows)
    else (got record_, rows ++ record_ ∷ [])

-- The row that `create_pending` inserts for a record; the database gives the id and the time.
abbrev pub as_pending : String → ℕ → Intervention → Intervention
as_pending id now r = record r {
  id = id;
  status = "pending";
  resolver_id = none;
  created_at = now;
  resolved_at = none;
}

-- `create_pending`
unfoldable pub create_pending :
    String → ℕ → Intervention → List Intervention → Answer Intervention × List Intervention
unfolding find_row
create_pending id now r rows =
    stored_or_other (as_pending id now r) rows
      (find_row (λ (x : Intervention). x.run_id == r.run_id && x.interrupt_id == r.interrupt_id)
        rows)
      (find_row (at_interrupt r.run_id r.interrupt_id r.org_id) rows)

-- The resolved row for an idempotency key.
abbrev pub is_replay : String → String → Intervention → Bool
is_replay org key r = has_key org (some key) r && not (is_pending r)

abbrev pub is_claimable : String → String → String → Intervention → Bool
is_claimable run interrupt org r = at_interrupt run interrupt org r && is_pending r

abbrev pub coalesce_key : Option String → String → Option String
coalesce_key none key = some key
coalesce_key (some old) key = some old

abbrev pub claim : String → String → Option String → String → ℕ → Intervention → Intervention
claim status action message key now r = record r {
  status = status;
  resolver_id = some action;
  response_message = message;
  idempotency_key = coalesce_key r.idempotency_key key;
  resolved_at = some now;
}

abbrev pub replayed : String → Option String → Intervention → Answer Intervention
replayed action message r =
    if r.resolver_id == some action && r.response_message == message
    then got r
    else refused (conflict r.id)

-- Whether a claim would give a row without a key one that another row has.
abbrev pub clashes : String → String → Intervention → List Intervention → Bool
clashes org key r rows = elim r.idempotency_key [
  | none ↦ any (has_key org (some key)) rows
  | some _ ↦ false
]

-- The part of `claim_response` after the replay was looked for.
abbrev pub claim_pending :
    String
    → String
    → String
    → String
    → String
    → Option String
    → String
    → ℕ
    → List Intervention
    → Option Intervention
    → Answer Intervention × List Intervention
claim_pending run interrupt org key action message status now rows none = (refused not_found, rows)
claim_pending run interrupt org key action message status now rows (some r) =
    if clashes org key r rows then (refused key_taken, rows) else (
      got (claim status action message key now r),
      update_where (is_claimable run interrupt org) (claim status action message key now) rows,
    )

abbrev pub claim_or_replay :
    String
    → String
    → String
    → String
    → String
    → Option String
    → String
    → ℕ
    → List Intervention
    → Option Intervention
    → Answer Intervention × List Intervention
claim_or_replay run interrupt org key action message status now rows (some r) =
    (replayed action message r, rows)
claim_or_replay run interrupt org key action message status now rows none =
    claim_pending run interrupt org key action message status now rows
      (find_row (is_claimable run interrupt org) rows)

abbrev pub with_status :
    String
    → String
    → String
    → String
    → String
    → Option String
    → ℕ
    → List Intervention
    → Option String
    → Answer Intervention × List Intervention
with_status run interrupt org key action message now rows none =
    (refused (invalid_action action), rows)
with_status run interrupt org key action message now rows (some status) =
    claim_or_replay run interrupt org key action message status now rows
      (find_row (is_replay org key) rows)

-- `claim_response`
unfoldable pub claim_response :
    String
    → String
    → String
    → String
    → String
    → Option String
    → ℕ
    → List Intervention
    → Answer Intervention × List Intervention
unfolding action_status find_row update_where
claim_response run interrupt org key action message now rows =
    with_status run interrupt org key action message now rows (action_status action)

abbrev pub or_old : Option String → Option String → Option String
or_old none old = old
or_old (some new) old = some new

abbrev pub settle : String → Option String → ℕ → Intervention → Intervention
settle status resolver now r = record r {
  status = status;
  resolver_id = or_old resolver r.resolver_id;
  resolved_at = some now;
}

abbrev pub or_not_found : Option Intervention → Answer Intervention
or_not_found none = refused not_found
or_not_found (some r) = got r

-- `resolve`, with a status that the table admits.
unfoldable pub resolve :
    String
    → String
    → Option String
    → ℕ
    → List Intervention
    → Answer Intervention × List Intervention
unfolding update_where returned_row
resolve id status resolver now rows =
    let test = λ (r : Intervention). r.id == id && is_pending r in
    (
      or_not_found (returned_row test (settle status resolver now) rows),
      update_where test (settle status resolver now) rows,
    )

-- `get_pending`
unfoldable pub get_pending : String → String → String → List Intervention → Option Intervention
unfolding find_row
get_pending run interrupt org rows = find_row (is_claimable run interrupt org) rows

-- `list_pending_for_run`
unfoldable pub list_pending_for_run : String → String → List Intervention → List Intervention
list_pending_for_run run org rows =
    sort_by (λ (q r : Intervention). not (ltb r.created_at q.created_at))
      (keep (λ (r : Intervention). r.run_id == run && r.org_id == org && is_pending r) rows)

-- `count_pending_for_org`
unfoldable pub count_pending_for_org : String → List Intervention → ℕ
unfolding count_where
count_pending_for_org org rows =
    count_where (λ (r : Intervention). r.org_id == org && is_pending r) rows

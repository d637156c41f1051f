-- ===== src/Routing/Documents.antt =====
-- The conditions on the documentation's page workflow, and those that gate the delivery.
use draftly_agent_backend.Prelude.{
  String, is_empty, Option, none, some, Bool, true, false, ◌&&◌, ◌||◌, not, List, [], ◌∷◌, all,
  contains, ◌==◌, string_eq, if◌then◌else◌, Json, bool, str, array, object, Items, nil, cons,
  Fields, end, get_field, is_given, text_or,
}
use draftly_agent_backend.Routing.{
  type_error, Checked, holds, faults, then_check, and_also, or_else_check, GraphState, has_result,
  node_data,
}
use draftly_agent_backend.Routing.Conditions.{changelog_eval_passed}

-- `payload.get("result") if isinstance(payload.get("result"), dict) else payload`
abbrev pub result_of : Fields → Fields
result_of payload = elim (get_field "result" payload) [
  | none ↦ payload
  | some v ↦ elim v [ object fields ↦ fields | _ ↦ payload ]
]

abbrev pub pair_of : Option Fields → Fields × Fields
pair_of none = (end, end)
pair_of (some payload) = (payload, result_of payload)

-- `_documentation_pair`
unfoldable pub documentation_pair : GraphState → Fields × Fields
documentation_pair state = pair_of (node_data state "document")

-- `for item in value or []`: the items of a list; the keys of a mapping and the characters of a text
-- are no mappings, which both loops skip; any other value that is true cannot be iterated.
abbrev pub rows_of : Option Json → Checked Items
rows_of (some (array xs)) = holds xs
rows_of (some (object fields)) = holds nil
rows_of (some (str s)) = holds nil
rows_of v = if is_given v then faults type_error else holds nil

-- `value is True` and `value is False`
abbrev pub is_bool : Bool → Option Json → Bool
is_bool b (some (bool c)) = if b then c else not c
is_bool b _ = false

abbrev pub is_clean : Fields → Bool
is_clean result =
    is_bool true (get_field "passed" result)
    && not (
        is_given (get_field "escalated_page_ids" result)
        || is_given (get_field "failed_page_ids" result))

abbrev pub is_escalated : Fields → Bool
is_escalated result =
    is_bool false (get_field "passed" result)
    && (is_given (get_field "ready_for_review" result)
        && (is_given (get_field "escalated_page_ids" result)
            && not (is_given (get_field "failed_page_ids" result))))

-- `documentation_escalated`
unfoldable pub documentation_escalated : GraphState → Bool
documentation_escalated state = elim (node_data state "document") [
  | none ↦ false
  | some fields ↦ is_escalated (result_of fields)
]

module _ (repr : Json → String) where
  abbrev text_at : String → Fields → String
  text_at key item = text_or repr (get_field key item) ""

  -- Whether a row plans to write its page.
  abbrev pub plans_write : Fields → Bool
  plans_write item =
      let action = text_at "action" item in
      not (is_empty (text_at "path" item))
      && (is_empty action || (action == "create" || action == "update"))

  abbrev pub planned_rows : Items → List String
  planned_rows nil = []
  planned_rows (cons v rest) =
      let more = planned_rows rest in
      elim v [
        | object item ↦ if plans_write item then text_at "path" item ∷ more else more
        | _ ↦ more
      ]

  -- `_planned_page_paths`
  unfoldable pub planned_page_paths : Fields → Checked (List String)
  unfolding text_or
  planned_page_paths payload =
      then_check (rows_of (get_field "files" payload)) (λ rows. holds (planned_rows rows))

  abbrev pub sealed_rows : Items → List String
  sealed_rows nil = []
  sealed_rows (cons v rest) =
      let more = sealed_rows rest in
      elim v [
        | object item ↦ if is_empty (text_at "path" item) then more else text_at "path" item ∷ more
        | _ ↦ more
      ]

  -- `_sealed_page_paths`
  unfoldable pub sealed_page_paths : Fields → Checked (List String)
  unfolding text_or
  sealed_page_paths payload =
      then_check (rows_of (get_field "sealed_pages" payload)) (λ rows. holds (sealed_rows rows))

  abbrev pub all_sealed : Fields → Checked Bool
  all_sealed payload = then_check (sealed_page_paths payload) (λ sealed.
      then_check (planned_page_paths payload) (λ planned. holds (all (contains sealed) planned)))

  -- `documentation_passed`
  unfoldable pub documentation_passed : GraphState → Checked Bool
  unfolding documentation_pair planned_page_paths sealed_page_paths
  documentation_passed state =
      let (payload, result) = documentation_pair state in
      and_also (is_clean result) (all_sealed payload)

  -- `delivery_content_ready`
  unfoldable pub delivery_content_ready : GraphState → Checked Bool
  unfolding changelog_eval_passed documentation_passed
  delivery_content_ready state = then_check (changelog_eval_passed state) (λ passed.
      and_also passed
        (if has_result state "document" then documentation_passed state else holds true))

  -- `documentation_delivery_ready`
  unfoldable pub documentation_delivery_ready : GraphState → Checked Bool
  unfolding documentation_escalated delivery_content_ready
  documentation_delivery_ready state =
      or_else_check (documentation_escalated state) (delivery_content_ready state)

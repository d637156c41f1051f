-- ===== src/Routing/Delivery.antt =====
-- What has to hold of the documentation before its pages reach the delivery.
use draftly_agent_backend.Prelude.{
  String, Option, none, some, Bool, true, false, ◌≡◌, refl, ap, ◌∙◌, inl, inr, ◌⊎◌, List, all,
  contains, string_eq, arith, Option-cases, Json, null, bool, int, number, str, array, object,
  Fields, get_field, is_given,
}
use draftly_agent_backend.Routing.{
  Checked, holds, faults, then_check, and_also, or_else_check, GraphState, find_result, has_result,
  node_data,
}
use draftly_agent_backend.Routing.Conditions.{changelog_eval_passed}
use draftly_agent_backend.Routing.Documents.{
  result_of, documentation_pair, planned_page_paths, sealed_page_paths, is_bool, is_clean,
  all_sealed, documentation_passed, is_escalated, documentation_escalated, delivery_content_ready,
  documentation_delivery_ready,
}

-- A check that holds after another: both did.
then_holds :
    {A : Type 0} (first : Checked A) (next : A → Checked Bool)
    → then_check first next ≡ holds true
    → (a : A) × (first ≡ holds a) × (next a ≡ holds true)
then_holds (holds a) next h = (a, refl, h)
then_holds (faults e) next h = absurd (ground arith)

and_holds :
    (first : Bool) (second : Checked Bool)
    → and_also first second ≡ holds true
    → (first ≡ true) × (second ≡ holds true)
and_holds true second h = (refl, h)
and_holds false second h = absurd (ground arith)

or_holds :
    (first : Bool) (second : Checked Bool)
    → or_else_check first second ≡ holds true
    → (first ≡ true) ⊎ (second ≡ holds true)
or_holds true second h = inl refl
or_holds false second h = inr h

holds_true : (b : Bool) → holds b ≡ holds true → b ≡ true
holds_true b h = ground arith

-- The value that a test of a truth value has found.
is_bool_lem : (b : Bool) (v : Option Json) → is_bool b v ≡ true → v ≡ some (bool b)
is_bool_lem true (some (bool true)) h = refl
is_bool_lem false (some (bool false)) h = refl
is_bool_lem true (some (bool false)) h = absurd (ground arith)
is_bool_lem false (some (bool true)) h = absurd (ground arith)
is_bool_lem b none h = absurd (ground arith)
is_bool_lem b (some null) h = absurd (ground arith)
is_bool_lem b (some (int n)) h = absurd (ground arith)
is_bool_lem b (some (number s)) h = absurd (ground arith)
is_bool_lem b (some (str s)) h = absurd (ground arith)
is_bool_lem b (some (array xs)) h = absurd (ground arith)
is_bool_lem b (some (object fields)) h = absurd (ground arith)

-- A node with data has a result.
data_there :
    (state : GraphState) (id : String) (fields : Fields)
    → node_data state id ≡ some fields
    → has_result state id ≡ true
data_there state id fields h = elim (Option-cases (find_result id state.results)) [
  | inl e ↦ absurd (ground (arith, rw e at h))
  | inr (r, e) ↦ rw e refl
]

-- The documentation is escalated to human review: it did not pass, and no page failed.
pub record IsEscalated (result : Fields) : Type 0 where
  pub not_passed : get_field "passed" result ≡ some (bool false)
  pub some_escalated : is_given (get_field "escalated_page_ids" result) ≡ true
  pub none_failed : is_given (get_field "failed_page_ids" result) ≡ false

-- The documentation passed: no page is escalated or failed, and every planned page is sealed.
pub record IsPassed (repr : Json → String) (payload : Fields) : Type 0 where
  pub passed : get_field "passed" (result_of payload) ≡ some (bool true)
  pub none_escalated : is_given (get_field "escalated_page_ids" (result_of payload)) ≡ false
  pub none_failed : is_given (get_field "failed_page_ids" (result_of payload)) ≡ false
  pub sealed : List String
  pub planned : List String
  pub are_sealed : sealed_page_paths repr payload ≡ holds sealed
  pub are_planned : planned_page_paths repr payload ≡ holds planned
  pub all_pages : all (contains sealed) planned ≡ true

module _ (repr : Json → String) (state : GraphState) (payload : Fields)
    (there : node_data state "document" ≡ some payload) where
  documentation_escalated-IsEscalated :
      documentation_escalated state ≡ true → IsEscalated (result_of payload)
  unfolding documentation_escalated
  documentation_escalated-IsEscalated h =
      let result = result_of payload in
      let test : is_escalated result ≡ true = rw (documentation_escalated, there) at h in
      record {
        not_passed = is_bool_lem false (get_field "passed" result) (ground arith);
        some_escalated = ground arith;
        none_failed = ground arith;
      }

  documentation_passed-IsPassed :
      documentation_passed repr state ≡ holds true → IsPassed repr payload
  unfolding documentation_passed documentation_pair
  documentation_passed-IsPassed h =
      let result = result_of payload in
      let (clean, sealed_all) =
        and_holds (is_clean result) (all_sealed repr payload) (rw there at h) in
      let (sealed, is_sealed, rest) = then_holds (sealed_page_paths repr payload) _ sealed_all in
      let (planned, is_planned, covered) = then_holds (planned_page_paths repr payload) _ rest in
      record {
        passed = is_bool_lem true (get_field "passed" result) (ground (arith, clean));
        none_escalated = ground (arith, clean);
        none_failed = ground (arith, clean);
        sealed = sealed;
        planned = planned;
        are_sealed = is_sealed;
        are_planned = is_planned;
        all_pages = holds_true (all (contains sealed) planned) covered;
      }

  -- When the documentation is ready for the delivery and its node has data, then it is escalated to
  -- human review with no failed page, or its changelog passed, it has no escalated or failed page, and
  -- each page that it planned to write is sealed.
  pub delivery_sealed :
      documentation_delivery_ready repr state ≡ holds true
      → IsEscalated (result_of payload)
        ⊎ ((changelog_eval_passed state ≡ holds true) × IsPassed repr payload)
  unfolding documentation_delivery_ready delivery_content_ready
  delivery_sealed h =
      elim (or_holds (documentation_escalated state) (delivery_content_ready repr state) h) [
        | inl escalated ↦ inl (documentation_escalated-IsEscalated escalated)
        | inr ready ↦
            let (changelog, is_changelog, rest) =
              then_holds (changelog_eval_passed state) _ ready in
            let (passed, docs) = and_holds changelog _ rest in
            inr (
              is_changelog ∙ ap holds passed,
              documentation_passed-IsPassed
                  (rw (data_there state "document" payload there) at docs),
            )
      ]

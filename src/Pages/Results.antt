-- ===== src/Pages/Results.antt =====
-- The reports on the pages of a run: `DocumentationWorkflowResult.from_pages` of
-- orchestration/page_workflow/models.py and `_result_from_states` of node.py.
pub mod Listing
use draftly_agent_backend.Prelude.{
  ℕ, ◌+◌, String, Bool, true, false, ◌&&◌, ◌||◌, not, Option, none, some, ◌≡◌, refl, List, [], ◌∷◌,
  arith, map, keep, all, length, length-map, All, ap, ◌∙◌, ◌==◌, nat_eq,
}
use draftly_agent_backend.Pages.Evaluations.{projected_status}
use draftly_agent_backend.Pages.Rows.{
  PageState, EvaluationStatus, PageEvaluationResult, is_awaiting, is_passed,
}

pub record DocumentationWorkflowResult : Type 0 where
  pub passed : Bool
  pub ready_for_review : Bool
  pub page_count : ℕ
  pub passed_page_ids : List String
  pub failed_page_ids : List String
  pub escalated_page_ids : List String

-- `bool(xs)`
abbrev pub is_nonempty {ℓ} : {A : Type ℓ} → List A → Bool
is_nonempty [] = false
is_nonempty (_ ∷ _) = true

abbrev pub passes : EvaluationStatus → Bool
passes EvaluationStatus.passed = true
passes _ = false

abbrev pub escalates : EvaluationStatus → Bool
escalates EvaluationStatus.awaiting_human_review = true
escalates _ = false

abbrev pub evaluation_passed : PageEvaluationResult → Bool
evaluation_passed e = passes e.status

abbrev pub evaluation_escalated : PageEvaluationResult → Bool
evaluation_escalated e = escalates e.status

-- `[evaluation for evaluation in evaluations if evaluation is not None]`
abbrev pub present {ℓ} : {A : Type ℓ} → List (Option A) → List A
present [] = []
present (none ∷ xs) = present xs
present (some x ∷ xs) = x ∷ present xs

abbrev pub evaluation_page : PageEvaluationResult → String
evaluation_page e = e.page_id

-- `DocumentationWorkflowResult.from_pages`
unfoldable pub from_pages : List (Option PageEvaluationResult) → DocumentationWorkflowResult
from_pages evaluations =
    let pages = present evaluations in
    let passed_ids = map evaluation_page (keep evaluation_passed pages) in
    let escalated_ids = map evaluation_page (keep evaluation_escalated pages) in
    let failed_ids =
      map evaluation_page (keep (λ e. not (evaluation_passed e || evaluation_escalated e)) pages) in
    record {
      passed = is_nonempty pages && length passed_ids == length pages;
      ready_for_review =
          is_nonempty pages && all (λ e. evaluation_passed e || evaluation_escalated e) pages;
      page_count = length pages;
      passed_page_ids = passed_ids;
      failed_page_ids = failed_ids;
      escalated_page_ids = escalated_ids;
    }

abbrev pub page_passed : PageState → Bool
page_passed s = is_passed s.status

abbrev pub page_escalated : PageState → Bool
page_escalated s = is_awaiting s.status

abbrev pub state_page : PageState → String
state_page s = s.page_id

-- `_result_from_states`
unfoldable pub result_from_states : List PageState → DocumentationWorkflowResult
result_from_states states =
    let passed_ids = map state_page (keep page_passed states) in
    let escalated_ids = map state_page (keep page_escalated states) in
    let failed_ids = map state_page (keep (λ s. not (page_passed s || page_escalated s)) states) in
    record {
      passed = is_nonempty states && length passed_ids == length states;
      ready_for_review =
          is_nonempty states && length passed_ids + length escalated_ids == length states;
      page_count = length states;
      passed_page_ids = passed_ids;
      failed_page_ids = failed_ids;
      escalated_page_ids = escalated_ids;
    }

-- Three tests of which exactly one holds split a list in three.
module _ {ℓ} {A : Type ℓ} (good held : A → Bool)
    (apart : (x : A) → (good x && held x) ≡ false) where
  keep-thirds :
      (xs : List A)
      → length (keep good xs)
          + length (keep held xs)
          + length (keep (λ x. not (good x || held x)) xs)
        ≡ length xs
  keep-thirds [] = refl
  keep-thirds (x ∷ xs) = ground (arith, apart x, keep-thirds xs)

  keep_none :
      (xs : List A)
      → (length (keep (λ x. not (good x || held x)) xs) == 0) ≡ all (λ x. good x || held x) xs
  keep_none [] = refl
  keep_none (x ∷ xs) = ground (arith, keep_none xs)

page_apart : (s : PageState) → (page_passed s && page_escalated s) ≡ false
page_apart s = ground arith

-- The report on the pages' states: the three lists count every page once; a run passed exactly if it has a page, and none is escalated or failed; it is ready for review exactly
-- if it has a page, and none failed.
pub totals_lem :
    (states : List PageState)
    → let r = result_from_states states in
      (length r.passed_page_ids + length r.escalated_page_ids + length r.failed_page_ids
        ≡ r.page_count)
      × (r.passed ≡ (
          is_nonempty states
          && (length r.escalated_page_ids == 0 && length r.failed_page_ids == 0)))
      × (r.ready_for_review ≡ (is_nonempty states && length r.failed_page_ids == 0))
unfolding result_from_states
totals_lem states =
    let thirds = keep-thirds page_passed page_escalated page_apart states in
    ground (
      arith,
      thirds,
      length-map state_page (keep page_passed states),
      length-map state_page (keep page_escalated states),
      length-map state_page (keep (λ s. not (page_passed s || page_escalated s)) states),
    )

abbrev pub page_part : PageState × PageEvaluationResult → PageState
page_part (p, e) = p

abbrev pub evaluation_part : PageState × PageEvaluationResult → Option PageEvaluationResult
evaluation_part (p, e) = some e

-- A page's state after it was projected from an evaluation of the page.
abbrev pub Matches : PageState × PageEvaluationResult → Type 0
Matches (p, e) = (p.page_id ≡ e.page_id) × (p.status ≡ projected_status e.status)

module _ (on_page : PageState → Bool) (on_evaluation : PageEvaluationResult → Bool)
    (agree : (p : PageState) (e : PageEvaluationResult)
      → p.status ≡ projected_status e.status
      → on_page p ≡ on_evaluation e) where
  same_ids :
      (pairs : List (PageState × PageEvaluationResult))
      → All Matches pairs
      → map state_page (keep on_page (map page_part pairs))
        ≡ map evaluation_page (keep on_evaluation (present (map evaluation_part pairs)))
  same_ids [] h = refl
  same_ids ((p, e) ∷ pairs) ((same_id, same_status), h) =
      ground (arith, agree p e same_status, same_ids pairs h)

agree_passed :
    (p : PageState) (e : PageEvaluationResult)
    → p.status ≡ projected_status e.status
    → page_passed p ≡ evaluation_passed e
agree_passed p e h =
    elim (e.status) as (λ s. p.status ≡ projected_status s → page_passed p ≡ passes s) [
      | EvaluationStatus.passed ↦ λ h. ap is_passed h
      | EvaluationStatus.revision_required ↦ λ h. ap is_passed h
      | EvaluationStatus.awaiting_human_review ↦ λ h. ap is_passed h
    ]
      h

agree_escalated :
    (p : PageState) (e : PageEvaluationResult)
    → p.status ≡ projected_status e.status
    → page_escalated p ≡ evaluation_escalated e
agree_escalated p e h =
    elim (e.status) as (λ s. p.status ≡ projected_status s → page_escalated p ≡ escalates s) [
      | EvaluationStatus.passed ↦ λ h. ap is_awaiting h
      | EvaluationStatus.revision_required ↦ λ h. ap is_awaiting h
      | EvaluationStatus.awaiting_human_review ↦ λ h. ap is_awaiting h
    ]
      h

totals :
    (pairs : List (PageState × PageEvaluationResult))
    → All Matches pairs
    → (length (map page_part pairs) ≡ length (present (map evaluation_part pairs)))
      × (is_nonempty (map page_part pairs) ≡ is_nonempty (present (map evaluation_part pairs)))
      × (all (λ s. page_passed s || page_escalated s) (map page_part pairs)
          ≡ all
              (λ e. evaluation_passed e || evaluation_escalated e)
              (present (map evaluation_part pairs)))
totals [] h = (refl, refl, refl)
totals ((p, e) ∷ pairs) ((_, t), h) =
    let (sizes, _, settled) = totals pairs h in
    (omega (arith, sizes), refl, ground (arith, settled, agree_passed p e t, agree_escalated p e t))

-- Pages whose states were projected from their evaluations are reported alike from either.
pub result_from_states-from_pages :
    (pairs : List (PageState × PageEvaluationResult))
    → All Matches pairs
    → result_from_states (map page_part pairs) ≡ from_pages (map evaluation_part pairs)
unfolding result_from_states from_pages
result_from_states-from_pages pairs h =
    let states = map page_part pairs in
    let pages = present (map evaluation_part pairs) in
    let (size, some_page, settled) = totals pairs h in
    let passed_ids = same_ids page_passed evaluation_passed agree_passed pairs h in
    let escalated_ids = same_ids page_escalated evaluation_escalated agree_escalated pairs h in
    let failed_ids =
      same_ids (λ s. not (page_passed s || page_escalated s))
        (λ e. not (evaluation_passed e || evaluation_escalated e))
        (λ p e t. ground (arith, agree_passed p e t, agree_escalated p e t)) pairs h in
    let is_ready =
      (totals_lem states).2
      ∙ ap (λ n. is_nonempty states && n == 0)
          (length-map state_page (keep (λ s. not (page_passed s || page_escalated s)) states))
      ∙ ap (λ b. is_nonempty states && b)
          (keep_none page_passed page_escalated page_apart states) in
    rw (is_ready, settled, passed_ids, escalated_ids, failed_ids, size, some_page) refl

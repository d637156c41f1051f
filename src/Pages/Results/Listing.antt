-- ===== src/Pages/Results/Listing.antt =====
-- In which list of a report a page stands.
use draftly_agent_backend.Prelude.{
  ◌+◌, String, Bool, false, ◌&&◌, ◌||◌, not, ◌≡◌, refl, List, [], ◌∷◌, arith, map, keep, length,
  All, All-map, All-both, contains, has_duplicate, ◌==◌, nat_eq, string_eq, eq_comm, ==_self,
}
use draftly_agent_backend.Pages.Rows.{PageState, is_awaiting, is_passed}
use draftly_agent_backend.Pages.Results.{
  DocumentationWorkflowResult, is_nonempty, state_page, page_passed, page_escalated,
  result_from_states, totals_lem,
}

-- An id that is not listed is the id of no page.
pub others :
    (id : String) (states : List PageState)
    → contains (map state_page states) id ≡ false
    → All (λ (s : PageState). (s.page_id == id) ≡ false) states
others id [] h = tt
others id (s ∷ states) h =
    (ground (arith, h, eq_comm id s.page_id), others id states (ground (arith, h)))

module _ (test : PageState → Bool) where
  unlisted :
      (id : String) (states : List PageState)
      → contains (map state_page states) id ≡ false
      → contains (map state_page (keep test states)) id ≡ false
  unlisted id [] h = refl
  unlisted id (s ∷ states) h = ground (arith, h, unlisted id states)

  -- The ids of the states that pass a test, where no id is there twice.
  listed :
      (states : List PageState)
      → has_duplicate (map state_page states) ≡ false
      → All
          (λ (s : PageState). contains (map state_page (keep test states)) s.page_id ≡ test s)
          states
  listed [] h = tt
  listed (s ∷ states) h =
      let apart : contains (map state_page states) s.page_id ≡ false = ground (arith, h) in
      (
        ground (arith, ==_self s.page_id, unlisted s.page_id states apart),
        All-map (λ (u : PageState) both. ground (arith, both)) states
            (All-both (λ (u : PageState). (u.page_id == s.page_id) ≡ false)
              (λ (u : PageState). contains (map state_page (keep test states)) u.page_id ≡ test u)
              states (others s.page_id states apart) (listed states (ground (arith, h)))),
      )

-- A page is in exactly the list of its status.
abbrev pub IsListed : DocumentationWorkflowResult → PageState → Type 0
IsListed r s =
    (contains r.passed_page_ids s.page_id ≡ is_passed s.status)
    × (contains r.escalated_page_ids s.page_id ≡ is_awaiting s.status)
    × (contains r.failed_page_ids s.page_id ≡ not (is_passed s.status || is_awaiting s.status))

-- The report on the states of pages with different ids: each page is in the list of its status and in
-- no other, and the lists have no more ids than there are pages; a run passed exactly if it has a
-- page, and none is escalated or failed; it is ready for review exactly if it has a page, and none
-- failed.
pub result_from_states_lem :
    (states : List PageState)
    → has_duplicate (map state_page states) ≡ false
    → let r = result_from_states states in
      All (IsListed r) states
      × (length r.passed_page_ids + length r.escalated_page_ids + length r.failed_page_ids
          ≡ length states)
      × (r.passed ≡ (
          is_nonempty states
          && (length r.escalated_page_ids == 0 && length r.failed_page_ids == 0)))
      × (r.ready_for_review ≡ (is_nonempty states && length r.failed_page_ids == 0))
unfolding result_from_states
result_from_states_lem states h =
    let (sizes, passed, ready) = totals_lem states in
    (
      All-map {Q = IsListed (result_from_states states)}
          (λ (s : PageState) lists. (lists.0, lists.1.0, lists.1.1)) states
          (All-both _ _ states (listed page_passed states h) (
            All-both _ _ states (listed page_escalated states h)
              (listed (λ s. not (page_passed s || page_escalated s)) states h))),
      sizes,
      passed,
      ready,
    )

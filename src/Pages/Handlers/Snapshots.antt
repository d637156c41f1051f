-- ===== src/Pages/Handlers/Snapshots.antt =====
-- The snapshot of the accepted artifacts, as the evaluator takes it and the cross-page review reads
-- it.
use mathlib.Core.Path.{subst}
use draftly_agent_backend.Prelude.{
  String, Option, some, true, false, ◌≡◌, refl, List, [], ◌∷◌, arith, map, all, has_duplicate, All,
  All-map, All-both, ==_self, ◌==◌, string_eq, int, str, object, Fields, field, end, get_field,
}
use draftly_agent_backend.Pages.Rows.{PageState, is_passed}
use draftly_agent_backend.Pages.Results.{state_page}
use draftly_agent_backend.Pages.Results.Listing.{others}
use draftly_agent_backend.Pages.Handlers.{Answer, done, fails, done-injective}
use draftly_agent_backend.Pages.Handlers.Artifacts.{DraftFile, DocumentArtifact, current_artifact}
use draftly_agent_backend.Pages.Handlers.Evaluator.{
  Setting, snapshot, put_state, state_entry, all_passed,
}
use draftly_agent_backend.Pages.Handlers.CrossPage.{
  ReviewSetting, is_reviewable, is_replaying, check_artifacts,
}

-- What a snapshot holds of a page: the identity, the version and the hash of its artifact, as it is
-- read again.
abbrev pub IsTaken : (String → Option DraftFile) → Fields → PageState → Type 0
IsTaken latest shot s =
    (a : DocumentArtifact) × (current_artifact latest s.page_id s.latest_version
        s.latest_artifact_id
      ≡ done a)
    × (get_field s.page_id shot
        ≡ some (
            object (
              field "artifact_id" (str a.artifact_id) (
                field "version" (int s.latest_version)
                  (field "content_hash" (str a.content_hash) end)))))

put_state_lem :
    (setting : Setting) (s : PageState) (a : Answer DocumentArtifact) (rest : Answer Fields)
    (shot : Fields)
    → put_state setting s a rest ≡ done shot
    → (found : DocumentArtifact) × (more : Fields) × (a ≡ done found)
      × (rest ≡ done more)
      × (state_entry setting s found more ≡ shot)
put_state_lem setting s (done a) (done more) shot h = (a, more, refl, refl, done-injective _ shot h)
put_state_lem setting s (done a) (fails e) shot h = absurd (ground arith)
put_state_lem setting s (fails e) rest shot h = absurd (ground arith)

-- The snapshot of pages with different ids holds each of them.
pub snapshot-IsTaken :
    (setting : Setting) (states : List PageState) (shot : Fields)
    → snapshot setting states ≡ done shot
    → has_duplicate (map state_page states) ≡ false
    → All (IsTaken setting.latest shot) states
unfolding snapshot
snapshot-IsTaken setting [] shot h distinct = tt
snapshot-IsTaken setting (s ∷ states) shot h distinct =
    let (a, more, found, rest, same) =
      put_state_lem setting s
        (current_artifact setting.latest s.page_id s.latest_version s.latest_artifact_id)
        (snapshot setting states) shot h in
    let apart = others s.page_id states (ground (arith, distinct)) in
    subst (λ (f : Fields). All (IsTaken setting.latest f) (s ∷ states)) same
      (
        (a, found, rw (==_self s.page_id) refl),
        All-map
            (λ (u : PageState) both. let (b, read, entry) = both.1 in (b, read, rw both.0 entry))
            states
            (All-both (λ (u : PageState). (u.page_id == s.page_id) ≡ false)
              (IsTaken setting.latest more) states apart
              (snapshot-IsTaken setting states more rest (ground (arith, distinct)))),
      )

-- The review of a snapshot finds the artifacts that it holds.
pub check_artifacts_lem :
    (rs : ReviewSetting) (shot : Fields) (states : List PageState)
    → All (IsTaken rs.latest shot) states
    → check_artifacts rs shot states ≡ done tt
unfolding check_artifacts
check_artifacts_lem rs shot [] h = refl
check_artifacts_lem rs shot (s ∷ states) ((a, found, entry), h) =
    rw (found, entry, ==_self a.content_hash) (check_artifacts_lem rs shot states h)

reviewable :
    (shot : Fields) (states : List PageState)
    → all (λ (s : PageState). is_passed s.status) states ≡ true
    → all (is_reviewable shot) states ≡ true
reviewable shot [] h = refl
reviewable shot (s ∷ states) h = ground (arith, h, reviewable shot states)

-- A run of passed pages may be reviewed, with any snapshot.
pub replaying_lem :
    (shot : Fields) (states : List PageState)
    → all_passed states ≡ true
    → is_replaying shot states ≡ true
replaying_lem shot [] h = absurd (ground arith)
replaying_lem shot (s ∷ states) h = reviewable shot (s ∷ states) h

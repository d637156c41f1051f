-- ===== src/Steering/Claims.antt =====
-- What a claim of an intervention promises to callers that repeat it.
use mathlib.Core.Option.{some-injective}
use mathlib.Core.Path.{subst}
use draftly_agent_backend.Prelude.{
  ℕ, String, Option, none, some, Bool, true, false, ◌&&◌, not, ◌≡◌, refl, inl, inr, List, [], ◌∷◌,
  arith, find_row, update_where, find_row_holds, Bool-cases, ◌==◌, option_beq_iff, string_eq,
  option_eq, if◌then◌else◌, ap, ◌∙◌,
}
use draftly_agent_backend.Steering.Interventions.{
  Intervention, Answer, got, refused, conflict, action_status, is_claimable, is_replay, claim,
  replayed, claim_pending, claim_or_replay, with_status, claim_response, clashes, is_pending,
}

-- A row that an update makes the first of its kind is found.
find_updated :
    (test wanted : Intervention → Bool) (f : Intervention → Intervention) (rows : List Intervention)
    (r : Intervention)
    → find_row wanted rows ≡ none
    → find_row test rows ≡ some r
    → wanted (f r) ≡ true
    → find_row wanted (update_where test f rows) ≡ some (f r)
unfolding find_row update_where
find_updated test wanted f [] r h k w = absurd (ground arith)
find_updated test wanted f (x ∷ xs) r h k w = elim (Bool-cases (test x)) [
  | inl t ↦
      let same : x ≡ r = some-injective x r (rw t at k) in
      rw (t, ap (λ y. wanted (f y)) same ∙ w) (ap (λ y. some (f y)) same)
  | inr t ↦ elim (Bool-cases (wanted x)) [
    | inl y ↦ absurd (ground (arith, rw y at h))
    | inr n ↦ rw (t, n) (find_updated test wanted f xs r (rw n at h) (rw t at k) w)
  ]
]

-- Every status that is offered, if any, is another than `pending`.
abbrev NeverPending : Option String → Type 0
NeverPending offer = (status : String) → offer ≡ some status → (status == "pending") ≡ false

offer_first :
    (test : Bool) (first : String) (rest : Option String)
    → (first == "pending") ≡ false
    → NeverPending rest
    → NeverPending (if test then some first else rest)
offer_first true first rest h k status e =
    subst (λ s. (s == "pending") ≡ false) (some-injective first status e) h
offer_first false first rest h k status e = k status e

-- No supported action leaves an intervention pending.
action_status-NeverPending : (action : String) → NeverPending (action_status action)
unfolding action_status
action_status-NeverPending action = offer_first (action == "approve") "approved" _ refl (
    offer_first (action == "approve_and_review") "approved" _ refl (
      offer_first (action == "deny") "denied" _ refl (
        offer_first (action == "denied") "denied" _ refl (
          offer_first (action == "guide") "guided" _ refl (
            offer_first (action == "cancel") "cancelled" none refl
              (λ status e. absurd (ground arith)))))))

-- What a caller holds after a claim: the row of its answer, found again by the key.
abbrev Answers :
    String → String → String → Option String → Answer Intervention → List Intervention → Type 0
Answers org key action message answer rows =
    (r : Intervention)
    → answer ≡ got r
    → r.idempotency_key ≡ some key
    → (r.resolver_id ≡ some action)
      × (r.response_message ≡ message)
      × (find_row (is_replay org key) rows ≡ some r)

got-injective : (a b : Intervention) → got a ≡ got b → a ≡ b
got-injective a b e = ground arith

and_left : (a b : Bool) → (a && b) ≡ true → a ≡ true
and_left a b h = ground arith

and_right : (a b : Bool) → (a && b) ≡ true → b ≡ true
and_right a b h = ground arith

all_three : (a b c : Bool) → a ≡ true → b ≡ true → c ≡ false → (a && b && not c) ≡ true
all_three a b c h k m = ground arith

module _ (org key action : String) (message : Option String) (now : ℕ) where
  replayed-Answers :
      (rows : List Intervention) (old : Intervention)
      → find_row (is_replay org key) rows ≡ some old
      → Answers org key action message (replayed action message old) rows
  replayed-Answers rows old found r h k =
      elim (Bool-cases (old.resolver_id == some action && old.response_message == message)) [
        | inl same ↦
            let is_old : old ≡ r = got-injective old r (rw same at h) in
            subst
              (λ x.
                (x.resolver_id ≡ some action)
                × (x.response_message ≡ message)
                × (find_row (is_replay org key) rows ≡ some x))
              is_old
              (
                (option_beq_iff old.resolver_id (some action)).0 (and_left _ _ same),
                (option_beq_iff old.response_message message).0 (and_right _ _ same),
                found,
              )
        | inr other ↦ absurd (ground (arith, rw other at h))
      ]

  -- A row that was claimed is the one found for the key.
  claimed-Answers :
      (run interrupt status : String) (rows : List Intervention) (x : Intervention)
      → find_row (is_replay org key) rows ≡ none
      → find_row (is_claimable run interrupt org) rows ≡ some x
      → (status == "pending") ≡ false
      → Answers org key action message
          (got (claim status action message key now x))
          (update_where (is_claimable run interrupt org) (claim status action message key now) rows)
  claimed-Answers run interrupt status rows x fresh found settled r h k =
      let made = claim status action message key now x in
      let is_made : made ≡ r = got-injective made r h in
      let here = find_row_holds (is_claimable run interrupt org) rows x found in
      let own : (x.org_id == org) ≡ true =
        and_right (x.run_id == run && x.interrupt_id == interrupt) (x.org_id == org)
          (and_left _ (is_pending x) here) in
      let keyed : (made.idempotency_key == some key) ≡ true =
        (option_beq_iff made.idempotency_key (some key)).1
          (ap (λ (y : Intervention). y.idempotency_key) is_made ∙ k) in
      let wanted : is_replay org key made ≡ true =
        all_three (x.org_id == org) (made.idempotency_key == some key) (status == "pending") own
          keyed settled in
      subst
        (λ y.
          (y.resolver_id ≡ some action)
          × (y.response_message ≡ message)
          × (find_row (is_replay org key) (
                update_where (is_claimable run interrupt org) (claim status action message key now)
                  rows)
              ≡ some y))
        is_made
        (
          refl,
          refl,
          find_updated (is_claimable run interrupt org) (is_replay org key)
              (claim status action message key now) rows x fresh found wanted,
        )

  pending-Answers :
      (run interrupt status : String) (rows : List Intervention) (o : Option Intervention)
      → find_row (is_replay org key) rows ≡ none
      → find_row (is_claimable run interrupt org) rows ≡ o
      → (status == "pending") ≡ false
      → let (answer, after) =
          claim_pending run interrupt org key action message status now rows o in
        Answers org key action message answer after
  pending-Answers run interrupt status rows none fresh found settled =
      λ r h k. absurd (ground arith)
  pending-Answers run interrupt status rows (some x) fresh found settled =
      elim (Bool-cases (clashes org key x rows)) [
        | inl c ↦ λ r h k. absurd (ground (arith, rw c at h))
        | inr c ↦ rw c (claimed-Answers run interrupt status rows x fresh found settled)
      ]

  replay-Answers :
      (run interrupt status : String) (rows : List Intervention) (o : Option Intervention)
      → find_row (is_replay org key) rows ≡ o
      → (status == "pending") ≡ false
      → let (answer, after) =
          claim_or_replay run interrupt org key action message status now rows o in
        Answers org key action message answer after
  replay-Answers run interrupt status rows none fresh settled =
      pending-Answers run interrupt status rows (find_row (is_claimable run interrupt org) rows)
        fresh refl settled
  replay-Answers run interrupt status rows (some old) found settled =
      replayed-Answers rows old found

  claim-Answers :
      (run interrupt : String) (rows : List Intervention) (o : Option String)
      → NeverPending o
      → let (answer, after) = with_status run interrupt org key action message now rows o in
        Answers org key action message answer after
  claim-Answers run interrupt rows none never = λ r h k. absurd (ground arith)
  claim-Answers run interrupt rows (some status) never =
      replay-Answers run interrupt status rows (find_row (is_replay org key) rows) refl
        (never status refl)

-- A claim that answers with a row under its key has recorded its action and message there.
claim_response_recorded :
    (run interrupt org key action : String) (message : Option String) (now : ℕ)
    (rows : List Intervention)
    → let (answer, after) = claim_response run interrupt org key action message now rows in
      Answers org key action message answer after
unfolding claim_response
claim_response_recorded run interrupt org key action message now rows =
    claim-Answers org key action message now run interrupt rows (action_status action)
      (action_status-NeverPending action)

-- After a claim that answers with a row under its key, every later claim under that key, for whatever
-- interrupt, changes nothing: the same action and message get the same row, any other supported
-- action or message is a conflict with it.
pub claim_response_lem :
    (run interrupt org key action : String) (message : Option String) (now : ℕ)
    (rows : List Intervention) (r : Intervention) (run' interrupt' action' status' : String)
    (message' : Option String) (later : ℕ)
    → (claim_response run interrupt org key action message now rows).0 ≡ got r
    → r.idempotency_key ≡ some key
    → action_status action' ≡ some status'
    → let after = (claim_response run interrupt org key action message now rows).1 in
      claim_response run' interrupt' org key action' message' later after ≡ (
        (if action == action' && message == message' then got r else refused (conflict r.id)),
        after,
      )
unfolding claim_response
claim_response_lem run interrupt org key action message now rows r run' interrupt' action' status'
      message' later h k s =
    let (by, said, found) =
      claim_response_recorded run interrupt org key action message now rows r h k in
    rw (s, found, by, said) refl

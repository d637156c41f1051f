-- ===== src/Pages/Resume/Decisions.antt =====
-- What a human decision on a settled run leaves.
use draftly_agent_backend.Prelude.{
  ℕ, String, Option, Bool, true, false, ◌&&◌, ◌||◌, not, ◌≡◌, refl, inl, inr, List, [], ◌∷◌, arith,
  map, keep, any, All, contains, string_eq, ◌==◌, ap, sym, ◌∙◌, Bool-cases, ==_self, eq_iff,
  any_quiet, contains-map, returned_row, any-sort_by, any-keep, any-update_where, keep_none,
  update_where,
}
use mathlib.Core.Path.{subst}
use draftly_agent_backend.Pages.Rows.{PageState, Database, is_awaiting}
use draftly_agent_backend.Pages.Query.{Result, ok, ◌>>=◌, continue, pure, gets}
use draftly_agent_backend.Pages.States.{
  get_page_states, approve_escalated_pages, approve_each, approve_page, mark_escalated_failed,
  with_pages, awaiting_page, count_found,
}
use draftly_agent_backend.Pages.States.Reviews.{All-Quiet, awaits, mark_escalated_failed_exact}
use draftly_agent_backend.Pages.Tasks.{cancel_pending_tasks, is_open, cancel}
use draftly_agent_backend.Pages.Results.{result_from_states, page_escalated, state_page}
use draftly_agent_backend.Pages.Resume.{
  escalated_ids, report, approve_any, resume_approve, resume_reject,
}

-- A page of the run that awaits review and is not among the ids.
abbrev left_out : String → List String → PageState → Bool
left_out run ids p = awaits run p && not (contains ids p.page_id)

left_out_after :
    (run : String) (comment : Option String) (ids pages : List String) (n : ℕ) (db : Database)
    → any (left_out run ids) db.pages ≡ false
    → any (left_out run ids) (approve_each run comment pages n db).1.pages ≡ false
unfolding approve_each
left_out_after run comment ids [] n db h = h
left_out_after run comment ids (p ∷ ps) n db h =
    let test = awaiting_page run p in
    left_out_after run comment ids ps _
      (with_pages db (update_where test (approve_page comment) db.pages))
      (any_quiet (left_out run ids) test (approve_page comment) (λ q t. ground arith) db.pages h)

or_left : (a b : Bool) → (a || b) ≡ false → a ≡ false
or_left a b h = ground arith

or_right : (a b : Bool) → (a || b) ≡ false → b ≡ false
or_right a b h = ground arith

either_false : (a b : Bool) → a ≡ false → b ≡ false → (a || b) ≡ false
either_false a b h k = ground arith

-- A page waits under its own id.
waits_itself : (run : String) (p : PageState) → awaiting_page run p.page_id p ≡ awaits run p
waits_itself run p =
    ap (λ b. p.run_id == run && b && is_awaiting p.status) (==_self p.page_id)
    ∙ shorter (p.run_id == run) (is_awaiting p.status)
  where
    shorter : (a b : Bool) → (a && true && b) ≡ (a && b)
    shorter a b = ground arith

not_left_out : (a c : Bool) → (a && not c) ≡ false → c ≡ false → a ≡ false
not_left_out a c h k = ground arith

none_waits :
    (run : String) (ids : List String) (ps : List PageState)
    → ((x : String) → contains ids x ≡ true → any (awaiting_page run x) ps ≡ false)
    → any (left_out run ids) ps ≡ false
    → any (awaits run) ps ≡ false
none_waits run ids [] quiet h = refl
none_waits run ids (p ∷ ps) quiet h =
    let rest =
      none_waits run ids ps
        (λ x c. or_right (awaiting_page run x p) (any (awaiting_page run x) ps) (quiet x c))
        (or_right (left_out run ids p) (any (left_out run ids) ps) h) in
    let here : awaits run p ≡ false = elim (Bool-cases (contains ids p.page_id)) [
      | inl c ↦
          sym (waits_itself run p)
          ∙ or_left (awaiting_page run p.page_id p) (any (awaiting_page run p.page_id) ps)
              (quiet p.page_id c)
      | inr c ↦
          not_left_out (awaits run p) (contains ids p.page_id)
            (or_left (left_out run ids p) (any (left_out run ids) ps) h) c
    ] in
    either_false (awaits run p) (any (awaits run) ps) here rest

quiet_ids :
    (run : String) (ps : List PageState) (ids : List String)
    → All (λ x. any (awaiting_page run x) ps ≡ false) ids
    → (x : String) → contains ids x ≡ true
    → any (awaiting_page run x) ps ≡ false
quiet_ids run ps [] h x c = absurd (ground arith)
quiet_ids run ps (y ∷ ys) h x c = elim (Bool-cases (x == y)) [
  | inl e ↦ subst (λ z. any (awaiting_page run z) ps ≡ false) (sym ((eq_iff x y).0 e)) h.0
  | inr e ↦ quiet_ids run ps ys h.1 x (ground arith)
]

approve_each_returns :
    (run : String) (comment : Option String) (pages : List String) (n : ℕ) (db : Database)
    → (m : ℕ) × ((approve_each run comment pages n db).0 ≡ ok m)
unfolding approve_each
approve_each_returns run comment [] n db = (n, refl)
approve_each_returns run comment (p ∷ ps) n db =
    let test = awaiting_page run p in
    approve_each_returns run comment ps
      (count_found (returned_row test (approve_page comment) db.pages) n)
      (with_pages db (update_where test (approve_page comment) db.pages))

-- Approving ids that leave no waiting page out leaves no page waiting.
approve_any_lem :
    (run : String) (comment : Option String) (ids : List String) (db : Database)
    → any (left_out run ids) db.pages ≡ false
    → (approve_any run comment ids db ≡ (ok tt, (approve_any run comment ids db).1))
      × (any (awaits run) (approve_any run comment ids db).1.pages ≡ false)
unfolding approve_escalated_pages ◌>>=◌
approve_any_lem run comment [] db h =
    (refl, none_waits run [] db.pages (λ x c. absurd (ground arith)) h)
approve_any_lem run comment (page ∷ pages) db h =
    let ids = page ∷ pages in
    let (m, ran) = approve_each_returns run comment ids 0 db in
    let after = (approve_each run comment ids 0 db).1 in
    let done : approve_any run comment ids db ≡ (ok tt, after) =
      ap (λ (r : Result ℕ). continue r (λ _. pure tt) after) ran in
    (
      done ∙ ap (λ (d : Result (Unit {0}) × Database). (ok tt, d.1)) (sym done),
      ap (λ (d : Result (Unit {0}) × Database). any (awaits run) d.1.pages) done
          ∙ none_waits run ids after.pages
              (quiet_ids run after.pages ids (All-Quiet run comment ids 0 db))
              (left_out_after run comment ids ids 0 db h),
    )

module _ (collate : String → String → Bool) where
  abbrev page_order : PageState → PageState → Bool
  page_order p q = collate p.page_id q.page_id

  abbrev is_of : String → PageState → Bool
  is_of run p = p.run_id == run

  contains_escalated :
      (run : String) (db : Database) (x : String)
      → contains (escalated_ids collate run db) x
        ≡ any (λ (q : PageState). is_of run q && (page_escalated q && x == q.page_id)) db.pages
  unfolding escalated_ids get_page_states
  contains_escalated run db x =
      contains-map state_page (keep page_escalated (get_page_states collate run db)) x
      ∙ any-keep (λ q. x == q.page_id) page_escalated (get_page_states collate run db)
      ∙ any-sort_by (λ q. page_escalated q && x == q.page_id) page_order (keep (is_of run) db.pages)
      ∙ any-keep (λ q. page_escalated q && x == q.page_id) (is_of run) db.pages

  all_named :
      (run : String) (db : Database) (ps : List PageState)
      → ((test : PageState → Bool) → any test ps ≡ true → any test db.pages ≡ true)
      → any (left_out run (escalated_ids collate run db)) ps ≡ false
  all_named run db [] within = refl
  all_named run db (p ∷ ps) within =
      let ids = escalated_ids collate run db in
      let rest = all_named run db ps (λ test h. within test (or_more (test p) (any test ps) h)) in
      let here : left_out run ids p ≡ false = elim (Bool-cases (awaits run p)) [
        | inl e ↦
            let test =
              λ (q : PageState). is_of run q && (page_escalated q && p.page_id == q.page_id) in
            let itself : test p ≡ true =
              ap (λ b. is_of run p && (page_escalated p && b)) (==_self p.page_id)
              ∙ same_and (is_of run p) (page_escalated p)
              ∙ e in
            named (awaits run p) (contains ids p.page_id) (
              contains_escalated run db p.page_id
              ∙ within test (or_here (test p) (any test ps) itself))
        | inr e ↦ no_wait (awaits run p) (contains ids p.page_id) e
      ] in
      either_false (left_out run ids p) (any (left_out run ids) ps) here rest
    where
      or_more : (a b : Bool) → b ≡ true → (a || b) ≡ true
      or_more a b h = ground arith

      or_here : (a b : Bool) → a ≡ true → (a || b) ≡ true
      or_here a b h = ground arith

      same_and : (a b : Bool) → (a && (b && true)) ≡ (a && b)
      same_and a b = ground arith

      named : (a c : Bool) → c ≡ true → (a && not c) ≡ false
      named a c h = ground arith

      no_wait : (a c : Bool) → a ≡ false → (a && not c) ≡ false
      no_wait a c h = ground arith

  -- Where no page waits, no id is found.
  none_escalated :
      (run : String) (db : Database)
      → any (awaits run) db.pages ≡ false
      → escalated_ids collate run db ≡ []
  unfolding escalated_ids get_page_states
  none_escalated run db h = ap (map state_page) (
      keep_none page_escalated (get_page_states collate run db) (
        any-sort_by page_escalated page_order (keep (is_of run) db.pages)
        ∙ any-keep page_escalated (is_of run) db.pages
        ∙ h))

  approve_chain :
      (run : String) (comment : Option String) (db : Database)
      → let named = escalated_ids collate run db in
        let after = (approve_any run comment named db).1 in
        resume_approve collate run comment db ≡ (ok (report collate run after), after)
  unfolding resume_approve ◌>>=◌
  approve_chain run comment db =
      let named = escalated_ids collate run db in
      let (ran, _) =
        approve_any_lem run comment named db (all_named run db db.pages (λ test h. h)) in
      ap (λ (r : Result (Unit {0}) × Database). continue r.0 (λ _. gets (report collate run)) r.1)
        ran

  escalated_none :
      (run : String) (db : Database)
      → escalated_ids collate run db ≡ []
      → (report collate run db).escalated_page_ids ≡ []
  unfolding escalated_ids report result_from_states
  escalated_none run db h = h

  -- An approval leaves no page of the run awaiting review, and returns the report on the states it
  -- leaves, which names no escalated page. A second approval, whatever its comment, returns the
  -- same report and changes nothing.
  pub resume_approve_lem :
      (run : String) (first second : Option String) (db : Database)
      → let after = (resume_approve collate run first db).1 in
        (any (awaits run) after.pages ≡ false)
        × ((resume_approve collate run first db).0 ≡ ok (report collate run after))
        × ((report collate run after).escalated_page_ids ≡ [])
        × (resume_approve collate run second after ≡ (ok (report collate run after), after))
  unfolding report result_from_states
  resume_approve_lem run first second db =
      let named = escalated_ids collate run db in
      let (_, settled) =
        approve_any_lem run first named db (all_named run db db.pages (λ test h. h)) in
      let after = (approve_any run first named db).1 in
      let chain = approve_chain run first db in
      let none_left = none_escalated run after settled in
      let again : resume_approve collate run second after ≡ (ok (report collate run after), after) =
        approve_chain run second after
        ∙ ap
            (λ ids. (
              ok (report collate run (approve_any run second ids after).1),
              (approve_any run second ids after).1,
            ))
            none_left in
      rw chain (settled, refl, escalated_none run after none_left, again)

  -- A rejection leaves no task of the run pending or running and no page awaiting review, and
  -- returns the report on the states it leaves, which names no escalated page.
  pub resume_reject_lem :
      (run : String) (comment : Option String) (db : Database)
      → let after = (resume_reject collate run comment db).1 in
        (any (is_open run) after.tasks ≡ false)
        × (any (awaits run) after.pages ≡ false)
        × ((resume_reject collate run comment db).0 ≡ ok (report collate run after))
        × ((report collate run after).escalated_page_ids ≡ [])
  unfolding resume_reject cancel_pending_tasks mark_escalated_failed ◌>>=◌
  resume_reject_lem run comment db =
      let cancelled = (cancel_pending_tasks run db).1 in
      let after = (mark_escalated_failed run comment cancelled).1 in
      let (_, settled) = mark_escalated_failed_exact run comment cancelled in
      (
        any-update_where (is_open run) (is_open run) cancel (λ t h. ground arith) (λ t h. h)
            db.tasks,
        settled,
        refl,
        escalated_none run after (none_escalated run after settled),
      )

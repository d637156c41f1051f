-- ===== src/Pages/Executor/Settled.antt =====
-- What the scheduling loop guarantees when it ends.
use draftly_agent_backend.Prelude.{
  ℕ, suc, ◌+◌, String, Option, none, some, Bool, true, false, ◌&&◌, ◌||◌, not, ◌≡◌, refl, inl, inr,
  List, [], ◌∷◌, arith, map, take, keep, any, All, contains, sort_by, insert_by, string_eq, ap, sym,
  ◌∙◌, any-keep, any-sort_by, any-take, any_imp, update_where, update_none, any_never, Bool-cases,
  ◌≢◌, ==_self, ◌==◌,
}
use mathlib.Core.Path.{subst}
use draftly_agent_backend.Pages.Rows.{TaskType, WorkflowTask, Database, is_pending, is_running}
use draftly_agent_backend.Pages.Query.{Result, ok, err}
use draftly_agent_backend.Pages.Results.{is_nonempty}
use draftly_agent_backend.Pages.Tasks.{
  is_open, is_ready, reset_expired_leases, get_tasks, claimable_ids, claim_ready_tasks, claimed,
  start, enqueue_order,
}
use draftly_agent_backend.Pages.Executor.{
  Round, ExecutorResult, Driven, Pass, finished, deadlocked, leave, again, after_settling,
  if_handled, missing_handler, settle_all, idle, dispatch, pass, drive, code_order,
}

-- No task of the run is pending or running.
abbrev pub IsSettled : String → Database → Type 0
IsSettled run db = any (is_open run) db.tasks ≡ false

nonempty-keep :
    (test : WorkflowTask → Bool) (ts : List WorkflowTask) → is_nonempty (keep test ts) ≡ any test ts
nonempty-keep test [] = refl
nonempty-keep test (t ∷ ts) = ground (arith, nonempty-keep test ts)

module _ (collate : String → String → Bool) where
  -- Whether a task of the run, in a given state, is in the snapshot.
  pub snapshot_any :
      (test : WorkflowTask → Bool) (run : String) (db : Database)
      → is_nonempty (keep test (get_tasks collate run db))
        ≡ any (λ (t : WorkflowTask). t.run_id == run && test t) db.tasks
  unfolding get_tasks
  snapshot_any test run db =
      nonempty-keep test (get_tasks collate run db)
      ∙ any-sort_by test (enqueue_order collate)
          (keep (λ (t : WorkflowTask). t.run_id == run) db.tasks)
      ∙ any-keep test (λ (t : WorkflowTask). t.run_id == run) db.tasks

any_split :
    (test other : WorkflowTask → Bool) (ts : List WorkflowTask)
    → any (λ t. test t || other t) ts ≡ (any test ts || any other ts)
any_split test other [] = refl
any_split test other (t ∷ ts) = ground (arith, any_split test other ts)

any_same :
    (test other : WorkflowTask → Bool)
    → ((t : WorkflowTask) → test t ≡ other t)
    → (ts : List WorkflowTask) → any test ts ≡ any other ts
any_same test other f [] = refl
any_same test other f (t ∷ ts) = ground (arith, f t, any_same test other f ts)

abbrev id_of : WorkflowTask → String
id_of t = t.task_id

-- The rows of a nonempty selection are selected by their ids.
selects_itself :
    (ts : List WorkflowTask)
    → is_nonempty ts ≡ true
    → any (λ (t : WorkflowTask). contains (map id_of ts) t.task_id) ts ≡ true
selects_itself [] h = absurd (ground arith)
selects_itself (t ∷ ts) h = ground (arith, ==_self t.task_id)

nonempty-map :
    (f : WorkflowTask → WorkflowTask) (ts : List WorkflowTask)
    → is_nonempty (map f ts) ≡ is_nonempty ts
nonempty-map f [] = refl
nonempty-map f (t ∷ ts) = refl

module _ (collate : String → String → Bool) where
  open_any :
      (run : String) (tasks : List WorkflowTask)
      → any (is_open run) tasks ≡ (
          any (λ (t : WorkflowTask). t.run_id == run && is_pending t.status) tasks
          || any (λ (t : WorkflowTask). t.run_id == run && is_running t.status) tasks)
  open_any run tasks =
      any_same (is_open run)
        (λ t. t.run_id == run && is_pending t.status || t.run_id == run && is_running t.status)
        (λ t. ground arith) tasks
      ∙ any_split (λ t. t.run_id == run && is_pending t.status)
          (λ t. t.run_id == run && is_running t.status) tasks

  idle_finished :
      (run : String) (ids r : ExecutorResult) (db : Database)
      → idle collate run ids db ≡ leave (finished r)
      → any (is_open run) db.tasks ≡ false
  unfolding idle
  idle_finished run ids r db h = ground (
    arith,
    open_any run db.tasks,
    snapshot_any collate (λ t. is_pending t.status) run db,
    snapshot_any collate (λ t. is_running t.status) run db,
  )

  idle_deadlocked :
      (run : String) (ids : ExecutorResult) (blocked : List String) (db : Database)
      → idle collate run ids db ≡ leave (deadlocked blocked)
      → (any (λ (t : WorkflowTask). t.run_id == run && is_pending t.status) db.tasks ≡ true)
        × (any (λ (t : WorkflowTask). t.run_id == run && is_running t.status) db.tasks ≡ false)
        × (blocked
            ≡ sort_by code_order (
                map id_of
                  (keep (λ (t : WorkflowTask). is_pending t.status) (get_tasks collate run db))))
  unfolding idle
  idle_deadlocked run ids blocked db h = (
    ground (arith, snapshot_any collate (λ t. is_pending t.status) run db),
    ground (arith, snapshot_any collate (λ t. is_running t.status) run db),
    ground arith,
  )

  -- A claim that takes no row has selected no id.
  claim_none :
      (locked : String → Bool) (now : ℕ) (run owner : String) (lease limit : ℕ) (db : Database)
      → (claim_ready_tasks collate locked now run owner lease limit db).0 ≡ []
      → claimable_ids collate locked limit run db.tasks ≡ []
  unfolding claim_ready_tasks claimable_ids
  claim_none locked now run owner lease limit db h =
      let ready = λ (t : WorkflowTask). is_ready db.tasks run t && not (locked t.task_id) in
      let found = take limit (sort_by (enqueue_order collate) (keep ready db.tasks)) in
      let ids = map id_of found in
      let rows = keep (claimed run ids) db.tasks in
      let nothing : is_nonempty rows ≡ false =
        sym (nonempty-map (start owner (now + lease)) rows) ∙ ap is_nonempty h in
      elim (Bool-cases (is_nonempty found)) [
        | inl e ↦
            let chosen = λ (t : WorkflowTask). contains ids t.task_id in
            let held =
              sym (any-keep chosen ready db.tasks)
              ∙ sym (any-sort_by chosen (enqueue_order collate) (keep ready db.tasks))
              ∙ any-take chosen limit (sort_by (enqueue_order collate) (keep ready db.tasks))
                  (selects_itself found e) in
            let some_row =
              nonempty-keep (claimed run ids) db.tasks
              ∙ any_imp (λ t. ready t && chosen t) (claimed run ids) (λ t k. ground arith) db.tasks
                  held in
            absurd (ground arith)
        | inr e ↦ empty_ids found e
      ]
    where
      empty_ids : (ts : List WorkflowTask) → is_nonempty ts ≡ false → map id_of ts ≡ []
      empty_ids [] k = refl
      empty_ids (t ∷ ts) k = absurd (ground arith)

  sorted_nonempty :
      (le : WorkflowTask → WorkflowTask → Bool) (ts : List WorkflowTask)
      → is_nonempty (sort_by le ts) ≡ is_nonempty ts
  sorted_nonempty le [] = refl
  sorted_nonempty le (t ∷ ts) = inserted (sort_by le ts)
    where
      inserted : (us : List WorkflowTask) → is_nonempty (insert_by le t us) ≡ true
      inserted [] = refl
      inserted (u ∷ us) = ground arith

  -- After a claim that takes no row, of rows that nobody holds, no task is ready, and the tasks are
  -- as they were.
  claim_nothing :
      (locked : String → Bool) (now : ℕ) (run owner : String) (lease limit : ℕ) (db : Database)
      → ((x : String) → locked x ≡ false)
      → let (rows, after) = claim_ready_tasks collate locked now run owner lease (suc limit) db in
        rows ≡ [] → (after.tasks ≡ db.tasks) × (any (is_ready after.tasks run) after.tasks ≡ false)
  unfolding claim_ready_tasks claimable_ids
  claim_nothing locked now run owner lease limit db free h =
      let ready = λ (t : WorkflowTask). is_ready db.tasks run t && not (locked t.task_id) in
      let none_chosen = claim_none locked now run owner lease (suc limit) db h in
      let none_sorted =
        nothing_taken (sort_by (enqueue_order collate) (keep ready db.tasks)) none_chosen in
      let none_ready : any (is_ready db.tasks run) db.tasks ≡ false =
        any_same (is_ready db.tasks run) ready (λ t. ground (arith, free t.task_id)) db.tasks
        ∙ sym (nonempty-keep ready db.tasks)
        ∙ sym (sorted_nonempty (enqueue_order collate) (keep ready db.tasks))
        ∙ none_sorted in
      let unchanged : (claim_ready_tasks collate locked now run owner lease (suc limit) db).1.tasks
          ≡ db.tasks =
        ap (λ ids. update_where (claimed run ids) (start owner (now + lease)) db.tasks) none_chosen
        ∙ update_none (claimed run []) (start owner (now + lease)) db.tasks
            (any_never (claimed run []) (λ t. ground arith) db.tasks) in
      (unchanged, ap (λ ts. any (is_ready ts run) ts) unchanged ∙ none_ready)
    where
      nothing_taken :
          (ts : List WorkflowTask) → map id_of (take (suc limit) ts) ≡ [] → is_nonempty ts ≡ false
      nothing_taken [] k = refl
      nothing_taken (t ∷ ts) k = absurd (ground arith)

  handled_finished :
      (m : Option TaskType) (db : Database) (settled : Pass × Database) (r : ExecutorResult)
      → (if_handled m db settled).0 ≡ leave (finished r)
      → settled.0 ≡ leave (finished r)
  handled_finished none db settled r h = h
  handled_finished (some kind) db settled r h = absurd (ground arith)

  handled_deadlocked :
      (m : Option TaskType) (db : Database) (settled : Pass × Database) (blocked : List String)
      → (if_handled m db settled).0 ≡ leave (deadlocked blocked)
      → settled.0 ≡ leave (deadlocked blocked)
  handled_deadlocked none db settled blocked h = h
  handled_deadlocked (some kind) db settled blocked h = absurd (ground arith)

  settled_failed :
      (settled : Result ExecutorResult) (r : ExecutorResult)
      → after_settling settled ≡ leave (finished r)
      → is_nonempty r.failed_task_ids ≡ true
  settled_failed (err e) r h = absurd (ground arith)
  settled_failed (ok ids) r h = elim (Bool-cases (is_nonempty ids.failed_task_ids)) [
    | inl e ↦ ground arith
    | inr e ↦ absurd (ground arith)
  ]

  settled_blocked :
      (settled : Result ExecutorResult) (blocked : List String)
      → after_settling settled ≢ leave (deadlocked blocked)
  settled_blocked (err e) blocked h = ground arith
  settled_blocked (ok ids) blocked h = ground arith

  -- A pass in which no other transaction holds a task at the claim, and none changes a task between
  -- the claim and the snapshot.
  pub record IsUndisturbed (round : Round) : Type 0 where
    pub unlocked : (task : String) → round.locked task ≡ false
    pub unseen : (db : Database) → (round.after_claim db).tasks ≡ db.tasks

  -- A database in which a run can make no progress: a task is pending, none is running, and every
  -- pending one has a dependency that is not completed.
  pub record IsDeadlocked (run : String) (blocked : List String) (db : Database) : Type 0 where
    pub waiting : any (λ (t : WorkflowTask). t.run_id == run && is_pending t.status) db.tasks ≡ true
    pub resting :
        any (λ (t : WorkflowTask). t.run_id == run && is_running t.status) db.tasks ≡ false
    pub stuck : any (is_ready db.tasks run) db.tasks ≡ false
    pub blocked_ids :
        blocked
        ≡ sort_by code_order (
            map id_of (keep (λ (t : WorkflowTask). is_pending t.status) (get_tasks collate run db)))

  module _ (handles : TaskType → Bool) (run owner : String) where
    dispatch_finished :
        (round : Round) (ids r : ExecutorResult) (rows : List WorkflowTask) (db : Database)
        → (dispatch collate handles run owner round ids rows db).0 ≡ leave (finished r)
        → is_nonempty r.failed_task_ids ≡ false
        → any (is_open run) (dispatch collate handles run owner round ids rows db).1.tasks ≡ false
    unfolding dispatch
    dispatch_finished round ids r [] db h k = idle_finished run ids r (round.after_claim db) h
    dispatch_finished round ids r (t ∷ ts) db h k =
        let (outcomes, later) = round.gather (t ∷ ts) db in
        let (settled, after) = settle_all run owner (t ∷ ts) outcomes ids later in
        let done =
          handled_finished (missing_handler handles (t ∷ ts)) db (after_settling settled, after) r
            h in
        absurd (ground (arith, settled_failed settled r done))

    dispatch_deadlocked :
        (round : Round) (ids : ExecutorResult) (blocked : List String) (rows : List WorkflowTask)
        (db : Database)
        → (dispatch collate handles run owner round ids rows db).0 ≡ leave (deadlocked blocked)
        → (rows ≡ [])
          × ((dispatch collate handles run owner round ids rows db).1 ≡ round.after_claim db)
          × (idle collate run ids (round.after_claim db) ≡ leave (deadlocked blocked))
    unfolding dispatch
    dispatch_deadlocked round ids blocked [] db h = (refl, refl, h)
    dispatch_deadlocked round ids blocked (t ∷ ts) db h =
        let (outcomes, later) = round.gather (t ∷ ts) db in
        let (settled, after) = settle_all run owner (t ∷ ts) outcomes ids later in
        absurd (
          settled_blocked settled blocked (
            handled_deadlocked (missing_handler handles (t ∷ ts)) db (after_settling settled, after)
              blocked h))

    finishes :
        (lease : ℕ) (round : Round) (ids r : ExecutorResult) (db : Database)
        → (pass collate handles run owner lease round ids db).0 ≡ leave (finished r)
        → is_nonempty r.failed_task_ids ≡ false
        → any (is_open run) (pass collate handles run owner lease round ids db).1.tasks ≡ false
    unfolding pass
    finishes lease round ids r db h k =
        let (_, reset) = reset_expired_leases run round.now (round.meanwhile db) in
        let (rows, held) =
          claim_ready_tasks collate round.locked round.now run owner lease 10
            (round.after_reset reset) in
        dispatch_finished round ids r rows held h k

    blocks :
        (lease : ℕ) (round : Round) (ids : ExecutorResult) (blocked : List String) (db : Database)
        → IsUndisturbed round
        → (pass collate handles run owner lease round ids db).0 ≡ leave (deadlocked blocked)
        → IsDeadlocked run blocked (pass collate handles run owner lease round ids db).1
    unfolding pass
    blocks lease round ids blocked db free h =
        let (_, reset) = reset_expired_leases run round.now (round.meanwhile db) in
        let (rows, held) =
          claim_ready_tasks collate round.locked round.now run owner lease 10
            (round.after_reset reset) in
        let (no_rows, same, waits) = dispatch_deadlocked round ids blocked rows held h in
        let (waiting, resting, ids_waiting) =
          idle_deadlocked run ids blocked (round.after_claim held) waits in
        let (_, stuck) =
          claim_nothing round.locked round.now run owner lease 9 (round.after_reset reset)
            free.unlocked no_rows in
        subst (IsDeadlocked run blocked) (sym same) (record {
          waiting = waiting;
          resting = resting;
          stuck = subst (λ ts. any (is_ready ts run) ts ≡ false) (sym (free.unseen held)) stuck;
          blocked_ids = ids_waiting;
        })

    -- A run of the loop that ends with no failed task leaves no task of the run pending or running.
    pub drive_finished :
        (lease : ℕ) (rounds : List Round) (ids r : ExecutorResult) (db : Database)
        → (drive collate handles run owner lease rounds ids db).0 ≡ finished r
        → is_nonempty r.failed_task_ids ≡ false
        → IsSettled run (drive collate handles run owner lease rounds ids db).1
    unfolding drive
    drive_finished lease [] ids r db h k = absurd (ground arith)
    drive_finished lease (round ∷ rounds) ids r db h k =
        go (pass collate handles run owner lease round ids db).0
          (λ more q.
            drive_finished lease rounds more r (pass collate handles run owner lease round ids db).1
              q k)
          refl h
      where
        go :
            (decided : Pass)
            → ((more : ExecutorResult)
                → (drive collate handles run owner lease rounds more
                    (pass collate handles run owner lease round ids db).1).0
                  ≡ finished r
                → IsSettled run
                    (drive collate handles run owner lease rounds more
                      (pass collate handles run owner lease round ids db).1).1)
            → (pass collate handles run owner lease round ids db).0 ≡ decided
            → let end : Driven × Database = elim decided [
              | leave how ↦ (how, (pass collate handles run owner lease round ids db).1)
              | again more ↦
                  drive collate handles run owner lease rounds more
                    (pass collate handles run owner lease round ids db).1
            ] in
              end.0 ≡ finished r → IsSettled run end.1
        go (leave how) rest e q = finishes lease round ids r db (e ∙ ap leave q) k
        go (again more) rest e q = rest more q

    -- Where no other transaction holds a task at a claim, or changes one between a claim and the
    -- snapshot after it, the loop reports a deadlock only for one, with the ids of all pending tasks.
    pub drive_deadlocked :
        (lease : ℕ) (rounds : List Round) (ids : ExecutorResult) (blocked : List String)
        (db : Database)
        → All IsUndisturbed rounds
        → (drive collate handles run owner lease rounds ids db).0 ≡ deadlocked blocked
        → IsDeadlocked run blocked (drive collate handles run owner lease rounds ids db).1
    unfolding drive
    drive_deadlocked lease [] ids blocked db free h = absurd (ground arith)
    drive_deadlocked lease (round ∷ rounds) ids blocked db free h =
        go (pass collate handles run owner lease round ids db).0
          (λ more q.
            drive_deadlocked lease rounds more blocked
              (pass collate handles run owner lease round ids db).1 free.1 q)
          refl h
      where
        go :
            (decided : Pass)
            → ((more : ExecutorResult)
                → (drive collate handles run owner lease rounds more
                    (pass collate handles run owner lease round ids db).1).0
                  ≡ deadlocked blocked
                → IsDeadlocked run blocked
                    (drive collate handles run owner lease rounds more
                      (pass collate handles run owner lease round ids db).1).1)
            → (pass collate handles run owner lease round ids db).0 ≡ decided
            → let end : Driven × Database = elim decided [
              | leave how ↦ (how, (pass collate handles run owner lease round ids db).1)
              | again more ↦
                  drive collate handles run owner lease rounds more
                    (pass collate handles run owner lease round ids db).1
            ] in
              end.0 ≡ deadlocked blocked → IsDeadlocked run blocked end.1
        go (leave how) rest e q = blocks lease round ids blocked db free.0 (e ∙ ap leave q)
        go (again more) rest e q = rest more q

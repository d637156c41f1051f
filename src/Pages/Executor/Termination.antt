-- ===== src/Pages/Executor/Termination.antt =====
-- The scheduling loop comes to an end.
use draftly_agent_backend.Prelude.{
  ℕ, ◌+◌, ◌≤◌, ◌<◌, String, Option, none, some, Bool, true, false, ◌&&◌, ◌≡◌, refl, inl, inr, ◌⊎◌,
  List, [], ◌∷◌, ◌++◌, arith, map, keep, any, All, All-append, All-map, All-both, contains, length,
  update_where, count_where, returned_row, Unique, Unique-update_where, Unique-finds, any-append,
  update_none, Bool-cases, ◌==◌, ==_self, nat_eq, string_eq, option_eq, ap, sym, ◌∙◌, find_row,
  sort_by,
}
use mathlib.Core.Path.{subst}
use draftly_agent_backend.Pages.Rows.{
  TaskType, TaskStatus, WorkflowTask, Database, is_pending, is_running,
}
use draftly_agent_backend.Pages.Query.{ok, ◌>>=◌}
use draftly_agent_backend.Pages.Results.{is_nonempty}
use draftly_agent_backend.Pages.Tasks.{
  is_held, is_held_by_other, start, claimed, finish, recycle, complete_task, retry_outcome,
  retry_or_fail_task, reset_expired_leases, claim_ready_tasks, claimable_ids, get_tasks, is_expired,
  release,
}
use draftly_agent_backend.Pages.Tasks.Claims.{
  same_task, same_task_self, same_task_comm, claimed-candidate,
}
use draftly_agent_backend.Pages.Executor.{
  Round, Outcome, returned, raised, ExecutorResult, Driven, Pass, finished, deadlocked, leave,
  again, after_settling, missing_handler, settle_task, settle_all, idle, dispatch, pass, drive,
  code_order,
}
use draftly_agent_backend.Pages.Executor.Settled.{snapshot_any}
use draftly_agent_backend.Pages.Executor.Work.{
  work, work-append, work-update_where, work-update_same, settlings-finish, settlings-recycle,
  stray, NoStray, All-update, stray-update, none_other, listed, changed_rows, any_counts,
}

-- A task was settled: its row, if it has one, lost a settling, and nothing else is running.
record Settled (run owner task : String) (rest : List String) (before : List WorkflowTask)
    (after : List WorkflowTask) : Type 0 where
  no_stray : NoStray run owner rest after
  less : work run after + count_where (is_held run task owner) before ≤ work run before
  unique : Unique same_task after

update_where-Settled :
    (run owner task : String) (rest : List String) (f : WorkflowTask → WorkflowTask)
    → ((t : WorkflowTask) → is_running (f t).status ≡ false)
    → ((t : WorkflowTask)
        → is_held run task owner t ≡ true
        → work run (f t ∷ []) + 1 ≤ work run (t ∷ []))
    → ((t : WorkflowTask) → (f t).run_id ≡ t.run_id)
    → ((t : WorkflowTask) → (f t).task_id ≡ t.task_id)
    → (tasks : List WorkflowTask) → NoStray run owner (task ∷ rest) tasks
    → Unique same_task tasks
    → Settled run owner task rest tasks (update_where (is_held run task owner) f tasks)
update_where-Settled run owner task rest f stops less runs names tasks free unique = record {
  no_stray = stray-update run owner task rest f stops tasks free;
  less = work-update_where run (is_held run task owner) f (λ t h. omega (arith, less t h)) tasks;
  unique =
      Unique-update_where same_task (is_held run task owner) f (λ x y. rw (runs x, names x))
        (λ x y. rw (runs y, names y)) tasks unique;
}

-- A failed task that no other owner leases is no error.
retry_answers :
    (task owner : String) (owned_by_other : Bool) (row : Option WorkflowTask)
    → owned_by_other ≡ false
    → (status : Option TaskStatus) × (retry_outcome task owner owned_by_other row ≡ ok status)
retry_answers task owner other none h = (none, rw h)
retry_answers task owner other (some t) h = (some t.status, refl)

settle_settles :
    (run owner : String) (t : WorkflowTask) (o : Outcome) (ids : ExecutorResult)
    (rest : List String) (db : Database)
    → NoStray run owner (t.task_id ∷ rest) db.tasks
    → Unique same_task db.tasks
    → let (done, after) = settle_task run owner t o ids db in
      ((more : ExecutorResult) × (done ≡ ok more))
      × Settled run owner t.task_id rest db.tasks after.tasks
unfolding settle_task complete_task retry_or_fail_task ◌>>=◌
settle_settles run owner t (returned output) ids rest db free unique =
    let quiet = none_other run owner t.task_id (t.task_id ∷ rest) db.tasks free in
    rw quiet (
      (_, refl),
      update_where-Settled run owner t.task_id rest (finish (some output)) (λ x. refl)
          (λ x h. omega (arith, settlings-finish run t.task_id owner (some output) x h)) (λ x. refl)
          (λ x. refl) db.tasks free unique,
    )
settle_settles run owner t (raised message) ids rest db free unique =
    let quiet = none_other run owner t.task_id (t.task_id ∷ rest) db.tasks free in
    let (status, e) =
      retry_answers t.task_id owner (any (is_held_by_other run t.task_id owner) db.tasks)
        (returned_row (is_held run t.task_id owner) (recycle message) db.tasks) quiet in
    rw e (
      (_, refl),
      update_where-Settled run owner t.task_id rest (recycle message) (λ x. ground arith)
          (λ x h. omega (arith, settlings-recycle run t.task_id owner message x h)) (λ x. refl)
          (λ x. refl) db.tasks free unique,
    )

abbrev ids_of : List WorkflowTask → List String
ids_of ts = map (λ (t : WorkflowTask). t.task_id) ts

-- The settlings that the first of the given tasks has in the table.
abbrev first_held : String → String → List WorkflowTask → List WorkflowTask → ℕ
first_held run owner [] tasks = 0
first_held run owner (t ∷ ts) tasks = count_where (is_held run t.task_id owner) tasks

-- All claimed tasks are settled: no error, nothing of the run is running, and less is left to do.
settle_all_settles :
    (run owner : String) (ts : List WorkflowTask) (os : List Outcome) (ids : ExecutorResult)
    (db : Database)
    → length os ≡ length ts
    → NoStray run owner (ids_of ts) db.tasks
    → Unique same_task db.tasks
    → let (done, after) = settle_all run owner ts os ids db in
      ((more : ExecutorResult) × (done ≡ ok more))
      × (NoStray run owner [] after.tasks)
      × (work run after.tasks + first_held run owner ts db.tasks ≤ work run db.tasks)
      × Unique same_task after.tasks
unfolding settle_all ◌>>=◌
settle_all_settles run owner [] os ids db same free unique =
    ((ids, refl), free, omega arith, unique)
settle_all_settles run owner (t ∷ ts) [] ids db same free unique = absurd (omega (arith, same))
settle_all_settles run owner (t ∷ ts) (o ∷ os) ids db same free unique =
    let ((more, e), first) = settle_settles run owner t o ids (ids_of ts) db free unique in
    let (answer, quiet, less, still) =
      settle_all_settles run owner ts os more (settle_task run owner t o ids db).1
        (omega (arith, same)) first.no_stray first.unique in
    rw e (answer, quiet, omega (arith, less, first.less), still)

-- A pass that the rest of the program leaves to the loop: no other worker changes the tasks or holds
-- them, every handler that was started answers, and the handlers change the tasks only by inserting
-- new ones, none running, that the run can settle `made` times at most.
pub record IsCalm (run : String) (made : ℕ) (round : Round) : Type 0 where
  pub alone : (db : Database) → (round.meanwhile db).tasks ≡ db.tasks
  pub undisturbed : (db : Database) → (round.after_reset db).tasks ≡ db.tasks
  pub unseen : (db : Database) → (round.after_claim db).tasks ≡ db.tasks
  pub unlocked : (task : String) → round.locked task ≡ false
  pub answers : (ts : List WorkflowTask) (db : Database) → length (round.gather ts db).0 ≡ length ts
  pub inserts :
      (ts : List WorkflowTask) (db : Database)
      → (new : List WorkflowTask) × ((round.gather ts db).1.tasks ≡ db.tasks ++ new)
        × All (λ (t : WorkflowTask). is_running t.status ≡ false) new
        × (work run new ≤ made)
  pub unique :
      (ts : List WorkflowTask) (db : Database)
      → Unique same_task db.tasks
      → Unique same_task (round.gather ts db).1.tasks

-- The loop ends with a result or with a deadlock.
abbrev pub Ends : Driven → Type 0
Ends how =
    ((r : ExecutorResult) × (how ≡ finished r))
    ⊎ ((blocked : List String) × (how ≡ deadlocked blocked))

abbrev pub total : (Round → ℕ) → List Round → ℕ
total made [] = 0
total made (r ∷ rs) = made r + total made rs

all_handled :
    (handles : TaskType → Bool)
    → ((kind : TaskType) → handles kind ≡ true)
    → (ts : List WorkflowTask) → missing_handler handles ts ≡ none
all_handled handles every [] = refl
all_handled handles every (t ∷ ts) = rw (every t.task_type) (all_handled handles every ts)

module _ (collate : String → String → Bool) (run owner : String) where
  nothing_running :
      (tasks : List WorkflowTask)
      → NoStray run owner [] tasks
      → any (λ (t : WorkflowTask). t.run_id == run && is_running t.status) tasks ≡ false
  nothing_running [] h = refl
  nothing_running (t ∷ ts) h = ground (arith, h.0, nothing_running ts h.1)

  -- With nothing running, a pass that claims nothing is the last.
  idle-Ends :
      (ids : ExecutorResult) (db : Database)
      → NoStray run owner [] db.tasks
      → (how : Driven) × (idle collate run ids db ≡ leave how) × Ends how
  unfolding idle
  idle-Ends ids db quiet =
      let resting =
        snapshot_any collate (λ t. is_running t.status) run db ∙ nothing_running db.tasks quiet in
      let waiting = keep (λ (t : WorkflowTask). is_pending t.status) (get_tasks collate run db) in
      let blocked = sort_by code_order (ids_of waiting) in
      elim (Bool-cases (is_nonempty waiting)) [
        | inl e ↦ (deadlocked blocked, ground (arith, e, resting), inr (blocked, refl))
        | inr e ↦ (finished ids, ground (arith, e, resting), inl (ids, refl))
      ]

  -- What a pass leaves: the loop ends, or it goes on with less to do.
  abbrev Progress : ℕ → Database → Pass → Database → Type 0
  Progress made before decided after =
      ((how : Driven) × (decided ≡ leave how) × Ends how)
      ⊎ ((more : ExecutorResult) × (decided ≡ again more)
          × (NoStray run owner [] after.tasks)
          × (work run after.tasks + 1 ≤ work run before.tasks + made)
          × Unique same_task after.tasks)

  after_settling_goes :
      (ids : ExecutorResult)
      → ((how : Driven) × (after_settling (ok ids) ≡ leave how) × Ends how)
        ⊎ (after_settling (ok ids) ≡ again ids)
  after_settling_goes ids = elim (Bool-cases (is_nonempty ids.failed_task_ids)) [
    | inl e ↦ inl (finished ids, rw e, inl (ids, refl))
    | inr e ↦ inr (rw e)
  ]

  module _ (handles : TaskType → Bool) (every : (kind : TaskType) → handles kind ≡ true) (made : ℕ)
      (round : Round) (calm : IsCalm run made round) where
    dispatch_progresses :
        (ids : ExecutorResult) (rows : List WorkflowTask) (db : Database)
        → NoStray run owner (ids_of rows) db.tasks
        → All (λ (t : WorkflowTask). any (is_held run t.task_id owner) db.tasks ≡ true) rows
        → Unique same_task db.tasks
        → let (decided, after) = dispatch collate handles run owner round ids rows db in
          Progress made db decided after
    unfolding dispatch
    dispatch_progresses ids [] db free held unique = inl (
        idle-Ends ids (round.after_claim db)
          (subst (NoStray run owner []) (sym (calm.unseen db)) free))
    dispatch_progresses ids (t ∷ ts) db free held unique =
        let (outcomes, later) = round.gather (t ∷ ts) db in
        let (new, grown, still, few) = calm.inserts (t ∷ ts) db in
        let free' : NoStray run owner (ids_of (t ∷ ts)) later.tasks =
          subst (NoStray run owner (ids_of (t ∷ ts))) (sym grown) (
            All-append (λ x. stray run owner (ids_of (t ∷ ts)) x ≡ false) db.tasks new free
              (All-map (λ x h. ground (arith, h)) new still)) in
        let ((more, answered), quiet, less, unique') =
          settle_all_settles run owner (t ∷ ts) outcomes ids later (calm.answers (t ∷ ts) db) free'
            (calm.unique (t ∷ ts) db unique) in
        let more_work : work run later.tasks ≡ work run db.tasks + work run new =
          ap (work run) grown ∙ work-append run db.tasks new in
        let first : 1 ≤ count_where (is_held run t.task_id owner) later.tasks =
          any_counts (is_held run t.task_id owner) later.tasks (
            ap (any (is_held run t.task_id owner)) grown
            ∙ ground (arith, any-append (is_held run t.task_id owner) db.tasks new, held.0)) in
        rw (all_handled handles every (t ∷ ts), answered)
          (elim (after_settling_goes more) [
            | inl ends ↦ inl ends
            | inr e ↦ inr (more, e, quiet, omega (arith, less, more_work, first, few), unique')
          ])

  -- A claim from a table in which nothing of the run is running: what runs then is what was claimed.
  claim_starts :
      (locked : String → Bool) (now lease limit : ℕ) (db : Database)
      → NoStray run owner [] db.tasks
      → Unique same_task db.tasks
      → let (rows, held) = claim_ready_tasks collate locked now run owner lease limit db in
        (NoStray run owner (ids_of rows) held.tasks)
        × All (λ (t : WorkflowTask). any (is_held run t.task_id owner) held.tasks ≡ true) rows
        × (work run held.tasks ≡ work run db.tasks)
        × Unique same_task held.tasks
  unfolding claim_ready_tasks
  claim_starts locked now lease limit db quiet unique =
      let ids = claimable_ids collate locked limit run db.tasks in
      let test = claimed run ids in
      let begin = start owner (now + lease) in
      (
        All-update
            (λ t.
              (stray run owner [] t ≡ false)
              × (test t ≡ true
                  → contains (ids_of (map begin (keep test db.tasks))) t.task_id ≡ true))
            (λ t. stray run owner (ids_of (map begin (keep test db.tasks))) t ≡ false) test begin
            (λ t e h. rw (h.1 e) (ground (arith, ==_self owner))) (λ t e h. ground (arith, h.0))
            db.tasks
            (All-both (λ t. stray run owner [] t ≡ false) _ db.tasks quiet
              (listed test begin (λ t. refl) db.tasks)),
        changed_rows test begin (λ t. is_held run t.task_id owner)
            (λ t e. ground (arith, ==_self t.task_id, ==_self owner)) db.tasks,
        work-update_same run test begin db.tasks (
            All-map {P = λ t. find_row (same_task t) db.tasks ≡ some t}
              (λ t found e.
                ground
                  (arith, claimed-candidate collate locked limit run db.tasks t unique found e))
              db.tasks (Unique-finds same_task same_task_self same_task_comm db.tasks unique)),
        Unique-update_where same_task test begin (λ x y. refl) (λ x y. refl) db.tasks unique,
      )

  nothing_expired :
      (now : ℕ) (tasks : List WorkflowTask)
      → NoStray run owner [] tasks
      → any (is_expired run now) tasks ≡ false
  nothing_expired now [] h = refl
  nothing_expired now (t ∷ ts) h = ground (arith, h.0, nothing_expired now ts h.1)

  module _ (handles : TaskType → Bool) (every : (kind : TaskType) → handles kind ≡ true) where
    pass_progresses :
        (made : ℕ) (round : Round)
        → IsCalm run made round
        → (lease : ℕ) (ids : ExecutorResult) (db : Database) → NoStray run owner [] db.tasks
        → Unique same_task db.tasks
        → let (decided, after) = pass collate handles run owner lease round ids db in
          Progress made db decided after
    unfolding pass reset_expired_leases
    pass_progresses made round calm lease ids db quiet unique =
        let reset = round.after_reset (reset_expired_leases run round.now (round.meanwhile db)).1 in
        let same : reset.tasks ≡ db.tasks =
          calm.undisturbed (reset_expired_leases run round.now (round.meanwhile db)).1
          ∙ ap (update_where (is_expired run round.now) release) (calm.alone db)
          ∙ update_none (is_expired run round.now) release db.tasks
              (nothing_expired round.now db.tasks quiet) in
        let (rows, held) =
          claim_ready_tasks collate round.locked round.now run owner lease 10 reset in
        let (free, owned, left, unique') =
          claim_starts round.locked round.now lease 10 reset
            (subst (NoStray run owner []) (sym same) quiet)
            (subst (Unique same_task) (sym same) unique) in
        elim (dispatch_progresses handles every made round calm ids rows held free owned unique') [
          | inl ends ↦ inl ends
          | inr (more, e, quiet', less, unique'') ↦
              inr (more, e, quiet', omega (arith, less, left, ap (work run) same), unique'')
        ]

    drive_progresses :
        (made : Round → ℕ) (lease : ℕ) (rounds : List Round) (ids : ExecutorResult) (db : Database)
        → All (λ (r : Round). IsCalm run (made r) r) rounds
        → NoStray run owner [] db.tasks
        → Unique same_task db.tasks
        → work run db.tasks + total made rounds < length rounds
        → Ends (drive collate handles run owner lease rounds ids db).0
    unfolding drive
    drive_progresses made lease [] ids db calm quiet unique enough = absurd (omega (arith, enough))
    drive_progresses made lease (r ∷ rs) ids db calm quiet unique enough =
        elim (pass_progresses (made r) r calm.0 lease ids db quiet unique) [
          | inl (how, e, ends) ↦ rw (drive, e) ends
          | inr (more, e, quiet', less, unique') ↦
              rw (drive, e)
                (drive_progresses made lease rs more
                  (pass collate handles run owner lease r ids db).1 calm.1 quiet' unique'
                  (omega (arith, less, enough)))
        ]

any_stray :
    (run owner : String) (tasks : List WorkflowTask)
    → any (λ (t : WorkflowTask). t.run_id == run && is_running t.status) tasks ≡ false
    → NoStray run owner [] tasks
any_stray run owner [] h = tt
any_stray run owner (t ∷ ts) h = (ground arith, any_stray run owner ts (ground arith))

-- In calm passes, with a handler for every type of task and no task of the run running at first, the
-- loop ends with a result or with a deadlock, once there are more passes than settlings: two for an
-- open task, one if it has had its infrastructure retry, and those of the tasks that handlers insert.
pub drive-Ends :
    (collate : String → String → Bool) (handles : TaskType → Bool) (run owner : String)
    (made : Round → ℕ) (lease : ℕ) (rounds : List Round) (ids : ExecutorResult) (db : Database)
    → ((kind : TaskType) → handles kind ≡ true)
    → All (λ (r : Round). IsCalm run (made r) r) rounds
    → any (λ (t : WorkflowTask). t.run_id == run && is_running t.status) db.tasks ≡ false
    → Unique same_task db.tasks
    → work run db.tasks + total made rounds < length rounds
    → Ends (drive collate handles run owner lease rounds ids db).0
drive-Ends collate handles run owner made lease rounds ids db every calm resting unique enough =
    drive_progresses collate run owner handles every made lease rounds ids db calm
      (any_stray run owner db.tasks resting) unique enough

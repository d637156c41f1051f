-- ===== src/Pages/Tasks/Batches.antt =====
-- What `claim_ready_tasks` does as a whole: how many tasks it takes, that it takes every ready one
-- when it may, and that cancellation leaves it nothing.
use draftly_agent_backend.Prelude.{
  ℕ, ◌+◌, ◌≤◌, String, Bool, true, false, ◌&&◌, ◌||◌, not, some, ◌≡◌, List, [], ◌∷◌, map, length,
  arith, All, find_row, update_where, count_where, Unique, any, any_found, find_row-update_where,
  keep, keep_none, update_none, any-update_where, contains, contains-map, take, take_all, sort_by,
  any-sort_by, any-keep, any_never, count_never, All-map-keep, take_nil, length-take-le,
  length-sort_by, length-map, length-keep, count_or, count_imp, count_key-le, eq_iff, nat_eq,
  string_eq, ◌==◌, ==_self, ◌∙◌, ap,
}
use draftly_agent_backend.Pages.Rows.{WorkflowTask, TaskStatus, Database}
use draftly_agent_backend.Pages.Tasks.{
  at_task, is_ready, start, claimed, claimable_ids, enqueue_order, claim_ready_tasks, is_open,
  cancel, cancel_pending_tasks,
}
use draftly_agent_backend.Pages.Tasks.Claims.{same_task}
use draftly_agent_backend.Pages.Tasks.Leases.{one_task}

-- No more rows are taken than there are ids.
count_claimed-le :
    (run : String) (ids : List String) (tasks : List WorkflowTask)
    → Unique same_task tasks
    → count_where (claimed run ids) tasks ≤ length ids
count_claimed-le run [] tasks unique =
    omega (arith, count_never (claimed run []) (λ t. ground arith) tasks)
count_claimed-le run (id ∷ ids) tasks unique = omega (
  arith,
  count_imp (claimed run (id ∷ ids)) (λ t. at_task run id t || claimed run ids t)
      (λ t h. ground arith) tasks,
  count_or (at_task run id) (claimed run ids) tasks,
  count_key-le (at_task run id) tasks (one_task run id tasks unique),
  count_claimed-le run ids tasks unique,
)

module _ (collate : String → String → Bool) where
  length-claimable_ids-le :
      (locked : String → Bool) (limit : ℕ) (run : String) (tasks : List WorkflowTask)
      → length (claimable_ids collate locked limit run tasks) ≤ limit
  unfolding claimable_ids
  length-claimable_ids-le locked limit run tasks =
      let sorted =
        sort_by (enqueue_order collate)
          (keep (λ (t : WorkflowTask). is_ready tasks run t && not (locked t.task_id)) tasks) in
      omega (
        arith,
        length-map (λ (t : WorkflowTask). t.task_id) (take limit sorted),
        length-take-le limit sorted,
      )

  -- A claim returns at most `limit` tasks, each running under the claimant's lease until its end.
  pub claim_limit :
      (locked : String → Bool) (now : ℕ) (run owner : String) (lease limit : ℕ) (db : Database)
      → Unique same_task db.tasks
      → let rows = (claim_ready_tasks collate locked now run owner lease limit db).0 in
        (length rows ≤ limit)
        × All
            (λ (t : WorkflowTask).
              (t.run_id ≡ run)
              × (t.status ≡ TaskStatus.running)
              × (t.lease_owner ≡ some owner)
              × (t.lease_expires_at ≡ some (now + lease)))
            rows
  unfolding claim_ready_tasks
  claim_limit locked now run owner lease limit db unique =
      let ids = claimable_ids collate locked limit run db.tasks in
      (
        omega (
          arith,
          length-map (start owner (now + lease)) (keep (claimed run ids) db.tasks),
          length-keep (claimed run ids) db.tasks,
          count_claimed-le run ids db.tasks unique,
          length-claimable_ids-le locked limit run db.tasks,
        ),
        All-map-keep _ (claimed run ids) (start owner (now + lease))
            (λ t h. ground (arith, eq_iff t.run_id run)) db.tasks,
      )

  cancelled_not_ready :
      (locked : String → Bool) (run : String) (all_tasks tasks : List WorkflowTask)
      → any
          (λ (t : WorkflowTask). is_ready all_tasks run t && not (locked t.task_id))
          (update_where (is_open run) cancel tasks)
        ≡ false
  cancelled_not_ready locked run all_tasks tasks =
      any-update_where _ (is_open run) cancel (λ t h. ground arith) (λ t h. ground arith) tasks

  -- After a cancellation nothing of the run can be claimed: a claim returns no task and changes
  -- nothing.
  pub claim-cancel :
      (locked : String → Bool) (now : ℕ) (run owner : String) (lease limit : ℕ) (db : Database)
      → let after = (cancel_pending_tasks run db).1 in
        claim_ready_tasks collate locked now run owner lease limit after ≡ ([], after)
  unfolding claim_ready_tasks claimable_ids cancel_pending_tasks
  claim-cancel locked now run owner lease limit db =
      let left = update_where (is_open run) cancel db.tasks in
      let none_left = cancelled_not_ready locked run left db.tasks in
      let nothing : claimable_ids collate locked limit run left ≡ [] =
        rw (keep_none _ left none_left, take_nil {A = WorkflowTask} limit) in
      let idle = any_never (claimed run []) (λ t. ground arith) left in
      rw (
        nothing,
        keep_none (claimed run []) left idle,
        update_none (claimed run []) (start owner (now + lease)) left idle,
      )

  -- A claim whose limit allows it starts every ready task that no other transaction has locked.
  pub claim_all_ready :
      (locked : String → Bool) (now : ℕ) (run owner : String) (lease limit : ℕ) (db : Database)
      (task_id : String) {t : WorkflowTask}
      → find_row (at_task run task_id) db.tasks ≡ some t
      → is_ready db.tasks run t ≡ true
      → locked t.task_id ≡ false
      → count_where
          (λ (u : WorkflowTask). is_ready db.tasks run u && not (locked u.task_id))
          db.tasks
        ≤ limit
      → find_row
          (at_task run task_id)
          (claim_ready_tasks collate locked now run owner lease limit db).1.tasks
        ≡ some (start owner (now + lease) t)
  unfolding claim_ready_tasks claimable_ids
  claim_all_ready locked now run owner lease limit db task_id {t} found ready free room =
      let candidate = λ (u : WorkflowTask). is_ready db.tasks run u && not (locked u.task_id) in
      let named = λ (u : WorkflowTask). t.task_id == u.task_id in
      let sorted = sort_by (enqueue_order collate) (keep candidate db.tasks) in
      let ids = map (λ (u : WorkflowTask). u.task_id) (take limit sorted) in
      let fits : length sorted ≤ limit = omega (
        arith,
        length-sort_by (enqueue_order collate) (keep candidate db.tasks),
        length-keep candidate db.tasks,
      ) in
      let listed : contains ids t.task_id ≡ true =
        contains-map (λ (u : WorkflowTask). u.task_id) (take limit sorted) t.task_id
        ∙ ap (any named) (take_all limit sorted fits)
        ∙ any-sort_by named (enqueue_order collate) (keep candidate db.tasks)
        ∙ any-keep named candidate db.tasks
        ∙ any_found (at_task run task_id) (λ u. candidate u && named u) db.tasks t found
            (ground (arith, ==_self t.task_id)) in
      let taken : claimed run ids t ≡ true = ground arith in
      rw (
        find_row-update_where (at_task run task_id) (claimed run ids) (start owner (now + lease))
            (λ x. ground arith) db.tasks,
        found,
        taken,
      )

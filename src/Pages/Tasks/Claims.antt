-- ===== src/Pages/Tasks/Claims.antt =====
-- What `claim_ready_tasks` does to each task of a database with unique task keys.
use draftly_agent_backend.Prelude.{
  ℕ, ◌+◌, String, Bool, true, false, ◌&&◌, not, some, ◌≡◌, ◌⊎◌, inl, inr, List, arith, find_row,
  find_row-update_where, find_row_holds, eq_comm, Unique, Unique-row, any, any_imp, any-take,
  any-sort_by, any-keep, contains, contains-map, keep, take, sort_by, eq_iff, nat_eq, string_eq,
  ◌==◌, ==_self, Bool-cases, ◌∙◌, sym,
}
use mathlib.Core.Path.{subst₂}
use draftly_agent_backend.Pages.Rows.{WorkflowTask, Database}
use draftly_agent_backend.Pages.Tasks.{
  at_task, is_ready, start, claimed, claimable_ids, enqueue_order, claim_ready_tasks,
}

abbrev pub same_task : WorkflowTask → WorkflowTask → Bool
same_task t = at_task t.run_id t.task_id

pub same_task_self : (t : WorkflowTask) → same_task t t ≡ true
same_task_self t = ground (arith, ==_self t.run_id, ==_self t.task_id)

pub same_task_comm : (t u : WorkflowTask) → same_task t u ≡ same_task u t
same_task_comm t u = ground (arith, eq_comm u.run_id t.run_id, eq_comm u.task_id t.task_id)

module _ (collate : String → String → Bool) (locked : String → Bool) (limit : ℕ) (run : String)
    (tasks : List WorkflowTask) where
  abbrev candidate : WorkflowTask → Bool
  candidate t = is_ready tasks run t && not (locked t.task_id)

  -- An id that is claimed is the id of a candidate.
  claimable_candidate :
      (id : String)
      → contains (claimable_ids collate locked limit run tasks) id ≡ true
      → any (λ u. candidate u && id == u.task_id) tasks ≡ true
  unfolding claimable_ids
  claimable_candidate id h =
      let order = enqueue_order collate in
      let named = λ (u : WorkflowTask). id == u.task_id in
      sym (any-keep named candidate tasks)
      ∙ sym (any-sort_by named order (keep candidate tasks))
      ∙ any-take named limit (sort_by order (keep candidate tasks)) (
          sym (
            contains-map (λ (t : WorkflowTask). t.task_id)
              (take limit (sort_by order (keep candidate tasks))) id)
          ∙ h)

  -- A row that the claim takes is itself a candidate.
  pub claimed-candidate :
      (t : WorkflowTask)
      → Unique same_task tasks
      → find_row (same_task t) tasks ≡ some t
      → claimed run (claimable_ids collate locked limit run tasks) t ≡ true
      → candidate t ≡ true
  claimed-candidate t unique found taken =
      Unique-row same_task same_task_self same_task_comm candidate tasks t unique found (
        any_imp (λ u. candidate u && t.task_id == u.task_id) (λ u. same_task t u && candidate u)
          (λ u h. ground (
            arith,
            eq_iff u.run_id run,
            eq_iff t.run_id run,
            eq_iff u.run_id t.run_id,
            eq_comm u.task_id t.task_id,
          ))
          tasks (claimable_candidate t.task_id (ground arith)))

-- A row that a key finds is found by its own key.
pub found_key :
    (run task : String) (tasks : List WorkflowTask) (t : WorkflowTask)
    → find_row (at_task run task) tasks ≡ some t
    → find_row (same_task t) tasks ≡ some t
found_key run task tasks t found =
    let keyed = find_row_holds (at_task run task) tasks t found in
    let runs : run ≡ t.run_id = ground (arith, eq_iff t.run_id run) in
    let names : task ≡ t.task_id = ground (arith, eq_iff t.task_id task) in
    subst₂ (λ r n. find_row (at_task r n) tasks ≡ some t) runs names found

module _ (collate : String → String → Bool) where
  -- A claim leaves a task as it was, or it was pending, with every dependency completed and no lock
  -- of another transaction on it, and now runs under the lease of the claimant.
  pub claim_exact :
      (locked : String → Bool) (now : ℕ) (run owner : String) (lease limit : ℕ) (db : Database)
      (run_id task_id : String) {t : WorkflowTask}
      → Unique same_task db.tasks
      → find_row (at_task run_id task_id) db.tasks ≡ some t
      → let after =
          find_row
            (at_task run_id task_id)
            (claim_ready_tasks collate locked now run owner lease limit db).1.tasks in
        (after ≡ some t)
        ⊎ ((after ≡ some (start owner (now + lease) t))
            × (is_ready db.tasks run t ≡ true)
            × (locked t.task_id ≡ false))
  unfolding claim_ready_tasks
  claim_exact locked now run owner lease limit db run_id task_id {t} unique found =
      let ids = claimable_ids collate locked limit run db.tasks in
      let after =
        find_row-update_where (at_task run_id task_id) (claimed run ids) (start owner (now + lease))
          (λ x. ground arith) db.tasks in
      elim (Bool-cases (claimed run ids t)) [
        | inr e ↦ inl (rw (after, found, e))
        | inl e ↦
            let both : (is_ready db.tasks run t && not (locked t.task_id)) ≡ true =
              claimed-candidate collate locked limit run db.tasks t unique
                (found_key run_id task_id db.tasks t found) e in
            inr (rw (after, found, e), ground arith, ground arith)
      ]

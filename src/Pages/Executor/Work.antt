-- ===== src/Pages/Executor/Work.antt =====
-- The measure of the scheduling loop: every pass that claims a task settles it, and a task is
-- settled at most twice.
use draftly_agent_backend.Prelude.{
  ℕ, ◌+◌, ◌≤◌, String, Option, some, Bool, true, false, ◌&&◌, not, ◌≡◌, refl, inl, inr, List, [],
  ◌∷◌, ◌++◌, arith, map, keep, any, All, All-map, contains, update_where, count_where, Bool-cases,
  ◌==◌, ==_self, nat_eq, string_eq, option_eq, if◌then◌else◌, Fields,
}
use draftly_agent_backend.Pages.Rows.{WorkflowTask, is_running}
use draftly_agent_backend.Pages.Tasks.{is_held, is_held_by_other, is_open, finish, recycle}

-- How often a task can still be settled: once more after its infrastructure retry.
abbrev pub settlings : String → WorkflowTask → ℕ
settlings run t = if is_open run t then (if t.infrastructure_retries == 0 then 2 else 1) else 0

-- The settlings that the tasks of a run have left.
abbrev pub work : String → List WorkflowTask → ℕ
work run [] = 0
work run (t ∷ ts) = settlings run t + work run ts

pub work-append :
    (run : String) (ts us : List WorkflowTask) → work run (ts ++ us) ≡ work run ts + work run us
work-append run [] us = omega arith
work-append run (t ∷ ts) us = omega (arith, work-append run ts us)

-- An update that takes one settling from each row it changes.
pub work-update_where :
    (run : String) (test : WorkflowTask → Bool) (f : WorkflowTask → WorkflowTask)
    → ((t : WorkflowTask) → test t ≡ true → settlings run (f t) + 1 ≤ settlings run t)
    → (ts : List WorkflowTask)
    → work run (update_where test f ts) + count_where test ts ≤ work run ts
unfolding update_where count_where
work-update_where run test f less [] = omega arith
work-update_where run test f less (t ∷ ts) = elim (Bool-cases (test t)) [
  | inl e ↦ rw e (omega (arith, less t e, work-update_where run test f less ts))
  | inr e ↦ rw e (omega (arith, work-update_where run test f less ts))
]

-- An update that takes no settling, where that is known of the rows of the table alone.
pub work-update_same :
    (run : String) (test : WorkflowTask → Bool) (f : WorkflowTask → WorkflowTask)
    (ts : List WorkflowTask)
    → All (λ t. test t ≡ true → settlings run (f t) ≡ settlings run t) ts
    → work run (update_where test f ts) ≡ work run ts
unfolding update_where
work-update_same run test f [] h = refl
work-update_same run test f (t ∷ ts) h = elim (Bool-cases (test t)) [
  | inl e ↦ rw e (omega (arith, h.0 e, work-update_same run test f ts h.1))
  | inr e ↦ rw e (omega (arith, work-update_same run test f ts h.1))
]

-- A task that is finished, or that fails once more, has a settling less.
pub settlings-finish :
    (run task owner : String) (output : Option Fields) (t : WorkflowTask)
    → is_held run task owner t ≡ true
    → settlings run (finish output t) + 1 ≤ settlings run t
settlings-finish run task owner output t h = ground arith

pub settlings-recycle :
    (run task owner message : String) (t : WorkflowTask)
    → is_held run task owner t ≡ true
    → settlings run (recycle message t) + 1 ≤ settlings run t
settlings-recycle run task owner message t h = ground arith

-- Running, though not under the lease of `owner` and one of the given ids.
abbrev pub stray : String → String → List String → WorkflowTask → Bool
stray run owner ids t =
    t.run_id == run
    && is_running t.status
    && not (t.lease_owner == some owner && contains ids t.task_id)

abbrev pub NoStray : String → String → List String → List WorkflowTask → Type 0
NoStray run owner ids tasks = All (λ t. stray run owner ids t ≡ false) tasks

pub All-update :
    (P Q : WorkflowTask → Type 0) (test : WorkflowTask → Bool) (f : WorkflowTask → WorkflowTask)
    → ((t : WorkflowTask) → test t ≡ true → P t → Q (f t))
    → ((t : WorkflowTask) → test t ≡ false → P t → Q t)
    → (ts : List WorkflowTask) → All P ts
    → All Q (update_where test f ts)
unfolding update_where
All-update P Q test f changed same [] h = tt
All-update P Q test f changed same (t ∷ ts) h = (
  elim (Bool-cases (test t)) [ inl e ↦ rw e (changed t e h.0) | inr e ↦ rw e (same t e h.0) ],
  All-update P Q test f changed same ts h.1,
)

-- The next task is settled: no row is stray but for the others.
pub stray-update :
    (run owner task : String) (ids : List String) (f : WorkflowTask → WorkflowTask)
    → ((t : WorkflowTask) → is_running (f t).status ≡ false)
    → (ts : List WorkflowTask) → NoStray run owner (task ∷ ids) ts
    → NoStray run owner ids (update_where (is_held run task owner) f ts)
stray-update run owner task ids f stops ts =
    All-update _ (λ t. stray run owner ids t ≡ false) (is_held run task owner) f
      (λ t e h. ground (arith, stops t)) (λ t e h. ground arith) ts

-- A row that is not stray is not held by another.
pub none_other :
    (run owner task : String) (ids : List String) (ts : List WorkflowTask)
    → NoStray run owner ids ts
    → any (is_held_by_other run task owner) ts ≡ false
none_other run owner task ids [] h = refl
none_other run owner task ids (t ∷ ts) h = ground (arith, h.0, none_other run owner task ids ts h.1)

-- The rows of a selection are listed among the ids of the selection.
pub listed :
    (test : WorkflowTask → Bool) (f : WorkflowTask → WorkflowTask)
    → ((t : WorkflowTask) → (f t).task_id ≡ t.task_id)
    → (ts : List WorkflowTask)
    → All
        (λ t.
          test t ≡ true
          → contains (map (λ (u : WorkflowTask). u.task_id) (map f (keep test ts))) t.task_id
            ≡ true)
        ts
listed test f same [] = tt
listed test f same (t ∷ ts) = (
  λ h. rw h (rw (same t, ==_self t.task_id)),
  All-map
      {P = λ u.
        test u ≡ true
        → contains (map (λ (v : WorkflowTask). v.task_id) (map f (keep test ts))) u.task_id ≡ true}
      (λ u h k. elim (Bool-cases (test t)) [
        | inl e ↦ rw e (ground (arith, h k))
        | inr e ↦ rw e (h k)
      ])
      ts (listed test f same ts),
)

-- What an update selects, it has changed in the table.
pub changed_rows :
    (test : WorkflowTask → Bool) (f : WorkflowTask → WorkflowTask)
    (seen : WorkflowTask → WorkflowTask → Bool)
    → ((t : WorkflowTask) → test t ≡ true → seen (f t) (f t) ≡ true)
    → (ts : List WorkflowTask)
    → All (λ t. any (seen t) (update_where test f ts) ≡ true) (map f (keep test ts))
unfolding update_where
changed_rows test f seen own [] = tt
changed_rows test f seen own (t ∷ ts) = elim (Bool-cases (test t)) [
  | inl e ↦ rw e (
    rw (own t e),
    All-map {P = λ u. any (seen u) (update_where test f ts) ≡ true} (λ u h. ground (arith, h))
        (map f (keep test ts)) (changed_rows test f seen own ts),
  )
  | inr e ↦ rw e (
      All-map {P = λ u. any (seen u) (update_where test f ts) ≡ true} (λ u h. ground (arith, h))
        (map f (keep test ts)) (changed_rows test f seen own ts))
]

pub any_counts :
    (test : WorkflowTask → Bool) (ts : List WorkflowTask)
    → any test ts ≡ true
    → 1 ≤ count_where test ts
unfolding count_where
any_counts test [] h = absurd (ground arith)
any_counts test (t ∷ ts) h = elim (Bool-cases (test t)) [
  | inl e ↦ rw e (omega arith)
  | inr e ↦ rw e (any_counts test ts (rw e at h))
]

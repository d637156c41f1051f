-- ===== src/Pages/Handlers/Writer.antt =====
-- The budget of writer invocations of `PageWriterHandler`: `_spend_attempt` and the loop
-- `_invoke_writer`. The table of attempts is the handler's, which its concurrent writers share. What
-- an invocation of the agent does, and what other writers charge during it, is the environment's.
use mathlib.Core.Path.{subst}
use draftly_agent_backend.Prelude.{
  ℕ, suc, ◌+◌, ◌≤◌, ◌<◌, String, Bool, true, false, ◌≡◌, ◌≢◌, ◌-◌, refl, sym, ap, ◌∙◌, inl, inr,
  List, [], ◌∷◌, length, arith, Bool-cases, ◌==◌, ==_self, string_eq, ltb, if◌then◌else◌,
}

-- `_attempts`: the invocations that were spent on each task.
abbrev pub Attempts : Type 0
Attempts = List (String × ℕ)

-- `self._attempts.get(task_id, 0)`
abbrev pub spent_on : String → Attempts → ℕ
spent_on task [] = 0
spent_on task ((k, n) ∷ rest) = if k == task then n else spent_on task rest

-- `self._attempts[task_id] = spent`
abbrev pub set_spent : String → ℕ → Attempts → Attempts
set_spent task n [] = (task, n) ∷ []
set_spent task n ((k, m) ∷ rest) =
    let more = set_spent task n rest in if k == task then (k, n) ∷ rest else (k, m) ∷ more

-- What an invocation of the agent does: it ends, its output is cut off, or it raises otherwise.
pub data Invocation : Type 0 where
  completed truncated raised : Invocation

-- An awaited invocation, and the tasks that other writers charge while it runs.
pub record Awaited : Type 0 where
  pub ends : Invocation
  pub charged : List String

-- How the loop ends; `ongoing` is a loop that was followed for the given invocations and goes on.
pub data Ending : Type 0 where
  returned failed exhausted ongoing : Ending

module _ (max_write_attempts max_tracked_tasks : ℕ) where
  -- `_spend_attempt`: whether it raises, and the table after.
  unfoldable pub spend_attempt : String → Attempts → Bool × Attempts
  spend_attempt task table =
      let kept = if ltb max_tracked_tasks (length table) then [] else table in
      let spent = spent_on task kept + 1 in
      (ltb max_write_attempts spent, set_spent task spent kept)

  -- The table after other writers have charged these tasks, in this order.
  unfoldable pub charge_all : List String → Attempts → Attempts
  unfolding spend_attempt
  charge_all [] table = table
  charge_all (other ∷ others) table = charge_all others (spend_attempt other table).1

  -- What a step of the loop does, by the invocation and the rest of the loop.
  abbrev pub after_invocation : Invocation → Ending × ℕ → Ending × ℕ
  after_invocation completed rest = (returned, 1)
  after_invocation raised rest = (failed, 1)
  after_invocation truncated (ending, n) = (ending, suc n)

  -- `_invoke_writer`: how it ends, and how often it invoked the agent.
  unfoldable pub invoke_writer : String → List Awaited → Attempts → Ending × ℕ
  unfolding spend_attempt charge_all
  invoke_writer task [] table = (ongoing, 0)
  invoke_writer task (i ∷ is) table =
      let (over, after) = spend_attempt task table in
      let rest = invoke_writer task is (charge_all i.charged after) in
      if over then (exhausted, 0) else after_invocation i.ends rest

-- The charges of a loop that goes through all its invocations, its own and those of other writers.
abbrev pub charges : List Awaited → ℕ
charges [] = 0
charges (i ∷ is) = suc (length i.charged) + charges is

spent-set_spent :
    (task : String) (n : ℕ) (table : Attempts) → spent_on task (set_spent task n table) ≡ n
spent-set_spent task n [] = rw (==_self task) refl
spent-set_spent task n ((k, m) ∷ rest) = elim (Bool-cases (k == task)) [
  | inl e ↦ rw (e, e) refl
  | inr e ↦ rw (e, e) (spent-set_spent task n rest)
]

spent-set_other :
    (task other : String) (n : ℕ) (table : Attempts)
    → (other == task) ≡ false
    → spent_on task (set_spent other n table) ≡ spent_on task table
spent-set_other task other n [] h = rw h refl
spent-set_other task other n ((k, m) ∷ rest) h = elim (Bool-cases (k == other)) [
  | inl e ↦
      let apart : (k == task) ≡ false =
        ap (λ (s : String). s == task) ((string_eq.equals_iff k other).0 e) ∙ h in
      rw e (rw apart refl)
  | inr e ↦
      rw e
        (ap (λ (spent : ℕ). if k == task then m else spent) (spent-set_other task other n rest h))
]

length-set_spent-le :
    (task : String) (n : ℕ) (table : Attempts) → length (set_spent task n table) ≤ length table + 1
length-set_spent-le task n [] = omega arith
length-set_spent-le task n ((k, x) ∷ rest) = elim (Bool-cases (k == task)) [
  | inl e ↦ rw e (omega arith)
  | inr e ↦ rw e (omega (arith, length-set_spent-le task n rest))
]

-- A charge never lowers what was spent on a task.
spent-charged-le :
    (task other : String) (table : Attempts)
    → spent_on task table ≤ spent_on task (set_spent other (spent_on other table + 1) table)
spent-charged-le task other table = elim (Bool-cases (other == task)) [
  | inl e ↦
      let same = (string_eq.equals_iff other task).0 e in
      subst
        (λ (o : String).
          spent_on task table ≤ spent_on task (set_spent o (spent_on o table + 1) table))
        (sym same) (omega (arith, spent-set_spent task (spent_on task table + 1) table))
  | inr e ↦ omega (arith, spent-set_other task other (spent_on other table + 1) table e)
]

module _ (budget tracked : ℕ) where
  -- With room, an attempt is counted and nothing is forgotten.
  spend_lem :
      (task : String) (table : Attempts)
      → length table ≤ tracked
      → spend_attempt budget tracked task table
        ≡ (ltb budget (spent_on task table + 1), set_spent task (spent_on task table + 1) table)
  unfolding spend_attempt
  spend_lem task table room = rw (kept (ltb tracked (length table)) (ground (arith, room))) refl
    where
      kept : (b : Bool) → b ≡ false → (if b then [] else table) ≡ table
      kept b e = rw e refl

  -- Other writers, with room, forget nothing.
  charge_all-keeps :
      (task : String) (others : List String) (table : Attempts)
      → length table + length others ≤ suc tracked
      → (spent_on task table ≤ spent_on task (charge_all budget tracked others table))
        × (length (charge_all budget tracked others table) ≤ length table + length others)
  unfolding charge_all
  charge_all-keeps task [] table room = (omega arith, omega arith)
  charge_all-keeps task (other ∷ others) table room =
      let charged = set_spent other (spent_on other table + 1) table in
      let grown = length-set_spent-le other (spent_on other table + 1) table in
      let (more, longer) = charge_all-keeps task others charged (omega (arith, room, grown)) in
      subst
        (λ (next : Attempts).
          (spent_on task table ≤ spent_on task (charge_all budget tracked others next))
          × (length (charge_all budget tracked others next) ≤ length table + suc (length others)))
        (sym (ap (λ (r : Bool × Attempts). r.1) (spend_lem other table (omega (arith, room)))))
        (omega (arith, more, spent-charged-le task other table), omega (arith, longer, grown))

  module _ (task : String) where
    -- A step of the loop, with room.
    step_lem :
        (i : Awaited) (is : List Awaited) (table : Attempts)
        → length table ≤ tracked
        → let after = set_spent task (spent_on task table + 1) table in
          invoke_writer budget tracked task (i ∷ is) table ≡ (
            if ltb budget (spent_on task table + 1)
            then (exhausted, 0)
            else after_invocation budget tracked i.ends
                (invoke_writer budget tracked task is (charge_all budget tracked i.charged after)))
    unfolding invoke_writer
    step_lem i is table room =
        ap
          (λ (r : Bool × Attempts).
            if r.0
            then (exhausted, 0)
            else after_invocation budget tracked i.ends
                (invoke_writer budget tracked task is (charge_all budget tracked i.charged r.1)))
          (spend_lem task table room)

    -- Within what is left of the budget, and over after as many invocations.
    abbrev Bounded : List Awaited → ℕ → Ending × ℕ → Type 0
    Bounded is spent (ending, n) =
        (n ≤ budget - spent) × (budget - spent < length is → ending ≢ ongoing)

    step-Bounded :
        (over : Bool) (ends : Invocation) (i : Awaited) (is : List Awaited) (spent later : ℕ)
        → over ≡ ltb budget (spent + 1)
        → spent + 1 ≤ later
        → (rest : Ending × ℕ) → Bounded is later rest
        → Bounded
            (i ∷ is)
            spent
            (if over then (exhausted, 0) else after_invocation budget tracked ends rest)
    step-Bounded true ends i is spent later e more rest h = (ground arith, λ _. ground arith)
    step-Bounded false completed i is spent later e more rest h =
        (ground (arith, e), λ _. ground arith)
    step-Bounded false raised i is spent later e more rest h =
        (ground (arith, e), λ _. ground arith)
    step-Bounded false truncated i is spent later e more (ending, n) (bound, ends) =
        (ground (arith, e, bound, more), λ enough. ends (ground (arith, e, more, enough)))

    -- The loop keeps to its bounds.
    invoke_writer-Bounded :
        (is : List Awaited) (table : Attempts)
        → length table + charges is ≤ suc tracked
        → Bounded is (spent_on task table) (invoke_writer budget tracked task is table)
    unfolding invoke_writer
    invoke_writer-Bounded [] table room = (omega arith, λ h. absurd (omega (arith, h)))
    invoke_writer-Bounded (i ∷ is) table room =
        let after = set_spent task (spent_on task table + 1) table in
        let grown = length-set_spent-le task (spent_on task table + 1) table in
        let next = charge_all budget tracked i.charged after in
        let (kept, longer) = charge_all-keeps task i.charged after (omega (arith, room, grown)) in
        subst (Bounded (i ∷ is) (spent_on task table))
          (sym (step_lem i is table (omega (arith, room))))
          (step-Bounded (ltb budget (spent_on task table + 1)) i.ends i is (spent_on task table)
            (spent_on task next) refl
            (omega (arith, kept, spent-set_spent task (spent_on task table + 1) table))
            (invoke_writer budget tracked task is next)
            (invoke_writer-Bounded is next (omega (arith, room, grown, longer))))

    -- Where the table has room for all charges, also for those of the handler's other writers during
    -- the invocations, a writer that would go on for more invocations than its budget has left after
    -- what was spent on the task before is invoked no more often than that, and the loop ends.
    pub invoke_writer-ends :
        (is : List Awaited) (table : Attempts)
        → length table + charges is ≤ suc tracked
        → budget - spent_on task table < length is
        → let (ending, n) = invoke_writer budget tracked task is table in
          (n ≤ budget - spent_on task table) × (ending ≢ ongoing)
    invoke_writer-ends is table room more =
        let (bound, ends) = invoke_writer-Bounded is table room in (bound, ends more)

-- ===== src/Steering/Guards/Research.antt =====
-- `ResearchBudgetGuard` of src/draftly/steering/research_budget_guard.py.
use draftly_agent_backend.Prelude.{
  ℕ, suc, ◌+◌, String, Bool, true, false, ◌&&◌, ◌||◌, Option, none, some, List, [], ◌∷◌, contains,
  ◌==◌, nat_eq, string_eq, ltb, if◌then◌else◌, Bool-cases, inl, inr, ◌≡◌, refl, ap, ◌∙◌, ◌≤◌, arith,
}
use draftly_agent_backend.Steering.Guards.{Action, proceed, guide, deny}

pub record Guard : Type 0 where
  pub max_tool_calls : ℕ
  pub max_repeats : ℕ
  pub calls : ℕ
  pub repeats : ℕ
  pub last_signature : Option (String × String)
  pub searched : List String
  pub guided : Bool

-- `__init__`
abbrev pub new : ℕ → ℕ → Guard
new max_tool_calls max_repeats = record {
  max_tool_calls = max_tool_calls;
  max_repeats = max_repeats;
  calls = 0;
  repeats = 0;
  last_signature = none;
  searched = [];
  guided = false;
}

-- `before_invocation`, with `_reset`
abbrev pub before_invocation : Guard → Action × Guard
before_invocation g = (proceed, new g.max_tool_calls g.max_repeats)

abbrev pub same_signature : Option (String × String) → String → String → Bool
same_signature none name input = false
same_signature (some (n, i)) name input = n == name && i == input

-- `self._searched.add(name)`
abbrev pub add_name : String → List String → List String
add_name name names = if contains names name then names else name ∷ names

abbrev pub synthesis_feedback : String
synthesis_feedback =
    "Research budget reached. Stop calling tools. Using only the evidence already gathered, produce your final coverage/gap synthesis now."

-- The state after a call that is counted.
abbrev pub count_call : String → String → Guard → Guard
count_call name input g = record g {
  repeats = if same_signature g.last_signature name input then g.repeats + 1 else 1;
  last_signature = some (name, input);
  calls = g.calls + 1;
  searched = add_name name g.searched;
}

abbrev pub is_over : Guard → Bool
is_over g = ltb g.max_repeats g.repeats || ltb g.max_tool_calls g.calls

-- `before_tool_call`, on a name and the JSON text of the input.
unfoldable pub before_tool_call : String → String → Guard → Action × Guard
before_tool_call name input g =
    if g.guided
    then (if contains g.searched name
        then (deny "research budget exhausted", g)
        else (proceed, record g { searched = add_name name g.searched }))
    else (let after = count_call name input g in
        if is_over after
        then (guide synthesis_feedback, record after { guided = true })
        else (proceed, after))

-- The calls that a sequence of tool calls lets through.
abbrev pub passes : Action → ℕ
passes proceed = 1
passes (guide feedback) = 0
passes (deny reason) = 0

abbrev pub allowed : List (String × String) → Guard → ℕ
allowed [] g = 0
allowed ((name, input) ∷ rest) g =
    let (action, after) = before_tool_call name input g in passes action + allowed rest after

-- The tools that are called for the first time.
abbrev pub new_names : List String → List (String × String) → ℕ
new_names seen [] = 0
new_names seen ((name, input) ∷ rest) =
    let more = new_names (add_name name seen) rest in if contains seen name then more else suc more

new_names_first :
    (name input : String) (seen : List String) (rest : List (String × String))
    → new_names (add_name name seen) rest ≤ new_names seen ((name, input) ∷ rest)
new_names_first name input seen rest = elim (Bool-cases (contains seen name)) [
  | inl e ↦ rw e (omega arith)
  | inr e ↦ rw e (omega arith)
]

new_names_known :
    (name input : String) (seen : List String) (rest : List (String × String))
    → contains seen name ≡ true
    → new_names seen ((name, input) ∷ rest) ≡ new_names seen rest
new_names_known name input seen rest e = rw e refl

new_names_new :
    (name input : String) (seen : List String) (rest : List (String × String))
    → contains seen name ≡ false
    → new_names seen ((name, input) ∷ rest) ≡ suc (new_names (name ∷ seen) rest)
new_names_new name input seen rest e = rw e refl

if_true : {A : Type 0} {b : Bool} {x : A} (y : A) → b ≡ true → (if b then x else y) ≡ x
if_true y h = rw h refl

if_false : {A : Type 0} {b : Bool} (x : A) {y : A} → b ≡ false → (if b then x else y) ≡ y
if_false x h = rw h refl

-- After its synthesis request a guard lets a tool through only when it is new, and before that it
-- counts every call.
allowed_left :
    (calls : List (String × String)) (g : Guard)
    → (g.guided ≡ true → allowed calls g ≤ new_names g.searched calls)
      × (g.guided ≡ false
          → g.calls ≤ g.max_tool_calls
          → allowed calls g + g.calls ≤ g.max_tool_calls + new_names g.searched calls)
unfolding before_tool_call
allowed_left [] g = (λ h. omega arith, λ h k. omega (arith, k))
allowed_left ((name, input) ∷ rest) g =
    let after = count_call name input g in
    let first = new_names_first name input g.searched rest in
    let count = λ (q : Action × Guard). passes q.0 + allowed rest q.1 in
    (
      λ h. elim (Bool-cases (contains g.searched name)) [
        | inl e ↦
            let step : before_tool_call name input g ≡ (deny "research budget exhausted", g) =
              if_true _ h ∙ if_true _ e in
            omega (
              arith,
              ap count step,
              new_names_known name input g.searched rest e,
              (allowed_left rest g).0 h,
            )
        | inr e ↦
            let grown = record g { searched = name ∷ g.searched } in
            let step : before_tool_call name input g ≡ (proceed, grown) =
              if_true _ h
              ∙ if_false _ e
              ∙ ap (λ ns. (proceed, record g { searched = ns })) (if_false _ e) in
            omega (
              arith,
              ap count step,
              new_names_new name input g.searched rest e,
              (allowed_left rest grown).0 h,
            )
      ],
      λ h k. elim (Bool-cases (is_over after)) [
        | inl e ↦
            let closed = record after { guided = true } in
            let step : before_tool_call name input g ≡ (guide synthesis_feedback, closed) =
              if_false _ h ∙ if_true _ e in
            omega (arith, ap count step, k, (allowed_left rest closed).0 refl, first)
        | inr e ↦
            let step : before_tool_call name input g ≡ (proceed, after) =
              if_false _ h ∙ if_false _ e in
            omega (arith, ap count step, (allowed_left rest after).1 h (ground arith), first)
      ],
    )

-- In an invocation, any tool calls that pass the guard are at most its number of calls and one for
-- each tool that is called.
pub research_bounded :
    (g : Guard) (calls : List (String × String))
    → allowed calls (before_invocation g).1 ≤ g.max_tool_calls + new_names [] calls
research_bounded g calls =
    omega (arith, (allowed_left calls (before_invocation g).1).1 refl (omega arith))

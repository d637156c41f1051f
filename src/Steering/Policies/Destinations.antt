-- ===== src/Steering/Policies/Destinations.antt =====
-- Where a side-effect call may go: what the check of its destination, its project and its paths lets
-- through, in the terms of the call's own fields.
use draftly_agent_backend.Prelude.{
  String, append_str, ends_with, true, false, ◌≡◌, refl, ap, ◌⊎◌, inl, inr, Option, none, some,
  ◌++◌, contains, ◌==◌, string_eq, Json, null, bool, int, number, str, array, object, Fields,
  get_field, arith, Bool-cases, is_given, is_text,
}
use draftly_agent_backend.Steering.Policies.{RolePolicy}
use draftly_agent_backend.Steering.Policies.Runtime.{RuntimeScope, Failure, looks_like_repo}
use draftly_agent_backend.Steering.Policies.Checks.{
  is_other_project, is_other_repo, destination_of, scope_failed,
}

-- The value that a call names as its destination: the first that is given of three fields, or the
-- last of them.
abbrev pub IsNamed : Fields → Option Json → Type 0
IsNamed call v =
    ((is_given (get_field "destination" call) ≡ true) × (v ≡ get_field "destination" call))
    ⊎ ((is_given (get_field "destination" call) ≡ false)
        × (is_given (get_field "repo" call) ≡ true)
        × (v ≡ get_field "repo" call))
    ⊎ ((is_given (get_field "destination" call) ≡ false)
        × (is_given (get_field "repo" call) ≡ false)
        × (v ≡ get_field "channel" call))

-- A text that looks like a repository is the run's, or it has any owner and the run's project.
abbrev pub IsAuthorized : RuntimeScope → Option Json → Type 0
IsAuthorized scope (some (str s)) =
    (looks_like_repo s ≡ false)
    ⊎ (s ≡ append_str scope.org_id (append_str "/" scope.project_id))
    ⊎ (ends_with s (append_str "/" scope.project_id) ≡ true)
IsAuthorized scope _ = Unit {0}

pub destination-IsNamed : (call : Fields) → IsNamed call (destination_of call)
destination-IsNamed call = elim (Bool-cases (is_given (get_field "destination" call))) [
  | inl e ↦ inl (e, rw (e, e) refl)
  | inr e ↦ elim (Bool-cases (is_given (get_field "repo" call))) [
    | inl k ↦ inr (inl (e, k, rw (e, k) refl))
    | inr k ↦ inr (inr (e, k, rw (e, k) refl))
  ]
]

pub destination-IsAuthorized :
    (scope : RuntimeScope) (v : Option Json) → is_other_repo scope v ≡ false → IsAuthorized scope v
unfolding is_other_repo
destination-IsAuthorized scope none h = tt
destination-IsAuthorized scope (some null) h = tt
destination-IsAuthorized scope (some (bool b)) h = tt
destination-IsAuthorized scope (some (int n)) h = tt
destination-IsAuthorized scope (some (number n)) h = tt
destination-IsAuthorized scope (some (array xs)) h = tt
destination-IsAuthorized scope (some (object fields)) h = tt
destination-IsAuthorized scope (some (str s)) h =
    let whole = append_str scope.org_id (append_str "/" scope.project_id) in
    elim (Bool-cases (looks_like_repo s)) [
      | inr e ↦ inl e
      | inl e ↦ elim (Bool-cases (s == whole)) [
        | inl k ↦ inr (inl ((string_eq.equals_iff s whole).0 k))
        | inr k ↦ inr (inr (ground (arith, rw (e, k) at h)))
      ]
    ]

-- No project is given, or it is the run's.
abbrev pub IsOwnProject : RuntimeScope → Option Json → Type 0
IsOwnProject scope v = (is_given v ≡ false) ⊎ (v ≡ some (str scope.project_id))

text_lem : (text : String) (v : Option Json) → is_text text v ≡ true → v ≡ some (str text)
text_lem text (some (str s)) h =
    ap (λ (t : String). some (str t)) ((string_eq.equals_iff s text).0 h)
text_lem text none h = absurd (ground arith)
text_lem text (some null) h = absurd (ground arith)
text_lem text (some (bool b)) h = absurd (ground arith)
text_lem text (some (int n)) h = absurd (ground arith)
text_lem text (some (number n)) h = absurd (ground arith)
text_lem text (some (array xs)) h = absurd (ground arith)
text_lem text (some (object fields)) h = absurd (ground arith)

pub project-IsOwnProject :
    (scope : RuntimeScope) (call : Fields)
    → is_other_project scope call ≡ false
    → IsOwnProject scope (get_field "destination_project" call)
project-IsOwnProject scope call h =
    elim (Bool-cases (is_given (get_field "destination_project" call))) [
      | inr e ↦ inl e
      | inl e ↦ inr (
          text_lem scope.project_id (get_field "destination_project" call)
            (ground (arith, rw e at h)))
    ]

-- A failure of the paths stops the tools that write or have side effects, and no tool that only
-- delivers.
pub paths_lem :
    (p : RolePolicy) (tool : String) (failure : Option Failure)
    → scope_failed p tool failure ≡ none
    → (failure ≡ none) ⊎ (contains (p.write_tools ++ p.side_effect_tools) tool ≡ false)
paths_lem p tool none h = inl refl
paths_lem p tool (some (rule, reason)) h =
    elim (Bool-cases (contains (p.write_tools ++ p.side_effect_tools) tool)) [
      | inr e ↦ inr e
      | inl e ↦ absurd (ground (arith, rw e at h))
    ]

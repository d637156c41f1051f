-- ===== src/Steering/Refinement.antt =====
-- The counters of guides as a map from keys to numbers: what `SteeringAttemptsRepository` promises,
-- without the rows of the table and their order.
use Prim.Native.Nat.{max}
use mathlib.Core.Path.{subst, fun_ext}
use draftly_agent_backend.Prelude.{
  ℕ, ◌+◌, ◌≤◌, Option, none, some, Bool, true, false, ◌≡◌, refl, sym, ap, ◌∙◌, inl, inr, List, All,
  All-append, All-update_where, All-find_row, arith, find_row, Bool-cases, nat_eq, string_eq, ltb,
  if◌then◌else◌,
}
use draftly_agent_backend.Steering.Attempts.{
  AttemptKey, Attempt, same_key, at_key, count_up, upsert, reserve, or_back, and_then,
  reserve_with_total,
}
use draftly_agent_backend.Steering.Budgets.{
  spent, spent_other, same_key-equal, same_key_self, reserve_outcome,
}

-- The guides that were given under each key.
abbrev pub Counters : Type 0
Counters = AttemptKey → ℕ

-- One guide more under a key.
abbrev pub counted : AttemptKey → Counters → Counters
counted key counters other = if same_key key other then counters other + 1 else counters other

-- A reservation of the specification: within the limit, or the first under its key.
abbrev pub grant : AttemptKey → ℕ → Counters → Bool × Counters
grant key limit counters =
    if ltb (counters key) (max 1 limit) then (true, counted key counters) else (false, counters)

abbrev pub then_grant : Counters → AttemptKey → ℕ → Bool × Counters → Bool × Counters
then_grant before key limit (false, counters) = (false, before)
then_grant before key limit (true, counters) =
    let (granted, after) = grant key limit counters in
    if granted then (true, after) else (false, before)

-- Two reservations of the specification, or none.
abbrev pub grant_both : AttemptKey → ℕ → AttemptKey → ℕ → Counters → Bool × Counters
grant_both key limit total_key total_limit counters =
    then_grant counters total_key total_limit (grant key limit counters)

-- The view of a table.
abbrev pub view : List Attempt → Counters
view rows key = spent key rows

abbrev pub view_of : Bool × List Attempt → Bool × Counters
view_of (granted, rows) = (granted, view rows)

-- Every row counts a guide.
abbrev pub IsCounting : List Attempt → Type 0
IsCounting rows = All (λ (a : Attempt). 1 ≤ a.guide_count) rows

-- When a reservation is granted.
reserve_decides :
    (key : AttemptKey) (limit : ℕ) (rows : List Attempt)
    → IsCounting rows
    → (reserve key limit rows).0 ≡ ltb (spent key rows) (max 1 limit)
unfolding reserve
reserve_decides key limit rows counting = go (find_row (at_key key) rows) refl
  where
    go :
        (o : Option Attempt)
        → find_row (at_key key) rows ≡ o
        → (upsert key limit rows o).0 ≡ ltb (spent key rows) (max 1 limit)
    go none e = rw e (ground arith)
    go (some a) e =
        let one : 1 ≤ a.guide_count =
          All-find_row (λ (b : Attempt). 1 ≤ b.guide_count) (at_key key) rows a counting e in
        rw e (elim (Bool-cases (ltb a.guide_count limit)) [
          | inl room ↦ rw room (ground (arith, room, one))
          | inr full ↦ rw full (ground (arith, full, one))
        ])

reserve-IsCounting :
    (key : AttemptKey) (limit : ℕ) (rows : List Attempt)
    → IsCounting rows
    → IsCounting (reserve key limit rows).1
unfolding reserve
reserve-IsCounting key limit rows counting = go (find_row (at_key key) rows)
  where
    go : (o : Option Attempt) → IsCounting (upsert key limit rows o).1
    go none = All-append (λ (b : Attempt). 1 ≤ b.guide_count) rows _ counting (omega arith, tt)
    go (some a) = elim (Bool-cases (ltb a.guide_count limit)) [
      | inr full ↦ rw full counting
      | inl room ↦ rw room (
          All-update_where (λ (b : Attempt). 1 ≤ b.guide_count) (at_key key) count_up
            (λ x e h. omega (arith, h)) rows counting)
    ]

-- The view after a reservation.
reserve_counts :
    (key : AttemptKey) (limit : ℕ) (rows : List Attempt) (other : AttemptKey)
    → spent other (reserve key limit rows).1
      ≡ (if (reserve key limit rows).0 then counted key (view rows) other else spent other rows)
reserve_counts key limit rows other = elim (Bool-cases (same_key key other)) [
  | inl e ↦
      subst
        (λ k.
          spent k (reserve key limit rows).1
          ≡ (if (reserve key limit rows).0 then counted key (view rows) k else spent k rows))
        (same_key-equal key other e) (rw (same_key_self key) (reserve_outcome key limit rows).0)
  | inr e ↦
      rw (e, spent_other key other limit rows e)
        (elim (Bool-cases (reserve key limit rows).0) [ inl g ↦ rw g refl | inr g ↦ rw g refl ])
]

both_equal : {a b : Bool} {f g : Counters} → a ≡ b → f ≡ g → ◌≡◌ {A = Bool × Counters} (a, f) (b, g)
both_equal e h = rw (e, h) refl

reserve-grant :
    (key : AttemptKey) (limit : ℕ) (rows : List Attempt)
    → IsCounting rows
    → view_of (reserve key limit rows) ≡ grant key limit (view rows)
reserve-grant key limit rows counting =
    let decides = reserve_decides key limit rows counting in
    elim (Bool-cases (reserve key limit rows).0) [
      | inl g ↦
          let granted : ltb (spent key rows) (max 1 limit) ≡ true = sym decides ∙ g in
          both_equal g (fun_ext (λ other. rw g at (reserve_counts key limit rows other)))
          ∙ sym (rw granted refl)
      | inr g ↦
          let denied : ltb (spent key rows) (max 1 limit) ≡ false = sym decides ∙ g in
          both_equal g (fun_ext (λ other. rw g at (reserve_counts key limit rows other)))
          ∙ sym (rw denied refl)
    ]

-- Both reservations of the specification follow those of the table.
then_grant-view :
    (rows : List Attempt) (key : AttemptKey) (limit : ℕ) (first : Bool × List Attempt)
    → IsCounting first.1
    → view_of (or_back rows (and_then first (reserve key limit)))
      ≡ then_grant (view rows) key limit (view_of first)
then_grant-view rows key limit (false, after) counting = refl
then_grant-view rows key limit (true, after) counting =
    backed (reserve key limit after) ∙ ap settle (reserve-grant key limit after counting)
  where
    settle : Bool × Counters → Bool × Counters
    settle (granted, counters) = if granted then (true, counters) else (false, view rows)

    backed : (q : Bool × List Attempt) → view_of (or_back rows q) ≡ settle (view_of q)
    backed (true, last) = refl
    backed (false, last) = refl

-- On a table whose rows count a guide each, a reservation of two counters does to the counts of all
-- keys what the specification does: one guide more under both keys, where each has fewer than its
-- limit or none, and else nothing. The rows after count a guide each.
pub reserve_with_total-refines :
    (key : AttemptKey) (limit : ℕ) (total_key : AttemptKey) (total_limit : ℕ) (rows : List Attempt)
    → IsCounting rows
    → (view_of (reserve_with_total key limit total_key total_limit rows)
        ≡ grant_both key limit total_key total_limit (view rows))
      × IsCounting (reserve_with_total key limit total_key total_limit rows).1
unfolding reserve_with_total
reserve_with_total-refines key limit total_key total_limit rows counting = (
  then_grant-view rows total_key total_limit (reserve key limit rows)
        (reserve-IsCounting key limit rows counting)
      ∙ ap (then_grant (view rows) total_key total_limit) (reserve-grant key limit rows counting),
  kept (reserve key limit rows) (reserve-IsCounting key limit rows counting),
)
  where
    kept :
        (first : Bool × List Attempt)
        → IsCounting first.1
        → IsCounting (or_back rows (and_then first (reserve total_key total_limit))).1
    kept (false, after) h = counting
    kept (true, after) h =
        back (reserve total_key total_limit after)
          (reserve-IsCounting total_key total_limit after h)
      where
        back : (q : Bool × List Attempt) → IsCounting q.1 → IsCounting (or_back rows q).1
        back (true, last) k = k
        back (false, last) k = counting

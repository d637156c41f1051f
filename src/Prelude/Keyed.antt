-- ===== src/Prelude/Keyed.antt =====
-- Statements that name one key: they see at most one row, so what they count, find and change is
-- decided by that row.
use Prim.Native.Nat.{◌≤◌}
use mathlib.Core.Path.{◌≡◌, refl, subst, fun_ext}
use mathlib.Core.Logic.{inl, inr}
use mathlib.Core.Bool.{Bool, true, false, ◌&&◌}
use mathlib.Core.Option.{none, some}
use mathlib.Core.List.{List, [], ◌∷◌}
use native.Mathlib.Omega.{arith}
use draftly_agent_backend.Prelude.Tests.{if◌then◌else◌, Bool-cases}
use draftly_agent_backend.Prelude.Lists.{any}
use draftly_agent_backend.Prelude.Tables.{find_row, update_where, count_where}
use draftly_agent_backend.Prelude.Evolution.{Unique}
use draftly_agent_backend.Prelude.Keys.{any-none}

-- At most one row has the key.
abbrev pub OneKey {ℓ} : {A : Type ℓ} → (A → Bool) → List A → Type ℓ
OneKey key [] = Unit
OneKey key (x ∷ xs) = (key x ≡ true → find_row key xs ≡ none) × OneKey key xs

module _ {ℓ} {A : Type ℓ} where
  pub Unique-OneKey :
      (same : A → A → Bool) (key : A → Bool)
      → ((x y : A) → key x ≡ true → same x y ≡ key y)
      → (xs : List A) → Unique same xs
      → OneKey key xs
  Unique-OneKey same key agree [] h = tt
  Unique-OneKey same key agree (x ∷ xs) h = (
    (λ k. subst (λ test. find_row test xs ≡ none) (fun_ext (λ y. agree x y k)) h.0),
    Unique-OneKey same key agree xs h.1,
  )

-- Changing nothing anywhere.
pub update_where-none {ℓ} :
    {A : Type ℓ} (test : A → Bool) (f : A → A) (xs : List A)
    → find_row test xs ≡ none
    → update_where test f xs ≡ xs
unfolding find_row update_where
update_where-none test f [] h = refl
update_where-none test f (x ∷ xs) h = ground (arith, update_where-none test f xs)

pub count_none {ℓ} :
    {A : Type ℓ} (test : A → Bool) (xs : List A) → find_row test xs ≡ none → count_where test xs ≡ 0
unfolding find_row count_where
count_none test [] h = refl
count_none test (x ∷ xs) h = ground (arith, count_none test xs)

module _ {ℓ} {A : Type ℓ} (key other : A → Bool) where
  abbrev both : A → Bool
  both x = key x && other x

  pub count_absent : (xs : List A) → find_row key xs ≡ none → count_where both xs ≡ 0
  unfolding find_row count_where
  count_absent [] h = refl
  count_absent (x ∷ xs) h = ground (arith, count_absent xs)

  pub find_absent : (xs : List A) → find_row key xs ≡ none → find_row both xs ≡ none
  unfolding find_row
  find_absent [] h = refl
  find_absent (x ∷ xs) h = ground (arith, find_absent xs)

  pub update_absent :
      (f : A → A) (xs : List A) → find_row key xs ≡ none → update_where both f xs ≡ xs
  unfolding find_row update_where
  update_absent f [] h = refl
  update_absent f (x ∷ xs) h = ground (arith, update_absent f xs)

  pub count_keyed :
      (xs : List A) (t : A)
      → OneKey key xs
      → find_row key xs ≡ some t
      → count_where both xs ≡ (if other t then 1 else 0)
  unfolding find_row count_where
  count_keyed [] t one h = ground arith
  count_keyed (x ∷ xs) t one h = elim (Bool-cases (key x)) [
    | inl k ↦ ground (arith, count_absent xs (one.0 k))
    | inr k ↦ ground (arith, count_keyed xs t one.1 (rw k at h))
  ]

  pub find_keyed :
      (xs : List A) (t : A)
      → OneKey key xs
      → find_row key xs ≡ some t
      → find_row both xs ≡ (if other t then some t else none)
  unfolding find_row
  find_keyed [] t one h = ground arith
  find_keyed (x ∷ xs) t one h = elim (Bool-cases (key x)) [
    | inl k ↦ ground (arith, find_absent xs (one.0 k))
    | inr k ↦ ground (arith, find_keyed xs t one.1 (rw k at h))
  ]

  pub any_keyed :
      (xs : List A) (t : A) → OneKey key xs → find_row key xs ≡ some t → any both xs ≡ other t
  unfolding find_row
  any_keyed [] t one h = ground arith
  any_keyed (x ∷ xs) t one h = elim (Bool-cases (key x)) [
    | inl k ↦ ground (arith, any-none key other xs (one.0 k))
    | inr k ↦ ground (arith, any_keyed xs t one.1 (rw k at h))
  ]

  pub update_keyed :
      (f : A → A) (xs : List A) (t : A)
      → OneKey key xs
      → find_row key xs ≡ some t
      → other t ≡ false
      → update_where both f xs ≡ xs
  unfolding find_row update_where
  update_keyed f [] t one h off = ground arith
  update_keyed f (x ∷ xs) t one h off = elim (Bool-cases (key x)) [
    | inl k ↦ ground (arith, update_absent f xs (one.0 k))
    | inr k ↦ ground (arith, update_keyed f xs t one.1 (rw k at h) off)
  ]

  pub update_held :
      (f : A → A) (xs : List A) (t : A)
      → OneKey key xs
      → find_row key xs ≡ some t
      → other t ≡ true
      → update_where both f xs ≡ update_where key f xs
  unfolding find_row update_where
  update_held f [] t one h held = ground arith
  update_held f (x ∷ xs) t one h held = elim (Bool-cases (key x)) [
    | inl k ↦ ground (arith, update_absent f xs (one.0 k), update_where-none key f xs (one.0 k))
    | inr k ↦ ground (arith, update_held f xs t one.1 (rw k at h) held)
  ]

module _ {ℓ} {A : Type ℓ} (key : A → Bool) where
  pub count_key-le : (xs : List A) → OneKey key xs → count_where key xs ≤ 1
  unfolding count_where
  count_key-le [] one = omega arith
  count_key-le (x ∷ xs) one = elim (Bool-cases (key x)) [
    | inl k ↦ ground (arith, count_none key xs (one.0 k))
    | inr k ↦ ground (arith, count_key-le xs one.1)
  ]

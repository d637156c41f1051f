-- ===== src/Prelude/Evolution.antt =====
-- How a table may change: rows evolve in place by a relation and new rows come at the end. With it,
-- the rules that carry a row predicate, a unique key and a relation over the statements of Tables.
use mathlib.Core.Path.{◌≡◌, refl, subst, fun_ext}
use mathlib.Core.Logic.{inl, inr}
use mathlib.Core.Bool.{Bool, true}
use mathlib.Core.Option.{Option, none, some, some-injective}
use mathlib.Core.Option
use mathlib.Core.List.{List, [], ◌∷◌, ◌++◌}
use native.Mathlib.Omega.{arith}
use draftly_agent_backend.Prelude.Tests.{if◌then◌else◌, Bool-cases, Option-cases}
use draftly_agent_backend.Prelude.Lists.{All}
use draftly_agent_backend.Prelude.Tables.{
  find_row, update_where, insert_unless, find_row-append_none,
}

-- The rows of the first table, each evolved by `R`, stand at the head of the second.
abbrev pub Evolves {ℓ κ} : {A : Type ℓ} → (A → A → Type κ) → List A → List A → Type κ
Evolves R [] ys = Unit
Evolves R (x ∷ xs) [] = ⊥ × Unit
Evolves R (x ∷ xs) (y ∷ ys) = R x y × Evolves R xs ys

module _ {ℓ κ} {A : Type ℓ} (R : A → A → Type κ) (R_refl : (x : A) → R x x) where
  pub Evolves_refl : (xs : List A) → Evolves R xs xs
  Evolves_refl [] = tt
  Evolves_refl (x ∷ xs) = (R_refl x, Evolves_refl xs)

  pub Evolves_append : (xs ys : List A) → Evolves R xs (xs ++ ys)
  Evolves_append [] ys = tt
  Evolves_append (x ∷ xs) ys = (R_refl x, Evolves_append xs ys)

  pub Evolves-insert_unless :
      (test : A → Bool) (x : A) (xs : List A) → Evolves R xs (insert_unless test x xs)
  unfolding insert_unless
  Evolves-insert_unless test x xs = elim (Option-cases (find_row test xs)) [
    | inl e ↦ rw (e, insert_unless) (Evolves_append xs (x ∷ []))
    | inr (y, e) ↦ rw (e, insert_unless) (Evolves_refl xs)
  ]

  pub Evolves-update_where :
      (test : A → Bool) (f : A → A)
      → ((x : A) → test x ≡ true → R x (f x))
      → (xs : List A) → Evolves R xs (update_where test f xs)
  unfolding update_where
  Evolves-update_where test f step [] = tt
  Evolves-update_where test f step (x ∷ xs) = (
    elim (Bool-cases (test x)) [ inl e ↦ rw e (step x e) | inr e ↦ rw e (R_refl x) ],
    Evolves-update_where test f step xs,
  )

module _ {ℓ κ} {A : Type ℓ} (R : A → A → Type κ) where
  pub Evolves_trans :
      (compose : (x y z : A) → R x y → R y z → R x z) (xs ys zs : List A)
      → Evolves R xs ys
      → Evolves R ys zs
      → Evolves R xs zs
  Evolves_trans compose [] ys zs h k = tt
  Evolves_trans compose (x ∷ xs) [] zs h k = absurd h.0
  Evolves_trans compose (x ∷ xs) (y ∷ ys) [] h k = absurd k.0
  Evolves_trans compose (x ∷ xs) (y ∷ ys) (z ∷ zs) h k =
      (compose x y z h.0 k.0, Evolves_trans compose xs ys zs h.1 k.1)

  -- A row that a key finds is found again, evolved.
  pub Evolves-find_row :
      (test : A → Bool)
      → ((x y : A) → R x y → test y ≡ test x)
      → (xs ys : List A) (x : A) → Evolves R xs ys
      → find_row test xs ≡ some x
      → (y : A) × (find_row test ys ≡ some y) × R x y
  unfolding find_row
  Evolves-find_row test same [] ys x h e = cc
  Evolves-find_row test same (a ∷ xs) [] x h e = absurd h.0
  Evolves-find_row test same (a ∷ xs) (b ∷ ys) x h e = elim (Bool-cases (test a)) [
    | inl t ↦ (b, rw (same a b h.0, t), subst (λ z. R z b) (some-injective a x (rw t at e)) h.0)
    | inr t ↦
        let (y, found, r) = Evolves-find_row test same xs ys x h.1 (rw t at e) in
        (y, rw (same a b h.0, t) found, r)
  ]

module _ {ℓ κ} {A : Type ℓ} (P : A → Type κ) where
  pub All-append : (xs ys : List A) → All P xs → All P ys → All P (xs ++ ys)
  All-append [] ys h k = k
  All-append (x ∷ xs) ys h k = (h.0, All-append xs ys h.1 k)

  pub All-update_where :
      (test : A → Bool) (f : A → A)
      → ((x : A) → test x ≡ true → P x → P (f x))
      → (xs : List A) → All P xs
      → All P (update_where test f xs)
  unfolding update_where
  All-update_where test f step [] h = tt
  All-update_where test f step (x ∷ xs) h = (
    elim (Bool-cases (test x)) [ inl e ↦ rw e (step x e h.0) | inr e ↦ rw e h.0 ],
    All-update_where test f step xs h.1,
  )

  pub All-insert_unless :
      (test : A → Bool) (x : A) → P x → (xs : List A) → All P xs → All P (insert_unless test x xs)
  unfolding insert_unless
  All-insert_unless test x px xs h = elim (Option-cases (find_row test xs)) [
    | inl e ↦ rw (e, insert_unless) (All-append xs (x ∷ []) h (px, tt))
    | inr (y, e) ↦ rw (e, insert_unless) h
  ]

  pub All-find_row :
      (test : A → Bool) (xs : List A) (x : A) → All P xs → find_row test xs ≡ some x → P x
  unfolding find_row
  All-find_row test [] x h e = cc
  All-find_row test (a ∷ xs) x h e = elim (Bool-cases (test a)) [
    | inl t ↦ subst P (some-injective a x (rw t at e)) h.0
    | inr t ↦ All-find_row test xs x h.1 (rw t at e)
  ]

-- No two rows have one key: no later row is found by the key of an earlier one.
abbrev pub Unique {ℓ} : {A : Type ℓ} → (A → A → Bool) → List A → Type ℓ
Unique same [] = Unit
Unique same (x ∷ xs) = (find_row (same x) xs ≡ none) × Unique same xs

module _ {ℓ} {A : Type ℓ} where
  -- An update that keeps what a test reads is seen through the search.
  pub find_row-update_where :
      (key test : A → Bool) (f : A → A)
      → ((x : A) → key (f x) ≡ key x)
      → (xs : List A)
      → find_row key (update_where test f xs)
        ≡ Option.map (λ x. if test x then f x else x) (find_row key xs)
  unfolding find_row update_where
  find_row-update_where key test f keeps [] = refl
  find_row-update_where key test f keeps (x ∷ xs) =
      ground (arith, keeps x, find_row-update_where key test f keeps xs)

  pub find_row-update_where-none :
      (key test : A → Bool) (f : A → A)
      → ((x : A) → key (f x) ≡ key x)
      → (xs : List A) → find_row key xs ≡ none
      → find_row key (update_where test f xs) ≡ none
  find_row-update_where-none key test f keeps xs h =
      rw (find_row-update_where key test f keeps xs, h)

  pub find_row-insert_unless :
      (test : A → Bool) (x : A) (xs : List A)
      → test x ≡ true
      → find_row test (insert_unless test x xs) ≡ some (Option.get_or (find_row test xs) x)
  unfolding insert_unless
  find_row-insert_unless test x xs t = elim (Option-cases (find_row test xs)) [
    | inl e ↦ rw (e, insert_unless) (rw (find_row-append_none test xs x e, t))
    | inr (y, e) ↦ rw (e, insert_unless) e
  ]

module _ {ℓ} {A : Type ℓ} (same : A → A → Bool) where
  pub Unique-update_where :
      (test : A → Bool) (f : A → A)
      → ((x y : A) → same (f x) y ≡ same x y)
      → ((x y : A) → same x (f y) ≡ same x y)
      → (xs : List A) → Unique same xs
      → Unique same (update_where test f xs)
  unfolding update_where
  Unique-update_where test f left right [] h = tt
  Unique-update_where test f left right (x ∷ xs) h = (
    elim (Bool-cases (test x)) [
      | inl e ↦
          rw (e, fun_ext (left x)) (find_row-update_where-none (same x) test f (right x) xs h.0)
      | inr e ↦ rw e (find_row-update_where-none (same x) test f (right x) xs h.0)
    ],
    Unique-update_where test f left right xs h.1,
  )

  pub Unique-append :
      (x : A) (xs : List A)
      → ((y : A) → same x y ≡ same y x)
      → find_row (same x) xs ≡ none
      → Unique same xs
      → Unique same (xs ++ x ∷ [])
  unfolding find_row
  Unique-append x [] symmetric e h = (refl, tt)
  Unique-append x (y ∷ xs) symmetric e h = (
    rw (find_row-append_none (same y) xs x h.0) (ground (arith, symmetric y)),
    Unique-append x xs symmetric (ground arith) h.1,
  )

  pub Unique-insert_unless :
      (x : A) (xs : List A)
      → ((y : A) → same x y ≡ same y x)
      → Unique same xs
      → Unique same (insert_unless (same x) x xs)
  unfolding insert_unless
  Unique-insert_unless x xs symmetric h = elim (Option-cases (find_row (same x) xs)) [
    | inl e ↦ rw (e, insert_unless) (Unique-append x xs symmetric e h)
    | inr (y, e) ↦ rw (e, insert_unless) h
  ]

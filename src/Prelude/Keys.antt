-- ===== src/Prelude/Keys.antt =====
-- Tables with a unique key: what a search by key says of the whole table.
use Prim.Native.Nat.{ℕ, zero, suc, ◌+◌, ◌≤◌}
use mathlib.Core.Path.{◌≡◌, refl, subst}
use mathlib.Core.Logic.{inl, inr}
use mathlib.Core.Bool.{Bool, true, false, ◌&&◌, ◌||◌}
use mathlib.Core.Option.{none, some, some-injective}
use mathlib.Core.List.{List, [], ◌∷◌, ◌++◌, map}
use native.Mathlib.Omega.{arith}
use draftly_agent_backend.Prelude.Tests.{Eq, ◌==◌, Bool-cases}
use draftly_agent_backend.Prelude.Lists.{All, length, take, keep, any, contains, insert_by, sort_by}
use draftly_agent_backend.Prelude.Tables.{find_row, update_where, count_where}
use draftly_agent_backend.Prelude.Evolution.{Evolves, Unique}

module _ {ℓ κ} {A : Type ℓ} {P : A → Type κ} where
  pub All-map {μ} : {Q : A → Type μ} → ((x : A) → P x → Q x) → (xs : List A) → All P xs → All Q xs
  All-map f [] h = tt
  All-map f (x ∷ xs) h = (f x h.0, All-map f xs h.1)

module _ {ℓ} {A : Type ℓ} where
  pub All-both {κ μ} :
      (P : A → Type κ) (Q : A → Type μ) (xs : List A)
      → All P xs
      → All Q xs
      → All (λ x. P x × Q x) xs
  All-both P Q [] h k = tt
  All-both P Q (x ∷ xs) h k = ((h.0, k.0), All-both P Q xs h.1 k.1)

  pub find_row-none :
      (test : A → Bool) (xs : List A) → find_row test xs ≡ none → All (λ x. test x ≡ false) xs
  unfolding find_row
  find_row-none test [] h = tt
  find_row-none test (x ∷ xs) h = elim (Bool-cases (test x)) [
    | inl e ↦ absurd (ground arith)
    | inr e ↦ (e, find_row-none test xs (ground arith))
  ]

  pub any-none :
      (test other : A → Bool) (xs : List A)
      → find_row test xs ≡ none
      → any (λ x. test x && other x) xs ≡ false
  unfolding find_row
  any-none test other [] h = refl
  any-none test other (x ∷ xs) h = ground (arith, any-none test other xs)

  pub any_imp :
      (test other : A → Bool)
      → ((x : A) → test x ≡ true → other x ≡ true)
      → (xs : List A) → any test xs ≡ true
      → any other xs ≡ true
  any_imp test other f [] h = h
  any_imp test other f (x ∷ xs) h = elim (Bool-cases (test x)) [
    | inl e ↦ rw (f x e)
    | inr e ↦ ground (arith, any_imp test other f xs (rw e at h))
  ]

  pub any-append :
      (test : A → Bool) (xs ys : List A) → any test (xs ++ ys) ≡ (any test xs || any test ys)
  any-append test [] ys = refl
  any-append test (x ∷ xs) ys = ground (arith, any-append test xs ys)

  pub any-keep :
      (test other : A → Bool) (xs : List A)
      → any test (keep other xs) ≡ any (λ x. other x && test x) xs
  any-keep test other [] = refl
  any-keep test other (x ∷ xs) = ground (arith, any-keep test other xs)

  any-insert_by :
      (test : A → Bool) (le : A → A → Bool) (x : A) (xs : List A)
      → any test (insert_by le x xs) ≡ (test x || any test xs)
  any-insert_by test le x [] = refl
  any-insert_by test le x (y ∷ ys) = ground (arith, any-insert_by test le x ys)

  -- Sorting keeps what is in a list.
  pub any-sort_by :
      (test : A → Bool) (le : A → A → Bool) (xs : List A) → any test (sort_by le xs) ≡ any test xs
  any-sort_by test le [] = refl
  any-sort_by test le (x ∷ xs) =
      ground (arith, any-insert_by test le x (sort_by le xs), any-sort_by test le xs)

  pub any-take :
      (test : A → Bool) (n : ℕ) (xs : List A) → any test (take n xs) ≡ true → any test xs ≡ true
  any-take test zero xs h = ground arith
  any-take test (suc n) [] h = h
  any-take test (suc n) (x ∷ xs) h = ground (arith, any-take test n xs)

module _ {ℓ} {A : Type ℓ} ⦃e : Eq A⦄ where
  pub contains-map {κ} :
      {B : Type κ} (f : B → A) (xs : List B) (a : A)
      → contains (map f xs) a ≡ any (λ x. a == f x) xs
  contains-map f [] a = refl
  contains-map f (x ∷ xs) a = ground (arith, contains-map f xs a)

module _ {ℓ} {A : Type ℓ} (same : A → A → Bool) (reflexive : (x : A) → same x x ≡ true)
    (symmetric : (x y : A) → same x y ≡ same y x) where
  -- Under a unique key, a search by the key of a row finds the row.
  pub Unique-finds : (xs : List A) → Unique same xs → All (λ x. find_row (same x) xs ≡ some x) xs
  unfolding find_row
  Unique-finds [] h = tt
  Unique-finds (x ∷ xs) h = (
    rw (reflexive x),
    All-map {P = λ t. (same x t ≡ false) × (find_row (same t) xs ≡ some t)}
        (λ t p. rw (symmetric t x, p.0) p.1) xs
        (All-both (λ t. same x t ≡ false) (λ t. find_row (same t) xs ≡ some t) xs
          (find_row-none (same x) xs h.0) (Unique-finds xs h.1)),
  )

  -- What holds of some row with the key of `t` holds of `t`.
  pub Unique-row :
      (other : A → Bool) (xs : List A) (t : A)
      → Unique same xs
      → find_row (same t) xs ≡ some t
      → any (λ u. same t u && other u) xs ≡ true
      → other t ≡ true
  unfolding find_row
  Unique-row other [] t h f a = ground arith
  Unique-row other (x ∷ xs) t h f a = elim (Bool-cases (same t x)) [
    | inl e ↦
        let x_is_t : x ≡ t = some-injective x t (rw e at f) in
        ground (
          arith,
          x_is_t,
          subst (λ z. any (λ u. same z u && other u) xs ≡ false) x_is_t
              (any-none (same x) other xs h.0),
        )
    | inr e ↦ Unique-row other xs t h.1 (rw e at f) (rw e at a)
  ]

module _ {ℓ κ} {A : Type ℓ} (R : A → A → Type κ) (R_refl : (x : A) → R x x) where
  -- An update, where the step is known of the rows of the table alone.
  pub Evolves-update_All :
      (test : A → Bool) (f : A → A) (xs : List A)
      → All (λ x. test x ≡ true → R x (f x)) xs
      → Evolves R xs (update_where test f xs)
  unfolding update_where
  Evolves-update_All test f [] h = tt
  Evolves-update_All test f (x ∷ xs) h = (
    elim (Bool-cases (test x)) [ inl e ↦ rw e (h.0 e) | inr e ↦ rw e (R_refl x) ],
    Evolves-update_All test f xs h.1,
  )

module _ {ℓ} {A : Type ℓ} where
  pub keep_none : (test : A → Bool) (xs : List A) → any test xs ≡ false → keep test xs ≡ []
  keep_none test [] h = refl
  keep_none test (x ∷ xs) h = ground (arith, keep_none test xs)

  pub update_none :
      (test : A → Bool) (f : A → A) (xs : List A)
      → any test xs ≡ false
      → update_where test f xs ≡ xs
  unfolding update_where
  update_none test f [] h = refl
  update_none test f (x ∷ xs) h = ground (arith, update_none test f xs)

  -- A test that no row meets after an update.
  pub any-update_where :
      (other test : A → Bool) (f : A → A)
      → ((x : A) → test x ≡ true → other (f x) ≡ false)
      → ((x : A) → test x ≡ false → other x ≡ false)
      → (xs : List A) → any other (update_where test f xs) ≡ false
  unfolding update_where
  any-update_where other test f changed same [] = refl
  any-update_where other test f changed same (x ∷ xs) = elim (Bool-cases (test x)) [
    | inl e ↦ ground (arith, changed x e, any-update_where other test f changed same xs)
    | inr e ↦ ground (arith, same x e, any-update_where other test f changed same xs)
  ]

  pub any_never :
      (test : A → Bool) → ((x : A) → test x ≡ false) → (xs : List A) → any test xs ≡ false
  any_never test f [] = refl
  any_never test f (x ∷ xs) = ground (arith, f x, any_never test f xs)

  pub count_never :
      (test : A → Bool) → ((x : A) → test x ≡ false) → (xs : List A) → count_where test xs ≡ 0
  unfolding count_where
  count_never test f [] = refl
  count_never test f (x ∷ xs) = ground (arith, f x, count_never test f xs)

  pub All-map-keep {κ μ} :
      {B : Type κ} (P : B → Type μ) (test : A → Bool) (f : A → B)
      → ((x : A) → test x ≡ true → P (f x))
      → (xs : List A) → All P (map f (keep test xs))
  All-map-keep P test f h [] = tt
  All-map-keep P test f h (x ∷ xs) = elim (Bool-cases (test x)) [
    | inl e ↦ rw e (h x e, All-map-keep P test f h xs)
    | inr e ↦ rw e (All-map-keep P test f h xs)
  ]

  pub take_nil : (n : ℕ) → ◌≡◌ {A = List A} (take n []) []
  take_nil zero = refl
  take_nil (suc n) = refl

  pub length-insert_by :
      (le : A → A → Bool) (x : A) (xs : List A) → length (insert_by le x xs) ≡ suc (length xs)
  length-insert_by le x [] = refl
  length-insert_by le x (y ∷ ys) = ground (arith, length-insert_by le x ys)

  pub length-sort_by : (le : A → A → Bool) (xs : List A) → length (sort_by le xs) ≡ length xs
  length-sort_by le [] = refl
  length-sort_by le (x ∷ xs) =
      omega (arith, length-insert_by le x (sort_by le xs), length-sort_by le xs)

  pub length-map {κ} : {B : Type κ} (f : A → B) (xs : List A) → length (map f xs) ≡ length xs
  length-map f [] = refl
  length-map f (x ∷ xs) = omega (arith, length-map f xs)

  pub length-keep : (test : A → Bool) (xs : List A) → length (keep test xs) ≡ count_where test xs
  unfolding count_where
  length-keep test [] = refl
  length-keep test (x ∷ xs) = ground (arith, length-keep test xs)

  pub take_all : (n : ℕ) (xs : List A) → length xs ≤ n → take n xs ≡ xs
  take_all zero [] h = refl
  take_all zero (x ∷ xs) h = absurd (omega arith)
  take_all (suc n) [] h = refl
  take_all (suc n) (x ∷ xs) h = rw (take_all n xs (omega arith))

  pub count_or :
      (p q : A → Bool) (xs : List A)
      → count_where (λ x. p x || q x) xs ≤ count_where p xs + count_where q xs
  unfolding count_where
  count_or p q [] = omega arith
  count_or p q (x ∷ xs) = ground (arith, count_or p q xs)

  pub count_imp :
      (p q : A → Bool)
      → ((x : A) → p x ≡ true → q x ≡ true)
      → (xs : List A) → count_where p xs ≤ count_where q xs
  unfolding count_where
  count_imp p q f [] = omega arith
  count_imp p q f (x ∷ xs) = elim (Bool-cases (p x)) [
    | inl e ↦ ground (arith, f x e, count_imp p q f xs)
    | inr e ↦ ground (arith, count_imp p q f xs)
  ]

  pub any_found :
      (test other : A → Bool) (xs : List A) (t : A)
      → find_row test xs ≡ some t
      → other t ≡ true
      → any other xs ≡ true
  unfolding find_row
  any_found test other [] t h o = ground arith
  any_found test other (x ∷ xs) t h o = elim (Bool-cases (test x)) [
    | inl e ↦ ground arith
    | inr e ↦ ground (arith, any_found test other xs t (rw e at h) o)
  ]

  -- What no row meets stays so, if the update makes no row meet it.
  pub any_quiet :
      (other test : A → Bool) (f : A → A)
      → ((x : A) → test x ≡ true → other (f x) ≡ false)
      → (xs : List A) → any other xs ≡ false
      → any other (update_where test f xs) ≡ false
  unfolding update_where
  any_quiet other test f changed [] h = refl
  any_quiet other test f changed (x ∷ xs) h = elim (Bool-cases (test x)) [
    | inl e ↦ ground (arith, changed x e, any_quiet other test f changed xs)
    | inr e ↦ ground (arith, any_quiet other test f changed xs)
  ]

  pub find_quiet : (test : A → Bool) (xs : List A) → any test xs ≡ false → find_row test xs ≡ none
  unfolding find_row
  find_quiet test [] h = refl
  find_quiet test (x ∷ xs) h = ground (arith, find_quiet test xs)

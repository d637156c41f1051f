-- ===== src/Prelude/Tables.antt =====
-- A database table as the list of its rows, in the order of insertion, with the statements that the
-- repositories send: `SELECT … LIMIT 1` by key, `UPDATE … WHERE`, `count(*)`, `INSERT … ON CONFLICT`.
use Prim.Native.Nat.{ℕ, suc}
use mathlib.Core.Path.{◌≡◌, refl}
use mathlib.Core.Bool.{Bool, true}
use mathlib.Core.Option.{Option, none, some}
use mathlib.Core.Option
use mathlib.Core.List.{List, [], ◌∷◌, ◌++◌}
use native.Mathlib.Omega.{arith}
use draftly_agent_backend.Prelude.Tests.{if◌then◌else◌}

module _ {ℓ} {A : Type ℓ} where
  -- The first row that meets a condition; under a primary key, the only one.
  unfoldable pub find_row : (A → Bool) → List A → Option A
  find_row test [] = none
  find_row test (x ∷ xs) = if test x then some x else find_row test xs

  unfoldable pub update_where : (A → Bool) → (A → A) → List A → List A
  update_where test f [] = []
  update_where test f (x ∷ xs) = (if test x then f x else x) ∷ update_where test f xs

  unfoldable pub count_where : (A → Bool) → List A → ℕ
  count_where test [] = 0
  count_where test (x ∷ xs) = let n = count_where test xs in if test x then suc n else n

  -- `INSERT … ON CONFLICT DO NOTHING`, for a key that `test` recognises.
  unfoldable pub insert_unless : (A → Bool) → A → List A → List A
  unfolding find_row
  insert_unless test x xs = elim (find_row test xs) [ none ↦ xs ++ x ∷ [] | some _ ↦ xs ]

  pub find_row-append_none :
      (test : A → Bool) (xs : List A) (x : A)
      → find_row test xs ≡ none
      → find_row test (xs ++ x ∷ []) ≡ (if test x then some x else none)
  unfolding find_row
  find_row-append_none test [] x h = refl
  find_row-append_none test (y ∷ ys) x h = ground (arith, find_row-append_none test ys x)

  pub find_row-append_some :
      (test : A → Bool) (xs : List A) (x y : A)
      → find_row test xs ≡ some y
      → find_row test (xs ++ x ∷ []) ≡ some y
  unfolding find_row
  find_row-append_some test [] x y h = ground arith
  find_row-append_some test (z ∷ ys) x y h = ground (arith, find_row-append_some test ys x y)

  pub find_row_holds :
      (test : A → Bool) (xs : List A) (x : A) → find_row test xs ≡ some x → test x ≡ true
  unfolding find_row
  find_row_holds test [] x h = ground arith
  find_row_holds test (y ∷ ys) x h = ground (arith, find_row_holds test ys x)

  -- `fetch_one` of `UPDATE … RETURNING`: the first updated row.
  unfoldable pub returned_row : (A → Bool) → (A → A) → List A → Option A
  unfolding find_row
  returned_row test f xs = Option.map f (find_row test xs)

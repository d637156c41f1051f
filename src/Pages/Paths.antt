-- ===== src/Pages/Paths.antt =====
-- `normalize_page_id` of src/draftly/orchestration/page_workflow/models.py.
use Prim.Native.Char.{Char, code}
use draftly_agent_backend.Prelude.{
  String, append_str, is_empty, join_with, Bool, true, false, ◌&&◌, not, ◌≡◌, refl, inl, inr, List,
  [], ◌∷◌, arith, keep, any, All, nat_beq, Bool-cases, ◌==◌, string_eq, if◌then◌else◌, ap, sym, ◌∙◌,
}
use mathlib.Core.Path.{subst}
use text.Mathlib.TextLemmas.{cons-append, nil-append}

-- What the call returns: the page id, or which of the three `ValueError`s it raises.
pub data PageId : Type 0 where
  page_id : String → PageId
  is_absolute : String → PageId
  has_parent_segment : String → PageId
  names_no_page : String → PageId

abbrev pub is_slash : Char → Bool
is_slash c = nat_beq (code c) 47

abbrev pub is_backslash : Char → Bool
is_backslash c = nat_beq (code c) 92

-- `path.replace("\\", "/")`
unfoldable pub forward : String → String
forward String.[] = ""
forward (String.◌∷◌ c s) =
    let rest = forward s in if is_backslash c then append_str "/" rest else String.◌∷◌ c rest

abbrev pub starts_with_slash : String → Bool
starts_with_slash String.[] = false
starts_with_slash (String.◌∷◌ c s) = is_slash c

abbrev pub put_first : Char → List String → List String
put_first c [] = String.◌∷◌ c "" ∷ []
put_first c (x ∷ xs) = String.◌∷◌ c x ∷ xs

-- `text.split("/")`
unfoldable pub split_slash : String → List String
split_slash String.[] = "" ∷ []
split_slash (String.◌∷◌ c s) =
    let rest = split_slash s in if is_slash c then "" ∷ rest else put_first c rest

-- `segment not in ("", ".")`
abbrev pub names_part : String → Bool
names_part s = not (is_empty s) && not (s == ".")

abbrev pub joined : String → List String → PageId
joined path [] = names_no_page path
joined path (x ∷ xs) = page_id (join_with "/" (x ∷ xs))

unfoldable pub normalize_page_id : String → PageId
unfolding join_with forward split_slash
normalize_page_id path =
    let normalized = forward path in
    let segments = split_slash normalized in
    if starts_with_slash normalized
    then is_absolute path
    else if any (λ s. s == "..") segments
    then has_parent_segment path
    else joined path (keep names_part segments)

slash-append : (s : String) → append_str "/" s ≡ String.◌∷◌ "/" s
slash-append s = cons-append "/" "" s ∙ ap (String.◌∷◌ "/") (nil-append s)

-- A text without separators of either kind.
abbrev pub is_plain : String → Bool
is_plain String.[] = true
is_plain (String.◌∷◌ c s) = not (is_slash c) && not (is_backslash c) && is_plain s

-- A text without backslashes.
abbrev is_forward : String → Bool
is_forward String.[] = true
is_forward (String.◌∷◌ c s) = not (is_backslash c) && is_forward s

forward-is_forward : (s : String) → is_forward (forward s) ≡ true
unfolding forward
forward-is_forward String.[] = refl
forward-is_forward (String.◌∷◌ c s) = elim (Bool-cases (is_backslash c)) [
  | inl e ↦ rw (e, slash-append (forward s)) (forward-is_forward s)
  | inr e ↦ rw e (ground (arith, forward-is_forward s))
]

abbrev pub IsPlain : String → Type 0
IsPlain s = is_plain s ≡ true

put_first-IsPlain :
    (c : Char) (xs : List String)
    → is_slash c ≡ false
    → is_backslash c ≡ false
    → All IsPlain xs
    → All IsPlain (put_first c xs)
put_first-IsPlain c [] f b h = (ground arith, tt)
put_first-IsPlain c (x ∷ xs) f b h = (ground (arith, h.0), h.1)

split_slash-IsPlain : (s : String) → is_forward s ≡ true → All IsPlain (split_slash s)
unfolding split_slash
split_slash-IsPlain String.[] h = (refl, tt)
split_slash-IsPlain (String.◌∷◌ c s) h = elim (Bool-cases (is_slash c)) [
  | inl e ↦ rw e (refl, split_slash-IsPlain s (ground arith))
  | inr e ↦
      rw e (
        put_first-IsPlain c (split_slash s) e (ground arith) (split_slash-IsPlain s (ground arith)))
]

split_slash_plain : (x : String) → IsPlain x → split_slash x ≡ x ∷ []
unfolding split_slash
split_slash_plain String.[] h = refl
split_slash_plain (String.◌∷◌ c s) h = ground (arith, split_slash_plain s)

split_slash-append :
    (x r : String) → IsPlain x → split_slash (append_str x (append_str "/" r)) ≡ x ∷ split_slash r
unfolding split_slash
split_slash-append String.[] r h = rw (nil-append (append_str "/" r), slash-append r) refl
split_slash-append (String.◌∷◌ c s) r h =
    rw (cons-append c s (append_str "/" r)) (ground (arith, split_slash-append s r))

split_slash-join_with :
    (x : String) (xs : List String)
    → All IsPlain (x ∷ xs)
    → split_slash (join_with "/" (x ∷ xs)) ≡ x ∷ xs
unfolding join_with
split_slash-join_with x [] h = split_slash_plain x h.0
split_slash-join_with x (y ∷ ys) h =
    split_slash-append x (join_with "/" (y ∷ ys)) h.0
    ∙ ap (λ l. x ∷ l) (split_slash-join_with y ys h.1)

forward-append : (x y : String) → IsPlain x → forward (append_str x y) ≡ append_str x (forward y)
unfolding forward
forward-append String.[] y h = rw (nil-append y, nil-append (forward y)) refl
forward-append (String.◌∷◌ c s) y h =
    rw (cons-append c s y, cons-append c s (forward y)) (ground (arith, forward-append s y))

forward_plain : (x : String) → IsPlain x → forward x ≡ x
unfolding forward
forward_plain String.[] h = refl
forward_plain (String.◌∷◌ c s) h = ground (arith, forward_plain s)

forward-join_with :
    (xs : List String) → All IsPlain xs → forward (join_with "/" xs) ≡ join_with "/" xs
unfolding join_with forward
forward-join_with [] h = refl
forward-join_with (x ∷ []) h = forward_plain x h.0
forward-join_with (x ∷ y ∷ ys) h =
    forward-append x (append_str "/" (join_with "/" (y ∷ ys))) h.0
    ∙ ap (append_str x) (
        ap forward (slash-append (join_with "/" (y ∷ ys)))
        ∙ sym (slash-append (forward (join_with "/" (y ∷ ys)))))
    ∙ ap (λ r. append_str x (append_str "/" r)) (forward-join_with (y ∷ ys) h.1)

keep-All :
    (P : String → Type 0) (test : String → Bool) (xs : List String)
    → All P xs
    → All (λ x. P x × (test x ≡ true)) (keep test xs)
keep-All P test [] h = tt
keep-All P test (x ∷ xs) h = elim (Bool-cases (test x)) [
  | inl e ↦ rw e ((h.0, e), keep-All P test xs h.1)
  | inr e ↦ rw e (keep-All P test xs h.1)
]

any-keep-false :
    (test other : String → Bool) (xs : List String)
    → any test xs ≡ false
    → any test (keep other xs) ≡ false
any-keep-false test other [] h = refl
any-keep-false test other (x ∷ xs) h = ground (arith, any-keep-false test other xs)

-- A part of a page id: not empty, not `.`, and without separators.
abbrev pub IsPart : String → Type 0
IsPart s = IsPlain s × (names_part s ≡ true)

join_with-relative :
    (x : String) (xs : List String)
    → All IsPart (x ∷ xs)
    → starts_with_slash (join_with "/" (x ∷ xs)) ≡ false
unfolding join_with
join_with-relative String.[] xs h = absurd (ground (arith, h.0.1))
join_with-relative (String.◌∷◌ c s) [] h = ground (arith, h.0.0)
join_with-relative (String.◌∷◌ c s) (y ∷ ys) h =
    rw (cons-append c s (append_str "/" (join_with "/" (y ∷ ys)))) (ground (arith, h.0.0))

keep-names_part : (xs : List String) → All IsPart xs → keep names_part xs ≡ xs
keep-names_part [] h = refl
keep-names_part (x ∷ xs) h = ground (arith, h.0.1, keep-names_part xs h.1)

All-IsPlain : (xs : List String) → All IsPart xs → All IsPlain xs
All-IsPlain [] h = tt
All-IsPlain (x ∷ xs) h = (h.0.0, All-IsPlain xs h.1)

joined_again :
    (x : String) (xs : List String)
    → All IsPart (x ∷ xs)
    → any (λ s. s == "..") (x ∷ xs) ≡ false
    → normalize_page_id (join_with "/" (x ∷ xs)) ≡ page_id (join_with "/" (x ∷ xs))
unfolding normalize_page_id
joined_again x xs h up =
    let plain = All-IsPlain (x ∷ xs) h in
    rw
      (
        forward-join_with (x ∷ xs) plain,
        join_with-relative x xs h,
        split_slash-join_with x xs plain,
        up,
        keep-names_part (x ∷ xs) h,
      )
      refl

-- A page id that a path is given: its segments are separated by `/`, and none is empty, `.` or
-- `..`; and it is its own page id.
pub normalize_page_id_lem :
    (path page : String)
    → normalize_page_id path ≡ page_id page
    → All IsPart (split_slash page)
      × (any (λ s. s == "..") (split_slash page) ≡ false)
      × (normalize_page_id page ≡ page_id page)
unfolding normalize_page_id
normalize_page_id_lem path page h =
    let parts =
      keep-All IsPlain names_part (split_slash (forward path))
        (split_slash-IsPlain (forward path) (forward-is_forward path)) in
    go (starts_with_slash (forward path)) (any (λ s. s == "..") (split_slash (forward path)))
      (keep names_part (split_slash (forward path))) parts
      (any-keep-false (λ s. s == "..") names_part (split_slash (forward path))) h
  where
    go :
        (absolute up : Bool) (xs : List String)
        → All IsPart xs
        → (up ≡ false → any (λ s. s == "..") xs ≡ false)
        → (if absolute
            then is_absolute path
            else if up
            then has_parent_segment path
            else joined path xs)
          ≡ page_id page
        → All IsPart (split_slash page)
          × (any (λ s. s == "..") (split_slash page) ≡ false)
          × (normalize_page_id page ≡ page_id page)
    go true up xs parts below k = absurd (ground arith)
    go false true xs parts below k = absurd (ground arith)
    go false false [] parts below k = absurd (ground arith)
    go false false (x ∷ xs) parts below k =
        let same : join_with "/" (x ∷ xs) ≡ page = ground arith in
        let segments = split_slash-join_with x xs (All-IsPlain (x ∷ xs) parts) in
        subst
          (λ p.
            All IsPart (split_slash p)
            × (any (λ s. s == "..") (split_slash p) ≡ false)
            × (normalize_page_id p ≡ page_id p))
          same
          (
            subst (All IsPart) (sym segments) parts,
            ap (any (λ s. s == "..")) segments ∙ below refl,
            joined_again x xs parts (below refl),
          )

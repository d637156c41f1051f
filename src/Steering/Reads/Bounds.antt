-- ===== src/Steering/Reads/Bounds.antt =====
-- What the read budget bounds, and what becomes of a read that the guard lets through.
use draftly_agent_backend.Prelude.{
  ◌≤◌, String, is_empty, false, ◌≡◌, refl, ap, ◌∙◌, inl, inr, Option, none, some, List, [], ◌∷◌,
  length, contains, has_duplicate, ==_self, leb, nat_eq, string_eq, Json, object, str, Fields,
  get_field, arith, Bool-cases, Option-cases,
}
use mathlib.Core.Path.{subst}
use draftly_agent_backend.Prelude.{text_or, shown, or_else}
use draftly_agent_backend.Steering.Reads.{
  WriterReadBudget, DraftScope, Reserved, reserved, value_error, failure, reserve, add_key,
  writer_read_key, or_empty, texts_eq, already_read, refused, Refusal, over_budget,
  reserve_writer_read, require_writer_target, read_file,
}
use draftly_agent_backend.Steering.Reads.Guard.{
  Guarded, proceed, before_tool_call, read_key, judge_read, partition_slash,
}

-- The budget after a reservation: as it was, where it raised.
abbrev pub after_reserve : WriterReadBudget → Reserved → WriterReadBudget
after_reserve before (reserved budget) = budget
after_reserve before (value_error reason) = before

-- Reservations one after the other, by whatever tools and guards.
abbrev pub reserve_each : WriterReadBudget → List (List String) → WriterReadBudget
reserve_each budget [] = budget
reserve_each budget (key ∷ keys) = reserve_each (after_reserve budget (reserve budget key)) keys

-- No read twice, and no more reads than the budget has.
pub record IsWithin (budget : WriterReadBudget) : Type 0 where
  pub distinct : has_duplicate budget.seen ≡ false
  pub bounded : length budget.seen ≤ budget.max_calls

-- A reservation keeps the budget.
reserve-IsWithin :
    (budget : WriterReadBudget) (key : List String)
    → IsWithin budget
    → IsWithin (after_reserve budget (reserve budget key))
      × ((after_reserve budget (reserve budget key)).max_calls ≡ budget.max_calls)
unfolding reserve failure
reserve-IsWithin budget key within = elim (Bool-cases (contains budget.seen key)) [
  | inl e ↦ rw e (within, refl)
  | inr e ↦ elim (Bool-cases (leb budget.max_calls (length budget.seen))) [
    | inl full ↦ rw (e, full) (within, refl)
    | inr room ↦
        rw (e, room)
          (
            record {
              distinct = ground (arith, e, within.distinct);
              bounded = ground (arith, room);
            },
            refl,
          )
  ]
]

-- After any reservations on a budget that nothing was read from, the keys that were read are distinct
-- and no more than the budget has calls.
pub reads_bounded :
    (budget : WriterReadBudget) (keys : List (List String))
    → budget.seen ≡ []
    → let after = reserve_each budget keys in
      (has_duplicate after.seen ≡ false) × (length after.seen ≤ budget.max_calls)
reads_bounded budget keys fresh =
    let (within, same) =
      go budget keys (record { distinct = rw fresh; bounded = rw fresh (omega arith) }) in
    (within.distinct, omega (arith, within.bounded, same))
  where
    go :
        (budget : WriterReadBudget) (keys : List (List String))
        → IsWithin budget
        → IsWithin (reserve_each budget keys)
          × ((reserve_each budget keys).max_calls ≡ budget.max_calls)
    go budget [] within = (within, refl)
    go budget (key ∷ keys) within =
        let (next, kept) = reserve-IsWithin budget key within in
        let (last, same) = go (after_reserve budget (reserve budget key)) keys next in
        (last, same ∙ kept)

module _ (repr : Json → String) where
  text_given :
      (v : Option Json) (s default : String)
      → v ≡ some (str s)
      → is_empty s ≡ false
      → text_or repr v default ≡ s
  unfolding text_or shown
  text_given v s default e nonempty = rw (e, nonempty)

  path_given :
      (v w : Option Json) (s : String)
      → v ≡ some (str s)
      → is_empty s ≡ false
      → text_or repr (or_else v w) "" ≡ s
  unfolding text_or shown
  path_given v w s e nonempty = rw (e, nonempty) (rw nonempty)

  -- The key of the guard is the key of the tool.
  read_key-given :
      (input : Fields) (owner repo path ref : String) (scope : DraftScope)
      → get_field "owner" input ≡ some (str owner)
      → is_empty owner ≡ false
      → get_field "repo" input ≡ some (str repo)
      → is_empty repo ≡ false
      → get_field "path" input ≡ some (str path)
      → is_empty path ≡ false
      → get_field "ref" input ≡ some (str ref)
      → is_empty ref ≡ false
      → read_key repr "github_read_file" input scope
        ≡ writer_read_key "github_read_file" owner repo path ref
  unfolding read_key
  read_key-given input owner repo path ref scope o o' r r' p p' f f' =
      let (owner', repo') = partition_slash (or_empty scope.repository) in
      rw (
        text_given (get_field "owner" input) owner owner' o o',
        text_given (get_field "repo" input) repo repo' r r',
        path_given (get_field "path" input) (get_field "file_path" input) path p p',
        text_given (get_field "ref" input) ref (or_empty scope.head_sha) f f',
      )

abbrev Answered : Type 0
Answered = Guarded × Option DraftScope

-- A tool whose reservation is refused does not go on.
refusal :
    (owner repo path ref : String) (scope : Option DraftScope)
    → reserve_writer_read (writer_read_key "github_read_file" owner repo path ref) scope
      ≡ refused (over_budget already_read)
    → (error : Refusal) × (read_file owner repo path ref scope ≡ refused error)
unfolding read_file
refusal owner repo path ref scope h =
    elim (Option-cases (require_writer_target owner repo ref scope)) [
      | inl e ↦ (over_budget already_read, rw e h)
      | inr (error, e) ↦ (error, rw e)
    ]

abbrev charged : WriterReadBudget → List String → WriterReadBudget
charged budget key = record budget { seen = key ∷ budget.seen }

reserve_new :
    (budget : WriterReadBudget) (key : List String)
    → failure budget key ≡ none
    → reserve budget key ≡ reserved (charged budget key)
unfolding reserve
reserve_new budget key e = ap (add_key key budget) e

reserve_charged :
    (budget : WriterReadBudget) (key : List String)
    → reserve (charged budget key) key ≡ value_error already_read
unfolding reserve failure
reserve_charged budget key = rw (==_self key) refl

-- A key that was let through is refused when it is reserved again.
refused_again :
    (repr : Json → String) (scope : DraftScope) (budget : WriterReadBudget) (input : Fields)
    (key : List String) (after : Option DraftScope)
    → judge_read repr scope budget input key (failure budget key) ≡ (proceed, after)
    → reserve_writer_read key after ≡ refused (over_budget already_read)
unfolding reserve_writer_read
refused_again repr scope budget input key after h = elim (Option-cases (failure budget key)) [
  | inr (reason, e) ↦ absurd (ground (arith, ap (λ (p : Answered). p.0) (rw e at h)))
  | inl e ↦
      let is_after : some (record scope { read_budget = some (charged budget key) }) ≡ after =
        ap (λ (p : Answered). p.1) (rw (e, reserve_new budget key e) at h) in
      subst (λ s. reserve_writer_read key s ≡ refused (over_budget already_read)) is_after
        (rw (reserve_charged budget key) refl)
]

-- A file read that names its repository, path and reference, and that the guard lets through under a
-- budget, is refused by the tool itself: the guard has reserved the key, and the tool reserves it
-- again.
pub guarded_read_refused :
    (repr : Json → String) (input : Fields) (owner repo path ref : String) (scope : DraftScope)
    (budget : WriterReadBudget) (after : Option DraftScope)
    → scope.read_budget ≡ some budget
    → (get_field "owner" input ≡ some (str owner)) × (is_empty owner ≡ false)
    → (get_field "repo" input ≡ some (str repo)) × (is_empty repo ≡ false)
    → (get_field "path" input ≡ some (str path)) × (is_empty path ≡ false)
    → (get_field "ref" input ≡ some (str ref)) × (is_empty ref ≡ false)
    → before_tool_call repr "github_read_file" (some (object input)) (some scope) ≡ (proceed, after)
    → (reserve_writer_read (writer_read_key "github_read_file" owner repo path ref) after
        ≡ refused (over_budget already_read))
      × ((error : Refusal) × (read_file owner repo path ref after ≡ refused error))
unfolding before_tool_call
guarded_read_refused repr input owner repo path ref scope budget after has o r p f h =
    let key = writer_read_key "github_read_file" owner repo path ref in
    let same =
      read_key-given repr input owner repo path ref scope o.0 o.1 r.0 r.1 p.0 p.1 f.0 f.1 in
    let judged : judge_read repr scope budget input key (failure budget key) ≡ (proceed, after) =
      rw (has, same) at h in
    let again = refused_again repr scope budget input key after judged in
    (again, refusal owner repo path ref after again)

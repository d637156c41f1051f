-- ===== src/Steering/Budgets.antt =====
-- What the counters of guides bound.
use Prim.Native.Nat.{max}
use mathlib.Core.Option
use mathlib.Core.Path.{subst}
use draftly_agent_backend.Prelude.{
  ℕ, ◌+◌, ◌≤◌, String, Option, none, some, Bool, true, false, ◌≡◌, refl, inl, inr, List, [], ◌∷◌,
  ◌++◌, arith, find_row, update_where, find_row-append_none, find_row-append_some, Option-cases,
  eq_iff, nat_beq_iff, find_row-update_where, find_row_holds, Bool-cases, ==_self, nat_eq,
  string_eq, ltb, if◌then◌else◌, ap, sym, ◌∙◌,
}
use draftly_agent_backend.Steering.Attempts.{
  AttemptKey, Attempt, same_key, at_key, count_up, upsert, reserve, or_back, and_then,
  reserve_with_total,
}

-- The guides that are counted under a key.
abbrev pub count_of : Option Attempt → ℕ
count_of none = 0
count_of (some a) = a.guide_count

abbrev pub spent : AttemptKey → List Attempt → ℕ
spent key rows = count_of (find_row (at_key key) rows)

pub same_key_self : (k : AttemptKey) → same_key k k ≡ true
same_key_self k =
    rw
      (
        ==_self k.run_id,
        ==_self k.agent_id,
        ==_self k.node_id,
        ==_self k.phase,
        ==_self k.tool_name,
        ==_self k.model_turn,
      )
      refl

-- Both outcomes of a reservation.
pub reserve_outcome :
    (key : AttemptKey) (limit : ℕ) (rows : List Attempt)
    → let (granted, after) = reserve key limit rows in
      (spent key after ≡ (if granted then spent key rows + 1 else spent key rows))
      × (granted ≡ true → spent key after ≤ max 1 limit)
      × (granted ≡ false → (limit ≤ spent key rows) × (after ≡ rows))
unfolding reserve
reserve_outcome key limit rows = go (find_row (at_key key) rows) refl
  where
    go :
        (o : Option Attempt)
        → find_row (at_key key) rows ≡ o
        → let (granted, after) = upsert key limit rows o in
          (spent key after ≡ (if granted then spent key rows + 1 else spent key rows))
          × (granted ≡ true → spent key after ≤ max 1 limit)
          × (granted ≡ false → (limit ≤ spent key rows) × (after ≡ rows))
    go none e =
        let now : spent key (rows ++ record { key = key; guide_count = 1 } ∷ []) ≡ 1 =
          ap count_of
            (find_row-append_none (at_key key) rows (record { key = key; guide_count = 1 }) e)
          ∙ ap (λ b. count_of (if b then some (record { key = key; guide_count = 1 }) else none))
              (same_key_self key) in
        let before : spent key rows ≡ 0 = ap count_of e in
        (omega (arith, now, before), λ _. omega (arith, now), λ h. absurd (ground arith))
    go (some a) e =
        let held = find_row_holds (at_key key) rows a e in
        let before : spent key rows ≡ a.guide_count = ap count_of e in
        let now : spent key (update_where (at_key key) count_up rows) ≡ a.guide_count + 1 =
          ap count_of (
            find_row-update_where (at_key key) (at_key key) count_up (λ x. refl) rows
            ∙ ap (Option.map (λ x. if at_key key x then count_up x else x)) e)
          ∙ ap (λ b. count_of (some (if b then count_up a else a))) held in
        elim (Bool-cases (ltb a.guide_count limit)) [
          | inl room ↦
              rw room
                (omega (arith, now, before), λ _. ground (arith, now), λ h. absurd (ground arith))
          | inr full ↦
              rw full (refl, λ h. absurd (ground arith), λ _. (ground (arith, before), refl))
        ]

-- Keys with equal fields are equal.
pub same_key-equal : (j k : AttemptKey) → same_key j k ≡ true → j ≡ k
same_key-equal j k h =
    build j.run_id k.run_id j.agent_id k.agent_id j.node_id k.node_id j.phase k.phase j.tool_name
      k.tool_name j.model_turn k.model_turn (ground (arith, eq_iff j.run_id k.run_id))
      (ground (arith, eq_iff j.agent_id k.agent_id)) (ground (arith, eq_iff j.node_id k.node_id))
      (ground (arith, eq_iff j.phase k.phase)) (ground (arith, eq_iff j.tool_name k.tool_name))
      (ground (arith, nat_beq_iff j.model_turn k.model_turn))
  where
    build :
        (r r' a a' n n' p p' t t' : String) (m m' : ℕ)
        → r ≡ r'
        → a ≡ a'
        → n ≡ n'
        → p ≡ p'
        → t ≡ t'
        → m ≡ m'
        → ◌≡◌ {A = AttemptKey}
            (record {
              run_id = r;
              agent_id = a;
              node_id = n;
              phase = p;
              tool_name = t;
              model_turn = m;
            })
            (record {
              run_id = r';
              agent_id = a';
              node_id = n';
              phase = p';
              tool_name = t';
              model_turn = m';
            })
    build r r' a a' n n' p p' t t' m m' e f g h i j = rw (e, f, g, h, i, j) refl

-- A row under one key is under no other.
at_other :
    (key other : AttemptKey) (a : Attempt)
    → same_key key other ≡ false
    → at_key other a ≡ true
    → at_key key a ≡ false
at_other key other a h k = elim (Bool-cases (at_key key a)) [
  | inr e ↦ e
  | inl e ↦
      let same : key ≡ other = sym (same_key-equal a.key key e) ∙ same_key-equal a.key other k in
      absurd (ground (arith, h, subst (λ x. same_key key x ≡ true) same (same_key_self key)))
]

-- A reservation under one key leaves the count under another as it was.
pub spent_other :
    (key other : AttemptKey) (limit : ℕ) (rows : List Attempt)
    → same_key key other ≡ false
    → spent other (reserve key limit rows).1 ≡ spent other rows
unfolding reserve
spent_other key other limit rows h = go (find_row (at_key key) rows) refl
  where
    go :
        (o : Option Attempt)
        → find_row (at_key key) rows ≡ o
        → spent other (upsert key limit rows o).1 ≡ spent other rows
    go none e =
        let new : Attempt = record { key = key; guide_count = 1 } in
        elim (Option-cases (find_row (at_key other) rows)) [
          | inl k ↦
              ap count_of (find_row-append_none (at_key other) rows new k)
              ∙ ap (λ b. count_of (if b then some new else none)) h
              ∙ sym (ap count_of k)
          | inr (a, k) ↦
              ap count_of (find_row-append_some (at_key other) rows new a k) ∙ sym (ap count_of k)
        ]
    go (some a) e = elim (Bool-cases (ltb a.guide_count limit)) [
      | inr full ↦ rw full refl
      | inl room ↦ rw room (
          ap count_of (find_row-update_where (at_key other) (at_key key) count_up (λ x. refl) rows)
          ∙ elim (Option-cases (find_row (at_key other) rows)) [
            | inl k ↦ rw k refl
            | inr (b, k) ↦
                rw (k, at_other key other b h (find_row_holds (at_key other) rows b k)) refl
          ])
    ]

or_back_lem :
    (rows : List Attempt) (p : Bool × List Attempt)
    → ((or_back rows p).0 ≡ false → (or_back rows p).1 ≡ rows)
      × ((or_back rows p).0 ≡ true → p ≡ (true, (or_back rows p).1))
or_back_lem rows (true, after) = (λ h. absurd (ground arith), λ h. refl)
or_back_lem rows (false, after) = (λ h. refl, λ h. absurd (ground arith))

and_then_lem :
    (p : Bool × List Attempt) (next : List Attempt → Bool × List Attempt) (after : List Attempt)
    → and_then p next ≡ (true, after)
    → (p.0 ≡ true) × (next p.1 ≡ (true, after))
and_then_lem (true, mid) next after h = (refl, h)
and_then_lem (false, mid) next after h =
    absurd (Bool-apart (ap (λ (q : Bool × List Attempt). q.0) h))
  where
    Bool-apart : false ≡ true → ⊥
    Bool-apart e = ground arith

-- Both outcomes of a reservation under two keys.
reserve_with_total_outcome :
    (key : AttemptKey) (limit : ℕ) (total_key : AttemptKey) (total_limit : ℕ) (rows : List Attempt)
    → let (granted, after) = reserve_with_total key limit total_key total_limit rows in
      (granted ≡ false → after ≡ rows)
      × (granted ≡ true
          → let scoped = reserve key limit rows in
            (scoped.0 ≡ true)
            × ((reserve total_key total_limit scoped.1) ≡ (true, after))
            × (spent key scoped.1 ≡ spent key rows + 1)
            × (spent key scoped.1 ≤ max 1 limit)
            × (spent total_key after ≡ spent total_key scoped.1 + 1)
            × (spent total_key after ≤ max 1 total_limit))
unfolding reserve_with_total
reserve_with_total_outcome key limit total_key total_limit rows =
    let first = reserve key limit rows in
    let both = and_then first (reserve total_key total_limit) in
    let (denied, granted) = or_back_lem rows both in
    let after = (reserve_with_total key limit total_key total_limit rows).1 in
    (
      denied,
      λ h.
          let (scoped, total) =
            and_then_lem first (reserve total_key total_limit) after (granted h) in
          let (counted, within, _) = reserve_outcome key limit rows in
          let (counted', within', _) = reserve_outcome total_key total_limit first.1 in
          let is_granted = ap (λ (q : Bool × List Attempt). q.0) total in
          let is_after = ap (λ (q : Bool × List Attempt). spent total_key q.1) total in
          (
            scoped,
            total,
            counted ∙ ap (λ b. if b then spent key rows + 1 else spent key rows) scoped,
            within scoped,
            sym is_after
                ∙ counted'
                ∙ ap (λ b. if b then spent total_key first.1 + 1 else spent total_key first.1)
                    is_granted,
            omega (arith, is_after, within' is_granted),
          ),
    )

-- A granted reservation counts one guide more, within the limit or as the first under its key.
pub reserve_granted :
    (key : AttemptKey) (limit : ℕ) (rows : List Attempt)
    → (reserve key limit rows).0 ≡ true
    → let after = (reserve key limit rows).1 in
      (spent key after ≡ spent key rows + 1) × (spent key after ≤ max 1 limit)
reserve_granted key limit rows h =
    let (counted, within, _) = reserve_outcome key limit rows in
    (counted ∙ ap (λ b. if b then spent key rows + 1 else spent key rows) h, within h)

-- A denied reservation changes nothing, and has found the limit reached.
pub reserve_denied :
    (key : AttemptKey) (limit : ℕ) (rows : List Attempt)
    → (reserve key limit rows).0 ≡ false
    → (limit ≤ spent key rows) × ((reserve key limit rows).1 ≡ rows)
reserve_denied key limit rows = (reserve_outcome key limit rows).2

-- A denied reservation of two counters changes neither.
pub reserve_with_total_denied :
    (key : AttemptKey) (limit : ℕ) (total_key : AttemptKey) (total_limit : ℕ) (rows : List Attempt)
    → (reserve_with_total key limit total_key total_limit rows).0 ≡ false
    → (reserve_with_total key limit total_key total_limit rows).1 ≡ rows
reserve_with_total_denied key limit total_key total_limit rows =
    (reserve_with_total_outcome key limit total_key total_limit rows).0

-- A granted reservation of two counters has reserved under one key and then under the other, each
-- time for one guide more, within the limit or as the first.
pub reserve_with_total_granted :
    (key : AttemptKey) (limit : ℕ) (total_key : AttemptKey) (total_limit : ℕ) (rows : List Attempt)
    → (reserve_with_total key limit total_key total_limit rows).0 ≡ true
    → let after = (reserve_with_total key limit total_key total_limit rows).1 in
      let scoped = reserve key limit rows in
      (scoped.0 ≡ true)
      × ((reserve total_key total_limit scoped.1) ≡ (true, after))
      × (spent key scoped.1 ≡ spent key rows + 1)
      × (spent key scoped.1 ≤ max 1 limit)
      × (spent total_key after ≡ spent total_key scoped.1 + 1)
      × (spent total_key after ≤ max 1 total_limit)
reserve_with_total_granted key limit total_key total_limit rows =
    (reserve_with_total_outcome key limit total_key total_limit rows).1

-- ===== src/Cache/Bounds.antt =====
-- The bounds of the read cache, and that a stored value is read back.
use Prim.Native.String.{len}
use draftly_agent_backend.Prelude.{
  ℕ, ◌+◌, ◌-◌, ◌≤◌, String, Option, none, some, Bool, false, ◌||◌, ◌≡◌, refl, inl, inr, List, [],
  ◌∷◌, ◌++◌, arith, length, length-append, any, any-append, ◌==◌, ==_self, eq_iff, string_eq, ltb,
  Bool-cases, ap, sym, ◌∙◌,
}
use draftly_agent_backend.Cache.{
  Entry, RepoReadCache, lookup, without, found, get, evict, size_of, filled, put,
}

-- The bytes of all values.
abbrev pub total : List Entry → ℕ
total [] = 0
total (e ∷ es) = len e.value + total es

abbrev pub has_key : String → List Entry → Bool
has_key key es = any (λ (e : Entry). e.key == key) es

-- Each key once.
abbrev pub Distinct : List Entry → Type 0
Distinct [] = Unit
Distinct (e ∷ es) = (has_key e.key es ≡ false) × Distinct es

pub record IsBounded (c : RepoReadCache) : Type 0 where
  pub counted : c.bytes ≡ total c.entries
  pub distinct : Distinct c.entries
  pub few : length c.entries ≤ c.max_entries
  pub small : c.bytes ≤ c.max_bytes
  pub usable : 1 ≤ c.max_entries

total-append : (es fs : List Entry) → total (es ++ fs) ≡ total es + total fs
total-append [] fs = omega arith
total-append (e ∷ es) fs = omega (arith, total-append es fs)

total-without :
    (key : String) (es : List Entry) → total (without key es) + size_of (lookup key es) ≡ total es
unfolding without lookup
total-without key [] = refl
total-without key (e ∷ es) = ground (arith, total-without key es)

length-without :
    (key value : String) (es : List Entry)
    → lookup key es ≡ some value
    → length (without key es) + 1 ≡ length es
unfolding without lookup
length-without key value [] h = absurd (ground arith)
length-without key value (e ∷ es) h = ground (arith, length-without key value es)

-- Taking an entry out brings no key in.
has_key-without :
    (key other : String) (es : List Entry)
    → has_key other es ≡ false
    → has_key other (without key es) ≡ false
unfolding without
has_key-without key other [] h = refl
has_key-without key other (e ∷ es) h = ground (arith, has_key-without key other es)

without-Distinct : (key : String) (es : List Entry) → Distinct es → Distinct (without key es)
unfolding without
without-Distinct key [] d = tt
without-Distinct key (e ∷ es) d = elim (Bool-cases (e.key == key)) [
  | inl k ↦ rw k d.1
  | inr k ↦ rw k (has_key-without key e.key es d.0, without-Distinct key es d.1)
]

without_gone : (key : String) (es : List Entry) → Distinct es → has_key key (without key es) ≡ false
unfolding without
without_gone key [] d = refl
without_gone key (e ∷ es) d = ground (arith, d.0, eq_iff e.key key, without_gone key es d.1)

Distinct-append :
    (es : List Entry) (e : Entry) → Distinct es → has_key e.key es ≡ false → Distinct (es ++ e ∷ [])
Distinct-append [] e d h = (refl, tt)
Distinct-append (f ∷ es) e d h = (
  any-append (λ (g : Entry). g.key == f.key) es (e ∷ [])
      ∙ ground (arith, d.0, eq_iff e.key f.key, eq_iff f.key e.key),
  Distinct-append es e d.1 (ground arith),
)

lookup-append :
    (es : List Entry) (e : Entry)
    → has_key e.key es ≡ false
    → lookup e.key (es ++ e ∷ []) ≡ some e.value
unfolding lookup
lookup-append [] e h = ground (arith, ==_self e.key)
lookup-append (f ∷ es) e h = ground (arith, lookup-append es e)

-- What an eviction leaves of some entries and a last one that fits: the last one, behind a part of
-- the others that respects the bounds.
record Kept (max_entries max_bytes : ℕ) (fs : List Entry) (e : Entry) (bytes n : ℕ) : Type 0 where
  rest : List Entry
  left : ℕ
  count : ℕ
  ran : evict max_entries max_bytes (fs ++ e ∷ []) bytes n ≡ some (rest ++ e ∷ [], left, count)
  counted : left ≡ total (rest ++ e ∷ [])
  few : length (rest ++ e ∷ []) ≤ max_entries
  small : left ≤ max_bytes
  distinct : Distinct rest
  fresh : has_key e.key rest ≡ false

evict-Kept :
    (max_entries max_bytes : ℕ) (fs : List Entry) (e : Entry) (bytes n : ℕ)
    → bytes ≡ total (fs ++ e ∷ [])
    → 1 ≤ max_entries
    → len e.value ≤ max_bytes
    → Distinct fs
    → has_key e.key fs ≡ false
    → Kept max_entries max_bytes fs e bytes n
unfolding evict
evict-Kept me mb [] e bytes n b one fits d h = record {
  rest = [];
  left = bytes;
  count = n;
  ran = ground arith;
  counted = b;
  few = one;
  small = omega arith;
  distinct = tt;
  fresh = refl;
}
evict-Kept me mb (f ∷ fs) e bytes n b one fits d h =
    elim (Bool-cases (ltb me (length (f ∷ fs ++ e ∷ [])) || ltb mb bytes)) [
      | inl over ↦
          let k =
            evict-Kept me mb fs e (bytes - len f.value) (n + 1) (omega arith) one fits d.1
              (ground arith) in
          record {
            rest = k.rest;
            left = k.left;
            count = k.count;
            ran = rw over k.ran;
            counted = k.counted;
            few = k.few;
            small = k.small;
            distinct = k.distinct;
            fresh = k.fresh;
          }
      | inr room ↦ record {
        rest = f ∷ fs;
        left = bytes;
        count = n;
        ran = rw room refl;
        counted = b;
        few = ground arith;
        small = ground arith;
        distinct = d;
        fresh = h;
      }
    ]

-- Both promises of `put`.
put_outcome :
    (key value : String) (c : RepoReadCache)
    → IsBounded c
    → (after : RepoReadCache) × (put key value c ≡ some after)
      × IsBounded after
      × (len value ≤ c.max_bytes → lookup key after.entries ≡ some value)
unfolding put
put_outcome key value c ok_c = elim (Bool-cases (ltb c.max_bytes (len value))) [
  | inl large ↦ (c, rw large refl, ok_c, λ fits. absurd (ground arith))
  | inr fits ↦
      let e : Entry = record { key = key; value = value } in
      let kept = without key c.entries in
      let gone = without_gone key c.entries ok_c.distinct in
      let bytes = c.bytes - size_of (lookup key c.entries) + len value in
      let counted : bytes ≡ total (kept ++ e ∷ []) =
        omega (arith, total-append kept (e ∷ []), total-without key c.entries, ok_c.counted) in
      let k =
        evict-Kept c.max_entries c.max_bytes kept e bytes c.evictions counted ok_c.usable
          (ground arith) (without-Distinct key c.entries ok_c.distinct) gone in
      let after : RepoReadCache = record c {
        entries = k.rest ++ e ∷ [];
        bytes = k.left;
        evictions = k.count;
      } in
      (
        after,
        rw fits (ap (filled c) k.ran),
        record {
          counted = k.counted;
          distinct = Distinct-append k.rest e k.distinct k.fresh;
          few = k.few;
          small = k.small;
          usable = ok_c.usable;
        },
        λ _. lookup-append k.rest e k.fresh,
      )
]

-- `get` returns what is stored under the key, keeps the cache within its bounds, and keeps every
-- key's value.
pub get_lem :
    (key : String) (c : RepoReadCache)
    → IsBounded c
    → ((get key c).0 ≡ lookup key c.entries) × IsBounded (get key c).1
unfolding get
get_lem key c ok_c = go (lookup key c.entries) refl
  where
    go :
        (o : Option String)
        → lookup key c.entries ≡ o
        → ((found o key c).0 ≡ lookup key c.entries) × IsBounded (found o key c).1
    go none e = (
      sym e,
      record {
        counted = ok_c.counted;
        distinct = ok_c.distinct;
        few = ok_c.few;
        small = ok_c.small;
        usable = ok_c.usable;
      },
    )
    go (some value) e =
        let entry : Entry = record { key = key; value = value } in
        let kept = without key c.entries in
        let size : size_of (lookup key c.entries) ≡ len value = ap size_of e in
        (
          sym e,
          record {
            counted = omega (
              arith,
              ok_c.counted,
              total-append kept (entry ∷ []),
              total-without key c.entries,
              size,
            );
            distinct =
                Distinct-append kept entry (without-Distinct key c.entries ok_c.distinct)
                  (without_gone key c.entries ok_c.distinct);
            few = omega (
              arith,
              ok_c.few,
              length-append kept (entry ∷ []),
              length-without key value c.entries e,
            );
            small = ok_c.small;
            usable = ok_c.usable;
          },
        )

-- `put` never raises on a cache within its bounds, and keeps it within them: the counted bytes are
-- those of the values, no key is twice, and neither bound is passed.
pub put_lem :
    (key value : String) (c : RepoReadCache)
    → IsBounded c
    → (after : RepoReadCache) × (put key value c ≡ some after) × IsBounded after
put_lem key value c ok_c =
    let (after, ran, bounded, _) = put_outcome key value c ok_c in (after, ran, bounded)

-- A value that fits the byte bound is read back under its key at once.
pub get-put :
    (key value : String) (c : RepoReadCache)
    → IsBounded c
    → len value ≤ c.max_bytes
    → (after : RepoReadCache) × (put key value c ≡ some after) × ((get key after).0 ≡ some value)
get-put key value c ok_c fits =
    let (after, ran, bounded, reads) = put_outcome key value c ok_c in
    (after, ran, (get_lem key after bounded).0 ∙ reads fits)

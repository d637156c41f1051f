-- ===== src/Cache.antt =====
-- `RepoReadCache` of src/draftly/agents/documentation/repo_read_cache.py: a cache of repository reads
-- that is bounded in entries and in bytes, and gives up the least recently used.
pub mod Bounds
mod Scenarios
use Prim.Native.String.{len}
use draftly_agent_backend.Prelude.{
  ℕ, suc, ◌+◌, ◌-◌, String, Option, none, some, Bool, true, false, ◌||◌, List, [], ◌∷◌, ◌++◌,
  length, ◌==◌, string_eq, ltb, if◌then◌else◌,
}

pub record Entry : Type 0 where
  pub key : String
  pub value : String

-- The entries stand from the least to the most recently used. `len` counts the bytes of the UTF-8
-- encoding.
pub record RepoReadCache : Type 0 where
  pub entries : List Entry
  pub bytes : ℕ
  pub max_entries : ℕ
  pub max_bytes : ℕ
  pub hits : ℕ
  pub misses : ℕ
  pub evictions : ℕ

-- `RepoReadCache(max_entries=…, max_bytes=…)`; `none` is a `ValueError`.
unfoldable pub new_cache : ℕ → ℕ → Option RepoReadCache
new_cache max_entries max_bytes =
    if ltb max_entries 1 || ltb max_bytes 1
    then none
    else some (record {
      entries = [];
      bytes = 0;
      max_entries = max_entries;
      max_bytes = max_bytes;
      hits = 0;
      misses = 0;
      evictions = 0;
    })

unfoldable pub lookup : String → List Entry → Option String
lookup key [] = none
lookup key (e ∷ es) = if e.key == key then some e.value else lookup key es

-- What an `OrderedDict` holds after a key was taken out.
unfoldable pub without : String → List Entry → List Entry
without key [] = []
without key (e ∷ es) = let rest = without key es in if e.key == key then es else e ∷ rest

abbrev pub found : Option String → String → RepoReadCache → Option String × RepoReadCache
found none key c = (none, record c { misses = c.misses + 1 })
found (some value) key c = (
  some value,
  record c {
    entries = without key c.entries ++ record { key = key; value = value } ∷ [];
    hits = c.hits + 1;
  },
)

-- `get`
unfoldable pub get : String → RepoReadCache → Option String × RepoReadCache
unfolding lookup without
get key c = found (lookup key c.entries) key c

-- The entries, the bytes and the number of evictions that the loop at the end of `put` leaves;
-- `none` is the `KeyError` of `popitem` on no entries.
unfoldable pub evict : ℕ → ℕ → List Entry → ℕ → ℕ → Option (List Entry × ℕ × ℕ)
evict max_entries max_bytes [] bytes evictions =
    if ltb max_bytes bytes then none else some ([], bytes, evictions)
evict max_entries max_bytes (e ∷ es) bytes evictions =
    let rest = evict max_entries max_bytes es (bytes - len e.value) (evictions + 1) in
    if ltb max_entries (length (e ∷ es)) || ltb max_bytes bytes
    then rest
    else some (e ∷ es, bytes, evictions)

abbrev pub size_of : Option String → ℕ
size_of none = 0
size_of (some value) = len value

abbrev pub filled : RepoReadCache → Option (List Entry × ℕ × ℕ) → Option RepoReadCache
filled c none = none
filled c (some (entries, bytes, evictions)) =
    some (record c { entries = entries; bytes = bytes; evictions = evictions })

-- `put`; a value that is larger than the bound is not stored. The bytes of a replaced value are
-- among those counted, so that the difference is not negative.
unfoldable pub put : String → String → RepoReadCache → Option RepoReadCache
unfolding lookup without evict
put key value c =
    let kept = without key c.entries in
    let bytes = c.bytes - size_of (lookup key c.entries) + len value in
    if ltb c.max_bytes (len value)
    then some c
    else filled c (
        evict c.max_entries c.max_bytes (kept ++ record { key = key; value = value } ∷ []) bytes
          c.evictions)

-- `clear`
unfoldable pub clear : RepoReadCache → RepoReadCache
clear c = record c { entries = []; bytes = 0 }

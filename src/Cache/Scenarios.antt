-- ===== src/Cache/Scenarios.antt =====
-- A cache of two entries that takes a third.

use draftly_agent_backend.Prelude.{some, ◌≡◌, refl, [], ◌∷◌, arith}
use draftly_agent_backend.Cache.{RepoReadCache, get, put}
use draftly_agent_backend.Cache.Bounds.{IsBounded, put_lem, get-put}

abbrev full : RepoReadCache
full = record {
  entries = record { key = "a"; value = "xx" } ∷ record { key = "b"; value = "yyy" } ∷ [];
  bytes = 5;
  max_entries = 2;
  max_bytes = 10;
  hits = 0;
  misses = 2;
  evictions = 0;
}

full-IsBounded : IsBounded full
full-IsBounded = record {
  counted = refl;
  distinct = (refl, (refl, tt));
  few = omega arith;
  small = omega arith;
  usable = omega arith;
}

put_lem_example : (after : RepoReadCache) × (put "c" "zz" full ≡ some after) × IsBounded after
put_lem_example = put_lem "c" "zz" full full-IsBounded

get-put_example :
    (after : RepoReadCache) × (put "c" "zz" full ≡ some after) × ((get "c" after).0 ≡ some "zz")
get-put_example = get-put "c" "zz" full full-IsBounded (omega arith)

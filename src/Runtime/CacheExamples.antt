-- ===== src/Runtime/CacheExamples.antt =====
-- pkg/runtime/cached.go: a cache that answers with an old version, and some writes.
use nah.Prelude.{
  Text, codes, insert, lookup, IsMap, text_eq, text_discrete, List, [], ◌∷◌, Option, none, some,
  ◌≡◌, refl, arith, ltb, ℕ, suc,
}
use nah.Error.{ok}
use nah.Kube.{gvk_discrete, Object, Client}
use nah.Samples.{config_map, object, kind_of}
use nah.Runtime.Cached.{
  cache_key_eq, ℤ, pos, cache_key_discrete, Recent, Backing, CacheClient, newer, store, update, get,
  cache_key, purge,
}
use nah.Runtime.Cached.Versions.{decimal, newer_lem}
use nah.Runtime.Cached.Overlay.{Change, wrote, deleted, purged, run, replay, run_refines}

abbrev settings : Object
settings = object config_map (codes "prod") (codes "settings")

-- The server counts the writes, and gives every written object version 10; reads of the cache
-- still answer with version 7.
abbrev stale : Client ℕ
stale = record {
  get = λ g ns n w. (ok (object g ns n), w);
  create = λ obj w. (ok (record obj { resource_version = codes "10" }), suc w);
  update = λ obj w. (ok (record obj { resource_version = codes "10" }), suc w);
  update_status = λ obj w. (ok obj, suc w);
  delete = λ g ns n w. (none, suc w);
}

abbrev backing : Backing ℕ
backing = record {
  client = stale;
  patch = λ obj diff w. (ok obj, suc w);
  delete_all_of = λ obj w. (none, suc w);
  list = λ obj w. (ok [], w);
  status_patch = λ obj diff w. (ok obj, suc w);
}

abbrev to_int : Text → Option ℤ
to_int s = some (pos (decimal s))

abbrev cache : CacheClient ℕ
cache = record { uncached = backing; cached = backing; gvk_for_object = kind_of; atoi = to_int }

newer_lem_example :
    newer to_int (codes "9") (codes "10") ≡ ltb (decimal (codes "9")) (decimal (codes "10"))
newer_lem_example =
    newer_lem to_int (codes "9") (codes "10") ((omega arith, omega arith), tt)
      ((omega arith, omega arith), ((omega arith, omega arith), tt)) refl refl

abbrev saved : Object
saved = record settings { resource_version = codes "10" }

abbrev changes : List Change
changes = wrote 5 settings ∷ deleted settings ∷ wrote 7 saved ∷ purged 9 ∷ []

run_refines_example :
    IsMap (run cache changes [])
    × (lookup (cache_key config_map settings) (run cache changes [])
        ≡ replay cache changes
            (cache_key config_map settings)
            (lookup (cache_key config_map settings) []))
run_refines_example = run_refines cache changes (cache_key config_map settings) [] tt

remembers :
    run cache changes []
    ≡ (cache_key config_map settings, record { object = saved; inserted = 7 }) ∷ []
unfolding run store purge insert lookup cache_key_discrete gvk_discrete text_discrete
remembers = refl

abbrev recent : Recent
unfolding store insert
recent = store cache 5 saved []

-- An object as a caller passes it to be filled in.
abbrev unfilled : Object
unfilled = object config_map [] []

-- ===== src/Runtime/Cached/Overlay.antt =====
-- pkg/runtime/cached.go: the recent writes as a function from keys, whatever calls are made.
use nah.Prelude.{
  delete-IsMap, insert-IsMap, lookup, lookup-insert, lookup-delete, IsMap, ◌==◌, if◌then◌else◌, ltb,
  List, [], ◌∷◌, Option, none, some, Bool, false, ℕ, ◌+◌, ◌≡◌, refl, arith, contains, keys, ◌∙◌, ap,
}
use nah.Kube.{GroupVersionKind, Object}
use nah.Error.{Result, ok, err}
use nah.Runtime.Cached.{
  CacheKey, cache_key_eq, CacheValue, Recent, cache_duration, CacheClient, purge, store,
  delete_store, cache_key, store_key, delete_key,
}

-- What the calls and the purge do to the recent writes.
pub data Change : Type 0 where
  wrote : ℕ → Object → Change
  deleted : Object → Change
  purged : ℕ → Change

module _ {W : Type 0} (c : CacheClient W) where
  unfoldable pub run : List Change → Recent → Recent
  unfolding store delete_store purge
  run [] recent = recent
  run (wrote now obj ∷ changes) recent = run changes (store c now obj recent)
  run (deleted obj ∷ changes) recent = run changes (delete_store c obj recent)
  run (purged now ∷ changes) recent = run changes (purge now recent)

  -- The key of an object whose kind is known.
  abbrev pub is_at : CacheKey → Object → Result GroupVersionKind → Bool
  is_at k obj (err e) = false
  is_at k obj (ok gvk) = cache_key gvk obj == k

  abbrev pub unexpired : ℕ → Option CacheValue → Option CacheValue
  unexpired now none = none
  unexpired now (some v) = if ltb (v.inserted + cache_duration) now then none else some v

  -- The same changes at one key.
  unfoldable pub replay : List Change → CacheKey → Option CacheValue → Option CacheValue
  replay [] k before = before
  replay (wrote now obj ∷ changes) k before = replay changes k (
      if is_at k obj (c.gvk_for_object obj)
      then some (record { object = obj; inserted = now })
      else before)
  replay (deleted obj ∷ changes) k before =
      replay changes k (if is_at k obj (c.gvk_for_object obj) then none else before)
  replay (purged now ∷ changes) k before = replay changes k (unexpired now before)

contains-purge :
    (now : ℕ) (k : CacheKey) (recent : Recent)
    → contains (keys recent) k ≡ false
    → contains (keys (purge now recent)) k ≡ false
unfolding purge
contains-purge now k [] h = refl
contains-purge now k ((j, v) ∷ recent) h = ground (arith, contains-purge now k recent)

purge-IsMap : (now : ℕ) (recent : Recent) → IsMap recent → IsMap (purge now recent)
unfolding purge
purge-IsMap now [] h = tt
purge-IsMap now ((k, v) ∷ recent) h =
    ground (arith, contains-purge now k recent h.0, purge-IsMap now recent h.1)

lookup-absent :
    (k : CacheKey) (recent : Recent) → contains (keys recent) k ≡ false → lookup k recent ≡ none
unfolding lookup
lookup-absent k [] h = refl
lookup-absent k ((j, v) ∷ recent) h = ground (arith, lookup-absent k recent)

module _ {W : Type 0} (c : CacheClient W) where
  lookup-purge :
      (now : ℕ) (k : CacheKey) (recent : Recent)
      → IsMap recent
      → lookup k (purge now recent) ≡ unexpired c now (lookup k recent)
  unfolding purge lookup
  lookup-purge now k [] h = refl
  lookup-purge now k ((j, v) ∷ recent) h =
      ground (arith, lookup-purge now k recent h.1, lookup-absent k recent)

  lookup-store_key :
      (now : ℕ) (obj : Object) (g : Result GroupVersionKind) (k : CacheKey) (recent : Recent)
      → lookup k (store_key c now obj g recent) ≡ (
          if is_at c k obj g
          then some (record { object = obj; inserted = now })
          else lookup k recent)
  lookup-store_key now obj (err e) k recent = refl
  lookup-store_key now obj (ok gvk) k recent =
      lookup-insert (cache_key gvk obj) k (record { object = obj; inserted = now }) recent

  lookup-delete_key :
      (obj : Object) (g : Result GroupVersionKind) (k : CacheKey) (recent : Recent)
      → lookup k (delete_key c obj g recent) ≡ (if is_at c k obj g then none else lookup k recent)
  lookup-delete_key obj (err e) k recent = refl
  lookup-delete_key obj (ok gvk) k recent = lookup-delete (cache_key gvk obj) k recent

  store_key-IsMap :
      (now : ℕ) (obj : Object) (g : Result GroupVersionKind) (recent : Recent)
      → IsMap recent
      → IsMap (store_key c now obj g recent)
  store_key-IsMap now obj (err e) recent h = h
  store_key-IsMap now obj (ok gvk) recent h =
      insert-IsMap (cache_key gvk obj) (record { object = obj; inserted = now }) recent h

  delete_key-IsMap :
      (obj : Object) (g : Result GroupVersionKind) (recent : Recent)
      → IsMap recent
      → IsMap (delete_key c obj g recent)
  delete_key-IsMap obj (err e) recent h = h
  delete_key-IsMap obj (ok gvk) recent h = delete-IsMap (cache_key gvk obj) recent h

  -- After any writes, deletions and purges, in any order, the recent writes hold at each key what
  -- these make of it one after the other: the last write there that was neither deleted since nor
  -- found to be older than the cache duration by a purge since; objects without a known kind
  -- change nothing. No key is there twice.
  pub run_refines :
      (changes : List Change) (k : CacheKey) (recent : Recent)
      → IsMap recent
      → IsMap (run c changes recent)
        × (lookup k (run c changes recent) ≡ replay c changes k (lookup k recent))
  unfolding run replay store delete_store
  run_refines [] k recent h = (h, refl)
  run_refines (wrote now obj ∷ changes) k recent h =
      let g = c.gvk_for_object obj in
      let next =
        run_refines changes k (store_key c now obj g recent) (store_key-IsMap now obj g recent h) in
      (next.0, next.1 ∙ ap (replay c changes k) (lookup-store_key now obj g k recent))
  run_refines (deleted obj ∷ changes) k recent h =
      let g = c.gvk_for_object obj in
      let next =
        run_refines changes k (delete_key c obj g recent) (delete_key-IsMap obj g recent h) in
      (next.0, next.1 ∙ ap (replay c changes k) (lookup-delete_key obj g k recent))
  run_refines (purged now ∷ changes) k recent h =
      let next = run_refines changes k (purge now recent) (purge-IsMap now recent h) in
      (next.0, next.1 ∙ ap (replay c changes k) (lookup-purge now k recent h))

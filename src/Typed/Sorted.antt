-- ===== src/Typed/Sorted.antt =====
-- pkg/typed/map.go: what Sorted and Merge answer under each key.
use nah.Prelude.{
  Text, Map, subst, ◌&&◌, ◌||◌, ==_self, ◌&&◌, ◌||◌, ==_self, lookup, insert, keys, text_eq,
  sort_by, List, [], ◌∷◌, ◌++◌, Option, none, some, ◌≡◌, refl, arith, IsMap, IsNodup, IsSorted,
  sort_by-IsSorted, sort_by-IsNodup, contains-sort_by, is_some-lookup, is_some, if◌then◌else◌,
  contains, ◌==◌, ap, sym, ◌∙◌, lookup-insert, true, false, Bool, eq_of_==,
}
use nah.Typed.{put_entries, concat_maps, sorted_keys, sorted, merge, entries_at, entry_of}

module _ {V : Type 0} where
  entry_first :
      (k : Text) (v : Option V) (rest : Map Text V)
      → is_some v ≡ true
      → keys (entry_of k v ++ rest) ≡ k ∷ keys rest
  entry_first k none rest h = cc
  entry_first k (some v) rest h = refl

  keys-entries_at :
      (m : Map Text V) (ks : List Text)
      → ((k : Text) → contains ks k ≡ true → is_some (lookup k m) ≡ true)
      → keys (entries_at m ks) ≡ ks
  keys-entries_at m [] h = refl
  keys-entries_at m (k ∷ ks) h =
      entry_first k (lookup k m) (entries_at m ks) (h k (ground (arith, ==_self k)))
      ∙ ap (λ l. k ∷ l) (keys-entries_at m ks (λ j c. h j (ground arith)))

  lookup-entry_of :
      (j k : Text) (v : Option V) (rest : Map Text V)
      → lookup k (entry_of j v ++ rest) ≡ (if is_some v && j == k then v else lookup k rest)
  unfolding lookup
  lookup-entry_of j k none rest = refl
  lookup-entry_of j k (some v) rest = refl

  chosen :
      (same later : Bool) (here there : Option V)
      → (same ≡ true → here ≡ there)
      → (if is_some here && same then here else if later then there else none)
        ≡ (if same || later then there else none)
  chosen false later here there h = ground arith
  chosen true later here there h = rw (h refl) (by_case later there)
    where
      by_case :
          (later : Bool) (there : Option V)
          → (if is_some there && true then there else if later then there else none) ≡ there
      by_case later none = ground arith
      by_case later (some v) = refl

  lookup-entries_at :
      (m : Map Text V) (ks : List Text) (k : Text)
      → lookup k (entries_at m ks) ≡ (if contains ks k then lookup k m else none)
  unfolding lookup
  lookup-entries_at m [] k = refl
  lookup-entries_at m (j ∷ ks) k =
      lookup-entry_of j k (lookup j m) (entries_at m ks)
      ∙ rw (lookup-entries_at m ks k) (
          chosen (j == k) (contains ks k) (lookup j m) (lookup k m)
            (λ p. ap (λ i. lookup i m) (eq_of_== j k p)))

  lookup-put_entries :
      (m result : Map Text V) (k : Text)
      → IsMap m
      → lookup k (put_entries result m)
        ≡ (if is_some (lookup k m) then lookup k m else lookup k result)
  unfolding put_entries lookup
  lookup-put_entries [] result k h = refl
  lookup-put_entries ((j, v) ∷ m) result k h = ground (
    arith,
    lookup-put_entries m (insert j v result) k h.1,
    lookup-insert j k v result,
    is_some-lookup k m,
  )

  keys-IsNodup : (m : Map Text V) → IsMap m → IsNodup (keys m)
  keys-IsNodup [] h = tt
  keys-IsNodup ((k, v) ∷ m) h = (h.0, keys-IsNodup m h.1)

  listed : (o : Option V) → (if is_some o then o else none) ≡ o
  listed none = refl
  listed (some v) = refl

  -- Sorted lists the entries of a map by strings, whose keys are distinct, each once, in the order of their keys:
  -- no key is missing, none is added, and each has the value that it has in the map.
  pub sorted_lem :
      (m : Map Text V)
      → IsMap m
      → IsSorted (λ k. k) (keys (sorted m))
        × IsNodup (keys (sorted m))
        × ((k : Text) → lookup k (sorted m) ≡ lookup k m)
  unfolding sorted sorted_keys
  sorted_lem m h =
      let name = λ (k : Text). k in
      let there : (k : Text) → contains (sort_by name (keys m)) k ≡ is_some (lookup k m) =
        λ k. contains-sort_by name (keys m) k ∙ sym (is_some-lookup k m) in
      let order : keys (sorted m) ≡ sort_by name (keys m) =
        keys-entries_at m (sort_by name (keys m)) (λ k c. sym (there k) ∙ c) in
      (
        subst (λ l. IsSorted name l) (sym order) (sort_by-IsSorted name (keys m)),
        subst (λ l. IsNodup l) (sym order) (sort_by-IsNodup name (keys m) (keys-IsNodup m h)),
        λ k. lookup-entries_at m (sort_by name (keys m)) k ∙ rw (there k) (listed (lookup k m)),
      )

  -- Merge of two maps by strings, whose keys are distinct, has under each key what the second one has, and what
  -- the first one has where the second has nothing.
  pub merge_lem :
      (g from : Map Text V) (k : Text)
      → IsMap g
      → IsMap from
      → lookup k (merge g from) ≡ (if is_some (lookup k from) then lookup k from else lookup k g)
  unfolding merge concat_maps lookup
  merge_lem g from k hg hf =
      lookup-put_entries from (put_entries [] g) k hf
      ∙ rw (lookup-put_entries g [] k hg)
          (ap (λ o. if is_some (lookup k from) then lookup k from else o) (listed (lookup k g)))

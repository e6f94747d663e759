-- ===== src/Runtime/Cached.antt =====
-- pkg/runtime/cached.go: a client that reads from a cache and remembers its own recent writes, with
-- CopyInto of copy.go. Objects are typed: unstructured ones are copied through JSON instead.
pub mod Versions
pub mod Overlay
pub mod Reads
use nah.Prelude.{
  Text, codes, Map, lookup, insert, delete, text_eq, text_discrete, text_ltb, nat_eq, HasEq, ◌==◌,
  if◌then◌else◌, ltb, length, List, [], ◌∷◌, Option, none, some, Bool, true, false, not, ◌&&◌, ℕ,
  ◌+◌, ◌*◌,
}
use nah.Error.{Error, message, joined, Errors, nil, cons, Result, ok, err, not_found, has_reason}
use nah.Kube.{GroupVersionKind, gvk_eq, gvk_discrete, Object, Client}
use nah.Untriggered.{Argument, is_wrapped, is_uncached, unwrap}

-- objectKey
pub record CacheKey : Type 0 where
  pub gvk : GroupVersionKind
  pub namespace : Text
  pub name : Text

cache_key_fields : Discrete CacheKey
unfolding text_discrete gvk_discrete
cache_key_fields = hlevel (text_discrete, gvk_discrete)

unfoldable pub cache_key_discrete : Discrete CacheKey
unfolding cache_key_fields
cache_key_discrete = cache_key_fields

instance abbrev pub cache_key_eq : HasEq CacheKey
cache_key_eq = record { same = cache_key_discrete }

-- objectValue
pub record CacheValue : Type 0 where
  pub object : Object
  pub inserted : ℕ

abbrev pub Recent : Type 0
Recent = Map CacheKey CacheValue

-- 10 * time.Second
abbrev pub cache_duration : ℕ
cache_duration = 10000000000

-- An int, as strconv.Atoi returns it.
pub data ℤ : Type 0 where
  pos : ℕ → ℤ
  negsuc : ℕ → ℤ

abbrev pub ltb_int : ℤ → ℤ → Bool
ltb_int (pos a) (pos b) = ltb a b
ltb_int (pos a) (negsuc b) = false
ltb_int (negsuc a) (pos b) = true
ltb_int (negsuc a) (negsuc b) = ltb b a

abbrev pub compare_parsed : Option ℤ → Option ℤ → Bool
compare_parsed none n = true
compare_parsed (some o) none = false
compare_parsed (some o) (some n) = ltb_int o n

-- newer; strconv.Atoi is a parameter
unfoldable pub newer : (Text → Option ℤ) → Text → Text → Bool
unfolding text_ltb
newer atoi old_version new_version =
    if length old_version == length new_version
    then text_ltb old_version new_version
    else compare_parsed (atoi old_version) (atoi new_version)

-- One round of startPurge
unfoldable pub purge : ℕ → Recent → Recent
purge now [] = []
purge now ((k, v) ∷ recent) =
    let rest = purge now recent in
    if ltb (v.inserted + cache_duration) now then rest else (k, v) ∷ rest

abbrev pub cache_key : GroupVersionKind → Object → CacheKey
cache_key gvk obj = record { gvk = gvk; namespace = obj.namespace; name = obj.name }

-- CopyInto: what the destination holds afterwards
unfoldable pub copy_into : Object → Object → Result Object
copy_into dst src =
    if src.go_type == dst.go_type then ok src else err (message (codes "type not assignable"))

-- The calls of the two clients under the cache that Client does not have.
pub record Backing (W : Type 0) : Type 0 where
  pub client : Client W
  pub patch : Object → Text → W → Result Object × W
  pub delete_all_of : Object → W → Option Error × W
  pub list : Object → W → Result (List Object) × W
  pub status_patch : Object → Text → W → Result Object × W

pub record CacheClient (W : Type 0) : Type 0 where
  pub uncached : Backing W
  pub cached : Backing W
  pub gvk_for_object : Object → Result GroupVersionKind
  pub atoi : Text → Option ℤ

module _ {W : Type 0} (c : CacheClient W) where
  abbrev pub delete_key : Object → Result GroupVersionKind → Recent → Recent
  delete_key obj (err e) recent = recent
  delete_key obj (ok gvk) recent = delete (cache_key gvk obj) recent

  -- cacheClient.deleteStore
  unfoldable pub delete_store : Object → Recent → Recent
  unfolding delete
  delete_store obj recent = delete_key obj (c.gvk_for_object obj) recent

  abbrev pub store_key : ℕ → Object → Result GroupVersionKind → Recent → Recent
  store_key now obj (err e) recent = recent
  store_key now obj (ok gvk) recent =
      insert (cache_key gvk obj) (record { object = obj; inserted = now }) recent

  -- cacheClient.store at a time
  unfoldable pub store : ℕ → Object → Recent → Recent
  unfolding insert
  store now obj recent = store_key now obj (c.gvk_for_object obj) recent

  -- A call that writes, and what is remembered of it.
  abbrev pub remembered : ℕ → Recent → Result Object × W → Result Object × Recent × W
  remembered now recent (err e, w) = (err e, recent, w)
  remembered now recent (ok obj, w) = (ok obj, store now obj recent, w)

  abbrev pub bypassed {ℓ} : {A : Type ℓ} → Recent → A × W → A × Recent × W
  bypassed recent (a, w) = (a, recent, w)

  -- cacheClient.Create, Update and Patch
  unfoldable pub create : ℕ → Argument → Recent → W → Result Object × Recent × W
  unfolding store
  create now arg recent w =
      if is_uncached arg
      then bypassed recent (c.uncached.client.create (unwrap arg) w)
      else remembered now recent (c.cached.client.create (unwrap arg) w)

  unfoldable pub update : ℕ → Argument → Recent → W → Result Object × Recent × W
  unfolding store
  update now arg recent w =
      if is_uncached arg
      then bypassed recent (c.uncached.client.update (unwrap arg) w)
      else remembered now recent (c.cached.client.update (unwrap arg) w)

  unfoldable pub patch : ℕ → Argument → Text → Recent → W → Result Object × Recent × W
  unfolding store
  patch now arg diff recent w =
      if is_uncached arg
      then bypassed recent (c.uncached.patch (unwrap arg) diff w)
      else remembered now recent (c.cached.patch (unwrap arg) diff w)

  abbrev pub delete_by : Backing W → Object → W → Option Error × W
  delete_by b obj w = b.client.delete obj.go_type obj.namespace obj.name w

  abbrev pub forgotten : Object → Recent → Option Error × W → Option Error × Recent × W
  forgotten obj recent (some e, w) = (some e, recent, w)
  forgotten obj recent (none, w) = (none, delete_store obj recent, w)

  -- cacheClient.Delete
  unfoldable pub delete_object : Argument → Recent → W → Option Error × Recent × W
  unfolding delete_store
  delete_object arg recent w =
      if is_uncached arg
      then bypassed recent (delete_by c.uncached (unwrap arg) w)
      else forgotten (unwrap arg) recent (delete_by c.cached (unwrap arg) w)

  -- cacheClient.DeleteAllOf and List, which leave the recent writes alone
  unfoldable pub delete_all_of : Argument → Recent → W → Option Error × Recent × W
  delete_all_of arg recent w = bypassed recent (
      if is_uncached arg
      then c.uncached.delete_all_of (unwrap arg) w
      else c.cached.delete_all_of (unwrap arg) w)

  unfoldable pub list : Argument → Recent → W → Result (List Object) × Recent × W
  list arg recent w =
      bypassed recent
        (if is_uncached arg then c.uncached.list (unwrap arg) w else c.cached.list (unwrap arg) w)

  -- subResourceClient.Update and Patch, for the status: they go by the cached client also where
  -- the cache is to be passed by. The scheme knows no kind for a Holder, so that is not remembered.
  abbrev pub status_remembered :
      ℕ → Argument → Recent → Result Object × W → Result Object × Recent × W
  status_remembered now arg recent (err e, w) = (err e, recent, w)
  status_remembered now arg recent (ok obj, w) =
      (ok obj, if is_wrapped arg then recent else store now obj recent, w)

  unfoldable pub status_update : ℕ → Argument → Recent → W → Result Object × Recent × W
  unfolding store
  status_update now arg recent w =
      status_remembered now arg recent (c.cached.client.update_status (unwrap arg) w)

  unfoldable pub status_patch : ℕ → Argument → Text → Recent → W → Result Object × Recent × W
  unfolding store
  status_patch now arg diff recent w =
      status_remembered now arg recent (c.cached.status_patch (unwrap arg) diff w)

  -- The end of Get: what the cache answered, or the recent write.
  abbrev pub chosen : Object → Option CacheValue → Object
  chosen obj none = obj
  chosen obj (some v) = v.object

  abbrev pub no_older : Object → Option CacheValue → Result Object
  no_older obj none = ok obj
  no_older obj (some v) =
      if newer c.atoi obj.resource_version v.object.resource_version
      then copy_into obj v.object
      else ok obj

  abbrev pub if_recent : Error → Object → Option CacheValue → Result Object
  if_recent e obj none = err e
  if_recent e obj (some v) = copy_into obj v.object

  abbrev pub read_found : Object → Result GroupVersionKind → Recent → Result Object
  read_found obj (err e) recent = err (joined (cons e nil))
  read_found obj (ok gvk) recent = no_older obj (lookup (cache_key gvk obj) recent)

  abbrev pub read_missing : Error → Object → Result GroupVersionKind → Recent → Result Object
  read_missing e into (err e') recent = err (joined (cons e (cons e' nil)))
  read_missing e into (ok gvk) recent = if_recent e into (lookup (cache_key gvk into) recent)

  abbrev pub after_read : Object → Recent → Result Object × W → Result Object × Recent × W
  after_read into recent (ok obj, w) = (read_found obj (c.gvk_for_object obj) recent, recent, w)
  after_read into recent (err e, w) =
      if not (has_reason not_found e)
      then (err e, recent, w)
      else (read_missing e into (c.gvk_for_object into) recent, recent, w)

  -- cacheClient.Get at a key, into an object
  unfoldable pub get : Text → Text → Argument → Recent → W → Result Object × Recent × W
  unfolding newer copy_into
  get namespace name arg recent w =
      let into = unwrap arg in
      if is_uncached arg
      then bypassed recent (c.uncached.client.get into.go_type namespace name w)
      else after_read into recent (c.cached.client.get into.go_type namespace name w)

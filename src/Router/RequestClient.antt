-- ===== src/Router/RequestClient.antt =====
-- pkg/router/client.go: the client of a request, which watches what it reads and writes; with
-- triggers.Register of trigger.go, triggerRegistry of handler.go, and getorcreate.go.
pub mod Watches
use nah.Prelude.{
  Text, codes, Map, insert, text_eq, ◌==◌, if◌then◌else◌, List, [], ◌∷◌, ◌++◌, Option, none, some,
  Bool, true, false, not, length, take, ◌-◌, ltb, drop, ℕ,
}
use nah.Error.{Error, message, Result, ok, err, not_found, already_exists, has_reason}
use nah.Kube.{GroupVersionKind, gvk_eq, Object, Client}
use nah.Untriggered.{Argument, is_wrapped, unwrap}
use nah.Router.Matcher.{ObjectMatcher, LabelSelector, FieldSelector}
use nah.Router.Triggers.{Matchers, register}

-- The state behind a request's client: the matchers of the triggers, the kinds that the registry
-- of the request watches, and the world of the backend.
pub record Watched (W : Type 0) : Type 0 where
  pub matchers : Matchers
  pub gvks : Map GroupVersionKind Bool
  pub world : W

-- The options of a list or a deletion of all.
pub record Options : Type 0 where
  pub namespace : Text
  pub label_selector : Option LabelSelector
  pub field_selector : Option FieldSelector

-- The backend: its client, its further calls, and WatchGVK of the handler set. The Argument of a
-- list stands for an object of the kind of its items, of which `is_list` says that it is a list.
pub record RequestBackend (W : Type 0) : Type 0 where
  pub client : Client W
  pub list : Argument → Options → W → Result (List Object) × W
  pub patch : Argument → Text → W → Option Error × W
  pub delete_all_of : Argument → Options → W → Option Error × W
  pub apply_configuration : Option (Text → W → Option Error × W)
  pub gvk_for_object : Object → Result GroupVersionKind
  pub is_list : Object → Bool
  pub watch_gvk : GroupVersionKind → W → Option Error × W

-- strings.TrimSuffix(s, suffix)
unfoldable pub trim_suffix : Text → Text → Text
trim_suffix s suffix =
    let rest = length s - length suffix in
    if ltb (length s) (length suffix) then s else if drop rest s == suffix then take rest s else s

-- Whose request it is: the kind and the key of the source.
pub record Source : Type 0 where
  pub gvk : GroupVersionKind
  pub key : Text

module _ {W : Type 0} (b : RequestBackend W) (source : Source) where
  abbrev pub item_kind : Object → GroupVersionKind → GroupVersionKind
  item_kind obj gvk =
      if b.is_list obj then record gvk { kind = trim_suffix gvk.kind (codes "List") } else gvk

  abbrev pub watching : GroupVersionKind → Watched W → Option Error × W → Option Error × Watched W
  watching gvk s (some e, w) = (some e, record s { world = w })
  watching gvk s (none, w) = (none, record s { gvks = insert gvk true s.gvks; world = w })

  abbrev pub registered_as :
      Object → ObjectMatcher → Watched W → Result GroupVersionKind → Option Error × Watched W
  registered_as obj mr s (err e) = (some e, s)
  registered_as obj mr s (ok kind) =
      let gvk = item_kind obj kind in
      let s' = record s { matchers = register source.gvk source.key gvk mr s.matchers } in
      watching gvk s' (b.watch_gvk gvk s.world)

  -- triggerRegistry.Watch, with triggers.Register: a wrapped object is not watched.
  unfoldable pub watch :
      Argument
      → Text
      → Text
      → Option LabelSelector
      → Option FieldSelector
      → Watched W
      → Option Error × Watched W
  unfolding register trim_suffix
  watch arg namespace name sel fields s =
      if is_wrapped arg
      then (none, s)
      else registered_as (unwrap arg)
          (record { namespace = namespace; name = name; selector = sel; fields = fields }) s
          (b.gvk_for_object (unwrap arg))

  abbrev pub in_world {ℓ} : {A : Type ℓ} → Watched W → A × W → A × Watched W
  in_world s (a, w) = (a, record s { world = w })

  -- if err := …Watch(…); err != nil { return err }, for a call with a result and for one without
  abbrev pub then_read {ℓ} :
      {A : Type ℓ} → Option Error × Watched W → (W → Result A × W) → Result A × Watched W
  then_read (some e, s) call = (err e, s)
  then_read (none, s) call = in_world s (call s.world)

  abbrev pub then_call :
      Option Error × Watched W → (W → Option Error × W) → Option Error × Watched W
  then_call (some e, s) call = (some e, s)
  then_call (none, s) call = in_world s (call s.world)

  abbrev pub watch_object : Argument → Watched W → Option Error × Watched W
  watch_object arg s = watch arg (unwrap arg).namespace (unwrap arg).name none none s

  -- reader.Get
  unfoldable pub get : Text → Text → Argument → Watched W → Result Object × Watched W
  unfolding watch
  get namespace name arg s =
      then_read (watch arg namespace name none none s)
        (b.client.get (unwrap arg).go_type namespace name)

  -- reader.List
  unfoldable pub list : Argument → Options → Watched W → Result (List Object) × Watched W
  unfolding watch
  list arg opts s =
      then_read (watch arg opts.namespace [] opts.label_selector opts.field_selector s)
        (b.list arg opts)

  -- writer.Update, Delete, Patch and DeleteAllOf
  unfoldable pub update : Argument → Watched W → Result Object × Watched W
  unfolding watch
  update arg s = then_read (watch_object arg s) (b.client.update (unwrap arg))

  unfoldable pub delete_object : Argument → Watched W → Option Error × Watched W
  unfolding watch
  delete_object arg s =
      then_call (watch_object arg s)
        (b.client.delete (unwrap arg).go_type (unwrap arg).namespace (unwrap arg).name)

  unfoldable pub patch : Argument → Text → Watched W → Option Error × Watched W
  unfolding watch
  patch arg diff s = then_call (watch_object arg s) (b.patch arg diff)

  unfoldable pub delete_all_of : Argument → Options → Watched W → Option Error × Watched W
  unfolding watch
  delete_all_of arg opts s =
      then_call (watch arg opts.namespace [] opts.label_selector opts.field_selector s)
        (b.delete_all_of arg opts)

  abbrev pub watched_instead : Argument → Option Error × Watched W → Result Object × Watched W
  watched_instead arg (some e', s) = (err e', s)
  watched_instead arg (none, s) = (ok (unwrap arg), s)

  -- The deferred function of writer.Create for an object without a name: it watches where the
  -- creation failed, and the error of that takes the place of the creation's.
  abbrev pub after_nameless : Argument → Result Object × Watched W → Result Object × Watched W
  after_nameless arg (ok obj, s) = (ok obj, s)
  after_nameless arg (err e, s) = watched_instead arg (watch_object arg s)

  -- writer.Create
  unfoldable pub create : Argument → Watched W → Result Object × Watched W
  unfolding watch
  create arg s =
      if (unwrap arg).name == []
      then after_nameless arg (in_world s (b.client.create (unwrap arg) s.world))
      else then_read (watch_object arg s) (b.client.create (unwrap arg))

  abbrev pub apply_by : Option (Text → W → Option Error × W) → Text → W → Option Error × W
  apply_by none configuration w =
      (some (message (codes "underlying client does not support Apply operation")), w)
  apply_by (some call) configuration w = call configuration w

  abbrev pub watch_if_object : Option Argument → Watched W → Option Error × Watched W
  watch_if_object none s = (none, s)
  watch_if_object (some arg) s = watch_object arg s

  -- writer.Apply of a configuration, which may be an object as well
  unfoldable pub apply : Option Argument → Text → Watched W → Option Error × Watched W
  unfolding watch
  apply as_object configuration s =
      then_call (watch_if_object as_object s) (apply_by b.apply_configuration configuration)

  -- subResourceClient.Update, for the status
  unfoldable pub status_update : Argument → Watched W → Result Object × Watched W
  unfolding watch
  status_update arg s = then_read (watch_object arg s) (b.client.update_status (unwrap arg))

module _ {W : Type 0} (client : Client W) where
  abbrev pub or_existing : Object → Result Object × W → Result Object × W
  or_existing obj (ok created, w) = (ok created, w)
  or_existing obj (err e, w) =
      if has_reason already_exists e
      then client.get obj.go_type obj.namespace obj.name w
      else (err e, w)

  abbrev pub create_prepared : Object → Option Error × Object × W → Result Object × W
  create_prepared obj (some e, prepared, w) = (err e, w)
  create_prepared obj (none, prepared, w) = or_existing obj (client.create prepared w)

  abbrev pub or_create :
      Object → (Object → W → Option Error × Object × W) → Result Object × W → Result Object × W
  or_create obj prepare (ok found, w) = (ok found, w)
  or_create obj prepare (err e, w) =
      if has_reason not_found e then create_prepared obj (prepare obj w) else (err e, w)

  -- GetOrCreate; `prepare` may change the object before it is created
  unfoldable pub get_or_create :
      Object → (Object → W → Option Error × Object × W) → W → Result Object × W
  get_or_create obj prepare w =
      or_create obj prepare (client.get obj.go_type obj.namespace obj.name w)

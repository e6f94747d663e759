-- ===== src/Router/RequestClient/Watches.antt =====
-- pkg/router/client.go and trigger.go together: what a handler read enqueues it again.
use nah.Prelude.{
  Text, text_eq, lookup, ◌==◌, [], Option, none, some, Bool, true, false, is_some, contains, ◌≡◌,
  refl, ◌∙◌, ==_self, sym, ap,
}
use nah.Error.{Error, Result, ok}
use nah.Kube.{GroupVersionKind, gvk_eq, Object}
use nah.Untriggered.{plain, is_wrapped, unwrap}
use nah.Router.Matcher.{ObjectMatcher, matcher_string}
use nah.Router.Triggers.{
  trigger_key_eq, EnqueueTarget, target_eq, Pending, registered, register, process,
}
use nah.Router.Triggers.Effect.{registered-register}
use nah.Router.Triggers.Enqueued.{affects, process_complete, lookup-affects}
use nah.Router.RequestClient.{
  Watched, RequestBackend, Options, Source, item_kind, watch, watching, then_read, get, list,
}

abbrev pub matcher_of : Options → ObjectMatcher
matcher_of opts = record {
  namespace = opts.namespace;
  name = [];
  selector = opts.label_selector;
  fields = opts.field_selector;
}

module _ {W : Type 0} (b : RequestBackend W) (source : Source) (is_fields : Object → Bool) where
  abbrev pub target : EnqueueTarget
  target = record { key = source.key; gvk = source.gvk }

  matchers-watching :
      (g : GroupVersionKind) (s : Watched W) (r : Option Error × W)
      → (watching b source g s r).1.matchers ≡ s.matchers
  matchers-watching g s (none, w) = refl
  matchers-watching g s (some e, w) = refl

  matchers-then_read :
      {A : Type 0} (r : Option Error × Watched W) (call : W → Result A × W)
      → (then_read b source r call).1.matchers ≡ r.1.matchers
  matchers-then_read (none, s) call = refl
  matchers-then_read (some e, s) call = refl

  registered-watch :
      (obj : Object) (kind : GroupVersionKind) (mr : ObjectMatcher) (s : Watched W)
      → b.gvk_for_object obj ≡ ok kind
      → registered s.matchers (item_kind b source obj kind) target (matcher_string mr) ≡ none
      → registered
          (watch b source (plain obj) mr.namespace mr.name mr.selector mr.fields s).1.matchers
          (item_kind b source obj kind)
          target
          (matcher_string mr)
        ≡ some mr
  unfolding watch is_wrapped unwrap
  registered-watch obj kind mr s known new =
      let g = item_kind b source obj kind in
      let s' = record s { matchers = register source.gvk source.key g mr s.matchers } in
      rw (known, matchers-watching g s' (b.watch_gvk g s.world))
        (registered-register source.gvk source.key g mr s.matchers g target (matcher_string mr)
          ∙ rw (==_self g, ==_self target, ==_self (matcher_string mr), new) refl)

  -- After a handler's Get through the client of its request, whether that found the object or not,
  -- any change or removal of the object that was asked for enqueues the handler's own key: reads
  -- are not missed. The matcher's string was not taken before, and the object is not wrapped.
  pub get-enqueues :
      (obj : Object) (g : GroupVersionKind) (namespace name : Text) (s : Watched W)
      (pending : Pending)
      → b.gvk_for_object obj ≡ ok g
      → b.is_list obj ≡ false
      → (name == []) ≡ false
      → registered s.matchers g target (
          matcher_string
            (record { namespace = namespace; name = name; selector = none; fields = none }))
        ≡ none
      → is_some (lookup (record { name = name; namespace = namespace; gvk = g }) pending) ≡ true
      → contains
          (process is_fields pending (get b source namespace name (plain obj) s).1.matchers).0
          target
        ≡ true
  unfolding get
  get-enqueues obj g namespace name s pending kind one named new there =
      let mr : ObjectMatcher = record {
        namespace = namespace;
        name = name;
        selector = none;
        fields = none;
      } in
      let s' = watch b source (plain obj) namespace name none none s in
      let kept = matchers-then_read s' (b.client.get (unwrap (plain obj)).go_type namespace name) in
      process_complete is_fields pending g target (matcher_string mr) mr
        (get b source namespace name (plain obj) s).1.matchers
        (ap (λ ms. registered ms g target (matcher_string mr)) kept
          ∙ rw one at (registered-watch obj g mr s kind (rw one new)))
        (sym (lookup-affects is_fields pending g mr pending named) ∙ there)

  -- After a List, the same holds for every change of an object that its options select, of the kind
  -- of the list without its suffix.
  pub list-enqueues :
      (obj : Object) (kind : GroupVersionKind) (opts : Options) (s : Watched W) (pending : Pending)
      → let mr = matcher_of opts in
        b.gvk_for_object obj ≡ ok kind
        → registered s.matchers (item_kind b source obj kind) target (matcher_string mr) ≡ none
        → affects is_fields (item_kind b source obj kind) mr pending ≡ true
        → contains
            (process is_fields pending (list b source (plain obj) opts s).1.matchers).0
            target
          ≡ true
  unfolding list
  list-enqueues obj kind opts s pending known new hit =
      let mr = matcher_of opts in
      let g = item_kind b source obj kind in
      let s' =
        watch b source (plain obj) opts.namespace [] opts.label_selector opts.field_selector s in
      let kept = matchers-then_read s' (b.list (plain obj) opts) in
      process_complete is_fields pending g target (matcher_string mr) mr
        (list b source (plain obj) opts s).1.matchers
        (ap (λ ms. registered ms g target (matcher_string mr)) kept
          ∙ registered-watch obj kind mr s known new)
        hit

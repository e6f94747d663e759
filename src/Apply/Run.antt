-- ===== src/Apply/Run.antt =====
-- pkg/apply/desiredset.go, apply.go and desiredset_apply.go: the builder of an apply, and its run
-- over all kinds.
use nah.Prelude.{
  Text, codes, Map, insert, text_eq, List, [], ◌∷◌, ◌++◌, Option, none, some, Bool, true, false,
  keys,
}
use nah.Error.{Error, Result, ok, err, ◌>>=◌}
use nah.Error.Merr.{new_errors}
use nah.Kube.{GroupVersionKind, gvk_eq, Object, at}
use nah.Apply.ObjectSet.{ObjectByKey, ObjectSet, empty_set, add, new_object_set, order_of_kinds}
use nah.Apply.Labels.{label_hash, set_labels, set_annotations, get_labels_and_annotations}
use nah.Apply.Takeover.{owner_change}
use nah.Apply.Update.{State}
use nah.Apply.Process.{Applier, process}

-- What the methods of the builder set.
pub record Settings : Type 0 where
  pub default_namespace : Text
  pub lister_namespace : Text
  pub prune_types : Map GroupVersionKind Bool
  pub prune_objects : List Object
  pub owner_sub_context : Text
  pub ensure : Bool
  pub no_prune : Bool

-- New
abbrev pub new_settings : Settings
new_settings = record {
  default_namespace = codes "default";
  lister_namespace = [];
  prune_types = [];
  prune_objects = [];
  owner_sub_context = [];
  ensure = false;
  no_prune = false;
}

-- WithNoPrune, WithPruneTypes, WithNamespace and WithOwnerSubContext
unfoldable pub with_no_prune : Settings → Settings
with_no_prune a = record a { no_prune = true }

unfoldable pub with_prune_types : List Object → Settings → Settings
with_prune_types objs a = record a { prune_objects = a.prune_objects ++ objs }

unfoldable pub with_namespace : Text → Settings → Settings
with_namespace ns a = record a { lister_namespace = ns; default_namespace = ns }

unfoldable pub with_owner_sub_context : Text → Settings → Settings
with_owner_sub_context sub_context a = record a { owner_sub_context = sub_context }

abbrev pub all_true : List GroupVersionKind → Map GroupVersionKind Bool → Map GroupVersionKind Bool
all_true [] types = types
all_true (gvk ∷ gvks) types = all_true gvks (insert gvk true types)

-- withPruneGVKs
unfoldable pub with_prune_gvks : List GroupVersionKind → Settings → Settings
unfolding insert
with_prune_gvks gvks a = record a { prune_types = all_true gvks a.prune_types }

-- AddValidOwnerChange: a change of the sub-context that is allowed from then on
unfoldable pub add_valid_owner_change : Text → Text → List Text → List Text
add_valid_owner_change old new valid = owner_change old new ∷ valid

-- GetSelector: the value that the hash label must have. The library checks that it is one.
unfoldable pub get_selector : (Text → Option Error) → Map Text Text → Result (Option Text)
get_selector invalid [] = ok none
get_selector invalid (l ∷ labels) =
    let hash = at label_hash (l ∷ labels) in
    elim (invalid hash) [ none ↦ ok (some hash) | some e ↦ err e ]

module _ (gvk_for_object : Object → Result GroupVersionKind)
    (labels annotations : Map Text Text) where
  -- The two loops of injectLabelsAndAnnotations
  unfoldable pub inject_objects : ObjectByKey → ObjectSet → Result ObjectSet
  unfolding add set_labels set_annotations
  inject_objects [] result = ok result
  inject_objects ((k, obj) ∷ objs) result =
      add gvk_for_object (some (set_annotations (set_labels obj labels) annotations)) result
      >>= λ result'. inject_objects objs result'

  unfoldable pub inject_kinds : Map GroupVersionKind ObjectByKey → ObjectSet → Result ObjectSet
  unfolding inject_objects
  inject_kinds [] result = ok result
  inject_kinds ((gvk, objs) ∷ kinds) result =
      inject_objects objs result >>= λ result'. inject_kinds kinds result'

  -- injectLabelsAndAnnotations
  unfoldable pub inject_labels_and_annotations : ObjectSet → Result ObjectSet
  unfolding inject_kinds
  inject_labels_and_annotations objs = inject_kinds objs.objects empty_set

module _ {V : Type 0} (invalid : Text → Option Error) (base : Applier V) where
  -- The apply of an owner, with the fields that the builder set.
  abbrev pub applier : Settings → Option Object → Text → Applier V
  applier a owner debug_id = record base {
    updates = record base.updates { ensure = a.ensure };
    default_namespace = a.default_namespace;
    lister_namespace = a.lister_namespace;
    owner = owner;
    no_prune = a.no_prune;
    debug_id = debug_id;
  }

  -- The loop of apply: the errors of the kinds
  unfoldable pub process_kinds :
      Applier V
      → Option Text
      → List GroupVersionKind
      → ObjectSet
      → State V
      → List (Option Error) × State V
  unfolding process
  process_kinds a selector [] objs s = ([], s)
  process_kinds a selector (gvk ∷ gvks) objs s =
      let ((e, done), s') = process a gvk selector objs s in
      let (es, s'') = process_kinds a selector gvks objs s' in (e ∷ es, s'')

  abbrev pub marked_set : Settings → Option Object → ObjectSet → Result (Option Text × ObjectSet)
  marked_set a owner objs = do
    (labels, annotations) ←
        get_labels_and_annotations base.sha1_hex base.gvk_string base.gvk_for_object
          a.owner_sub_context owner
    marked ← inject_labels_and_annotations base.gvk_for_object labels annotations objs
    selector ← get_selector invalid labels
    ok (selector, marked)

  abbrev pub apply_marked :
      Applier V
      → List GroupVersionKind
      → State V
      → Result (Option Text × ObjectSet)
      → Option Error × State V
  apply_marked a gvks s (err e) = (some e, s)
  apply_marked a gvks s (ok (selector, objs)) =
      let (es, s') = process_kinds a selector gvks objs s in (new_errors es, s')

  -- apply; the kinds keep the order in which the caller gave their objects
  unfoldable pub apply :
      Settings → Option Object → Text → ObjectSet → State V → Option Error × State V
  unfolding get_labels_and_annotations inject_labels_and_annotations get_selector order_of_kinds
      process_kinds new_errors
  apply a owner debug_id objs s =
      apply_marked (applier a owner debug_id)
        (order_of_kinds base.gvk_string objs (keys a.prune_types)) s (marked_set a owner objs)

  abbrev pub kinds_of : List Object → Result (List GroupVersionKind)
  kinds_of [] = ok []
  kinds_of (obj ∷ objs) =
      base.gvk_for_object obj >>= λ gvk. kinds_of objs >>= λ gvks. ok (gvk ∷ gvks)

  abbrev pub owner_kind : Option Object → Result (Option GroupVersionKind)
  owner_kind none = ok none
  owner_kind (some owner) = base.gvk_for_object owner >>= λ gvk. ok (some gvk)

  -- What Apply does before apply: the kinds to prune, the kind of the owner, and the set
  abbrev pub prepared :
      Settings → Option Object → List (Option Object) → Result (Settings × ObjectSet)
  prepared a owner objs = do
    gvks ← kinds_of a.prune_objects
    kind ← owner_kind owner
    set ← new_object_set base.gvk_for_object objs
    ok (with_prune_gvks gvks a, set)

  abbrev pub apply_prepared :
      Option Object → Text → State V → Result (Settings × ObjectSet) → Option Error × State V
  apply_prepared owner debug_id s (err e) = (some e, s)
  apply_prepared owner debug_id s (ok (a, set)) = apply a owner debug_id set s

  -- Apply, with the text that debugID makes
  unfoldable pub apply_objects :
      Settings
      → Option Object
      → (Text → Option Object → Text)
      → List (Option Object)
      → State V
      → Option Error × State V
  unfolding with_prune_gvks new_object_set apply
  apply_objects a owner debug_id objs s =
      apply_prepared owner (debug_id a.owner_sub_context owner) s (prepared a owner objs)

  -- Ensure
  unfoldable pub ensure_objects :
      Settings
      → (Text → Option Object → Text)
      → List (Option Object)
      → State V
      → Option Error × State V
  unfolding apply_objects
  ensure_objects a debug_id objs s =
      apply_objects (record a { ensure = true; owner_sub_context = [] }) none debug_id objs s

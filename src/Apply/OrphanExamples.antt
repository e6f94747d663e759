-- ===== src/Apply/OrphanExamples.antt =====
-- pkg/apply/desiredset_owner.go at a small input: an object whose owner is gone.
use nah.Prelude.{
  codes, text_eq, text_discrete, lookup, [], ◌∷◌, none, some, ◌≡◌, refl, ℕ, ◌+◌, Text, List, All,
  cut, strip,
}
use nah.Error.{ok, err, api, not_found, reason_discrete, has_reason, first_reason}
use nah.Kube.{Object, Client}
use nah.Samples.{config_map, deployment, object, kind_of}
use nah.Apply.Labels.{label_gvk, label_name, label_namespace}
use nah.Apply.Orphans.{registered_type, find_owner, purge_orphan, get, get_gvk, new_obj}
use nah.Apply.Orphans.Purge.{IsPlainKind, written_kind, find_owner_lem, purge_orphan-keeps}

-- The world counts the reads by one and the deletions by ten.
abbrev empty_cluster : Client ℕ
empty_cluster = record {
  get = λ gvk ns name w. (err (api not_found), w + 1);
  create = λ obj w. (ok obj, w);
  update = λ obj w. (ok obj, w);
  update_status = λ obj w. (ok obj, w);
  delete = λ gvk ns name w. (none, w + 10);
}

abbrev orphan : Object
orphan = record (object config_map (codes "prod") (codes "settings")) {
  annotations =
      (label_gvk, written_kind deployment)
      ∷ (label_namespace, codes "prod")
      ∷ (label_name, codes "web")
      ∷ [];
}

deployment-IsPlainKind : IsPlainKind deployment
unfolding text_discrete
deployment-IsPlainKind = record {
  no_slash = refl;
  no_comma_in_group = refl;
  no_comma_in_version = refl;
  no_comma_in_kind = refl;
}

find_owner_lem_example :
    find_owner empty_cluster (λ gvk. registered_type) kind_of (some orphan) 0
    ≡ empty_cluster.get deployment (codes "prod") (codes "web") 0
unfolding lookup text_discrete
find_owner_lem_example =
    find_owner_lem empty_cluster (λ gvk. registered_type) kind_of deployment orphan 0
      deployment-IsPlainKind refl refl

-- The world is the deleted names.
abbrev recording : Client (List Text)
recording = record {
  get = λ gvk ns name w. (err (api not_found), w);
  create = λ obj w. (ok obj, w);
  update = λ obj w. (ok obj, w);
  update_status = λ obj w. (ok obj, w);
  delete = λ gvk ns name w. (none, name ∷ w);
}

purge_orphan-keeps_example :
    All
      (λ (name : Text). name ≡ codes "settings")
      (purge_orphan recording (λ gvk. registered_type) kind_of (some orphan) []).1
purge_orphan-keeps_example =
    purge_orphan-keeps recording (λ gvk. registered_type) kind_of
      (All (λ (name : Text). name ≡ codes "settings")) orphan [] (λ g e h. cc) (λ g ns n v q. q)
      (λ own v v' gone kind q. (refl, q)) tt

-- The object whose owner is gone is deleted, one without the annotations is not.
purges :
    (purge_orphan recording (λ gvk. registered_type) kind_of (some orphan) []).1
    ≡ codes "settings" ∷ []
unfolding purge_orphan find_owner get get_gvk new_obj lookup cut strip text_discrete has_reason
    first_reason reason_discrete
purges = refl

spares :
    (purge_orphan recording
      (λ gvk. registered_type)
      kind_of
      (some (object config_map (codes "prod") (codes "settings")))
      []).1
    ≡ []
unfolding purge_orphan find_owner get get_gvk new_obj lookup cut strip text_discrete has_reason
    first_reason reason_discrete
spares = refl

-- ===== src/Router/ClientExamples.antt =====
-- pkg/router/client.go: a handler that reads a ConfigMap.
use nah.Prelude.{
  codes, lookup, text_discrete, text_eq, [], ◌∷◌, none, some, Bool, true, false, contains, ◌≡◌,
  refl, ℕ, suc,
}
use nah.Error.{ok, err, api, not_found}
use nah.Kube.{gvk_discrete, Object, Client}
use nah.Samples.{config_map, deployment, object, kind_of}
use nah.Untriggered.{plain}
use nah.Router.Triggers.{target_eq, target_discrete, trigger_key_discrete, Pending, process}
use nah.Router.RequestClient.{Watched, RequestBackend, Source, get}
use nah.Router.RequestClient.Watches.{target, get-enqueues}

-- A server without objects.
abbrev empty_server : Client ℕ
empty_server = record {
  get = λ g ns n w. (err (api not_found), w);
  create = λ obj w. (ok obj, suc w);
  update = λ obj w. (err (api not_found), w);
  update_status = λ obj w. (err (api not_found), w);
  delete = λ g ns n w. (some (api not_found), w);
}

abbrev backend : RequestBackend ℕ
backend = record {
  client = empty_server;
  list = λ arg opts w. (ok [], w);
  patch = λ arg diff w. (some (api not_found), w);
  delete_all_of = λ arg opts w. (none, w);
  apply_configuration = none;
  gvk_for_object = kind_of;
  is_list = λ obj. false;
  watch_gvk = λ g w. (none, w);
}

abbrev web : Source
web = record { gvk = deployment; key = codes "prod/web" }

abbrev no_fields : Object → Bool
no_fields obj = false

abbrev unwatched : Watched ℕ
unwatched = record { matchers = []; gvks = []; world = 0 }

abbrev created : Pending
created =
    (
      record { name = codes "settings"; namespace = codes "prod"; gvk = config_map },
      some (object config_map (codes "prod") (codes "settings")),
    )
    ∷ []

get-enqueues_example :
    contains
      (process no_fields created
        (get backend web
          (codes "prod")
          (codes "settings")
          (plain (object config_map [] []))
          unwatched).1.matchers).0
      (target backend web no_fields)
    ≡ true
unfolding lookup gvk_discrete text_discrete target_discrete trigger_key_discrete
get-enqueues_example =
    get-enqueues backend web no_fields (object config_map [] []) config_map (codes "prod")
      (codes "settings") unwatched created refl refl refl refl refl

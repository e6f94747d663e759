-- ===== src/Samples.antt =====
-- Small objects and kinds that the tests of the components share.
use nah.Prelude.{Text, codes, text_eq, [], none, ◌++◌}
use nah.Error.{Result, ok}
use nah.Kube.{GroupVersionKind, Object}

abbrev pub config_map : GroupVersionKind
config_map = record { group = []; version = codes "v1"; kind = codes "ConfigMap" }

abbrev pub deployment : GroupVersionKind
deployment = record { group = codes "apps"; version = codes "v1"; kind = codes "Deployment" }

abbrev pub object : GroupVersionKind → Text → Text → Object
object gvk namespace name = record {
  go_type = gvk;
  namespace = namespace;
  name = name;
  uid = codes "u1";
  resource_version = codes "7";
  generation = 1;
  labels = [];
  annotations = [];
  finalizers = [];
  owner_references = [];
  deletion_timestamp = none;
  status = [];
  content = [];
}

-- A scheme that knows every object, the string of a kind, and a digest that keeps what was written.
abbrev pub kind_of : Object → Result GroupVersionKind
kind_of obj = ok obj.go_type

abbrev pub kind_string : GroupVersionKind → Text
kind_string g = g.group ++ codes "/" ++ g.version ++ codes ", Kind=" ++ g.kind

abbrev pub digest : Text → Text
digest t = t

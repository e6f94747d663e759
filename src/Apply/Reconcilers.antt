-- ===== src/Apply/Reconcilers.antt =====
-- pkg/apply/reconcilers.go: the kinds whose objects are replaced where a field changed that cannot
-- be updated.
use nah.Prelude.{
  Text, codes, text_eq, ◌==◌, if◌then◌else◌, [], Option, none, some, Bool, false, not, ◌&&◌,
}
use nah.Error.{message, err_replace, Result, ok, err, ◌>>=◌}
use nah.Kube.{GroupVersionKind, gvk_eq, Object}
use nah.Apply.Prepare.{Codec, get_original_object}

-- The Go types of the reconcilers.
pub data Kind : Type 0 where
  secret service job deployment daemon_set : Kind

-- What the library makes of an object: whether it has one of these types already; the typed object
-- that the JSON of an unstructured one decodes to, or an error; and the fields that are read, as
-- text. Texts of selectors and templates are the same where equality.Semantic.DeepEqual holds.
pub record Specs : Type 0 where
  pub has_type : Kind → Object → Bool
  pub is_unstructured : Object → Bool
  pub decode : Kind → Object → Result Object
  pub selector : Object → Text
  pub secret_type : Object → Text
  pub service_type : Object → Text
  pub template : Object → Text
  pub kind_of : Object → GroupVersionKind

module _ (codec : Codec) (specs : Specs) where
  -- convertObj into an object of a type
  unfoldable pub convert_obj : Kind → Option Object → Result Object
  convert_obj kind none = err (message (codes "expected unstructured but got nil"))
  convert_obj kind (some src) =
      if specs.is_unstructured src
      then specs.decode kind src
      else err (message (codes "expected unstructured but got another type"))

  abbrev pub as_kind : Kind → Object → Result Object
  as_kind kind obj = if specs.has_type kind obj then ok obj else convert_obj kind (some obj)

  abbrev pub replace_if : Bool → Result Bool
  replace_if changed = if changed then err err_replace else ok false

  -- reconcileDaemonSet and reconcileDeployment
  unfoldable pub reconcile_daemon_set : Object → Object → Result Bool
  unfolding convert_obj
  reconcile_daemon_set old new = do
    old_set ← as_kind daemon_set old
    new_set ← as_kind daemon_set new
    replace_if (not (specs.selector old_set == specs.selector new_set))

  unfoldable pub reconcile_deployment : Object → Object → Result Bool
  unfolding convert_obj
  reconcile_deployment old new = do
    old_deployment ← as_kind deployment old
    new_deployment ← as_kind deployment new
    replace_if (not (specs.selector old_deployment == specs.selector new_deployment))

  -- reconcileSecret and reconcileService
  unfoldable pub reconcile_secret : Object → Object → Result Bool
  unfolding convert_obj
  reconcile_secret old new = do
    old_secret ← as_kind secret old
    new_secret ← as_kind secret new
    replace_if (
        not (specs.secret_type new_secret == [])
        && not (specs.secret_type old_secret == specs.secret_type new_secret))

  unfoldable pub reconcile_service : Object → Object → Result Bool
  unfolding convert_obj
  reconcile_service old new = do
    old_service ← as_kind service old
    new_service ← as_kind service new
    replace_if (
        not (specs.service_type new_service == [])
        && not (specs.service_type old_service == specs.service_type new_service))

  -- reconcileJob: the new job is the one that its annotation keeps, in which long texts are cut.
  unfoldable pub reconcile_job : Object → Object → Result Bool
  unfolding convert_obj get_original_object
  reconcile_job old new = do
    old_job ← as_kind job old
    new_job ← as_kind job new
    pruned ← get_original_object codec (specs.kind_of new_job) new_job
    new_pruned ← convert_obj job pruned
    replace_if (not (specs.template old_job == specs.template new_pruned))

  abbrev pub of_kind : Text → Text → Text → GroupVersionKind
  of_kind group version kind = record { group = group; version = version; kind = kind }

  -- defaultReconcilers
  unfoldable pub default_reconcilers : GroupVersionKind → Option (Object → Object → Result Bool)
  unfolding reconcile_secret reconcile_service reconcile_job reconcile_deployment
      reconcile_daemon_set
  default_reconcilers gvk =
      if gvk == of_kind [] (codes "v1") (codes "Secret")
      then some reconcile_secret
      else if gvk == of_kind [] (codes "v1") (codes "Service")
      then some reconcile_service
      else if gvk == of_kind (codes "batch") (codes "v1") (codes "Job")
      then some reconcile_job
      else if gvk == of_kind (codes "apps") (codes "v1") (codes "Deployment")
      then some reconcile_deployment
      else if gvk == of_kind (codes "apps") (codes "v1") (codes "DaemonSet")
      then some reconcile_daemon_set
      else none

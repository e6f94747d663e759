-- ===== src/Router/Handle/Writes.antt =====
-- pkg/router/handler.go and save.go: what handle itself does to the world.
use nah.Prelude.{◌==◌, text_eq, nat_eq, true, ◌≡◌, ◌⊎◌}
use nah.Error.{Error, ok}
use nah.Kube.{gvk_eq, Object}
use nah.Router.Finalizer.{status_changed}
use nah.Router.Handle.{Setup}

module _ {W L : Type 0} (setup : Setup W L) where
  -- When the status of an object may be written for an event: it is not the one that the object of
  -- the event had; and if the generation changed too, not the one that a read of the object
  -- answered since.
  pub record IsWritable (unmodified new : Object) : Type 0 where
    pub changed : status_changed unmodified new ≡ true
    pub current :
        ((unmodified.generation == new.generation) ≡ true)
        ⊎ (w : W) × (found : Object) × ((setup.request_client.get unmodified.go_type
              unmodified.namespace unmodified.name w).0
            ≡ ok found)
          × (status_changed found new ≡ true)

-- ===== src/Router/Save.antt =====
-- pkg/router/save.go: the status that the handlers left is written back.
use nah.Prelude.{text_eq, ◌==◌, nat_eq, if◌then◌else◌, Option, none, some, not}
use nah.Error.{Error, Result, ok, err}
use nah.Kube.{Object, Client}
use nah.Router.Finalizer.{status_changed}

-- The object that goes on, the error, and the world.
pub record Saved (W : Type 0) : Type 0 where
  pub object : Option Object
  pub failure : Option Error
  pub world : W

-- The object is read anew through the client of the request, and written through the backend.
module _ {W : Type 0} (client backend : Client W) where
  -- What Status().Update leaves: it writes its answer into the object.
  abbrev pub written : Object → Result Object × W → Saved W
  written sent (ok updated, w) = record { object = some updated; failure = none; world = w }
  written sent (err e, w) = record { object = some sent; failure = some e; world = w }

  unfoldable pub write_back : Object → W → Saved W
  write_back new w = written new (backend.update_status new w)

  -- The object was read anew: it is compared again.
  abbrev pub reread : Object → Result Object × W → Saved W
  reread new (ok current, w) =
      if not (status_changed current new)
      then record { object = some new; failure = none; world = w }
      else write_back new w
  reread new (err e, w) = record { object = none; failure = some e; world = w }

  -- save.save on an object that is there before and after
  unfoldable pub save_object : Object → Object → W → Saved W
  unfolding status_changed write_back
  save_object unmodified new w =
      if not (status_changed unmodified new)
      then record { object = some new; failure = none; world = w }
      else if not (unmodified.generation == new.generation)
      then reread new (client.get unmodified.go_type unmodified.namespace unmodified.name w)
      else write_back new w

  -- save.save; there is no object left where there was none before
  unfoldable pub save : Option Object → Option Object → W → Saved W
  unfolding save_object
  save unmodified none w = record { object = none; failure = none; world = w }
  save none (some new) w = record { object = some new; failure = none; world = w }
  save (some unmodified) (some new) w = save_object unmodified new w

-- ===== src/Untriggered.antt =====
-- pkg/untriggered/untriggered.go: a wrapper by which a call asks for no trigger, or for no cache.
use nah.Prelude.{Bool, true, false, ◌&&◌}
use nah.Kube.{Object}

-- A kclient.Object argument: by itself, or in a Holder. HolderList is alike for lists.
pub record Argument : Type 0 where
  pub object : Object
  pub held : Bool
  pub held_uncached : Bool

abbrev pub plain : Object → Argument
plain obj = record { object = obj; held = false; held_uncached = false }

-- Get and List
abbrev pub untriggered_get : Object → Argument
untriggered_get obj = record { object = obj; held = true; held_uncached = false }

-- UncachedGet and UncachedList
abbrev pub uncached_get : Object → Argument
uncached_get obj = record { object = obj; held = true; held_uncached = true }

unfoldable pub is_wrapped : Argument → Bool
is_wrapped arg = arg.held

-- IsUncached: what is not held has no such mark.
unfoldable pub is_uncached : Argument → Bool
is_uncached arg = arg.held && arg.held_uncached

unfoldable pub unwrap : Argument → Object
unwrap arg = arg.object

-- ===== src/Runtime/Examples.antt =====
-- pkg/runtime/controller.go: the key of one object.
use nah.Prelude.{codes, text_discrete, ◌++◌, ◌≡◌, refl, true, false}
use nah.Router.Limits.{trigger_prefix, replay_prefix}
use nah.Runtime.Keys.{key_func, key_parse, is_special_key, IsPlain, key_parse-key_func}

prod-IsPlain : IsPlain (codes "prod")
unfolding text_discrete
prod-IsPlain = record { no_slash = refl; no_space = refl }

settings-IsPlain : IsPlain (codes "settings")
unfolding text_discrete
settings-IsPlain = record { no_slash = refl; no_space = refl }

key_parse-key_func_example :
    (key_parse (key_func (codes "prod") (codes "settings")) ≡ (codes "prod", codes "settings"))
    × (key_parse (trigger_prefix ++ key_func (codes "prod") (codes "settings"))
        ≡ (codes "prod", codes "settings"))
    × (key_parse (replay_prefix ++ key_func (codes "prod") (codes "settings"))
        ≡ (codes "prod", codes "settings"))
key_parse-key_func_example =
    key_parse-key_func (codes "prod") (codes "settings") prod-IsPlain settings-IsPlain

special_trigger : is_special_key (trigger_prefix ++ codes "prod/settings") ≡ true
unfolding is_special_key text_discrete
special_trigger = refl

plain_key : is_special_key (codes "prod/settings") ≡ false
unfolding is_special_key text_discrete
plain_key = refl

-- ===== src/Runtime/Keys.antt =====
-- pkg/runtime/controller.go: the keys of the work queues.
use nah.Prelude.{
  text_discrete, Text, codes, cut, cut-append, cut_absent, text_eq, nat_eq, ◌==◌, if◌then◌else◌,
  ltb, length, [], ◌∷◌, ◌++◌, Option, none, some, Bool, false, ◌&&◌, ◌≡◌, refl, arith, contains,
  contains-append, ℕ, zero, suc,
}
use nah.Router.Limits.{trigger_prefix, replay_prefix}

-- keyFunc
unfoldable pub key_func : Text → Text → Text
key_func namespace name = if namespace == [] then name else namespace ++ codes "/" ++ name

-- What stands behind the first space, or the whole key.
abbrev pub after_space : Text → Option (Text × Text) → Text
after_space key none = key
after_space key (some (special, rest)) = rest

abbrev pub namespace_and_name : Text → Option (Text × Text) → Text × Text
namespace_and_name key none = ([], key)
namespace_and_name key (some (namespace, name)) = (namespace, name)

-- KeyParse: namespace, then name
unfoldable pub key_parse : Text → Text × Text
key_parse key =
    let rest = after_space key (cut key (codes " ")) in
    namespace_and_name rest (cut rest (codes "/"))

-- key[i]: the byte at i
abbrev byte_at : Text → ℕ → ℕ
byte_at [] i = 0
byte_at (c ∷ s) zero = c
byte_at (c ∷ s) (suc i) = byte_at s i

-- isSpecialKey
unfoldable pub is_special_key : Text → Bool
is_special_key key = ltb 2 (length key) && (byte_at key 0 == b'_' && byte_at key 2 == b' ')

-- A name or a namespace, as Kubernetes allows them.
pub record IsPlain (t : Text) : Type 0 where
  pub no_slash : contains t b'/' ≡ false
  pub no_space : contains t b' ' ≡ false

slash-no_space : contains (codes "/") b' ' ≡ false
unfolding text_discrete
slash-no_space = refl

key_func-no_space :
    (namespace name : Text)
    → IsPlain namespace
    → IsPlain name
    → contains (key_func namespace name) b' ' ≡ false
unfolding key_func
key_func-no_space namespace name p q = ground (
  arith,
  p.no_space,
  q.no_space,
  contains-append (namespace ++ codes "/") name b' ',
  contains-append namespace (codes "/") b' ',
  slash-no_space,
)

parse_rest :
    (namespace name : Text)
    → IsPlain namespace
    → IsPlain name
    → namespace_and_name (key_func namespace name) (cut (key_func namespace name) (codes "/"))
      ≡ (namespace, name)
unfolding key_func
parse_rest namespace name p q =
    ground (arith, cut_absent name [] b'/' q.no_slash, cut-append namespace name [] b'/' p.no_slash)

-- The key that a namespace and a name make is parsed into them again, by itself and behind the
-- prefix of a trigger or of a replay.
pub key_parse-key_func :
    (namespace name : Text)
    → IsPlain namespace
    → IsPlain name
    → (key_parse (key_func namespace name) ≡ (namespace, name))
      × (key_parse (trigger_prefix ++ key_func namespace name) ≡ (namespace, name))
      × (key_parse (replay_prefix ++ key_func namespace name) ≡ (namespace, name))
unfolding key_parse text_discrete
key_parse-key_func namespace name p q =
    let plain =
      cut_absent (key_func namespace name) [] b' ' (key_func-no_space namespace name p q) in
    let rest = parse_rest namespace name p q in
    (
      rw plain rest,
      rw (cut-append (codes "_t") (key_func namespace name) [] b' ' refl) rest,
      rw (cut-append (codes "_r") (key_func namespace name) [] b' ' refl) rest,
    )

-- ===== src/Router/Handler.antt =====
-- pkg/router/types.go and handler.go: requests, responses and handlers. A handler changes the
-- object of its request in place, and the world through its client: both stand in `Scope`.
use nah.Prelude.{Text, Map, Option, Bool, if◌then◌else◌, ltb, ℕ, ◌||◌, nat_eq, ◌==◌}
use nah.Error.{Error}
use nah.Kube.{GroupVersionKind, Object}

pub record Request : Type 0 where
  pub gvk : GroupVersionKind
  pub namespace : Text
  pub name : Text
  pub key : Text
  pub from_trigger : Bool

-- The delay is in the clock's smallest unit, and zero where none was asked for. The values of the
-- attributes are opaque.
pub record Response : Type 0 where
  pub delay : ℕ
  pub attributes : Map Text Text

pub record Scope (W : Type 0) : Type 0 where
  pub object : Option Object
  pub response : Response
  pub world : W

-- Handler.Handle: a nil error is `none`.
abbrev pub Handler : Type 0 → Type 0
Handler W = Request → Scope W → Option Error × Scope W

abbrev pub Middleware : Type 0 → Type 0
Middleware W = Handler W → Handler W

-- response.RetryAfter
unfoldable pub retry_after : ℕ → Response → Response
retry_after delay r = if r.delay == 0 || ltb delay r.delay then record r { delay = delay } else r

-- ===== src/Router/Builder.antt =====
-- pkg/router/router.go: the methods of RouteBuilder, each of which returns a changed copy.
use nah.Prelude.{Text, List, ◌++◌, some, true}
use nah.Router.Handler.{Middleware}
use nah.Router.Matcher.{LabelSelector, FieldSelector}
use nah.Router.Filters.{RouteBuilder}

module _ {W : Type 0} where
  unfoldable pub with_middleware : List (Middleware W) → RouteBuilder W → RouteBuilder W
  with_middleware ms r = record r { middleware = r.middleware ++ ms }

  unfoldable pub in_namespace : Text → RouteBuilder W → RouteBuilder W
  in_namespace namespace r = record r { namespace = namespace }

  unfoldable pub with_selector : LabelSelector → RouteBuilder W → RouteBuilder W
  with_selector sel r = record r { sel = some sel }

  unfoldable pub with_field_selector : FieldSelector → RouteBuilder W → RouteBuilder W
  with_field_selector sel r = record r { field_selector = some sel }

  unfoldable pub with_name : Text → RouteBuilder W → RouteBuilder W
  with_name name r = record r { name = name }

  unfoldable pub include_removed : RouteBuilder W → RouteBuilder W
  include_removed r = record r { include_remove = true }

  unfoldable pub including_finalizing : RouteBuilder W → RouteBuilder W
  including_finalizing r = record r { include_finalizing = true }

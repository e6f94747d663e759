-- ===== src/Router/Filters.antt =====
-- pkg/router/router.go: the handlers that guard another, and RouteBuilder.Handler, which stacks
-- them.
pub mod Gate
use nah.Prelude.{
  Text, codes, text_eq, ◌==◌, if◌then◌else◌, List, [], ◌∷◌, ◌++◌, Option, none, some, Bool, true,
  false, not, ◌&&◌, ◌||◌, is_some,
}
use nah.Error.{Error, wrapped}
use nah.Kube.{Object}
use nah.Router.Handler.{Request, Scope, Handler, Middleware}
use nah.Router.Matcher.{LabelSelector, FieldSelector}

-- obj.GetDeletionTimestamp().IsZero()
abbrev pub is_deleting : Object → Bool
is_deleting obj = is_some obj.deletion_timestamp

abbrev pub is_live : Option Object → Bool
is_live none = false
is_live (some obj) = not (is_deleting obj)

abbrev pub selects : LabelSelector → Option Object → Bool
selects sel none = false
selects sel (some obj) = sel.matches obj.labels

-- is_fields says whether the Go type of an object implements fields.Fields.
abbrev pub selects_fields : (Object → Bool) → FieldSelector → Option Object → Bool
selects_fields is_fields sel none = false
selects_fields is_fields sel (some obj) = is_fields obj && sel.matches obj

module _ {W : Type 0} where
  abbrev handled : Scope W → Option Error × Scope W
  handled s = (none, s)

  unfoldable pub ignore_nil : Handler W → Handler W
  ignore_nil next req s = if is_some s.object then next req s else handled s

  -- IgnoreRemoveHandler
  unfoldable pub ignore_remove : Handler W → Handler W
  ignore_remove next req s = if not (is_live s.object) then handled s else next req s

  abbrev pub prefixed : Text → Option Error × Scope W → Option Error × Scope W
  prefixed prefix (none, s) = (none, s)
  prefixed prefix (some e, s) = (some (wrapped prefix e), s)

  -- ErrorPrefix
  unfoldable pub error_prefix : Text → Handler W → Handler W
  error_prefix prefix next req s = prefixed prefix (next req s)

  -- NameNamespaceFilter
  unfoldable pub name_namespace_filter : Text → Text → Handler W → Handler W
  name_namespace_filter name namespace next req s =
      if not (name == []) && not (req.name == name)
      then handled s
      else if not (namespace == []) && not (req.namespace == namespace)
      then handled s
      else next req s

  -- SelectorFilter
  unfoldable pub selector_filter : LabelSelector → Handler W → Handler W
  selector_filter sel next req s = if not (selects sel s.object) then handled s else next req s

  -- FieldSelectorFilter
  unfoldable pub field_selector_filter : (Object → Bool) → FieldSelector → Handler W → Handler W
  field_selector_filter is_fields sel next req s =
      if selects_fields is_fields sel s.object then next req s else handled s

  -- for i := len(m) - 1; i >= 0; i-- { result = m[i](result) }
  unfoldable pub stack : List (Middleware W) → Handler W → Handler W
  stack [] h = h
  stack (m ∷ ms) h = m (stack ms h)

pub record RouteBuilder (W : Type 0) : Type 0 where
  pub include_remove : Bool
  pub include_finalizing : Bool
  pub finalize_id : Text
  pub name : Text
  pub namespace : Text
  pub route_name : Text
  pub middleware : List (Middleware W)
  pub sel : Option LabelSelector
  pub field_selector : Option FieldSelector

module _ {W : Type 0} where
  -- if r.routeName == "" { r.routeName = name() }, where name() finds the caller's file and line
  unfoldable pub route_name_of : Text → RouteBuilder W → Text
  route_name_of caller r = if r.route_name == [] then caller else r.route_name

  unfoldable pub finalized : (Text → Handler W → Handler W) → RouteBuilder W → Handler W → Handler W
  finalized finalizer r h = if not (r.finalize_id == []) then finalizer r.finalize_id h else h

  unfoldable pub named : RouteBuilder W → Handler W → Handler W
  named r h =
      if not (r.name == []) || not (r.namespace == [])
      then name_namespace_filter r.name r.namespace h
      else h

  unfoldable pub labelled : Option LabelSelector → Handler W → Handler W
  labelled none h = h
  labelled (some sel) h = selector_filter sel h

  unfoldable pub fielded : (Object → Bool) → Option FieldSelector → Handler W → Handler W
  fielded is_fields none h = h
  fielded is_fields (some sel) h = field_selector_filter is_fields sel h

  unfoldable pub alive : RouteBuilder W → Handler W → Handler W
  alive r h =
      let some_object =
        if r.include_finalizing && (not r.include_remove && r.finalize_id == [])
        then ignore_nil h
        else h in
      if not r.include_remove && (not r.include_finalizing && r.finalize_id == [])
      then ignore_remove some_object
      else some_object

  unfoldable pub prefix_route : Text → Handler W → Handler W
  prefix_route route h =
      if not (route == []) then error_prefix (codes "[" ++ route ++ codes "] ") h else h

  -- RouteBuilder.Handler: what it registers for the builder's type. finalizer is FinalizerHandler
  -- at an id.
  unfoldable pub route_handler :
      (Object → Bool)
      → (Text → Handler W → Handler W)
      → Text
      → RouteBuilder W
      → Handler W
      → Handler W
  unfolding route_name_of finalized named labelled fielded alive prefix_route
  route_handler is_fields finalizer caller r h = prefix_route (route_name_of caller r) (
      alive r (
        fielded is_fields r.field_selector
          (labelled r.sel (named r (stack r.middleware (finalized finalizer r h))))))

-- ===== src/Router/Filters/Gate.antt =====
-- When a registered handler runs.
use nah.Prelude.{
  Text, codes, text_eq, ◌==◌, if◌then◌else◌, [], ◌++◌, Option, none, some, Bool, true, false, not,
  ◌&&◌, ◌||◌, is_some, ◌≡◌, refl, arith, ◌≢◌, ==_of_ne,
}
use nah.Kube.{Object}
use nah.Router.Handler.{Request, Scope, Handler}
use nah.Router.Matcher.{LabelSelector, FieldSelector}
use nah.Router.Filters.{
  ignore_nil, is_live, ignore_remove, prefixed, error_prefix, name_namespace_filter, selects,
  selector_filter, selects_fields, field_selector_filter, stack, RouteBuilder, route_name_of,
  finalized, named, labelled, fielded, alive, prefix_route, route_handler,
}

abbrev wanted : Text → Text → Bool
wanted expected actual = expected == [] || actual == expected

abbrev selected : Option LabelSelector → Option Object → Bool
selected none obj = true
selected (some sel) obj = selects sel obj

abbrev field_selected : (Object → Bool) → Option FieldSelector → Option Object → Bool
field_selected is_fields none obj = true
field_selected is_fields (some sel) obj = selects_fields is_fields sel obj

module _ {W : Type 0} where
  -- A finalizer, or a handler of removals, sees everything; one of finalizing objects sees every
  -- object that is there; any other sees the objects that are there and are not being deleted.
  abbrev visible : RouteBuilder W → Option Object → Bool
  visible r obj =
      if r.include_remove || not (r.finalize_id == [])
      then true
      else if r.include_finalizing
      then is_some obj
      else is_live obj

  -- The events that a route is about.
  abbrev pub passes : (Object → Bool) → RouteBuilder W → Request → Option Object → Bool
  passes is_fields r req obj =
      visible r obj
      && (field_selected is_fields r.field_selector obj
          && (selected r.sel obj && (wanted r.name req.name && wanted r.namespace req.namespace)))

  named-eq :
      (r : RouteBuilder W) (h : Handler W) (req : Request) (s : Scope W)
      → named r h req s ≡ (
          if wanted r.name req.name && wanted r.namespace req.namespace then h req s else (none, s))
  unfolding named name_namespace_filter
  named-eq r h req s = ground arith

  labelled-eq :
      (sel : Option LabelSelector) (h : Handler W) (req : Request) (s : Scope W)
      → labelled sel h req s ≡ (if selected sel s.object then h req s else (none, s))
  unfolding labelled selector_filter
  labelled-eq none h req s = refl
  labelled-eq (some sel) h req s = ground arith

  fielded-eq :
      (f : Object → Bool) (sel : Option FieldSelector) (h : Handler W) (req : Request) (s : Scope W)
      → fielded f sel h req s ≡ (if field_selected f sel s.object then h req s else (none, s))
  unfolding fielded field_selector_filter
  fielded-eq f none h req s = refl
  fielded-eq f (some sel) h req s = ground arith

  alive-eq :
      (r : RouteBuilder W) (h : Handler W) (req : Request) (s : Scope W)
      → alive r h req s ≡ (if visible r s.object then h req s else (none, s))
  unfolding alive ignore_nil ignore_remove
  alive-eq r h req s = ground arith

  prefix_route-eq :
      (route : Text) (h : Handler W) (req : Request) (s : Scope W)
      → (route == []) ≡ false
      → prefix_route route h req s ≡ prefixed (codes "[" ++ route ++ codes "] ") (h req s)
  unfolding prefix_route error_prefix
  prefix_route-eq route h req s n = rw n refl

  -- What runs behind the filters: the middleware round the handler.
  abbrev pub inner : (Text → Handler W → Handler W) → RouteBuilder W → Handler W → Handler W
  inner finalizer r h = stack r.middleware (finalized finalizer r h)

  route_handler-eq :
      (is_fields : Object → Bool) (finalizer : Text → Handler W → Handler W) (caller : Text)
      (r : RouteBuilder W) (h : Handler W)
      → route_handler is_fields finalizer caller r h
        ≡ prefix_route (route_name_of caller r) (
            alive r
              (fielded is_fields r.field_selector (labelled r.sel (named r (inner finalizer r h)))))
  unfolding route_handler
  route_handler-eq f finalizer caller r h = refl

  route_name_of-ne :
      (caller : Text) (r : RouteBuilder W) → caller ≢ [] → route_name_of caller r ≢ []
  unfolding route_name_of
  route_name_of-ne caller r c = ground arith

  -- A registered handler runs, behind the middleware in the order given, exactly on the events that
  -- its route is about, and an error of it comes back with the route's name in front; on any other
  -- event it does nothing and returns no error. The caller's position is never an empty text.
  pub route_handler_lem :
      (is_fields : Object → Bool) (finalizer : Text → Handler W → Handler W) (caller : Text)
      (r : RouteBuilder W) (h : Handler W) (req : Request) (s : Scope W)
      → caller ≢ []
      → route_handler is_fields finalizer caller r h req s ≡ (
          if passes is_fields r req s.object
          then prefixed
              (codes "[" ++ route_name_of caller r ++ codes "] ")
              (inner finalizer r h req s)
          else (none, s))
  route_handler_lem f finalizer caller r h req s c =
      let h₁ = inner finalizer r h in
      let h₂ = named r h₁ in
      let h₃ = labelled r.sel h₂ in
      let h₄ = fielded f r.field_selector h₃ in
      let route = route_name_of caller r in
      rw (route_handler-eq f finalizer caller r h) (
        rw
          (prefix_route-eq route (alive r h₄) req s
            (==_of_ne route [] (route_name_of-ne caller r c)))
          (ground (
            arith,
            alive-eq r h₄ req s,
            fielded-eq f r.field_selector h₃ req s,
            labelled-eq r.sel h₂ req s,
            named-eq r h₁ req s,
          )))

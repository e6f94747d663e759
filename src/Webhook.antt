-- ===== src/Webhook.antt =====
-- pkg/webhook: admission reviews, which are answered by the first route that matches.
pub mod Routes
use nah.Prelude.{
  Text, codes, text_eq, ◌==◌, if◌then◌else◌, List, [], ◌∷◌, ◌++◌, Option, none, some, Bool, true,
  false, not, ◌&&◌, ltb, length,
}
use nah.Error.{Error, message, Result, ok, err, ◌>>=◌}

-- metav1.GroupVersionKind and GroupVersionResource, as a request names them.
pub record Named : Type 0 where
  pub group : Text
  pub version : Text
  pub name : Text

abbrev pub unnamed : Named
unnamed = record { group = []; version = []; name = [] }

-- The fields of v1.AdmissionRequest that the package reads.
pub record AdmissionRequest : Type 0 where
  pub uid : Text
  pub request_kind : Option Named
  pub request_resource : Option Named
  pub sub_resource : Text
  pub name : Text
  pub namespace : Text
  pub operation : Text
  pub dry_run : Option Bool
  pub object : Text

-- The response of a handler: v1.AdmissionResponse. `result` is a status that is set.
pub record Response : Type 0 where
  pub uid : Text
  pub allowed : Bool
  pub result : Option Error
  pub patch : Text

-- A handler, on the state that it changes.
abbrev pub Handler : Type 0 → Type 0
Handler W = Response → AdmissionRequest → W → (Option Error × Response) × W

pub record RouteMatch (W : Type 0) : Type 0 where
  pub handler : Option (Handler W)
  pub kind : Text
  pub resource : Text
  pub version : Text
  pub sub_resource : Text
  pub dry_run : Option Bool
  pub group : Text
  pub name : Text
  pub namespace : Text
  pub operation : Text

unfoldable pub check_string : Text → Text → Bool
check_string expected actual = if expected == [] then true else expected == actual

abbrev pub same_bool : Bool → Bool → Bool
same_bool true b = b
same_bool false b = not b

unfoldable pub check_bool : Option Bool → Option Bool → Bool
check_bool none actual = true
check_bool (some e) none = false
check_bool (some e) (some a) = same_bool e a

abbrev pub or_unnamed : Option Named → Named
or_unnamed none = unnamed
or_unnamed (some n) = n

-- The group and the version are those of the resource, if there is one.
abbrev pub group_version_of : Option Named → Option Named → Named
group_version_of kind none = or_unnamed kind
group_version_of kind (some resource) = resource

-- resourceString
unfoldable pub resource_string : Text → Text → Text
resource_string ns name = if ns == [] then name else ns ++ codes "/" ++ name

module _ {W : Type 0} where
  -- RouteMatch.matches
  unfoldable pub matches : RouteMatch W → AdmissionRequest → Bool
  unfolding check_string check_bool
  matches r req =
      let gv = group_version_of req.request_kind req.request_resource in
      check_string r.kind (or_unnamed req.request_kind).name
      && (check_string r.resource (or_unnamed req.request_resource).name
          && (check_string r.sub_resource req.sub_resource
              && (check_string r.version gv.version
                  && (check_string r.group gv.group
                      && (check_string r.name req.name
                          && (check_string r.namespace req.namespace
                              && (check_string r.operation req.operation
                                  && check_bool r.dry_run req.dry_run)))))))

  abbrev pub admit_by :
      Option (Handler W) → Response → AdmissionRequest → W → (Option Error × Response) × W
  admit_by none response request w = ((none, response), w)
  admit_by (some handler) response request w = handler response request w

  -- RouteMatch.admit
  unfoldable pub admit_route :
      RouteMatch W → Response → AdmissionRequest → W → (Option Error × Response) × W
  admit_route r response request w = admit_by r.handler response request w

  -- Router.admit; kind_string is the string of the request's kind
  unfoldable pub admit :
      Text → List (RouteMatch W) → Response → AdmissionRequest → W → (Option Error × Response) × W
  unfolding matches admit_route
  admit kind_string [] response request w = (
    (
      some (
          message (
            codes "no route match found for "
            ++ request.operation
            ++ codes " "
            ++ kind_string
            ++ codes " "
            ++ resource_string request.namespace request.name)),
      response,
    ),
    w,
  )
  admit kind_string (m ∷ ms) response request w =
      let rest = admit kind_string ms response request w in
      if matches m request then admit_route m response request w else rest

-- What is written: an error of the server, or a review with a response.
pub data Reply : Type 0 where
  server_error : Error → Reply
  review : Response → Reply

-- sendError on a review with a request
abbrev pub refused : Response → Error → Reply
refused response e = review (record response { allowed = false; result = some e })

abbrev pub replied : {W : Type 0} → (Option Error × Response) × W → Reply × W
replied ((none, response), w) = (review response, w)
replied ((some e, response), w) = (refused response e, w)

abbrev pub initial_response : AdmissionRequest → Response
initial_response request = record { uid = request.uid; allowed = false; result = none; patch = [] }

-- ServeHTTP on what the body decodes to
unfoldable pub serve_http :
    {W : Type 0} → Text → List (RouteMatch W) → Result (Option AdmissionRequest) → W → Reply × W
unfolding admit
serve_http kind_string routes (err e) w = (server_error e, w)
serve_http kind_string routes (ok none) w = (server_error (message (codes "request is not set")), w)
serve_http kind_string routes (ok (some request)) w =
    replied (admit kind_string routes (initial_response request) request w)

-- Response.CreatePatch, from the encoded new object; the patch of two texts is a library's
unfoldable pub create_patch :
    (Text → Text → Result Text) → Result Text → AdmissionRequest → Response → Result Response
create_patch json_patch encoded request response =
    if ltb 0 (length response.patch)
    then err (message (codes "response patch has already been already been assigned"))
    else (encoded >>= λ new.
        json_patch request.object new >>= λ patch. ok (record response { patch = patch }))

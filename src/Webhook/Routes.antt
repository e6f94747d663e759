-- ===== src/Webhook/Routes.antt =====
-- pkg/webhook: who lets a request through.
use nah.Prelude.{
  Text, text_eq, List, [], ◌∷◌, ◌++◌, Option, none, some, Bool, true, false, ◌≡◌, refl, arith, All,
  Bool-cases, inl, inr, ap,
}
use nah.Error.{Error, ok}
use nah.Webhook.{
  AdmissionRequest, Response, Handler, RouteMatch, matches, admit_by, admit_route, admit, Reply,
  server_error, review, replied, initial_response, serve_http,
}

abbrev pub is_allowed : Reply → Bool
is_allowed (server_error e) = false
is_allowed (review response) = response.allowed

module _ {W : Type 0} (request : AdmissionRequest) where
  -- A route that lets the request through: no route before it matches, it matches, and its handler
  -- allowed the request without an error.
  pub record IsAllowedBy (routes : List (RouteMatch W)) (response : Response) (w : W) : Type 0 where
    pub before : List (RouteMatch W)
    pub after : List (RouteMatch W)
    pub route : RouteMatch W
    pub split : routes ≡ before ++ route ∷ after
    pub earlier : All (λ r. matches r request ≡ false) before
    pub fits : matches route request ≡ true
    pub handler : Handler W
    pub handler_eq : route.handler ≡ some handler
    pub no_error : (handler response request w).0.0 ≡ none
    pub allowed : (handler response request w).0.1.allowed ≡ true

  replied-allowed :
      (r : (Option Error × Response) × W)
      → is_allowed (replied r).0 ≡ true
      → (r.0.0 ≡ none) × (r.0.1.allowed ≡ true)
  replied-allowed ((none, response), w) h = (refl, h)
  replied-allowed ((some e, response), w) h = absurd (ground (arith, h))

  handler-allowed :
      (route : RouteMatch W) (ms : List (RouteMatch W)) (h : Option (Handler W))
      (response : Response) (w : W)
      → route.handler ≡ h
      → response.allowed ≡ false
      → matches route request ≡ true
      → is_allowed (replied (admit_by h response request w)).0 ≡ true
      → IsAllowedBy (route ∷ ms) response w
  handler-allowed route ms none response w p unset fits h = absurd (ground (arith, h, unset))
  handler-allowed route ms (some handler) response w p unset fits h =
      let both = replied-allowed (handler response request w) h in
      record {
        before = [];
        after = ms;
        route = route;
        split = refl;
        earlier = tt;
        fits = fits;
        handler = handler;
        handler_eq = p;
        no_error = both.0;
        allowed = both.1;
      }

  later :
      (route : RouteMatch W) (ms : List (RouteMatch W)) (response : Response) (w : W)
      → matches route request ≡ false
      → IsAllowedBy ms response w
      → IsAllowedBy (route ∷ ms) response w
  later route ms response w differs by = record {
    before = route ∷ by.before;
    after = by.after;
    route = by.route;
    split = ap (λ l. route ∷ l) by.split;
    earlier = (differs, by.earlier);
    fits = by.fits;
    handler = by.handler;
    handler_eq = by.handler_eq;
    no_error = by.no_error;
    allowed = by.allowed;
  }

  admit-allowed :
      (kind : Text) (routes : List (RouteMatch W)) (response : Response) (w : W)
      → response.allowed ≡ false
      → is_allowed (replied (admit kind routes response request w)).0 ≡ true
      → IsAllowedBy routes response w
  unfolding admit admit_route
  admit-allowed kind [] response w unset h = absurd (ground (arith, h))
  admit-allowed kind (m ∷ ms) response w unset h = elim (Bool-cases (matches m request)) [
    | inl fits ↦ handler-allowed m ms m.handler response w refl unset fits (rw fits at h)
    | inr differs ↦
        later m ms response w differs (admit-allowed kind ms response w unset (rw differs at h))
  ]

  -- A review is answered by `allowed` only if the handler of the first route that matches its
  -- request set that, and returned no error.
  pub serve_http-allowed :
      (kind : Text) (routes : List (RouteMatch W)) (w : W)
      → is_allowed (serve_http kind routes (ok (some request)) w).0 ≡ true
      → IsAllowedBy routes (initial_response request) w
  unfolding serve_http
  serve_http-allowed kind routes w h = admit-allowed kind routes (initial_response request) w refl h

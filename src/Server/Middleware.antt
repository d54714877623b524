-- ===== src/Server/Middleware.antt =====
-- pkg/server/middleware/cors, pkg/server/middleware/routeresolver and pkg/openapi/helpers: the route of a
-- request, and the answers to preflight requests. A handler takes the request and what was written to
-- what is then written, or none where it panics.
pub mod Preflight
use uni_core.Base.{
  String, Bool, true, false, not, ◌&&◌, Option, none, some, List, [], ◌∷◌, ◌++◌, map, Dict, lookup,
  insert, contains, join, has, ◌==◌, if◌then◌else◌,
}
use uni_core.Errors.{GoError, Result, ok, err}
use uni_core.Server.Errors.{as_go, http_not_found, http_method_not_allowed, oauth2_invalid_request}
use uni_core.Server.Errors.Response.{ResponseWriter, first_status, handle_error}

-- The methods of a path, as the specification has them.
abbrev pub PathItem : Type 0
PathItem = List String

pub record RouteInfo : Type 0 where
  pub path : String
  pub path_item : PathItem
  pub method : String
  pub parameters : Dict String

-- A header is looked up under its canonical name. `route` is what the context has.
pub record Request : Type 0 where
  pub method : String
  pub url_path : String
  pub header : Dict String
  pub route : Option RouteInfo

abbrev pub Handler : Type 0
Handler = Request → ResponseWriter → Option ResponseWriter

-- The router's pattern of a method and a path, or the empty string, with the parameters that it finds;
-- and the paths of the specification.
pub record Schema : Type 0 where
  pub find : String → String → String
  pub url_params : String → String → List (String × String)
  pub paths : Dict PathItem

abbrev pub get_header : Request → String → String
get_header r name = elim (lookup name r.header) [ none ↦ "" | some value ↦ value ]

abbrev collected : List (String × String) → Dict String → Dict String
collected [] parameters = parameters
collected ((key, value) ∷ rest) parameters = collected rest (insert key value parameters)

abbrev at_path : Schema → Request → String → Option PathItem → Result RouteInfo
at_path s r pattern none = err (as_go http_not_found)
at_path s r pattern (some item) =
    if contains item r.method
    then ok (record {
      path = pattern;
      path_item = item;
      method = r.method;
      parameters = collected (s.url_params r.method r.url_path) [];
    })
    else err (as_go http_method_not_allowed)

unfoldable pub find_route : Schema → Request → Result RouteInfo
find_route s r =
    let pattern = s.find r.method r.url_path in
    if pattern == ""
    then err (as_go http_not_found)
    else at_path s r pattern (lookup pattern s.paths)

abbrev pub requested_method : String
requested_method = "Access-Control-Request-Method"

abbrev missing_method : GoError
missing_method =
    as_go (oauth2_invalid_request ("OPTIONS missing Access-Control-Request-Method header" ∷ []))

abbrev pub resolved :
    String → Handler → Request → ResponseWriter → Result RouteInfo → Option ResponseWriter
resolved trace next r w (err e) = some (handle_error trace e w)
resolved trace next r w (ok info) = next (record r { route = some info }) w

-- A preflight request is resolved as the request that it asks about.
unfoldable pub route_resolver : String → Schema → Handler → Handler
unfolding find_route
route_resolver trace s next r w =
    if r.method == "OPTIONS"
    then if get_header r requested_method == ""
      then some (handle_error trace missing_method w)
      else resolved trace next r w
          (find_route s (record r { method = get_header r requested_method }))
    else resolved trace next r w (find_route s r)

pub record CorsOptions : Type 0 where
  pub allowed_origins : List String
  pub max_age : String

abbrev pub first : List String → Option String
first [] = none
first (s ∷ rest) = some s

-- The one origin that is allowed in the answer: there is none to fall back on in an empty list.
unfoldable pub allow_origin : CorsOptions → Request → Option String
allow_origin o r =
    let origin = get_header r "Origin" in
    if not (origin == "") && contains o.allowed_origins origin
    then some origin
    else first o.allowed_origins

abbrev add_header : ResponseWriter → List (String × String) → ResponseWriter
add_header w more = record w { header = w.header ++ more }

abbrev preflight_headers : CorsOptions → RouteInfo → List (String × String)
preflight_headers o info =
    ("Access-Control-Allow-Methods", join ", " (info.path_item ++ "OPTIONS" ∷ []))
    ∷ ("Access-Control-Allow-Headers", "Authorization, Content-Type, traceparent, tracestate")
    ∷ ("Access-Control-Max-Age", o.max_age)
    ∷ []

-- 204 without a body.
abbrev pub answered :
    String → GoError → CorsOptions → Option RouteInfo → ResponseWriter → ResponseWriter
answered trace e o none w = handle_error trace e w
answered trace e o (some info) w = record (add_header w (preflight_headers o info)) {
  status = some (first_status w.status 204);
}

abbrev pub preflight : String → GoError → CorsOptions → Request → ResponseWriter → ResponseWriter
preflight trace e o r w =
    if get_header r requested_method == ""
    then handle_error trace missing_method w
    else answered trace e o r.route w

abbrev pub with_origin :
    String
    → GoError
    → CorsOptions
    → Handler
    → Request
    → ResponseWriter
    → Option String
    → Option ResponseWriter
with_origin trace e o next r w none = none
with_origin trace e o next r w (some origin) =
    let w' = add_header w (("Access-Control-Allow-Origin", origin) ∷ []) in
    if not (r.method == "OPTIONS") then next r w' else some (preflight trace e o r w')

-- `no_route` is the error of a context without a route.
unfoldable pub cors : String → GoError → CorsOptions → Handler → Handler
unfolding allow_origin
cors trace no_route o next r w = with_origin trace no_route o next r w (allow_origin o r)

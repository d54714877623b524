-- ===== src/Server/Middleware/Preflight.antt =====
-- pkg/server/middleware: who answers a preflight request, and what origins are allowed.
use uni_core.Base.{
  String, ◌≡◌, refl, ap, sym, ◌∙◌, Bool, true, false, not, ◌&&◌, Option, none, some, List, [], ◌∷◌,
  contains, eq_iff, arith, ◌==◌, if◌then◌else◌,
}
use mathlib.Core.Option.{some-injective}
use uni_core.Errors.{GoError, Result, ok, err}
use uni_core.Server.Errors.Response.{ResponseWriter}
use uni_core.Server.Middleware.{
  Request, Handler, Schema, CorsOptions, RouteInfo, resolved, route_resolver, allow_origin,
  with_origin, cors, find_route, get_header, requested_method, first,
}

module _ (trace : String) (no_route : GoError) (o : CorsOptions) where
  with_origin-next :
      (next other : Handler) (r : Request) (w : ResponseWriter) (origin : Option String)
      → r.method ≡ "OPTIONS"
      → with_origin trace no_route o next r w origin ≡ with_origin trace no_route o other r w origin
  with_origin-next next other r w none h = refl
  with_origin-next next other r w (some origin) h =
      let asked : (r.method == "OPTIONS") ≡ true = (eq_iff r.method "OPTIONS").1 h in rw (asked)

  resolved-next :
      (next other : Handler) (r : Request) (w : ResponseWriter) (found : Result RouteInfo)
      → r.method ≡ "OPTIONS"
      → resolved trace (cors trace no_route o next) r w found
        ≡ resolved trace (cors trace no_route o other) r w found
  unfolding cors
  resolved-next next other r w (err e) h = refl
  resolved-next next other r w (ok info) h =
      with_origin-next next other (record r { route = some info }) w (allow_origin o r) h

  -- Behind the route resolver and CORS, what an OPTIONS request is answered with does not depend
  -- on the handler: none is called.
  preflight-unhandled :
      (s : Schema) (next other : Handler) (r : Request) (w : ResponseWriter)
      → r.method ≡ "OPTIONS"
      → route_resolver trace s (cors trace no_route o next) r w
        ≡ route_resolver trace s (cors trace no_route o other) r w
  unfolding route_resolver
  preflight-unhandled s next other r w h =
      let asked : (r.method == "OPTIONS") ≡ true = (eq_iff r.method "OPTIONS").1 h in
      rw (
        asked,
        resolved-next next other r w
            (find_route s (record r { method = get_header r requested_method })) h,
      )

first-contains : (xs : List String) (s : String) → first xs ≡ some s → contains xs s ≡ true
unfolding contains
first-contains [] s h = ground (arith)
first-contains (x ∷ xs) s h = ground (arith, eq_iff x s, some-injective x s h)

-- The origin that an answer allows is one of the allowed ones.
pub allow_origin-contains :
    (o : CorsOptions) (r : Request) (origin : String)
    → allow_origin o r ≡ some origin
    → contains o.allowed_origins origin ≡ true
unfolding allow_origin
allow_origin-contains o r origin h =
    by_test (not (get_header r "Origin" == "")) (contains o.allowed_origins (get_header r "Origin"))
      refl h
  where
    by_test :
        (named there : Bool)
        → contains o.allowed_origins (get_header r "Origin") ≡ there
        → (if named && there then some (get_header r "Origin") else first o.allowed_origins)
          ≡ some origin
        → contains o.allowed_origins origin ≡ true
    by_test true true e g =
        sym (ap (contains o.allowed_origins) (some-injective (get_header r "Origin") origin g)) ∙ e
    by_test true false e g = first-contains o.allowed_origins origin g
    by_test false there e g = first-contains o.allowed_origins origin g

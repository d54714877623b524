-- ===== src/Server/Errors/Vocabulary.antt =====
-- pkg/server/errors/errors.go: the codes that clients are sent, which pkg/openapi/types.go enumerates.
use uni_core.Base.{
  ℕ, String, ◌≡◌, refl, sym, subst, true, contains, Option, none, some, List, [], ◌∷◌, Dict, lookup,
}
use uni_core.Errors.{GoError}
use uni_core.Server.Errors.{
  HttpError, new_error, with_error, with_header, as_error, http_forbidden, http_not_found,
  http_method_not_allowed, http_conflict, http_request_entity_too_large, http_unprocessable_content,
  oauth2_invalid_request, oauth2_access_denied,
}
use uni_core.Server.Errors.Response.{ErrorBody, ResponseWriter, handle_error, from_open_api_error}
use uni_core.Server.Errors.Propagation.{shown, shown_at, body_of, IsUnanswered, told}

-- The values of openapi.ErrorError.
abbrev pub error_error : List String
error_error =
    "access_denied" ∷ "conflict" ∷ "forbidden" ∷ "invalid_request" ∷ "method_not_allowed"
    ∷ "not_found" ∷ "request_entity_too_large" ∷ "server_error" ∷ "unprocessable_content"
    ∷ "unsupported_media_type" ∷ []

-- The HTTP status that a code is named for.
abbrev pub status_of_code : Dict ℕ
status_of_code =
    ("invalid_request", 400)
    ∷ ("access_denied", 401)
    ∷ ("forbidden", 403)
    ∷ ("not_found", 404)
    ∷ ("method_not_allowed", 405)
    ∷ ("conflict", 409)
    ∷ ("request_entity_too_large", 413)
    ∷ ("unsupported_media_type", 415)
    ∷ ("unprocessable_content", 422)
    ∷ ("server_error", 500)
    ∷ []

-- The code is in the enumeration, and is the one of the status.
abbrev pub IsVocabulary : String → ℕ → Type 0
IsVocabulary code status =
    (contains error_error code ≡ true) × (lookup code status_of_code ≡ some status)

-- What the constructors make, with causes and headers added. One makes the error of another API's response,
-- which has the code of its status here.
pub data IsApiError : HttpError → Type 0 where
  forbidden : {h : HttpError} (operands : List String) → h ≡ http_forbidden operands → IsApiError h
  not_found : {h : HttpError} → h ≡ http_not_found → IsApiError h
  method_not_allowed : {h : HttpError} → h ≡ http_method_not_allowed → IsApiError h
  conflict : {h : HttpError} → h ≡ http_conflict → IsApiError h
  too_large :
      {h : HttpError} (operands : List String)
      → h ≡ http_request_entity_too_large operands
      → IsApiError h
  unprocessable :
      {h : HttpError} (operands : List String)
      → h ≡ http_unprocessable_content operands
      → IsApiError h
  invalid :
      {h : HttpError} (operands : List String) → h ≡ oauth2_invalid_request operands → IsApiError h
  denied :
      {h : HttpError} (operands : List String) → h ≡ oauth2_access_denied operands → IsApiError h
  propagated :
      {h : HttpError} (status : ℕ) (header : List (String × String)) (body : ErrorBody)
      → IsVocabulary body.error status
      → h ≡ from_open_api_error status header body
      → IsApiError h
  caused :
      {h : HttpError} (g : HttpError) (e : GoError)
      → IsApiError g
      → h ≡ with_error g e
      → IsApiError h
  headed :
      {h : HttpError} (g : HttpError) (key value : String)
      → IsApiError g
      → h ≡ with_header g key value
      → IsApiError h

abbrev IsTyped : HttpError → Type 0
IsTyped h = IsVocabulary h.code h.status

typed : {h g : HttpError} → h ≡ g → IsTyped g → IsTyped h
typed e t = subst IsTyped (sym e) t

IsApiError-IsTyped : {h : HttpError} → IsApiError h → IsTyped h
unfolding new_error with_error with_header from_open_api_error lookup contains
IsApiError-IsTyped (forbidden operands e) = typed e (refl, refl)
IsApiError-IsTyped (not_found e) = typed e (refl, refl)
IsApiError-IsTyped (method_not_allowed e) = typed e (refl, refl)
IsApiError-IsTyped (conflict e) = typed e (refl, refl)
IsApiError-IsTyped (too_large operands e) = typed e (refl, refl)
IsApiError-IsTyped (unprocessable operands e) = typed e (refl, refl)
IsApiError-IsTyped (invalid operands e) = typed e (refl, refl)
IsApiError-IsTyped (denied operands e) = typed e (refl, refl)
IsApiError-IsTyped (propagated status header body v e) = typed e v
IsApiError-IsTyped (caused g x a e) = typed e (IsApiError-IsTyped a)
IsApiError-IsTyped (headed g key value a e) = typed e (IsApiError-IsTyped a)

-- A response with a status and one body, whose code is in the enumeration and is that of the status.
abbrev pub IsTypedResponse : ResponseWriter → Type 0
IsTypedResponse w =
    (status : ℕ) × (body : ErrorBody) × (w.status ≡ some status)
    × (w.body ≡ body ∷ [])
    × IsVocabulary body.error status

shown-IsTyped :
    (o : Option HttpError) → ((h : HttpError) → o ≡ some h → IsApiError h) → IsTyped (shown_at o)
unfolding new_error lookup contains
shown-IsTyped none known = (refl, refl)
shown-IsTyped (some h) known = IsApiError-IsTyped (known h refl)

-- If the response was not started, and the API error in a chain, where there is one, was made by
-- the constructors with causes and headers added, or from another API's error whose code is in the
-- enumeration and is the one of its status, then HandleError writes a status and one body whose
-- code is a value of the enumeration of the API and is the one of that status; without an API
-- error in the chain, too.
pub handle_error-IsTypedResponse :
    (trace : String) (e : GoError) (w : ResponseWriter)
    → IsUnanswered w
    → ((h : HttpError) → as_error e ≡ some h → IsApiError h)
    → IsTypedResponse (handle_error trace e w)
handle_error-IsTypedResponse trace e w u known =
    let (status, body) = told trace e w u in
    ((shown e).status, body_of trace (shown e), status, body, shown-IsTyped (as_error e) known)

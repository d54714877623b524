-- ===== src/Server/Errors/Response.antt =====
-- pkg/server/errors/errors.go: errors written to the client, and read from another API's response.
use uni_core.Base.{
  ℕ, String, str_append, not, Option, none, some, List, [], ◌∷◌, ◌++◌, Dict, lookup, ltb, ◌==◌,
  if◌then◌else◌,
}
use uni_core.Errors.{GoError, sentinel, wrap, err_api_status, err_type_conversion}
use uni_core.Server.Errors.{HttpError, as_go, new_error, with_error, as_error}

-- openapi.Error
pub record ErrorBody : Type 0 where
  pub error : String
  pub error_description : String
  pub trace_id : Option String

-- What a handler has written: the headers that it set, in order, the status, and the bodies of errors
-- one after the other.
pub record ResponseWriter : Type 0 where
  pub header : List (String × String)
  pub status : Option ℕ
  pub body : List ErrorBody

-- WriteHeader: a status that was written before stays.
abbrev pub first_status : Option ℕ → ℕ → ℕ
first_status none status = status
first_status (some written) status = written

-- `trace` is the trace identifier of the request. The encoder and the connection do not fail, and the status of an
-- error is not an informational one.
unfoldable pub write : String → HttpError → ResponseWriter → ResponseWriter
write trace e w = record {
  header =
      w.header ++ ("Cache-Control", "no-cache") ∷ ("Content-Type", "application/json") ∷ e.header;
  status = some (first_status w.status e.status);
  body =
      w.body
      ++ record {
        error = e.code;
        error_description = e.description;
        trace_id = if not (trace == "") then some trace else none;
      }
        ∷ [];
}

abbrev pub internal_error : HttpError
internal_error =
    new_error 500 "server_error" ("an internal error has occurred, please contact support" ∷ [])

abbrev pub respond : String → GoError → ResponseWriter → Option HttpError → ResponseWriter
respond trace e w none = write trace (with_error internal_error e) w
respond trace e w (some h) = write trace h w

unfoldable pub handle_error : String → GoError → ResponseWriter → ResponseWriter
unfolding write with_error
handle_error trace e w = respond trace e w (as_error e)

-- A field of a generated response: what its pointer is, where it is an openapi.Error.
pub data ResponseField : Type 0 where
  nil_pointer : ResponseField
  unexported : ResponseField
  error_body : ErrorBody → ResponseField
  other : ResponseField

-- The response, which is a struct with its fields by name, or not one.
pub data DecodedResponse : Type 0 where
  not_struct : DecodedResponse
  struct : Dict ResponseField → DecodedResponse

-- The headers are not passed on.
unfoldable pub from_open_api_error : ℕ → List (String × String) → ErrorBody → HttpError
unfolding new_error
from_open_api_error code header body = new_error code body.error (body.error_description ∷ [])

abbrev conversion_error : String → GoError
conversion_error text = wrap text (sentinel err_type_conversion)

abbrev pub extracted : ℕ → List (String × String) → Option ResponseField → GoError
extracted status header none = conversion_error "error field not defined"
extracted status header (some nil_pointer) = conversion_error "error field not populated"
extracted status header (some unexported) = conversion_error "error field not interfaceable"
extracted status header (some other) = conversion_error "unable to assert error"
extracted status header (some (error_body body)) = as_go (from_open_api_error status header body)

abbrev pub extract : (ℕ → String) → ℕ → List (String × String) → DecodedResponse → GoError
extract decimal status header not_struct = conversion_error "error response is not a struct"
extract decimal status header (struct fields) =
    extracted status header (lookup (str_append "JSON" (decimal status)) fields)

-- `decimal` prints a number.
unfoldable pub propagate_error :
    (ℕ → String) → ℕ → List (String × String) → DecodedResponse → GoError
unfolding from_open_api_error
propagate_error decimal status header response =
    if ltb status 400
    then wrap "status code not valid" (sentinel err_api_status)
    else extract decimal status header response

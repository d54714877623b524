-- ===== src/Server/Errors.antt =====
-- pkg/server/errors/errors.go: the errors of the HTTP servers. What is only logged is left out, except
-- for the error that caused one. The operands of the printing functions are strings.
pub mod Challenge
pub mod Response
pub mod Propagation
pub mod Vocabulary
use uni_core.Base.{
  ℕ, String, Bool, false, Option, none, some, List, [], ◌∷◌, Dict, insert, join, nat_eq,
}
use uni_core.Errors.{GoError, sentinel, provisioning, wrap, http, http_caused, foreign}

pub record HttpError : Type 0 where
  pub status : ℕ
  pub code : String
  pub description : String
  pub header : Dict String
  pub caused_by : Option GoError

abbrev joined : ℕ → String → String → Dict String → Option GoError → GoError
joined status code description header none = http status code description header
joined status code description header (some e) = http_caused status code description header e

-- The error as a value of the interface `error`.
abbrev pub as_go : HttpError → GoError
as_go e = joined e.status e.code e.description e.header e.caused_by

-- fmt.Sprintln without its newline puts spaces between the operands.
unfoldable pub new_error : ℕ → String → List String → HttpError
new_error status code operands = record {
  status = status;
  code = code;
  description = join " " operands;
  header = [];
  caused_by = none;
}

unfoldable pub with_error : HttpError → GoError → HttpError
with_error e cause = record e { caused_by = some cause }

unfoldable pub with_header : HttpError → String → String → HttpError
with_header e key value = record e { header = insert key value e.header }

-- errors.As into *Error: the first one in the chain.
unfoldable pub as_error : GoError → Option HttpError
as_error (sentinel s) = none
as_error (provisioning d reason message) = as_error d
as_error (wrap text e) = as_error e
as_error (http status code description header) = some (record {
  status = status;
  code = code;
  description = description;
  header = header;
  caused_by = none;
})
as_error (http_caused status code description header cause) = some (record {
  status = status;
  code = code;
  description = description;
  header = header;
  caused_by = some cause;
})
as_error (foreign text) = none

unfoldable pub is_error_type : GoError → ℕ → Bool
unfolding as_error
is_error_type e code = elim (as_error e) [ none ↦ false | some h ↦ nat_eq h.status code ]

abbrev pub http_forbidden : List String → HttpError
http_forbidden operands = new_error 403 "forbidden" operands

abbrev pub is_forbidden : GoError → Bool
is_forbidden e = is_error_type e 403

abbrev pub http_not_found : HttpError
http_not_found = new_error 404 "not_found" ("resource not found" ∷ [])

abbrev pub is_http_not_found : GoError → Bool
is_http_not_found e = is_error_type e 404

abbrev pub http_method_not_allowed : HttpError
http_method_not_allowed =
    new_error 405 "method_not_allowed" ("the requested method was not allowed" ∷ [])

abbrev pub is_method_not_allowed : GoError → Bool
is_method_not_allowed e = is_error_type e 405

abbrev pub http_conflict : HttpError
http_conflict = new_error 409 "conflict" ("the requested resource already exists" ∷ [])

abbrev pub is_conflict : GoError → Bool
is_conflict e = is_error_type e 409

abbrev pub http_request_entity_too_large : List String → HttpError
http_request_entity_too_large operands = new_error 413 "request_entity_too_large" operands

abbrev pub is_request_entity_too_large : GoError → Bool
is_request_entity_too_large e = is_error_type e 413

abbrev pub http_unprocessable_content : List String → HttpError
http_unprocessable_content operands = new_error 422 "unprocessable_content" operands

abbrev pub is_unprocessable_content : GoError → Bool
is_unprocessable_content e = is_error_type e 422

abbrev pub oauth2_invalid_request : List String → HttpError
oauth2_invalid_request operands = new_error 400 "invalid_request" operands

abbrev pub is_bad_request : GoError → Bool
is_bad_request e = is_error_type e 400

abbrev pub oauth2_access_denied : List String → HttpError
oauth2_access_denied operands = new_error 401 "access_denied" operands

abbrev pub is_access_denied : GoError → Bool
is_access_denied e = is_error_type e 401

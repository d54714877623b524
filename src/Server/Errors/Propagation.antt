-- ===== src/Server/Errors/Propagation.antt =====
-- pkg/server/errors/errors.go: an error that one API answers with and another reads.
use uni_core.Base.{
  ℕ, String, str_append, ◌≡◌, ap, sym, ◌∙◌, false, Option, none, some, List, [], ◌∷◌, ◌++◌, not,
  ◌==◌, Dict, lookup, ltb, join, if◌then◌else◌,
}
use mathlib.Core.Option.{some-injective}
use uni_core.Errors.{GoError}
use uni_core.Server.Errors.{HttpError, as_go, as_error, new_error, with_error}
use uni_core.Server.Errors.Response.{
  ErrorBody, ResponseWriter, ResponseField, error_body, struct, first_status, respond, write,
  handle_error, propagate_error, internal_error, from_open_api_error,
}

-- The error that the client is told of.
abbrev pub shown_at : Option HttpError → HttpError
shown_at none = internal_error
shown_at (some h) = h

abbrev pub shown : GoError → HttpError
shown e = shown_at (as_error e)

-- What another API makes of it: the headers and the cause do not travel.
abbrev pub travelled : HttpError → HttpError
travelled h = record h { header = []; caused_by = none }

abbrev pub body_of : String → HttpError → ErrorBody
body_of trace h = record {
  error = h.code;
  error_description = h.description;
  trace_id = if not (trace == "") then some trace else none;
}

-- The response was not started.
abbrev pub IsUnanswered : ResponseWriter → Type 0
IsUnanswered w = (w.status ≡ none) × (w.body ≡ [])

written_lem :
    (trace : String) (h : HttpError) (w : ResponseWriter)
    → IsUnanswered w
    → ((write trace h w).status ≡ some h.status) × ((write trace h w).body ≡ body_of trace h ∷ [])
unfolding write
written_lem trace h w (s, b) =
    (ap (λ o. some (first_status o h.status)) s, ap (λ bs. bs ++ body_of trace h ∷ []) b)

-- The first of the bodies.
abbrev only : ErrorBody → List ErrorBody → ErrorBody
only unused (b ∷ bs) = b
only unused [] = unused

told_at :
    (trace : String) (e : GoError) (w : ResponseWriter) (h : Option HttpError)
    → IsUnanswered w
    → ((respond trace e w h).status ≡ some (shown_at h).status)
      × ((respond trace e w h).body ≡ body_of trace (shown_at h) ∷ [])
unfolding with_error
told_at trace e w none u = written_lem trace (with_error internal_error e) w u
told_at trace e w (some h) u = written_lem trace h w u

pub told :
    (trace : String) (e : GoError) (w : ResponseWriter)
    → IsUnanswered w
    → ((handle_error trace e w).status ≡ some (shown e).status)
      × ((handle_error trace e w).body ≡ body_of trace (shown e) ∷ [])
unfolding handle_error
told trace e w u = told_at trace e w (as_error e) u

read_back :
    (decimal : ℕ → String) (header : List (String × String)) (trace : String) (h : HttpError)
    (fields : Dict ResponseField)
    → ltb h.status 400 ≡ false
    → lookup (str_append "JSON" (decimal h.status)) fields ≡ some (error_body (body_of trace h))
    → propagate_error decimal h.status header (struct fields) ≡ as_go (travelled h)
unfolding propagate_error from_open_api_error new_error join
read_back decimal header trace h fields failed found = rw (failed, found)

-- When one API answers a request that was not answered yet with HandleError and another reads the
-- status and the body by PropagateError from a response that has a field for that status, and the
-- status is at least 400, the second has the error that the first showed, with its status, code
-- and description but no headers and no cause: the first *Error in the chain, or else the internal
-- error.
pub propagate_error-handle_error :
    (decimal : ℕ → String) (header : List (String × String)) (trace : String) (e : GoError)
    (w : ResponseWriter) (status : ℕ) (body : ErrorBody) (fields : Dict ResponseField)
    → IsUnanswered w
    → (handle_error trace e w).status ≡ some status
    → (handle_error trace e w).body ≡ body ∷ []
    → ltb status 400 ≡ false
    → lookup (str_append "JSON" (decimal status)) fields ≡ some (error_body body)
    → propagate_error decimal status header (struct fields) ≡ as_go (travelled (shown e))
propagate_error-handle_error decimal header trace e w status body fields u s b failed found =
    let same_status : status ≡ (shown e).status =
      some-injective status (shown e).status (sym s ∙ (told trace e w u).0) in
    let same_body : body ≡ body_of trace (shown e) =
      ap (only body) (sym b ∙ (told trace e w u).1) in
    ap (λ n. propagate_error decimal n header (struct fields)) same_status
    ∙ read_back decimal header trace (shown e) fields
        (ap (λ n. ltb n 400) (sym same_status) ∙ failed)
        (ap (λ n. lookup (str_append "JSON" (decimal n)) fields) (sym same_status)
          ∙ found
          ∙ ap (λ x. some (error_body x)) same_body)

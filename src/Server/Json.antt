-- ===== src/Server/Json.antt =====
-- pkg/server/util/json.go and octet_stream.go: the bodies of requests and responses. A body is its text,
-- and what reading it, encoding/json and the connection give are arguments.
use uni_core.Base.{ℕ, String, ◌≡◌, refl, true, List, [], ◌∷◌}
use uni_core.Errors.{GoError, wrap, Result, ok, err}
use uni_core.Server.Errors.{
  as_go, with_error, oauth2_invalid_request, as_error, is_bad_request, is_error_type, new_error,
}

-- The calls that are made of the response writer.
data ResponseCall : Type 0 where
  add_header : String → String → ResponseCall
  write_header : ℕ → ResponseCall
  write : String → ResponseCall

-- A response that cannot be encoded is not written at all.
unfoldable write_json_response : {A : Type 0} → (A → Result String) → ℕ → A → List ResponseCall
write_json_response marshal code response = elim (marshal response) [
  | err e ↦ []
  | ok body ↦ add_header "Content-Type" "application/json" ∷ write_header code ∷ write body ∷ []
]

unfoldable write_octet_stream_response : ℕ → String → List ResponseCall
write_octet_stream_response code body =
    add_header "Content-Type" "application/octet-stream" ∷ write_header code ∷ write body ∷ []

abbrev decoded : {A : Type 0} → Result A → Result A
decoded (ok v) = ok v
decoded (err e) = err (
    as_go (with_error (oauth2_invalid_request ("the request body is missing or malformed" ∷ [])) e))

unfoldable read_json_body : {A : Type 0} → Result String → (String → Result A) → Result A
unfolding with_error new_error
read_json_body (err e) unmarshal = err (wrap "unable to read request body" e)
read_json_body (ok body) unmarshal = decoded (unmarshal body)

abbrev IsDecoded : {A : Type 0} → Result A → Result A → Type 0
IsDecoded (ok v) r = r ≡ ok v
IsDecoded (err cause) r = (e : GoError) × (r ≡ err e) × (is_bad_request e ≡ true)

-- A body that is read gives its value, or an error that a client is sent with the status 400.
read_json_body-IsDecoded :
    {A : Type 0} (body : String) (unmarshal : String → Result A)
    → IsDecoded (unmarshal body) (read_json_body (ok body) unmarshal)
unfolding read_json_body as_error with_error new_error is_error_type
read_json_body-IsDecoded {A} body unmarshal = by_result (unmarshal body)
  where
    by_result : (r : Result A) → IsDecoded r (decoded r)
    by_result (ok v) = refl
    by_result (err cause) = (_, refl, refl)

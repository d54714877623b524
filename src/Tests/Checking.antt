-- ===== src/Tests/Checking.antt =====
-- Concrete runs of the repository's checks, of what the servers log, and of the errors that they send.
use Prim.Native.Nat.{ℕ}
use mathlib.Core.Option.{some-injective}
use uni_core.Base.{
  String, ◌≡◌, ◌↔◌, refl, sym, true, false, none, some, [], ◌∷◌, All, split, lookup, insert,
  contains, join, Option, List, ap, ◌∙◌, ◌++◌, Bool, inl, inr, if◌then◌else◌, arith,
}
use uni_core.Errors.{wrap}
use uni_core.Server.Errors.{
  HttpError, as_go, as_error, oauth2_access_denied, with_header, new_error,
}
use uni_core.Server.Errors.Response.{ResponseWriter, handle_error}
use uni_core.Server.Errors.Vocabulary.{
  IsApiError, denied, headed, IsTypedResponse, handle_error-IsTypedResponse,
}
use uni_core.Server.Capture.{
  Bytes, HttpWriter, WriterCall, write, write_header, read_from, take, called, capture_response,
  IsHttpWriter, is_informational, is_final, IsFaithful, capture_response-IsFaithful,
}
use uni_core.Server.Logging.{
  Request, Served, returns, EntryIsRedacted, TellsFailure, middleware, middleware-redacts,
}
use uni_core.Tools.OpenApi.{
  Operation, Spec, value, validate, validate_operation_documentation, validate_operation_security,
  validate_operation_foundness, must_include_status_code, validate_request_validation,
  validate_response_validation,
}
use uni_core.Tools.OpenApi.Exact.{IsValidSpec, validate_iff}
use uni_core.Tools.License.{Texts, passed, check_license}

abbrev decimal : ℕ → String
decimal n = "401"

abbrev get_region : Operation
get_region = record {
  extensions = [];
  summary = "Get a region.";
  tags = "regions" ∷ [];
  security = some 1;
  parameters = some (record { location = "path"; name = "regionID" }) ∷ [];
  request_body = none;
  status = λ code. some (value (some (("application/json", some true) ∷ [])));
}

abbrev regions : Spec
regions = record {
  request_bodies = [];
  responses = [];
  paths = record { parameters = []; operations = ("GET", get_region) ∷ [] } ∷ [];
}

validate_iff_example : validate decimal regions ≡ some false ↔ IsValidSpec regions
validate_iff_example = validate_iff decimal regions

regions_pass : validate decimal regions ≡ some false
unfolding validate validate_operation_documentation validate_operation_security lookup
    validate_operation_foundness must_include_status_code validate_request_validation contains
    validate_response_validation
regions_pass = refl

-- Groups of the expression for one copyright, and a comment with such a header.
abbrev texts : String → Texts
texts header = record {
  find_submatch = λ line. some (record { first = "2025"; last = "2026"; organization = "Nscale." });
  atoi = λ s. some 2026;
  trim_space = λ s. s;
  before_suffix = λ s suffix. some header;
  contains_text = λ s t. false;
  within = λ s. s;
}

abbrev licensed : Texts
licensed = texts "Copyright 2025-2026 Nscale.\n\n"

-- Text between the blank line and the license goes unnoticed.
text_before_license :
    check_license (texts "Copyright 2025-2026 Nscale.\n\nNot all of this applies: ") 2026 "/* … */"
    ≡ passed
unfolding check_license split
text_before_license = refl

abbrev denied_error : HttpError
denied_error = with_header (oauth2_access_denied ("no token" ∷ [])) "WWW-Authenticate" "Bearer"

abbrev untouched : ResponseWriter
untouched = record { header = []; status = none; body = [] }

handle_error-IsTypedResponse_example :
    IsTypedResponse (handle_error "abc" (wrap "authorize" (as_go denied_error)) untouched)
unfolding as_error with_header new_error insert join
handle_error-IsTypedResponse_example =
    handle_error-IsTypedResponse "abc" (wrap "authorize" (as_go denied_error)) untouched
      (refl, refl) known
  where
    known :
        (h : HttpError) → as_error (wrap "authorize" (as_go denied_error)) ≡ some h → IsApiError h
    known h e =
        headed (oauth2_access_denied ("no token" ∷ [])) "WWW-Authenticate" "Bearer"
          (denied ("no token" ∷ []) refl) (sym (some-injective denied_error h e))

abbrev private_request : Request
private_request = record {
  proto = "HTTP/1.1";
  url_scheme = "https";
  method = "GET";
  url_path = "/api/v1/regions";
  url_host = "region.example.com";
  url_raw_query = "";
  url_fragment = "";
  content_length = 0;
  remote_addr = "[2001:10::1]:4096";
  header = ("Authorization", "Bearer token" ∷ []) ∷ ("Accept", "application/json" ∷ []) ∷ [];
}

-- The handler takes a header off the request.
abbrev fails : Request → Served
fails r =
    returns (record r { header = [] })
      (record { code = 500; written = 12; duration = 7; header = ("Set-Cookie", "a" ∷ []) ∷ [] })

middleware-redacts_example :
    let (s, log) = middleware false fails private_request in
    All (EntryIsRedacted private_request s) log × TellsFailure s log
middleware-redacts_example = middleware-redacts false fails private_request

-- The address and the port that are recorded for an IPv6 client are parts of its address.
ipv6_client : split ":" private_request.remote_addr ≡ ("[2001", "10" ∷ "" ∷ "1]" ∷ "4096" ∷ [])
unfolding split
ipv6_client = refl

-- A writer with the status and the body that it was given, which takes at most two bytes at once.
abbrev Reply : Type 0
Reply = Option ℕ × Bytes

abbrev first_of : ℕ → Option ℕ → Option ℕ
first_of code none = some code
first_of code (some s) = some s

abbrev short_writer : HttpWriter Reply
short_writer = record {
  write = λ p w. (2, (none, (first_of 200 w.0, w.1 ++ take 2 p)));
  write_header = λ code w. (if is_informational code then w.0 else first_of code w.0, w.1);
  read_from = λ src w. (src, (2, (none, (first_of 200 w.0, w.1 ++ src))));
}

first_of-none : (code : ℕ) (o : Option ℕ) → o ≡ none → first_of code o ≡ some code
first_of-none code o e = ap (first_of code) e

first_of-some : (code s : ℕ) (o : Option ℕ) → o ≡ some s → first_of code o ≡ some s
first_of-some code s o e = ap (first_of code) e

unless_informational-some :
    (b : Bool) (code s : ℕ) (o : Option ℕ)
    → o ≡ some s
    → (if b then o else first_of code o) ≡ some s
unless_informational-some true code s o e = e
unless_informational-some false code s o e = first_of-some code s o e

short_writer-kept :
    (call : WriterCall) (w : Reply) (s : ℕ) → w.0 ≡ some s → (called short_writer call w).0 ≡ some s
short_writer-kept (write p) w s e = first_of-some 200 s w.0 e
short_writer-kept (write_header code) w s e =
    unless_informational-some (is_informational code) code s w.0 e
short_writer-kept (read_from src) w s e = first_of-some 200 s w.0 e

final-not-informational : (code : ℕ) → is_final code ≡ true → is_informational code ≡ false
final-not-informational code h = ground (arith)

short_writer-IsHttpWriter : IsHttpWriter short_writer (λ w. w.0)
short_writer-IsHttpWriter = record {
  informational = λ code w i e. ap (λ b. if b then w.0 else first_of code w.0) i ∙ e;
  first_header = λ code w f e.
      ap (λ b. if b then w.0 else first_of code w.0) (final-not-informational code f)
      ∙ first_of-none code w.0 e;
  first_write = λ p w e. first_of-none 200 w.0 e;
  first_read = λ src w e. first_of-none 200 w.0 e;
  kept = short_writer-kept;
}

abbrev reply_calls : List WriterCall
reply_calls = write_header 103 ∷ write_header 404 ∷ write (1 ∷ 2 ∷ 3 ∷ []) ∷ read_from (4 ∷ []) ∷ []

capture_response-IsFaithful_example :
    IsFaithful short_writer
      (λ w. w.0)
      reply_calls
      (none, [])
      (capture_response short_writer reply_calls (none, []))
capture_response-IsFaithful_example =
    capture_response-IsFaithful short_writer (λ w. w.0) short_writer-IsHttpWriter reply_calls
      (none, []) (inr (inr (refl, inl (refl, tt)))) refl

captured :
    (capture_response short_writer reply_calls (none, [])).0
    ≡ record { body = 1 ∷ 2 ∷ 4 ∷ []; code = 404 }
unfolding capture_response
captured = refl

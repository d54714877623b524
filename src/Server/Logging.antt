-- ===== src/Server/Logging.antt =====
-- pkg/server/middleware/logging/logging.go: what is logged of a request and its response. A header is
-- its canonical keys with their values. `verbose` is whether the first level of verbosity is enabled.
use uni_core.Base.{
  ℕ, String, ◌≡◌, refl, ap, ◌∙◌, ◌≤◌, Bool, true, false, not, ◌&&◌, ◌||◌, none, List, [], ◌∷◌, ◌++◌,
  Dict, lookup, contains, ltb, eq_iff, arith, ◌==◌, if◌then◌else◌, All, All-append_iff,
}

abbrev pub Header : Type 0
Header = Dict (List String)

pub record Request : Type 0 where
  pub proto : String
  pub url_scheme : String
  pub method : String
  pub url_path : String
  pub url_host : String
  pub url_raw_query : String
  pub url_fragment : String
  pub content_length : ℕ
  pub remote_addr : String
  pub header : Header

pub record RequestLog : Type 0 where
  pub protocol : String
  pub scheme : String
  pub method : String
  pub path : String
  pub host : String
  pub query : String
  pub fragment : String
  pub length : ℕ
  pub address : String
  pub headers : Header

pub record ResponseLog : Type 0 where
  pub code : ℕ
  pub length : ℕ
  pub time_ns : ℕ
  pub headers : Header

-- What httpsnoop measures of a response, and the headers that were written.
pub record Metrics : Type 0 where
  pub code : ℕ
  pub written : ℕ
  pub duration : ℕ
  pub header : Header

abbrev pub sensitive : List String
sensitive = "Authorization" ∷ "Cookie" ∷ "User-Agent" ∷ "Set-Cookie" ∷ "X-Forwarded-For" ∷ []

-- http.Header.Del of a canonical key
unfoldable pub del : String → Header → Header
del key [] = []
del key ((name, values) ∷ rest) =
    if name == key then del key rest else (name, values) ∷ del key rest

unfoldable pub del_all : List String → Header → Header
unfolding del
del_all [] h = h
del_all (key ∷ keys) h = del_all keys (del key h)

-- A header without entries is logged as none.
unfoldable pub headers : Header → Header
unfolding del_all
headers [] = []
headers ((name, values) ∷ rest) = del_all sensitive ((name, values) ∷ rest)

unfoldable pub request : Request → RequestLog
unfolding headers
request r = record {
  protocol = r.proto;
  scheme = r.url_scheme;
  method = r.method;
  path = r.url_path;
  host = r.url_host;
  query = r.url_raw_query;
  fragment = r.url_fragment;
  length = r.content_length;
  address = r.remote_addr;
  headers = headers r.header;
}

unfoldable pub response : Metrics → ResponseLog
unfolding headers
response m = record {
  code = m.code;
  length = m.written;
  time_ns = m.duration;
  headers = headers m.header;
}

pub data LogEntry : Type 0 where
  http_request : RequestLog → LogEntry
  http_response : RequestLog → ResponseLog → LogEntry

unfoldable pub log_request : Bool → Request → List LogEntry
unfolding request
log_request verbose r = if not verbose then [] else http_request (request r) ∷ []

unfoldable pub log_response : Bool → Request → Metrics → List LogEntry
unfolding request response
log_response verbose r m =
    if not verbose && ltb m.code 400 then [] else http_response (request r) (response m) ∷ []

-- What a handler does: it returns, and has a response and the request as it left it, or it panics.
pub data Served : Type 0 where
  returns : Request → Metrics → Served
  panics : Served

-- A panic goes through the middleware.
abbrev pub and_logged : Bool → List LogEntry → Served → Served × List LogEntry
and_logged verbose before (returns r m) = (returns r m, before ++ log_response verbose r m)
and_logged verbose before panics = (panics, before)

unfoldable pub middleware : Bool → (Request → Served) → Request → Served × List LogEntry
unfolding log_request log_response
middleware verbose next r = and_logged verbose (log_request verbose r) (next r)

lookup-del :
    (key asked : String) (h : Header)
    → lookup asked (del key h) ≡ (if key == asked then none else lookup asked h)
unfolding del lookup
lookup-del key asked [] = ground (arith)
lookup-del key asked ((name, values) ∷ rest) =
    ground (arith, lookup-del key asked rest, eq_iff name key, eq_iff name asked, eq_iff key asked)

lookup-del_all :
    (keys : List String) (asked : String) (h : Header)
    → lookup asked (del_all keys h) ≡ (if contains keys asked then none else lookup asked h)
unfolding del_all contains
lookup-del_all [] asked h = refl
lookup-del_all (key ∷ keys) asked h =
    ground (arith, lookup-del_all keys asked (del key h), lookup-del key asked h)

-- A sensitive header is not there, and every other one is as it was.
lookup-headers :
    (asked : String) (h : Header)
    → lookup asked (headers h) ≡ (if contains sensitive asked then none else lookup asked h)
unfolding headers lookup
lookup-headers asked [] = ground (arith)
lookup-headers asked ((name, values) ∷ rest) =
    lookup-del_all sensitive asked ((name, values) ∷ rest)

-- The headers that say who a client is.
abbrev pub is_private : String → Bool
is_private key =
    (key == "X-Forwarded-For")
    || (key == "User-Agent")
    || (key == "Authorization")
    || (key == "Cookie")
    || (key == "Set-Cookie")

-- What is shown of a header: all of it but what is private, as it is.
abbrev pub IsRedacted : Header → Header → Type 0
IsRedacted raw shown =
    (key : String) → lookup key shown ≡ (if is_private key then none else lookup key raw)

abbrev pub ResponseIsRedacted : Served → RequestLog → ResponseLog → Type 0
ResponseIsRedacted (returns r m) q s = IsRedacted r.header q.headers × IsRedacted m.header s.headers
ResponseIsRedacted panics q s = ⊥

abbrev pub EntryIsRedacted : Request → Served → LogEntry → Type 0
EntryIsRedacted r s (http_request q) = IsRedacted r.header q.headers
EntryIsRedacted r s (http_response q p) = ResponseIsRedacted s q p

sensitive-is_private : (key : String) → contains sensitive key ≡ is_private key
unfolding contains
sensitive-is_private key = ground (
  arith,
  eq_iff key "X-Forwarded-For",
  eq_iff key "User-Agent",
  eq_iff key "Authorization",
  eq_iff key "Cookie",
  eq_iff key "Set-Cookie",
  eq_iff "X-Forwarded-For" key,
  eq_iff "User-Agent" key,
  eq_iff "Authorization" key,
  eq_iff "Cookie" key,
  eq_iff "Set-Cookie" key,
)

headers-IsRedacted : (h : Header) → IsRedacted h (headers h)
headers-IsRedacted h key =
    lookup-headers key h ∙ ap (λ b. if b then none else lookup key h) (sensitive-is_private key)

abbrev pub has_response : List LogEntry → Bool
has_response [] = false
has_response (http_request q ∷ rest) = has_response rest
has_response (http_response q s ∷ rest) = true

-- A failure that the handler returned has an entry, and a panic has none.
abbrev pub TellsFailure : Served → List LogEntry → Type 0
TellsFailure (returns r m) log = 400 ≤ m.code → has_response log ≡ true
TellsFailure panics log = has_response log ≡ false

log_request-All :
    (verbose : Bool) (r : Request) (s : Served) → All (EntryIsRedacted r s) (log_request verbose r)
unfolding log_request request
log_request-All true r s = (headers-IsRedacted r.header, tt)
log_request-All false r s = tt

log_response-All :
    (verbose : Bool) (r r' : Request) (m : Metrics)
    → All (EntryIsRedacted r (returns r' m)) (log_response verbose r' m)
unfolding log_response request response
log_response-All verbose r r' m = by_test (not verbose && ltb m.code 400)
  where
    by_test :
        (b : Bool)
        → All
            (EntryIsRedacted r (returns r' m))
            (if b then [] else http_response (request r') (response m) ∷ [])
    by_test true = tt
    by_test false = ((headers-IsRedacted r'.header, headers-IsRedacted m.header), tt)

failure-has_response :
    (verbose : Bool) (r r' : Request) (m : Metrics)
    → 400 ≤ m.code
    → has_response (log_request verbose r ++ log_response verbose r' m) ≡ true
unfolding log_request log_response
failure-has_response true r r' m h = refl
failure-has_response false r r' m h = ground (arith)

log_request-has_response :
    (verbose : Bool) (r : Request) → has_response (log_request verbose r) ≡ false
unfolding log_request
log_request-has_response true r = refl
log_request-has_response false r = refl

-- Whatever response and request a handler leaves and the verbosity is, every entry that the
-- logging middleware makes shows of the headers of the request, as received before the handler and
-- as left by it after, and of those of the response all but Authorization, Cookie, User-Agent,
-- Set-Cookie and X-Forwarded-For, as they are; a response with a status of 400 or more of a
-- handler that returns has an entry, and a handler that panics has no entry of a response.
pub middleware-redacts :
    (verbose : Bool) (next : Request → Served) (r : Request)
    → let (s, log) = middleware verbose next r in All (EntryIsRedacted r s) log × TellsFailure s log
unfolding middleware
middleware-redacts verbose next r = by_outcome (next r)
  where
    by_outcome :
        (s : Served)
        → let (s', log) = and_logged verbose (log_request verbose r) s in
          All (EntryIsRedacted r s') log × TellsFailure s' log
    by_outcome (returns r' m) = (
      (All-append_iff (EntryIsRedacted r (returns r' m)) (log_request verbose r)
            (log_response verbose r' m)).1
          (log_request-All verbose r (returns r' m), log_response-All verbose r r' m),
      λ h. failure-has_response verbose r r' m h,
    )
    by_outcome panics = (log_request-All verbose r panics, log_request-has_response verbose r)

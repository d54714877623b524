-- ===== src/Server/Tracing.antt =====
-- pkg/server/middleware/opentelemetry/opentelemetry.go: what is recorded of a request and its response.
-- A header is its keys with their values. The tracer and the propagation of contexts are other code.
use uni_core.Base.{
  ℕ, String, str_append, ◌≡◌, ap, ◌∙◌, Bool, false, not, Option, none, some, List, [], ◌∷◌, ◌++◌,
  contains, ltb, split, has_separator, split-append, ◌==◌, if◌then◌else◌,
}
use uni_core.Server.Logging.{Request, Metrics, Header}

-- The attributes of semconv, and those that the code makes of headers.
pub data Attribute : Type 0 where
  network_protocol_name network_protocol_version : String → Attribute
  http_request_method : String → Attribute
  http_request_body_size http_response_body_size : ℕ → Attribute
  header_string : String → String → Attribute
  header_strings : String → List String → Attribute
  user_agent_original url_scheme url_path url_query url_fragment : String → Attribute
  server_address client_address service_name service_version : String → Attribute
  server_port client_port http_response_status_code : ℕ → Attribute

record Span : Type 0 where
  name : String
  attributes : List Attribute
  status : Bool × String

-- Of the standard library: strings.ToLower, strconv.Atoi of a number that is not negative, and
-- http.StatusText.
pub record GoText : Type 0 where
  pub to_lower : String → String
  pub atoi : String → Option ℕ
  pub status_text : ℕ → String

abbrev pub header_black_list : List String
header_black_list = "authorization" ∷ "user-agent" ∷ []

abbrev known_methods : List String
known_methods =
    "CONNECT" ∷ "DELETE" ∷ "GET" ∷ "HEAD" ∷ "OPTIONS" ∷ "PATCH" ∷ "POST" ∷ "PUT" ∷ "TRACE" ∷ []

abbrev unless_empty : String → (String → Attribute) → List Attribute
unless_empty text attribute = if not (text == "") then attribute text ∷ [] else []

abbrev header_attribute : String → List String → Attribute
header_attribute key [] = header_strings key []
header_attribute key (value ∷ []) = header_string key value
header_attribute key (value ∷ more ∷ rest) = header_strings key (value ∷ more ∷ rest)

-- r.UserAgent(): the first value of the header.
abbrev first_value : String → Header → String
first_value key [] = ""
first_value key ((name, []) ∷ rest) = if name == key then "" else first_value key rest
first_value key ((name, value ∷ values) ∷ rest) =
    if name == key then value else first_value key rest

-- The second part of a split, at index 1; none where there is none, and the index panics.
abbrev second : List String → Option String
second [] = none
second (part ∷ parts) = some part

module _ (g : GoText) where
  unfoldable pub http_header_attributes : Header → String → List Attribute
  http_header_attributes [] prefix = []
  http_header_attributes ((key, values) ∷ header) prefix =
      let rest = http_header_attributes header prefix in
      if contains header_black_list (g.to_lower key)
      then rest
      else header_attribute (str_append prefix (str_append "." (g.to_lower key))) values ∷ rest

  abbrev method_attribute : String → Attribute
  method_attribute method =
      http_request_method (if contains known_methods method then method else "_OTHER")

  abbrev port_or : ℕ → Option ℕ → ℕ
  port_or default none = default
  port_or default (some port) = port

  abbrev server_port_of : Option String → ℕ
  server_port_of none = 80
  server_port_of (some text) = port_or 80 (g.atoi text)

  abbrev client_port_of : Option ℕ → List Attribute
  client_port_of none = []
  client_port_of (some port) = client_port port ∷ []

  abbrev with_client : List Attribute → String × List String → Option (List Attribute)
  with_client attributes (host, []) = none
  with_client attributes (host, port ∷ rest) =
      some (attributes ++ client_address host ∷ client_port_of (g.atoi port))

  abbrev middle_attributes : Request → List Attribute
  middle_attributes r =
      (method_attribute r.method ∷ http_request_body_size r.content_length ∷ [])
      ++ (http_header_attributes r.header "http.request.header"
          ++ (unless_empty (first_value "User-Agent" r.header) user_agent_original
              ++ (url_scheme (if not (r.url_scheme == "") then r.url_scheme else "http")
                    ∷ url_path r.url_path
                    ∷ unless_empty r.url_raw_query url_query
                  ++ (unless_empty r.url_fragment url_fragment
                      ++ server_address (split ":" r.url_host).0
                        ∷ server_port (server_port_of (second (split ":" r.url_host).1))
                        ∷ []))))

  abbrev with_protocol : Request → String × List String → Option (List Attribute)
  with_protocol r (name, []) = none
  with_protocol r (name, version ∷ rest) =
      with_client
        (network_protocol_name name ∷ network_protocol_version version ∷ middle_attributes r)
        (split ":" r.remote_addr)

  -- None where an index is out of range, which panics.
  unfoldable pub http_request_attributes : Request → Option (List Attribute)
  unfolding http_header_attributes
  http_request_attributes r = with_protocol r (split "/" r.proto)

  unfoldable pub http_response_attributes : Metrics → List Attribute
  unfolding http_header_attributes
  http_response_attributes m =
      http_response_status_code m.code
      ∷ http_response_body_size m.written
      ∷ http_header_attributes m.header "http.response.header"

  -- Whether the span is an error, and the text.
  unfoldable pub http_status_to_otel_code : ℕ → Bool × String
  http_status_to_otel_code status = (not (ltb status 400), g.status_text status)

  abbrev recorded_span :
      Metrics → Request → List Attribute → Option (List Attribute) → Option (Metrics × Span)
  recorded_span m r service none = none
  recorded_span m r service (some attributes) = some (
    m,
    record {
      name = r.url_path;
      attributes = (service ++ attributes) ++ http_response_attributes m;
      status = http_status_to_otel_code m.code;
    },
  )

  -- The handler's response, and the span of it. The attributes of the request come first, so nothing is
  -- handled where they panic.
  unfoldable middleware : String → String → (Request → Metrics) → Request → Option (Metrics × Span)
  unfolding http_request_attributes http_response_attributes http_status_to_otel_code
  middleware name version next r =
      recorded_span (next r) r (service_name name ∷ service_version version ∷ [])
        (http_request_attributes r)

  -- A protocol "name/version" and a remote address "host:port" without further colons are recorded so.
  http_request_attributes-client :
      (r : Request) (name version host port : String)
      → has_separator "/" name ≡ false
      → has_separator ":" host ≡ false
      → r.proto ≡ str_append name (str_append "/" version)
      → r.remote_addr ≡ str_append host (str_append ":" port)
      → http_request_attributes r
        ≡ some (
            (network_protocol_name name
              ∷ network_protocol_version (split "/" version).0
              ∷ middle_attributes r)
            ++ client_address host ∷ client_port_of (g.atoi (split ":" port).0))
  unfolding http_request_attributes
  http_request_attributes-client r name version host port no_slash no_colon proto address =
      let protocol = split "/" version in
      let recorded : List Attribute =
        network_protocol_name name ∷ network_protocol_version protocol.0 ∷ middle_attributes r in
      ap (λ s. with_protocol r (split "/" s)) proto
      ∙ ap (with_protocol r) (split-append "/" name version no_slash)
      ∙ ap (λ s. with_client recorded (split ":" s)) address
      ∙ ap (with_client recorded) (split-append ":" host port no_colon)

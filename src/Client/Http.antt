-- ===== src/Client/Http.antt =====
-- pkg/client/http.go: the options of HTTP clients, and messages that are signed between services.
pub mod Signature
use uni_core.Base.{
  ℕ, String, Bool, true, false, not, ◌||◌, Option, none, some, List, [], ◌∷◌, Dict, lookup, ◌==◌,
  if◌then◌else◌,
}
use uni_core.Errors.{
  GoError, sentinel, wrap, err_secret_format_error, err_unsupported_key_type, Result, ok, err,
  ◌>>=◌,
}
use uni_core.Client.Certificates.{CertificateSource, new_source}

pub record HttpOptions : Type 0 where
  pub service : String
  pub host : String
  pub secret_namespace : String
  pub secret_name : String

pub record HttpClientOptions : Type 0 where
  pub secret_namespace : String
  pub secret_name : String
  pub reload_interval : ℕ

pub record Secret : Type 0 where
  pub secret_type : String
  pub data_of : Dict String

-- Other code: Kubernetes secrets by namespace and name; crypto/x509 and crypto/tls with certificates
-- `K` and pools `P`; the RSA keys in them, if that is what they are; JSON of data `D`; go-jose with
-- signers `G` and signed messages `J`, where algorithms are strings.
pub record HttpCode (K P X S Q D G J : Type 0) : Type 0 where
  pub get_secret : String → String → Result Secret
  pub append_certs_from_pem : String → Option P
  pub x509_key_pair : String → String → Result K
  pub rsa_private_key : K → Option S
  pub rsa_public_key : X → Option Q
  pub marshal : D → Result String
  pub unmarshal : String → Result D
  pub new_signer : String → S → Result G
  pub sign : G → String → Result J
  pub compact_serialize : J → Result String
  pub parse_signed_compact : String → List String → Result J
  pub verify : J → Q → Result String

pub record TlsConfig (K P : Type 0) : Type 0 where
  pub root_cas : Option P
  pub client_certificate : Option (CertificateSource K)

abbrev secret_error : {A : Type 0} → String → Result A
secret_error text = err (wrap text (sentinel err_secret_format_error))

abbrev required : String → Option String → Result String
required text none = secret_error text
required text (some value) = ok value

unfoldable pub new_http_options : String → HttpOptions
new_http_options service = record {
  service = service;
  host = "";
  secret_namespace = "";
  secret_name = "";
}

abbrev pooled : {P : Type 0} → Option P → Result P
pooled none = secret_error "failed to load identity CA certificate"
pooled (some pool) = ok pool

abbrev keyed : {S : Type 0} → Option S → Result S
keyed none = err (sentinel err_unsupported_key_type)
keyed (some key) = ok key

abbrev typed : String → Secret → Result Secret
typed text s = if not (s.secret_type == "kubernetes.io/tls") then secret_error text else ok s

module _ {K P X S Q D G J : Type 0} (hc : HttpCode K P X S Q D G J) where
  abbrev with_pool : HttpOptions → TlsConfig K P → Result (TlsConfig K P)
  with_pool o config = do
    secret ← hc.get_secret o.secret_namespace o.secret_name
    checked ← typed "issuer CA not of type kubernetes.io/tls" secret
    cert ← required "issuer CA missing tls.crt" (lookup "tls.crt" checked.data_of)
    pool ← pooled (hc.append_certs_from_pem cert)
    ok (record config { root_cas = some pool })

  -- The configuration is what the caller goes on with.
  unfoldable pub apply_tls_config : HttpOptions → TlsConfig K P → Result (TlsConfig K P)
  apply_tls_config o config = if o.secret_name == "" then ok config else with_pool o config

  unfoldable pub load_tls_certificate : HttpClientOptions → Result K
  load_tls_certificate o = do
    secret ← hc.get_secret o.secret_namespace o.secret_name
    checked ← typed "certificate not of type kubernetes.io/tls" secret
    cert ← required "certificate missing tls.crt" (lookup "tls.crt" checked.data_of)
    key ← required "certificate missing tls.key" (lookup "tls.key" checked.data_of)
    hc.x509_key_pair cert key

  abbrev with_source : HttpClientOptions → ℕ → TlsConfig K P → Result (TlsConfig K P)
  with_source o now config = do
    source ← new_source o.reload_interval now (load_tls_certificate o)
    ok (record config { client_certificate = some source })

  -- `now` is the time after the certificate is loaded.
  unfoldable pub apply_tls_client_config :
      HttpClientOptions → ℕ → TlsConfig K P → Result (TlsConfig K P)
  unfolding load_tls_certificate
  apply_tls_client_config o now config =
      if (o.secret_namespace == "") || (o.secret_name == "")
      then ok config
      else with_source o now config

  unfoldable pub encode_and_sign : HttpClientOptions → D → Result String
  unfolding load_tls_certificate
  encode_and_sign o d = do
    message ← hc.marshal d
    certificate ← load_tls_certificate o
    key ← keyed (hc.rsa_private_key certificate)
    signer ← hc.new_signer "PS512" key
    signed ← hc.sign signer message
    hc.compact_serialize signed

  unfoldable pub verify_and_decode : String → X → Result D
  verify_and_decode payload certificate = do
    signed ← hc.parse_signed_compact payload ("PS512" ∷ [])
    key ← keyed (hc.rsa_public_key certificate)
    message ← hc.verify signed key
    hc.unmarshal message

  -- A new configuration, of TLS 1.3, with what both options ask for.
  unfoldable pub tls_client_config : HttpOptions → HttpClientOptions → ℕ → Result (TlsConfig K P)
  unfolding apply_tls_config apply_tls_client_config
  tls_client_config options client_options now = do
    config ← apply_tls_config options (record { root_cas = none; client_certificate = none })
    apply_tls_client_config client_options now config

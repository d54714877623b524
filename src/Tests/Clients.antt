-- ===== src/Tests/Clients.antt =====
-- pkg/client/http.go, pkg/server/errors, pkg/server/util, pkg/server/middleware and the invalidation of
-- pkg/util/cache/refresh_ahead.go on concrete requests and callers.
use mathlib.Core.List.Memᴰ as MemD
use uni_core.Base.{
  ℕ, String, ◌≡◌, ◌≤◌, ◌<◌, ◌+◌, ◌*◌, refl, sym, ap, subst, ◌∙◌, true, false, ◌==◌, if◌then◌else◌,
  eq_iff, contains, none, some, List, [], ◌∷◌, lookup, join, arith, ◌↔◌,
}
use uni_core.Errors.{wrap, foreign, Result, ok, err}
use uni_core.Cache.RefreshAhead.Invalidation.{
  State, created, in_nil_send, in_send, received, cleared, refreshing, answered, open_channel, set,
  initial, move, calls_first, sends_nil, sends, receives, clears, begins, answers, runs, Steps,
  done, more,
}
use uni_core.Cache.RefreshAhead.Invalidation.Coalescing.{invalidate-fresh}
use uni_core.Cache.RefreshAhead.Invalidation.Stuck.{IsStuck, invalidate-IsStuck}
use uni_core.Client.Certificates.{CertificateSource, Handshake, new_source, after_all}
use uni_core.Client.Certificates.Retention.{Serves, get_client_certificate-Serves}
use uni_core.Client.Certificates.Rate.{loads, loads-le}
use uni_core.Client.Http.{
  HttpCode, HttpClientOptions, load_tls_certificate, encode_and_sign, verify_and_decode,
}
use uni_core.Client.Http.Signature.{IsJose, verify_and_decode-encode_and_sign}
use uni_core.Server.Errors.{as_go, http_not_found, new_error, as_error}
use uni_core.Server.Errors.Response.{
  ResponseWriter, ErrorBody, error_body, struct, handle_error, propagate_error,
}
use uni_core.Server.Errors.Propagation.{shown, travelled, propagate_error-handle_error}
use uni_core.Api.Tags.{Tag}
use uni_core.Server.Selector.{decode_tag_selector_param, decode_tag_selector_param-ok, AreTagTexts}

-- The cache runs, and Invalidate is called once.
abbrev running : State
running = record initial { channel = open_channel; begun = 1 }

abbrev called : State
called = record running {
  pending = some 0;
  phase = set 0 created running.phase;
  next_request = 1;
  callers = (1, 0) ∷ [];
}

abbrev sent : State
sent = move 0 in_send called

abbrev taken : State
taken = move 0 received sent

abbrev freed : State
freed = record (move 0 cleared taken) { pending = none }

abbrev refreshes : State
refreshes = record (move 0 (refreshing 2) freed) { begun = 2 }

abbrev finished : State
finished = move 0 (answered 2 none) refreshes

invalidation : Steps initial finished
invalidation = more initial running finished (runs refl) (
    more running called finished (calls_first refl) (
      more called sent finished (sends 0 refl refl) (
        more sent taken finished (receives 0 refl refl) (
          more taken freed finished (clears 0 refl) (
            more freed refreshes finished (begins 0 refl)
              (more refreshes finished finished (answers 0 2 none refl) (done finished)))))))

invalidate-fresh_example : 1 < 2
invalidate-fresh_example = invalidate-fresh finished 1 0 2 none invalidation (MemD.head refl) refl

-- Invalidate is called before Run.
abbrev early : State
early = record initial {
  pending = some 0;
  phase = set 0 created initial.phase;
  next_request = 1;
  callers = (0, 0) ∷ [];
}

abbrev stuck : State
stuck = move 0 in_nil_send early

abbrev too_late : State
too_late = record stuck { channel = open_channel; begun = 1 }

invalidate-IsStuck_example : IsStuck 0 too_late
invalidate-IsStuck_example =
    invalidate-IsStuck stuck too_late 0
      (more initial early stuck (calls_first refl)
        (more early stuck stuck (sends_nil 0 refl refl) (done stuck)))
      refl (more stuck too_late too_late (runs refl) (done too_late))

-- A certificate is a number. It is loaded at the time 0, and looked at again at 5, 12 and 30.
abbrev source : CertificateSource ℕ
source = record { current = some 7; next_check = 10; reload_interval = 10 }

abbrev handshakes : List (Handshake ℕ)
handshakes =
    record { checked_at = 5; loaded = ok 8; loaded_at = 5 }
    ∷ record { checked_at = 12; loaded = ok 9; loaded_at = 13 }
    ∷ record { checked_at = 30; loaded = ok 10; loaded_at = 30 }
    ∷ []

made : new_source {K = ℕ} 10 0 (ok 7) ≡ ok source
unfolding new_source
made = refl

get_client_certificate-Serves_example :
    Serves
      (after_all source handshakes)
      (record { checked_at = 41; loaded = err (foreign "no secret"); loaded_at = 41 })
get_client_certificate-Serves_example =
    get_client_certificate-Serves 10 0 (ok 7) source handshakes
      (record { checked_at = 41; loaded = err (foreign "no secret"); loaded_at = 41 }) made

loads-le_example : 0 + loads source handshakes * 10 ≤ 30
loads-le_example = loads-le 10 0 30 (ok 7) source handshakes made (omega arith) (
  omega arith,
  omega arith,
  (8, refl),
  (omega arith, omega arith, (9, refl), (omega arith, omega arith, (10, refl), omega arith)),
)

-- Data are strings, and a message is its own JSON. A signed message is the algorithm and the message, and
-- has a compact form under one algorithm.
abbrev Signed : Type 0
Signed = String × String

abbrev HasSignature : Signed → String → ℕ → String → Type 0
HasSignature j alg s message = (j.0 ≡ alg) × (j.1 ≡ message)

abbrev compact : Signed → Result String
compact j = if j.0 == "PS512" then ok j.1 else err (foreign "no compact form")

abbrev parsed : String → List String → Result Signed
parsed payload allowed =
    if contains allowed "PS512"
    then ok ("PS512", payload)
    else err (foreign "algorithm not allowed")

abbrev http_code : HttpCode Unit Unit Unit ℕ ℕ String (String × ℕ) Signed
http_code = record {
  get_secret = λ namespace name. ok (record {
    secret_type = "kubernetes.io/tls";
    data_of = ("tls.crt", "cert") ∷ ("tls.key", "key") ∷ [];
  });
  append_certs_from_pem = λ pem. some tt;
  x509_key_pair = λ cert key. ok tt;
  rsa_private_key = λ k. some 3;
  rsa_public_key = λ x. some 3;
  marshal = λ d. ok d;
  unmarshal = λ s. ok s;
  new_signer = λ alg s. ok (alg, s);
  sign = λ g message. ok (g.0, message);
  compact_serialize = compact;
  parse_signed_compact = parsed;
  verify = λ j q. ok j.1;
}

ok-injective : {A : Type 0} {x y : A} → ok x ≡ ok y → x ≡ y
ok-injective h = cc

compact-ok : (a m payload : String) → compact (a, m) ≡ ok payload → (a ≡ "PS512") × (m ≡ payload)
compact-ok a m payload h = ground (arith, eq_iff a "PS512")

parsed-ok :
    (payload : String) (allowed : List String)
    → contains allowed "PS512" ≡ true
    → parsed payload allowed ≡ ok ("PS512", payload)
parsed-ok payload allowed h = rw h

parsed-err :
    (payload : String) (allowed : List String)
    → contains allowed "PS512" ≡ false
    → parsed payload allowed ≡ err (foreign "algorithm not allowed")
parsed-err payload allowed h = rw h

http_code-IsJose : IsJose http_code (λ s q. s ≡ q) HasSignature
http_code-IsJose = record {
  signs = λ alg s g message j made signed.
      let g_is = ok-injective made in
      let j_is = ok-injective signed in
      (sym (ap (λ x. x.0) j_is) ∙ sym (ap (λ x. x.0) g_is), sym (ap (λ x. x.1) j_is));
  parses = λ alg s message j payload allowed (a, b) c d.
      let (e, f) = compact-ok j.0 j.1 payload c in
      (
        ("PS512", payload),
        parsed-ok payload allowed (subst (λ x. contains allowed x ≡ true) (sym a ∙ e) d),
        (sym e ∙ a, sym f ∙ b),
      );
  refuses = λ alg s message j payload allowed (a, b) c d.
      let (e, f) = compact-ok j.0 j.1 payload c in
      (_, parsed-err payload allowed (subst (λ x. contains allowed x ≡ false) (sym a ∙ e) d));
  verifies = λ alg s q message j p (a, b). ap ok b;
}

abbrev client_options : HttpClientOptions
client_options = record {
  secret_namespace = "unikorn";
  secret_name = "client";
  reload_interval = 0;
}

verify_and_decode-encode_and_sign_example : verify_and_decode http_code "hello" tt ≡ ok "hello"
unfolding load_tls_certificate encode_and_sign lookup
verify_and_decode-encode_and_sign_example =
    verify_and_decode-encode_and_sign http_code (λ s q. s ≡ q) HasSignature http_code-IsJose
      client_options "hello" "hello" tt tt 3 3 (λ message e. sym e) refl refl refl refl refl

abbrev untouched : ResponseWriter
untouched = record { header = []; status = none; body = [] }

abbrev decimal : ℕ → String
decimal n = "404"

abbrev not_found_body : ErrorBody
not_found_body = record {
  error = "not_found";
  error_description = "resource not found";
  trace_id = some "abc";
}

propagate_error-handle_error_example :
    propagate_error decimal 404 [] (struct (("JSON404", error_body not_found_body) ∷ []))
    ≡ as_go (travelled (shown (wrap "get" (as_go http_not_found))))
unfolding handle_error as_error new_error lookup join
propagate_error-handle_error_example =
    propagate_error-handle_error decimal [] "abc" (wrap "get" (as_go http_not_found)) untouched 404
      not_found_body (("JSON404", error_body not_found_body) ∷ []) (refl, refl) refl refl refl refl

abbrev selected : List Tag
selected = (record { name = "env"; value = "prod" }) ∷ (record { name = "team"; value = "" }) ∷ []

decode_tag_selector_param-ok_example :
    decode_tag_selector_param (some ("env=prod" ∷ "team=" ∷ [])) ≡ ok selected
    ↔ AreTagTexts ("env=prod" ∷ "team=" ∷ []) selected
decode_tag_selector_param-ok_example =
    decode_tag_selector_param-ok ("env=prod" ∷ "team=" ∷ []) selected

tags_decode : decode_tag_selector_param (some ("env=prod" ∷ "team=" ∷ [])) ≡ ok selected
unfolding decode_tag_selector_param
tags_decode = refl

-- ===== src/Client/Http/Signature.antt =====
-- pkg/client/http.go: a message that one service signs and another verifies.
use uni_core.Base.{String, ◌≡◌, refl, ap, sym, ◌∙◌, some, true, false, List, [], ◌∷◌, contains}
use uni_core.Errors.{GoError, Result, ok, err, ◌>>=◌, ok_of_>>=}
use uni_core.Client.Http.{
  HttpCode, HttpClientOptions, keyed, load_tls_certificate, encode_and_sign, verify_and_decode,
}

module _ {K P X S Q D G J : Type 0} (hc : HttpCode K P X S Q D G J) where
  -- What go-jose documents: what a signer made for an algorithm and a private key signs has a signature
  -- of the message by both; the compact form of a message is parsed where its algorithm is one of those
  -- allowed, and refused where it is not; and a signature is verified under the public key of the pair.
  pub record IsJose (pair : S → Q → Type 0) (HasSignature : J → String → S → String → Type 0)
      : Type 0 where
    pub signs :
        (alg : String) (s : S) (g : G) (message : String) (j : J)
        → hc.new_signer alg s ≡ ok g
        → hc.sign g message ≡ ok j
        → HasSignature j alg s message
    pub parses :
        (alg : String) (s : S) (message : String) (j : J) (payload : String) (allowed : List String)
        → HasSignature j alg s message
        → hc.compact_serialize j ≡ ok payload
        → contains allowed alg ≡ true
        → (j' : J) × (hc.parse_signed_compact payload allowed ≡ ok j')
          × HasSignature j' alg s message
    pub refuses :
        (alg : String) (s : S) (message : String) (j : J) (payload : String) (allowed : List String)
        → HasSignature j alg s message
        → hc.compact_serialize j ≡ ok payload
        → contains allowed alg ≡ false
        → (e : GoError) × (hc.parse_signed_compact payload allowed ≡ err e)
    pub verifies :
        (alg : String) (s : S) (q : Q) (message : String) (j : J)
        → pair s q
        → HasSignature j alg s message
        → hc.verify j q ≡ ok message

  -- The JSON of this value, if it has one, is decoded to it.
  abbrev pub IsDecodable : D → Type 0
  IsDecodable d = (message : String) → hc.marshal d ≡ ok message → hc.unmarshal message ≡ ok d

  abbrev after_key : String → S → Result String
  after_key message key = do
    signer ← hc.new_signer "PS512" key
    signed ← hc.sign signer message
    hc.compact_serialize signed

  abbrev after_load : String → K → Result String
  after_load message certificate = do
    key ← keyed (hc.rsa_private_key certificate)
    after_key message key

  abbrev after_marshal : HttpClientOptions → String → Result String
  after_marshal o message = do
    certificate ← load_tls_certificate hc o
    after_load message certificate

  module _ (pair : S → Q → Type 0) (HasSignature : J → String → S → String → Type 0)
      (jose : IsJose pair HasSignature) where
    -- With go-jose as documented: what EncodeAndSign returns, under the loaded certificate's RSA
    -- key, for data whose JSON is decoded to them, VerifyAndDecode decodes to the same data under
    -- a certificate with the public key of the pair; so the algorithm of the signature is one of
    -- those allowed.
    pub verify_and_decode-encode_and_sign :
        (o : HttpClientOptions) (d : D) (payload : String) (certificate : X) (k : K) (s : S) (q : Q)
        → IsDecodable d
        → load_tls_certificate hc o ≡ ok k
        → hc.rsa_private_key k ≡ some s
        → hc.rsa_public_key certificate ≡ some q
        → pair s q
        → encode_and_sign hc o d ≡ ok payload
        → verify_and_decode hc payload certificate ≡ ok d
    unfolding encode_and_sign verify_and_decode contains
    verify_and_decode-encode_and_sign o d payload certificate k s q decodable loaded private public
          paired signed =
        let (message, marshaled, r) = ok_of_>>= (hc.marshal d) (after_marshal o) signed in
        let keys =
          ap (λ x. keyed x >>= after_key message) (sym private)
          ∙ ap (λ x. x >>= after_load message) (sym loaded)
          ∙ r in
        let (g, made, r') =
          ok_of_>>= (hc.new_signer "PS512" s) (λ g. hc.sign g message >>= hc.compact_serialize)
            keys in
        let (j, done, serialized) = ok_of_>>= (hc.sign g message) hc.compact_serialize r' in
        let (j', parsed, signature) =
          jose.parses "PS512" s message j payload ("PS512" ∷ [])
            (jose.signs "PS512" s g message j made done) serialized refl in
        rw (
          parsed,
          public,
          jose.verifies "PS512" s q message j' paired signature,
          decodable message marshaled,
        )

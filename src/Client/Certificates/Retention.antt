-- ===== src/Client/Certificates/Retention.antt =====
-- pkg/client/http.go: the certificate that a source keeps.
use uni_core.Base.{
  ℕ, ◌≡◌, refl, ap, sym, ◌⊎◌, inl, inr, Bool, true, false, Option, none, some, List, [], ◌∷◌, ltb,
  leb, arith, if◌then◌else◌,
}
use uni_core.Errors.{Result, ok, err}
use uni_core.Client.Certificates.{
  CertificateSource, Handshake, Served, new_source, get_client_certificate, after_all, reloaded,
  kept,
}

module _ {K : Type 0} where
  -- A certificate is handed out, and it is the one that was kept or the one that was just loaded.
  pub record Serves (s : CertificateSource K) (h : Handshake K) : Type 0 where
    pub certificate : K
    pub served : (get_client_certificate s h).certificate ≡ ok (some certificate)
    pub origin : (s.current ≡ some certificate) ⊎ (h.loaded ≡ ok certificate)
    pub retained : (get_client_certificate s h).source.current ≡ some certificate

  abbrev Well : CertificateSource K → Result K → Served K → Type 0
  Well s loaded r =
      (c : K) × (r.certificate ≡ ok (some c))
      × ((s.current ≡ some c) ⊎ (loaded ≡ ok c))
      × (r.source.current ≡ some c)

  kept-Well :
      (s : CertificateSource K) (loaded : Result K) (c : K)
      → s.current ≡ some c
      → Well s loaded (kept s)
  kept-Well s loaded c e = (c, ap ok e, inl e, e)

  reloaded-Well :
      (s : CertificateSource K) (now : ℕ) (loaded : Result K) (c : K)
      → s.current ≡ some c
      → Well s loaded (reloaded s now loaded)
  reloaded-Well s now (err e) c has = (c, rw (has), inl has, has)
  reloaded-Well s now (ok new) c has = (new, refl, inr refl, refl)

  get-Well :
      (s : CertificateSource K) (h : Handshake K) (c : K)
      → s.current ≡ some c
      → Well s h.loaded (get_client_certificate s h)
  unfolding get_client_certificate
  get-Well s h c has = by_tests (leb s.reload_interval 0) (ltb h.checked_at s.next_check)
    where
      by_tests :
          (never early : Bool)
          → Well s h.loaded
              (if never then kept s else if early then kept s else reloaded s h.loaded_at h.loaded)
      by_tests true early = kept-Well s h.loaded c has
      by_tests false true = kept-Well s h.loaded c has
      by_tests false false = reloaded-Well s h.loaded_at h.loaded c has

  after_all-current :
      (s : CertificateSource K) (hs : List (Handshake K)) (c : K)
      → s.current ≡ some c
      → (d : K) × ((after_all s hs).current ≡ some d)
  unfolding after_all
  after_all-current s [] c has = (c, has)
  after_all-current s (h ∷ hs) c has =
      let (d, served, origin, retained) = get-Well s h c has in
      after_all-current (get_client_certificate s h).source hs d retained

  abbrev current_of : Result (CertificateSource K) → Option K
  current_of (err e) = none
  current_of (ok s) = s.current

  new_source-current :
      (interval now : ℕ) (loaded : Result K) (s : CertificateSource K)
      → new_source interval now loaded ≡ ok s
      → (c : K) × (s.current ≡ some c)
  unfolding new_source
  new_source-current interval now (err e) s h = ground (arith)
  new_source-current interval now (ok c) s h = (c, sym (ap current_of h))

  -- A source of certificates that was made serves a certificate in every handshake after any
  -- others, also when the loader fails: the one that it kept or the one that was just loaded, and
  -- it keeps what it serves.
  pub get_client_certificate-Serves :
      (interval now : ℕ) (loaded : Result K) (s : CertificateSource K) (hs : List (Handshake K))
      (h : Handshake K)
      → new_source interval now loaded ≡ ok s
      → Serves (after_all s hs) h
  get_client_certificate-Serves interval now loaded s hs h made =
      let (c, has) = new_source-current interval now loaded s made in
      let (d, still) = after_all-current s hs c has in
      let (x, served, origin, retained) = get-Well (after_all s hs) h d still in
      record { certificate = x; served = served; origin = origin; retained = retained }

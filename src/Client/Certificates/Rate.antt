-- ===== src/Client/Certificates/Rate.antt =====
-- pkg/client/http.go: how often a source loads its certificate.
use uni_core.Base.{
  ℕ, suc, ◌+◌, ◌*◌, ◌≤◌, ◌<◌, ◌≡◌, refl, ap, sym, ◌∙◌, Bool, true, false, List, [], ◌∷◌, ltb, leb,
  arith, if◌then◌else◌, ◌⊎◌, inl, inr,
}
use native.Mathlib.Nat.{suc-mul}
use uni_core.Errors.{Result, ok, err}
use uni_core.Client.Certificates.{
  CertificateSource, Handshake, Served, new_source, get_client_certificate, reloaded, kept,
}

abbrev one_if : Bool → ℕ
one_if true = 1
one_if false = 0

module _ {K : Type 0} where
  -- How often the loader is called.
  unfoldable pub loads : CertificateSource K → List (Handshake K) → ℕ
  loads s [] = 0
  loads s (h ∷ hs) = let r = get_client_certificate s h in one_if r.called + loads r.source hs

  -- The clock does not go back, every load succeeds, and the last reading is at most `last`.
  abbrev pub InOrder : ℕ → List (Handshake K) → ℕ → Type 0
  InOrder before [] last = before ≤ last
  InOrder before (h ∷ hs) last =
      (before ≤ h.checked_at)
      × (h.checked_at ≤ h.loaded_at)
      × ((c : K) × (h.loaded ≡ ok c))
      × InOrder h.loaded_at hs last

  abbrev Stepped : CertificateSource K → Handshake K → Served K → Type 0
  Stepped s h r =
      (r.source.reload_interval ≡ s.reload_interval)
      × (((r.called ≡ false) × (r.source.next_check ≡ s.next_check))
          ⊎ ((r.called ≡ true)
              × (s.next_check ≤ h.checked_at)
              × (r.source.next_check ≡ h.loaded_at + s.reload_interval)))

  reloaded-Stepped :
      (s : CertificateSource K) (h : Handshake K) (c : K) (loaded : Result K)
      → loaded ≡ ok c
      → s.next_check ≤ h.checked_at
      → Stepped s h (reloaded s h.loaded_at loaded)
  reloaded-Stepped s h c (err e) fine late = ground (arith)
  reloaded-Stepped s h c (ok new) fine late = (refl, inr (refl, late, refl))

  get-Stepped :
      (s : CertificateSource K) (h : Handshake K) (c : K)
      → h.loaded ≡ ok c
      → Stepped s h (get_client_certificate s h)
  unfolding get_client_certificate
  get-Stepped s h c fine =
      by_tests (leb s.reload_interval 0) (ltb h.checked_at s.next_check) (λ e. ground (arith))
    where
      by_tests :
          (never early : Bool)
          → (early ≡ false → s.next_check ≤ h.checked_at)
          → Stepped s h
              (if never then kept s else if early then kept s else reloaded s h.loaded_at h.loaded)
      by_tests true early late = (refl, inl (refl, refl))
      by_tests false true late = (refl, inl (refl, refl))
      by_tests false false late = reloaded-Stepped s h c h.loaded fine (late refl)

  loads_step :
      (s : CertificateSource K) (h : Handshake K) (r : Served K) (n before last : ℕ)
      → Stepped s h r
      → before ≤ h.checked_at
      → h.checked_at ≤ h.loaded_at
      → s.next_check ≤ before + s.reload_interval
      → (r.source.next_check ≤ h.loaded_at + r.source.reload_interval
          → n * r.source.reload_interval + r.source.next_check ≤ last + r.source.reload_interval)
      → (one_if r.called + n) * s.reload_interval + s.next_check ≤ last + s.reload_interval
  loads_step s h r n before last (same, inl (called, next)) start took bound ih =
      let once : one_if r.called + n ≡ n = omega (arith, ap one_if called) in
      let total = ap (λ x. x * s.reload_interval) once in
      let product = ap (λ i. n * i) same in
      omega (arith, total, product, same, next, ih (omega (arith, same, next)))
  loads_step s h r n before last (same, inr (called, late, next)) start took bound ih =
      let once : one_if r.called + n ≡ suc n = omega (arith, ap one_if called) in
      let total = ap (λ x. x * s.reload_interval) once ∙ suc-mul n s.reload_interval in
      let product = ap (λ i. n * i) same in
      omega (arith, total, product, same, next, late, ih (omega (arith, same, next)))

  loads-lem :
      (s : CertificateSource K) (before : ℕ) (hs : List (Handshake K)) (last : ℕ)
      → InOrder before hs last
      → s.next_check ≤ before + s.reload_interval
      → loads s hs * s.reload_interval + s.next_check ≤ last + s.reload_interval
  unfolding loads
  loads-lem s before [] last order h = omega (arith, order)
  loads-lem s before (h ∷ hs) last (start, took, (c, fine), order) bound =
      let r = get_client_certificate s h in
      loads_step s h r (loads r.source hs) before last (get-Stepped s h c fine) start took bound
        (loads-lem r.source h.loaded_at hs last order)

  abbrev interval_of : Result (CertificateSource K) → ℕ
  interval_of (err e) = 0
  interval_of (ok s) = s.reload_interval

  abbrev next_of : Result (CertificateSource K) → ℕ
  next_of (err e) = 0
  next_of (ok s) = s.next_check

  new_source-lem :
      (interval now : ℕ) (loaded : Result K) (s : CertificateSource K)
      → new_source interval now loaded ≡ ok s
      → 0 < interval
      → (s.reload_interval ≡ interval) × (s.next_check ≡ now + interval)
  unfolding new_source
  new_source-lem interval now (err e) s h positive = ground (arith)
  new_source-lem interval now (ok c) s h positive =
      let reloads : ltb 0 interval ≡ true = ground (arith) in
      (
        sym (ap interval_of h),
        sym (ap next_of h) ∙ ap (λ b. if b then now + interval else 0) reloads,
      )

  -- A source of certificates with a positive interval, made at a time, calls its loader so often
  -- in handshakes up to a later time that the calls times the interval fit between the two, if the
  -- clock does not go back and no load fails.
  pub loads-le :
      (interval now last : ℕ) (loaded : Result K) (s : CertificateSource K)
      (hs : List (Handshake K))
      → new_source interval now loaded ≡ ok s
      → 0 < interval
      → InOrder now hs last
      → now + loads s hs * interval ≤ last
  loads-le interval now last loaded s hs made positive order =
      let (same, next) = new_source-lem interval now loaded s made positive in
      let product = ap (λ i. loads s hs * i) same in
      omega (arith, same, next, product, loads-lem s now hs last order (omega (arith, same, next)))

-- ===== src/Client/Certificates.antt =====
-- pkg/client/http.go: the source of a client certificate, which is loaded again from time to time. `K`
-- is the type of certificates. Times are nanoseconds of a clock, and the zero interval stands for every
-- one that is not positive.
pub mod Retention
pub mod Rate
use uni_core.Base.{
  ℕ, zero, ◌+◌, Bool, true, false, Option, none, some, List, [], ◌∷◌, ltb, leb, if◌then◌else◌,
}
use uni_core.Errors.{GoError, Result, ok, err}

pub record CertificateSource (K : Type 0) : Type 0 where
  pub current : Option K
  pub next_check : ℕ
  pub reload_interval : ℕ

-- What a handshake finds: the time at which it looks at the clock, what the loader answers if it is
-- called, and the time after that.
pub record Handshake (K : Type 0) : Type 0 where
  pub checked_at : ℕ
  pub loaded : Result K
  pub loaded_at : ℕ

-- The certificate or the error, whether the loader was called, and the source that is left.
pub record Served (K : Type 0) : Type 0 where
  pub certificate : Result (Option K)
  pub called : Bool
  pub source : CertificateSource K

module _ {K : Type 0} where
  -- `now` is the time after the load.
  unfoldable pub new_source : ℕ → ℕ → Result K → Result (CertificateSource K)
  new_source reload_interval now (err e) = err e
  new_source reload_interval now (ok certificate) = ok (record {
    current = some certificate;
    next_check = if ltb 0 reload_interval then now + reload_interval else 0;
    reload_interval = reload_interval;
  })

  abbrev fallen_back : GoError → Option K → Result (Option K)
  fallen_back e none = err e
  fallen_back e (some certificate) = ok (some certificate)

  abbrev pub reloaded : CertificateSource K → ℕ → Result K → Served K
  reloaded s now (err e) = record {
    certificate = fallen_back e s.current;
    called = true;
    source = s;
  }
  reloaded s now (ok certificate) = record {
    certificate = ok (some certificate);
    called = true;
    source = record s { current = some certificate; next_check = now + s.reload_interval };
  }

  abbrev pub kept : CertificateSource K → Served K
  kept s = record { certificate = ok s.current; called = false; source = s }

  unfoldable pub get_client_certificate : CertificateSource K → Handshake K → Served K
  get_client_certificate s h =
      if leb s.reload_interval 0
      then kept s
      else if ltb h.checked_at s.next_check
      then kept s
      else reloaded s h.loaded_at h.loaded

  -- The source after some handshakes.
  unfoldable pub after_all : CertificateSource K → List (Handshake K) → CertificateSource K
  unfolding get_client_certificate
  after_all s [] = s
  after_all s (h ∷ hs) = after_all (get_client_certificate s h).source hs

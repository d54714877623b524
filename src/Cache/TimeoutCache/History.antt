-- ===== src/Cache/TimeoutCache/History.antt =====
-- What a timeout cache gives after any sequence of writes.
use uni_core.Base.{
  ℕ, ◌+◌, ◌<◌, ◌≡◌, refl, ap, Bool, true, false, ltb, Option, none, some, List, [], ◌∷◌, arith,
  if◌then◌else◌,
}
use uni_core.Cache.TimeoutCache.{TimeoutCache, new, get, set, invalidate}

pub data Write {ℓ} (V : Type ℓ) : Type ℓ where
  sets : ℕ → V → Write V
  invalidates : Write V

module _ {ℓ} {V : Type ℓ} where
  abbrev write : Write V → TimeoutCache V → TimeoutCache V
  write (sets now v) m = set now v m
  write invalidates m = invalidate m

  -- The writes in order.
  unfoldable pub write_all : List (Write V) → TimeoutCache V → TimeoutCache V
  unfolding set invalidate
  write_all [] m = m
  write_all (e ∷ es) m = write_all es (write e m)

  -- The value of the last write, with the last time at which it is valid.
  unfoldable pub latest : ℕ → List (Write V) → Option (V × ℕ) → Option (V × ℕ)
  latest refresh [] held = held
  latest refresh (sets now v ∷ es) held = latest refresh es (some (v, now + refresh))
  latest refresh (invalidates ∷ es) held = latest refresh es none

  abbrev pub valid_at : V → ℕ → Option (V × ℕ) → V × Bool
  valid_at zero_value now none = (zero_value, false)
  valid_at zero_value now (some (v, until)) =
      if ltb until now then (zero_value, false) else (v, true)

  abbrev Agrees : ℕ → V → ℕ → TimeoutCache V → Option (V × ℕ) → Type ℓ
  Agrees refresh zero_value now m held =
      (m.refresh ≡ refresh) × (get zero_value now m ≡ valid_at zero_value now held)

  expired :
      (zero_value : V) (now : ℕ) (v : V)
      → 0 < now
      → ◌≡◌ {A = V × Bool}
          (if ltb 0 now then (zero_value, false) else (v, true))
          (zero_value, false)
  expired z now v h = let past : ltb 0 now ≡ true = ground arith in rw past

  write_all-Agrees :
      (refresh : ℕ) (zero_value : V) (now : ℕ) (es : List (Write V)) (m : TimeoutCache V)
      (held : Option (V × ℕ))
      → 0 < now
      → Agrees refresh zero_value now m held
      → get zero_value now (write_all es m) ≡ valid_at zero_value now (latest refresh es held)
  unfolding get set invalidate write_all latest
  write_all-Agrees refresh z now [] m held h (r, a) = a
  write_all-Agrees refresh z now (sets t v ∷ es) m held h (r, a) =
      write_all-Agrees refresh z now es (set t v m) (some (v, t + refresh)) h
        (r, ap (λ n. if ltb (t + n) now then (z, false) else (v, true)) r)
  write_all-Agrees refresh z now (invalidates ∷ es) m held h (r, a) =
      write_all-Agrees refresh z now es (invalidate m) none h (r, expired z now m.value h)

  -- At any time after Go's zero time, a new timeout cache that went through any writes gives the
  -- value of the last write if that is a Set at most the refresh period ago, and else the zero
  -- value and false.
  pub get-latest :
      (refresh : ℕ) (zero_value : V) (now : ℕ) (es : List (Write V))
      → 0 < now
      → get zero_value now (write_all es (new zero_value refresh))
        ≡ valid_at zero_value now (latest refresh es none)
  unfolding get new
  get-latest refresh z now es h =
      write_all-Agrees refresh z now es (new z refresh) none h (refl, expired z now z h)

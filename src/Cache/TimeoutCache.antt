-- ===== src/Cache/TimeoutCache.antt =====
-- pkg/util/cache/timeout_cache.go: one value that times out. A time is a number of nanoseconds since
-- Go's zero time, and the clock's reading is an argument; the durations are not negative.
pub mod History
use uni_core.Base.{ℕ, ◌+◌, Bool, true, false, ltb, if◌then◌else◌}

pub record TimeoutCache {ℓ} (V : Type ℓ) : Type ℓ where
  pub value : V
  pub refresh : ℕ
  pub invalid : ℕ

module _ {ℓ} {V : Type ℓ} where
  -- `zero_value` is the zero of Go's type V.
  unfoldable pub new : V → ℕ → TimeoutCache V
  new zero_value refresh = record { value = zero_value; refresh = refresh; invalid = 0 }

  unfoldable pub get : V → ℕ → TimeoutCache V → V × Bool
  get zero_value now m = if ltb m.invalid now then (zero_value, false) else (m.value, true)

  unfoldable pub set : ℕ → V → TimeoutCache V → TimeoutCache V
  set now v m = record m { invalid = now + m.refresh; value = v }

  unfoldable pub invalidate : TimeoutCache V → TimeoutCache V
  invalidate m = record m { invalid = 0 }

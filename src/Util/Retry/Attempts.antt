-- ===== src/Util/Retry/Attempts.antt =====
-- When a retry returns, and with what.
use uni_core.Base.{ℕ, zero, suc, ◌≡◌, refl, ap, ◌∙◌, Option, none, some, List, [], ◌∷◌, ◌++◌}
use uni_core.Errors.{GoError}
use uni_core.Util.Retry.{Wake, tick, context_done, returned, unless_nil, wait_loop, do_with_context}

abbrev pub ticks : ℕ → List Wake
ticks zero = []
ticks (suc n) = tick ∷ ticks n

ticks-append : (n : ℕ) (rest : List Wake) → ticks (suc n) ++ rest ≡ ticks n ++ tick ∷ rest
ticks-append zero rest = refl
ticks-append (suc n) rest = ap (◌∷◌ tick) (ticks-append n rest)

module _ {ℓ} {W : Type ℓ} (f : W → Option GoError × W) (w : W) where
  -- From `w` the first call and as many more as the number says fail, the last one with the error and
  -- the state that are given.
  pub data Failing : ℕ → GoError → W → Type ℓ where
    first : (e : GoError) (v : W) → f w ≡ (some e, v) → Failing 0 e v
    again :
        (n : ℕ) (e e' : GoError) (v v' : W)
        → Failing n e v
        → f v ≡ (some e', v')
        → Failing (suc n) e' v'

  after_failures :
      (n : ℕ) (e : GoError) (v : W) (rest : List Wake)
      → Failing n e v
      → do_with_context f (ticks n ++ rest) w ≡ wait_loop f rest e v
  unfolding do_with_context wait_loop
  after_failures _ _ _ rest (first e v h) = ap (λ r. unless_nil f r (wait_loop f rest)) h
  after_failures _ _ _ rest (again m e0 e v0 v p h) =
      ap (λ ws. do_with_context f ws w) (ticks-append m rest)
      ∙ after_failures m e0 v0 (tick ∷ rest) p
      ∙ ap (λ r. unless_nil f r (wait_loop f rest)) h

  -- When the callback fails on the first call and on each of n ticks and then the context ends,
  -- the retry returns an error that has the context's error and the callback's last one, and
  -- leaves the state of the last call.
  pub retry-interrupted :
      (n : ℕ) (e c : GoError) (v : W) (rest : List Wake)
      → Failing n e v
      → do_with_context f (ticks n ++ context_done c ∷ rest) w
        ≡ returned (some (record { context = c; callback = e })) v
  unfolding wait_loop
  retry-interrupted n e c v rest p = after_failures n e v (context_done c ∷ rest) p

  -- When the callback fails on the first call and on each of n ticks and returns nil on the next
  -- tick, the retry returns nil then, whatever comes later.
  pub retry-succeeds :
      (n : ℕ) (e : GoError) (v v' : W) (rest : List Wake)
      → Failing n e v
      → f v ≡ (none, v')
      → do_with_context f (ticks n ++ tick ∷ rest) w ≡ returned none v'
  unfolding wait_loop
  retry-succeeds n e v v' rest p h =
      after_failures n e v (tick ∷ rest) p ∙ ap (λ r. unless_nil f r (wait_loop f rest)) h

-- ===== src/Util/Retry.antt =====
-- pkg/util/retry/retry.go: a callback that is called until it returns nil. What the loop's select
-- receives is a list: a tick of the ticker, or the end of the context with its error.
pub mod Attempts
use uni_core.Base.{Option, none, some, List, [], ◌∷◌}
use uni_core.Errors.{GoError}

pub data Wake : Type 0 where
  tick : Wake
  context_done : GoError → Wake

pub record RetryError : Type 0 where
  pub context : GoError
  pub callback : GoError

-- The loop is still in its select, or has returned.
pub data Progress {ℓ} (W : Type ℓ) : Type ℓ where
  waiting : W → Progress W
  returned : Option RetryError → W → Progress W

module _ {ℓ} {W : Type ℓ} (f : W → Option GoError × W) where
  abbrev pub unless_nil : Option GoError × W → (GoError → W → Progress W) → Progress W
  unless_nil (none, w) next = returned none w
  unless_nil (some e, w) next = next e w

  -- `rerr` is the last error of the callback.
  unfoldable pub wait_loop : List Wake → GoError → W → Progress W
  wait_loop [] rerr w = waiting w
  wait_loop (context_done e ∷ wakes) rerr w =
      returned (some (record { context = e; callback = rerr })) w
  wait_loop (tick ∷ wakes) rerr w = unless_nil (f w) (wait_loop wakes)

  unfoldable pub do_with_context : List Wake → W → Progress W
  unfolding wait_loop
  do_with_context wakes w = unless_nil (f w) (wait_loop wakes)

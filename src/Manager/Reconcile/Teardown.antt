-- ===== src/Manager/Reconcile/Teardown.antt =====
-- How a resource that is being deleted, and that nothing holds, is released under repeated calls of
-- Reconcile.
use uni_core.Base.{ℕ, ◌≡◌, true, Option}
use uni_core.Errors.{GoError, err_yield, is_error}
use uni_core.Api.Object.{Object}
use uni_core.Api.Conditions.{ConditionUtil}
use uni_core.Manager.Client.{Client, ControllerUtil, IsControllerUtil}
use uni_core.Manager.Condition.{Surfaced}
use uni_core.Manager.Reconcile.{State, Outcome}
use uni_core.Manager.Reconcile.Release
use uni_core.Manager.Reconcile.Release.{IsDeleting, sets-IsDeleting}
use uni_core.Manager.Reconcile.Accepting.{Handled}

abbrev pub IsYield : GoError → Type 0
IsYield e = is_error e err_yield ≡ true

module _ {ℓ} {W : Type ℓ} (stored : W → Object) (remaining : W → ℕ) (cl : Client W)
    (u : ControllerUtil) (cu : ConditionUtil) (util : IsControllerUtil u) where
  abbrev Deleting : ℕ → Outcome × State W → Type ℓ
  Deleting = Release.Deleting stored remaining cl u cu

  abbrev WasHandled : ℕ → Option Surfaced → Option GoError × State W → Type ℓ
  WasHandled = Handled stored remaining IsDeleting cl u cu sets-IsDeleting

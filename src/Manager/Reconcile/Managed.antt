-- ===== src/Manager/Reconcile/Managed.antt =====
-- A provisioner of pkg/provisioners as the one that a reconciler of pkg/manager calls.
use uni_core.Base.{ℕ, refl, inl, inr, Option, none, some}
use uni_core.Errors.{GoError}
use uni_core.Api.Object.{Object}
use uni_core.Provisioners.Interface.{Outcome, Provisioner}
use uni_core.Provisioners.Progress.{Left, returned, waiting, IsGaining}
use uni_core.Manager.Reconcile.{ManagerProvisioner}
use uni_core.Manager.Reconcile.Accepting.{Ran}

module _ {ℓ} {W : Type ℓ} where
  -- The object is left as it is.
  abbrev with_object : Object → Outcome W → Option GoError × (Object × W)
  with_object o (e, w) = (e, (o, w))

  abbrev pub managed : Provisioner W → ManagerProvisioner W
  managed p = record {
    provision = λ o w. with_object o (p.provision w);
    deprovision = λ o w. with_object o (p.deprovision w);
  }

module _ {ℓ} {W : Type ℓ} (stored : W → Object) (remaining : W → ℕ) (Stays : Object → Type 0)
    (Waits : GoError → Type 0) where
  abbrev pub GainsFor : Provisioner W → Type ℓ
  GainsFor = IsGaining remaining (λ w. Stays (stored w)) Waits

  left-Ran :
      (o : Object) (w : W) (r : Outcome W)
      → Left remaining (λ w'. Stays (stored w')) Waits (remaining w) r
      → Ran stored remaining Stays Waits o w (with_object o r)
  left-Ran o w (none, v) (returned h le) = record {
    object_stays = λ a. a;
    stored_stays = λ a. h;
    progress = inl refl;
  }
  left-Ran o w (some e, v) (waiting x h lt) = record {
    object_stays = λ a. a;
    stored_stays = λ a. h;
    progress = inr (e, refl, x, lt);
  }

  -- A provisioner that gets on with its work does so under a reconciler.
  pub provision-Ran :
      (p : Provisioner W)
      → GainsFor p
      → (o : Object) (w : W) → Stays (stored w)
      → Ran stored remaining Stays Waits o w ((managed p).provision o w)
  provision-Ran p g o w h = left-Ran o w (p.provision w) (g.provisions w h)

  pub deprovision-Ran :
      (p : Provisioner W)
      → GainsFor p
      → (o : Object) (w : W) → Stays (stored w)
      → Ran stored remaining Stays Waits o w ((managed p).deprovision o w)
  deprovision-Ran p g o w h = left-Ran o w (p.deprovision w) (g.deprovisions w h)

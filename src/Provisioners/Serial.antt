-- ===== src/Provisioners/Serial.antt =====
-- pkg/provisioners/serial/provisioner.go: a group provisioned in order and deprovisioned in reverse.
pub mod Order
use uni_core.Base.{
  ℕ, zero, suc, ◌+◌, ◌-◌, String, Option, none, some, List, [], ◌∷◌, length, get_elem?,
}
use uni_core.Errors.{GoError, foreign}
use uni_core.Provisioners.Interface.{Outcome, Task, Provisioner, and_then}

pub record SerialProvisioner {ℓ} (W : Type ℓ) : Type ℓ where
  pub name : String
  pub provisioners : List (Provisioner W)

module _ {ℓ} {W : Type ℓ} where
  unfoldable pub provision_each : List (Provisioner W) → Task W
  provision_each [] w = (none, w)
  provision_each (p ∷ ps) w = and_then (p.provision w) (provision_each ps)

  unfoldable pub provision : SerialProvisioner W → Task W
  unfolding provision_each
  provision s w = provision_each s.provisioners w

  -- An index out of range is a panic.
  abbrev deprovision_at : Option (Provisioner W) → Task W
  deprovision_at none w = (some (foreign "index out of range"), w)
  deprovision_at (some p) w = p.deprovision w

  -- The loop with `left` rounds to go, in the round `i = len - left`.
  unfoldable pub deprovision_loop : List (Provisioner W) → ℕ → Task W
  deprovision_loop ps zero w = (none, w)
  deprovision_loop ps (suc left) w =
      let i = length ps - suc left in
      and_then (deprovision_at (get_elem? ps (length ps - (i + 1))) w) (deprovision_loop ps left)

  unfoldable pub deprovision : SerialProvisioner W → Task W
  unfolding deprovision_loop
  deprovision s w = deprovision_loop s.provisioners (length s.provisioners) w

  -- A group is a provisioner itself.
  abbrev pub as_provisioner : SerialProvisioner W → Provisioner W
  as_provisioner s = record {
    provisioner_name = s.name;
    provision = provision s;
    deprovision = deprovision s;
  }

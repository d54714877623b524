-- ===== src/Provisioners/Conditional.antt =====
-- pkg/provisioners/conditional/provisioner.go: a provisioner behind a condition, which may read the
-- state of the world.
use uni_core.Base.{String, Bool, not, if◌then◌else◌}
use uni_core.Provisioners.Interface.{Task, Provisioner}

pub record ConditionalProvisioner {ℓ} (W : Type ℓ) : Type ℓ where
  pub name : String
  pub condition : W → Bool
  pub provisioner : Provisioner W

module _ {ℓ} {W : Type ℓ} where
  unfoldable pub provision : ConditionalProvisioner W → Task W
  provision c w =
      if not (c.condition w) then c.provisioner.deprovision w else c.provisioner.provision w

  unfoldable pub deprovision : ConditionalProvisioner W → Task W
  deprovision c w = c.provisioner.deprovision w

  abbrev pub as_provisioner : ConditionalProvisioner W → Provisioner W
  as_provisioner c = record {
    provisioner_name = c.name;
    provision = provision c;
    deprovision = deprovision c;
  }

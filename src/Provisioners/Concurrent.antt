-- ===== src/Provisioners/Concurrent.antt =====
-- pkg/provisioners/concurrent/provisioner.go: a group whose members run at once. The package
-- golang.org/x/sync/errgroup is a parameter: `ErrGroup` starts the callbacks by `Go` and returns what
-- `Wait` returns. A member's call counts as one step of the world.
pub mod Group
use uni_core.Base.{String, ◌≡◌, Option, none, some, List, [], ◌∷◌, map}
use mathlib.Core.List.{Permᴰ}
use uni_core.Errors.{GoError}
use uni_core.Provisioners.Interface.{Outcome, Task, Provisioner}

pub record ConcurrentProvisioner {ℓ} (W : Type ℓ) : Type ℓ where
  pub name : String
  pub provisioners : List (Provisioner W)

abbrev pub ErrGroup {ℓ} : Type ℓ → Type ℓ
ErrGroup W = List (Task W) → Task W

abbrev pub first_error : Option GoError → Option GoError → Option GoError
first_error none second = second
first_error (some e) second = some e

module _ {ℓ} {W : Type ℓ} where
  abbrev pub keep_first : Option GoError → Outcome W → Outcome W
  keep_first first (second, w) = (first_error first second, w)

  -- Every task, in an order of completion, with the first error that one of them returns.
  abbrev pub run_all : List (Task W) → Task W
  run_all [] w = (none, w)
  run_all (t ∷ ts) w = let (e, u) = t w in keep_first e (run_all ts u)

  -- `Wait` blocks until every callback has returned, and returns the first non-nil error among them, if
  -- any, as the package documents. That the effects of the members are those of whole calls in some order
  -- is no promise of the package: it is a condition on the members.
  pub record IsErrGroup (group : ErrGroup W) : Type ℓ where
    pub waits_for_all :
        (ts : List (Task W)) (w : W)
        → (order : List (Task W)) × Permᴰ ts order × (group ts w ≡ run_all order w)

  -- The callback returns the member's error after logging it, or nil.
  abbrev pub report : Outcome W → Outcome W
  report (none, u) = (none, u)
  report (some e, u) = (some e, u)

  abbrev pub callback : Task W → Task W
  callback t w = report (t w)

  unfoldable pub provision : ErrGroup W → ConcurrentProvisioner W → Task W
  provision group c w = group (map (λ p. callback p.provision) c.provisioners) w

  unfoldable pub deprovision : ErrGroup W → ConcurrentProvisioner W → Task W
  deprovision group c w = group (map (λ p. callback p.deprovision) c.provisioners) w

  abbrev pub as_provisioner : ErrGroup W → ConcurrentProvisioner W → Provisioner W
  as_provisioner group c = record {
    provisioner_name = c.name;
    provision = provision group c;
    deprovision = deprovision group c;
  }

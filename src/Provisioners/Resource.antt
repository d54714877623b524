-- ===== src/Provisioners/Resource.antt =====
-- pkg/provisioners/resource/resource.go: one Kubernetes object. The client of the cluster context
-- and controllerutil.CreateOrUpdate are parameters.
use uni_core.Base.{◌≡◌, ◌↔◌, Bool, true, none, some, if◌then◌else◌, arith}
use uni_core.Errors.{GoError, sentinel, err_yield, Result, ok, err}
use uni_core.Provisioners.Interface.{Outcome, Task}

-- `O` is the object's type.
pub record ResourceClient {ℓ} (W : Type ℓ) (O : Type ℓ) : Type ℓ where
  pub cluster_from_context : Result (Unit {0})
  pub create_or_update : O → Task W
  pub delete : O → Task W
  pub is_not_found : GoError → Bool

module _ {ℓ} {W O : Type ℓ} (c : ResourceClient W O) (resource : O) where
  abbrev after_delete : Outcome W → Outcome W
  after_delete (none, w) = (some (sentinel err_yield), w)
  after_delete (some e, w) = if c.is_not_found e then (none, w) else (some e, w)

  abbrev in_cluster : Result (Unit {0}) → Task W → Task W
  in_cluster (ok _) t w = t w
  in_cluster (err e) t w = (some e, w)

  unfoldable pub provision : Task W
  provision = in_cluster c.cluster_from_context (c.create_or_update resource)

  unfoldable pub deprovision : Task W
  deprovision = in_cluster c.cluster_from_context (λ w. after_delete (c.delete resource w))

  -- With a client in the context, deprovisioning a resource reports success exactly when the
  -- delete fails because the object is not found.
  pub deprovision_gates :
      (w : W) (u : Unit {0})
      → c.cluster_from_context ≡ ok u
      → ((deprovision w).0 ≡ none)
        ↔ ((e : GoError) × ((c.delete resource w).0 ≡ some e) × (c.is_not_found e ≡ true))
  unfolding deprovision
  deprovision_gates w u h = ((λ e. ground arith), (λ x. ground (arith, x.1, x.2)))

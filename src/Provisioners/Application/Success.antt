-- ===== src/Provisioners/Application/Success.antt =====
-- pkg/provisioners/application/provisioner.go with pkg/cd/argocd/driver.go: what a provisioned
-- application stands for.
use uni_core.Base.{◌≡◌, refl, none, some, arith, String}
use uni_core.Errors.{Result, ok, err}
use uni_core.Cd.{ResourceIdentifier, HelmApplication}
use uni_core.Cd.Argo.{Application, generate_application}
use uni_core.Cd.Argo.Driver.{ArgoClient, create_or_update_helm_application, delete_helm_application}
use uni_core.Cd.Argo.Driver.Success.{IsReady, Written, create_or_update-IsReady}
use uni_core.Cd.Argo.Driver.Deletion.{Gone, delete-Gone}
use uni_core.Provisioners.Interface.{Outcome, Task, and_then}
use uni_core.Provisioners.Context.{Context, background_deletion_from_context}
use uni_core.Provisioners.Application.{
  ApplicationProvisioner, Driver, hooked, prepare, provision_prepared, provision, identify,
  deprovision_identified, deprovision,
}
use uni_core.Api.Application.{SemanticVersions}

abbrev pub argo_driver : {W V : Type 0} → ArgoClient W → (V → Result String) → Driver W V
argo_driver cl marshal = record {
  create_or_update_helm_application =
      λ id app w. create_or_update_helm_application cl marshal id app w;
  delete_helm_application = λ id background w. delete_helm_application cl id background w;
}

and_then-nil :
    {W : Type 0} (o : Outcome W) (k : Task W) (v : W)
    → and_then o k ≡ (none, v)
    → (u : W) × (o ≡ (none, u)) × (k u ≡ (none, v))
and_then-nil (none, u) k v h = (u, refl, h)
and_then-nil (some e, u) k v h = ground (arith)

module _ {W C S V : Type 0} (sv : SemanticVersions S) (cl : ArgoClient W)
    (marshal : V → Result String) where
  -- The application was resolved, its resource was written, the server reports that it is ready, and
  -- what the generator does afterwards went well.
  pub record IsProvisioned (p : ApplicationProvisioner W C S V) (ctx : Context C) (w w' : W)
      : Type 0 where
    pub id : ResourceIdentifier
    pub app : HelmApplication V
    pub required : Application
    pub returned : Application
    pub reached : W
    pub prepared : prepare sv p ctx w ≡ ok (id, app)
    pub generated : generate_application marshal id app ≡ ok required
    pub written : Written cl id required w reached returned
    pub is_ready : IsReady app.allow_degraded returned.status
    pub hook_ran : hooked p.generator.post_provision ctx reached ≡ (none, w')

  provision_prepared-lem :
      (p : ApplicationProvisioner W C S V) (ctx : Context C) (w w' : W)
      (got : Result (ResourceIdentifier × HelmApplication V))
      → prepare sv p ctx w ≡ got
      → provision_prepared sv p (argo_driver cl marshal) ctx got w ≡ (none, w')
      → IsProvisioned p ctx w w'
  provision_prepared-lem p ctx w w' (err e) got h = ground (arith)
  provision_prepared-lem p ctx w w' (ok (id, app)) got h =
      let (u, driven, hook) =
        and_then-nil (create_or_update_helm_application cl marshal id app w)
          (hooked p.generator.post_provision ctx) w' h in
      let (required, returned, (generated, (written, is_ready))) =
        create_or_update-IsReady cl marshal id app w u driven in
      record {
        id = id;
        app = app;
        required = required;
        returned = returned;
        reached = u;
        prepared = got;
        generated = generated;
        written = written;
        is_ready = is_ready;
        hook_ran = hook;
      }

  -- If provisioning an application on the Argo CD driver returns nil, then its version was
  -- resolved and the resource for it was generated; that resource was created because none was
  -- listed, or was patched into the one that was; the server reported it as synced and as healthy,
  -- or degraded where that is allowed; and what the generator does afterwards returned nil.
  pub provision-IsProvisioned :
      (p : ApplicationProvisioner W C S V) (ctx : Context C) (w w' : W)
      → provision sv p (argo_driver cl marshal) ctx w ≡ (none, w')
      → IsProvisioned p ctx w w'
  unfolding provision
  provision-IsProvisioned p ctx w w' h =
      provision_prepared-lem p ctx w w' (prepare sv p ctx w) refl h

  -- What the generator does beforehand went well, and the application that was then resolved is gone,
  -- or its deletion was asked for in the background.
  pub record IsDeprovisioned (p : ApplicationProvisioner W C S V) (ctx : Context C) (w w' : W)
      : Type 0 where
    pub id : ResourceIdentifier
    pub reached : W
    pub hook_ran : hooked p.generator.pre_deprovision ctx w ≡ (none, reached)
    pub identified : identify sv p ctx reached ≡ ok id
    pub gone : Gone cl (background_deletion_from_context ctx) id reached w'

  deprovision_identified-lem :
      (p : ApplicationProvisioner W C S V) (ctx : Context C) (w u w' : W)
      (got : Result ResourceIdentifier)
      → hooked p.generator.pre_deprovision ctx w ≡ (none, u)
      → identify sv p ctx u ≡ got
      → deprovision_identified sv (argo_driver cl marshal) ctx got u ≡ (none, w')
      → IsDeprovisioned p ctx w w'
  deprovision_identified-lem p ctx w u w' (err e) hook got h = ground (arith)
  deprovision_identified-lem p ctx w u w' (ok id) hook got h = record {
    id = id;
    reached = u;
    hook_ran = hook;
    identified = got;
    gone = delete-Gone cl id (background_deletion_from_context ctx) u w' h;
  }

  -- If deprovisioning an application on the Argo CD driver returns nil, then what the generator
  -- does beforehand returned nil; the application was resolved after that; and it is not listed,
  -- or the deletion is a background one and the application is being deleted already or was
  -- patched for deletion and its delete was accepted.
  pub deprovision-IsDeprovisioned :
      (p : ApplicationProvisioner W C S V) (ctx : Context C) (w w' : W)
      → deprovision sv p (argo_driver cl marshal) ctx w ≡ (none, w')
      → IsDeprovisioned p ctx w w'
  unfolding deprovision
  deprovision-IsDeprovisioned p ctx w w' h =
      let (u, hook, rest) =
        and_then-nil (hooked p.generator.pre_deprovision ctx w)
          (λ u. deprovision_identified sv (argo_driver cl marshal) ctx (identify sv p ctx u) u) w'
          h in
      deprovision_identified-lem p ctx w u w' (identify sv p ctx u) hook refl rest

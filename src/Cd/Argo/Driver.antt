-- ===== src/Cd/Argo/Driver.antt =====
-- pkg/cd/argocd/driver.go: the operations on applications. The Kubernetes client over the state `W` of
-- the cluster is a parameter: a call that writes gives what the server returns for the object that the
-- caller holds. The lines that the driver logs are left out.
pub mod Success
pub mod Deletion
use uni_core.Base.{
  ℕ, String, Bool, true, false, not, ◌&&◌, Option, none, some, List, [], ◌∷◌, Dict, map, is_some,
  ◌==◌, if◌then◌else◌,
}
use uni_core.Errors.{
  GoError, sentinel, err_yield, cd_not_found, item_length_mismatch, is_error, Result, ok, err,
}
use uni_core.Cd.{ResourceIdentifier, HelmApplication, HealthStatus, unknown, healthy, degraded}
use uni_core.Cd.Argo.{
  Application, ApplicationSpec, ApplicationStatus, health_healthy, health_degraded, synced,
  application_labels, application_labels_for_owning_resource, convert_application_id,
  convert_application, generate_application,
}

-- `list` has the driver's namespace; `patch` is a merge patch from the second object to the first.
pub record ArgoClient (W : Type 0) : Type 0 where
  pub list : Dict String → W → Result (List Application) × W
  pub create : Application → W → Result Application × W
  pub patch : Application → Application → W → Result Application × W
  pub delete : Application → W → Option GoError × W

-- The health of the applications in turn.
unfoldable pub health_of : List Application → HealthStatus
health_of [] = healthy
health_of (a ∷ rest) =
    let later = health_of rest in
    elim a.status.health [
      | none ↦ unknown
      | some status ↦ if not (status == health_healthy) then degraded else later
    ]

-- One application is expected.
unfoldable pub single : Result (List Application) → Result Application
single (err e) = err e
single (ok []) = err (sentinel cd_not_found)
single (ok (a ∷ [])) = ok a
single (ok (a ∷ b ∷ rest)) = err (sentinel item_length_mismatch)

abbrev pub judged : Bool → String → Option GoError
judged allow_degraded health =
    if allow_degraded && (health == health_degraded)
    then none
    else if not (health == health_healthy)
    then some (sentinel err_yield)
    else none

-- What follows the write: the application must be synced, and then healthy, or degraded where that is
-- allowed.
unfoldable pub readiness : Bool → ApplicationStatus → Option GoError
readiness allow_degraded status = elim status.sync [
  | none ↦ some (sentinel err_yield)
  | some sync ↦ if not (sync == synced) then some (sentinel err_yield) else elim status.health [
    | none ↦ some (sentinel err_yield)
    | some health ↦ judged allow_degraded health
  ]
]

module _ {W : Type 0} (cl : ArgoClient W) where
  abbrev health_of_listed : Result (List Application) × W → (HealthStatus × Option GoError) × W
  health_of_listed (err e, w) = ((unknown, some e), w)
  health_of_listed (ok items, w) = ((health_of items, none), w)

  unfoldable pub get_health_status : ResourceIdentifier → W → (HealthStatus × Option GoError) × W
  unfolding health_of application_labels_for_owning_resource
  get_health_status id w = health_of_listed (cl.list (application_labels_for_owning_resource id) w)

  abbrev convert_listed :
      {V : Type 0}
      → Result (List Application) × W
      → Result (List (ResourceIdentifier × HelmApplication V)) × W
  convert_listed (err e, w) = (err e, w)
  convert_listed (ok items, w) =
      (ok (map (λ a. (convert_application_id a, convert_application a)) items), w)

  -- The map by identifiers, which are pointers, is a list.
  unfoldable pub list_helm_applications :
      {V : Type 0}
      → ResourceIdentifier
      → W
      → Result (List (ResourceIdentifier × HelmApplication V)) × W
  unfolding application_labels_for_owning_resource convert_application_id convert_application
  list_helm_applications id w =
      convert_listed (cl.list (application_labels_for_owning_resource id) w)

  abbrev pub single_listed : Result (List Application) × W → Result Application × W
  single_listed (r, w) = (single r, w)

  unfoldable pub get_helm_application : ResourceIdentifier → W → Result Application × W
  unfolding single application_labels
  get_helm_application id w = single_listed (cl.list (application_labels id) w)

  abbrev pub await : Bool → Result Application × W → Option GoError × W
  await allow_degraded (err e, w) = (some e, w)
  await allow_degraded (ok a, w) = (readiness allow_degraded a.status, w)

  -- The application is created if it is not found, and else its labels and spec are replaced.
  abbrev pub write : Bool → Application → Result Application × W → Option GoError × W
  write allow_degraded required (err e, w) =
      if not (is_error e cd_not_found)
      then (some e, w)
      else await allow_degraded (cl.create required w)
  write allow_degraded required (ok resource, w) =
      await allow_degraded
        (cl.patch (record resource { labels = required.labels; spec = required.spec }) resource w)

  abbrev pub write_generated :
      Bool → ResourceIdentifier → Result Application → W → Option GoError × W
  write_generated allow_degraded id (err e) w = (some e, w)
  write_generated allow_degraded id (ok required) w =
      write allow_degraded required (get_helm_application id w)

  unfoldable pub create_or_update_helm_application :
      {V : Type 0}
      → (V → Result String)
      → ResourceIdentifier
      → HelmApplication V
      → W
      → Option GoError × W
  unfolding generate_application get_helm_application readiness
  create_or_update_helm_application marshal id app w =
      write_generated app.allow_degraded id (generate_application marshal id app) w

  abbrev pub deleted : Bool → Option GoError × W → Option GoError × W
  deleted background (some e, w) = (some e, w)
  deleted background (none, w) =
      if not background then (some (sentinel err_yield), w) else (none, w)

  abbrev pub delete_patched : Bool → Application → Result Application × W → Option GoError × W
  delete_patched background resource (err e, w) = (some e, w)
  delete_patched background resource (ok temp, w) = deleted background (cl.delete resource w)

  -- The copy that is patched has Argo's own finalizer, and is not synced by itself any more.
  abbrev pub condemned : Application → Application
  condemned a = record a {
    finalizers = "resources-finalizer.argocd.argoproj.io" ∷ [];
    spec = record a.spec { sync_policy = record a.spec.sync_policy { automated = none } };
  }

  abbrev pub delete_found : Bool → Result Application × W → Option GoError × W
  delete_found background (err e, w) = if is_error e cd_not_found then (none, w) else (some e, w)
  delete_found background (ok resource, w) =
      if is_some resource.deletion_timestamp
      then if background then (none, w) else (some (sentinel err_yield), w)
      else delete_patched background resource (cl.patch (condemned resource) resource w)

  unfoldable pub delete_helm_application : ResourceIdentifier → Bool → W → Option GoError × W
  unfolding get_helm_application
  delete_helm_application id background w = delete_found background (get_helm_application id w)

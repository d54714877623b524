-- ===== src/Cd/Argo.antt =====
-- pkg/cd/argocd/driver.go and pkg/apis/argoproj/v1alpha1/types.go: the Argo CD driver. This file has
-- the application resource and what is generated for it; Driver has the operations on the cluster.
pub mod Source
pub mod Driver
pub mod Cluster
use uni_core.Base.{
  ℕ, String, str_append, Bool, true, false, not, ◌&&◌, ◌||◌, Option, none, some, List, [], ◌∷◌,
  ◌++◌, map, Dict, lookup, insert, is_empty, is_some, join, ◌==◌, if◌then◌else◌,
}
use uni_core.Errors.{Result, ok, err}
use uni_core.Api.Names.{application_label}
use uni_core.Cd.{
  ResourceIdentifierLabel, ResourceIdentifier, HelmApplicationParameter, HelmApplicationField,
  LabelsAnnotations, HelmApplication,
}

pub record ApplicationSourceHelm : Type 0 where
  pub release_name : String
  pub values : String
  pub parameters : List HelmApplicationParameter

pub record ApplicationSource : Type 0 where
  pub repo_url : String
  pub chart : String
  pub path : String
  pub target_revision : String
  pub helm : Option ApplicationSourceHelm

pub record ApplicationDestination : Type 0 where
  pub name : String
  pub namespace : String

pub record ApplicationSyncAutomation : Type 0 where
  pub self_heal : Bool
  pub prune : Bool

pub record ApplicationSyncPolicy : Type 0 where
  pub sync_options : List String
  pub automated : Option ApplicationSyncAutomation
  pub managed_namespace_metadata : Option LabelsAnnotations

pub record ApplicationSpec : Type 0 where
  pub project : String
  pub source : ApplicationSource
  pub destination : ApplicationDestination
  pub sync_policy : ApplicationSyncPolicy
  pub ignore_differences : List HelmApplicationField

-- The status of the last sync and the health, where Argo CD has reported them.
pub record ApplicationStatus : Type 0 where
  pub health : Option String
  pub sync : Option String

pub record Application : Type 0 where
  pub name : String
  pub generate_name : String
  pub namespace : String
  pub labels : Dict String
  pub finalizers : List String
  pub deletion_timestamp : Option ℕ
  pub spec : ApplicationSpec
  pub status : ApplicationStatus

abbrev pub namespace : String
namespace = "argocd"

abbrev pub health_healthy : String
health_healthy = "Healthy"

abbrev pub health_degraded : String
health_degraded = "Degraded"

abbrev pub synced : String
synced = "Synced"

unfoldable pub cluster_name : ResourceIdentifier → String
unfolding join
cluster_name id =
    if is_empty id.labels
    then id.name
    else str_append id.name (str_append "-" (join ":" (map (λ l. l.value) id.labels)))

-- The labels of an identifier written into a map in order.
unfoldable pub write_labels : List ResourceIdentifierLabel → Dict String → Dict String
write_labels [] labels = labels
write_labels (l ∷ ls) labels = write_labels ls (insert l.name l.value labels)

unfoldable pub application_labels : ResourceIdentifier → Dict String
unfolding write_labels
application_labels id = write_labels id.labels (insert application_label id.name [])

unfoldable pub application_labels_for_owning_resource : ResourceIdentifier → Dict String
unfolding write_labels
application_labels_for_owning_resource id = write_labels id.labels []

abbrev pub or_empty : Option String → String
or_empty none = ""
or_empty (some s) = s

unfoldable pub without : String → Dict String → Dict String
without k [] = []
without k ((j, v) ∷ m) = let rest = without k m in if j == k then rest else (j, v) ∷ rest

-- Go ranges over the labels in any order, and here in that of the list.
unfoldable pub convert_application_id : Application → ResourceIdentifier
unfolding without
convert_application_id a = record {
  name = or_empty (lookup application_label a.labels);
  labels = map (λ e. record { name = e.0; value = e.1 }) (without application_label a.labels);
}

unfoldable pub convert_application : {V : Type 0} → Application → HelmApplication V
convert_application a =
    let source = a.spec.source in
    record {
      repo = source.repo_url;
      chart = source.chart;
      path = source.path;
      version = if not (source.chart == "") then source.target_revision else "";
      branch = if not (source.path == "") then source.target_revision else "";
      release = "";
      parameters = [];
      values = none;
      cluster = none;
      namespace = "";
      create_namespace = false;
      namespace_metadata = record { labels = none; annotations = none };
      ignore_differences = [];
      server_side_apply = false;
      allow_degraded = false;
    }

abbrev is_zero : ApplicationSourceHelm → Bool
is_zero h = (h.release_name == "") && ((h.values == "") && is_empty h.parameters)

abbrev destination_name : Option ResourceIdentifier → String
destination_name none = "in-cluster"
destination_name (some id) = cluster_name id

abbrev namespace_metadata_of : LabelsAnnotations → Option LabelsAnnotations
namespace_metadata_of m = if is_some m.labels || is_some m.annotations then some m else none

-- What is generated once the values are marshaled.
unfoldable pub render : {V : Type 0} → ResourceIdentifier → HelmApplication V → String → Application
unfolding application_labels cluster_name
render id app values =
    let helm : ApplicationSourceHelm = record {
      release_name = app.release;
      values = values;
      parameters = app.parameters;
    } in
    record {
      name = "";
      generate_name = str_append id.name "-";
      namespace = namespace;
      labels = application_labels id;
      finalizers = [];
      deletion_timestamp = none;
      spec = record {
        project = "default";
        source = record {
          repo_url = app.repo;
          chart = app.chart;
          path = app.path;
          target_revision = if not (app.branch == "") then app.branch else app.version;
          helm = if not (is_zero helm) then some helm else none;
        };
        destination = record { name = destination_name app.cluster; namespace = app.namespace };
        sync_policy = record {
          sync_options =
              (if app.create_namespace then "CreateNamespace=true" ∷ [] else [])
              ++ (if app.server_side_apply then "ServerSideApply=true" ∷ [] else []);
          automated = some (record { self_heal = true; prune = true });
          managed_namespace_metadata = namespace_metadata_of app.namespace_metadata;
        };
        ignore_differences = app.ignore_differences;
      };
      status = record { health = none; sync = none };
    }

abbrev with_values :
    {V : Type 0} → ResourceIdentifier → HelmApplication V → Result String → Result Application
with_values id app (err e) = err e
with_values id app (ok values) = ok (render id app values)

-- `marshal` is yaml.Marshal.
unfoldable pub generate_application :
    {V : Type 0} → (V → Result String) → ResourceIdentifier → HelmApplication V → Result Application
unfolding render
generate_application marshal id app = elim app.values [
  | none ↦ ok (render id app "")
  | some v ↦ with_values id app (marshal v)
]

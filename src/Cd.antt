-- ===== src/Cd.antt =====
-- pkg/cd/types.go: what a continuous deployment driver is asked for. `V` is the type of Helm values,
-- which is any type that can be marshaled.
pub mod Argo
use uni_core.Base.{String, Bool, Option, List, Dict}

pub record ResourceIdentifierLabel : Type 0 where
  pub name : String
  pub value : String

pub record ResourceIdentifier : Type 0 where
  pub name : String
  pub labels : List ResourceIdentifierLabel

pub record HelmApplicationParameter : Type 0 where
  pub name : String
  pub value : String

pub record HelmApplicationField : Type 0 where
  pub group : String
  pub kind : String
  pub json_pointers : List String

-- A nil map is none.
pub record LabelsAnnotations : Type 0 where
  pub labels : Option (Dict String)
  pub annotations : Option (Dict String)

pub record HelmApplication (V : Type 0) : Type 0 where
  pub repo : String
  pub chart : String
  pub branch : String
  pub path : String
  pub version : String
  pub release : String
  pub parameters : List HelmApplicationParameter
  pub values : Option V
  pub cluster : Option ResourceIdentifier
  pub namespace : String
  pub create_namespace : Bool
  pub namespace_metadata : LabelsAnnotations
  pub ignore_differences : List HelmApplicationField
  pub server_side_apply : Bool
  pub allow_degraded : Bool

pub data HealthStatus : Type 0 where
  unknown healthy degraded : HealthStatus

-- The parts of a Kubernetes configuration that are used. A nil entry of a map is none of its entries.
pub record KubeContext : Type 0 where
  pub cluster : String
  pub auth_info : String

pub record KubeCluster : Type 0 where
  pub server : String
  pub ca_data : String

pub record KubeAuth : Type 0 where
  pub cert_data : String
  pub key_data : String

pub record KubeConfig : Type 0 where
  pub current_context : String
  pub contexts : Dict KubeContext
  pub clusters : Dict KubeCluster
  pub auth_infos : Dict KubeAuth

pub record Cluster : Type 0 where
  pub config : KubeConfig
  pub prefix : String

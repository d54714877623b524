-- ===== src/Api/Object.antt =====
-- A managed resource as the manager and the API servers read it: the Kubernetes object metadata, the
-- pause flag and the status conditions (pkg/apis/unikorn/v1alpha1/interfaces.go and fake/types.go).
use uni_core.Base.{ℕ, String, Bool, Option, List, Dict}

-- metav1.Condition, without the observed generation, which this code neither reads nor writes.
pub record Condition : Type 0 where
  pub condition_type : String
  pub status : String
  pub last_transition_time : ℕ
  pub reason : String
  pub message : String

pub record Object : Type 0 where
  pub name : String
  pub labels : Dict String
  pub annotations : Dict String
  pub finalizers : List String
  pub creation_timestamp : ℕ
  pub deletion_timestamp : Option ℕ
  pub paused : Bool
  pub conditions : List Condition

-- A listed item is a runtime object, which need not be a client object.
pub data Item : Type 0 where
  client_object : Object → Item
  runtime_object : Item

-- ===== src/Api/Conditions.antt =====
-- pkg/apis/unikorn/v1alpha1/helpers.go: status conditions. The package k8s.io/apimachinery/pkg/api/meta
-- is a parameter: `find` is FindStatusCondition and `set` is SetStatusCondition, with its clock.
use uni_core.Base.{String, ◌≡◌, ◌≢◌, Option, none, some, List}
use uni_core.Errors.{sentinel, err_status_condition_lookup, Result, ok, err}
use uni_core.Api.Object.{Condition, Object}

abbrev pub condition_available : String
condition_available = "Available"

abbrev pub condition_healthy : String
condition_healthy = "Healthy"

-- What SetStatusCondition is given: a condition with no transition time.
pub record NewCondition : Type 0 where
  pub condition_type : String
  pub status : String
  pub reason : String
  pub message : String

pub record ConditionUtil : Type 0 where
  pub find : List Condition → String → Option Condition
  pub set : List Condition → NewCondition → List Condition

-- The condition has the status, the reason and the message that were set.
pub record Shows (n : NewCondition) (c : Condition) : Type 0 where
  pub shows_status : c.status ≡ n.status
  pub shows_reason : c.reason ≡ n.reason
  pub shows_message : c.message ≡ n.message

-- What the package documents: the condition that was set is found by its type, with what was set, and
-- those of other types are as they were.
pub record IsConditionUtil (u : ConditionUtil) : Type 0 where
  pub find-set :
      (cs : List Condition) (n : NewCondition)
      → (c : Condition) × (u.find (u.set cs n) n.condition_type ≡ some c) × Shows n c
  pub find-set_ne :
      (cs : List Condition) (n : NewCondition) (t : String)
      → t ≢ n.condition_type
      → u.find (u.set cs n) t ≡ u.find cs t

module _ (u : ConditionUtil) where
  abbrev pub or_lookup_error : Option Condition → Result Condition
  or_lookup_error none = err (sentinel err_status_condition_lookup)
  or_lookup_error (some c) = ok c

  unfoldable pub get_condition : List Condition → String → Result Condition
  get_condition conditions t = or_lookup_error (u.find conditions t)

  unfoldable pub update_condition :
      List Condition → String → String → String → String → List Condition
  update_condition conditions t status reason message =
      u.set conditions
        (record { condition_type = t; status = status; reason = reason; message = message })

  -- The methods of a managed resource, as pkg/apis/unikorn/v1alpha1/fake/helpers.go has them.
  unfoldable pub status_condition_read : Object → String → Result Condition
  unfolding get_condition
  status_condition_read o t = get_condition o.conditions t

  unfoldable pub set_provisioning_condition : Object → String → String → String → Object
  unfolding update_condition
  set_provisioning_condition o status reason message = record o {
    conditions = update_condition o.conditions condition_available status reason message;
  }

  -- A typed condition is the condition, with its reason read as of a narrower string type.
  abbrev pub narrow : Result Condition → Result Condition
  narrow (ok c) = ok c
  narrow (err e) = err e

  unfoldable pub get_typed_condition : Object → String → Result Condition
  unfolding status_condition_read
  get_typed_condition o t = narrow (status_condition_read o t)

  unfoldable pub get_available_condition : Object → Result Condition
  unfolding get_typed_condition
  get_available_condition o = get_typed_condition o condition_available

  unfoldable pub get_healthy_condition : Object → Result Condition
  unfolding get_typed_condition
  get_healthy_condition o = get_typed_condition o condition_healthy

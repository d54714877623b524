-- ===== src/Tests/Clusters.antt =====
-- Instances of what the manager takes as parameters, and a cluster with one object. The world is the
-- list of the objects that were written.
use uni_core.Base.{
  String, refl, true, false, not, Option, none, some, List, [], ◌∷◌, map, contains, select, ◌==◌,
  eq_iff, eq_refl, arith, if◌then◌else◌, contains-select,
}
use uni_core.Errors.{GoError, foreign, ok, err}
use uni_core.Api.Object.{Condition, Object, Item, client_object}
use uni_core.Api.Conditions.{NewCondition, ConditionUtil, IsConditionUtil}
use uni_core.Provisioners.Errors.{Described, as_error, dependency_not_ready}
use uni_core.Manager.Client.{
  Client, ControllerUtil, IsControllerUtil, ListWalker, IsListWalker, stop_at_error,
}
use uni_core.Manager.Reconcile.{State, ManagerProvisioner}

abbrev pub without : String → List String → List String
without f = select (λ x. not (x == f))

abbrev pub finalizers_of : ControllerUtil
finalizers_of = record {
  contains_finalizer = contains;
  add_finalizer = λ xs f. if contains xs f then (xs, false) else (f ∷ xs, true);
  remove_finalizer = λ xs f. (without f xs, contains xs f);
}

pub finalizers-IsControllerUtil : IsControllerUtil finalizers_of
unfolding contains
finalizers-IsControllerUtil = record {
  contains_eq = λ xs f. refl;
  add_updates = λ xs f. ground arith;
  add_there = λ xs f. ground (arith, eq_refl f);
  add_others = λ xs f g n. ground (arith, eq_iff f g);
  remove_updates = λ xs f. refl;
  remove_gone = λ xs f. ground (arith, contains-select (λ x. not (x == f)) xs f, eq_refl f);
  remove_others = λ xs f g n. ground (arith, contains-select (λ x. not (x == f)) xs g, eq_iff g f);
}

abbrev pub condition_of : NewCondition → Condition
condition_of n = record {
  condition_type = n.condition_type;
  status = n.status;
  last_transition_time = 0;
  reason = n.reason;
  message = n.message;
}

abbrev pub find_in : List Condition → String → Option Condition
find_in [] t = none
find_in (c ∷ cs) t = if c.condition_type == t then some c else find_in cs t

abbrev pub conditions_of : ConditionUtil
conditions_of = record { find = find_in; set = λ cs n. condition_of n ∷ cs }

pub conditions-IsConditionUtil : IsConditionUtil conditions_of
conditions-IsConditionUtil = record {
  find-set = λ cs n. (
    condition_of n,
    ground (arith, eq_refl n.condition_type),
    record { shows_status = refl; shows_reason = refl; shows_message = refl },
  );
  find-set_ne = λ cs n t h. ground (arith, eq_iff n.condition_type t);
}

abbrev pub Cluster : Type 0
Cluster = List Object

abbrev pub client : Client Cluster
client = record {
  get = λ name w. (err (foreign "not found"), w);
  list = λ w. (ok (map client_object w), w);
  update = λ o w. (ok o, o ∷ w);
  status_update = λ o w. (ok o, o ∷ w);
  delete = λ o w. (none, w);
  is_not_found = λ e. true;
  is_conflict = λ e. false;
}

abbrev pub walk :
    List Item → (Item → Cluster → Option GoError × Cluster) → Cluster → Option GoError × Cluster
walk [] f w = (none, w)
walk (i ∷ is) f w = stop_at_error (f i w) (walk is f)

abbrev pub walker : ListWalker Cluster
walker = record { each_list_item = walk }

pub walker-IsListWalker : IsListWalker walker
walker-IsListWalker = record { each_nil = λ f w. refl; each_cons = λ o os f w. refl }

abbrev pub resource : List String → Object
resource finalizers = record {
  name = "net-1";
  labels = [];
  annotations = [];
  finalizers = finalizers;
  creation_timestamp = 1;
  deletion_timestamp = none;
  paused = false;
  conditions = [];
}

abbrev pub read : Object → State Cluster
read o = record { object = o; world = []; calls = [] }

abbrev pub identity_resource : Described
identity_resource = record { kinds = ok []; object_name = "id"; labels = [] }

abbrev pub waiting : GoError
waiting = as_error (dependency_not_ready (λ s. s) identity_resource)

abbrev pub provisioner : Option GoError → ManagerProvisioner Cluster
provisioner e = record { provision = λ o w. (e, (o, w)); deprovision = λ o w. (none, (o, w)) }

-- ===== src/Tests/Settling.antt =====
-- Repeated calls of Reconcile on a cluster with one object and a count of the work that remains.
use mathlib.Core.List.Permᴰ as PermD
use uni_core.Base.{ltb, ℕ, zero, suc, refl, false, none, some, ◌∷◌, [], arith}
use uni_core.Errors.{GoError, sentinel, err_yield, is_error, ok}
use uni_core.Api.Names.{finalizer}
use uni_core.Api.Object.{Object, client_object}
use uni_core.Provisioners.Errors.{is_terminal}
use uni_core.Provisioners.Interface.{Task, Provisioner}
use uni_core.Provisioners.Serial
use uni_core.Provisioners.Conditional
use uni_core.Provisioners.Concurrent
use uni_core.Provisioners.Serial.{SerialProvisioner}
use uni_core.Provisioners.Conditional.{ConditionalProvisioner}
use uni_core.Provisioners.Concurrent.{ConcurrentProvisioner, IsErrGroup, run_all}
use uni_core.Provisioners.Progress.{
  Gains, returned, waiting, serial-IsGaining, conditional-IsGaining, concurrent-IsGaining,
}
use uni_core.Manager.Reconcile.Managed.{GainsFor, managed, provision-Ran}
use uni_core.Manager.Client.{Client}
use uni_core.Manager.Reconcile.{ManagerProvisioner}
use uni_core.Manager.Reconcile.Dispatch.{IsActive}
use uni_core.Manager.Reconcile.Runs.{Converges}
use uni_core.Manager.Reconcile.Accepting.{Written, IsAccepting}
use uni_core.Manager.Reconcile.Convergence.{IsTransient, IsAtRest, reconcile-Converges}
use uni_core.Tests.Clusters.{finalizers_of, conditions_of, conditions-IsConditionUtil, resource}

abbrev Job : Type 0
Job = Object × ℕ

abbrev stored : Job → Object
stored w = w.0

abbrev remaining : Job → ℕ
remaining w = w.1

abbrev server : Client Job
server = record {
  get = λ name w. (ok w.0, w);
  list = λ w. (ok (client_object w.0 ∷ []), w);
  update = λ o w. (ok o, (o, w.1));
  status_update = λ o w. (ok o, (o, w.1));
  delete = λ o w. (none, w);
  is_not_found = λ e. false;
  is_conflict = λ e. false;
}

module _ (Stays : Object → Type 0) where
  abbrev written : (o : Object) (w : Job) → Written stored remaining Stays o w (ok o, (o, w.1))
  written o w = record {
    given = o;
    next = (o, w.1);
    is_written = refl;
    is_stored = refl;
    stays = λ a b. a;
    same_work = refl;
  }

  server-IsAccepting : IsAccepting stored remaining Stays server "net-1"
  server-IsAccepting = record {
    get_stored = λ w. refl;
    update_written = λ o w. written o w;
    status_written = λ o w. written o w;
    status_conditions = λ o w. refl;
  }

-- The work of a call: one unit, with a yield, while any remains.
abbrev work : Task Job
work (o, zero) = (none, (o, zero))
work (o, suc n) = (some (sentinel err_yield), (o, n))

abbrev worker : Provisioner Job
worker = record { provisioner_name = "worker"; provision = work; deprovision = work }

abbrev optional : ConditionalProvisioner Job
optional = record { name = "optional"; condition = λ w. ltb 1 w.1; provisioner = worker }

abbrev at_once : ConcurrentProvisioner Job
at_once = record { name = "at once"; provisioners = worker ∷ worker ∷ [] }

-- A provisioner behind a condition, and then two at once.
abbrev group : SerialProvisioner Job
group = record {
  name = "group";
  provisioners =
      Conditional.as_provisioner optional ∷ Concurrent.as_provisioner run_all at_once ∷ [];
}

in_turn-IsErrGroup : IsErrGroup {W = Job} run_all
in_turn-IsErrGroup = record { waits_for_all = λ ts w. (ts, PermD.refl ts, refl) }

module _ (Stays : Object → Type 0) (Waits : GoError → Type 0)
    (waits : Waits (sentinel err_yield)) where
  abbrev Gaining : Provisioner Job → Type 0
  Gaining = GainsFor stored remaining Stays Waits

  work-Gains : Gains remaining (λ w. Stays (stored w)) Waits work
  work-Gains (o, zero) h = returned h (omega arith)
  work-Gains (o, suc n) h = waiting waits h (omega arith)

  worker-IsGaining : Gaining worker
  worker-IsGaining = record { provisions = work-Gains; deprovisions = work-Gains }

  group-IsGaining : Gaining (Serial.as_provisioner group)
  group-IsGaining =
      serial-IsGaining remaining (λ w. Stays (stored w)) Waits group
        (
          conditional-IsGaining remaining (λ w. Stays (stored w)) Waits optional worker-IsGaining,
          (
            concurrent-IsGaining remaining (λ w. Stays (stored w)) Waits run_all in_turn-IsErrGroup
                at_once (worker-IsGaining, (worker-IsGaining, tt)),
            tt,
          ),
        )

abbrev provisioner : ManagerProvisioner Job
provisioner = managed (Serial.as_provisioner group)

sentinel-IsTransient : IsTransient (sentinel err_yield)
unfolding is_terminal is_error
sentinel-IsTransient = refl

reconcile-Converges_example :
    Converges server finalizers_of conditions_of provisioner
      (resource [])
      "net-1"
      stored
      remaining
      IsActive
      (IsAtRest stored remaining server finalizers_of conditions_of)
      3
      (resource [], 2)
reconcile-Converges_example =
    reconcile-Converges stored remaining server finalizers_of conditions_of "net-1"
      (server-IsAccepting IsActive) conditions-IsConditionUtil provisioner
      (provision-Ran stored remaining IsActive IsTransient (Serial.as_provisioner group)
        (group-IsGaining IsActive IsTransient sentinel-IsTransient))
      (resource []) (resource [], 2) (refl, refl)

abbrev deleted : Object
deleted = record (resource (finalizer ∷ [])) { deletion_timestamp = some 5 }

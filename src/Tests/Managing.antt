-- ===== src/Tests/Managing.antt =====
-- pkg/manager on a concrete cluster.
use uni_core.Base.{
  ◌≡◌, refl, ap, sym, true, false, none, some, List, [], ◌∷◌, map, lookup, contains,
}
use uni_core.Errors.{as_provisioning, Result, ok, err}
use uni_core.Api.Names.{finalizer}
use uni_core.Api.Object.{Condition, Object, client_object}
use uni_core.Api.Conditions.{
  condition_available, get_available_condition, set_provisioning_condition,
}
use uni_core.Provisioners.Errors.{describe_resource, dependency_not_ready}
use uni_core.Manager.Client.{Client}
use uni_core.Manager.Condition.{Surfaced, phase_1, phase_2}
use uni_core.Manager.Reference.{get_resource_references, remove_resource_references}
use uni_core.Manager.Reference.Removal.{update_listed, remove_references_eq}
use uni_core.Manager.Reconcile.{
  State, handle_reconcile_condition, ensure_finalizer, reconcile, reconcile_normal,
  attempt_deletion, reconcile_delete,
}
use uni_core.Manager.Reconcile.Surface.{Report, Displays, handle_discloses}
use uni_core.Manager.Reconcile.Silence.{log_lines, second_handling_is_silent}
use uni_core.Manager.Reconcile.Finalizing.{
  writes, provisions, Tried, Held, release_needs_deprovision, provision_needs_finalizer,
}
use uni_core.Server.Conversion.{convert_status_condition, convert_provisioning_status_detail}
use uni_core.Server.Conversion.Status.{expected_status, shown_status}
use uni_core.Tests.Clusters.{
  finalizers_of, finalizers-IsControllerUtil, conditions_of, conditions-IsConditionUtil, Cluster,
  client, walker, walker-IsListWalker, resource, read, waiting, provisioner,
}

handle_discloses_example :
    let s = read (resource []) in
    Report conditions_of
      (some waiting)
      s.calls
      (handle_reconcile_condition client finalizers_of conditions_of (some waiting) false s).1.calls
handle_discloses_example =
    handle_discloses client finalizers_of conditions_of conditions-IsConditionUtil (some waiting)
      false (read (resource []))

abbrev handled : State Cluster
handled =
    (handle_reconcile_condition client finalizers_of conditions_of (some waiting) false
      (read (resource []))).1

second_handling_is_silent_example :
    log_lines
      (handle_reconcile_condition client finalizers_of conditions_of
        (some waiting)
        false
        handled).1.calls
    ≡ log_lines handled.calls
unfolding handle_reconcile_condition phase_1 phase_2 set_provisioning_condition dependency_not_ready
    get_available_condition
second_handling_is_silent_example =
    second_handling_is_silent client finalizers_of conditions_of conditions-IsConditionUtil
      (some waiting) false (read (resource [])) handled (λ o o' w w' h. ap (λ r. sent o r) (sym h))
      refl refl
  where
    sent : Object → Result Object × Cluster → List Condition
    sent o (ok o', w) = o'.conditions
    sent o (err e, w) = o.conditions

-- A resource that is being deleted, with no references.
abbrev deleting : State Cluster
deleting = read (record (resource (finalizer ∷ [])) { deletion_timestamp = some 7 })

released_example :
    writes (reconcile_delete client finalizers_of conditions_of (provisioner none) deleting).1.calls
    ≡ true
unfolding reconcile_delete handle_reconcile_condition attempt_deletion get_resource_references
    contains writes get_available_condition set_provisioning_condition
released_example = refl

release_needs_deprovision_example :
    Tried client finalizers_of conditions_of (provisioner none) deleting none
release_needs_deprovision_example =
    release_needs_deprovision client finalizers_of conditions_of finalizers-IsControllerUtil
      (provisioner none) deleting refl released_example

provision_called :
    provisions
      (reconcile_normal client finalizers_of conditions_of
        (provisioner none)
        (read (resource []))).1.calls
    ≡ true
unfolding reconcile_normal ensure_finalizer handle_reconcile_condition contains provisions
    get_available_condition
provision_called = refl

provision_needs_finalizer_example :
    Held client finalizers_of conditions_of
      (read (resource []))
      (ensure_finalizer client finalizers_of conditions_of (read (resource []))).1.calls
provision_needs_finalizer_example =
    provision_needs_finalizer client finalizers_of conditions_of finalizers-IsControllerUtil
      (provisioner none) (read (resource [])) refl provision_called

abbrev referenced : Cluster
referenced = resource ("networks/a" ∷ []) ∷ resource (finalizer ∷ []) ∷ []

remove_references_eq_example :
    remove_resource_references client finalizers_of walker "networks/a" [] referenced
    ≡ update_listed client finalizers_of walker "networks/a" []
        (ok (map client_object referenced), referenced)
remove_references_eq_example =
    remove_references_eq client finalizers_of walker finalizers-IsControllerUtil walker-IsListWalker
      "networks/a" [] referenced

abbrev shows_waiting : Surfaced
shows_waiting = record { status = "False"; reason = "Provisioning"; message = "provisioning" }

abbrev displayed : Object
displayed = record (resource []) {
  conditions =
      record {
        condition_type = condition_available;
        status = "False";
        last_transition_time = 0;
        reason = "DependencyNotReady";
        message = "resource id is not ready";
      }
      ∷ [];
}

waiting-Displays : Displays conditions_of displayed (phase_2 (some waiting) shows_waiting)
unfolding phase_2 as_provisioning get_available_condition dependency_not_ready describe_resource
    lookup
waiting-Displays = record {
  condition = _;
  is_found = refl;
  displays_status = refl;
  displays_reason = refl;
  displays_message = refl;
}

waiting-surfaces : phase_1 (some waiting) false ≡ some shows_waiting
unfolding phase_1 dependency_not_ready
waiting-surfaces = refl

shown_status_example :
    (convert_status_condition conditions_of true displayed ≡ expected_status (some waiting))
    × (convert_provisioning_status_detail conditions_of true displayed
        ≡ some (record {
          reason = (phase_2 (some waiting) shows_waiting).reason;
          message = (phase_2 (some waiting) shows_waiting).message;
        }))
shown_status_example =
    shown_status conditions_of displayed (some waiting) shows_waiting refl waiting-surfaces
      waiting-Displays

-- A cluster that has one object under every name.
abbrev one_object : Client Cluster
one_object = record client { get = λ name w. (ok (resource []), w) }

active_provisions :
    provisions
      (reconcile one_object finalizers_of conditions_of "argocd"
        (provisioner none)
        (resource [])
        "net-1"
        []).1.calls
    ≡ true
unfolding reconcile reconcile_normal ensure_finalizer handle_reconcile_condition contains provisions
    get_available_condition
active_provisions = refl

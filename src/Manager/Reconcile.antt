-- ===== src/Manager/Reconcile.antt =====
-- pkg/manager/reconcile.go: the generic reconciler. Its state is the object, the state of the cluster
-- and the calls made so far, the last one first; the contexts that it builds and the lines that it
-- logs for operators are left out.
pub mod Finalizing
pub mod Requeue
pub mod Surface
pub mod Silence
pub mod Dispatch
pub mod Runs
pub mod Accepting
pub mod Convergence
pub mod Release
pub mod Teardown
pub mod Managed
use uni_core.Base.{
  ℕ, String, Bool, true, false, not, Option, none, some, List, [], ◌∷◌, is_empty, ◌==◌,
  if◌then◌else◌,
}
use uni_core.Errors.{GoError, sentinel, err_yield, err_cd_driver, is_error, Result, ok, err}
use uni_core.Api.Names.{finalizer, finalizer_delete_dependents, default_yield_timeout}
use uni_core.Api.Object.{Object}
use uni_core.Api.Conditions.{ConditionUtil, get_available_condition, set_provisioning_condition}
use uni_core.Provisioners.Errors.{is_terminal}
use uni_core.Manager.Client.{Client, ControllerUtil}
use uni_core.Manager.Condition.{Surfaced, phase_1, phase_2, changed}
use uni_core.Manager.Reference.{get_resource_references}

pub data Call : Type 0 where
  updated : Object → Bool → Call
  status_updated : Object → Bool → Call
  provisioned : Option GoError → Call
  deprovisioned : Option GoError → Call
  emitted : String → String → String → Call

pub record State {ℓ} (W : Type ℓ) : Type ℓ where
  pub object : Object
  pub world : W
  pub calls : List Call

-- reconcile.Result and the error beside it.
pub record Outcome : Type 0 where
  pub requeue_after : ℕ
  pub error : Option GoError

abbrev pub done : Outcome
done = record { requeue_after = 0; error = none }

abbrev pub requeue : Outcome
requeue = record { requeue_after = default_yield_timeout; error = none }

abbrev pub failed : GoError → Outcome
failed e = record { requeue_after = 0; error = some e }

-- A provisioner shares the object with the reconciler, and may change it.
pub record ManagerProvisioner {ℓ} (W : Type ℓ) : Type ℓ where
  pub provision : Object → W → Option GoError × (Object × W)
  pub deprovision : Object → W → Option GoError × (Object × W)

module _ {ℓ} {W : Type ℓ} (cl : Client W) (u : ControllerUtil) (cu : ConditionUtil) where
  abbrev pub after_update : State W → Result Object × W → Option GoError × State W
  after_update s (ok o, w) =
      (none, record { object = o; world = w; calls = updated s.object true ∷ s.calls })
  after_update s (err e, w) =
      (some e, record s { world = w; calls = updated s.object false ∷ s.calls })

  abbrev pub after_status_update : State W → Result Object × W → Option GoError × State W
  after_status_update s (ok o, w) =
      (none, record { object = o; world = w; calls = status_updated s.object true ∷ s.calls })
  after_status_update s (err e, w) =
      (some e, record s { world = w; calls = status_updated s.object false ∷ s.calls })

  -- The status update, and the log line once a change is persisted.
  abbrev pub emit_if : Bool → Surfaced → Option GoError × State W → Option GoError × State W
  emit_if edge f (some e, s) = (some e, s)
  emit_if edge f (none, s) =
      if edge
      then (none, record s { calls = emitted f.status f.reason f.message ∷ s.calls })
      else (none, s)

  abbrev pub surface : Option Surfaced → Option GoError → State W → Option GoError × State W
  surface none perr s = (none, s)
  surface (some f) perr s =
      let g = phase_2 perr f in
      let edge = changed (get_available_condition cu s.object) g in
      let o = set_provisioning_condition cu s.object g.status g.reason g.message in
      emit_if edge g (after_status_update (record s { object = o }) (cl.status_update o s.world))

  unfoldable pub handle_reconcile_condition :
      Option GoError → Bool → State W → Option GoError × State W
  unfolding phase_1 phase_2 changed
  handle_reconcile_condition perr deprovision s = surface (phase_1 perr deprovision) perr s

  abbrev pub call_provision : ManagerProvisioner W → State W → Option GoError × State W
  call_provision p s =
      let (e, r) = p.provision s.object s.world in
      (e, record { object = r.0; world = r.1; calls = provisioned e ∷ s.calls })

  abbrev pub call_deprovision : ManagerProvisioner W → State W → Option GoError × State W
  call_deprovision p s =
      let (e, r) = p.deprovision s.object s.world in
      (e, record { object = r.0; world = r.1; calls = deprovisioned e ∷ s.calls })

  -- The decision of reconcileNormal once the condition is written.
  unfoldable pub normal_outcome : Option GoError → Option GoError → Outcome
  unfolding is_terminal
  normal_outcome (some e) perr = requeue
  normal_outcome none none = done
  normal_outcome none (some perr) = if is_terminal perr then done else requeue

  abbrev pub conclude_normal : Option GoError → Option GoError × State W → Outcome × State W
  conclude_normal perr (cerr, s) = (normal_outcome cerr perr, s)

  abbrev pub provision_and_report : Option GoError × State W → Outcome × State W
  provision_and_report (perr, s) = conclude_normal perr (handle_reconcile_condition perr false s)

  abbrev pub after_finalizer : ManagerProvisioner W → Option GoError × State W → Outcome × State W
  after_finalizer p (some e, s) = (failed e, s)
  after_finalizer p (none, s) = provision_and_report (call_provision p s)

  -- AddFinalizer, and the update if it changed the object.
  unfoldable pub ensure_finalizer : State W → Option GoError × State W
  ensure_finalizer s =
      let (finalizers, added) = u.add_finalizer s.object.finalizers finalizer in
      let s' = record s { object = record s.object { finalizers = finalizers } } in
      if added then after_update s' (cl.update s'.object s'.world) else (none, s')

  unfoldable pub reconcile_normal : ManagerProvisioner W → State W → Outcome × State W
  unfolding ensure_finalizer handle_reconcile_condition normal_outcome
  reconcile_normal p s = after_finalizer p (ensure_finalizer s)

  -- The switch of reconcileDelete.
  unfoldable pub attempt_deletion : ManagerProvisioner W → State W → Option GoError × State W
  unfolding get_resource_references
  attempt_deletion p s =
      if not (is_empty (get_resource_references s.object))
      then (some (sentinel err_yield), s)
      else if u.contains_finalizer s.object.finalizers finalizer_delete_dependents
      then (some (sentinel err_yield), s)
      else call_deprovision p s

  abbrev pub after_release : Option GoError × State W → Outcome × State W
  after_release (none, s) = (done, s)
  after_release (some e, s) = (requeue, s)

  -- RemoveFinalizer, and the update if it changed the object.
  unfoldable pub release_finalizer : State W → Outcome × State W
  release_finalizer s =
      let (finalizers, removed) = u.remove_finalizer s.object.finalizers finalizer in
      let s' = record s { object = record s.object { finalizers = finalizers } } in
      if removed then after_release (after_update s' (cl.update s'.object s'.world)) else (done, s')

  -- What follows the switch: the condition is written, and the outcome decided.
  abbrev pub conclude_delete : Option GoError → Option GoError × State W → Outcome × State W
  conclude_delete perr (some e, s) = (requeue, s)
  conclude_delete none (none, s) = release_finalizer s
  conclude_delete (some perr) (none, s) =
      if not (is_error perr err_yield) then (failed perr, s) else (requeue, s)

  abbrev pub report_and_conclude : Option GoError × State W → Outcome × State W
  report_and_conclude (perr, s) = conclude_delete perr (handle_reconcile_condition perr true s)

  unfoldable pub reconcile_delete : ManagerProvisioner W → State W → Outcome × State W
  unfolding attempt_deletion handle_reconcile_condition release_finalizer is_error
  reconcile_delete p s = report_and_conclude (attempt_deletion p s)

  -- The branches of Reconcile on the object that was read.
  abbrev pub dispatch : ManagerProvisioner W → Option ℕ → State W → Outcome × State W
  dispatch p (some deleted) s =
      if is_empty s.object.finalizers then (done, s) else reconcile_delete p s
  dispatch p none s = if s.object.paused then (done, s) else reconcile_normal p s

  abbrev pub on_read : ManagerProvisioner W → Object → Result Object × W → Outcome × State W
  on_read p o (err e, w) =
      let s : State W = record { object = o; world = w; calls = [] } in
      if cl.is_not_found e then (done, s) else (failed e, s)
  on_read p o (ok o', w) =
      dispatch p o'.deletion_timestamp (record { object = o'; world = w; calls = [] })

  -- `kind` is the configured driver's, and `blank` the provisioner's own empty object.
  unfoldable pub reconcile : String → ManagerProvisioner W → Object → String → W → Outcome × State W
  unfolding reconcile_normal reconcile_delete
  reconcile kind p blank request w =
      if not (kind == "argocd")
      then (failed (sentinel err_cd_driver), record { object = blank; world = w; calls = [] })
      else on_read p blank (cl.get request w)

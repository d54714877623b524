-- ===== src/Manager/Reconcile/Dispatch.antt =====
-- Which objects a reconcile provisions.
use uni_core.Base.{
  ℕ, String, ◌≡◌, refl, sym, ◌∙◌, Bool, true, false, false≢true, not, Option, none, some, [],
  is_empty, ◌==◌, eq_iff, if◌then◌else◌, arith,
}
use uni_core.Errors.{GoError, sentinel, err_yield, err_cd_driver, is_error, Result, ok, err}
use uni_core.Api.Names.{finalizer, finalizer_delete_dependents}
use uni_core.Api.Object.{Object}
use uni_core.Api.Conditions.{ConditionUtil, get_available_condition, set_provisioning_condition}
use uni_core.Manager.Client.{Client, ControllerUtil}
use uni_core.Manager.Condition.{Surfaced, phase_1, phase_2, changed}
use uni_core.Manager.Reference.{get_resource_references}
use uni_core.Manager.Reconcile.{
  State, Outcome, ManagerProvisioner, handle_reconcile_condition, reconcile, attempt_deletion,
  reconcile_delete, reconcile_normal, release_finalizer, call_deprovision, conclude_delete, done,
  requeue, failed, after_release, after_update, after_status_update, emit_if, surface, dispatch,
  on_read,
}
use uni_core.Manager.Reconcile.Finalizing.{provisions}

-- The object is neither being deleted nor paused.
abbrev pub IsActive : Object → Type 0
IsActive o = (o.deletion_timestamp ≡ none) × (o.paused ≡ false)

module _ {ℓ} {W : Type ℓ} (cl : Client W) (u : ControllerUtil) (cu : ConditionUtil) where
  emit_if-provisions :
      (edge : Bool) (f : Surfaced) (s : State W) (r : Result Object × W)
      → provisions (emit_if cl u cu edge f (after_status_update cl u cu s r)).1.calls
        ≡ provisions s.calls
  unfolding provisions
  emit_if-provisions true f s (ok o, w) = refl
  emit_if-provisions false f s (ok o, w) = refl
  emit_if-provisions edge f s (err e, w) = refl

  surface-provisions :
      (f : Option Surfaced) (perr : Option GoError) (s : State W)
      → provisions (surface cl u cu f perr s).1.calls ≡ provisions s.calls
  surface-provisions none perr s = refl
  surface-provisions (some f) perr s =
      let g : Surfaced = phase_2 perr f in
      let o : Object = set_provisioning_condition cu s.object g.status g.reason g.message in
      emit_if-provisions (changed (get_available_condition cu s.object) g) g
        (record s { object = o }) (cl.status_update o s.world)

  attempt-provisions :
      (unreferenced dependents : Bool) (p : ManagerProvisioner W) (s : State W)
      → provisions
          (if not unreferenced
            then (some (sentinel err_yield), s)
            else if dependents
            then (some (sentinel err_yield), s)
            else call_deprovision cl u cu p s).1.calls
        ≡ provisions s.calls
  unfolding provisions
  attempt-provisions false dependents p s = refl
  attempt-provisions true true p s = refl
  attempt-provisions true false p s = refl

  released-provisions :
      (removed : Bool) (s : State W) (r : Result Object × W)
      → provisions
          (if removed then after_release cl u cu (after_update cl u cu s r) else (done, s)).1.calls
        ≡ provisions s.calls
  unfolding provisions
  released-provisions true s (ok o, w) = refl
  released-provisions true s (err e, w) = refl
  released-provisions false s r = refl

  yielded-provisions :
      (unexpected : Bool) (e : GoError) (s : State W)
      → provisions
          (if◌then◌else◌ {A = Outcome × State W} unexpected (failed e, s) (requeue, s)).1.calls
        ≡ provisions s.calls
  yielded-provisions true e s = refl
  yielded-provisions false e s = refl

  conclude-provisions :
      (perr : Option GoError) (r : Option GoError × State W)
      → provisions (conclude_delete cl u cu perr r).1.calls ≡ provisions r.1.calls
  unfolding release_finalizer
  conclude-provisions perr (some e, s) = refl
  conclude-provisions none (none, s) =
      let (finalizers, removed) = u.remove_finalizer s.object.finalizers finalizer in
      let o : Object = record s.object { finalizers = finalizers } in
      released-provisions removed (record s { object = o }) (cl.update o s.world)
  conclude-provisions (some e) (none, s) = yielded-provisions (not (is_error e err_yield)) e s

  delete-provisions :
      (p : ManagerProvisioner W) (s : State W)
      → provisions (reconcile_delete cl u cu p s).1.calls ≡ provisions s.calls
  unfolding reconcile_delete handle_reconcile_condition attempt_deletion
  delete-provisions p s =
      let (perr, t) = attempt_deletion cl u cu p s in
      conclude-provisions perr (handle_reconcile_condition cl u cu perr true t)
      ∙ surface-provisions (phase_1 perr true) perr t
      ∙ attempt-provisions (is_empty (get_resource_references s.object))
          (u.contains_finalizer s.object.finalizers finalizer_delete_dependents) p s

  deleting-provisions :
      (unheld : Bool) (p : ManagerProvisioner W) (s : State W)
      → provisions (if unheld then (done, s) else reconcile_delete cl u cu p s).1.calls
        ≡ provisions s.calls
  deleting-provisions true p s = refl
  deleting-provisions false p s = delete-provisions p s

  live-provisions :
      (paused : Bool) (s : State W) (r : Outcome × State W)
      → provisions s.calls ≡ false
      → provisions (if paused then (done, s) else r).1.calls ≡ true
      → paused ≡ false
  live-provisions false s r fresh h = refl
  live-provisions true s r fresh h = absurd (false≢true (sym fresh ∙ h))

  -- What the object asks for, given its deletion timestamp.
  dispatch-IsActive :
      (deleted : Option ℕ) (p : ManagerProvisioner W) (s : State W)
      → provisions s.calls ≡ false
      → provisions (dispatch cl u cu p deleted s).1.calls ≡ true
      → (deleted ≡ none) × (s.object.paused ≡ false)
  dispatch-IsActive none p s fresh h =
      (refl, live-provisions s.object.paused s (reconcile_normal cl u cu p s) fresh h)
  dispatch-IsActive (some t) p s fresh h =
      absurd
        (false≢true (sym fresh ∙ sym (deleting-provisions (is_empty s.object.finalizers) p s) ∙ h))

  unread-provisions :
      (missing : Bool) (e : GoError) (s : State W)
      → provisions s.calls ≡ false
      → provisions (if◌then◌else◌ {A = Outcome × State W} missing (done, s) (failed e, s)).1.calls
        ≡ false
  unread-provisions true e s fresh = fresh
  unread-provisions false e s fresh = fresh

  on_read-IsActive :
      (p : ManagerProvisioner W) (blank : Object) (r : Result Object × W)
      → provisions (on_read cl u cu p blank r).1.calls ≡ true
      → (o : Object) × (r.0 ≡ ok o) × IsActive o
  unfolding provisions
  on_read-IsActive p blank (err e, w) h = absurd (
      false≢true (
        sym (
          unread-provisions (cl.is_not_found e) e (record { object = blank; world = w; calls = [] })
            refl)
        ∙ h))
  on_read-IsActive p blank (ok o, w) h = (
    o,
    refl,
    dispatch-IsActive o.deletion_timestamp p (record { object = o; world = w; calls = [] }) refl h,
  )

  -- If a Reconcile calls Provision, the object was read, is not being deleted and is not paused,
  -- and the configured driver is Argo CD.
  provision-IsActive :
      (kind request : String) (p : ManagerProvisioner W) (blank : Object) (w : W)
      → provisions (reconcile cl u cu kind p blank request w).1.calls ≡ true
      → (kind ≡ "argocd") × ((o : Object) × ((cl.get request w).0 ≡ ok o) × IsActive o)
  unfolding reconcile provisions
  provision-IsActive kind request p blank w h = by_driver (kind == "argocd") refl h
    where
      by_driver :
          (argocd : Bool)
          → (kind == "argocd") ≡ argocd
          → provisions
              (if not argocd
                then (
                  failed (sentinel err_cd_driver),
                  record { object = blank; world = w; calls = [] },
                )
                else on_read cl u cu p blank (cl.get request w)).1.calls
            ≡ true
          → (kind ≡ "argocd") × ((o : Object) × ((cl.get request w).0 ≡ ok o) × IsActive o)
      by_driver true e h' =
          (ground (arith, eq_iff kind "argocd"), on_read-IsActive p blank (cl.get request w) h')
      by_driver false e h' = absurd (false≢true h')

-- ===== src/Manager/Reconcile/Finalizing.antt =====
-- pkg/manager/reconcile.go: what comes before the finalizer is released, and before anything is
-- provisioned.
use uni_core.Base.{
  String, ◌≡◌, refl, sym, ap, ◌∙◌, Bool, true, false, not, Option, none, some, List, [], ◌∷◌,
  contains, is_empty, if◌then◌else◌, arith, false≢true,
}
use uni_core.Errors.{GoError, sentinel, err_yield, is_error, Result, ok, err}
use uni_core.Api.Names.{finalizer, finalizer_delete_dependents}
use uni_core.Api.Object.{Object}
use uni_core.Api.Conditions.{ConditionUtil, get_available_condition, set_provisioning_condition}
use uni_core.Manager.Client.{Client, ControllerUtil, IsControllerUtil}
use uni_core.Manager.Condition.{Surfaced, phase_1, phase_2, changed}
use uni_core.Manager.Reference.{get_resource_references}
use uni_core.Manager.Reconcile.{
  Call, updated, status_updated, provisioned, deprovisioned, emitted, State, Outcome,
  ManagerProvisioner, handle_reconcile_condition, ensure_finalizer, reconcile_normal,
  attempt_deletion, reconcile_delete, call_deprovision, after_finalizer, conclude_delete, requeue,
  failed, after_update, after_status_update, emit_if, surface,
}

-- Whether the object itself was written.
unfoldable pub writes : List Call → Bool
writes [] = false
writes (updated o accepted ∷ calls) = true
writes (status_updated o accepted ∷ calls) = writes calls
writes (emitted status reason message ∷ calls) = writes calls
writes (provisioned e ∷ calls) = writes calls
writes (deprovisioned e ∷ calls) = writes calls

-- Whether the provisioner's Provision was called.
unfoldable pub provisions : List Call → Bool
provisions [] = false
provisions (provisioned e ∷ calls) = true
provisions (deprovisioned e ∷ calls) = provisions calls
provisions (updated o accepted ∷ calls) = provisions calls
provisions (status_updated o accepted ∷ calls) = provisions calls
provisions (emitted status reason message ∷ calls) = provisions calls

module _ {ℓ} {W : Type ℓ} (cl : Client W) (u : ControllerUtil) (cu : ConditionUtil) where
  emit_if-writes :
      (edge : Bool) (f : Surfaced) (s : State W) (r : Result Object × W)
      → writes ((emit_if cl u cu edge f (after_status_update cl u cu s r)).1.calls) ≡ writes s.calls
  unfolding writes
  emit_if-writes true f s (ok o, w) = refl
  emit_if-writes false f s (ok o, w) = refl
  emit_if-writes edge f s (err e, w) = refl

  surface-writes :
      (f : Option Surfaced) (perr : Option GoError) (s : State W)
      → writes ((surface cl u cu f perr s).1.calls) ≡ writes s.calls
  surface-writes none perr s = refl
  surface-writes (some f) perr s =
      let g : Surfaced = phase_2 perr f in
      let o : Object = set_provisioning_condition cu s.object g.status g.reason g.message in
      emit_if-writes (changed (get_available_condition cu s.object) g) g (record s { object = o })
        (cl.status_update o s.world)

  handle-writes :
      (perr : Option GoError) (d : Bool) (s : State W)
      → writes ((handle_reconcile_condition cl u cu perr d s).1.calls) ≡ writes s.calls
  unfolding handle_reconcile_condition
  handle-writes perr d s = surface-writes (phase_1 perr d) perr s

  -- Deprovision was tried and gave `perr`: no reference was left, and no foreground deletion was
  -- under way.
  pub record Tried (p : ManagerProvisioner W) (s : State W) (perr : Option GoError) : Type 0 where
    pub no_references : is_empty (get_resource_references s.object) ≡ true
    pub no_dependents : contains s.object.finalizers finalizer_delete_dependents ≡ false
    pub returned : (p.deprovision s.object s.world).0 ≡ perr

  attempted :
      (unreferenced dependents : Bool) (p : ManagerProvisioner W) (s : State W)
      → (if not unreferenced
          then (some (sentinel err_yield), s)
          else if dependents
          then (some (sentinel err_yield), s)
          else call_deprovision cl u cu p s).0
        ≡ none
      → (unreferenced ≡ true) × ((dependents ≡ false) × ((p.deprovision s.object s.world).0 ≡ none))
  attempted false dependents p s h = ground arith
  attempted true true p s h = ground arith
  attempted true false p s h = (refl, (refl, h))

  attempt_deletion-Tried :
      IsControllerUtil u
      → (p : ManagerProvisioner W) (s : State W) → (attempt_deletion cl u cu p s).0 ≡ none
      → Tried p s none
  unfolding attempt_deletion
  attempt_deletion-Tried laws p s h =
      let (unreferenced, rest) =
        attempted (is_empty (get_resource_references s.object))
          (u.contains_finalizer s.object.finalizers finalizer_delete_dependents) p s h in
      record {
        no_references = unreferenced;
        no_dependents =
            sym (laws.contains_eq s.object.finalizers finalizer_delete_dependents) ∙ rest.0;
        returned = rest.1;
      }

  attempted-writes :
      (unreferenced dependents : Bool) (p : ManagerProvisioner W) (s : State W)
      → writes (
          (if not unreferenced
            then (some (sentinel err_yield), s)
            else if dependents
            then (some (sentinel err_yield), s)
            else call_deprovision cl u cu p s).1.calls)
        ≡ writes s.calls
  unfolding writes
  attempted-writes false dependents p s = refl
  attempted-writes true true p s = refl
  attempted-writes true false p s = refl

  attempt_deletion-writes :
      (p : ManagerProvisioner W) (s : State W)
      → writes ((attempt_deletion cl u cu p s).1.calls) ≡ writes s.calls
  unfolding attempt_deletion
  attempt_deletion-writes p s =
      attempted-writes (is_empty (get_resource_references s.object))
        (u.contains_finalizer s.object.finalizers finalizer_delete_dependents) p s

  unreleased-writes :
      (yielded : Bool) (e : GoError) (s : State W)
      → writes
          ((if◌then◌else◌ {A = Outcome × State W} (not yielded) (failed e, s) (requeue, s)).1.calls)
        ≡ writes s.calls
  unreleased-writes true e s = refl
  unreleased-writes false e s = refl

  writes_only_after :
      (perr : Option GoError) (r : Option GoError × State W)
      → writes r.1.calls ≡ false
      → writes ((conclude_delete cl u cu perr r).1.calls) ≡ true
      → perr ≡ none
  writes_only_after none r h k = refl
  writes_only_after (some e) (some e', s) h k = ground arith
  writes_only_after (some e) (none, s) h k =
      absurd (false≢true (sym h ∙ sym (unreleased-writes (is_error e err_yield) e s) ∙ k))

  -- With finalizer helpers as documented and from a state in which no call was made: if
  -- reconcileDelete writes the object, so that it may release the finalizer, then Deprovision was
  -- called and returned nil, no reference was left and no foreground deletion was under way.
  pub release_needs_deprovision :
      IsControllerUtil u
      → (p : ManagerProvisioner W) (s : State W) → s.calls ≡ []
      → writes ((reconcile_delete cl u cu p s).1.calls) ≡ true
      → Tried p s none
  unfolding reconcile_delete writes
  release_needs_deprovision laws p s fresh wrote =
      let (perr, t) = attempt_deletion cl u cu p s in
      attempt_deletion-Tried laws p s (
        writes_only_after perr (handle_reconcile_condition cl u cu perr true t)
          (handle-writes perr true t ∙ attempt_deletion-writes p s ∙ ap writes fresh) wrote)

  -- The finalizer that the manager holds is on the object that the cluster has: it was there when the
  -- object was read, or an update that carried it was accepted.
  pub data Held (s : State W) : List Call → Type ℓ where
    present : contains s.object.finalizers finalizer ≡ true → Held s s.calls
    persisted :
        (o : Object) → contains o.finalizers finalizer ≡ true → Held s (updated o true ∷ s.calls)

  added-Held :
      (added : Bool) (s : State W) (fs : List String) (r : Result Object × W)
      → contains fs finalizer ≡ true
      → (added ≡ false → contains s.object.finalizers finalizer ≡ true)
      → let s' : State W = record s { object = record s.object { finalizers = fs } } in
        (if added then after_update cl u cu s' r else (none, s')).0 ≡ none
        → Held s ((if added then after_update cl u cu s' r else (none, s')).1.calls)
  added-Held true s fs (ok o, w) there was h = persisted (record s.object { finalizers = fs }) there
  added-Held true s fs (err e, w) there was h = ground arith
  added-Held false s fs r there was h = present (was refl)

  ensure_finalizer-Held :
      IsControllerUtil u
      → (s : State W) → (ensure_finalizer cl u cu s).0 ≡ none
      → Held s ((ensure_finalizer cl u cu s).1.calls)
  unfolding ensure_finalizer
  ensure_finalizer-Held laws s h =
      let (fs, added) = u.add_finalizer s.object.finalizers finalizer in
      let o : Object = record s.object { finalizers = fs } in
      added-Held added s fs (cl.update o s.world) (laws.add_there s.object.finalizers finalizer)
        (λ n. ground (arith, laws.add_updates s.object.finalizers finalizer)) h

  added-provisions :
      (added : Bool) (s : State W) (o : Object) (r : Result Object × W)
      → let s' : State W = record s { object = o } in
        provisions ((if added then after_update cl u cu s' r else (none, s')).1.calls)
        ≡ provisions s.calls
  unfolding provisions
  added-provisions true s o (ok o', w) = refl
  added-provisions true s o (err e, w) = refl
  added-provisions false s o r = refl

  ensure_finalizer-provisions :
      (s : State W) → provisions ((ensure_finalizer cl u cu s).1.calls) ≡ provisions s.calls
  unfolding ensure_finalizer
  ensure_finalizer-provisions s =
      let (fs, added) = u.add_finalizer s.object.finalizers finalizer in
      let o : Object = record s.object { finalizers = fs } in
      added-provisions added s o (cl.update o s.world)

  provisions_only_after :
      (p : ManagerProvisioner W) (r : Option GoError × State W)
      → provisions r.1.calls ≡ false
      → provisions ((after_finalizer cl u cu p r).1.calls) ≡ true
      → r.0 ≡ none
  provisions_only_after p (none, s) h k = refl
  provisions_only_after p (some e, s) h k = absurd (false≢true (sym h ∙ k))

  -- With finalizer helpers as documented and from a state in which no call was made: if
  -- reconcileNormal calls Provision, the manager's finalizer was on the object as read, or an
  -- update of an object that carries it was accepted before and was the only call before.
  pub provision_needs_finalizer :
      IsControllerUtil u
      → (p : ManagerProvisioner W) (s : State W) → s.calls ≡ []
      → provisions ((reconcile_normal cl u cu p s).1.calls) ≡ true
      → Held s ((ensure_finalizer cl u cu s).1.calls)
  unfolding reconcile_normal provisions
  provision_needs_finalizer laws p s fresh called = ensure_finalizer-Held laws s (
      provisions_only_after p (ensure_finalizer cl u cu s)
        (ensure_finalizer-provisions s ∙ ap provisions fresh) called)

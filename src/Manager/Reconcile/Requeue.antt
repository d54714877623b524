-- ===== src/Manager/Reconcile/Requeue.antt =====
-- When a reconcile asks to be run again, and which errors it returns.
use uni_core.Base.{
  ◌≡◌, refl, sym, subst, ◌↔◌, inl, inr, Bool, true, false, Option, none, some, if◌then◌else◌, arith,
  Bool-cases,
}
use uni_core.Errors.{GoError, err_yield, is_error, Result, ok, err}
use uni_core.Api.Names.{finalizer}
use uni_core.Api.Object.{Object}
use uni_core.Provisioners.Errors.{is_terminal}
use uni_core.Api.Conditions.{ConditionUtil}
use uni_core.Manager.Client.{Client, ControllerUtil}
use uni_core.Manager.Reconcile.{
  State, ManagerProvisioner, handle_reconcile_condition, normal_outcome, ensure_finalizer,
  reconcile_normal, attempt_deletion, reconcile_delete, call_provision, release_finalizer,
  after_release, after_update, after_finalizer, conclude_delete, done,
}

-- Nothing is left to wait for: success, or an error that is terminal.
unfoldable settled : Option GoError → Bool
settled none = true
settled (some e) = is_terminal e

-- An error that controller-runtime is to back off on.
unfoldable unexpected : Option GoError → Option GoError
unexpected none = none
unexpected (some e) = if is_error e err_yield then none else some e

module _ {ℓ} {W : Type ℓ} (cl : Client W) (u : ControllerUtil) (cu : ConditionUtil) where
  normal_outcome-settled :
      (cerr perr : Option GoError)
      → ((normal_outcome cl u cu cerr perr).requeue_after ≡ 0)
        ↔ ((cerr ≡ none) × (settled perr ≡ true))
  unfolding normal_outcome settled
  normal_outcome-settled (some e) perr = (λ h. ground arith, λ h. ground (arith, h.0))
  normal_outcome-settled none none = (λ h. (refl, refl), λ h. refl)
  normal_outcome-settled none (some e) = elim (Bool-cases (is_terminal e)) [
    | inl t ↦ (λ h. (refl, t), λ h. rw t)
    | inr n ↦ (λ h. ground arith, λ h. ground (arith, h.1))
  ]

  normal_outcome-error :
      (cerr perr : Option GoError) → (normal_outcome cl u cu cerr perr).error ≡ none
  unfolding normal_outcome
  normal_outcome-error (some e) perr = refl
  normal_outcome-error none none = refl
  normal_outcome-error none (some e) = elim (Bool-cases (is_terminal e)) [
    | inl t ↦ rw t
    | inr n ↦ rw n
  ]

  -- reconcileNormal past the finalizer returns no error, and asks for no further run exactly when
  -- the condition was written and the provisioner succeeded or failed terminally.
  normal_requeues :
      (p : ManagerProvisioner W) (s s' : State W)
      → ensure_finalizer cl u cu s ≡ (none, s')
      → let (perr, t) = call_provision cl u cu p s' in
        let (outcome, end) = reconcile_normal cl u cu p s in
        (outcome.error ≡ none)
        × ((outcome.requeue_after ≡ 0) ↔ (
            ((handle_reconcile_condition cl u cu perr false t).0 ≡ none) × (settled perr ≡ true)))
  unfolding reconcile_normal
  normal_requeues p s s' h =
      let (perr, t) = call_provision cl u cu p s' in
      let cerr = (handle_reconcile_condition cl u cu perr false t).0 in
      subst
        (λ r.
          ((after_finalizer cl u cu p r).0.error ≡ none)
          × (((after_finalizer cl u cu p r).0.requeue_after ≡ 0)
              ↔ ((cerr ≡ none) × (settled perr ≡ true))))
        (sym h) (normal_outcome-error cerr perr, normal_outcome-settled cerr perr)

  after_release-error :
      (removed : Bool) (s : State W) (r : Result Object × W)
      → (if removed then after_release cl u cu (after_update cl u cu s r) else (done, s)).0.error
        ≡ none
  after_release-error true s (ok o, w) = refl
  after_release-error true s (err e, w) = refl
  after_release-error false s r = refl

  release-error : (s : State W) → (release_finalizer cl u cu s).0.error ≡ none
  unfolding release_finalizer
  release-error s =
      let (finalizers, removed) = u.remove_finalizer s.object.finalizers finalizer in
      let o : Object = record s.object { finalizers = finalizers } in
      after_release-error removed (record s { object = o }) (cl.update o s.world)

  conclude-error :
      (perr : Option GoError) (s : State W)
      → (conclude_delete cl u cu perr (none, s)).0.error ≡ unexpected perr
  unfolding unexpected
  conclude-error none s = release-error s
  conclude-error (some e) s = elim (Bool-cases (is_error e err_yield)) [
    | inl y ↦ rw y
    | inr n ↦ rw n
  ]

  concluded :
      (perr : Option GoError) (r : Option GoError × State W)
      → r.0 ≡ none
      → (conclude_delete cl u cu perr r).0.error ≡ unexpected perr
  concluded perr (none, s) h = conclude-error perr s
  concluded perr (some e, s) h = ground arith

  -- Once the condition is written, reconcileDelete returns the error of the deletion if it is not
  -- a yield and else none, also when the update that releases the finalizer fails.
  delete_returns :
      (p : ManagerProvisioner W) (s : State W)
      → (let (perr, t) = attempt_deletion cl u cu p s in
          (handle_reconcile_condition cl u cu perr true t).0 ≡ none)
      → (reconcile_delete cl u cu p s).0.error ≡ unexpected (attempt_deletion cl u cu p s).0
  unfolding reconcile_delete
  delete_returns p s =
      let (perr, t) = attempt_deletion cl u cu p s in
      concluded perr (handle_reconcile_condition cl u cu perr true t)

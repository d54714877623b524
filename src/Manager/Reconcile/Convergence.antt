-- ===== src/Manager/Reconcile/Convergence.antt =====
-- How a live resource comes to rest, provisioned, under repeated calls of Reconcile.
use uni_core.Base.{
  ℕ, suc, ◌<◌, String, ◌≡◌, refl, sym, subst, ◌∙◌, inl, inr, Bool, true, false, Option, none, some,
  none-ne-some, List, [], if◌then◌else◌, arith,
}
use uni_core.Errors.{GoError, ok}
use uni_core.Api.Reason
use uni_core.Api.Names.{finalizer}
use uni_core.Api.Object.{Object}
use uni_core.Api.Conditions.{ConditionUtil, IsConditionUtil}
use uni_core.Provisioners.Errors.{is_terminal}
use uni_core.Manager.Client.{Client, ControllerUtil}
use uni_core.Manager.Condition.{Surfaced, phase_1, phase_2}
use uni_core.Manager.Reconcile.{
  Call, State, ManagerProvisioner, handle_reconcile_condition, reconcile, reconcile_normal,
  ensure_finalizer, normal_outcome, after_update, done, provision_and_report, conclude_normal,
  after_finalizer, dispatch, on_read,
}
use uni_core.Manager.Reconcile.Surface.{Displays}
use uni_core.Manager.Reconcile.Dispatch.{IsActive}
use uni_core.Manager.Reconcile.Runs.{Stepped, rested, requeued, Converges, within-Converges}
use uni_core.Manager.Reconcile.Accepting.{IsAccepting, Ran, Shown, Handled, final, surface-Handled}

-- What is shown of a resource that is provisioned.
abbrev pub succeeded : Surfaced
succeeded = record { status = "True"; reason = Reason.provisioned; message = "provisioned" }

abbrev pub IsTransient : GoError → Type 0
IsTransient e = is_terminal e ≡ false

module _ {ℓ} {W : Type ℓ} (stored : W → Object) (remaining : W → ℕ) (cl : Client W)
    (u : ControllerUtil) (cu : ConditionUtil) where
  -- The server stores the resource as provisioned.
  abbrev pub IsAtRest : State W → Type 0
  IsAtRest s = Displays cu (stored s.world) succeeded

  abbrev WasHandled : ℕ → Option Surfaced → Option GoError × State W → Type ℓ
  WasHandled = Handled stored remaining IsActive cl u cu (λ o cs a. a)

  conclude-rested :
      (n m : ℕ) (r : Option GoError × State W)
      → WasHandled m (some succeeded) r
      → Stepped stored remaining IsActive IsAtRest n (conclude_normal cl u cu none r)
  unfolding Shown normal_outcome
  conclude-rested n m (none, s) h = rested refl h.is_shown
  conclude-rested n m (some e, s) h = absurd (none-ne-some _ (sym h.no_error))

  conclude-requeued :
      (n m : ℕ) (e : GoError) (f : Option Surfaced) (r : Option GoError × State W)
      → IsTransient e
      → m < n
      → WasHandled m f r
      → Stepped stored remaining IsActive IsAtRest n (conclude_normal cl u cu (some e) r)
  unfolding normal_outcome
  conclude-requeued n m e f (none, s) t lt h =
      requeued (rw t) h.stored_handled (subst (λ k. k < n) (sym h.work) lt)
  conclude-requeued n m e f (some e', s) t lt h = absurd (none-ne-some _ (sym h.no_error))

  module _ (request : String) (accepting : IsAccepting stored remaining IsActive cl request)
      (laws : IsConditionUtil cu) where
    report-Stepped :
        (o : Object) (w : W) (calls : List Call) (r : Option GoError × (Object × W))
        → Ran stored remaining IsActive IsTransient o w r
        → IsActive o
        → IsActive (stored w)
        → (n : ℕ) → remaining w ≡ n
        → Stepped stored remaining IsActive IsAtRest n (
            (provision_and_report cl u cu
              (r.0, record { object = r.1.0; world = r.1.1; calls = calls })))
    unfolding handle_reconcile_condition phase_1 phase_2
    report-Stepped o w calls r ran a b n same = elim ran.progress [
      | inl z ↦ subst Concluded (sym z) (
          conclude-rested n (remaining r.1.1) (handle_reconcile_condition cl u cu none false after)
            (handled none))
      | inr (e, z, t, lt) ↦ subst Concluded (sym z) (
          conclude-requeued n (remaining r.1.1) e (final (some e) (phase_1 (some e) false))
            (handle_reconcile_condition cl u cu (some e) false after) t
            (subst (λ k. remaining r.1.1 < k) same lt) (handled (some e)))
    ]
      where
        after : State W
        after = record { object = r.1.0; world = r.1.1; calls = calls }

        Concluded : Option GoError → Type ℓ
        Concluded perr =
            Stepped stored remaining IsActive IsAtRest n
              (provision_and_report cl u cu (perr, after))

        handled :
            (perr : Option GoError)
            → WasHandled
                (remaining r.1.1)
                (final perr (phase_1 perr false))
                (handle_reconcile_condition cl u cu perr false after)
        handled perr =
            surface-Handled stored remaining IsActive cl u cu (λ o' cs h. h) request accepting laws
              perr (phase_1 perr false) after (ran.object_stays a) (ran.stored_stays b)

    module _ (p : ManagerProvisioner W)
        (progressing : (o : Object) (w : W)
          → IsActive (stored w)
          → Ran stored remaining IsActive IsTransient o w (p.provision o w)) where
      abbrev NormallyStepped : ℕ → Option GoError × State W → Type ℓ
      NormallyStepped n r =
          Stepped stored remaining IsActive IsAtRest n (after_finalizer cl u cu p r)

      provision-Stepped :
          (n : ℕ) (s : State W)
          → IsActive s.object
          → IsActive (stored s.world)
          → remaining s.world ≡ n
          → NormallyStepped n (none, s)
      provision-Stepped n s a b same =
          report-Stepped s.object s.world _ (p.provision s.object s.world)
            (progressing s.object s.world b) a b n same

      ensured-Stepped :
          (n : ℕ) (added : Bool) (s : State W)
          → IsActive s.object
          → IsActive (stored s.world)
          → remaining s.world ≡ n
          → NormallyStepped n
              (if added then after_update cl u cu s (cl.update s.object s.world) else (none, s))
      ensured-Stepped n false s a b same = provision-Stepped n s a b same
      ensured-Stepped n true s a b same =
          let wr = accepting.update_written s.object s.world in
          subst (λ r. NormallyStepped n (after_update cl u cu s r)) (sym wr.is_written)
            (provision-Stepped n (after_update cl u cu s (ok wr.given, wr.next)).1 (wr.stays a b)
              (subst IsActive (sym wr.is_stored) (wr.stays a b)) (wr.same_work ∙ same))

      dispatch-Stepped :
          (n : ℕ) (deleted : Option ℕ) (s : State W)
          → deleted ≡ none
          → IsActive s.object
          → IsActive (stored s.world)
          → remaining s.world ≡ n
          → Stepped stored remaining IsActive IsAtRest n (dispatch cl u cu p deleted s)
      unfolding reconcile_normal ensure_finalizer
      dispatch-Stepped n (some t) s live a b same = absurd (none-ne-some _ (sym live))
      dispatch-Stepped n none s live a b same =
          let (finalizers, added) = u.add_finalizer s.object.finalizers finalizer in
          let s' : State W = record s { object = record s.object { finalizers = finalizers } } in
          subst
            (λ paused.
              Stepped stored remaining IsActive IsAtRest n
                (if paused then (done, s) else reconcile_normal cl u cu p s))
            (sym a.1) (ensured-Stepped n added s' a b same)

      reconcile-Stepped :
          (blank : Object) (w : W)
          → IsActive (stored w)
          → Stepped stored remaining IsActive IsAtRest
              (remaining w)
              (reconcile cl u cu "argocd" p blank request w)
      unfolding reconcile
      reconcile-Stepped blank w a =
          let s : State W = record { object = stored w; world = w; calls = [] } in
          subst
            (λ r.
              Stepped stored remaining IsActive IsAtRest (remaining w) (on_read cl u cu p blank r))
            (sym (accepting.get_stored w))
            (dispatch-Stepped (remaining w) (stored w).deletion_timestamp s a.0 a a refl)

      -- With the Argo CD driver configured, the conditions package as documented, a server that
      -- accepts every call on an object that nobody else writes, and a provisioner that on a
      -- resource that is neither deleted nor paused keeps it so and returns nil, or an error that
      -- is not terminal and then leaves less to do: on such a resource, Reconcile asks for its
      -- next call at most as often as there was work to do, then ends without an error, and the
      -- stored resource is shown as provisioned.
      pub reconcile-Converges :
          (blank : Object) (w : W)
          → IsActive (stored w)
          → Converges cl u cu p blank request stored remaining IsActive IsAtRest
              (suc (remaining w))
              w
      reconcile-Converges blank w a =
          within-Converges cl u cu p blank request stored remaining IsActive IsAtRest
            (reconcile-Stepped blank) (suc (remaining w)) w a (omega arith)

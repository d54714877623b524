-- ===== src/Manager/Reconcile/Release.antt =====
-- What a deletion comes to: an accepted update of the object without the manager's finalizer.
use uni_core.Base.{
  ℕ, String, ◌≡◌, refl, sym, subst, ◌∙◌, Bool, true, false, false≢true, some, List, ◌∷◌, is_empty,
  contains, if◌then◌else◌,
}
use uni_core.Api.Names.{finalizer, finalizer_delete_dependents}
use uni_core.Api.Object.{Condition, Object}
use uni_core.Api.Conditions.{ConditionUtil}
use uni_core.Manager.Client.{Client, ControllerUtil, IsControllerUtil}
use uni_core.Manager.Reference.{get_resource_references}
use uni_core.Manager.Reconcile.{
  Call, updated, State, Outcome, release_finalizer, after_update, after_release, done,
}
use uni_core.Manager.Reconcile.Runs.{Stepped, rested}
use uni_core.Manager.Reconcile.Accepting.{IsAccepting}

-- The object is being deleted, the manager's finalizer is on it, no reference is left and no
-- foreground deletion of dependents is under way.
pub record IsDeleting (o : Object) : Type 0 where
  pub deleted : ℕ
  pub is_deleted : o.deletion_timestamp ≡ some deleted
  pub is_finalized : contains o.finalizers finalizer ≡ true
  pub unreferenced : is_empty (get_resource_references o) ≡ true
  pub no_dependents : contains o.finalizers finalizer_delete_dependents ≡ false

pub sets-IsDeleting :
    (o : Object) (cs : List Condition) → IsDeleting o → IsDeleting (record o { conditions = cs })
unfolding get_resource_references
sets-IsDeleting o cs d = record {
  deleted = d.deleted;
  is_deleted = d.is_deleted;
  is_finalized = d.is_finalized;
  unreferenced = d.unreferenced;
  no_dependents = d.no_dependents;
}

-- The last call was an accepted update of an object without the manager's finalizer.
pub record IsReleased (calls : List Call) : Type 0 where
  pub sent : Object
  pub before : List Call
  pub is_last : calls ≡ updated sent true ∷ before
  pub is_free : contains sent.finalizers finalizer ≡ false

module _ {ℓ} {W : Type ℓ} (stored : W → Object) (remaining : W → ℕ) (cl : Client W)
    (u : ControllerUtil) (cu : ConditionUtil) where
  -- Where a call of Reconcile on the resource leaves it.
  abbrev pub Deleting : ℕ → Outcome × State W → Type ℓ
  Deleting n r = Stepped stored remaining IsDeleting (λ s. IsReleased s.calls) n r

  module _ (util : IsControllerUtil u) (request : String)
      (accepting : IsAccepting stored remaining IsDeleting cl request) where
    released-Deleting :
        (n : ℕ) (removed : Bool) (s : State W)
        → removed ≡ true
        → contains s.object.finalizers finalizer ≡ false
        → Deleting n (
            if removed
            then after_release cl u cu (after_update cl u cu s (cl.update s.object s.world))
            else (done, s))
    released-Deleting n false s h free = absurd (false≢true h)
    released-Deleting n true s h free =
        let wr = accepting.update_written s.object s.world in
        subst (λ r. Deleting n (after_release cl u cu (after_update cl u cu s r)))
          (sym wr.is_written)
          (rested refl
            (record { sent = s.object; before = s.calls; is_last = refl; is_free = free }))

    -- An accepting server lets the finalizer be released.
    pub release-Deleting :
        (n : ℕ) (s : State W)
        → contains s.object.finalizers finalizer ≡ true
        → Deleting n (release_finalizer cl u cu s)
    unfolding release_finalizer
    release-Deleting n s h =
        let (finalizers, removed) = u.remove_finalizer s.object.finalizers finalizer in
        released-Deleting n removed
          (record s { object = record s.object { finalizers = finalizers } })
          (util.remove_updates s.object.finalizers finalizer ∙ h)
          (util.remove_gone s.object.finalizers finalizer)

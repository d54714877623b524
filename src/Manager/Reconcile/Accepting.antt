-- ===== src/Manager/Reconcile/Accepting.antt =====
-- A cluster that answers every call of the reconciler, and what handleReconcileCondition leaves in it.
-- `stored` is the object that the server has, and `remaining` measures the work of the provisioner.
use uni_core.Base.{
  ℕ, ◌<◌, String, ◌≡◌, refl, sym, subst, ap, ◌∙◌, ◌⊎◌, Bool, true, false, Option, none, some, List,
}
use Prim.{Unit}
use uni_core.Errors.{GoError, Result, ok}
use uni_core.Api.Object.{Condition, Object}
use uni_core.Api.Conditions.{
  ConditionUtil, IsConditionUtil, condition_available, narrow, or_lookup_error,
  get_available_condition, set_provisioning_condition,
}
use uni_core.Manager.Client.{Client, ControllerUtil}
use uni_core.Manager.Condition.{Surfaced, phase_2, changed}
use uni_core.Manager.Reconcile.{State, after_status_update, emit_if, surface}
use uni_core.Manager.Reconcile.Surface.{Displays, displays}

-- What phase 2 makes of the state of phase 1, if there is one.
abbrev pub final : Option GoError → Option Surfaced → Option Surfaced
final perr none = none
final perr (some f) = some (phase_2 perr f)

module _ {ℓ} {W : Type ℓ} (stored : W → Object) (remaining : W → ℕ) (Stays : Object → Type 0) where
  -- A write that the server accepts: it stores the object that it gives back, which stays as
  -- wanted if what was sent and what was stored are, and the work that remains is as it was.
  pub record Written (o : Object) (w : W) (r : Result Object × W) : Type ℓ where
    pub given : Object
    pub next : W
    pub is_written : r ≡ (ok given, next)
    pub is_stored : stored next ≡ given
    pub stays : Stays o → Stays (stored w) → Stays given
    pub same_work : remaining next ≡ remaining w

  -- A server that accepts every call, where nobody else writes the object.
  pub record IsAccepting (cl : Client W) (request : String) : Type ℓ where
    pub get_stored : (w : W) → cl.get request w ≡ (ok (stored w), w)
    pub update_written : (o : Object) (w : W) → Written o w (cl.update o w)
    pub status_written : (o : Object) (w : W) → Written o w (cl.status_update o w)
    pub status_conditions :
        (o : Object) (w : W) → (status_written o w).given.conditions ≡ o.conditions

  -- A run of a provisioner returns nil, or an error to wait for, and then less remains to be done.
  pub record Ran (Waits : GoError → Type 0) (o : Object) (w : W) (r : Option GoError × (Object × W))
      : Type ℓ where
    pub object_stays : Stays o → Stays r.1.0
    pub stored_stays : Stays (stored w) → Stays (stored r.1.1)
    pub progress :
        (r.0 ≡ none) ⊎ ((e : GoError) × (r.0 ≡ some e) × Waits e × (remaining r.1.1 < remaining w))

  module _ (cl : Client W) (u : ControllerUtil) (cu : ConditionUtil)
      (sets : (o : Object) (cs : List Condition)
        → Stays o
        → Stays (record o { conditions = cs })) where
    unfoldable pub Shown : Option Surfaced → Object → Type 0
    Shown none o = Unit
    Shown (some f) o = Displays cu o f

    -- The condition was written without an error, if there was one to write.
    pub record Handled (n : ℕ) (f : Option Surfaced) (r : Option GoError × State W) : Type ℓ where
      pub no_error : r.0 ≡ none
      pub object_handled : Stays r.1.object
      pub stored_handled : Stays (stored r.1.world)
      pub work : remaining r.1.world ≡ n
      pub is_shown : Shown f (stored r.1.world)

    transfer-Displays :
        (o o' : Object) (g : Surfaced)
        → o'.conditions ≡ o.conditions
        → Displays cu o g
        → Displays cu o' g
    unfolding get_available_condition
    transfer-Displays o o' g h d = record {
      condition = d.condition;
      is_found =
          ap (λ cs. narrow cu (or_lookup_error cu (cu.find cs condition_available))) h ∙ d.is_found;
      displays_status = d.displays_status;
      displays_reason = d.displays_reason;
      displays_message = d.displays_message;
    }

    set_condition-Stays :
        (o : Object) (g : Surfaced)
        → Stays o
        → Stays (set_provisioning_condition cu o g.status g.reason g.message)
    unfolding set_provisioning_condition
    set_condition-Stays o g a = sets o _ a

    emit_if-Handled :
        (n : ℕ) (f : Option Surfaced) (edge : Bool) (g : Surfaced) (s : State W)
        → Handled n f (none, s)
        → Handled n f (emit_if cl u cu edge g (none, s))
    emit_if-Handled n f true g s h = record {
      no_error = refl;
      object_handled = h.object_handled;
      stored_handled = h.stored_handled;
      work = h.work;
      is_shown = h.is_shown;
    }
    emit_if-Handled n f false g s h = h

    written-Handled :
        (edge : Bool) (g : Surfaced) (o : Object) (s : State W) (r : Result Object × W)
        (wr : Written o s.world r)
        → Stays wr.given
        → wr.given.conditions ≡ o.conditions
        → Displays cu o g
        → Handled
            (remaining s.world)
            (some g)
            (emit_if cl u cu edge g (after_status_update cl u cu s r))
    unfolding Shown
    written-Handled edge g o s r wr a c d =
        let t : State W = (after_status_update cl u cu s (ok wr.given, wr.next)).1 in
        subst
          (λ r'.
            Handled (remaining s.world) (some g)
              (emit_if cl u cu edge g (after_status_update cl u cu s r')))
          (sym wr.is_written)
          (emit_if-Handled (remaining s.world) (some g) edge g t (record {
            no_error = refl;
            object_handled = a;
            stored_handled = subst Stays (sym wr.is_stored) a;
            work = wr.same_work;
            is_shown =
                subst (λ o'. Displays cu o' g) (sym wr.is_stored)
                  (transfer-Displays o wr.given g c d);
          }))

    -- On an accepting server the surfaced state is written without an error, and stored.
    pub surface-Handled :
        (request : String)
        → IsAccepting cl request
        → IsConditionUtil cu
        → (perr : Option GoError) (f : Option Surfaced) (s : State W) → Stays s.object
        → Stays (stored s.world)
        → Handled (remaining s.world) (final perr f) (surface cl u cu f perr s)
    unfolding Shown
    surface-Handled request accepting laws perr none s a b = record {
      no_error = refl;
      object_handled = a;
      stored_handled = b;
      work = refl;
      is_shown = record {};
    }
    surface-Handled request accepting laws perr (some f) s a b =
        let g : Surfaced = phase_2 perr f in
        let o : Object = set_provisioning_condition cu s.object g.status g.reason g.message in
        let wr = accepting.status_written o s.world in
        written-Handled (changed (get_available_condition cu s.object) g) g o
          (record s { object = o }) (cl.status_update o s.world) wr
          (wr.stays (set_condition-Stays s.object g a) b) (accepting.status_conditions o s.world)
          (displays cu laws s.object g)

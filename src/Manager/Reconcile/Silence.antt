-- ===== src/Manager/Reconcile/Silence.antt =====
-- pkg/manager/reconcile.go: the provisioning log when an outcome is handled again.
use uni_core.Base.{
  ◌≡◌, refl, subst, sym, ◌∙◌, ap, Bool, true, false, Option, none, some, List, [], ◌∷◌, eq_iff,
  arith,
}
use uni_core.Errors.{GoError, Result, ok, err}
use uni_core.Api.Object.{Object}
use uni_core.Api.Conditions.{
  ConditionUtil, IsConditionUtil, get_available_condition, set_provisioning_condition,
}
use uni_core.Manager.Client.{Client, ControllerUtil}
use uni_core.Manager.Condition.{Surfaced, phase_1, phase_2, changed}
use uni_core.Manager.Reconcile.Surface.{Displays, displays}
use uni_core.Manager.Reconcile.{
  Call, updated, status_updated, provisioned, deprovisioned, emitted, State, surface, emit_if,
  after_status_update, handle_reconcile_condition,
}

-- The lines of the provisioning log among the calls.
unfoldable pub log_lines : List Call → List Call
log_lines [] = []
log_lines (emitted status reason message ∷ calls) = emitted status reason message ∷ log_lines calls
log_lines (updated o accepted ∷ calls) = log_lines calls
log_lines (status_updated o accepted ∷ calls) = log_lines calls
log_lines (provisioned e ∷ calls) = log_lines calls
log_lines (deprovisioned e ∷ calls) = log_lines calls

displayed-unchanged :
    (cu : ConditionUtil) (o : Object) (g : Surfaced)
    → Displays cu o g
    → changed (get_available_condition cu o) g ≡ false
unfolding changed
displayed-unchanged cu o g d =
    subst (λ r. changed r g ≡ false) (sym d.is_found)
      (ground (
        arith,
        d.displays_status,
        d.displays_reason,
        d.displays_message,
        eq_iff d.condition.status g.status,
        eq_iff d.condition.reason g.reason,
        eq_iff d.condition.message g.message,
      ))

available-conditions :
    (cu : ConditionUtil) (o o' : Object)
    → o.conditions ≡ o'.conditions
    → get_available_condition cu o ≡ get_available_condition cu o'
unfolding get_available_condition
available-conditions cu o o' h = rw h

module _ {ℓ} {W : Type ℓ} (cl : Client W) (u : ControllerUtil) (cu : ConditionUtil) where
  silent-emit_if :
      (g : Surfaced) (s : State W) (r : Result Object × W)
      → log_lines ((emit_if cl u cu false g (after_status_update cl u cu s r)).1.calls)
        ≡ log_lines s.calls
  unfolding log_lines
  silent-emit_if g s (ok o, w) = refl
  silent-emit_if g s (err e, w) = refl

  -- The object that the state holds after an accepted status update displays what was sent.
  displays-emit_if :
      (g : Surfaced) (edge : Bool) (s : State W) (o : Object) (r : Result Object × W)
      → ((o' : Object) (w : W) → r ≡ (ok o', w) → o'.conditions ≡ o.conditions)
      → (emit_if cl u cu edge g (after_status_update cl u cu s r)).0 ≡ none
      → ((emit_if cl u cu edge g (after_status_update cl u cu s r)).1.object.conditions)
        ≡ o.conditions
  displays-emit_if g true s o (ok o', w) keeps h = keeps o' w refl
  displays-emit_if g false s o (ok o', w) keeps h = keeps o' w refl
  displays-emit_if g edge s o (err e, w) keeps h = ground arith

  surface-silent :
      IsConditionUtil cu
      → (perr : Option GoError) (f : Option Surfaced) (s s' : State W)
      → ((o o' : Object) (w w' : W)
          → cl.status_update o w ≡ (ok o', w')
          → o'.conditions ≡ o.conditions)
      → (surface cl u cu f perr s).0 ≡ none
      → s'.object.conditions ≡ (surface cl u cu f perr s).1.object.conditions
      → log_lines ((surface cl u cu f perr s').1.calls) ≡ log_lines s'.calls
  surface-silent laws perr none s s' keeps h same = refl
  surface-silent laws perr (some f) s s' keeps h same =
      let g : Surfaced = phase_2 perr f in
      let o : Object = set_provisioning_condition cu s.object g.status g.reason g.message in
      let o2 : Object = set_provisioning_condition cu s'.object g.status g.reason g.message in
      let d : Displays cu o g = displays cu laws s.object g in
      let now : s'.object.conditions ≡ o.conditions =
        same
        ∙ displays-emit_if g (changed (get_available_condition cu s.object) g)
            (record s { object = o }) o (cl.status_update o s.world)
            (λ o' w'. keeps o o' s.world w') h in
      let same_edge : changed (get_available_condition cu s'.object) g ≡ false =
        ap (λ r. changed r g) (available-conditions cu s'.object o now)
        ∙ displayed-unchanged cu o g d in
      subst
        (λ edge.
          log_lines (
            (emit_if cl u cu edge g (
              after_status_update cl u cu (record s' { object = o2 })
                (cl.status_update o2 s'.world))).1.calls)
          ≡ log_lines s'.calls)
        (sym same_edge)
        (silent-emit_if g (record s' { object = o2 }) (cl.status_update o2 s'.world))

  -- With the conditions package as documented: if status updates give back the conditions that
  -- they were sent and handling an outcome returned no error, handling it again on an object with
  -- the conditions that it left adds no line to the provisioning log.
  pub second_handling_is_silent :
      IsConditionUtil cu
      → (perr : Option GoError) (deprovision : Bool) (s s' : State W)
      → ((o o' : Object) (w w' : W)
          → cl.status_update o w ≡ (ok o', w')
          → o'.conditions ≡ o.conditions)
      → (handle_reconcile_condition cl u cu perr deprovision s).0 ≡ none
      → s'.object.conditions
        ≡ (handle_reconcile_condition cl u cu perr deprovision s).1.object.conditions
      → log_lines ((handle_reconcile_condition cl u cu perr deprovision s').1.calls)
        ≡ log_lines s'.calls
  unfolding handle_reconcile_condition
  second_handling_is_silent laws perr deprovision s s' keeps h same =
      surface-silent laws perr (phase_1 perr deprovision) s s' keeps h same

-- ===== src/Manager/Reconcile/Surface.antt =====
-- What a reconcile shows to users, and when it writes to the provisioning log.
use uni_core.Base.{
  String, ◌≡◌, refl, subst, ap, ◌⊎◌, inl, inr, Bool, true, false, Option, none, some, List, [], ◌∷◌,
  contains, if◌then◌else◌,
}
use Prim.{Unit}
use uni_core.Errors.{
  GoError, err_yield, canceled, ProvisioningError, is_error, as_provisioning, Result, ok, err,
}
use uni_core.Api.Object.{Condition, Object}
use uni_core.Api.Conditions.{
  NewCondition, ConditionUtil, IsConditionUtil, condition_available, or_lookup_error, narrow,
  get_available_condition, set_provisioning_condition,
}
use uni_core.Manager.Client.{Client, ControllerUtil}
use uni_core.Manager.Condition.{Surfaced, phase_1, phase_2, enrich_by, changed}
use uni_core.Manager.Reconcile.{
  Call, status_updated, emitted, State, surface, emit_if, after_status_update,
  handle_reconcile_condition,
}

-- The messages that the reconciler itself writes.
abbrev pub own_messages : List String
own_messages =
    "provisioned" ∷ "deprovisioned" ∷ "provisioning" ∷ "deprovisioning"
    ∷ "an unexpected error occurred" ∷ []

-- The reason and message are those of the typed error in the chain of `perr`.
pub record FromTyped (perr : Option GoError) (g : Surfaced) : Type 0 where
  pub raw : GoError
  pub typed : ProvisioningError
  pub is_raw : perr ≡ some raw
  pub in_chain : as_provisioning raw ≡ some typed
  pub same_reason : g.reason ≡ typed.reason
  pub same_message : g.message ≡ typed.message

unfoldable Own : Option Surfaced → Type 0
Own none = Unit
Own (some f) = contains own_messages f.message ≡ true

Own-if : (b : Bool) (x y : Option Surfaced) → Own x → Own y → Own (if b then x else y)
Own-if true x y h k = h
Own-if false x y h k = k

phase_1-Own : (perr : Option GoError) (deprovision : Bool) → Own (phase_1 perr deprovision)
unfolding phase_1 contains Own
phase_1-Own none true = refl
phase_1-Own none false = refl
phase_1-Own (some e) true =
    Own-if (is_error e err_yield) _ _ refl (Own-if (is_error e canceled) _ _ (record {}) refl)
phase_1-Own (some e) false =
    Own-if (is_error e err_yield) _ _ refl (Own-if (is_error e canceled) _ _ (record {}) refl)

own_of_phase_1 :
    (perr : Option GoError) (deprovision : Bool) (f : Surfaced)
    → phase_1 perr deprovision ≡ some f
    → contains own_messages f.message ≡ true
unfolding Own
own_of_phase_1 perr deprovision f h = subst Own h (phase_1-Own perr deprovision)

-- What is surfaced is the reconciler's own text, or the reason and message of a typed error.
abbrev pub Disclosed : Option GoError → Surfaced → Type 0
Disclosed perr g = (contains own_messages g.message ≡ true) ⊎ FromTyped perr g

enrich-Disclosed :
    (e : GoError) (o : Option ProvisioningError) (f : Surfaced)
    → as_provisioning e ≡ o
    → contains own_messages f.message ≡ true
    → Disclosed (some e) (enrich_by o f)
enrich-Disclosed e none f h own = inl own
enrich-Disclosed e (some p) f h own = inr (record {
  raw = e;
  typed = p;
  is_raw = refl;
  in_chain = h;
  same_reason = refl;
  same_message = refl;
})

phase_2-Disclosed :
    (perr : Option GoError) (f : Surfaced)
    → contains own_messages f.message ≡ true
    → Disclosed perr (phase_2 perr f)
unfolding phase_2
phase_2-Disclosed none f own = inl own
phase_2-Disclosed (some e) f own = enrich-Disclosed e (as_provisioning e) f refl own

-- The object's Available condition is `g`.
pub record Displays (cu : ConditionUtil) (o : Object) (g : Surfaced) : Type 0 where
  pub condition : Condition
  pub is_found : get_available_condition cu o ≡ ok condition
  pub displays_status : condition.status ≡ g.status
  pub displays_reason : condition.reason ≡ g.reason
  pub displays_message : condition.message ≡ g.message

pub displays :
    (cu : ConditionUtil)
    → IsConditionUtil cu
    → (o : Object) (g : Surfaced)
    → Displays cu (set_provisioning_condition cu o g.status g.reason g.message) g
unfolding set_provisioning_condition get_available_condition
displays cu laws o g =
    let n : NewCondition = record {
      condition_type = condition_available;
      status = g.status;
      reason = g.reason;
      message = g.message;
    } in
    let (c, found, shows) = laws.find-set o.conditions n in
    record {
      condition = c;
      is_found = ap (λ r. narrow cu (or_lookup_error cu r)) found;
      displays_status = shows.shows_status;
      displays_reason = shows.shows_reason;
      displays_message = shows.shows_message;
    }

-- What the handling of an error adds to the calls: nothing, a status update, or that and a log line.
-- Both carry the same disclosed condition.
pub data Report (cu : ConditionUtil) (perr : Option GoError) (before : List Call)
    : List Call → Type 0 where
  nothing : Report cu perr before before
  quiet :
      (o : Object) (g : Surfaced) (accepted : Bool)
      → Displays cu o g
      → Disclosed perr g
      → Report cu perr before (status_updated o accepted ∷ before)
  logged :
      (o : Object) (g : Surfaced)
      → Displays cu o g
      → Disclosed perr g
      → Report cu perr before (emitted g.status g.reason g.message ∷ status_updated o true ∷ before)

module _ {ℓ} {W : Type ℓ} (cl : Client W) (u : ControllerUtil) (cu : ConditionUtil) where
  emit_if-Report :
      (perr : Option GoError) (s : State W) (o : Object) (g : Surfaced) (edge : Bool)
      (r : Result Object × W)
      → Displays cu o g
      → Disclosed perr g
      → Report cu perr s.calls (
          (emit_if cl u cu edge g
            (after_status_update cl u cu (record s { object = o }) r)).1.calls)
  emit_if-Report perr s o g true (ok o', w) d h = logged o g d h
  emit_if-Report perr s o g false (ok o', w) d h = quiet o g true d h
  emit_if-Report perr s o g edge (err e, w) d h = quiet o g false d h

  surface-Report :
      IsConditionUtil cu
      → (perr : Option GoError) (deprovision : Bool) (f : Option Surfaced) (s : State W)
      → phase_1 perr deprovision ≡ f
      → Report cu perr s.calls ((surface cl u cu f perr s).1.calls)
  surface-Report laws perr deprovision none s h = nothing
  surface-Report laws perr deprovision (some f) s h =
      let g = phase_2 perr f in
      let o = set_provisioning_condition cu s.object g.status g.reason g.message in
      emit_if-Report perr s o g (changed (get_available_condition cu s.object) g)
        (cl.status_update o s.world) (displays cu laws s.object g)
        (phase_2-Disclosed perr f (own_of_phase_1 perr deprovision f h))

  -- With the conditions package as documented, handleReconcileCondition makes no call, or one
  -- status update of an object whose Available condition has one of the reconciler's own messages
  -- or the reason and message of the typed error in the chain; a log line follows only an accepted
  -- update and has the same condition.
  pub handle_discloses :
      IsConditionUtil cu
      → (perr : Option GoError) (deprovision : Bool) (s : State W)
      → Report cu perr s.calls ((handle_reconcile_condition cl u cu perr deprovision s).1.calls)
  unfolding handle_reconcile_condition
  handle_discloses laws perr deprovision s =
      surface-Report laws perr deprovision (phase_1 perr deprovision) s refl

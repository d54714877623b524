-- ===== src/Server/Conversion/Status.antt =====
-- What the API shows of what the manager wrote.
use uni_core.Base.{
  String, ◌≡◌, refl, ap, subst, ◌∙◌, Bool, true, false, Option, none, some, if◌then◌else◌,
}
use Prim.{Unit}
use uni_core.Errors.{GoError, ProvisioningError, err_yield, canceled, is_error, as_provisioning}
use uni_core.Api.Reason
use uni_core.Api.Object.{Object}
use uni_core.Api.Conditions.{ConditionUtil, get_available_condition}
use uni_core.Provisioners.Errors.{
  Described, as_error, dependency_not_ready, dependency_failed, dependency_not_found, terminal,
  yield, new_error,
}
use uni_core.Manager.Condition.{Surfaced, phase_1, phase_2, enrich_by}
use uni_core.Manager.Reconcile.Surface.{Displays}
use uni_core.Server.Conversion.{
  ResourceProvisioningStatus, provisioned, provisioning, error, status_of_reason,
  convert_status_condition, convert_provisioning_status_detail,
}

displayed_status :
    (cu : ConditionUtil) (o : Object) (g : Surfaced)
    → o.deletion_timestamp ≡ none
    → Displays cu o g
    → convert_status_condition cu true o ≡ status_of_reason g.reason
unfolding convert_status_condition get_available_condition
displayed_status cu o g live d = rw (live, d.is_found) (ap status_of_reason d.displays_reason)

-- The status that a reconcile's outcome asks for, by the outcome alone.
unfoldable pub expected_status : Option GoError → ResourceProvisioningStatus
expected_status none = provisioned
expected_status (some e) = elim (as_provisioning e) [
  | some p ↦ status_of_reason p.reason
  | none ↦ if is_error e err_yield then provisioning else error
]

abbrev IsProvisioned : Option Surfaced → Type 0
IsProvisioned none = Unit
IsProvisioned (some f) = status_of_reason f.reason ≡ provisioned

-- The reason that phase 1 gives, read as a status, where `y` says whether the error is a yield.
abbrev Reads : Bool → Option Surfaced → Type 0
Reads y none = Unit
Reads y (some f) = status_of_reason f.reason ≡ (if y then provisioning else error)

phase_1-Reads : (e : GoError) → Reads (is_error e err_yield) (phase_1 (some e) false)
unfolding phase_1 status_of_reason
phase_1-Reads e = by_disposition (is_error e err_yield) (is_error e canceled)
  where
    by_disposition :
        (y c : Bool)
        → Reads y (
            if y
            then some
                (record { status = "False"; reason = Reason.in_progress; message = "provisioning" })
            else if c
            then none
            else some (record {
              status = "False";
              reason = Reason.errored;
              message = "an unexpected error occurred";
            }))
    by_disposition true c = refl
    by_disposition false true = record {}
    by_disposition false false = refl

enriched_status :
    (y : Bool) (o : Option ProvisioningError) (f : Surfaced)
    → status_of_reason f.reason ≡ (if y then provisioning else error)
    → status_of_reason (enrich_by o f).reason
      ≡ elim o [ some p ↦ status_of_reason p.reason | none ↦ if y then provisioning else error ]
enriched_status y none f h = h
enriched_status y (some p) f h = refl

provisioned_status :
    (f : Surfaced) → phase_1 none false ≡ some f → status_of_reason f.reason ≡ provisioned
provisioned_status f h = subst IsProvisioned h (unfold phase_1 status_of_reason in refl)

surfaced_status :
    (perr : Option GoError) (f : Surfaced)
    → phase_1 perr false ≡ some f
    → status_of_reason (phase_2 perr f).reason ≡ expected_status perr
unfolding phase_2 expected_status
surfaced_status none f h = provisioned_status f h
surfaced_status (some e) f h =
    enriched_status (is_error e err_yield) (as_provisioning e) f
      (subst (Reads (is_error e err_yield)) h (phase_1-Reads e))

-- When the condition that a reconcile of a live resource surfaces is displayed, the API shows
-- provisioned for success, provisioning for a yield and error for another error, or the status of
-- the typed error's reason, with the surfaced reason and message as the detail.
pub shown_status :
    (cu : ConditionUtil) (o : Object) (perr : Option GoError) (f : Surfaced)
    → o.deletion_timestamp ≡ none
    → phase_1 perr false ≡ some f
    → Displays cu o (phase_2 perr f)
    → (convert_status_condition cu true o ≡ expected_status perr)
      × (convert_provisioning_status_detail cu true o
          ≡ some (record { reason = (phase_2 perr f).reason; message = (phase_2 perr f).message }))
unfolding convert_provisioning_status_detail
shown_status cu o perr f live h d = (
  displayed_status cu o (phase_2 perr f) live d ∙ surfaced_status perr f h,
  rw (d.is_found, d.displays_reason, d.displays_message),
)

-- A dependency that does not exist projects to the API status error; one that is not ready or has
-- failed projects to provisioning.
pub dependency_status :
    (quote : String → String) (o : Described)
    → (expected_status (some (as_error (dependency_not_found quote o))) ≡ error)
      × ((expected_status (some (as_error (dependency_not_ready quote o))) ≡ provisioning)
          × (expected_status (some (as_error (dependency_failed quote o))) ≡ provisioning))
unfolding expected_status as_provisioning status_of_reason dependency_not_found dependency_not_ready
    dependency_failed terminal yield new_error
dependency_status quote o = (refl, (refl, refl))

-- ===== src/Manager/Condition.antt =====
-- pkg/manager/reconcile.go: what handleReconcileCondition writes onto the Available condition.
use uni_core.Base.{String, Bool, true, not, ◌||◌, Option, none, some, ◌==◌, if◌then◌else◌}
use uni_core.Errors.{
  GoError, err_yield, canceled, ProvisioningError, is_error, as_provisioning, Result, ok, err,
}
use uni_core.Api.Reason
use uni_core.Api.Object.{Condition}

pub record Surfaced : Type 0 where
  pub status : String
  pub reason : String
  pub message : String

-- Phase 1: status, reason and message by the disposition alone; none leaves the condition as it is.
unfoldable pub phase_1 : Option GoError → Bool → Option Surfaced
unfolding is_error
phase_1 none deprovision =
    if deprovision
    then some (record { status = "True"; reason = Reason.deprovisioned; message = "deprovisioned" })
    else some (record { status = "True"; reason = Reason.provisioned; message = "provisioned" })
phase_1 (some e) deprovision =
    if is_error e err_yield
    then if deprovision
      then some
          (record { status = "False"; reason = Reason.deprovisioning; message = "deprovisioning" })
      else some (record { status = "False"; reason = Reason.in_progress; message = "provisioning" })
    else if is_error e canceled
    then none
    else some (record {
      status = "False";
      reason = Reason.errored;
      message = "an unexpected error occurred";
    })

-- Phase 2: a typed error's own reason and message.
abbrev pub enrich_by : Option ProvisioningError → Surfaced → Surfaced
enrich_by none f = f
enrich_by (some p) f = record f { reason = p.reason; message = p.message }

unfoldable pub phase_2 : Option GoError → Surfaced → Surfaced
unfolding as_provisioning
phase_2 none f = f
phase_2 (some e) f = enrich_by (as_provisioning e) f

-- Whether the surfaced state differs from the prior condition.
unfoldable pub changed : Result Condition → Surfaced → Bool
changed (err e) f = true
changed (ok c) f =
    not (c.status == f.status) || not (c.reason == f.reason) || not (c.message == f.message)

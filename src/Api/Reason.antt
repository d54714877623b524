-- ===== src/Api/Reason.antt =====
-- The reasons of the Available and the Healthy condition (pkg/apis/unikorn/v1alpha1/types.go).
use uni_core.Base.{String}

abbrev pub in_progress : String
in_progress = "Provisioning"

abbrev pub provisioned : String
provisioned = "Provisioned"

abbrev pub errored : String
errored = "Errored"

abbrev pub deprovisioning : String
deprovisioning = "Deprovisioning"

abbrev pub deprovisioned : String
deprovisioned = "Deprovisioned"

abbrev pub dependency_not_ready : String
dependency_not_ready = "DependencyNotReady"

abbrev pub dependency_failed : String
dependency_failed = "DependencyFailed"

abbrev pub dependency_not_found : String
dependency_not_found = "DependencyNotFound"

abbrev pub unknown : String
unknown = "Unknown"

abbrev pub healthy : String
healthy = "Healthy"

abbrev pub degraded : String
degraded = "Degraded"

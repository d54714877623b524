-- ===== src/Api/Names.antt =====
-- The labels, annotations, finalizers and durations of pkg/constants/constants.go, and the finalizer
-- of the Kubernetes API that the manager treats apart.
use uni_core.Base.{ℕ, ◌*◌, ◌^◌, String}

abbrev pub name_label : String
name_label = "unikorn-cloud.org/name"

abbrev pub organization_label : String
organization_label = "unikorn-cloud.org/organization"

abbrev pub project_label : String
project_label = "unikorn-cloud.org/project"

abbrev pub description_annotation : String
description_annotation = "unikorn-cloud.org/description"

abbrev pub creator_annotation : String
creator_annotation = "unikorn-cloud.org/creator"

abbrev pub modifier_annotation : String
modifier_annotation = "unikorn-cloud.org/modifier"

abbrev pub modified_timestamp_annotation : String
modified_timestamp_annotation = "unikorn-cloud.org/modifiedTimestamp"

abbrev pub finalizer : String
finalizer = "unikorn"

-- metav1.FinalizerDeleteDependents, a constant of the Kubernetes API.
abbrev pub finalizer_delete_dependents : String
finalizer_delete_dependents = "foregroundDeletion"

-- 10 * time.Second, in nanoseconds.
abbrev pub default_yield_timeout : ℕ
default_yield_timeout = 10 * 10 ^ 9

abbrev pub application_label : String
application_label = "unikorn-cloud.org/application"

abbrev pub application_id_label : String
application_id_label = "unikorn-cloud.org/application-id"

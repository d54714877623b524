-- ===== src/Server/Conversion.antt =====
-- pkg/server/conversion/conversion.go: resources as the API shows them, and the metadata of those that
-- it makes. Whether a resource has status conditions at all is the flag `reads_conditions`.
pub mod Status
pub mod Metadata
pub mod Generated
pub mod Scoped
use uni_core.Base.{
  ℕ, String, Bool, true, false, ◌||◌, Option, none, some, List, [], ◌∷◌, Dict, lookup, insert, ◌==◌,
  is_empty, if◌then◌else◌,
}
use uni_core.Errors.{GoError, Result, ok, err}
use uni_core.Api.Names.{
  name_label, organization_label, project_label, description_annotation, creator_annotation,
  modifier_annotation, modified_timestamp_annotation,
}
use uni_core.Api.Reason
use uni_core.Api.Object.{Condition, Object}
use uni_core.Api.Conditions.{ConditionUtil, get_available_condition, get_healthy_condition}
use uni_core.Api.Tags.{Tag}

pub data ResourceProvisioningStatus : Type 0 where
  deprovisioning error pending provisioned provisioning : ResourceProvisioningStatus

-- `empty` is the zero of the string type, which is none of the API's values.
pub data ResourceHealthStatus : Type 0 where
  healthy degraded unknown empty : ResourceHealthStatus

-- The switch on the reason of the Available condition.
unfoldable pub status_of_reason : String → ResourceProvisioningStatus
status_of_reason reason =
    if reason == Reason.in_progress
    then provisioning
    else if reason == Reason.provisioned
    then provisioned
    else if (reason == Reason.errored) || (reason == Reason.dependency_not_found)
    then error
    else if (reason == Reason.deprovisioned) || (reason == Reason.deprovisioning)
    then deprovisioning
    else if (reason == Reason.dependency_not_ready) || (reason == Reason.dependency_failed)
    then provisioning
    else provisioning

-- The switch on the reason of the Healthy condition.
unfoldable pub health_of_reason : String → ResourceHealthStatus
health_of_reason reason =
    if reason == Reason.healthy
    then healthy
    else if reason == Reason.degraded
    then degraded
    else if reason == Reason.unknown
    then unknown
    else empty

-- A provisioning or health status detail.
pub record StatusDetail : Type 0 where
  pub reason : String
  pub message : String

abbrev pub status_of : Result Condition → ResourceProvisioningStatus
status_of (err e) = pending
status_of (ok c) = status_of_reason c.reason

abbrev health_of : Result Condition → ResourceHealthStatus
health_of (err e) = unknown
health_of (ok c) = health_of_reason c.reason

abbrev pub detail_of : Result Condition → Option StatusDetail
detail_of (err e) = none
detail_of (ok c) = some (record { reason = c.reason; message = c.message })

pub record ResourceReadMetadata : Type 0 where
  pub id : String
  pub name : String
  pub creation_time : ℕ
  pub provisioning_status : ResourceProvisioningStatus
  pub provisioning_status_detail : Option StatusDetail
  pub health_status : ResourceHealthStatus
  pub health_status_detail : Option StatusDetail
  pub description : Option String
  pub created_by : Option String
  pub modified_by : Option String
  pub modified_time : Option ℕ
  pub deletion_time : Option ℕ
  pub tags : Option (List Tag)

unfoldable pub convert_tag : Tag → Tag
convert_tag t = record { name = t.name; value = t.value }

unfoldable pub convert_tags : List Tag → List Tag
unfolding convert_tag
convert_tags [] = []
convert_tags (t ∷ ts) = convert_tag t ∷ convert_tags ts

-- What a Go map gives for a key, and for one that is not there.
abbrev pub or_empty : Option String → String
or_empty none = ""
or_empty (some s) = s

-- A value that is parsed if it is there; one that does not parse is left out.
abbrev parsed : (String → Option ℕ) → Option String → Option ℕ
parsed parse none = none
parsed parse (some v) = parse v

-- `parse` is time.Parse for RFC 3339.
module _ (cu : ConditionUtil) (reads_conditions : Bool) where
  unfoldable pub convert_status_condition : Object → ResourceProvisioningStatus
  unfolding status_of_reason
  convert_status_condition o = elim o.deletion_timestamp [
    | some t ↦ deprovisioning
    | none ↦ if reads_conditions then status_of (get_available_condition cu o) else provisioned
  ]

  unfoldable pub convert_health_condition : Object → ResourceHealthStatus
  unfolding health_of_reason
  convert_health_condition o =
      if reads_conditions then health_of (get_healthy_condition cu o) else healthy

  unfoldable pub convert_provisioning_status_detail : Object → Option StatusDetail
  convert_provisioning_status_detail o =
      if reads_conditions then detail_of (get_available_condition cu o) else none

  unfoldable pub convert_health_status_detail : Object → Option StatusDetail
  convert_health_status_detail o =
      if reads_conditions then detail_of (get_healthy_condition cu o) else none

  unfoldable pub resource_read_metadata :
      (String → Option ℕ) → Object → List Tag → ResourceReadMetadata
  unfolding convert_status_condition convert_health_condition convert_provisioning_status_detail
      convert_health_status_detail convert_tags
  resource_read_metadata parse o tags = record {
    id = o.name;
    name = or_empty (lookup name_label o.labels);
    creation_time = o.creation_timestamp;
    provisioning_status = convert_status_condition o;
    provisioning_status_detail = convert_provisioning_status_detail o;
    health_status = convert_health_condition o;
    health_status_detail = convert_health_status_detail o;
    description = lookup description_annotation o.annotations;
    created_by = lookup creator_annotation o.annotations;
    modified_by = lookup modifier_annotation o.annotations;
    modified_time = parsed parse (lookup modified_timestamp_annotation o.annotations);
    deletion_time = o.deletion_timestamp;
    tags = if is_empty tags then none else some (convert_tags tags);
  }

-- openapi.ResourceWriteMetadata, without its tags, which this code does not read.
pub record ResourceWriteMetadata : Type 0 where
  pub name : String
  pub description : Option String

pub record ObjectMetadata : Type 0 where
  pub namespace : String
  pub name : String
  pub labels : Dict String
  pub annotations : Dict String

abbrev pub described : Option String → Dict String
described none = []
described (some d) = insert description_annotation d []

-- `id` is a resource ID that the call generates.
unfoldable pub new_object_metadata : String → ResourceWriteMetadata → String → ObjectMetadata
new_object_metadata id metadata namespace = record {
  namespace = namespace;
  name = id;
  labels = insert name_label metadata.name [];
  annotations = described metadata.description;
}

unfoldable pub with_label : String → String → ObjectMetadata → ObjectMetadata
with_label key value o = record o { labels = insert key value o.labels }

unfoldable pub with_organization : String → ObjectMetadata → ObjectMetadata
with_organization id o = record o { labels = insert organization_label id o.labels }

unfoldable pub with_project : String → ObjectMetadata → ObjectMetadata
with_project id o = record o { labels = insert project_label id o.labels }

abbrev mutated :
    Option GoError × Object → (Object → Option GoError × Object) → Option GoError × Object
mutated (none, r) next = next r
mutated (some e, r) next = (some e, r)

-- The mutators of an update run in order on the required and the current object, and the first error
-- ends them. `now` is the time, formatted.
unfoldable pub mutate :
    List (Object → Object → Option GoError × Object) → Object → Object → Option GoError × Object
mutate [] required current = (none, required)
mutate (m ∷ ms) required current = mutated (m required current) (λ r. mutate ms r current)

unfoldable pub update_object_metadata :
    String
    → Object
    → Object
    → List (Object → Object → Option GoError × Object)
    → Option GoError × Object
unfolding mutate
update_object_metadata now required current mutators =
    mutate mutators
      (record required {
        annotations = insert modified_timestamp_annotation now required.annotations;
      })
      current

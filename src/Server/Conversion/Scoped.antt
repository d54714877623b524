-- ===== src/Server/Conversion/Scoped.antt =====
-- pkg/server/conversion/conversion.go: the metadata of resources in an organization and in a project. The
-- fields that these share with the plain metadata go through JSON, whose errors are dropped: `carry` gives
-- what comes out, or none where encoding or decoding failed, and `blank` is the zero value.
use uni_core.Base.{ℕ, String, Bool, ◌≡◌, Option, none, some, List, ap, lookup}
use uni_core.Api.Names.{organization_label, project_label}
use uni_core.Api.Object.{Object}
use uni_core.Api.Conditions.{ConditionUtil}
use uni_core.Api.Tags.{Tag}
use uni_core.Server.Conversion.{ResourceReadMetadata, resource_read_metadata, or_empty}

record OrganizationScopedResourceReadMetadata : Type 0 where
  metadata : ResourceReadMetadata
  organization_id : String

record ProjectScopedResourceReadMetadata : Type 0 where
  metadata : ResourceReadMetadata
  organization_id : String
  project_id : String

abbrev carried : ResourceReadMetadata → Option ResourceReadMetadata → ResourceReadMetadata
carried blank none = blank
carried blank (some m) = m

module _ (cu : ConditionUtil) (reads_conditions : Bool) (parse : String → Option ℕ)
    (carry : ResourceReadMetadata → Option ResourceReadMetadata)
    (blank : ResourceReadMetadata) where
  unfoldable organization_scoped_resource_read_metadata :
      Object → List Tag → OrganizationScopedResourceReadMetadata
  organization_scoped_resource_read_metadata o tags = record {
    metadata = carried blank (carry (resource_read_metadata cu reads_conditions parse o tags));
    organization_id = or_empty (lookup organization_label o.labels);
  }

  unfoldable project_scoped_resource_read_metadata :
      Object → List Tag → ProjectScopedResourceReadMetadata
  project_scoped_resource_read_metadata o tags = record {
    metadata = carried blank (carry (resource_read_metadata cu reads_conditions parse o tags));
    organization_id = or_empty (lookup organization_label o.labels);
    project_id = or_empty (lookup project_label o.labels);
  }

  -- Where JSON carries the metadata over, the scoped metadata are the plain ones with the labels' IDs.
  project_scoped-carried :
      (o : Object) (tags : List Tag)
      → carry (resource_read_metadata cu reads_conditions parse o tags)
        ≡ some (resource_read_metadata cu reads_conditions parse o tags)
      → project_scoped_resource_read_metadata o tags ≡ record {
        metadata = resource_read_metadata cu reads_conditions parse o tags;
        organization_id = (organization_scoped_resource_read_metadata o tags).organization_id;
        project_id = or_empty (lookup project_label o.labels);
      }
  unfolding project_scoped_resource_read_metadata organization_scoped_resource_read_metadata
  project_scoped-carried o tags h =
      ap
        (λ m. record {
          metadata = carried blank m;
          organization_id = or_empty (lookup organization_label o.labels);
          project_id = or_empty (lookup project_label o.labels);
        })
        h

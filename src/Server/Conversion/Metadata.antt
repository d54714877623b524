-- ===== src/Server/Conversion/Metadata.antt =====
-- Metadata that the API makes, read back.
use uni_core.Base.{
  ℕ, String, ◌≡◌, refl, ap, ◌∙◌, true, false, Option, none, some, [], Dict, lookup, insert,
  lookup-nil, lookup-insert_self, lookup-insert_ne, ◌==◌,
}
use uni_core.Api.Names.{name_label, organization_label, project_label, description_annotation}
use uni_core.Api.Object.{Object}
use uni_core.Api.Conditions.{ConditionUtil}
use uni_core.Server.Conversion.{
  ResourceWriteMetadata, ObjectMetadata, new_object_metadata, with_label, with_organization,
  with_project, resource_read_metadata, or_empty, described,
}

-- An object with the metadata, as the cluster first has it.
abbrev pub created : ObjectMetadata → ℕ → Object
created m now = record {
  name = m.name;
  labels = m.labels;
  annotations = m.annotations;
  finalizers = [];
  creation_timestamp = now;
  deletion_timestamp = none;
  paused = false;
  conditions = [];
}

-- The metadata of a project-scoped resource with one more label.
abbrev pub scoped :
    String → ResourceWriteMetadata → String → String → String → String → String → ObjectMetadata
scoped id metadata namespace organization project key value = with_label key value (
    with_project project
      (with_organization organization (new_object_metadata id metadata namespace)))

-- Metadata built with an organization, a project and a further label whose key is none of the
-- builder's three reads back with the ID, name and description that it was built from, and its
-- labels have the organization and the project.
metadata_roundtrip :
    (cu : ConditionUtil) (parse : String → Option ℕ)
    (id namespace organization project key value : String) (metadata : ResourceWriteMetadata)
    (now : ℕ)
    → (key == name_label) ≡ false
    → (key == organization_label) ≡ false
    → (key == project_label) ≡ false
    → let m = scoped id metadata namespace organization project key value in
      let read = resource_read_metadata cu true parse (created m now) [] in
      (read.id ≡ id)
      × ((read.name ≡ metadata.name)
          × ((read.description ≡ metadata.description)
              × ((lookup organization_label m.labels ≡ some organization)
                  × (lookup project_label m.labels ≡ some project))))
unfolding resource_read_metadata with_label with_project with_organization new_object_metadata
    lookup insert
metadata_roundtrip cu parse id ns org proj key value metadata now k1 k2 k3 =
    let built : Dict String =
      insert project_label proj
        (insert organization_label org (insert name_label metadata.name [])) in
    (
      refl,
      (
        ap or_empty (lookup-insert_ne key name_label value built k1 ∙ refl),
        (
          described_back metadata.description,
          (
            lookup-insert_ne key organization_label value built k2 ∙ refl,
            lookup-insert_ne key project_label value built k3 ∙ refl,
          ),
        ),
      ),
    )
  where
    described_back : (d : Option String) → lookup description_annotation (described d) ≡ d
    described_back none = lookup-nil description_annotation
    described_back (some d) = lookup-insert_self description_annotation d []

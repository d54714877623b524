-- ===== src/Server/Conversion/Generated.antt =====
-- What the API's requests become in a resource (pkg/server/conversion/conversion.go): the tags, and
-- metadata whose name is derived from an invariant of the resource.
use uni_core.Base.{ℕ, String, ◌≡◌, refl, ap, Option, none, some, List, [], ◌∷◌, insert}
use uni_core.Api.Names.{name_label}
use uni_core.Api.Tags.{Tag}
use uni_core.Util.Resource.{UuidCode, generate_deterministic_resource_id}
use uni_core.Server.Conversion.{
  ResourceWriteMetadata, ObjectMetadata, new_object_metadata, described, convert_tag, convert_tags,
}

unfoldable generate_tag : Tag → Tag
generate_tag t = record { name = t.name; value = t.value }

unfoldable generate_tags : List Tag → List Tag
unfolding generate_tag
generate_tags [] = []
generate_tags (t ∷ ts) = generate_tag t ∷ generate_tags ts

-- A request without tags gives the nil list.
unfoldable generate_tag_list : Option (List Tag) → List Tag
unfolding generate_tags
generate_tag_list none = []
generate_tag_list (some ts) = generate_tags ts

-- The object metadata once the resource has a name.
abbrev with_name : ResourceWriteMetadata → String → Option String → Option ObjectMetadata
with_name metadata namespace none = none
with_name metadata namespace (some id) = some (record {
  namespace = namespace;
  name = id;
  labels = insert name_label metadata.name [];
  annotations = described metadata.description;
})

-- None if the fuel for the rehashes of the name runs out.
unfoldable new_deterministic_object_metadata :
    UuidCode → ResourceWriteMetadata → String → String → String → ℕ → Option ObjectMetadata
unfolding generate_deterministic_resource_id
new_deterministic_object_metadata u metadata namespace id_namespace invariant fuel =
    with_name metadata namespace (generate_deterministic_resource_id u id_namespace invariant fuel)

-- The tags of a resource come back from the form that the API gives them.
generate_tags-convert_tags : (ts : List Tag) → generate_tags (convert_tags ts) ≡ ts
unfolding generate_tags convert_tags generate_tag convert_tag
generate_tags-convert_tags [] = refl
generate_tags-convert_tags (t ∷ ts) = ap (λ r. t ∷ r) (generate_tags-convert_tags ts)

-- The metadata is that of a generated name, apart from how the name is found.
new_deterministic_object_metadata-new_object_metadata :
    (u : UuidCode) (metadata : ResourceWriteMetadata) (namespace id_namespace invariant id : String)
    (fuel : ℕ)
    → generate_deterministic_resource_id u id_namespace invariant fuel ≡ some id
    → new_deterministic_object_metadata u metadata namespace id_namespace invariant fuel
      ≡ some (new_object_metadata id metadata namespace)
unfolding new_deterministic_object_metadata new_object_metadata
new_deterministic_object_metadata-new_object_metadata u metadata namespace idn inv id fuel h =
    ap (with_name metadata namespace) h

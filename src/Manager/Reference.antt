-- ===== src/Manager/Reference.antt =====
-- pkg/manager/reference.go: references between resources, kept as finalizers. Logging is left out.
pub mod Removal
use uni_core.Base.{
  String, str_append, Bool, true, false, not, ◌||◌, Option, none, some, List, [], ◌∷◌, contains,
  select, Dict, lookup, insert, ◌==◌, if◌then◌else◌,
}
use uni_core.Errors.{
  GoError, sentinel, wrap, err_consistency, err_yield, err_type_conversion, Result, ok, err,
}
use uni_core.Api.Names.{finalizer, finalizer_delete_dependents}
use uni_core.Api.Object.{Object, Item, client_object, runtime_object}
use uni_core.Manager.Client.{Client, ControllerUtil, ListWalker, stop_at_error}

-- The group, version and kind that the scheme has for an object, and the resource of a mapping.
pub record GroupVersionKind : Type 0 where
  pub group : String
  pub version : String
  pub kind : String

pub record GroupResource : Type 0 where
  pub resource : String
  pub group : String

-- The scheme and the REST mapper of the client.
pub record Mapper : Type 0 where
  pub object_kinds : Object → Result (List GroupVersionKind)
  pub rest_mapping : GroupVersionKind → Result GroupResource

abbrev legacy_group : String → String
legacy_group group = if group == "unikorn-cloud.org" then "kubernetes.unikorn-cloud.org" else group

abbrev render : Object → Result GroupResource → Result String
render o (err e) = err e
render o (ok gvr) = ok (
    str_append gvr.resource
      (str_append "." (str_append (legacy_group gvr.group) (str_append "/" o.name))))

abbrev of_kinds : Mapper → Object → Result (List GroupVersionKind) → Result String
of_kinds m o (err e) = err e
of_kinds m o (ok []) = err (wrap "expected single GVK for resource" (sentinel err_consistency))
of_kinds m o (ok (gvk ∷ [])) = render o (m.rest_mapping gvk)
of_kinds m o (ok (gvk ∷ other ∷ rest)) =
    err (wrap "expected single GVK for resource" (sentinel err_consistency))

unfoldable pub generate_resource_reference : Mapper → Object → Result String
generate_resource_reference m o = of_kinds m o (m.object_kinds o)

abbrev pub ignored : List String
ignored = finalizer ∷ finalizer_delete_dependents ∷ []

unfoldable pub get_resource_references : Object → List String
get_resource_references o = select (λ s. not (contains ignored s)) o.finalizers

abbrev pub not_client_object : GoError
not_client_object = wrap "resource not a client object" (sentinel err_type_conversion)

-- The map from resource IDs to resources; of two with one name the later is kept. The walk ends at the
-- first item that is not a client object.
unfoldable pub resource_id_map : List Item → Dict Object → Result (Dict Object)
resource_id_map [] out = ok out
resource_id_map (client_object o ∷ is) out = resource_id_map is (insert o.name o out)
resource_id_map (runtime_object ∷ is) out = err not_client_object

module _ {ℓ} {W : Type ℓ} (cl : Client W) (u : ControllerUtil) (l : ListWalker W) where
  abbrev pub conflict_yields : Result Object × W → Option GoError × W
  conflict_yields (ok o, w) = (none, w)
  conflict_yields (err e, w) = (some (if cl.is_conflict e then sentinel err_yield else e), w)

  -- The outcome of an update, with the object that the caller then holds: the server's, or its own.
  abbrev held_after : Object → Result Object × W → Option GoError × (Object × W)
  held_after o (ok o', w) = (none, (o', w))
  held_after o (err e, w) = (some (if cl.is_conflict e then sentinel err_yield else e), (o, w))

  -- AddFinalizer, and the update if it changed the object.
  unfoldable pub add_to : String → Object → W → Option GoError × (Object × W)
  add_to reference o w =
      let (finalizers, updated) = u.add_finalizer o.finalizers reference in
      let o' = record o { finalizers = finalizers } in
      if not updated then (none, (o', w)) else held_after o' (cl.update o' w)

  -- RemoveFinalizer, and the update if it changed the object.
  unfoldable pub remove_from : String → Object → W → Option GoError × W
  remove_from reference o w =
      let (finalizers, updated) = u.remove_finalizer o.finalizers reference in
      if not updated
      then (none, w)
      else conflict_yields (cl.update (record o { finalizers = finalizers }) w)

  abbrev forget : Option GoError × (Object × W) → Option GoError × W
  forget (e, (o, w)) = (e, w)

  abbrev add_to_fetched : String → Result Object × W → Option GoError × W
  add_to_fetched reference (err e, w) = (some e, w)
  add_to_fetched reference (ok o, w) = forget (add_to reference o w)

  unfoldable pub add_resource_reference : String → String → W → Option GoError × W
  unfolding add_to
  add_resource_reference key reference w = add_to_fetched reference (cl.get key w)

  abbrev add_to_known : String → Option Object → W → Option GoError × (Option Object × W)
  add_to_known reference none w =
      (some (wrap "attempt to reference unknown resource ID" (sentinel err_consistency)), (none, w))
  add_to_known reference (some o) w = let (e, r) = add_to reference o w in (e, (some r.0, r.1))

  -- The map holds pointers, so that an ID that is met again meets the object as it was left.
  abbrev put_back : String → Option Object → Dict Object → Dict Object
  put_back id none resources = resources
  put_back id (some o) resources = insert id o resources

  abbrev go_on :
      Option GoError × (Option Object × W)
      → (Option Object → W → Option GoError × W)
      → Option GoError × W
  go_on (none, (o, w)) k = k o w
  go_on (some e, (o, w)) k = (some e, w)

  unfoldable pub add_to_each : String → List String → Dict Object → W → Option GoError × W
  unfolding add_to
  add_to_each reference [] resources w = (none, w)
  add_to_each reference (id ∷ ids) resources w =
      go_on (add_to_known reference (lookup id resources) w)
        (λ o w'. add_to_each reference ids (put_back id o resources) w')

  abbrev add_to_mapped : String → List String → Result (Dict Object) → W → Option GoError × W
  add_to_mapped reference ids (err e) w = (some e, w)
  add_to_mapped reference ids (ok resources) w = add_to_each reference ids resources w

  abbrev add_to_listed : String → List String → Result (List Item) × W → Option GoError × W
  add_to_listed reference ids (err e, w) = (some e, w)
  add_to_listed reference ids (ok is, w) = add_to_mapped reference ids (resource_id_map is []) w

  unfoldable pub add_resource_references : String → List String → W → Option GoError × W
  unfolding add_to_each resource_id_map
  add_resource_references reference ids w = add_to_listed reference ids (cl.list w)

  abbrev ignore_not_found : Result Object × W → Option GoError × W
  ignore_not_found (ok o, w) = (none, w)
  ignore_not_found (err e, w) = if cl.is_not_found e then (none, w) else conflict_yields (err e, w)

  abbrev remove_from_fetched : String → Result Object × W → Option GoError × W
  remove_from_fetched reference (err e, w) = if cl.is_not_found e then (none, w) else (some e, w)
  remove_from_fetched reference (ok o, w) =
      let (finalizers, updated) = u.remove_finalizer o.finalizers reference in
      if not updated
      then (none, w)
      else ignore_not_found (cl.update (record o { finalizers = finalizers }) w)

  unfoldable pub remove_resource_reference : String → String → W → Option GoError × W
  remove_resource_reference key reference w = remove_from_fetched reference (cl.get key w)

  -- The callback of the walk.
  unfoldable pub remove_unless_kept : String → List String → Item → W → Option GoError × W
  unfolding remove_from
  remove_unless_kept reference ids runtime_object w = (some not_client_object, w)
  remove_unless_kept reference ids (client_object o) w =
      if contains ids o.name then (none, w) else remove_from reference o w

  abbrev pub remove_from_listed : String → List String → Result (List Item) × W → Option GoError × W
  remove_from_listed reference ids (err e, w) = (some e, w)
  remove_from_listed reference ids (ok is, w) =
      l.each_list_item is (remove_unless_kept reference ids) w

  unfoldable pub remove_resource_references : String → List String → W → Option GoError × W
  unfolding remove_unless_kept
  remove_resource_references reference ids w = remove_from_listed reference ids (cl.list w)

  unfoldable pub clear_resource_references : String → W → Option GoError × W
  unfolding remove_resource_references
  clear_resource_references reference w = remove_resource_references reference [] w

-- ===== src/Provisioners/Log.antt =====
-- pkg/provisioninglog/provisioninglog.go: the events that the condition transitions of a resource are
-- logged as. `kinds` is the scheme's ObjectKinds for the object, as pairs of a group and a kind, and the
-- generation is an argument.
use uni_core.Base.{
  ℕ, String, ◌≡◌, refl, ap, ◌∙◌, Bool, true, false, not, Option, none, some, List, [], ◌∷◌, Dict,
  lookup, insert, lookup-insert, lookup-insert_self, lookup-nil, ◌==◌, if◌then◌else◌,
}
use uni_core.Errors.{Result, ok, err}
use uni_core.Api.Names.{organization_label, project_label}
use uni_core.Api.Object.{Object}

record Component : Type 0 where
  name : String
  version : String

record Resource : Type 0 where
  type_name : String
  id : String

record Transition : Type 0 where
  status : String
  reason : String
  message : String

record Event : Type 0 where
  stream : String
  component : Component
  resource : Resource
  scope : Dict String
  transition : Transition
  observed_generation : ℕ

abbrev scope_labels : List (String × String)
scope_labels = ("organization", organization_label) ∷ ("project", project_label) ∷ []

-- The group and the kind of the first, or nothing.
abbrev group_kind : Result (List (String × String)) → String × String
group_kind (err e) = ("", "")
group_kind (ok []) = ("", "")
group_kind (ok (gvk ∷ gvks)) = gvk

abbrev entered : String → Option String → Dict String → Dict String
entered key none scope = scope
entered key (some v) scope = if not (v == "") then insert key v scope else scope

-- The loop over the scope labels.
unfoldable scope_of : List (String × String) → Dict String → Dict String → Dict String
scope_of [] labels scope = scope
scope_of ((key, label) ∷ rest) labels scope =
    scope_of rest labels (entered key (lookup label labels) scope)

unfoldable emit :
    Result (List (String × String)) → Object → ℕ → String → String → String → String → Event
unfolding scope_of
emit kinds object generation stream status reason message = record {
  stream = stream;
  component = record { name = (group_kind kinds).0; version = "" };
  resource = record { type_name = (group_kind kinds).1; id = object.name };
  scope = scope_of scope_labels object.labels [];
  transition = record { status = status; reason = reason; message = message };
  observed_generation = generation;
}

abbrev present : Option String → Option String
present none = none
present (some v) = if not (v == "") then some v else none

abbrev or_else : Option String → Option String → Option String
or_else none second = second
or_else (some v) second = some v

lookup-entered_self :
    (key : String) (v : Option String) (m : Dict String)
    → lookup key (entered key v m) ≡ or_else (present v) (lookup key m)
lookup-entered_self key none m = refl
lookup-entered_self key (some v) m = by_cases (v == "")
  where
    by_cases :
        (b : Bool)
        → lookup key (if not b then insert key v m else m)
          ≡ or_else (if not b then some v else none) (lookup key m)
    by_cases true = refl
    by_cases false = lookup-insert_self key v m

lookup-entered_ne :
    (key asked : String) (v : Option String) (m : Dict String)
    → (key == asked) ≡ false
    → lookup asked (entered key v m) ≡ lookup asked m
lookup-entered_ne key asked none m h = refl
lookup-entered_ne key asked (some v) m h = by_cases (v == "")
  where
    by_cases : (b : Bool) → lookup asked (if not b then insert key v m else m) ≡ lookup asked m
    by_cases true = refl
    by_cases false = lookup-insert key asked v m ∙ ap (λ b. if b then some v else lookup asked m) h

-- An event names the organization and the project of the resource exactly when it has labels for them
-- that are not empty.
emit-scope :
    (kinds : Result (List (String × String))) (object : Object) (generation : ℕ)
    (stream status reason message : String)
    → let event = emit kinds object generation stream status reason message in
      (lookup "organization" event.scope ≡ present (lookup organization_label object.labels))
      × (lookup "project" event.scope ≡ present (lookup project_label object.labels))
unfolding emit
emit-scope kinds object generation stream status reason message =
    let organization = lookup organization_label object.labels in
    let project = lookup project_label object.labels in
    let first = entered "organization" organization [] in
    (
      lookup-entered_ne "project" "organization" project first refl
          ∙ lookup-entered_self "organization" organization []
          ∙ or_else-nil "organization" (present organization),
      lookup-entered_self "project" project first
          ∙ ap (or_else (present project))
              (lookup-entered_ne "organization" "project" organization [] refl)
          ∙ or_else-nil "project" (present project),
    )
  where
    or_else-nil : (k : String) (o : Option String) → or_else o (lookup k []) ≡ o
    or_else-nil k none = lookup-nil k
    or_else-nil k (some v) = refl

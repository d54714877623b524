-- ===== src/Tools/OpenApi.antt =====
-- hack/validate_openapi/main.go: the validation of an OpenAPI specification. An operation is what the
-- validators read of it; a map is the list of its entries in the order in which it is ranged over. The
-- failures are reported in order, and none is a panic on a nil pointer.
pub mod Security
pub mod Passing
pub mod Parameters
pub mod Exact
use uni_core.Base.{
  ℕ, String, Bool, true, false, not, ◌&&◌, ◌||◌, Option, none, some, List, [], ◌∷◌, ◌++◌, Dict,
  lookup, has, select, contains, is_some, is_empty, length, nat_eq, join, ◌==◌, if◌then◌else◌,
}

pub record Parameter : Type 0 where
  pub location : String
  pub name : String

-- The media types of a content, each with whether it has a schema, or a nil pointer. A nil content is
-- none.
abbrev pub Content : Type 0
Content = List (String × Option Bool)

-- A value of the specification, or a reference to one of its components.
pub data Ref (A : Type 0) : Type 0 where
  value : A → Ref A
  reference : String → Ref A

-- An extension is there with a value or with nil, and a parameter is one or has a nil value. `status` gives the response of a status code, and
-- `security` the number of requirements.
pub record Operation : Type 0 where
  pub extensions : Dict Bool
  pub summary : String
  pub tags : List String
  pub security : Option ℕ
  pub parameters : List (Option Parameter)
  pub request_body : Option (Ref Content)
  pub status : ℕ → Option (Ref (Option Content))

pub record PathItem : Type 0 where
  pub parameters : List (Option Parameter)
  pub operations : Dict Operation

pub record Spec : Type 0 where
  pub request_bodies : Dict Content
  pub responses : Dict (Option Content)
  pub paths : List PathItem

-- validationContext, with the failures as what is returned.
pub record ValidationContext : Type 0 where
  pub spec : Spec
  pub method : String
  pub path : PathItem
  pub operation : Operation

abbrev pub Failures : Type 0
Failures = List String

abbrev pub extension_hidden : String
extension_hidden = "x-hidden"

abbrev pub extension_no_security_requirements : String
extension_no_security_requirements = "x-no-security-requirements"

abbrev pub extension_no_authorization : String
extension_no_authorization = "x-no-authorization"

abbrev pub extension_no_body : String
extension_no_body = "x-no-body"

abbrev pub failure_if : Bool → String → Failures
failure_if true text = text ∷ []
failure_if false text = []

abbrev pub set_to_value : Option Bool → Bool
set_to_value none = false
set_to_value (some non_nil) = non_nil

-- The values of the parameters, where none is nil.
abbrev pub and_value : Option Parameter → Option (List Parameter) → Option (List Parameter)
and_value none ps = none
and_value (some p) none = none
and_value (some p) (some ps) = some (p ∷ ps)

abbrev pub all_values : List (Option Parameter) → Option (List Parameter)
all_values [] = some []
all_values (p ∷ ps) = and_value p (all_values ps)

-- slices.DeleteFunc deletes the parameters that are not of the path, or are those of RBAC.
abbrev pub is_identifying : Parameter → Bool
is_identifying p =
    not (not (p.location == "path") || contains ("organizationID" ∷ "projectID" ∷ []) p.name)

-- Failures and what follows, which may be a panic.
abbrev pub more : Failures → Option Failures → Option Failures
more failures none = none
more failures (some later) = some (failures ++ later)

abbrev pub schema_checked : String → Option Bool → Option Failures
schema_checked text none = none
schema_checked text (some has_schema) = some (failure_if (not has_schema) text)

abbrev pub and_rest : Option Failures → Option Failures → Option Failures
and_rest none later = none
and_rest (some failures) later = more failures later

-- The schema of a nil media type is a nil pointer.
abbrev pub schemaless : Content → Option Failures
schemaless [] = some []
schemaless ((mime_type, media) ∷ rest) =
    and_rest
      (schema_checked (join " " ("no request schema set for mime type" ∷ mime_type ∷ [])) media)
      (schemaless rest)

-- A component that is not there is a nil pointer.
abbrev pub body_checked : Option Content → Option Failures
body_checked none = none
body_checked (some content) = schemaless content

-- A body that is not set is noted, and its nil pointer is dereferenced then.
abbrev pub request_checked : Spec → Option (Ref Content) → Option Failures
request_checked spec none = none
request_checked spec (some (value content)) = schemaless content
request_checked spec (some (reference name)) = body_checked (lookup name spec.request_bodies)

unfoldable pub validate_request_validation : ValidationContext → Option Failures
validate_request_validation c =
    if not (c.method == "POST") && not (c.method == "PUT")
    then some []
    else if has extension_no_body c.operation.extensions
    then some []
    else request_checked c.spec c.operation.request_body

-- Whether anything failed; every validator runs, unless one panics.
abbrev pub or_failed : Option Failures → Option Bool → Option Bool
or_failed none later = none
or_failed (some failures) none = none
or_failed (some failures) (some failed) = some (not (is_empty failures) || failed)

abbrev pub both : Option Bool → Option Bool → Option Bool
both none later = none
both (some failed) none = none
both (some failed) (some later) = some (failed || later)

abbrev pub run_each : List (ValidationContext → Option Failures) → ValidationContext → Option Bool
run_each [] c = some false
run_each (v ∷ vs) c = or_failed (v c) (run_each vs c)

module _ (decimal : ℕ → String) where
  unfoldable pub must_include_status_code : ValidationContext → ℕ → Failures
  must_include_status_code c code =
      failure_if (not (is_some (c.operation.status code)))
        (join " " ("status code" ∷ decimal code ∷ "should be defined" ∷ []))

  unfoldable pub validate_operation_documentation : ValidationContext → Failures
  validate_operation_documentation c =
      if set_to_value (lookup extension_hidden c.operation.extensions)
      then []
      else failure_if (c.operation.summary == "") "no documentation summary provided"
        ++ failure_if (is_empty c.operation.tags) "no documentation tag grouping provided"

  abbrev pub secured : ValidationContext → Option ℕ → Failures
  secured c none = "no security requirements set" ∷ []
  secured c (some requirements) =
      failure_if (not (nat_eq requirements 1))
        "security requirements must have only one security requirement"
      ++ (must_include_status_code c 401
          ++ (if has extension_no_authorization c.operation.extensions
              then []
              else must_include_status_code c 403))

  unfoldable pub validate_operation_security : ValidationContext → Failures
  unfolding must_include_status_code
  validate_operation_security c =
      if has extension_no_security_requirements c.operation.extensions
      then []
      else secured c c.operation.security

  abbrev pub found_checked : ValidationContext → Option (List Parameter) → Option Failures
  found_checked c none = none
  found_checked c (some parameters) =
      some
        (if is_empty (select is_identifying parameters) then [] else must_include_status_code c 404)

  -- The deletion looks at the value of every parameter.
  unfoldable pub validate_operation_foundness : ValidationContext → Option Failures
  unfolding must_include_status_code
  validate_operation_foundness c =
      found_checked c (all_values (c.path.parameters ++ c.operation.parameters))

  abbrev pub json_schemaless : Content → Option Failures
  json_schemaless [] = some []
  json_schemaless ((mime_type, media) ∷ rest) =
      let text = join " " ("no schema set for" ∷ mime_type ∷ decimal 200 ∷ "response" ∷ []) in
      and_rest (if mime_type == "application/json" then schema_checked text media else some [])
        (json_schemaless rest)

  abbrev pub content_checked : Option Content → Option Failures
  content_checked none =
      some (join " " ("no content type set for" ∷ decimal 200 ∷ "response" ∷ []) ∷ [])
  content_checked (some content) = json_schemaless content

  abbrev pub component_checked : Option (Option Content) → Option Failures
  component_checked none = none
  component_checked (some content) = content_checked content

  abbrev pub response_checked : Spec → Option (Ref (Option Content)) → Option Failures
  response_checked spec none = some []
  response_checked spec (some (value content)) = content_checked content
  response_checked spec (some (reference name)) = component_checked (lookup name spec.responses)

  -- Of all the codes that are looped over, 200 alone is looked into.
  unfoldable pub validate_response_validation : ValidationContext → Option Failures
  validate_response_validation c =
      if not (c.method == "GET") then some [] else response_checked c.spec (c.operation.status 200)

  unfoldable pub validators : List (ValidationContext → Option Failures)
  validators =
      (λ c. some (validate_operation_documentation c))
      ∷ (λ c. some (validate_operation_security c))
      ∷ validate_operation_foundness
      ∷ validate_request_validation
      ∷ validate_response_validation
      ∷ []

  abbrev pub at_operations : Spec → PathItem → Dict Operation → Option Bool
  at_operations spec path [] = some false
  at_operations spec path ((method, operation) ∷ rest) =
      both
        (run_each validators
          (record { spec = spec; method = method; path = path; operation = operation }))
        (at_operations spec path rest)

  abbrev pub at_paths : Spec → List PathItem → Option Bool
  at_paths spec [] = some false
  at_paths spec (path ∷ rest) = both (at_operations spec path path.operations) (at_paths spec rest)

  -- Whether the tool exits with an error.
  unfoldable pub validate : Spec → Option Bool
  unfolding validators
  validate spec = at_paths spec spec.paths

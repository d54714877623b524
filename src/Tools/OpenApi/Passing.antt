-- ===== src/Tools/OpenApi/Passing.antt =====
-- hack/validate_openapi/main.go: what the validators of documentation, bodies and responses accept.
use uni_core.Base.{
  ℕ, String, ◌≡◌, refl, ap, ◌↔◌, ◌⊎◌, inl, inr, Bool, true, false, not, ◌&&◌, ◌||◌, Option, none,
  some, [], ◌∷◌, ◌++◌, Dict, lookup, has, is_empty, All, arith, ◌==◌, if◌then◌else◌,
}
use uni_core.Tools.OpenApi.{
  Content, Ref, value, reference, Spec, ValidationContext, Failures, failure_if, set_to_value,
  extension_hidden, extension_no_body, and_rest, schema_checked, schemaless, body_checked,
  request_checked, json_schemaless, content_checked, component_checked, response_checked,
  validate_operation_documentation, validate_request_validation, validate_response_validation,
}

-- Nothing failed, in either of two steps.
pub append-nil_iff : (xs ys : Failures) → xs ++ ys ≡ [] ↔ ((xs ≡ []) × (ys ≡ []))
append-nil_iff [] ys = (λ h. (refl, h), λ h. h.1)
append-nil_iff (x ∷ xs) ys = (λ h. ground (arith), λ h. ground (arith))

pub failure_if-nil_iff : (b : Bool) (text : String) → failure_if b text ≡ [] ↔ (b ≡ false)
failure_if-nil_iff true text = (λ h. ground (arith), λ h. ground (arith))
failure_if-nil_iff false text = (λ h. refl, λ h. refl)

pub failure_if-not-nil_iff : (b : Bool) (text : String) → failure_if (not b) text ≡ [] ↔ (b ≡ true)
failure_if-not-nil_iff true text = (λ h. refl, λ h. refl)
failure_if-not-nil_iff false text = (λ h. ground (arith), λ h. ground (arith))

-- The operation says that it is hidden, or it has a summary and a tag.
abbrev pub IsDocumented : ValidationContext → Type 0
IsDocumented c =
    (set_to_value (lookup extension_hidden c.operation.extensions) ≡ true)
    ⊎ (((c.operation.summary == "") ≡ false) × (is_empty c.operation.tags ≡ false))

abbrev pub IsThere : {A : Type 0} → (A → Type 0) → Option A → Type 0
IsThere P none = ⊥
IsThere P (some a) = P a

-- A body or a response is there, its reference leads to a component if it is one, and the content has a
-- property.
abbrev pub IsResolved : {A : Type 0} → (A → Type 0) → Dict A → Option (Ref A) → Type 0
IsResolved P components none = ⊥
IsResolved P components (some (value content)) = P content
IsResolved P components (some (reference name)) = IsThere P (lookup name components)

abbrev pub AllTyped : Content → Type 0
AllTyped content = All (λ m. m.1 ≡ some true) content

-- Not a POST or PUT, or it opts out, or it has a body, each of whose media types has a schema.
abbrev pub HasBody : ValidationContext → Type 0
HasBody c =
    (((c.method == "POST") || (c.method == "PUT")) ≡ false)
    ⊎ ((has extension_no_body c.operation.extensions ≡ true)
        ⊎ IsResolved AllTyped c.spec.request_bodies c.operation.request_body)

-- There is a content, and JSON has a schema in it.
abbrev pub IsJsonTyped : Option Content → Type 0
IsJsonTyped none = ⊥
IsJsonTyped (some content) =
    All (λ m. ((m.0 == "application/json") ≡ false) ⊎ (m.1 ≡ some true)) content

-- Not a GET, or there is no response 200, or one with a content in which JSON has a schema.
abbrev pub HasResponse : ValidationContext → Type 0
HasResponse c =
    ((c.method == "GET") ≡ false)
    ⊎ ((c.operation.status 200 ≡ none)
        ⊎ IsResolved IsJsonTyped c.spec.responses (c.operation.status 200))

-- Where the first of two ways is ruled out, the second one is left.
pub past : {P Q R : Type 0} → ¬ P → R ↔ Q → R ↔ (P ⊎ Q)
past not_p law = (λ h. inr (law.0 h), λ w. elim w [ inl p ↦ absurd (not_p p) | inr q ↦ law.1 q ])

two_failures :
    (a b : Bool) (s t : String)
    → failure_if a s ++ failure_if b t ≡ [] ↔ ((a ≡ false) × (b ≡ false))
two_failures a b s t =
    let both = append-nil_iff (failure_if a s) (failure_if b t) in
    let first = failure_if-nil_iff a s in
    let second = failure_if-nil_iff b t in
    (λ h. (first.0 (both.0 h).0, second.0 (both.0 h).1), λ h. both.1 (first.1 h.0, second.1 h.1))

pub validate_operation_documentation_iff :
    (decimal : ℕ → String) (c : ValidationContext)
    → validate_operation_documentation decimal c ≡ [] ↔ IsDocumented c
unfolding validate_operation_documentation
validate_operation_documentation_iff decimal c =
    by_extension (set_to_value (lookup extension_hidden c.operation.extensions))
  where
    by_extension :
        (b : Bool)
        → (if b
              then []
              else failure_if (c.operation.summary == "") "no documentation summary provided"
                ++ failure_if (is_empty c.operation.tags) "no documentation tag grouping provided")
            ≡ []
          ↔ ((b ≡ true)
              ⊎ (((c.operation.summary == "") ≡ false) × (is_empty c.operation.tags ≡ false)))
    by_extension true = (λ h. inl refl, λ h. refl)
    by_extension false =
        let both =
          two_failures (c.operation.summary == "") (is_empty c.operation.tags)
            "no documentation summary provided" "no documentation tag grouping provided" in
        (λ h. inr (both.0 h), λ h. elim h [ inl e ↦ cc | inr g ↦ both.1 g ])

pub some_iff : {P : Type 0} (failures : Failures) → failures ≡ [] ↔ P → some failures ≡ some [] ↔ P
some_iff failures law = (λ h. law.0 (cc), λ p. ap some (law.1 p))

-- Nothing failed and nothing panicked, in either of two steps.
and_rest_iff :
    {P Q : Type 0} (first later : Option Failures)
    → first ≡ some [] ↔ P
    → later ≡ some [] ↔ Q
    → and_rest first later ≡ some [] ↔ (P × Q)
and_rest_iff none later p q = (λ h. ground (arith), λ w. let e = p.1 w.0 in cc)
and_rest_iff (some xs) none p q = (λ h. ground (arith), λ w. let e = q.1 w.1 in cc)
and_rest_iff (some []) (some []) p q = (λ h. (p.0 refl, q.0 refl), λ w. refl)
and_rest_iff (some []) (some (y ∷ ys)) p q = (λ h. ground (arith), λ w. let e = q.1 w.1 in cc)
and_rest_iff (some (x ∷ xs)) (some ys) p q =
    (λ h. ground (arith), λ w. let e = p.1 w.0 in ground (arith))

schema_checked_iff :
    (text : String) (media : Option Bool)
    → schema_checked text media ≡ some [] ↔ (media ≡ some true)
schema_checked_iff text none = (λ h. ground (arith), λ h. ground (arith))
schema_checked_iff text (some true) = (λ h. refl, λ h. refl)
schema_checked_iff text (some false) = (λ h. ground (arith), λ h. ground (arith))

schemaless-nil_iff : (content : Content) → schemaless content ≡ some [] ↔ AllTyped content
schemaless-nil_iff [] = (λ h. tt, λ h. refl)
schemaless-nil_iff ((mime_type, media) ∷ rest) =
    and_rest_iff _ (schemaless rest) (schema_checked_iff _ media) (schemaless-nil_iff rest)

body_checked_iff : (o : Option Content) → body_checked o ≡ some [] ↔ IsThere AllTyped o
body_checked_iff none = (λ h. ground (arith), λ h. absurd h)
body_checked_iff (some content) = schemaless-nil_iff content

request_checked_iff :
    (spec : Spec) (r : Option (Ref Content))
    → request_checked spec r ≡ some [] ↔ IsResolved AllTyped spec.request_bodies r
request_checked_iff spec none = (λ h. ground (arith), λ h. absurd h)
request_checked_iff spec (some (value content)) = schemaless-nil_iff content
request_checked_iff spec (some (reference name)) =
    body_checked_iff (lookup name spec.request_bodies)

pub validate_request_validation_iff :
    (c : ValidationContext) → validate_request_validation c ≡ some [] ↔ HasBody c
unfolding validate_request_validation
validate_request_validation_iff c =
    by_tests (c.method == "POST") (c.method == "PUT") (has extension_no_body c.operation.extensions)
  where
    by_tests :
        (post put exempt : Bool)
        → (if not post && not put
              then some []
              else if exempt
              then some []
              else request_checked c.spec c.operation.request_body)
            ≡ some []
          ↔ (((post || put) ≡ false)
              ⊎ ((exempt ≡ true)
                  ⊎ IsResolved AllTyped c.spec.request_bodies c.operation.request_body))
    by_tests false false exempt = (λ h. inl refl, λ h. refl)
    by_tests true put true = (λ h. inr (inl refl), λ h. refl)
    by_tests false true true = (λ h. inr (inl refl), λ h. refl)
    by_tests true put false =
        past (λ e. cc) (past (λ e. cc) (request_checked_iff c.spec c.operation.request_body))
    by_tests false true false =
        past (λ e. cc) (past (λ e. cc) (request_checked_iff c.spec c.operation.request_body))

json_checked_iff :
    (json : Bool) (text : String) (media : Option Bool)
    → (if json then schema_checked text media else some []) ≡ some []
      ↔ ((json ≡ false) ⊎ (media ≡ some true))
json_checked_iff true text media = past (λ e. cc) (schema_checked_iff text media)
json_checked_iff false text media = (λ h. inl refl, λ h. refl)

json_schemaless_iff :
    (decimal : ℕ → String) (content : Content)
    → json_schemaless decimal content ≡ some [] ↔ IsJsonTyped (some content)
json_schemaless_iff decimal [] = (λ h. tt, λ h. refl)
json_schemaless_iff decimal ((mime_type, media) ∷ rest) =
    and_rest_iff _ (json_schemaless decimal rest)
      (json_checked_iff (mime_type == "application/json") _ media)
      (json_schemaless_iff decimal rest)

content_checked_iff :
    (decimal : ℕ → String) (content : Option Content)
    → content_checked decimal content ≡ some [] ↔ IsJsonTyped content
content_checked_iff decimal none = (λ h. ground (arith), λ h. absurd h)
content_checked_iff decimal (some content) = json_schemaless_iff decimal content

component_checked_iff :
    (decimal : ℕ → String) (o : Option (Option Content))
    → component_checked decimal o ≡ some [] ↔ IsThere IsJsonTyped o
component_checked_iff decimal none = (λ h. ground (arith), λ h. absurd h)
component_checked_iff decimal (some content) = content_checked_iff decimal content

response_checked_iff :
    (decimal : ℕ → String) (spec : Spec) (r : Option (Ref (Option Content)))
    → response_checked decimal spec r ≡ some []
      ↔ ((r ≡ none) ⊎ IsResolved IsJsonTyped spec.responses r)
response_checked_iff decimal spec none = (λ h. inl refl, λ h. refl)
response_checked_iff decimal spec (some (value content)) =
    past (λ e. cc) (content_checked_iff decimal content)
response_checked_iff decimal spec (some (reference name)) =
    past (λ e. cc) (component_checked_iff decimal (lookup name spec.responses))

pub validate_response_validation_iff :
    (decimal : ℕ → String) (c : ValidationContext)
    → validate_response_validation decimal c ≡ some [] ↔ HasResponse c
unfolding validate_response_validation
validate_response_validation_iff decimal c = by_method (c.method == "GET")
  where
    by_method :
        (b : Bool)
        → (if not b then some [] else response_checked decimal c.spec (c.operation.status 200))
            ≡ some []
          ↔ ((b ≡ false)
              ⊎ ((c.operation.status 200 ≡ none)
                  ⊎ IsResolved IsJsonTyped c.spec.responses (c.operation.status 200)))
    by_method false = (λ h. inl refl, λ h. refl)
    by_method true = past (λ e. cc) (response_checked_iff decimal c.spec (c.operation.status 200))

-- ===== src/Tools/OpenApi/Exact.antt =====
-- hack/validate_openapi/main.go: what the tool accepts.
use uni_core.Base.{
  ℕ, String, ◌≡◌, refl, ◌↔◌, Bool, true, false, Option, none, some, List, [], ◌∷◌, Dict, All, arith,
}
use uni_core.Tools.OpenApi.{
  Operation, PathItem, Spec, ValidationContext, Failures, validators, run_each, or_failed, both,
  at_operations, at_paths, validate,
}
use uni_core.Tools.OpenApi.Passing.{
  IsDocumented, HasBody, HasResponse, some_iff, validate_operation_documentation_iff,
  validate_request_validation_iff, validate_response_validation_iff,
}
use uni_core.Tools.OpenApi.Parameters.{IsFound, validate_operation_foundness_iff}
use uni_core.Tools.OpenApi.Security.{IsSecured, validate_operation_security_iff}

-- An operation is documented and secured, and has the responses and the schemas that it needs.
abbrev pub IsValid : ValidationContext → Type 0
IsValid c = IsDocumented c × (IsSecured c × (IsFound c × (HasBody c × HasResponse c)))

abbrev AreValid : Spec → PathItem → Dict Operation → Type 0
AreValid spec path = All (λ (method, operation).
    IsValid (record { spec = spec; method = method; path = path; operation = operation }))

abbrev pub IsValidSpec : Spec → Type 0
IsValidSpec spec = All (λ path. AreValid spec path path.operations) spec.paths

or_failed_iff :
    {P Q : Type 0} (v : Option Failures) (later : Option Bool)
    → v ≡ some [] ↔ P
    → later ≡ some false ↔ Q
    → or_failed v later ≡ some false ↔ (P × Q)
or_failed_iff none later p q = (λ h. ground (arith), λ w. let e = p.1 w.0 in cc)
or_failed_iff (some failures) none p q = (λ h. ground (arith), λ w. let e = q.1 w.1 in cc)
or_failed_iff (some []) (some false) p q = (λ h. (p.0 refl, q.0 refl), λ w. refl)
or_failed_iff (some []) (some true) p q = (λ h. ground (arith), λ w. let e = q.1 w.1 in cc)
or_failed_iff (some (x ∷ xs)) (some b) p q =
    (λ h. ground (arith), λ w. let e = p.1 w.0 in ground (arith))

last_iff :
    {P : Type 0} (v : Option Failures) → v ≡ some [] ↔ P → or_failed v (some false) ≡ some false ↔ P
last_iff none p = (λ h. ground (arith), λ w. let e = p.1 w in cc)
last_iff (some []) p = (λ h. p.0 refl, λ w. refl)
last_iff (some (x ∷ xs)) p = (λ h. ground (arith), λ w. let e = p.1 w in ground (arith))

both_iff :
    {P Q : Type 0} (first later : Option Bool)
    → first ≡ some false ↔ P
    → later ≡ some false ↔ Q
    → both first later ≡ some false ↔ (P × Q)
both_iff none later p q = (λ h. ground (arith), λ w. let e = p.1 w.0 in cc)
both_iff (some b) none p q = (λ h. ground (arith), λ w. let e = q.1 w.1 in cc)
both_iff (some false) (some false) p q = (λ h. (p.0 refl, q.0 refl), λ w. refl)
both_iff (some false) (some true) p q = (λ h. ground (arith), λ w. let e = q.1 w.1 in cc)
both_iff (some true) (some b) p q = (λ h. ground (arith), λ w. let e = p.1 w.0 in cc)

module _ (decimal : ℕ → String) where
  run_each_iff : (c : ValidationContext) → run_each (validators decimal) c ≡ some false ↔ IsValid c
  unfolding validators
  run_each_iff c = or_failed_iff _ _ (some_iff _ (validate_operation_documentation_iff decimal c)) (
      or_failed_iff _ _ (some_iff _ (validate_operation_security_iff decimal c)) (
        or_failed_iff _ _ (validate_operation_foundness_iff decimal c) (
          or_failed_iff _ _ (validate_request_validation_iff c)
            (last_iff _ (validate_response_validation_iff decimal c)))))

  at_operations_iff :
      (spec : Spec) (path : PathItem) (operations : Dict Operation)
      → at_operations decimal spec path operations ≡ some false ↔ AreValid spec path operations
  at_operations_iff spec path [] = (λ h. tt, λ h. refl)
  at_operations_iff spec path ((method, operation) ∷ rest) =
      both_iff _ _ (run_each_iff _) (at_operations_iff spec path rest)

  at_paths_iff :
      (spec : Spec) (paths : List PathItem)
      → at_paths decimal spec paths ≡ some false
        ↔ All (λ path. AreValid spec path path.operations) paths
  at_paths_iff spec [] = (λ h. tt, λ h. refl)
  at_paths_iff spec (path ∷ rest) =
      both_iff _ _ (at_operations_iff spec path path.operations) (at_paths_iff spec rest)

  -- The OpenAPI tool ends without a failure, and so without a panic on a nil pointer, exactly when
  -- every operation of every path is valid: it is hidden or has a summary and a tag; it says that
  -- it has no security, or has one requirement, a response 401 and, unless it opts out, 403; no
  -- parameter has a nil value, and it has a 404 unless no parameter in the path but those of RBAC
  -- is there; a POST or PUT that does not opt out has a body, found where it is a reference, in
  -- which each media type is there with a schema, and there may be none; and a GET with a response
  -- 200 has a content for it, found where it is a reference, in which JSON, if it is there, has a
  -- schema.
  pub validate_iff : (spec : Spec) → validate decimal spec ≡ some false ↔ IsValidSpec spec
  unfolding validate
  validate_iff spec = at_paths_iff spec spec.paths

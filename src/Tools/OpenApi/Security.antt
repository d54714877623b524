-- ===== src/Tools/OpenApi/Security.antt =====
-- hack/validate_openapi/main.go: what the validator of security accepts.
use uni_core.Base.{
  ℕ, String, ◌≡◌, refl, ap, ◌↔◌, ◌⊎◌, inl, Bool, true, false, not, Option, none, some, [], has,
  is_some, nat_eq, arith, if◌then◌else◌,
}
use uni_core.Tools.OpenApi.{
  ValidationContext, must_include_status_code, validate_operation_security, failure_if, secured,
  extension_no_security_requirements, extension_no_authorization,
}
use uni_core.Tools.OpenApi.Passing.{
  append-nil_iff, failure_if-nil_iff, failure_if-not-nil_iff, past,
}

-- Either the endpoint says that it has no security, or it has one requirement, and the responses 401
-- and, unless it says that nothing is authorized, 403.
abbrev pub IsClosed : ValidationContext → Type 0
IsClosed c =
    (c.operation.security ≡ some 1)
    × ((is_some (c.operation.status 401) ≡ true)
        × ((has extension_no_authorization c.operation.extensions ≡ true)
            ⊎ (is_some (c.operation.status 403) ≡ true)))

abbrev pub IsSecured : ValidationContext → Type 0
IsSecured c = (has extension_no_security_requirements c.operation.extensions ≡ true) ⊎ IsClosed c

module _ (decimal : ℕ → String) (c : ValidationContext) where
  authorized_iff :
      (b : Bool)
      → (if b then [] else must_include_status_code decimal c 403) ≡ []
        ↔ ((b ≡ true) ⊎ (is_some (c.operation.status 403) ≡ true))
  unfolding must_include_status_code
  authorized_iff true = (λ h. inl refl, λ h. refl)
  authorized_iff false =
      past (λ e. cc) (failure_if-not-nil_iff (is_some (c.operation.status 403)) _)

  single_iff : (n : ℕ) (text : String) → failure_if (not (nat_eq n 1)) text ≡ [] ↔ (some n ≡ some 1)
  single_iff n text =
      let none_failed = failure_if-nil_iff (not (nat_eq n 1)) text in
      (
        λ h. let e = none_failed.0 h in ap some (ground (arith)),
        λ h. let e : n ≡ 1 = cc in none_failed.1 (ground (arith)),
      )

  secured_iff :
      (security : Option ℕ)
      → secured decimal c security ≡ [] ↔ (
          (security ≡ some 1)
          × ((is_some (c.operation.status 401) ≡ true)
              × ((has extension_no_authorization c.operation.extensions ≡ true)
                  ⊎ (is_some (c.operation.status 403) ≡ true))))
  unfolding must_include_status_code
  secured_iff none = (λ h. ground (arith), λ h. ground (arith))
  secured_iff (some n) =
      let text : String = "security requirements must have only one security requirement" in
      let single = single_iff n text in
      let unauthorized = failure_if-not-nil_iff (is_some (c.operation.status 401)) _ in
      let forbidden = authorized_iff (has extension_no_authorization c.operation.extensions) in
      let codes = append-nil_iff (must_include_status_code decimal c 401) _ in
      let all = append-nil_iff (failure_if (not (nat_eq n 1)) text) _ in
      (
        λ h.
            let (one, later) = all.0 h in
            let (first, second) = codes.0 later in
            (single.0 one, (unauthorized.0 first, forbidden.0 second)),
        λ w. all.1 (single.1 w.0, codes.1 (unauthorized.1 w.1.0, forbidden.1 w.1.1)),
      )

  -- The validation of security passes exactly an operation that is secured.
  pub validate_operation_security_iff : validate_operation_security decimal c ≡ [] ↔ IsSecured c
  unfolding validate_operation_security
  validate_operation_security_iff =
      by_extension (has extension_no_security_requirements c.operation.extensions)
    where
      by_extension :
          (b : Bool)
          → (if b then [] else secured decimal c c.operation.security) ≡ []
            ↔ ((b ≡ true) ⊎ IsClosed c)
      by_extension true = (λ h. inl refl, λ h. refl)
      by_extension false = past (λ e. cc) (secured_iff c.operation.security)

-- ===== src/Tools/OpenApi/Parameters.antt =====
-- hack/validate_openapi/main.go: what the validator of the response 404 accepts.
use uni_core.Base.{
  ℕ, String, ◌≡◌, refl, sym, ◌∙◌, contains, eq_iff, ◌↔◌, ◌⊎◌, inl, Bool, true, false, not, ◌&&◌,
  Option, none, some, List, [], ◌∷◌, ◌++◌, select-nil_iff, false≢true, is_some, is_empty, select,
  All, arith, ◌==◌, if◌then◌else◌,
}
use uni_core.Tools.OpenApi.{
  Parameter, ValidationContext, must_include_status_code, is_identifying, and_value, all_values,
  found_checked, validate_operation_foundness,
}
use uni_core.Tools.OpenApi.Passing.{IsThere, past, some_iff, failure_if-not-nil_iff}

-- The parameter says which of the resources in an organization and a project is meant.
abbrev pub identifies : Parameter → Bool
identifies p =
    (p.location == "path") && (not (p.name == "projectID") && not (p.name == "organizationID"))

-- No parameter is nil, and none identifies a resource or there is a 404.
abbrev pub IsFound : ValidationContext → Type 0
IsFound c =
    All (IsThere (λ p. Unit)) (c.path.parameters ++ c.operation.parameters)
    × (All (IsThere (λ p. identifies p ≡ false)) (c.path.parameters ++ c.operation.parameters)
        ⊎ (is_some (c.operation.status 404) ≡ true))

identifying_eq : (p : Parameter) → is_identifying p ≡ identifies p
unfolding contains
identifying_eq p = ground (
  arith,
  eq_iff p.name "organizationID",
  eq_iff p.name "projectID",
  eq_iff "organizationID" p.name,
  eq_iff "projectID" p.name,
)

abbrev AllGiven : List (Option Parameter) → Type 0
AllGiven = All (IsThere (λ p. Unit))

abbrev NoneIdentifies : List (Option Parameter) → Type 0
NoneIdentifies = All (IsThere (λ p. identifies p ≡ false))

-- The values are there where no parameter is nil, and then none identifies a resource exactly when none
-- of the parameters does.
abbrev ValuesOf : List (Option Parameter) → Option (List Parameter) → Type 0
ValuesOf parameters none = ¬ AllGiven parameters
ValuesOf parameters (some values) =
    AllGiven parameters × (All (λ p. is_identifying p ≡ false) values ↔ NoneIdentifies parameters)

and_value-ValuesOf :
    (p : Option Parameter) (ps : List (Option Parameter)) (values : Option (List Parameter))
    → ValuesOf ps values
    → ValuesOf (p ∷ ps) (and_value p values)
and_value-ValuesOf none ps values v = λ h. h.0
and_value-ValuesOf (some p) ps none v = λ h. v h.1
and_value-ValuesOf (some p) ps (some values) (given, law) = (
  (tt, given),
  (λ h. (sym (identifying_eq p) ∙ h.0, law.0 h.1), λ h. (identifying_eq p ∙ h.0, law.1 h.1)),
)

all_values-ValuesOf : (ps : List (Option Parameter)) → ValuesOf ps (all_values ps)
all_values-ValuesOf [] = (tt, (λ h. tt, λ h. tt))
all_values-ValuesOf (p ∷ ps) = and_value-ValuesOf p ps (all_values ps) (all_values-ValuesOf ps)

pub validate_operation_foundness_iff :
    (decimal : ℕ → String) (c : ValidationContext)
    → validate_operation_foundness decimal c ≡ some [] ↔ IsFound c
unfolding validate_operation_foundness must_include_status_code
validate_operation_foundness_iff decimal c =
    by_values (all_values parameters) (all_values-ValuesOf parameters)
  where
    parameters : List (Option Parameter)
    parameters = c.path.parameters ++ c.operation.parameters

    by_test :
        (b : Bool)
        → b ≡ true ↔ NoneIdentifies parameters
        → (if b then [] else must_include_status_code decimal c 404) ≡ []
          ↔ (NoneIdentifies parameters ⊎ (is_some (c.operation.status 404) ≡ true))
    by_test true none_left = (λ h. inl (none_left.0 refl), λ h. refl)
    by_test false none_left =
        past (λ all. false≢true (none_left.1 all))
          (failure_if-not-nil_iff (is_some (c.operation.status 404)) _)

    by_values :
        (values : Option (List Parameter))
        → ValuesOf parameters values
        → found_checked decimal c values ≡ some [] ↔ IsFound c
    by_values none v = (λ h. ground (arith), λ h. absurd (v h.0))
    by_values (some values) (given, law) =
        let left = select-nil_iff is_identifying values in
        let test =
          by_test (is_empty (select is_identifying values))
            (λ h. law.0 (left.0 h), λ h. left.1 (law.1 h)) in
        let all = some_iff _ test in (λ h. (given, all.0 h), λ h. all.1 h.1)

-- ===== src/Server/Ownership.antt =====
-- pkg/server/util/rbac.go: whether a resource belongs to the organization, and to the project, that a
-- client names. A resource is its labels.
use uni_core.Base.{
  String, ◌≡◌, refl, ap, ◌↔◌, not, Option, none, some, Dict, lookup, eq_iff, arith, ◌==◌,
  if◌then◌else◌,
}
use uni_core.Errors.{GoError, sentinel, wrap, err_consistency}
use uni_core.Api.Names.{organization_label, project_label}
use uni_core.Server.Errors.{as_go, http_not_found}

abbrev compared : String → String → Option String → Option GoError
compared missing asked none = some (wrap missing (sentinel err_consistency))
compared missing asked (some id) = if not (id == asked) then some (as_go http_not_found) else none

unfoldable assert_organization_ownership : Dict String → String → Option GoError
assert_organization_ownership labels organization_id =
    compared "resource missing organization label" organization_id
      (lookup organization_label labels)

-- `if err := …; err != nil { return err }` and the second check.
abbrev both_checks : Option GoError → Option GoError → Option GoError
both_checks none second = second
both_checks (some e) second = some e

unfoldable assert_project_ownership : Dict String → String → String → Option GoError
unfolding assert_organization_ownership
assert_project_ownership labels organization_id project_id =
    both_checks (assert_organization_ownership labels organization_id)
      (compared "resource missing projectlabel" project_id (lookup project_label labels))

compared-nil :
    (missing asked : String) (found : Option String)
    → compared missing asked found ≡ none ↔ (found ≡ some asked)
compared-nil missing asked none = (λ h. ground (arith), λ h. ground (arith))
compared-nil missing asked (some id) =
    (λ h. ap some ((eq_iff id asked).0 (ground (arith))), λ h. ground (arith, h, eq_iff id asked))

both_checks-nil :
    (first second : Option GoError)
    → both_checks first second ≡ none ↔ ((first ≡ none) × (second ≡ none))
both_checks-nil none second = (λ h. (refl, h), λ h. h.1)
both_checks-nil (some e) second = (λ h. ground (arith), λ h. h.0)

-- AssertProjectOwnership returns nil exactly when the resource's organization and project labels
-- are there and are those that it is asked about.
assert_project_ownership-nil :
    (labels : Dict String) (organization_id project_id : String)
    → assert_project_ownership labels organization_id project_id ≡ none ↔ (
        (lookup organization_label labels ≡ some organization_id)
        × (lookup project_label labels ≡ some project_id))
unfolding assert_project_ownership
assert_project_ownership-nil labels organization_id project_id =
    let organization =
      compared-nil "resource missing organization label" organization_id
        (lookup organization_label labels) in
    let project =
      compared-nil "resource missing projectlabel" project_id (lookup project_label labels) in
    let both =
      both_checks-nil
        (compared "resource missing organization label" organization_id
          (lookup organization_label labels))
        (compared "resource missing projectlabel" project_id (lookup project_label labels)) in
    (
      λ h. (organization.0 (both.0 h).0, project.0 (both.0 h).1),
      λ h. both.1 (organization.1 h.0, project.1 h.1),
    )

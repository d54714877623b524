-- ===== src/Provisioners/Errors.antt =====
-- pkg/provisioners/errors.go: the constructors of provisioning errors and `IsTerminal`.
pub mod Disposition
use uni_core.Base.{
  ℕ, String, str_append, Bool, ◌||◌, Option, none, some, List, [], ◌∷◌, Dict, lookup, ◌==◌,
  if◌then◌else◌,
}
use uni_core.Errors.{
  Sentinel, err_yield, err_terminal, err_user_action_required, GoError, sentinel, provisioning,
  ProvisioningError, is_error, Result, ok, err,
}
use uni_core.Api.Reason
use uni_core.Api.Names.{name_label}

unfoldable pub new_error : GoError → String → String → ProvisioningError
new_error disposition reason message = record {
  disposition = disposition;
  reason = reason;
  message = message;
}

-- A *provisioners.Error in the place of an `error`.
abbrev pub as_error : ProvisioningError → GoError
as_error e = provisioning e.disposition e.reason e.message

unfoldable pub terminal : String → String → ProvisioningError
unfolding new_error
terminal reason message = new_error (sentinel err_terminal) reason message

unfoldable pub user_action_required : String → String → ProvisioningError
unfolding new_error
user_action_required reason message = new_error (sentinel err_user_action_required) reason message

unfoldable pub yield : String → String → ProvisioningError
unfolding new_error
yield reason message = new_error (sentinel err_yield) reason message

-- What the dependency errors read of a resource: the kinds that the scheme gives it, or an error,
-- its name and its labels. `quote` is Go's %q.
pub record Described : Type 0 where
  pub kinds : Result (List String)
  pub object_name : String
  pub labels : Dict String

abbrev kind_of : Result (List String) → String
kind_of (ok (kind ∷ rest)) = kind
kind_of (ok []) = "resource"
kind_of (err e) = "resource"

abbrev name_of : Option String → String
name_of none = ""
name_of (some name) = name

module _ (quote : String → String) where
  unfoldable pub describe_resource : Described → String
  describe_resource o =
      let kind = kind_of o.kinds in
      let name = name_of (lookup name_label o.labels) in
      if name == ""
      then str_append kind (str_append " " o.object_name)
      else str_append kind (
          str_append " " (str_append (quote name) (str_append " (" (str_append o.object_name ")"))))

  unfoldable pub dependency_not_ready : Described → ProvisioningError
  unfolding yield
  dependency_not_ready o =
      yield Reason.dependency_not_ready (str_append (describe_resource o) " is not ready")

  unfoldable pub dependency_failed : Described → ProvisioningError
  unfolding yield
  dependency_failed o =
      yield Reason.dependency_failed (str_append (describe_resource o) " has failed")

  unfoldable pub dependency_not_found : Described → ProvisioningError
  unfolding terminal
  dependency_not_found o =
      terminal Reason.dependency_not_found (str_append (describe_resource o) " does not exist")

unfoldable pub is_terminal : GoError → Bool
unfolding is_error
is_terminal e = is_error e err_terminal || is_error e err_user_action_required

-- ===== src/Tests/Provisioning.antt =====
-- pkg/provisioners on concrete groups. The world is the list of the members that were called.
use mathlib.Core.List.{reverse}
use uni_core.Base.{String, ◌≡◌, refl, Bool, true, false, Option, none, some, List, [], ◌∷◌, map}
use uni_core.Errors.{
  ProvisioningError, wrap, http_caused, GoError, sentinel, foreign, err_yield, ok,
}
use uni_core.Provisioners.Interface.{Provisioner, in_order}
use uni_core.Provisioners.Serial.{SerialProvisioner}
use uni_core.Provisioners.Serial
use uni_core.Provisioners.Serial.Order.{deprovision-reverse}
use uni_core.Provisioners.Resource.{ResourceClient}
use uni_core.Provisioners.Errors.{Described, as_error, user_action_required}
use uni_core.Provisioners.Errors.Disposition.{
  Behaves, ask_user, by_user_action_required, in_text, as_cause, itself, wrapped_disposition,
}

abbrev Calls : Type 0
Calls = List String

abbrev member : String → Option GoError → Provisioner Calls
member name e = record {
  provisioner_name = name;
  provision = λ w. (e, name ∷ w);
  deprovision = λ w. (none, name ∷ w);
}

abbrev members : List (Provisioner Calls)
members =
    member "network" none ∷ member "cluster" (some (sentinel err_yield)) ∷ member "addon" none ∷ []

abbrev in_series : SerialProvisioner Calls
in_series = record { name = "series"; provisioners = members }

deprovision-reverse_example :
    Serial.deprovision in_series [] ≡ in_order (map (λ p. p.deprovision) (reverse members)) []
deprovision-reverse_example = deprovision-reverse in_series []

abbrev gone : GoError
gone = foreign "not found"

-- The world is whether the object exists.
abbrev to_object : ResourceClient Bool Bool
to_object = record {
  cluster_from_context = ok (record {});
  create_or_update = λ o w. (none, o);
  delete = λ o w. (some gone, false);
  is_not_found = λ e. true;
}

abbrev invalid_flavor : ProvisioningError
invalid_flavor = user_action_required "InvalidFlavor" "no such flavor"

abbrev invalid_cluster : GoError
invalid_cluster =
    wrap "cluster" (http_caused 500 "server_error" "" [] (wrap "pool" (as_error invalid_flavor)))

wrapped_disposition_example : Behaves ask_user invalid_flavor invalid_cluster
wrapped_disposition_example =
    wrapped_disposition (λ s. s) invalid_flavor ask_user invalid_cluster
      (by_user_action_required "InvalidFlavor" "no such flavor" refl)
      (in_text "cluster" _ (as_cause 500 "server_error" "" [] _ (in_text "pool" _ itself)))

abbrev identity_resource : Described
identity_resource = record { kinds = ok ("Identity" ∷ []); object_name = "id-1"; labels = [] }

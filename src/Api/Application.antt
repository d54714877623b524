-- ===== src/Api/Application.antt =====
-- pkg/apis/unikorn/v1alpha1/helmapplication_types.go and helmapplication_helpers.go: applications and
-- their versions. `S` is the type of semantic versions, which another package compares and prints.
use uni_core.Base.{String, Bool, Option, List, [], ◌∷◌, Dict, if◌then◌else◌}
use uni_core.Errors.{sentinel, wrap, version_not_found, Result, ok, err}

pub record SemanticVersions (S : Type 0) : Type 0 where
  pub equal : S → S → Bool
  pub original : S → String

pub record HelmApplicationParameter : Type 0 where
  pub name : String
  pub value : String

pub record HelmApplicationVersion (S : Type 0) : Type 0 where
  pub repo : Option String
  pub chart : Option String
  pub branch : Option String
  pub path : Option String
  pub version : S
  pub release : Option String
  pub parameters : List HelmApplicationParameter
  pub namespace : Option String
  pub create_namespace : Option Bool
  pub server_side_apply : Option Bool

pub record HelmApplication (S : Type 0) : Type 0 where
  pub labels : Dict String
  pub versions : List (HelmApplicationVersion S)

module _ {S : Type 0} (sv : SemanticVersions S) where
  unfoldable pub find_version :
      List (HelmApplicationVersion S) → S → Result (HelmApplicationVersion S)
  find_version [] version = err (wrap (sv.original version) (sentinel version_not_found))
  find_version (v ∷ vs) version =
      let later = find_version vs version in if sv.equal v.version version then ok v else later

  unfoldable pub get_version : HelmApplication S → S → Result (HelmApplicationVersion S)
  unfolding find_version
  get_version a version = find_version a.versions version

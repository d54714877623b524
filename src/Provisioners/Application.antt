-- ===== src/Provisioners/Application.antt =====
-- pkg/provisioners/application: a provisioner of a Helm application. `W` is the state of the world, `C`
-- the type of clients, `S` of semantic versions and `V` of Helm values. What a generator and the getter
-- are asked for is read from the world and leaves it alone, and only the hooks and the driver change it.
pub mod Success
use uni_core.Base.{
  String, Bool, true, false, not, Option, none, some, List, [], ◌∷◌, ◌++◌, map, Dict, lookup, ◌==◌,
  if◌then◌else◌,
}
use mathlib.Core.Option
use uni_core.Base.Sorting.{sort}
use uni_core.Errors.{GoError, foreign, Result, ok, err, ◌>>=◌}
use uni_core.Api.Names.{name_label}
use uni_core.Api.Application.{SemanticVersions, HelmApplicationVersion, get_version}
use uni_core.Api.Application as ApiApplication
use uni_core.Cd.{
  ResourceIdentifier, ResourceIdentifierLabel, HelmApplication, HelmApplicationParameter,
  HelmApplicationField,
}
use uni_core.Provisioners.Interface.{Outcome, Task, and_then}
use uni_core.Provisioners.Context.{
  Context, ClusterContext, cluster_from_context, background_deletion_from_context,
}

-- The interfaces of interfaces.go that a generator implements. A map is the list of its entries in the
-- order in which it is ranged over.
pub record Generator (W C S V : Type 0) : Type 0 where
  pub release_name : Option (Context C → W → String)
  pub parameters : Option (Context C → S → W → Result (Dict String))
  pub values : Option (Context C → S → W → Result (Option V))
  pub namespace_metadata :
      Option (Context C → S → W → Result (Option (Dict String) × Option (Dict String)))
  pub customize : Option (S → W → Result (List HelmApplicationField))
  pub post_provision : Option (Context C → Task W)
  pub pre_deprovision : Option (Context C → Task W)

pub record Driver (W V : Type 0) : Type 0 where
  pub create_or_update_helm_application : ResourceIdentifier → HelmApplication V → Task W
  pub delete_helm_application : ResourceIdentifier → Bool → Task W

-- No generator is one that implements none of the interfaces. `resource_labels` are those of the
-- resource in the context.
pub record ApplicationProvisioner (W C S V : Type 0) : Type 0 where
  pub name : String
  pub namespace : String
  pub generator : Generator W C S V
  pub allow_degraded : Bool
  pub application_getter : Context C → W → Result (ApiApplication.HelmApplication S × S)
  pub resource_labels : Context C → W → Result (Dict String)

abbrev or_default : {A : Type 0} → A → Option A → A
or_default a none = a
or_default a (some b) = b

abbrev label_at : Dict String → String → ResourceIdentifierLabel
label_at m key = record { name = key; value = or_default "" (lookup key m) }

-- The labels of a map in the order of their names.
unfoldable pub ordered_labels : Dict String → List ResourceIdentifierLabel
ordered_labels m = map (label_at m) (sort (map (λ e. e.0) m))

abbrev identified : String → Dict String → ResourceIdentifier
identified name m = record { name = name; labels = ordered_labels m }

abbrev override_name : String → String → String
override_name name override = if not (override == "") then override else name

-- An interface that is not implemented gives nil.
abbrev asked : {A : Type 0} → A → Option (Result A) → Result A
asked a none = ok a
asked a (some r) = r

abbrev converted : {S : Type 0} → HelmApplicationVersion S → List HelmApplicationParameter
converted v = map (λ x. record { name = x.name; value = x.value }) v.parameters

abbrev as_parameters : Dict String → List HelmApplicationParameter
as_parameters m = map (λ e. record { name = e.0; value = e.1 }) m

-- A nil pointer is dereferenced where there is no repository.
abbrev repository : Option String → Result String
repository none = err (foreign "nil pointer dereference")
repository (some repo) = ok repo

abbrev hooked : {W C : Type 0} → Option (Context C → Task W) → Context C → Task W
hooked none ctx w = (none, w)
hooked (some hook) ctx w = hook ctx w

unfoldable pub get_cluster_id : {C : Type 0} → Context C → Result (Option ResourceIdentifier)
unfolding cluster_from_context
get_cluster_id ctx = do c ← cluster_from_context ctx; ok c.id

module _ {W C S V : Type 0} where
  unfoldable pub get_resource_id :
      ApplicationProvisioner W C S V → Context C → W → Result ResourceIdentifier
  unfolding ordered_labels
  get_resource_id p ctx w = do m ← p.resource_labels ctx w; ok (identified p.name m)

  unfoldable pub get_release_name :
      ApplicationProvisioner W C S V → HelmApplicationVersion S → Context C → W → String
  get_release_name p v ctx w =
      let name = or_default "" v.release in
      elim p.generator.release_name [
        | none ↦ name
        | some release_name ↦ override_name name (release_name ctx w)
      ]

  unfoldable pub get_parameters :
      ApplicationProvisioner W C S V
      → HelmApplicationVersion S
      → Context C
      → W
      → Result (List HelmApplicationParameter)
  get_parameters p v ctx w = do
    more ← asked [] (Option.map (λ f. f ctx v.version w) p.generator.parameters)
    ok (converted v ++ as_parameters more)

  unfoldable pub get_values :
      ApplicationProvisioner W C S V → HelmApplicationVersion S → Context C → W → Result (Option V)
  get_values p v ctx w = asked none (Option.map (λ f. f ctx v.version w) p.generator.values)

  unfoldable pub get_namespace_metadata :
      ApplicationProvisioner W C S V
      → HelmApplicationVersion S
      → Context C
      → W
      → Result (Option (Dict String) × Option (Dict String))
  get_namespace_metadata p v ctx w =
      asked (none, none) (Option.map (λ f. f ctx v.version w) p.generator.namespace_metadata)

  unfoldable pub get_namespace : ApplicationProvisioner W C S V → HelmApplicationVersion S → String
  get_namespace p v =
      if not (p.namespace == "") then p.namespace else or_default "default" v.namespace

  module _ (sv : SemanticVersions S) where
    unfoldable pub generate_application :
        ApplicationProvisioner W C S V
        → HelmApplicationVersion S
        → Context C
        → W
        → Result (HelmApplication V)
    unfolding get_parameters get_values get_cluster_id get_release_name get_namespace
        get_namespace_metadata
    generate_application p v ctx w = do
      parameters ← get_parameters p v ctx w
      values ← get_values p v ctx w
      cluster ← get_cluster_id ctx
      repo ← repository v.repo
      metadata ← get_namespace_metadata p v ctx w
      differences ← asked [] (Option.map (λ f. f v.version w) p.generator.customize)
      ok (record {
        repo = repo;
        chart = or_default "" v.chart;
        branch = or_default "" v.branch;
        path = or_default "" v.path;
        version = sv.original v.version;
        release = get_release_name p v ctx w;
        parameters = parameters;
        values = values;
        cluster = cluster;
        namespace = get_namespace p v;
        create_namespace = or_default false v.create_namespace;
        namespace_metadata = record { labels = metadata.0; annotations = metadata.1 };
        ignore_differences = differences;
        server_side_apply = or_default false v.server_side_apply;
        allow_degraded = p.allow_degraded;
      })

    -- The provisioner with the name of the application, and the version to use. Where it fails, the
    -- name that it may have set is not kept.
    unfoldable pub initialize :
        ApplicationProvisioner W C S V
        → Context C
        → W
        → Result (ApplicationProvisioner W C S V × HelmApplicationVersion S)
    unfolding get_version
    initialize p ctx w = do
      got ← p.application_getter ctx w
      v ← get_version sv got.0 got.1
      ok (record p { name = or_default "" (lookup name_label got.0.labels) }, v)

    -- What the driver is asked for.
    unfoldable pub prepare :
        ApplicationProvisioner W C S V
        → Context C
        → W
        → Result (ResourceIdentifier × HelmApplication V)
    unfolding initialize get_resource_id generate_application
    prepare p ctx w = do
      ready ← initialize p ctx w
      id ← get_resource_id ready.0 ctx w
      app ← generate_application ready.0 ready.1 ctx w
      ok (id, app)

    abbrev pub provision_prepared :
        ApplicationProvisioner W C S V
        → Driver W V
        → Context C
        → Result (ResourceIdentifier × HelmApplication V)
        → Task W
    provision_prepared p d ctx (err e) w = (some e, w)
    provision_prepared p d ctx (ok (id, app)) w =
        and_then (d.create_or_update_helm_application id app w)
          (hooked p.generator.post_provision ctx)

    unfoldable pub provision : ApplicationProvisioner W C S V → Driver W V → Context C → Task W
    unfolding prepare
    provision p d ctx w = provision_prepared p d ctx (prepare p ctx w) w

    unfoldable pub identify :
        ApplicationProvisioner W C S V → Context C → W → Result ResourceIdentifier
    unfolding initialize get_resource_id
    identify p ctx w = do ready ← initialize p ctx w; get_resource_id ready.0 ctx w

    abbrev pub deprovision_identified : Driver W V → Context C → Result ResourceIdentifier → Task W
    deprovision_identified d ctx (err e) w = (some e, w)
    deprovision_identified d ctx (ok id) w =
        d.delete_helm_application id (background_deletion_from_context ctx) w

    unfoldable pub deprovision : ApplicationProvisioner W C S V → Driver W V → Context C → Task W
    unfolding identify background_deletion_from_context
    deprovision p d ctx w =
        and_then (hooked p.generator.pre_deprovision ctx w)
          (λ u. deprovision_identified d ctx (identify p ctx u) u)

-- ===== src/Provisioners/RemoteCluster.antt =====
-- pkg/provisioners/remotecluster/provisioner.go: provisioners that run another one on a remote
-- cluster. `W` is the state of the world. What the provisioners of one remote cluster share is the
-- count of how many of them came to their turn at the lock, which is passed along.
pub mod Removal
pub mod Registration
use uni_core.Base.{
  ℕ, zero, suc, ◌+◌, String, Bool, true, false, not, ◌&&◌, Option, none, some, List, [], ◌∷◌,
  lookup, is_some, nat_eq, ◌==◌, if◌then◌else◌,
}
use uni_core.Errors.{GoError, sentinel, wrap, err_yield, err_kubeconfig, is_error, Result, ok, err}
use uni_core.Cd.{ResourceIdentifier, KubeContext, KubeCluster, KubeConfig, Cluster}
use uni_core.Provisioners.Interface.{Outcome, Task}
use uni_core.Provisioners.Context.{
  Context, ClusterContext, new_context_with_cluster, new_context_with_background_deletion,
}

pub record Url : Type 0 where
  pub scheme : String
  pub host : String

-- Other code: url.Parse, net.SplitHostPort, and the client that is built for a configuration.
pub record NetCode (C : Type 0) : Type 0 where
  pub parse_url : String → Result Url
  pub split_host_port : String → Option (String × String)
  pub build_client : KubeConfig → Result C

-- provisioners.RemoteCluster, and the operations of cd.Driver on clusters.
pub record RemoteGenerator (W : Type 0) : Type 0 where
  pub id : ResourceIdentifier
  pub config : W → Result KubeConfig × W

pub record ClusterDriver (W : Type 0) : Type 0 where
  pub create_or_update_cluster : ResourceIdentifier → Cluster → Task W
  pub delete_cluster : ResourceIdentifier → Task W

-- The fields that do not change once the provisioners are made.
pub record RemoteCluster (W : Type 0) : Type 0 where
  pub generator : RemoteGenerator W
  pub controller : Bool
  pub ref_count : ℕ

-- A child's operations are given the context that they are run in.
pub record RemoteClusterProvisioner (W C : Type 0) : Type 0 where
  pub child_provision : Context C → Task W
  pub child_deprovision : Context C → Task W
  pub background_deletion : Bool
  pub prefix : String

-- The count, and the world.
abbrev pub Shared : Type 0 → Type 0
Shared W = ℕ × W

abbrev pub url_of : {C : Type 0} → NetCode C → Option KubeCluster → Result Url
url_of net none = err (wrap "unable to lookup cluster" (sentinel err_kubeconfig))
url_of net (some cluster) = net.parse_url cluster.server

unfoldable pub get_kubernetes_url : {C : Type 0} → NetCode C → KubeConfig → Result Url
get_kubernetes_url net config = elim (lookup config.current_context config.contexts) [
  | none ↦ err (wrap "unable to lookup context" (sentinel err_kubeconfig))
  | some context ↦ url_of net (lookup context.cluster config.clusters)
]

unfoldable pub get_host_port : {C : Type 0} → NetCode C → Url → String × String
get_host_port net url = elim (net.split_host_port url.host) [
  | none ↦
      (url.host, if url.scheme == "http" then "80" else if url.scheme == "https" then "443" else "")
  | some both ↦ both
]

abbrev built : {C : Type 0} → Result C → KubeConfig → Result (C × KubeConfig)
built (err e) config = err e
built (ok client) config = ok (client, config)

unfoldable pub new : {W : Type 0} → RemoteGenerator W → Bool → RemoteCluster W
new generator controller = record { generator = generator; controller = controller; ref_count = 0 }

-- ProvisionerOption
abbrev pub ProvisionerOption : Type 0 → Type 0 → Type 0
ProvisionerOption W C = RemoteClusterProvisioner W C → RemoteClusterProvisioner W C

module _ {W C : Type 0} where
  unfoldable pub background_deletion : ProvisionerOption W C
  background_deletion p = record p { background_deletion = true }

  unfoldable pub with_prefix : String → ProvisionerOption W C
  with_prefix prefix p = record p { prefix = prefix }

  abbrev applied :
      List (ProvisionerOption W C) → RemoteClusterProvisioner W C → RemoteClusterProvisioner W C
  applied [] p = p
  applied (o ∷ os) p = applied os (o p)

  -- Each provisioner that is made is counted.
  unfoldable pub provision_on :
      RemoteCluster W
      → (Context C → Task W)
      → (Context C → Task W)
      → List (ProvisionerOption W C)
      → RemoteCluster W × RemoteClusterProvisioner W C
  provision_on r child_provision child_deprovision options = (
    record r { ref_count = r.ref_count + 1 },
    applied options (record {
      child_provision = child_provision;
      child_deprovision = child_deprovision;
      background_deletion = false;
      prefix = "";
    }),
  )

module _ {W C : Type 0} (net : NetCode C) where
  abbrev configured : Result KubeConfig × W → Result (C × KubeConfig) × W
  configured (err e, w) = (err e, w)
  configured (ok config, w) = (built (net.build_client config) config, w)

  unfoldable pub get_client : RemoteCluster W → W → Result (C × KubeConfig) × W
  get_client r w = configured (r.generator.config w)

  -- The context of the child, once the client is there.
  abbrev located : RemoteCluster W → Context C → C → Result Url → Result (Context C)
  located r ctx client (err e) = err e
  located r ctx client (ok url) =
      let address = get_host_port net url in
      ok (
        new_context_with_cluster ctx (record {
          client = client;
          id = some r.generator.id;
          host = address.0;
          port = address.1;
        }))

  unfoldable pub remote_context : RemoteCluster W → Context C → C × KubeConfig → Result (Context C)
  unfolding get_kubernetes_url get_host_port new_context_with_cluster
  remote_context r ctx (client, config) = located r ctx client (get_kubernetes_url net config)

  -- Every error of the driver is a yield.
  abbrev pub yielding : Outcome W → Outcome W
  yielding (none, w) = (none, w)
  yielding (some e, w) = (some (sentinel err_yield), w)

  abbrev pub create_with :
      ClusterDriver W → ResourceIdentifier → String → Result KubeConfig × W → Outcome W
  create_with d id prefix (err e, w) = (some e, w)
  create_with d id prefix (ok config, w) =
      yielding (d.create_or_update_cluster id (record { config = config; prefix = prefix }) w)

  abbrev pub counted : ℕ → Outcome W → Outcome (Shared W)
  counted n (e, w) = (e, (n, w))

  -- With the lock held: the first one to come reconciles the cluster.
  unfoldable pub provision_remote :
      RemoteCluster W → ClusterDriver W → RemoteClusterProvisioner W C → Task (Shared W)
  provision_remote r d p (n, w) =
      let current = n + 1 in
      if r.controller && nat_eq current 1
      then counted current (create_with d r.generator.id p.prefix (r.generator.config w))
      else (none, (current, w))

  abbrev pub child_in : (Context C → Task W) → Result (Context C) → Task W
  child_in child (err e) w = (some e, w)
  child_in child (ok ctx) w = child ctx w

  abbrev pub provision_child :
      RemoteCluster W
      → RemoteClusterProvisioner W C
      → Context C
      → Result (C × KubeConfig) × W
      → Outcome W
  provision_child r p ctx (err e, w) = (some e, w)
  provision_child r p ctx (ok c, w) = child_in p.child_provision (remote_context r ctx c) w

  abbrev pub provision_then :
      RemoteCluster W
      → RemoteClusterProvisioner W C
      → Context C
      → Outcome (Shared W)
      → Outcome (Shared W)
  provision_then r p ctx (some e, s) = (some e, s)
  provision_then r p ctx (none, (n, w)) = counted n (provision_child r p ctx (get_client r w))

  unfoldable pub provision :
      RemoteCluster W → ClusterDriver W → RemoteClusterProvisioner W C → Context C → Task (Shared W)
  unfolding provision_remote get_client remote_context
  provision r d p ctx s = provision_then r p ctx (provision_remote r d p s)

  -- The child is run in the context with the mark for background deletion, where it is asked for.
  abbrev pub marked : RemoteClusterProvisioner W C → Result (Context C) → Result (Context C)
  marked p (err e) = err e
  marked p (ok ctx) =
      ok (if p.background_deletion then new_context_with_background_deletion ctx true else ctx)

  abbrev pub deprovision_with :
      RemoteCluster W
      → RemoteClusterProvisioner W C
      → Context C
      → Result (C × KubeConfig) × W
      → Outcome W
  deprovision_with r p ctx (err e, w) =
      if not (is_error e err_yield) then (some e, w) else (none, w)
  deprovision_with r p ctx (ok c, w) =
      child_in p.child_deprovision (marked p (remote_context r ctx c)) w

  -- What is done before the lock is taken: the child is gone, or its cluster's configuration is.
  unfoldable pub deprovision_child :
      RemoteCluster W → RemoteClusterProvisioner W C → Context C → Task W
  unfolding get_client remote_context new_context_with_background_deletion
  deprovision_child r p ctx w = deprovision_with r p ctx (get_client r w)

  -- With the lock held: the last one to come removes the cluster.
  unfoldable pub deprovision_remote : RemoteCluster W → ClusterDriver W → Task (Shared W)
  deprovision_remote r d (n, w) =
      let current = n + 1 in
      if r.controller && nat_eq current r.ref_count
      then counted current (d.delete_cluster r.generator.id w)
      else (none, (current, w))

  abbrev pub deprovision_then :
      RemoteCluster W → ClusterDriver W → ℕ → Outcome W → Outcome (Shared W)
  deprovision_then r d n (some e, w) = (some e, (n, w))
  deprovision_then r d n (none, w) = deprovision_remote r d (n, w)

  unfoldable pub deprovision :
      RemoteCluster W → ClusterDriver W → RemoteClusterProvisioner W C → Context C → Task (Shared W)
  unfolding deprovision_child deprovision_remote
  deprovision r d p ctx (n, w) = deprovision_then r d n (deprovision_child r p ctx w)

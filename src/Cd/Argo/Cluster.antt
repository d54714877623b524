-- ===== src/Cd/Argo/Cluster.antt =====
-- pkg/cd/argocd/driver.go: the operations on clusters, which are secrets in the driver's namespace.
pub mod Registration
use text.Mathlib.Text.{find?}
use Prim.Native.String.{slice}
use uni_core.Base.{
  ℕ, zero, String, str_append, Bool, true, false, not, Option, none, some, List, [], ◌∷◌, Dict,
  lookup, ◌==◌, if◌then◌else◌,
}
use uni_core.Errors.{
  GoError, sentinel, foreign, err_yield, cd_not_found, item_length_mismatch, k8s_connection_error,
  is_error, Result, ok, err,
}
use uni_core.Api.Names.{application_id_label}
use uni_core.Cd.{ResourceIdentifier, KubeContext, KubeCluster, KubeAuth, KubeConfig, Cluster}
use uni_core.Cd.Argo.{cluster_name}

-- Other code: the host of a parsed URL, the FNV-1a sum of a string in decimal, the first eight bytes
-- of its SHA-256 sum in hexadecimal, and the JSON of the cluster configuration.
pub record ClusterCode : Type 0 where
  pub url_host : String → Result String
  pub fnv32a : String → String
  pub sha256_prefix : String → String
  pub marshal_config : String → String → String → Result String

-- A secret in the driver's namespace, by its name.
pub record ClusterSecret : Type 0 where
  pub name : String
  pub labels : Dict String
  pub data_of : Dict String

-- The Kubernetes client on the secrets of the driver's namespace, and the connectivity tester.
pub record SecretClient (W : Type 0) : Type 0 where
  pub list : Dict String → W → Result (List ClusterSecret) × W
  pub get : String → W → Result ClusterSecret × W
  pub is_not_found : GoError → Bool
  pub create_or_patch : ClusterSecret → W → Option GoError × W
  pub delete : ClusterSecret → W → Option GoError × W
  pub connect : KubeConfig → W → Option GoError × W

-- strings.Split(s, separator)[0]
unfoldable pub first_part : String → String → String
first_part separator s = elim (find? s separator) [ none ↦ s | some i ↦ slice s zero i ]

abbrev pub secret_name_at : ClusterCode → String → String → Result String → Result String
secret_name_at cc host prefix (err e) = err e
secret_name_at cc host prefix (ok url_host) = ok (
    str_append prefix
      (str_append "-" (str_append (first_part ":" url_host) (str_append "-" (cc.fnv32a host)))))

unfoldable pub cluster_secret_name : ClusterCode → String → String → Result String
unfolding first_part
cluster_secret_name cc host prefix =
    secret_name_at cc host (if prefix == "" then "cluster" else prefix) (cc.url_host host)

unfoldable pub cluster_label : ClusterCode → ResourceIdentifier → String
cluster_label cc id = str_append "cluster-" (cc.sha256_prefix (cluster_name id))

unfoldable pub single_secret : Result (List ClusterSecret) → Result ClusterSecret
single_secret (err e) = err e
single_secret (ok []) = err (sentinel cd_not_found)
single_secret (ok (s ∷ [])) = ok s
single_secret (ok (s ∷ t ∷ rest)) = err (sentinel item_length_mismatch)

-- The secret that stands for a cluster.
unfoldable pub mustate_secret :
    ClusterCode → ResourceIdentifier → String → String → String → ClusterSecret
unfolding cluster_label
mustate_secret cc id name server config_data = record {
  name = name;
  labels =
      ("argocd.argoproj.io/secret-type", "cluster")
      ∷ (application_id_label, cluster_label cc id)
      ∷ [];
  data_of = ("name", cluster_name id) ∷ ("server", server) ∷ ("config", config_data) ∷ [];
}

module _ {W : Type 0} (cc : ClusterCode) (cl : SecretClient W) where
  abbrev pub single_listed : Result (List ClusterSecret) × W → Result ClusterSecret × W
  single_listed (r, w) = (single_secret r, w)

  unfoldable pub get_cluster_secret : ResourceIdentifier → W → Result ClusterSecret × W
  unfolding single_secret cluster_label
  get_cluster_secret id w =
      single_listed (cl.list ((application_id_label, cluster_label cc id) ∷ []) w)

  abbrev pub connected : Option GoError × W → Option GoError × W
  connected (none, w) = (none, w)
  connected (some e, w) =
      if not (is_error e k8s_connection_error) then (some e, w) else (some (sentinel err_yield), w)

  -- A cluster that has no secret yet must answer before it is given one.
  abbrev pub reachable : KubeConfig → Result ClusterSecret × W → Option GoError × W
  reachable config (ok s, w) = (none, w)
  reachable config (err e, w) =
      if not (cl.is_not_found e) then (some e, w) else connected (cl.connect config w)

  abbrev pub write_secret :
      ResourceIdentifier → String → String → Result String → W → Option GoError × W
  write_secret id name server (err e) w = (some e, w)
  write_secret id name server (ok config_data) w =
      cl.create_or_patch (mustate_secret cc id name server config_data) w

  -- A nil pointer is dereferenced where the user is not in the configuration.
  abbrev pub register :
      ResourceIdentifier
      → String
      → KubeCluster
      → Option KubeAuth
      → Option GoError × W
      → Option GoError × W
  register id name cluster auth (some e, w) = (some e, w)
  register id name cluster none (none, w) = (some (foreign "nil pointer dereference"), w)
  register id name cluster (some auth) (none, w) =
      write_secret id name cluster.server
        (cc.marshal_config cluster.ca_data auth.cert_data auth.key_data) w

  abbrev pub named :
      ResourceIdentifier
      → KubeConfig
      → KubeCluster
      → Option KubeAuth
      → Result String
      → W
      → Option GoError × W
  named id config cluster auth (err e) w = (some e, w)
  named id config cluster auth (ok name) w =
      register id name cluster auth (reachable config (cl.get name w))

  -- Nor is it checked that the cluster is there.
  abbrev pub with_cluster :
      ResourceIdentifier → Cluster → Option KubeCluster → Option KubeAuth → W → Option GoError × W
  with_cluster id c none auth w = (some (foreign "nil pointer dereference"), w)
  with_cluster id c (some cluster) auth w =
      named id c.config cluster auth (cluster_secret_name cc cluster.server c.prefix) w

  -- Nor the context.
  abbrev pub with_context :
      ResourceIdentifier → Cluster → Option KubeContext → W → Option GoError × W
  with_context id c none w = (some (foreign "nil pointer dereference"), w)
  with_context id c (some context) w =
      with_cluster id c (lookup context.cluster c.config.clusters)
        (lookup context.auth_info c.config.auth_infos) w

  unfoldable pub create_or_update_cluster : ResourceIdentifier → Cluster → W → Option GoError × W
  unfolding cluster_secret_name mustate_secret
  create_or_update_cluster id c w =
      with_context id c (lookup c.config.current_context c.config.contexts) w

  abbrev pub delete_found : Result ClusterSecret × W → Option GoError × W
  delete_found (err e, w) = if not (is_error e cd_not_found) then (some e, w) else (none, w)
  delete_found (ok s, w) = cl.delete s w

  unfoldable pub delete_cluster : ResourceIdentifier → W → Option GoError × W
  unfolding get_cluster_secret
  delete_cluster id w = delete_found (get_cluster_secret id w)

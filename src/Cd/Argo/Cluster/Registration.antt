-- ===== src/Cd/Argo/Cluster/Registration.antt =====
-- pkg/cd/argocd/driver.go: what a registered cluster stands for.
use uni_core.Base.{
  String, ◌≡◌, refl, ap, ◌∙◌, Bool, true, false, not, Option, none, some, lookup, arith,
  if◌then◌else◌,
}
use uni_core.Errors.{GoError, Result, ok, err}
use uni_core.Cd.{ResourceIdentifier, KubeContext, KubeCluster, KubeAuth, KubeConfig, Cluster}
use uni_core.Cd.Argo.Cluster.{
  ClusterCode, ClusterSecret, SecretClient, cluster_secret_name, mustate_secret, connected,
  reachable, write_secret, register, named, with_cluster, with_context, create_or_update_cluster,
}

module _ {W : Type 0} (cc : ClusterCode) (cl : SecretClient W) where
  -- The secret was there, or there was none and the cluster answered.
  pub data IsReachable (config : KubeConfig) (name : String) (w w' : W) : Type 0 where
    known : (s : ClusterSecret) → cl.get name w ≡ (ok s, w') → IsReachable config name w w'
    answers :
        (e : GoError) (w0 : W)
        → cl.get name w ≡ (err e, w0)
        → cl.is_not_found e ≡ true
        → cl.connect config w0 ≡ (none, w')
        → IsReachable config name w w'

  -- The configuration names its cluster and its user, the cluster is reachable, and its secret was
  -- written as it should be.
  pub record IsRegistered (id : ResourceIdentifier) (c : Cluster) (w w' : W) : Type 0 where
    pub context : KubeContext
    pub cluster : KubeCluster
    pub auth : KubeAuth
    pub name : String
    pub config_data : String
    pub tested : W
    pub context_of : lookup c.config.current_context c.config.contexts ≡ some context
    pub cluster_of : lookup context.cluster c.config.clusters ≡ some cluster
    pub auth_of : lookup context.auth_info c.config.auth_infos ≡ some auth
    pub name_of : cluster_secret_name cc cluster.server c.prefix ≡ ok name
    pub marshaled : cc.marshal_config cluster.ca_data auth.cert_data auth.key_data ≡ ok config_data
    pub reached : IsReachable c.config name w tested
    pub written :
        cl.create_or_patch (mustate_secret cc id name cluster.server config_data) tested
        ≡ (none, w')

  abbrev ended : W → Option GoError × W
  ended w = (none, w)

  connected-lem :
      (answer : Option GoError × W) (w' : W) → connected cc cl answer ≡ ended w' → answer ≡ ended w'
  connected-lem (none, w) w' h = h
  connected-lem (some e, w) w' h = ground (arith)

  answers_if :
      (config : KubeConfig) (name : String) (w w0 w' : W) (e : GoError) (absent : Bool)
      → cl.get name w ≡ (err e, w0)
      → cl.is_not_found e ≡ absent
      → (if not absent then (some e, w0) else connected cc cl (cl.connect config w0)) ≡ ended w'
      → IsReachable config name w w'
  answers_if config name w w0 w' e true got is h =
      answers e w0 got is (connected-lem (cl.connect config w0) w' h)
  answers_if config name w w0 w' e false got is h = ground (arith)

  reachable-lem :
      (config : KubeConfig) (name : String) (w w' : W) (got : Result ClusterSecret × W)
      → cl.get name w ≡ got
      → reachable cc cl config got ≡ ended w'
      → IsReachable config name w w'
  reachable-lem config name w w' (ok s, w0) got h =
      known s (got ∙ ap (λ x. (ok s, x)) (ap (λ r. r.1) h))
  reachable-lem config name w w' (err e, w0) got h =
      answers_if config name w w0 w' e (cl.is_not_found e) got refl h

  module _ (id : ResourceIdentifier) (c : Cluster) (w w' : W) where
    write_secret-lem :
        (context : KubeContext) (cluster : KubeCluster) (auth : KubeAuth) (name : String)
        (tested : W) (marshaled : Result String)
        → lookup c.config.current_context c.config.contexts ≡ some context
        → lookup context.cluster c.config.clusters ≡ some cluster
        → lookup context.auth_info c.config.auth_infos ≡ some auth
        → cluster_secret_name cc cluster.server c.prefix ≡ ok name
        → IsReachable c.config name w tested
        → cc.marshal_config cluster.ca_data auth.cert_data auth.key_data ≡ marshaled
        → write_secret cc cl id name cluster.server marshaled tested ≡ ended w'
        → IsRegistered id c w w'
    write_secret-lem context cluster auth name tested (err e) x y z n r m h = ground (arith)
    write_secret-lem context cluster auth name tested (ok config_data) x y z n r m h = record {
      context = context;
      cluster = cluster;
      auth = auth;
      name = name;
      config_data = config_data;
      tested = tested;
      context_of = x;
      cluster_of = y;
      auth_of = z;
      name_of = n;
      marshaled = m;
      reached = r;
      written = h;
    }

    register-lem :
        (context : KubeContext) (cluster : KubeCluster) (auth : Option KubeAuth) (name : String)
        (test : Option GoError × W)
        → lookup c.config.current_context c.config.contexts ≡ some context
        → lookup context.cluster c.config.clusters ≡ some cluster
        → lookup context.auth_info c.config.auth_infos ≡ auth
        → cluster_secret_name cc cluster.server c.prefix ≡ ok name
        → reachable cc cl c.config (cl.get name w) ≡ test
        → register cc cl id name cluster auth test ≡ ended w'
        → IsRegistered id c w w'
    register-lem context cluster auth name (some e, u) x y z n r h = ground (arith)
    register-lem context cluster none name (none, u) x y z n r h = ground (arith)
    register-lem context cluster (some auth) name (none, u) x y z n r h =
        write_secret-lem context cluster auth name u
          (cc.marshal_config cluster.ca_data auth.cert_data auth.key_data) x y z n
          (reachable-lem c.config name w u (cl.get name w) refl r) refl h

    named-lem :
        (context : KubeContext) (cluster : KubeCluster) (auth : Option KubeAuth)
        (name : Result String)
        → lookup c.config.current_context c.config.contexts ≡ some context
        → lookup context.cluster c.config.clusters ≡ some cluster
        → lookup context.auth_info c.config.auth_infos ≡ auth
        → cluster_secret_name cc cluster.server c.prefix ≡ name
        → named cc cl id c.config cluster auth name w ≡ ended w'
        → IsRegistered id c w w'
    named-lem context cluster auth (err e) x y z n h = ground (arith)
    named-lem context cluster auth (ok name) x y z n h =
        register-lem context cluster auth name (reachable cc cl c.config (cl.get name w)) x y z n
          refl h

    with_cluster-lem :
        (context : KubeContext) (cluster : Option KubeCluster)
        → lookup c.config.current_context c.config.contexts ≡ some context
        → lookup context.cluster c.config.clusters ≡ cluster
        → with_cluster cc cl id c cluster (lookup context.auth_info c.config.auth_infos) w
          ≡ ended w'
        → IsRegistered id c w w'
    with_cluster-lem context none x y h = ground (arith)
    with_cluster-lem context (some cluster) x y h =
        named-lem context cluster (lookup context.auth_info c.config.auth_infos)
          (cluster_secret_name cc cluster.server c.prefix) x y refl refl h

    with_context-lem :
        (context : Option KubeContext)
        → lookup c.config.current_context c.config.contexts ≡ context
        → with_context cc cl id c context w ≡ ended w'
        → IsRegistered id c w w'
    with_context-lem none x h = ground (arith)
    with_context-lem (some context) x h =
        with_cluster-lem context (lookup context.cluster c.config.clusters) x refl h

  -- If CreateOrUpdateCluster returns nil, then the configuration names its context, cluster and
  -- user; the secret was there under the name that the server and the prefix give, or was not
  -- found and the cluster answered; and the secret with the cluster's labels, name, server and
  -- credentials was created or patched.
  pub create_or_update_cluster-IsRegistered :
      (id : ResourceIdentifier) (c : Cluster) (w w' : W)
      → create_or_update_cluster cc cl id c w ≡ (none, w')
      → IsRegistered id c w w'
  unfolding create_or_update_cluster
  create_or_update_cluster-IsRegistered id c w w' h =
      with_context-lem id c w w' (lookup c.config.current_context c.config.contexts) refl h

-- ===== src/Tests/Deploying.antt =====
-- pkg/cd/argocd and pkg/provisioners/application on concrete clusters. The world is the list of the calls
-- that were made.
use uni_core.Base.{
  ℕ, String, ◌≡◌, refl, true, false, none, some, List, [], ◌∷◌, lookup, insert, join,
}
use uni_core.Errors.{is_error, foreign, Result, ok, err}
use uni_core.Cd.{ResourceIdentifier, HelmApplication, KubeConfig, Cluster}
use uni_core.Cd.Argo.{Application, convert_application_id, render}
use uni_core.Cd.Argo.Source.{convert_application_id-render}
use uni_core.Cd.Argo.Driver.{ArgoClient, create_or_update_helm_application, delete_helm_application}
use uni_core.Cd.Argo.Cluster.{ClusterCode, SecretClient, create_or_update_cluster}
use uni_core.Cd.Argo.Cluster.Registration.{IsRegistered, create_or_update_cluster-IsRegistered}
use uni_core.Api.Application as ApiApplication
use uni_core.Provisioners.Context.{Context}
use uni_core.Provisioners.Application.{ApplicationProvisioner, Generator, provision, deprovision}
use uni_core.Provisioners.Application.Success.{
  argo_driver, IsProvisioned, IsDeprovisioned, provision-IsProvisioned, deprovision-IsDeprovisioned,
}

abbrev pub Calls : Type 0
Calls = List String

abbrev pub identifier : ResourceIdentifier
identifier = record {
  name = "vcluster";
  labels =
      record { name = "organization"; value = "acme" }
      ∷ record { name = "project"; value = "x" }
      ∷ [];
}

abbrev helm : HelmApplication ℕ
helm = record {
  repo = "https://charts.example.com";
  chart = "vcluster";
  branch = "";
  path = "";
  version = "1.0.0";
  release = "";
  parameters = [];
  values = none;
  cluster = none;
  namespace = "default";
  create_namespace = false;
  namespace_metadata = record { labels = none; annotations = none };
  ignore_differences = [];
  server_side_apply = false;
  allow_degraded = false;
}

convert_application_id-render_example :
    convert_application_id (render identifier helm "") ≡ identifier
unfolding lookup insert
convert_application_id-render_example =
    convert_application_id-render identifier helm "" (refl, (refl, tt))

abbrev pub config : KubeConfig
config = record {
  current_context = "admin";
  contexts = ("admin", record { cluster = "remote"; auth_info = "admin" }) ∷ [];
  clusters = ("remote", record { server = "https://10.0.0.1:6443"; ca_data = "ca" }) ∷ [];
  auth_infos = ("admin", record { cert_data = "cert"; key_data = "key" }) ∷ [];
}

abbrev cluster : Cluster
cluster = record { config = config; prefix = "" }

abbrev cluster_code : ClusterCode
cluster_code = record {
  url_host = λ s. ok "10.0.0.1:6443";
  fnv32a = λ s. "42";
  sha256_prefix = λ s. "00ff";
  marshal_config = λ ca cert key. ok ca;
}

-- No secret is there yet, and the cluster answers.
abbrev secrets : SecretClient Calls
secrets = record {
  list = λ labels w. (ok [], w);
  get = λ name w. (err (foreign "not found"), "get" ∷ w);
  is_not_found = λ e. true;
  create_or_patch = λ s w. (none, s.name ∷ w);
  delete = λ s w. (none, w);
  connect = λ c w. (none, "connect" ∷ w);
}

new_cluster :
    create_or_update_cluster cluster_code secrets identifier cluster []
    ≡ (none, "cluster-10.0.0.1-42" ∷ "connect" ∷ "get" ∷ [])
unfolding create_or_update_cluster lookup
new_cluster = refl

create_or_update_cluster-IsRegistered_example :
    IsRegistered cluster_code secrets identifier cluster []
      ("cluster-10.0.0.1-42" ∷ "connect" ∷ "get" ∷ [])
create_or_update_cluster-IsRegistered_example =
    create_or_update_cluster-IsRegistered cluster_code secrets identifier cluster []
      ("cluster-10.0.0.1-42" ∷ "connect" ∷ "get" ∷ []) new_cluster

-- The application that the server returns once it is created.
abbrev returned : Application → Application
returned a = record a {
  name = "vcluster-x7k2p";
  status = record { health = some "Healthy"; sync = some "Synced" };
}

abbrev argo : ArgoClient Calls
argo = record {
  list = λ labels w. (ok [], "list" ∷ w);
  create = λ a w. (ok (returned a), "create" ∷ w);
  patch = λ a b w. (ok a, "patch" ∷ w);
  delete = λ a w. (none, "delete" ∷ w);
}

abbrev versions : ApiApplication.SemanticVersions ℕ
versions = record { equal = λ a b. true; original = λ v. "1.0.0" }

abbrev chart_version : ApiApplication.HelmApplicationVersion ℕ
chart_version = record {
  repo = some "https://charts.example.com";
  chart = some "vcluster";
  branch = none;
  path = none;
  version = 1;
  release = none;
  parameters = [];
  namespace = none;
  create_namespace = none;
  server_side_apply = none;
}

abbrev chart : ApiApplication.HelmApplication ℕ
chart = record {
  labels = ("unikorn-cloud.org/name", "vcluster") ∷ [];
  versions = chart_version ∷ [];
}

abbrev hooks : Generator Calls Unit ℕ ℕ
hooks = record {
  release_name = none;
  parameters = none;
  values = some (λ ctx v w. ok (some 7));
  namespace_metadata = none;
  customize = none;
  post_provision = some (λ ctx w. (none, "post" ∷ w));
  pre_deprovision = some (λ ctx w. (none, "pre" ∷ w));
}

abbrev application : ApplicationProvisioner Calls Unit ℕ ℕ
application = record {
  name = "";
  namespace = "";
  generator = hooks;
  allow_degraded = false;
  application_getter = λ ctx w. ok (chart, 1);
  resource_labels = λ ctx w. ok (("project", "x") ∷ ("organization", "acme") ∷ []);
}

abbrev pub local : Context Unit
local = record {
  provisioner_client = some tt;
  cluster = some (record { client = tt; id = none; host = ""; port = "" });
  namespace = none;
  background_deletion = none;
}

abbrev as_yaml : ℕ → Result String
as_yaml n = ok "seven: 7"

new_application :
    provision versions application (argo_driver argo as_yaml) local []
    ≡ (none, "post" ∷ "create" ∷ "list" ∷ [])
unfolding provision create_or_update_helm_application lookup insert join is_error
new_application = refl

provision-IsProvisioned_example :
    IsProvisioned versions argo as_yaml application local [] ("post" ∷ "create" ∷ "list" ∷ [])
provision-IsProvisioned_example =
    provision-IsProvisioned versions argo as_yaml application local []
      ("post" ∷ "create" ∷ "list" ∷ []) new_application

old_application :
    deprovision versions application (argo_driver argo as_yaml) local []
    ≡ (none, "list" ∷ "pre" ∷ [])
unfolding deprovision delete_helm_application lookup insert join is_error
old_application = refl

deprovision-IsDeprovisioned_example :
    IsDeprovisioned versions argo as_yaml application local [] ("list" ∷ "pre" ∷ [])
deprovision-IsDeprovisioned_example =
    deprovision-IsDeprovisioned versions argo as_yaml application local [] ("list" ∷ "pre" ∷ [])
      old_application

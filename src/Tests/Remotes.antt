-- ===== src/Tests/Remotes.antt =====
-- pkg/provisioners/remotecluster on a concrete cluster. The world is the list of the calls that were made.
use uni_core.Tests.Deploying.{Calls, identifier, config, local}
use uni_core.Base.{
  String, ◌≡◌, refl, inl, inr, true, false, Option, none, some, List, [], ◌∷◌, arith, lookup, map,
}
use uni_core.Errors.{GoError, sentinel, foreign, err_yield, ok}
use uni_core.Provisioners.Concurrent.{run_all}
use uni_core.Provisioners.RemoteCluster as Remote
use uni_core.Provisioners.RemoteCluster.{
  NetCode, ClusterDriver, RemoteCluster, deprovision_child, get_client, remote_context,
}
use uni_core.Provisioners.RemoteCluster.Removal.{Call, call_of, attempt, run_all-kept, run_all-gone}
use uni_core.Provisioners.RemoteCluster.Registration.{run_all-registers, child_of, registered}
use uni_core.Provisioners.RemoteCluster.Registration as Registration

abbrev net : NetCode Unit
net = record {
  parse_url = λ s. ok (record { scheme = "https"; host = "10.0.0.1:6443" });
  split_host_port = λ s. some ("10.0.0.1", "6443");
  build_client = λ c. ok tt;
}

abbrev remote : RemoteCluster Calls
remote = record {
  generator = record { id = identifier; config = λ w. (ok config, w) };
  controller = true;
  ref_count = 2;
}

-- The driver cannot reach the cluster.
abbrev driver : ClusterDriver Calls
driver = record {
  create_or_update_cluster = λ id c w. (some (foreign "timeout"), "register" ∷ w);
  delete_cluster = λ id w. (none, "unregister" ∷ w);
}

abbrev child : String → Option GoError → Call Calls Unit
child name e = (
  record {
    child_provision = λ ctx w. (none, name ∷ w);
    child_deprovision = λ ctx w. (e, name ∷ w);
    background_deletion = false;
    prefix = "";
  },
  local,
)

abbrev one_fails : List (Call Calls Unit)
one_fails = child "cni" none ∷ child "csi" (some (sentinel err_yield)) ∷ []

run_all-kept_example :
    run_all (map (call_of net remote driver) one_fails) (0, [])
    ≡ run_all (map (attempt net remote) one_fails) (0, [])
unfolding deprovision_child lookup
run_all-kept_example = run_all-kept net remote driver one_fails 0 [] (omega arith) (inr (inl refl))

run_all-gone_example :
    run_all (map (call_of net remote driver) (child "cni" none ∷ child "csi" none ∷ [])) (0, [])
    ≡ (none, (2, "unregister" ∷ "csi" ∷ "cni" ∷ []))
unfolding deprovision_child lookup
run_all-gone_example =
    run_all-gone net remote driver (child "cni" none) (child "csi" none ∷ []) 0 []
      ("csi" ∷ "cni" ∷ []) refl refl ("cni" ∷ [], refl, ("csi" ∷ "cni" ∷ [], refl, refl))

run_all-registers_example :
    run_all
      (map (Registration.call_of net remote driver) (child "cni" none ∷ child "csi" none ∷ []))
      (0, [])
    ≡ (some (sentinel err_yield), (2, "csi" ∷ "register" ∷ []))
unfolding get_client remote_context lookup Remote.provision
run_all-registers_example =
    run_all-registers net remote driver (child "cni" none) (child "csi" none ∷ []) [] refl

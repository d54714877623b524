-- ===== src/Provisioners/RemoteCluster/Registration.antt =====
-- pkg/provisioners/remotecluster/provisioner.go: who registers the cluster that provisioners share.
use uni_core.Base.{
  ◌+◌, ◌≤◌, ◌≡◌, refl, ap, ◌∙◌, true, false, none, some, List, [], ◌∷◌, map, Bool-cases, nat_eq,
  arith, inl, inr,
}
use uni_core.Provisioners.Interface.{Outcome, Task}
use uni_core.Provisioners.Concurrent.{keep_first, run_all}
use uni_core.Provisioners.RemoteCluster.{
  NetCode, ClusterDriver, RemoteCluster, RemoteClusterProvisioner, Shared, provision,
  provision_remote, provision_then, provision_child, get_client, counted, create_with,
}
use uni_core.Provisioners.RemoteCluster.Removal.{Call}

module _ {W C : Type 0} (net : NetCode C) (r : RemoteCluster W) (d : ClusterDriver W) where
  abbrev pub call_of : Call W C → Task (Shared W)
  call_of c s = provision net r d c.0 c.1 s

  -- The child's part of a call alone, and the count.
  abbrev pub child_of : Call W C → Task (Shared W)
  child_of c s = counted net (s.0 + 1) (provision_child net r c.0 c.1 (get_client net r s.1))

  -- What the first one to come does of itself: it registers the cluster, and then runs its child.
  abbrev pub registered : Call W C → W → Outcome (Shared W)
  registered c w =
      provision_then net r c.0 c.1
        (counted net 1 (create_with net d r.generator.id c.0.prefix (r.generator.config w)))

  later_remote :
      (p : RemoteClusterProvisioner W C) (s : Shared W)
      → 1 ≤ s.0
      → provision_remote net r d p s ≡ (none, (s.0 + 1, s.1))
  unfolding provision_remote
  later_remote p s h =
      let not_first : nat_eq (s.0 + 1) 1 ≡ false = ground (arith) in
      elim (Bool-cases r.controller) [
        | inl owned ↦ rw (owned, not_first)
        | inr not_owned ↦ rw (not_owned)
      ]

  later : (c : Call W C) (s : Shared W) → 1 ≤ s.0 → call_of c s ≡ child_of c s
  unfolding provision
  later c s h = ap (provision_then net r c.0 c.1) (later_remote c.0 s h)

  run_all-later :
      (cs : List (Call W C)) (s : Shared W)
      → 1 ≤ s.0
      → run_all (map call_of cs) s ≡ run_all (map child_of cs) s
  run_all-later [] s h = refl
  run_all-later (c ∷ cs) s h =
      ap (λ o. keep_first o.0 (run_all (map call_of cs) o.1)) (later c s h)
      ∙ ap (keep_first (child_of c s).0) (run_all-later cs (child_of c s).1 (omega arith))

  first : (c : Call W C) (w : W) → r.controller ≡ true → call_of c (0, w) ≡ registered c w
  unfolding provision provision_remote
  first c w owned = rw (owned)

  taken : (c : Call W C) (o : Outcome W) → 1 ≤ (provision_then net r c.0 c.1 (counted net 1 o)).1.0
  taken c (none, w) = omega arith
  taken c (some e, w) = omega arith

  -- Provisioning several provisioners on an owned remote cluster that nobody registered yet, in
  -- their order, is the first one's registration of the cluster and its child, and then the
  -- children of all others whatever that registration returned.
  pub run_all-registers :
      (c : Call W C) (cs : List (Call W C)) (w : W)
      → r.controller ≡ true
      → run_all (map call_of (c ∷ cs)) (0, w)
        ≡ keep_first (registered c w).0 (run_all (map child_of cs) (registered c w).1)
  run_all-registers c cs w owned =
      ap (λ o. keep_first o.0 (run_all (map call_of cs) o.1)) (first c w owned)
      ∙ ap (keep_first (registered c w).0) (
          run_all-later cs (registered c w).1
            (taken c (create_with net d r.generator.id c.0.prefix (r.generator.config w))))

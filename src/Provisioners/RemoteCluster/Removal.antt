-- ===== src/Provisioners/RemoteCluster/Removal.antt =====
-- pkg/provisioners/remotecluster/provisioner.go: when the removal of the provisioners that share a
-- remote cluster removes the cluster.
use uni_core.Base.{
  ℕ, ◌+◌, ◌<◌, ◌≤◌, ◌≡◌, refl, ap, ◌∙◌, ◌⊎◌, inl, inr, true, none, some, List, [], ◌∷◌, map, length,
  is_some, nat_eq, arith, Bool-cases, false≢true,
}
use mathlib.Core.Path.{ap₂}
use uni_core.Provisioners.Interface.{Outcome, Task}
use uni_core.Provisioners.Concurrent.{keep_first, run_all}
use uni_core.Provisioners.Context.{Context}
use uni_core.Provisioners.RemoteCluster.{
  NetCode, ClusterDriver, RemoteCluster, RemoteClusterProvisioner, Shared, deprovision,
  deprovision_child, deprovision_remote, deprovision_then, counted,
}

-- A provisioner and the context that it is run in.
abbrev pub Call : Type 0 → Type 0 → Type 0
Call W C = RemoteClusterProvisioner W C × Context C

module _ {W C : Type 0} (net : NetCode C) (r : RemoteCluster W) where
  abbrev pub child_of : Call W C → Task W
  child_of c w = deprovision_child net r c.0 c.1 w

  abbrev counting : ℕ → Outcome W → Outcome (Shared W)
  counting n (none, w) = (none, (n + 1, w))
  counting n (some e, w) = (some e, (n, w))

  -- The child's part of a call alone, and the count.
  abbrev pub attempt : Call W C → Task (Shared W)
  attempt c s = counting s.0 (child_of c s.1)

  -- One of the children fails.
  abbrev pub SomeFails : List (Call W C) → W → Type 0
  SomeFails [] w = ⊥
  SomeFails (c ∷ cs) w = (is_some (child_of c w).0 ≡ true) ⊎ SomeFails cs (child_of c w).1

  -- The children are gone one after the other, from one state of the world to another.
  abbrev pub AllGone : List (Call W C) → W → W → Type 0
  AllGone [] w v = w ≡ v
  AllGone (c ∷ cs) w v = (u : W) × (child_of c w ≡ (none, u)) × AllGone cs u v

  module _ (d : ClusterDriver W) where
    abbrev pub call_of : Call W C → Task (Shared W)
    call_of c s = deprovision net r d c.0 c.1 s

    early_then :
        (n : ℕ) (o : Outcome W) → n + 1 < r.ref_count → deprovision_then net r d n o ≡ counting n o
    unfolding deprovision_remote
    early_then n (some e, w) h = refl
    early_then n (none, w) h = elim (Bool-cases r.controller) [
      | inl owned ↦ ground (arith, owned)
      | inr not_owned ↦ rw (not_owned)
    ]

    early :
        (c : Call W C) (n : ℕ) (w : W) → n + 1 < r.ref_count → call_of c (n, w) ≡ attempt c (n, w)
    unfolding deprovision
    early c n w h = early_then n (child_of c w) h

    -- One call of a run, when it is too early for the removal.
    early_step :
        (c : Call W C) (cs : List (Call W C)) (n : ℕ) (w : W)
        → n + 1 < r.ref_count
        → ((m : ℕ)
            → m ≤ n + 1
            → run_all (map call_of cs) (m, (child_of c w).1)
              ≡ run_all (map attempt cs) (m, (child_of c w).1))
        → run_all (map call_of (c ∷ cs)) (n, w) ≡ run_all (map attempt (c ∷ cs)) (n, w)
    early_step c cs n w h rest =
        ap (λ o. keep_first o.0 (run_all (map call_of cs) o.1)) (early c n w h)
        ∙ after (child_of c w) rest
      where
        after :
            (o : Outcome W)
            → ((m : ℕ)
                → m ≤ n + 1
                → run_all (map call_of cs) (m, o.1) ≡ run_all (map attempt cs) (m, o.1))
            → keep_first (counting n o).0 (run_all (map call_of cs) (counting n o).1)
              ≡ keep_first (counting n o).0 (run_all (map attempt cs) (counting n o).1)
        after (none, u) ih = ap (keep_first none) (ih (n + 1) (omega arith))
        after (some e, u) ih = ap (keep_first (some e)) (ih n (omega arith))

    too_few :
        (cs : List (Call W C)) (n : ℕ) (w : W)
        → n + length cs < r.ref_count
        → run_all (map call_of cs) (n, w) ≡ run_all (map attempt cs) (n, w)
    too_few [] n w h = refl
    too_few (c ∷ cs) n w h =
        early_step c cs n w (omega arith) (λ m k. too_few cs m (child_of c w).1 (omega arith))

    failing :
        (c : Call W C) (cs : List (Call W C)) (n : ℕ) (w : W)
        → is_some (child_of c w).0 ≡ true
        → n + length cs < r.ref_count
        → run_all (map call_of (c ∷ cs)) (n, w) ≡ run_all (map attempt (c ∷ cs)) (n, w)
    unfolding deprovision
    failing c cs n w fails h = after (child_of c w) fails
      where
        after :
            (o : Outcome W)
            → is_some o.0 ≡ true
            → keep_first
                (deprovision_then net r d n o).0
                (run_all (map call_of cs) (deprovision_then net r d n o).1)
              ≡ keep_first (counting n o).0 (run_all (map attempt cs) (counting n o).1)
        after (none, u) is = absurd (false≢true is)
        after (some e, u) is = ap (keep_first (some e)) (too_few cs n u h)

    SomeFails-length : (cs : List (Call W C)) (w : W) → SomeFails cs w → 1 ≤ length cs
    SomeFails-length [] w fails = absurd fails
    SomeFails-length (c ∷ cs) w fails = omega arith

    -- When the provisioners of a remote cluster that are deprovisioned are at most those that have
    -- not had their turn at the lock yet, and one of their children fails, then the deprovisioning
    -- of all, in their order, has the outcome of their children alone and the driver does not
    -- remove the cluster.
    pub run_all-kept :
        (cs : List (Call W C)) (n : ℕ) (w : W)
        → n + length cs ≤ r.ref_count
        → SomeFails cs w
        → run_all (map call_of cs) (n, w) ≡ run_all (map attempt cs) (n, w)
    run_all-kept [] n w h fails = absurd fails
    run_all-kept (c ∷ cs) n w h (inl here) = failing c cs n w here (omega arith)
    run_all-kept (c ∷ cs) n w h (inr later) =
        early_step c cs n w (omega (arith, SomeFails-length cs (child_of c w).1 later))
          (λ m k. run_all-kept cs m (child_of c w).1 (omega arith) later)

    last_call :
        (c : Call W C) (n : ℕ) (w u : W)
        → r.controller ≡ true
        → n + 1 ≡ r.ref_count
        → child_of c w ≡ (none, u)
        → call_of c (n, w) ≡ counted net (n + 1) (d.delete_cluster r.generator.id u)
    unfolding deprovision deprovision_remote
    last_call c n w u owned h gone =
        let last : nat_eq (n + 1) r.ref_count ≡ true = ground (arith) in
        ap (deprovision_then net r d n) gone ∙ rw (owned, last)

    keep_first-none : (o : Outcome (Shared W)) → keep_first o.0 (none, o.1) ≡ o
    keep_first-none (none, s) = refl
    keep_first-none (some e, s) = refl

    first-keep_first : (o : Outcome (Shared W)) → keep_first none o ≡ o
    first-keep_first (e, s) = refl

    -- If the remote cluster is owned, the provisioners that are deprovisioned are those that have
    -- not had their turn yet, and their children are gone one after the other, then the
    -- deprovisioning of all ends with one removal of the cluster, in the state that the last child
    -- leaves, and has its outcome.
    pub run_all-gone :
        (c : Call W C) (cs : List (Call W C)) (n : ℕ) (w v : W)
        → r.controller ≡ true
        → n + length (c ∷ cs) ≡ r.ref_count
        → AllGone (c ∷ cs) w v
        → run_all (map call_of (c ∷ cs)) (n, w)
          ≡ counted net r.ref_count (d.delete_cluster r.generator.id v)
    run_all-gone c [] n w v owned h (u, gone, same) =
        ap (λ o. keep_first o.0 (none, o.1)) (last_call c n w u owned h gone)
        ∙ keep_first-none (counted net (n + 1) (d.delete_cluster r.generator.id u))
        ∙ ap₂ (λ m x. counted net m (d.delete_cluster r.generator.id x)) h same
    run_all-gone c (c' ∷ cs) n w v owned h (u, gone, rest) =
        ap (λ o. keep_first o.0 (run_all (map call_of (c' ∷ cs)) o.1))
          (early c n w (omega arith) ∙ ap (counting n) gone)
        ∙ first-keep_first (run_all (map call_of (c' ∷ cs)) (n + 1, u))
        ∙ run_all-gone c' cs (n + 1) u v owned (omega arith) rest

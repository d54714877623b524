-- ===== src/Manager/Reconcile/Runs.antt =====
-- Repeated calls of Reconcile on one resource: controller-runtime calls it again while it asks for
-- that, and the next call reads what the server then stores.
use uni_core.Base.{ℕ, zero, suc, ◌≤◌, ◌<◌, String, ◌≡◌, arith}
use uni_core.Api.Object.{Object}
use uni_core.Api.Conditions.{ConditionUtil}
use uni_core.Manager.Client.{Client, ControllerUtil}
use uni_core.Manager.Reconcile.{State, Outcome, ManagerProvisioner, reconcile, done, requeue}

module _ {ℓ} {W : Type ℓ} (stored : W → Object) (remaining : W → ℕ) (Stays : Object → Type 0)
    (Ends : State W → Type 0) where
  -- Where a call leaves the resource: at an end, or to be run again with less than `n` to do.
  pub data Stepped (n : ℕ) (r : Outcome × State W) : Type ℓ where
    rested : r.0 ≡ done → Ends r.1 → Stepped n r
    requeued : r.0 ≡ requeue → Stays (stored r.1.world) → remaining r.1.world < n → Stepped n r

module _ {ℓ} {W : Type ℓ} (cl : Client W) (u : ControllerUtil) (cu : ConditionUtil)
    (p : ManagerProvisioner W) (blank : Object) (request : String) where
  abbrev pub reconcile_once : W → Outcome × State W
  reconcile_once w = reconcile cl u cu "argocd" p blank request w

  -- The number of the calls, the cluster before the first and the state at the end of the last.
  pub data Runs : ℕ → W → State W → Type ℓ where
    rests : {w : W} → (reconcile_once w).0 ≡ done → Runs 1 w (reconcile_once w).1
    again :
        {n : ℕ} {w : W} {s : State W}
        → (reconcile_once w).0 ≡ requeue
        → Runs n (reconcile_once w).1.world s
        → Runs (suc n) w s

  module _ (stored : W → Object) (remaining : W → ℕ) (Stays : Object → Type 0)
      (Ends : State W → Type 0) where
    -- The calls come to an end, after at most `n`.
    abbrev pub Converges : ℕ → W → Type ℓ
    Converges n w = (k : ℕ) × (s : State W) × (k ≤ n) × Runs k w s × Ends s

    step-Converges :
        (n : ℕ) (w : W)
        → remaining w < suc n
        → Stepped stored remaining Stays Ends (remaining w) (reconcile_once w)
        → (let w' = (reconcile_once w).1.world in
            Stays (stored w') → remaining w' < n → Converges n w')
        → Converges (suc n) w
    step-Converges n w lt (rested d e) rest = (1, _, omega arith, rests d, e)
    step-Converges n w lt (requeued q b less) rest =
        let (k, s, le, runs, e) = rest b (omega arith) in (suc k, s, omega arith, again q runs, e)

    -- If each call of Reconcile ends or leaves less to do, calls enough come to an end.
    pub within-Converges :
        ((w : W)
          → Stays (stored w)
          → Stepped stored remaining Stays Ends (remaining w) (reconcile_once w))
        → (n : ℕ) (w : W) → Stays (stored w)
        → remaining w < n
        → Converges n w
    within-Converges step zero w a lt = absurd (omega arith)
    within-Converges step (suc n) w a lt =
        step-Converges n w lt (step w a) (λ b less. within-Converges step n _ b less)

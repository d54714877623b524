-- ===== src/Provisioners/Interface.antt =====
-- pkg/provisioners/interfaces.go and types.go: a provisioner over the state `W` of the world. An
-- operation takes the state to an error or nil, and to the state that it leaves.
use uni_core.Base.{String, ◌≡◌, refl, ap, Option, none, some, List, [], ◌∷◌, ◌++◌}
use uni_core.Errors.{GoError}

abbrev pub Outcome {ℓ} : Type ℓ → Type ℓ
Outcome W = Option GoError × W

abbrev pub Task {ℓ} : Type ℓ → Type ℓ
Task W = W → Outcome W

pub record Provisioner {ℓ} (W : Type ℓ) : Type ℓ where
  pub provisioner_name : String
  pub provision : Task W
  pub deprovision : Task W

module _ {ℓ} {W : Type ℓ} where
  -- `if err := …; err != nil { return err }` and what follows.
  abbrev pub and_then : Outcome W → Task W → Outcome W
  and_then (none, w) k = k w
  and_then (some e, w) k = (some e, w)

  pub and_then-congr :
      (o : Outcome W) (k l : Task W) → ((u : W) → k u ≡ l u) → and_then o k ≡ and_then o l
  and_then-congr (none, u) k l h = h u
  and_then-congr (some e, u) k l h = refl

  -- The tasks in order, up to the first that returns an error.
  unfoldable pub in_order : List (Task W) → Task W
  in_order [] w = (none, w)
  in_order (t ∷ ts) w = and_then (t w) (in_order ts)

  pub in_order-cons :
      (t : Task W) (ts : List (Task W)) (w : W) → and_then (t w) (in_order ts) ≡ in_order (t ∷ ts) w
  unfolding in_order
  in_order-cons t ts w = refl

  -- Every task returns nil, from the first state to the last.
  abbrev pub AllSucceed : List (Task W) → W → W → Type ℓ
  AllSucceed [] w v = w ≡ v
  AllSucceed (t ∷ ts) w v = (u : W) × (t w ≡ (none, u)) × AllSucceed ts u v

  -- The tasks up to some point return nil, the next one returns the error `e` and leaves `v`.
  pub record FailsAt (ts : List (Task W)) (w : W) (e : GoError) (v : W) : Type ℓ where
    pub before : List (Task W)
    pub failing : Task W
    pub rest : List (Task W)
    pub reached : W
    pub split : ts ≡ before ++ failing ∷ rest
    pub succeeded : AllSucceed before w reached
    pub failed : failing reached ≡ (some e, v)

  abbrev pub Explains : List (Task W) → W → Outcome W → Type ℓ
  Explains ts w (none, v) = AllSucceed ts w v
  Explains ts w (some e, v) = FailsAt ts w e v

  Explains-cons :
      (t : Task W) (ts : List (Task W)) (w u : W) (o : Outcome W)
      → t w ≡ (none, u)
      → Explains ts u o
      → Explains (t ∷ ts) w o
  Explains-cons t ts w u (none, v) e h = (u, e, h)
  Explains-cons t ts w u (some x, v) e h = record {
    before = t ∷ h.before;
    failing = h.failing;
    rest = h.rest;
    reached = h.reached;
    split = ap (◌∷◌ t) h.split;
    succeeded = (u, e, h.succeeded);
    failed = h.failed;
  }

  step-Explains :
      (t : Task W) (ts : List (Task W)) (w : W) (o : Outcome W)
      → t w ≡ o
      → ((u : W) → Explains ts u (in_order ts u))
      → Explains (t ∷ ts) w (and_then o (in_order ts))
  step-Explains t ts w (none, u) e ih = Explains-cons t ts w u (in_order ts u) e (ih u)
  step-Explains t ts w (some x, u) e ih = record {
    before = [];
    failing = t;
    rest = ts;
    reached = w;
    split = refl;
    succeeded = refl;
    failed = e;
  }

  -- A run in order explains its outcome: all tasks returned nil, or the run stopped at the first that
  -- did not.
  pub in_order-Explains : (ts : List (Task W)) (w : W) → Explains ts w (in_order ts w)
  unfolding in_order
  in_order-Explains [] w = refl
  in_order-Explains (t ∷ ts) w = step-Explains t ts w (t w) refl (in_order-Explains ts)

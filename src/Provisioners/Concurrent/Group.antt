-- ===== src/Provisioners/Concurrent/Group.antt =====
-- pkg/provisioners/concurrent/provisioner.go: what a concurrent group leaves and returns.
use mathlib.Core.List.{Permᴰ}
use mathlib.Core.List.Permᴰ
use mathlib.Core.Path.{fun_ext}
use uni_core.Base.{All, ◌≡◌, refl, sym, ap, subst, ◌∙◌, none, some, List, [], ◌∷◌, ◌++◌, map}
use uni_core.Errors.{GoError}
use uni_core.Provisioners.Interface.{Outcome, Task, Provisioner, AllSucceed}
use uni_core.Provisioners.Concurrent.{
  ConcurrentProvisioner, ErrGroup, IsErrGroup, run_all, keep_first, callback, report, provision,
}

pub All-perm {ℓ κ} :
    {A : Type ℓ} (P : A → Type κ) {xs ys : List A} → Permᴰ xs ys → All P xs → All P ys
All-perm P Permᴰ.nil h = tt
All-perm P (Permᴰ.cons e p) h = (subst P e h.0, All-perm P p h.1)
All-perm P (Permᴰ.swap e f) h = (subst P f h.1.0, (subst P e h.0, h.1.1))
All-perm P (Permᴰ.trans p q) h = All-perm P q (All-perm P p h)

module _ {ℓ κ λ'} {A : Type ℓ} {B : Type κ} (P : B → Type λ') (f : A → B) where
  pub All-map : (xs : List A) → All (λ x. P (f x)) xs → All P (map f xs)
  All-map [] h = tt
  All-map (x ∷ xs) h = (h.0, All-map xs h.1)

  All-of_map : (xs : List A) → All P (map f xs) → All (λ x. P (f x)) xs
  All-of_map [] h = tt
  All-of_map (x ∷ xs) h = (h.0, All-of_map xs h.1)

module _ {ℓ} {W : Type ℓ} where
  -- The tasks before `failing` return nil, it is the first to return an error, which is `e`, and the
  -- remaining ones run all the same.
  record FailsAndGoesOn (ts : List (Task W)) (w : W) (e : GoError) (v : W) : Type ℓ where
    before : List (Task W)
    failing : Task W
    rest : List (Task W)
    reached : W
    left : W
    split : ts ≡ before ++ failing ∷ rest
    succeeded : AllSucceed before w reached
    failed : failing reached ≡ (some e, left)
    completed : (run_all rest left).1 ≡ v

  abbrev Finishes : List (Task W) → W → Outcome W → Type ℓ
  Finishes ts w (none, v) = AllSucceed ts w v
  Finishes ts w (some e, v) = FailsAndGoesOn ts w e v

  step-Finishes :
      (t : Task W) (ts : List (Task W)) (w : W) (o r : Outcome W)
      → t w ≡ o
      → run_all ts o.1 ≡ r
      → Finishes ts o.1 r
      → Finishes (t ∷ ts) w (keep_first o.0 r)
  step-Finishes t ts w (none, u) (none, v) e q h = (u, e, h)
  step-Finishes t ts w (none, u) (some x, v) e q h = record {
    before = t ∷ h.before;
    failing = h.failing;
    rest = h.rest;
    reached = h.reached;
    left = h.left;
    split = ap (◌∷◌ t) h.split;
    succeeded = (u, e, h.succeeded);
    failed = h.failed;
    completed = h.completed;
  }
  step-Finishes t ts w (some x, u) (r, v) e q h = record {
    before = [];
    failing = t;
    rest = ts;
    reached = w;
    left = u;
    split = refl;
    succeeded = refl;
    failed = e;
    completed = ap (λ o. o.1) q;
  }

  run_all-Finishes : (ts : List (Task W)) (w : W) → Finishes ts w (run_all ts w)
  run_all-Finishes [] w = refl
  run_all-Finishes (t ∷ ts) w =
      step-Finishes t ts w (t w) (run_all ts (t w).1) refl refl (run_all-Finishes ts (t w).1)

  report-eq : (o : Outcome W) → report o ≡ o
  report-eq (none, u) = refl
  report-eq (some e, u) = refl

  pub map-callback :
      (f : Provisioner W → Task W) (ps : List (Provisioner W))
      → map (λ p. callback (f p)) ps ≡ map f ps
  map-callback f ps = ap (λ g. map g ps) (fun_ext λ p. fun_ext λ w. report-eq (f p w))

  module _ {κ} (Done : Task W → W → Type κ) where
    -- `t` establishes its own mark, and keeps those of the others.
    abbrev Marks : Task W → Type (ℓ ⊔ κ)
    Marks t = ((u : W) → Done t (t u).1) × ((s : Task W) (u : W) → Done s u → Done s (t u).1)

    run_all-keeps :
        (ts : List (Task W)) (s : Task W) (w : W)
        → All Marks ts
        → Done s w
        → Done s (run_all ts w).1
    run_all-keeps [] s w h d = d
    run_all-keeps (t ∷ ts) s w h d = run_all-keeps ts s (t w).1 h.1 (h.0.1 s w d)

    run_all-Marks :
        (ts : List (Task W)) (w : W) → All Marks ts → All (λ t. Done t (run_all ts w).1) ts
    run_all-Marks [] w h = tt
    run_all-Marks (t ∷ ts) w h =
        (run_all-keeps ts t (t w).1 h.1 (h.0.0 w), run_all-Marks ts (t w).1 h.1)

  module _ (group : ErrGroup W) (h : IsErrGroup group) (c : ConcurrentProvisioner W) where
    provision-eq : (w : W) → provision group c w ≡ group (map (λ p. p.provision) c.provisioners) w
    unfolding provision
    provision-eq w = ap (λ ts. group ts w) (map-callback (λ p. p.provision) c.provisioners)

    -- With a group that waits for all, some order of the members explains the outcome: nil only if
    -- every member returned nil, else the error of the first member to fail in that order, and the
    -- members after it ran all the same.
    provision-Finishes :
        (w : W)
        → (order : List (Task W)) × Permᴰ (map (λ p. p.provision) c.provisioners) order
          × Finishes order w (provision group c w)
    provision-Finishes w =
        let (order, perm, e) = h.waits_for_all (map (λ p. p.provision) c.provisioners) w in
        (
          order,
          perm,
          subst (Finishes order w) (sym (provision-eq w ∙ e)) (run_all-Finishes order w),
        )

    -- With a group that waits for all, what each member establishes and all preserve holds for
    -- every member when the group returns, also when it returns an error.
    provision-All {κ} :
        (Done : Task W → W → Type κ) (w : W)
        → All (λ p. Marks Done p.provision) c.provisioners
        → All (λ p. Done p.provision (provision group c w).1) c.provisioners
    provision-All Done w each =
        let (order, perm, e) = h.waits_for_all (map (λ p. p.provision) c.provisioners) w in
        let each' = All-map (Marks Done) (λ p. p.provision) c.provisioners each in
        let marked = run_all-Marks Done order w (All-perm (Marks Done) perm each') in
        let at_end = λ (t : Task W). Done t (run_all order w).1 in
        subst (λ o. All (λ p. Done p.provision o.1) c.provisioners) (sym (provision-eq w ∙ e))
          (All-of_map at_end (λ p. p.provision) c.provisioners
            (All-perm at_end (Permᴰ.symm perm) marked))

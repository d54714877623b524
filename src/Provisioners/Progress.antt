-- ===== src/Provisioners/Progress.antt =====
-- Provisioners that get on with their work: every call returns nil or an error to wait for, and in the
-- second case leaves less to do. Groups of such provisioners, of pkg/provisioners/serial, concurrent and
-- conditional, are such provisioners.
use mathlib.Core.List.{reverse}
use uni_core.Base.{
  ℕ, ◌≤◌, ◌<◌, sym, subst, Bool, true, false, none, some, List, [], ◌∷◌, map, not, if◌then◌else◌,
  All, All-reverse, arith,
}
use uni_core.Errors.{GoError}
use uni_core.Provisioners.Interface.{Outcome, Task, Provisioner, and_then, in_order}
use uni_core.Provisioners.Serial
use uni_core.Provisioners.Conditional
use uni_core.Provisioners.Concurrent
use uni_core.Provisioners.Concurrent.{
  ConcurrentProvisioner, ErrGroup, IsErrGroup, run_all, keep_first, callback,
}
use uni_core.Provisioners.Concurrent.Group.{All-perm, All-map, map-callback}
use uni_core.Provisioners.Serial.{SerialProvisioner}
use uni_core.Provisioners.Serial.Order.{provision-in_order, deprovision-reverse}
use uni_core.Provisioners.Conditional.{ConditionalProvisioner}

module _ {ℓ} {W : Type ℓ} (remaining : W → ℕ) (Holds : W → Type 0) (Waits : GoError → Type 0) where
  -- What a call may leave of `n` units of work.
  pub data Left (n : ℕ) : Outcome W → Type ℓ where
    returned : {w : W} → Holds w → remaining w ≤ n → Left n (none, w)
    waiting : {e : GoError} {w : W} → Waits e → Holds w → remaining w < n → Left n (some e, w)

  abbrev pub Gains : Task W → Type ℓ
  Gains t = (w : W) → Holds w → Left (remaining w) (t w)

  Left-le : (m n : ℕ) (o : Outcome W) → m ≤ n → Left m o → Left n o
  Left-le m n (none, w) le (returned h l) = returned h (omega arith)
  Left-le m n (some e, w) le (waiting x h l) = waiting x h (omega arith)

  and_then-Left : (n : ℕ) (o : Outcome W) (t : Task W) → Left n o → Gains t → Left n (and_then o t)
  and_then-Left n (none, w) t (returned h le) g = Left-le (remaining w) n (t w) le (g w h)
  and_then-Left n (some e, w) t (waiting x h lt) g = waiting x h lt

  in_order-Gains : (ts : List (Task W)) → All Gains ts → Gains (in_order ts)
  unfolding in_order
  in_order-Gains [] gs w h = returned h (omega arith)
  in_order-Gains (t ∷ ts) gs w h =
      and_then-Left (remaining w) (t w) (in_order ts) (gs.0 w h) (in_order-Gains ts gs.1)

  -- Both operations get on with their work.
  pub record IsGaining (p : Provisioner W) : Type ℓ where
    pub provisions : Gains p.provision
    pub deprovisions : Gains p.deprovision

  each_provisions : (ps : List (Provisioner W)) → All IsGaining ps → All (λ p. Gains p.provision) ps
  each_provisions [] gs = gs
  each_provisions (p ∷ ps) gs = (gs.0.provisions, each_provisions ps gs.1)

  each_deprovisions :
      (ps : List (Provisioner W)) → All IsGaining ps → All (λ p. Gains p.deprovision) ps
  each_deprovisions [] gs = gs
  each_deprovisions (p ∷ ps) gs = (gs.0.deprovisions, each_deprovisions ps gs.1)

  -- A serial group of members that get on with their work does so too, in both directions.
  pub serial-IsGaining :
      (s : SerialProvisioner W) → All IsGaining s.provisioners → IsGaining (Serial.as_provisioner s)
  serial-IsGaining s gs = record {
    provisions = λ w h.
        subst (Left (remaining w)) (sym (provision-in_order s w)) (
          in_order-Gains _ (All-map Gains _ s.provisioners (each_provisions s.provisioners gs)) w
            h);
    deprovisions = λ w h. subst (Left (remaining w)) (sym (deprovision-reverse s w)) (
        in_order-Gains _
          (All-map Gains _ (reverse s.provisioners)
            (each_deprovisions (reverse s.provisioners) (All-reverse IsGaining s.provisioners gs)))
          w h);
  }

  by_condition :
      (b : Bool) (p : Provisioner W)
      → IsGaining p
      → Gains (λ w. if not b then p.deprovision w else p.provision w)
  by_condition true p g = g.provisions
  by_condition false p g = g.deprovisions

  -- So does a provisioner behind a condition, whatever the condition reads.
  pub conditional-IsGaining :
      (c : ConditionalProvisioner W)
      → IsGaining c.provisioner
      → IsGaining (Conditional.as_provisioner c)
  unfolding Conditional.provision Conditional.deprovision
  conditional-IsGaining c g = record {
    provisions = λ w h. by_condition (c.condition w) c.provisioner g w h;
    deprovisions = g.deprovisions;
  }

  keep_first-Left :
      (n : ℕ) (o : Outcome W) (t : Task W) → Left n o → Gains t → Left n (keep_first o.0 (t o.1))
  keep_first-Left n (none, u) t (returned h le) g = Left-le (remaining u) n (t u) le (g u h)
  keep_first-Left n (some e, u) t (waiting x h lt) g = failed (t u) (g u h)
    where
      failed : (r : Outcome W) → Left (remaining u) r → Left n (keep_first (some e) r)
      failed (none, v) (returned h' le) = waiting x h' (omega arith)
      failed (some e', v) (waiting x' h' lt') = waiting x h' (omega arith)

  run_all-Gains : (ts : List (Task W)) → All Gains ts → Gains (run_all ts)
  run_all-Gains [] gs w h = returned h (omega arith)
  run_all-Gains (t ∷ ts) gs w h =
      keep_first-Left (remaining w) (t w) (run_all ts) (gs.0 w h) (run_all-Gains ts gs.1)

  module _ (group : ErrGroup W) (waits : IsErrGroup group) (c : ConcurrentProvisioner W) where
    group-Gains :
        (f : Provisioner W → Task W)
        → All (λ p. Gains (f p)) c.provisioners
        → Gains (λ w. group (map (λ p. callback (f p)) c.provisioners) w)
    group-Gains f gs w h =
        let (order, perm, e) = waits.waits_for_all (map f c.provisioners) w in
        rw (map-callback f c.provisioners) (
          subst (Left (remaining w)) (sym e)
            (run_all-Gains order (All-perm Gains perm (All-map Gains f c.provisioners gs)) w h))

    -- So does a concurrent group that waits for all of its members, whose calls are as whole calls in some
    -- order.
    pub concurrent-IsGaining :
        All IsGaining c.provisioners → IsGaining (Concurrent.as_provisioner group c)
    unfolding Concurrent.provision Concurrent.deprovision
    concurrent-IsGaining gs = record {
      provisions = group-Gains (λ p. p.provision) (each_provisions c.provisioners gs);
      deprovisions = group-Gains (λ p. p.deprovision) (each_deprovisions c.provisioners gs);
    }

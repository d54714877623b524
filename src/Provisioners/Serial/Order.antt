-- ===== src/Provisioners/Serial/Order.antt =====
-- The order in which a serial group calls its members.
use mathlib.Core.List.{reverse, reverse-reverse, append-nil}
use uni_core.Base.{
  ℕ, suc, ◌+◌, ◌-◌, ◌<◌, ◌≡◌, ◌≡⟨◌⟩◌, ◌∎, refl, ap, ◌∙◌, some, List, [], ◌∷◌, ◌++◌, map, length,
  get_elem?, arith, shift, at_end, in_range, length-reverse,
}
use uni_core.Provisioners.Interface.{
  Provisioner, and_then, and_then-congr, in_order, in_order-cons, Explains, in_order-Explains,
}
use uni_core.Provisioners.Serial.{
  SerialProvisioner, provision_each, provision, deprovision_loop, deprovision,
}

module _ {ℓ} {W : Type ℓ} where
  provision_each-in_order :
      (ps : List (Provisioner W)) (w : W)
      → provision_each ps w ≡ in_order (map (λ p. p.provision) ps) w
  unfolding provision_each in_order
  provision_each-in_order [] w = refl
  provision_each-in_order (p ∷ ps) w =
      and_then-congr (p.provision w) _ _ (provision_each-in_order ps)

  pub provision-in_order :
      (s : SerialProvisioner W) (w : W)
      → provision s w ≡ in_order (map (λ p. p.provision) s.provisioners) w
  unfolding provision
  provision-in_order s w = provision_each-in_order s.provisioners w

  -- Serial provisioning calls the members in order and stops at the first error, which it returns
  -- with the state that it left.
  provision-Explains :
      (s : SerialProvisioner W) (w : W)
      → Explains (map (λ p. p.provision) s.provisioners) w (provision s w)
  provision-Explains s w =
      rw (provision-in_order s w) (in_order-Explains (map (λ p. p.provision) s.provisioners) w)

  deprovision_loop-step :
      (ps : List (Provisioner W)) (left : ℕ) (p : Provisioner W) (w : W)
      → get_elem? ps left ≡ some p
      → left < length ps
      → deprovision_loop ps (suc left) w ≡ and_then (p.deprovision w) (deprovision_loop ps left)
  unfolding deprovision_loop
  deprovision_loop-step ps left p w e h =
      let index : length ps - (length ps - suc left + 1) ≡ left = omega arith in rw (index, e) refl

  -- With the members `rs` reversed in front, as many rounds as there are of them call `rs` in order.
  deprovision_loop-in_order :
      (rs ys : List (Provisioner W)) (w : W)
      → deprovision_loop (reverse rs ++ ys) (length rs) w ≡ in_order (map (λ p. p.deprovision) rs) w
  deprovision_loop-in_order [] ys w = unfold deprovision_loop in_order in refl
  deprovision_loop-in_order (r ∷ rs) ys w =
      deprovision_loop (reverse (r ∷ rs) ++ ys) (suc (length rs)) w
      ≡⟨ ap (λ ps. deprovision_loop ps (suc (length rs)) w) (shift r rs ys) ⟩
        deprovision_loop (reverse rs ++ r ∷ ys) (suc (length rs)) w
      ≡⟨ deprovision_loop-step (reverse rs ++ r ∷ ys) (length rs) r w (at_end r rs ys)
          (in_range r rs ys) ⟩
        and_then (r.deprovision w) (deprovision_loop (reverse rs ++ r ∷ ys) (length rs))
      ≡⟨ and_then-congr (r.deprovision w) _ _ (deprovision_loop-in_order rs (r ∷ ys)) ⟩
        and_then (r.deprovision w) (in_order (map (λ p. p.deprovision) rs))
      ≡⟨ in_order-cons r.deprovision _ w ⟩ in_order (map (λ p. p.deprovision) (r ∷ rs)) w ∎

  -- Serial deprovisioning is the members' deprovisioning in the reverse of their order, up to the
  -- first error.
  pub deprovision-reverse :
      (s : SerialProvisioner W) (w : W)
      → deprovision s w ≡ in_order (map (λ p. p.deprovision) (reverse s.provisioners)) w
  unfolding deprovision
  deprovision-reverse s w =
      let ps = s.provisioners in
      let back : reverse (reverse ps) ++ [] ≡ ps = append-nil _ ∙ reverse-reverse ps in
      let run = deprovision_loop-in_order (reverse ps) [] w in rw (back, length-reverse ps) at run

-- ===== src/Server/Saga/Compensation.antt =====
-- What a saga leaves behind when it fails.
use mathlib.Core.List.{reverse}
use mathlib.Core.Path.{fun_ext}
use uni_core.Base.{
  suc, ◌+◌, ◌≡◌, refl, sym, ap, subst, ◌∙◌, Option, none, some, List, [], ◌∷◌, ◌++◌, length, arith,
  shift, at_end,
}
use uni_core.Errors.{GoError}
use uni_core.Server.Saga.{
  Action, undo_one, undo_at, unless_failed, unwind, on_result, run_from, run,
}

module _ {ℓ} {W : Type ℓ} where
  -- The compensations of the actions done, the last one first.
  unfoldable pub undo_all : List (Action W) → W → W
  undo_all [] w = w
  undo_all (a ∷ before) w = unless_failed (undo_one a.compensate w) (undo_all before)

  -- The actions in order, with those done kept, the last one first.
  unfoldable pub attempt : List (Action W) → List (Action W) → W → Option GoError × W
  unfolding undo_all
  attempt before [] w = (none, w)
  attempt before (a ∷ rest) w = on_result (a.action w) (attempt (a ∷ before) rest) (undo_all before)

  unwind-undo_all :
      (before after : List (Action W)) (w : W)
      → unwind (reverse before ++ after) (length before) w ≡ undo_all before w
  unfolding unwind undo_all
  unwind-undo_all [] after w = refl
  unwind-undo_all (a ∷ before) after w =
      subst (λ acts. unwind acts (suc (length before)) w ≡ undo_all (a ∷ before) w)
        (sym (shift a before after))
        (subst
          (λ o.
            unless_failed (undo_at o w) (unwind (reverse before ++ a ∷ after) (length before))
            ≡ undo_all (a ∷ before) w)
          (sym (at_end a before after))
          (ap (unless_failed (undo_one a.compensate w))
            (fun_ext (unwind-undo_all before (a ∷ after)))))

  on_result-congr :
      (r : Option GoError × W) (f g : W → Option GoError × W) (h k : W → W)
      → ((w : W) → f w ≡ g w)
      → ((w : W) → h w ≡ k w)
      → on_result r f h ≡ on_result r g k
  on_result-congr (none, w) f g h k e d = e w
  on_result-congr (some x, w) f g h k e d = ap (λ v. (some x, v)) (d w)

  run_from-attempt :
      (before rest : List (Action W)) (w : W)
      → run_from (reverse before ++ rest) (length before) rest w ≡ attempt before rest w
  unfolding run_from attempt
  run_from-attempt before [] w = refl
  run_from-attempt before (a ∷ rest) w =
      on_result-congr (a.action w) _ _ _ _
        (λ v.
          subst (λ acts. run_from acts (length before + 1) rest v ≡ attempt (a ∷ before) rest v)
            (shift a before rest)
            (subst
              (λ n. run_from (reverse (a ∷ before) ++ rest) n rest v ≡ attempt (a ∷ before) rest v)
              (omega arith) (run_from-attempt (a ∷ before) rest v)))
        (unwind-undo_all before (a ∷ rest))

  -- Run with its two index loops is running the actions in order while keeping those done, and at
  -- the first error compensating them in reverse, skipping nil compensations and stopping at one
  -- that fails, with the action's error returned.
  pub run-attempt : (actions : List (Action W)) (w : W) → run actions w ≡ attempt [] actions w
  unfolding run
  run-attempt actions w = run_from-attempt [] actions w

  -- An action leaves the state as it was when it fails, and else is undone by its compensation.
  pub record Compensable (a : Action W) : Type ℓ where
    pub fails_cleanly : (e : GoError) (w w' : W) → a.action w ≡ (some e, w') → w' ≡ w
    pub is_undone : (w w' : W) → a.action w ≡ (none, w') → undo_one a.compensate w' ≡ (none, w)

  pub data Each (P : Action W → Type ℓ) : List (Action W) → Type ℓ where
    each_nil : Each P []
    each_cons : {a : Action W} {acts : List (Action W)} → P a → Each P acts → Each P (a ∷ acts)

  attempted-restores :
      (w0 : W) (before rest : List (Action W)) (a : Action W) (w : W) (r : Option GoError × W)
      → Compensable a
      → a.action w ≡ r
      → undo_all before w ≡ w0
      → ((v : W) (e : GoError)
          → undo_all (a ∷ before) v ≡ w0
          → (attempt (a ∷ before) rest v).0 ≡ some e
          → (attempt (a ∷ before) rest v).1 ≡ w0)
      → (e : GoError) → (on_result r (attempt (a ∷ before) rest) (undo_all before)).0 ≡ some e
      → (on_result r (attempt (a ∷ before) rest) (undo_all before)).1 ≡ w0
  unfolding undo_all
  attempted-restores w0 before rest a w (none, v) c h back next e failed =
      next v e (ap (λ x. unless_failed x (undo_all before)) (c.is_undone w v h) ∙ back) failed
  attempted-restores w0 before rest a w (some x, v) c h back next e failed =
      ap (undo_all before) (c.fails_cleanly x w v h) ∙ back

  attempt-restores :
      (w0 : W) (before rest : List (Action W)) (w : W)
      → Each Compensable rest
      → undo_all before w ≡ w0
      → (e : GoError) → (attempt before rest w).0 ≡ some e
      → (attempt before rest w).1 ≡ w0
  unfolding attempt
  attempt-restores w0 before [] w all back e failed = ground (arith, failed)
  attempt-restores w0 before (a ∷ rest) w (each_cons c all) back e failed =
      attempted-restores w0 before rest a w (a.action w) c refl back
        (λ v e' b f. attempt-restores w0 (a ∷ before) rest v all b e' f) e failed

  -- If each action that fails leaves the state as it was and each that succeeds is undone by its
  -- compensation, a Run that returns an error has restored the state that it started from.
  pub failed_run_restores :
      (actions : List (Action W)) (w : W)
      → Each Compensable actions
      → (e : GoError) → (run actions w).0 ≡ some e
      → (run actions w).1 ≡ w
  failed_run_restores actions w all e failed =
      ap (λ r. r.1) (run-attempt actions w)
      ∙ attempt-restores w [] actions w all (unfold undo_all in refl) e
          (sym (ap (λ r. r.0) (run-attempt actions w)) ∙ failed)

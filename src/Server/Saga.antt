-- ===== src/Server/Saga.antt =====
-- pkg/server/saga/saga.go: a set of steps, undone when one fails. `W` is what the steps' receivers
-- share; the error of a failed compensation is only logged.
pub mod Compensation
use uni_core.Base.{ℕ, zero, suc, ◌+◌, String, Option, none, some, List, [], ◌∷◌, get_elem?}
use uni_core.Errors.{GoError, foreign}

pub record Action {ℓ} (W : Type ℓ) : Type ℓ where
  pub name : String
  pub action : W → Option GoError × W
  pub compensate : Option (W → Option GoError × W)

module _ {ℓ} {W : Type ℓ} where
  unfoldable pub new_action :
      String → (W → Option GoError × W) → Option (W → Option GoError × W) → Action W
  new_action name action compensate = record {
    name = name;
    action = action;
    compensate = compensate;
  }

  -- A nil compensation is skipped.
  abbrev pub undo_one : Option (W → Option GoError × W) → W → Option GoError × W
  undo_one none w = (none, w)
  undo_one (some c) w = c w

  -- An index out of range is a panic.
  abbrev pub undo_at : Option (Action W) → W → Option GoError × W
  undo_at none w = (some (foreign "index out of range"), w)
  undo_at (some a) w = undo_one a.compensate w

  -- A failed compensation ends the unwinding.
  abbrev pub unless_failed : Option GoError × W → (W → W) → W
  unless_failed (none, w) k = k w
  unless_failed (some e, w) k = w

  -- The inner loop, from `j - 1` down.
  unfoldable pub unwind : List (Action W) → ℕ → W → W
  unwind actions zero w = w
  unwind actions (suc j) w = unless_failed (undo_at (get_elem? actions j) w) (unwind actions j)

  abbrev pub on_result :
      Option GoError × W → (W → Option GoError × W) → (W → W) → Option GoError × W
  on_result (none, w) next undo = next w
  on_result (some e, w) next undo = (some e, undo w)

  -- The outer loop, at the index `i` of the first of the actions that are left.
  unfoldable pub run_from : List (Action W) → ℕ → List (Action W) → W → Option GoError × W
  unfolding unwind
  run_from actions i [] w = (none, w)
  run_from actions i (a ∷ rest) w =
      on_result (a.action w) (run_from actions (i + 1) rest) (unwind actions i)

  unfoldable pub run : List (Action W) → W → Option GoError × W
  unfolding run_from
  run actions w = run_from actions 0 actions w

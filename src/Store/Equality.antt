-- ===== src/Store/Equality.antt =====
-- The derived equality of checkpoint views and of run states (`#[derive(PartialEq)]`).
use pointlock.Prelude.{Bool, true, false, ◌≡◌, refl, String-discrete}
use native.Mathlib.Decide.{ℕ_discrete}
use pointlock.Ir.Record.{CheckpointView}
use pointlock.Store.Fold.State.{RunStatus}

CheckpointView-discrete : Discrete CheckpointView
CheckpointView-discrete = hlevel (ℕ_discrete, String-discrete)

unfoldable pub view_eq : CheckpointView → CheckpointView → Bool
unfolding CheckpointView-discrete String-discrete
view_eq a b = elim (CheckpointView-discrete a b) [ yes _ ↦ true | no _ ↦ false ]

pub view_eq_refl : (a : CheckpointView) → view_eq a a ≡ true
unfolding view_eq
view_eq_refl a =
    elim (CheckpointView-discrete a a) as (λ d. (elim d [ yes _ ↦ true | no _ ↦ false ]) ≡ true) [
      | yes _ ↦ refl
      | no differ ↦ absurd (differ refl)
    ]

unfoldable pub run_status_eq : RunStatus → RunStatus → Bool
run_status_eq RunStatus.running RunStatus.running = true
run_status_eq RunStatus.suspended RunStatus.suspended = true
run_status_eq RunStatus.awaiting_human RunStatus.awaiting_human = true
run_status_eq RunStatus.finished RunStatus.finished = true
run_status_eq _ _ = false

pub run_status_eq_refl : (a : RunStatus) → run_status_eq a a ≡ true
unfolding run_status_eq
run_status_eq_refl RunStatus.running = refl
run_status_eq_refl _ = refl

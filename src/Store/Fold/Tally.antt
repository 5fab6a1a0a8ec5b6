-- ===== src/Store/Fold/Tally.antt =====
-- How one event moves the counts of a folded state: steps in flight, completed records, open call
-- frames and their paths.
use pointlock.Prelude.{
  ℕ, ◌+◌, ◌≡◌, Bool, true, false, not, none, some, [], ◌∷◌, ok, arith, if◌then◌else◌, length,
  length-push, length-init, length-modify_last, length-modify_at,
}
use pointlock.Ir.RunLog.{RunLogPayload, RunLogEvent}
use pointlock.Store.Fold.State.{FoldState}
use pointlock.Store.Fold.Apply.{dispatch}

abbrev pub enters : RunLogPayload → Bool
enters (RunLogPayload.step_entered _ _ _ _) = true
enters _ = false

abbrev pub exits : RunLogPayload → Bool
exits (RunLogPayload.step_exited _ _ _ _ _) = true
exits _ = false

-- Events that open a frame: the start of the run, and a push that is no rebase.
abbrev pub opens : RunLogPayload → Bool
opens (RunLogPayload.run_started _ _ _ _) = true
opens (RunLogPayload.call_frame_pushed _ rebase) = not rebase
opens _ = false

abbrev pub pops : RunLogPayload → Bool
pops (RunLogPayload.call_frame_popped _) = true
pops _ = false

abbrev pub one : Bool → ℕ
one b = if b then 1 else 0

-- The counts after an event, from the counts before it.
pub record Tallies (s t : FoldState) (p : RunLogPayload) : Type 0 where
  pub in_flight : length t.in_flight + one (exits p) ≡ length s.in_flight + one (enters p)
  pub completed : length t.view.completed ≡ length s.view.completed + one (exits p)
  pub frames : length t.view.frames + one (pops p) ≡ length s.view.frames + one (opens p)
  pub paths : length t.frame_paths + one (pops p) ≡ length s.frame_paths + one (opens p)

-- Every event that is accepted moves the counts as its kind says.
pub dispatch-Tallies :
    (s t : FoldState) (e : RunLogEvent) (p : RunLogPayload)
    → length s.view.frames ≡ length s.frame_paths
    → dispatch s e p ≡ ok t
    → Tallies s t p
unfolding dispatch
dispatch-Tallies s t e (RunLogPayload.preflight_probed []) a q = ground arith
dispatch-Tallies s t e (RunLogPayload.preflight_probed (o ∷ os)) a q = ground arith
dispatch-Tallies s t e (RunLogPayload.call_frame_pushed f false) a q = grind (arith, length-push)
dispatch-Tallies s t e (RunLogPayload.call_frame_pushed f true) a q =
    grind (arith, length-modify_at)
dispatch-Tallies s t e (RunLogPayload.run_resumed r p none) a q = ground arith
dispatch-Tallies s t e (RunLogPayload.run_resumed r p (some c)) a q = ground arith
dispatch-Tallies s t e _ a q =
    grind (arith, length-push, length-init, length-modify_last, length-modify_at)

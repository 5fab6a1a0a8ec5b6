-- ===== src/Store/Fold/Frames.antt =====
-- fold.rs, 314-356 and 611-664: the events that start a run and move its stack of call frames.
use pointlock.Prelude.{
  ℕ, Bool, true, false, Option, none, some, [], ok, err, if◌then◌else◌, length, get_elem?, push,
  init, modify_last, modify_at, count, leb,
}
use pointlock.Ir.Vocab.{Hash, StepState}
use pointlock.Ir.Json.{Value}
use pointlock.Ir.RunPath.{PathFrame, RunPath}
use pointlock.Ir.Record.{CallFrame}
use pointlock.Store.Fold.State.{FoldError, RunStatus, InFlightStep, FoldState, root_path}
use pointlock.Store.Fold.Steps.{Folded}

-- `runStarted`: the identity fields of the payload are adopted, and the root frame is opened.
unfoldable pub run_started : FoldState → ℕ → Hash → Hash → Value → Folded
run_started s seq ir_hash lockfile_digest params_snapshot =
    if s.started
    then err (FoldError.duplicate_run_started seq)
    else ok (record s {
      started = true;
      view = record (s.view) {
        ir_hash = ir_hash;
        lockfile_digest = lockfile_digest;
        params_snapshot = params_snapshot;
        frames = push s.view.frames (record {
          flow_id = s.root_flow_id;
          ir_hash = ir_hash;
          call_step_id = none;
          inputs_snapshot = params_snapshot;
          vars = [];
          iter_stack = [];
          next_index = 0;
        });
        frontier = record {
          run_path = root_path s.root_flow_id ir_hash;
          state = StepState.pending;
          pending_intent = none;
        };
      };
      frame_paths = push s.frame_paths (root_path s.root_flow_id ir_hash);
      status = RunStatus.running;
    })

abbrev pub is_call_frame : PathFrame → Bool
is_call_frame (PathFrame.call _ _ _) = true
is_call_frame _ = false

-- The stack level that a path addresses: its call depth.
abbrev pub call_level : RunPath → ℕ
call_level run_path = count is_call_frame run_path

abbrev pub repin : Hash → CallFrame → CallFrame
repin ir_hash open_frame = record open_frame { ir_hash = ir_hash }

-- `callFramePushed` with `rebase`: a frame that is open is entered again, and only its pin moves.
unfoldable pub frame_rebased : FoldState → ℕ → RunPath → CallFrame → Folded
frame_rebased s seq run_path frame = elim (get_elem? s.view.frames (call_level run_path)) [
  | none ↦ err (FoldError.rebase_without_frame seq (call_level run_path) (length s.view.frames))
  | some _ ↦ ok (record s {
    view = record (s.view) {
      frames = modify_at (call_level run_path) (repin frame.ir_hash) s.view.frames;
    };
  })
]

-- `callFramePushed`.
unfoldable pub call_frame_pushed : FoldState → ℕ → RunPath → CallFrame → Bool → Folded
unfolding frame_rebased
call_frame_pushed s seq run_path frame false = ok (record s {
  view = record (s.view) { frames = push s.view.frames frame };
  frame_paths = push s.frame_paths run_path;
})
call_frame_pushed s seq run_path frame true = frame_rebased s seq run_path frame

abbrev pub give_outputs : Option Value → InFlightStep → InFlightStep
give_outputs outputs step = record step { call_outputs = outputs }

-- `callFramePopped`: the callee's outputs go to the innermost step in flight, if there is one.
unfoldable pub call_frame_popped : FoldState → ℕ → Option Value → Folded
call_frame_popped s seq outputs =
    if leb (length s.view.frames) 1
    then err (FoldError.popped_root_frame seq)
    else ok (record s {
      view = record (s.view) { frames = init s.view.frames };
      frame_paths = init s.frame_paths;
      in_flight = modify_last (give_outputs outputs) s.in_flight;
    })

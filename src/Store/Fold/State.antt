-- ===== src/Store/Fold/State.antt =====
-- fold.rs, 60-242 and error.rs, 15-100: the fold's inputs, its errors and its state.
use pointlock.Prelude.{ℕ, String, Bool, false, Option, none, List, [], ◌∷◌}
use pointlock.Ir.Vocab.{FlowId, StepId, ActionName, Hash, ActChannel, StepState}
use pointlock.Ir.Json.{Value}
use pointlock.Ir.RunPath.{PathFrame, RunPath}
use pointlock.Ir.Record.{
  AttemptRecord, ObservationRecord, EvidenceRef, AssertionOutcomeRecord, StepVerdict, BindingState,
  CheckpointView, Frontier,
}

pub data FoldError : Type 0 where
  run_id_mismatch : (seq : ℕ) (expected actual : String) → FoldError
  non_monotonic_seq : (prev seq : ℕ) → FoldError
  event_before_run_started : (seq : ℕ) (event_type : String) → FoldError
  duplicate_run_started : (seq : ℕ) → FoldError
  event_outside_step : (seq : ℕ) (event_type : String) → FoldError
  step_exited_without_entry : (seq : ℕ) → FoldError
  verdict_without_target : (seq : ℕ) → FoldError
  popped_root_frame : (seq : ℕ) → FoldError
  no_active_frame : (seq : ℕ) → FoldError
  rebase_without_frame : (seq level depth : ℕ) → FoldError
  unpaired_human_response : (seq : ℕ) (request_id : String) → FoldError

pub record RunMeta : Type 0 where
  pub run_id : String
  pub flow_id : FlowId
  pub ir_hash : Hash
  pub lockfile_digest : Hash
  pub params_snapshot : Value
  pub binding : BindingState
  pub created_at_ms : ℕ

pub data RunStatus : Type 0 where
  running suspended awaiting_human finished : RunStatus

-- `RunStatus::as_str`.
unfoldable pub status_str : RunStatus → String
status_str RunStatus.running = "running"
status_str RunStatus.suspended = "suspended"
status_str RunStatus.awaiting_human = "awaitingHuman"
status_str RunStatus.finished = "finished"

pub record FoldedRun : Type 0 where
  pub view : CheckpointView
  pub status : RunStatus

-- The step being assembled between `stepEntered` and `stepExited`.
pub record InFlightStep : Type 0 where
  pub run_path : RunPath
  pub step_id : StepId
  pub effect_hash : Hash
  pub judge_hash : Hash
  pub resolved_inputs : Value
  pub attempts : List AttemptRecord
  pub call_outputs : Option Value
  pub observations : List ObservationRecord
  pub evidence : List EvidenceRef
  pub assertion_outcomes : List AssertionOutcomeRecord
  pub verdict : Option StepVerdict

-- The chain index, channel and action name of one `actionIntent`.
pub record DispatchIdentity : Type 0 where
  pub chain_index : Option ℕ
  pub channel : Option ActChannel
  pub action_name : Option ActionName

pub record FoldState : Type 0 where
  pub view : CheckpointView
  pub status : RunStatus
  pub root_flow_id : FlowId
  pub started : Bool
  pub in_flight : List InFlightStep
  pub intent_dispatch : List (String × DispatchIdentity)
  pub frame_paths : List RunPath

abbrev pub root_path : FlowId → Hash → RunPath
root_path flow_id ir_hash = PathFrame.flow flow_id ir_hash ∷ []

-- `FoldState::seed`.
unfoldable pub seed : RunMeta → FoldState
seed meta = record {
  view = record {
    run_id = meta.run_id;
    ir_hash = meta.ir_hash;
    lockfile_digest = meta.lockfile_digest;
    params_snapshot = meta.params_snapshot;
    binding = meta.binding;
    completed = [];
    frames = [];
    frontier = record {
      run_path = root_path meta.flow_id meta.ir_hash;
      state = StepState.pending;
      pending_intent = none;
    };
    human_pending = none;
  };
  status = RunStatus.running;
  root_flow_id = meta.flow_id;
  started = false;
  in_flight = [];
  intent_dispatch = [];
  frame_paths = [];
}

-- Writes to one part of the view.
abbrev pub with_frontier : FoldState → Frontier → FoldState
with_frontier s frontier = record s { view = record (s.view) { frontier = frontier } }

abbrev pub with_step_state : FoldState → StepState → FoldState
with_step_state s state = record s {
  view = record (s.view) { frontier = record (s.view.frontier) { state = state } };
}

-- ===== src/Store/Fold/Humans.antt =====
-- fold.rs, 674-779: human requests and responses, and the events that move the run's status.
use pointlock.Prelude.{
  ℕ, String, Bool, false, ◌&&◌, Option, none, some, List, ok, err, if◌then◌else◌, str_eq, option_eq,
  is_some, push, last?,
}
use pointlock.Ir.Vocab.{HumanPurpose, StepState, is_supervision}
use pointlock.Ir.Json.{Value, get_str}
use pointlock.Ir.RunPath.{RunPath}
use pointlock.Ir.Record.{HumanPending, EventCursor, BindingState}
use pointlock.Ir.RunLog.{HumanRequest}
use pointlock.Store.Fold.State.{FoldError, RunStatus, FoldState}
use pointlock.Store.Fold.Steps.{Folded}

-- `humanRequested`.
unfoldable pub human_requested : FoldState → RunPath → HumanRequest → FoldState
human_requested s run_path request = record s {
  view = record (s.view) {
    human_pending = some (record {
      run_path = run_path;
      request_id = request.request_id;
      purpose = request.purpose;
      mode = request.mode;
      prompt = request.prompt;
      deadline_at_ms = request.deadline_at_ms;
    });
    frontier = record (s.view.frontier) { state = StepState.awaiting_human };
  };
  status = RunStatus.awaiting_human;
}

-- Whether the pending request is the one with this id.
abbrev pub is_pending : String → Option HumanPending → Bool
is_pending request_id none = false
is_pending request_id (some pending) = str_eq pending.request_id request_id

-- A supervision `suspend` answer leaves its request open.
abbrev pub retains : HumanPurpose → Value → Bool
retains purpose response =
    is_supervision purpose && option_eq str_eq (get_str "decision" response) (some "suspend")

-- `humanResponded`.
unfoldable pub human_responded : FoldState → ℕ → String → HumanPurpose → Value → Folded
human_responded s seq request_id purpose response =
    if is_pending request_id s.view.human_pending
    then ok (
        if retains purpose response
        then record s { status = RunStatus.awaiting_human }
        else record s {
          view = record (s.view) { human_pending = none };
          status = RunStatus.running;
        })
    else err (FoldError.unpaired_human_response seq request_id)

-- `runSuspended`.
unfoldable pub run_suspended : FoldState → FoldState
run_suspended s = record s {
  status = (if is_some s.view.human_pending then RunStatus.awaiting_human else RunStatus.suspended);
}

-- The lineage grows by the resumed session, unless it is the latest already.
abbrev pub extend_lineage : List String → String → List String
extend_lineage lineage session =
    if option_eq str_eq (last? lineage) (some session) then lineage else push lineage session

abbrev pub resume_binding : BindingState → EventCursor → BindingState
resume_binding binding cursor = record binding {
  session_lineage = extend_lineage binding.session_lineage cursor.session_id;
  event_cursor = cursor;
}

-- `runResumed`.
unfoldable pub run_resumed : FoldState → Option EventCursor → FoldState
run_resumed s none = record s { status = RunStatus.running }
run_resumed s (some cursor) = record s {
  status = RunStatus.running;
  view = record (s.view) { binding = resume_binding s.view.binding cursor };
}

-- `runFinished`.
unfoldable pub run_finished : FoldState → FoldState
run_finished s = record s { status = RunStatus.finished }

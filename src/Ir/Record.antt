-- ===== src/Ir/Record.antt =====
-- crates/pointlock-ir/src/record.rs and the wire types of runtime.rs that the ledger carries: the
-- durable records and the checkpoint view. A screen scale factor is
-- a finite float, kept by its bit pattern; JSON has no text for any other.
use pointlock.Prelude.{ℕ, String, Bool, Option, List}
use pointlock.Ir.Vocab.{
  FlowId, StepId, AssertId, ActionName, Hash, Channel, ActChannel, ExecutionMode, ErrorClass,
  HumanMode, HumanPurpose, StepState, AlignmentClass, UiContextKind, CoordinateFallbackReason,
  VerdictStatus, ScreenshotOmissionReason, UiSnapshotOmissionReason,
}
use pointlock.Ir.Json.{Value}
use pointlock.Ir.RunPath.{RunPath}

pub record AssetRef : Type 0 where
  pub id : String
  pub media_type : String
  pub uri : String
  pub sha256 : Option String

pub record EvidenceGap : Type 0 where
  pub asset : AssetRef
  pub reason : String

pub record EvidenceRef : Type 0 where
  pub asset : AssetRef
  pub sha256 : String
  pub local_path : String

pub record Viewport : Type 0 where
  pub width : ℕ
  pub height : ℕ
  pub scale_factor : ℕ

pub record ErrorInfo : Type 0 where
  pub code : String
  pub message : String
  pub retryable : Bool
  pub details : Option Value

pub record UiContextRef : Type 0 where
  pub context_kind : UiContextKind
  pub context_id : String
  pub document_epoch : String

pub record UiSnapshotRef : Type 0 where
  pub evidence : AssetRef

pub record Observation : Type 0 where
  pub id : String
  pub device_id : String
  pub captured_at_ms : ℕ
  pub viewport : Viewport
  pub screenshot : Option AssetRef
  pub screenshot_omission : Option ScreenshotOmissionReason
  pub ui_snapshot : Option UiSnapshotRef
  pub ui_snapshot_omission : Option UiSnapshotOmissionReason
  pub metadata : List (String × Value)

pub data ActionExecution : Type 0 where
  native_semantic : (context : UiContextRef) → ActionExecution
  web_semantic : (context : UiContextRef) → ActionExecution
  coordinate_fallback :
      (context : UiContextRef) (fallback_reason : CoordinateFallbackReason) → ActionExecution

pub record ActionResult : Type 0 where
  pub call_id : String
  pub started_at_ms : ℕ
  pub finished_at_ms : ℕ
  pub output : Value
  pub before : Option Observation
  pub after : Option Observation
  pub evidence : List AssetRef
  pub execution : Option ActionExecution

pub data ActionOutcome : Type 0 where
  succeeded : ActionResult → ActionOutcome
  failed cancelled timed_out : ErrorInfo → ActionOutcome

pub data ActionOutcomeKind : Type 0 where
  succeeded failed cancelled timed_out : ActionOutcomeKind

pub record Verdict : Type 0 where
  pub status : VerdictStatus
  pub degraded : Bool
  pub summary : String
  pub evidence : List AssetRef
  pub supersedes : Option String

pub record StepVerdict : Type 0 where
  pub status : VerdictStatus
  pub degraded : Bool
  pub supersedes : Option String

pub record AttemptRecord : Type 0 where
  pub call_id : String
  pub outcome : ActionOutcomeKind
  pub error_class : Option ErrorClass
  pub execution_mode : Option ExecutionMode
  pub fallback_reason : Option CoordinateFallbackReason
  pub chain_index : Option ℕ
  pub channel : Option ActChannel
  pub action_name : Option ActionName

pub record ObservationRecord : Type 0 where
  pub observation_id : String
  pub captured_at_ms : ℕ
  pub viewport : Option Viewport
  pub screenshot : Option EvidenceRef
  pub screenshot_omission : Option ScreenshotOmissionReason
  pub ui_snapshot : Option EvidenceRef
  pub ui_snapshot_omission : Option UiSnapshotOmissionReason

pub record AssertionOutcomeRecord : Type 0 where
  pub assert_id : AssertId
  pub result : VerdictStatus
  pub channel : Option Channel
  pub reason : String

pub record StepRecord : Type 0 where
  pub run_path : RunPath
  pub step_id : StepId
  pub effect_hash : Hash
  pub judge_hash : Hash
  pub attempts : List AttemptRecord
  pub resolved_inputs : Value
  pub output : Option Value
  pub observations : List ObservationRecord
  pub evidence : List EvidenceRef
  pub assertion_outcomes : List AssertionOutcomeRecord
  pub verdict : Option StepVerdict

pub record IterState : Type 0 where
  pub var : String
  pub index : ℕ
  pub key : Option String

pub record CallFrame : Type 0 where
  pub flow_id : FlowId
  pub ir_hash : Hash
  pub call_step_id : Option StepId
  pub inputs_snapshot : Value
  pub vars : List (String × Value)
  pub iter_stack : List IterState
  pub next_index : ℕ

pub record PendingIntent : Type 0 where
  pub call_id : String
  pub args_snapshot : Value

pub record Frontier : Type 0 where
  pub run_path : RunPath
  pub state : StepState
  pub pending_intent : Option PendingIntent

pub record HumanPending : Type 0 where
  pub run_path : RunPath
  pub request_id : String
  pub purpose : HumanPurpose
  pub mode : Option HumanMode
  pub prompt : String
  pub deadline_at_ms : Option ℕ

pub record EventCursor : Type 0 where
  pub session_id : String
  pub last_sequence : ℕ

pub record BindingState : Type 0 where
  pub device_id : String
  pub session_lineage : List String
  pub event_cursor : EventCursor

pub record CheckpointView : Type 0 where
  pub run_id : String
  pub ir_hash : Hash
  pub lockfile_digest : Hash
  pub params_snapshot : Value
  pub binding : BindingState
  pub completed : List StepRecord
  pub frames : List CallFrame
  pub frontier : Frontier
  pub human_pending : Option HumanPending

pub record AlignmentEntry : Type 0 where
  pub run_path : RunPath
  pub step_id : StepId
  pub class : AlignmentClass
  pub reason : Option String

pub record RequiresConfirmation : Type 0 where
  pub run_path : RunPath
  pub step_id : Option StepId
  pub cause : String
  pub reason : String

pub record AlignmentReport : Type 0 where
  pub entries : List AlignmentEntry
  pub resume_point : Option RunPath
  pub requires_confirmation : List RequiresConfirmation

pub record AttestationSnapshot : Type 0 where
  pub lockfile_digest : Hash
  pub attested_at : String

pub record SessionHealthSnapshot : Type 0 where
  pub ok : Bool
  pub degraded : Option String

pub record ProviderStateSummary : Type 0 where
  pub session_lineage : List String
  pub event_cursor : Option EventCursor
  pub attestation : AttestationSnapshot
  pub health : SessionHealthSnapshot
  pub device_id : String
  pub platform : Option String

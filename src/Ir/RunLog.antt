-- ===== src/Ir/RunLog.antt =====
-- crates/pointlock-ir/src/run_log.rs: the closed union of the seventeen ledger events.
use pointlock.Prelude.{ℕ, String, Bool, Option, List}
use pointlock.Ir.Vocab.{
  StepId, ActionName, Hash, ActChannel, HandlerHook, HumanMode, HumanPurpose, StepState,
  SupervisePolicy,
}
use pointlock.Ir.Json.{Value}
use pointlock.Ir.RunPath.{RunPath}
use pointlock.Ir.Record.{
  ActionOutcome, ObservationRecord, AssertionOutcomeRecord, Verdict, EvidenceRef, EvidenceGap,
  ProviderStateSummary, CallFrame, AlignmentReport, EventCursor,
}

-- The fields of `humanRequested`.
pub record HumanRequest : Type 0 where
  pub request_id : String
  pub purpose : HumanPurpose
  pub mode : Option HumanMode
  pub prompt : String
  pub presents : Value
  pub decisions : Option (List String)
  pub output_schema : Option Value
  pub deadline_at_ms : Option ℕ

pub data RunLogPayload : Type 0 where
  run_started :
      (ir_hash : Hash) (lockfile_digest : Hash) (params_snapshot : Value)
      (supervise_policy : Option SupervisePolicy)
      → RunLogPayload
  step_entered :
      (step_id : StepId) (effect_hash judge_hash : Hash) (resolved_inputs : Value) → RunLogPayload
  preflight_probed : (outcomes : List AssertionOutcomeRecord) → RunLogPayload
  action_intent :
      (call_id : String) (args_snapshot : Value) (chain_index : Option ℕ)
      (channel : Option ActChannel) (action_name : Option ActionName)
      → RunLogPayload
  action_settled : (call_id : String) (outcome : ActionOutcome) → RunLogPayload
  observation_recorded : (observation : ObservationRecord) → RunLogPayload
  assertion_evaluated : (outcome : AssertionOutcomeRecord) → RunLogPayload
  verdict_recorded :
      (verdict : Verdict) (localized : List EvidenceRef) (localization_gaps : List EvidenceGap)
      (remote_archival_error : Option String)
      → RunLogPayload
  step_exited :
      (state : StepState) (output : Option Value)
      (provider_state_summary : Option ProviderStateSummary) (localized : List EvidenceRef)
      (localization_gaps : List EvidenceGap)
      → RunLogPayload
  call_frame_pushed : (frame : CallFrame) (rebase : Bool) → RunLogPayload
  call_frame_popped : (outputs : Option Value) → RunLogPayload
  handler_triggered :
      (hook : HandlerHook) (trigger : ℕ) (disposition : Option String) → RunLogPayload
  human_requested : HumanRequest → RunLogPayload
  human_responded :
      (request_id : String) (purpose : HumanPurpose) (response : Value) (actor : String)
      → RunLogPayload
  run_suspended :
      (reason : Option String) (provider_state_summary : Option ProviderStateSummary)
      → RunLogPayload
  run_resumed :
      (alignment_report : AlignmentReport) (supervise_policy : Option SupervisePolicy)
      (event_cursor : Option EventCursor)
      → RunLogPayload
  run_finished : (verdict : Option Verdict) (remote_archival_error : Option String) → RunLogPayload

pub record RunLogEvent : Type 0 where
  pub run_id : String
  pub seq : ℕ
  pub at_ms : ℕ
  pub run_path : RunPath
  pub payload : RunLogPayload

-- `RunLogPayload::event_type`, the wire discriminant.
unfoldable pub event_type : RunLogPayload → String
event_type (RunLogPayload.run_started _ _ _ _) = "runStarted"
event_type (RunLogPayload.step_entered _ _ _ _) = "stepEntered"
event_type (RunLogPayload.preflight_probed _) = "preflightProbed"
event_type (RunLogPayload.action_intent _ _ _ _ _) = "actionIntent"
event_type (RunLogPayload.action_settled _ _) = "actionSettled"
event_type (RunLogPayload.observation_recorded _) = "observationRecorded"
event_type (RunLogPayload.assertion_evaluated _) = "assertionEvaluated"
event_type (RunLogPayload.verdict_recorded _ _ _ _) = "verdictRecorded"
event_type (RunLogPayload.step_exited _ _ _ _ _) = "stepExited"
event_type (RunLogPayload.call_frame_pushed _ _) = "callFramePushed"
event_type (RunLogPayload.call_frame_popped _) = "callFramePopped"
event_type (RunLogPayload.handler_triggered _ _ _) = "handlerTriggered"
event_type (RunLogPayload.human_requested _) = "humanRequested"
event_type (RunLogPayload.human_responded _ _ _ _) = "humanResponded"
event_type (RunLogPayload.run_suspended _ _) = "runSuspended"
event_type (RunLogPayload.run_resumed _ _ _) = "runResumed"
event_type (RunLogPayload.run_finished _ _) = "runFinished"

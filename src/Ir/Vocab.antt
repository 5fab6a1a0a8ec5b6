-- ===== src/Ir/Vocab.antt =====
-- crates/pointlock-ir/src/vocab.rs: the closed vocabularies. Identifiers and hashes are newtypes
-- over texts (primitives.rs); the grammars that their constructors check are not needed here.
use pointlock.Prelude.{Bool, true, false, String}

abbrev pub FlowId : Type 0
FlowId = String

abbrev pub StepId : Type 0
StepId = String

abbrev pub AssertId : Type 0
AssertId = String

abbrev pub ActionName : Type 0
ActionName = String

abbrev pub Hash : Type 0
Hash = String

pub data Channel : Type 0 where
  dom ui_tree vision coordinate : Channel

pub data ActChannel : Type 0 where
  dom ui_tree coordinate : ActChannel

pub data ExecutionMode : Type 0 where
  native_semantic web_semantic coordinate_fallback : ExecutionMode

pub data ErrorClass : Type 0 where
  capability_drift bind_arguments_invalid action_failed_retryable : ErrorClass
  action_failed_final action_timed_out action_cancelled : ErrorClass
  target_stale transport_lost session_degraded : ErrorClass

pub data VerdictPolicy : Type 0 where
  standard strict : VerdictPolicy

pub data HumanMode : Type 0 where
  confirm judge provide_input repair_world : HumanMode

pub data HandlerHook : Type 0 where
  on_fail on_unknown on_error on_resume_drift : HandlerHook

pub data Phase : Type 0 where
  preflight act observe assert : Phase

pub data StepState : Type 0 where
  pending ready probing acting settling observing asserting : StepState
  judged skipped blocked drifted awaiting_human suspended aborted : StepState

pub data AlignmentClass : Type 0 where
  reusable judge_dirty effect_dirty new orphaned : AlignmentClass

pub data HumanPurpose : Type 0 where
  step supervision : HumanPurpose

pub data SupervisePolicy : Type 0 where
  mutating all : SupervisePolicy

pub data UiContextKind : Type 0 where
  native web : UiContextKind

pub data CoordinateFallbackReason : Type 0 where
  semantic_interaction_unavailable platform_limitation : CoordinateFallbackReason

pub data VerdictStatus : Type 0 where
  pass fail unknown : VerdictStatus

pub data ScreenshotOmissionReason : Type 0 where
  policy protected_action : ScreenshotOmissionReason

pub data UiSnapshotOmissionReason : Type 0 where
  driver_unsupported policy protected_action : UiSnapshotOmissionReason

-- The derived equality of `VerdictStatus`.
abbrev pub status_eq : VerdictStatus → VerdictStatus → Bool
status_eq VerdictStatus.pass VerdictStatus.pass = true
status_eq VerdictStatus.fail VerdictStatus.fail = true
status_eq VerdictStatus.unknown VerdictStatus.unknown = true
status_eq _ _ = false

abbrev pub is_strict : VerdictPolicy → Bool
is_strict VerdictPolicy.strict = true
is_strict VerdictPolicy.standard = false

abbrev pub is_supervision : HumanPurpose → Bool
is_supervision HumanPurpose.supervision = true
is_supervision HumanPurpose.step = false

-- The derived equality of `HandlerHook`.
abbrev pub hook_eq : HandlerHook → HandlerHook → Bool
hook_eq HandlerHook.on_fail HandlerHook.on_fail = true
hook_eq HandlerHook.on_unknown HandlerHook.on_unknown = true
hook_eq HandlerHook.on_error HandlerHook.on_error = true
hook_eq HandlerHook.on_resume_drift HandlerHook.on_resume_drift = true
hook_eq _ _ = false

-- The derived equality of `Phase`.
abbrev pub phase_eq : Phase → Phase → Bool
phase_eq Phase.preflight Phase.preflight = true
phase_eq Phase.act Phase.act = true
phase_eq Phase.observe Phase.observe = true
phase_eq Phase.assert Phase.assert = true
phase_eq _ _ = false

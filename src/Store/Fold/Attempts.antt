-- ===== src/Store/Fold/Attempts.antt =====
-- fold.rs, 851-906: the durable record of one dispatched attempt.
use pointlock.Prelude.{String, Option, none, some, if◌then◌else◌, str_eq}
use pointlock.Ir.Vocab.{ExecutionMode, ErrorClass, CoordinateFallbackReason}
use pointlock.Ir.Record.{ActionExecution, ActionOutcome, ActionOutcomeKind, AttemptRecord}
use pointlock.Store.Fold.State.{DispatchIdentity}

-- `parse_error_class`: the wire names of `ErrorClass`.
unfoldable pub parse_error_class : String → Option ErrorClass
parse_error_class code =
    if str_eq code "capability_drift"
    then some ErrorClass.capability_drift
    else if str_eq code "bind_arguments_invalid"
    then some ErrorClass.bind_arguments_invalid
    else if str_eq code "action_failed_retryable"
    then some ErrorClass.action_failed_retryable
    else if str_eq code "action_failed_final"
    then some ErrorClass.action_failed_final
    else if str_eq code "action_timed_out"
    then some ErrorClass.action_timed_out
    else if str_eq code "action_cancelled"
    then some ErrorClass.action_cancelled
    else if str_eq code "target_stale"
    then some ErrorClass.target_stale
    else if str_eq code "transport_lost"
    then some ErrorClass.transport_lost
    else if str_eq code "session_degraded"
    then some ErrorClass.session_degraded
    else none

outcome_kind : ActionOutcome → ActionOutcomeKind
outcome_kind (ActionOutcome.succeeded _) = ActionOutcomeKind.succeeded
outcome_kind (ActionOutcome.failed _) = ActionOutcomeKind.failed
outcome_kind (ActionOutcome.cancelled _) = ActionOutcomeKind.cancelled
outcome_kind (ActionOutcome.timed_out _) = ActionOutcomeKind.timed_out

outcome_error_class : ActionOutcome → Option ErrorClass
outcome_error_class (ActionOutcome.succeeded _) = none
outcome_error_class (ActionOutcome.failed error) = parse_error_class error.code
outcome_error_class (ActionOutcome.cancelled error) = parse_error_class error.code
outcome_error_class (ActionOutcome.timed_out error) = parse_error_class error.code

execution_parts : Option ActionExecution → Option ExecutionMode × Option CoordinateFallbackReason
execution_parts (some (ActionExecution.native_semantic _)) =
    (some ExecutionMode.native_semantic, none)
execution_parts (some (ActionExecution.web_semantic _)) = (some ExecutionMode.web_semantic, none)
execution_parts (some (ActionExecution.coordinate_fallback _ reason)) =
    (some ExecutionMode.coordinate_fallback, some reason)
execution_parts none = (none, none)

outcome_execution : ActionOutcome → Option ExecutionMode × Option CoordinateFallbackReason
outcome_execution (ActionOutcome.succeeded result) = execution_parts result.execution
outcome_execution _ = (none, none)

-- `attempt_record`.
unfoldable pub attempt_record : String → ActionOutcome → DispatchIdentity → AttemptRecord
unfolding outcome_kind outcome_error_class outcome_execution execution_parts
attempt_record call_id outcome dispatch =
    let (execution_mode, fallback_reason) = outcome_execution outcome in
    record {
      call_id = call_id;
      outcome = outcome_kind outcome;
      error_class = outcome_error_class outcome;
      execution_mode = execution_mode;
      fallback_reason = fallback_reason;
      chain_index = dispatch.chain_index;
      channel = dispatch.channel;
      action_name = dispatch.action_name;
    }

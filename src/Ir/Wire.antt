-- ===== src/Ir/Wire.antt =====
-- What serde_json reads back of the events and views that the store writes (run_log.rs, record.rs and
-- runtime.rs, the derived `Serialize` and `Deserialize`): a present `null` in an `Option<Value>` is
-- written like any value and read back as absent; everything else comes back as it was.
use pointlock.Prelude.{
  ◌≡◌, refl, Bool, true, false, Option, none, some, List, [], ◌∷◌, map, all, arith,
}
use pointlock.Ir.Json.{Value}
use pointlock.Ir.Record.{ErrorInfo, ActionOutcome, StepRecord, CheckpointView}
use pointlock.Ir.RunLog.{RunLogPayload, RunLogEvent}

-- An `Option<Value>` field.
unfoldable pub reread_value : Option Value → Option Value
reread_value (some Value.null) = none
reread_value field = field

abbrev pub reread_error : ErrorInfo → ErrorInfo
reread_error error = record error { details = reread_value error.details }

abbrev pub reread_outcome : ActionOutcome → ActionOutcome
reread_outcome (ActionOutcome.succeeded result) = ActionOutcome.succeeded result
reread_outcome (ActionOutcome.failed error) = ActionOutcome.failed (reread_error error)
reread_outcome (ActionOutcome.cancelled error) = ActionOutcome.cancelled (reread_error error)
reread_outcome (ActionOutcome.timed_out error) = ActionOutcome.timed_out (reread_error error)

abbrev pub reread_payload : RunLogPayload → RunLogPayload
reread_payload (RunLogPayload.action_settled call_id outcome) =
    RunLogPayload.action_settled call_id (reread_outcome outcome)
reread_payload (RunLogPayload.step_exited state output summary localized gaps) =
    RunLogPayload.step_exited state (reread_value output) summary localized gaps
reread_payload (RunLogPayload.call_frame_popped outputs) =
    RunLogPayload.call_frame_popped (reread_value outputs)
reread_payload payload = payload

-- A row of `run_log`.
abbrev pub reread_event : RunLogEvent → RunLogEvent
reread_event e = record e { payload = reread_payload e.payload }

abbrev pub reread_record : StepRecord → StepRecord
reread_record step = record step { output = reread_value step.output }

-- The column `view` of `checkpoint`.
abbrev pub reread_view : CheckpointView → CheckpointView
reread_view view = record view { completed = map reread_record view.completed }

-- The field comes back as it was: it is absent or not `null`.
abbrev pub carried : Option Value → Bool
carried (some Value.null) = false
carried _ = true

abbrev pub carried_outcome : ActionOutcome → Bool
carried_outcome (ActionOutcome.succeeded result) = true
carried_outcome (ActionOutcome.failed error) = carried error.details
carried_outcome (ActionOutcome.cancelled error) = carried error.details
carried_outcome (ActionOutcome.timed_out error) = carried error.details

-- No optional value of the payload is a present `null`.
abbrev pub carried_payload : RunLogPayload → Bool
carried_payload (RunLogPayload.action_settled call_id outcome) = carried_outcome outcome
carried_payload (RunLogPayload.step_exited state output summary localized gaps) = carried output
carried_payload (RunLogPayload.call_frame_popped outputs) = carried outputs
carried_payload _ = true

reread_value-carried : (field : Option Value) → carried field ≡ true → reread_value field ≡ field
unfolding reread_value
reread_value-carried (some Value.null) h = ground arith
reread_value-carried _ h = refl

reread_outcome-carried :
    (outcome : ActionOutcome) → carried_outcome outcome ≡ true → reread_outcome outcome ≡ outcome
reread_outcome-carried (ActionOutcome.succeeded result) h = refl
reread_outcome-carried (ActionOutcome.failed error) h =
    rw (reread_value-carried error.details h) refl
reread_outcome-carried (ActionOutcome.cancelled error) h =
    rw (reread_value-carried error.details h) refl
reread_outcome-carried (ActionOutcome.timed_out error) h =
    rw (reread_value-carried error.details h) refl

pub reread_payload-carried :
    (payload : RunLogPayload) → carried_payload payload ≡ true → reread_payload payload ≡ payload
reread_payload-carried (RunLogPayload.action_settled call_id outcome) h =
    rw (reread_outcome-carried outcome h) refl
reread_payload-carried (RunLogPayload.step_exited state output summary localized gaps) h =
    rw (reread_value-carried output h) refl
reread_payload-carried (RunLogPayload.call_frame_popped outputs) h =
    rw (reread_value-carried outputs h) refl
reread_payload-carried _ h = refl

pub reread_event-carried : (e : RunLogEvent) → carried_payload e.payload ≡ true → reread_event e ≡ e
reread_event-carried e h = rw (reread_payload-carried e.payload h) refl

-- The completed records come back as they were.
abbrev pub carried_records : List StepRecord → Bool
carried_records steps = all (λ step. carried step.output) steps

map-carried :
    (steps : List StepRecord) → carried_records steps ≡ true → map reread_record steps ≡ steps
map-carried [] h = refl
map-carried (step ∷ steps) h =
    rw (reread_value-carried step.output (ground arith), map-carried steps (ground arith)) refl

pub reread_view-carried :
    (view : CheckpointView) → carried_records view.completed ≡ true → reread_view view ≡ view
reread_view-carried view h = rw (map-carried view.completed h) refl

-- ===== src/Store/Respond.antt =====
-- store.rs, 367-496: the arbitration of a human response.
use pointlock.Prelude.{
  ℕ, String, Bool, false, not, ◌&&◌, Option, none, some, List, [], ◌∷◌, Result, ok, err,
  if◌then◌else◌, str_eq, any, ltb,
}
use pointlock.Ir.Json.{Value}
use pointlock.Ir.RunPath.{RunPath}
use pointlock.Ir.Record.{CheckpointView}
use pointlock.Ir.RunLog.{RunLogPayload, RunLogEvent, HumanRequest}
use pointlock.Store.Fold.Humans.{is_pending, retains}
use pointlock.Store.Db.{HumanResponseRejection, StoreError, Store, TxOutcome}
use pointlock.Store.Append.{append_event}
use pointlock.Store.Verify.{events}
use pointlock.Store.Shape.{Checked, validate_response_shape}

-- The request with this id, at the run path of its event.
abbrev pub requested : String → RunPath → RunLogPayload → Option (RunPath × HumanRequest)
requested request_id run_path (RunLogPayload.human_requested request) =
    if str_eq request.request_id request_id then some (run_path, request) else none
requested request_id run_path _ = none

unfoldable pub find_request : String → List RunLogEvent → Option (RunPath × HumanRequest)
find_request request_id [] = none
find_request request_id (e ∷ log) = elim (requested request_id e.run_path e.payload) [
  | some found ↦ some found
  | none ↦ find_request request_id log
]

-- A final response to the request.
abbrev pub is_final_response : String → RunLogPayload → Bool
is_final_response request_id (RunLogPayload.human_responded responded purpose response _) =
    str_eq responded request_id && not (retains purpose response)
is_final_response request_id _ = false

abbrev pub finally_responded : String → List RunLogEvent → Bool
finally_responded request_id log = any (λ e. is_final_response request_id e.payload) log

-- Whether `at_ms` is past the deadline.
unfoldable pub past_deadline : Option ℕ → ℕ → Option ℕ
past_deadline none at_ms = none
past_deadline (some deadline) at_ms = if ltb deadline at_ms then some deadline else none

abbrev pub pending_in : String → Option (ℕ × CheckpointView) → Bool
pending_in request_id none = false
pending_in request_id (some (_, view)) = is_pending request_id view.human_pending

abbrev pub lift_shape : Checked → Result (Unit {0}) HumanResponseRejection
lift_shape (ok u) = ok u
lift_shape (err reason) = err (HumanResponseRejection.invalid_shape reason)

-- The validator of JSON schemas, a library.
module _ (validate : Value → Value → Bool) where
  -- Rules 2 to 5 of the arbitration, in order.
  unfoldable pub arbitrate :
      List RunLogEvent
      → Option (ℕ × CheckpointView)
      → String
      → ℕ
      → Value
      → HumanRequest
      → Result (Unit {0}) HumanResponseRejection
  unfolding past_deadline
  arbitrate log checkpoint request_id at_ms response request =
      if finally_responded request_id log
      then err HumanResponseRejection.already_responded
      else elim (past_deadline request.deadline_at_ms at_ms) [
        | some deadline ↦ err (HumanResponseRejection.deadline_expired deadline at_ms)
        | none ↦
            if not (pending_in request_id checkpoint)
            then err HumanResponseRejection.settled
            else lift_shape (validate_response_shape validate request response)
      ]

  abbrev pub response_payload : String → String → Value → HumanRequest → RunLogPayload
  response_payload request_id actor response request =
      RunLogPayload.human_responded request_id request.purpose response actor

  unfoldable pub respond_to :
      Store
      → String
      → String
      → String
      → ℕ
      → Value
      → TxOutcome
      → RunPath
      → HumanRequest
      → Result (Unit {0}) HumanResponseRejection
      → Store × Result ℕ StoreError
  respond_to st run_id request_id actor at_ms response tx run_path request (err reason) =
      (st, err (StoreError.human_response_rejected run_id request_id reason))
  respond_to st run_id request_id actor at_ms response tx run_path request (ok _) =
      append_event st run_id at_ms run_path (response_payload request_id actor response request) tx

  unfoldable pub submit_to :
      Store
      → String
      → String
      → String
      → ℕ
      → Value
      → TxOutcome
      → List RunLogEvent
      → Option (RunPath × HumanRequest)
      → Store × Result ℕ StoreError
  unfolding respond_to
  submit_to st run_id request_id actor at_ms response tx log none = (
    st,
    err (
        StoreError.human_response_rejected run_id request_id
          HumanResponseRejection.unknown_request),
  )
  submit_to st run_id request_id actor at_ms response tx log (some (run_path, request)) =
      respond_to st run_id request_id actor at_ms response tx run_path request
        (arbitrate log (st.tables.checkpoints run_id) request_id at_ms response request)

  -- `Store::submit_human_response`.
  unfoldable pub submit_human_response :
      Store → String → String → String → ℕ → Value → TxOutcome → Store × Result ℕ StoreError
  unfolding submit_to events
  submit_human_response st run_id request_id actor at_ms response tx = elim (events st run_id) [
    | err x ↦ (st, err x)
    | ok log ↦
        submit_to st run_id request_id actor at_ms response tx log (find_request request_id log)
  ]

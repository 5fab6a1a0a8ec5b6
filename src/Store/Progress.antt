-- ===== src/Store/Progress.antt =====
-- store.rs, 367-496, and fold.rs, 674-735: a run that waits for a human can be answered.
use pointlock.Prelude.{
  ℕ, suc, ◌≡◌, refl, ◌∙◌, ap, String, Bool, true, false, Option, none, some, List, if◌then◌else◌,
  Result, ok, length, str_eq_refl, Bool-cases, inl, inr, push, arith,
}
use pointlock.Ir.Json.{Value}
use pointlock.Ir.RunPath.{RunPath}
use pointlock.Ir.Record.{CheckpointView}
use pointlock.Ir.RunLog.{RunLogEvent, HumanRequest}
use pointlock.Store.Fold.Humans.{is_pending, retains}
use pointlock.Store.Fold.State.{RunStatus, FoldState}
use pointlock.Store.Fold.Finish.{finish}
use pointlock.Store.Db.{StoreError, RunRow, Tables, Store, TxOutcome}
use pointlock.Store.Append.{next_event, commit_event}
use pointlock.Store.Respond.{
  arbitrate, response_payload, past_deadline, pending_in, find_request, finally_responded,
  submit_human_response,
}
use pointlock.Store.Shape.{validate_response_shape}
use pointlock.Store.Sound.{IsSound}
use pointlock.Store.Accepted.{arbitrated-seen, arbitrated-logs, answer_event, responded_to}

-- The status of a run once its request has a response: a retained request keeps it waiting.
abbrev pub status_after : HumanRequest → Value → RunStatus
status_after request response =
    if retains request.purpose response then RunStatus.awaiting_human else RunStatus.running

abbrev pub row_status : Option RunRow → Option RunStatus
row_status none = none
row_status (some row) = some row.status

-- The run waits in these tables for the request or not, and has this status.
abbrev pub stands : String → String → Tables → Bool × Option RunStatus
stands run_id request_id tables =
    (pending_in request_id (tables.checkpoints run_id), row_status (tables.runs run_id))

module _ (validate : Value → Value → Bool) where
  -- The arbitration has no objection but the five.
  arbitrate-accepts :
      (log : List RunLogEvent) (checkpoint : Option (ℕ × CheckpointView)) (request_id : String)
      (at_ms : ℕ) (response : Value) (request : HumanRequest)
      → finally_responded request_id log ≡ false
      → past_deadline request.deadline_at_ms at_ms ≡ none
      → pending_in request_id checkpoint ≡ true
      → validate_response_shape validate request response ≡ ok tt
      → arbitrate validate log checkpoint request_id at_ms response request ≡ ok tt
  unfolding arbitrate
  arbitrate-accepts log checkpoint request_id at_ms response request unanswered timely pending
        fits =
      rw (unanswered, timely, pending, fits) refl

  committed_lem :
      (tables : Tables) (row : RunRow) (event : RunLogEvent) (state : FoldState)
      (request_id : String) (response : Value) (request : HumanRequest)
      → is_pending request_id state.view.human_pending ≡ true
      → stands event.run_id request_id
          (commit_event tables row event (responded_to state request response))
        ≡ (retains request.purpose response, some (status_after request response))
  unfolding finish
  committed_lem tables row event state request_id response request pending =
      elim (Bool-cases (retains request.purpose response)) [
        | inl kept ↦ ground (arith, kept, pending, str_eq_refl event.run_id)
        | inr final ↦ ground (arith, final, str_eq_refl event.run_id)
      ]

  -- In a sound store, a request that the run waits for and that has no final response is answered by any
  -- response of the right shape that does not come after the deadline, once the transaction commits: it
  -- is appended to the run's log as the event after the last, the answer is its number, and the run is running without the request, except that a
  -- supervision answer to suspend leaves the request open and the run waiting.
  pub submit-unblocks :
      (st : Store) (run_id request_id actor : String) (at_ms : ℕ) (response : Value)
      (run_path : RunPath) (request : HumanRequest) (row : RunRow)
      → IsSound st
      → st.tables.runs run_id ≡ some row
      → find_request request_id (st.tables.logs run_id) ≡ some (run_path, request)
      → finally_responded request_id (st.tables.logs run_id) ≡ false
      → past_deadline request.deadline_at_ms at_ms ≡ none
      → pending_in request_id (st.tables.checkpoints run_id) ≡ true
      → validate_response_shape validate request response ≡ ok tt
      → ((submit_human_response validate st run_id request_id actor at_ms response
            TxOutcome.commits).1
          ≡ ok (suc (length (st.tables.logs run_id))))
        × ((submit_human_response validate st run_id request_id actor at_ms response
                TxOutcome.commits).0.tables.logs
              run_id
            ≡ push
                (st.tables.logs run_id)
                (answer_event st run_id request_id actor at_ms response run_path request))
        × (stands run_id request_id
              (submit_human_response validate st run_id request_id actor at_ms response
                TxOutcome.commits).0.tables
            ≡ (retains request.purpose response, some (status_after request response)))
  submit-unblocks st run_id request_id actor at_ms response run_path request row sound known asked
        unanswered timely pending fits =
      let (state, waiting, numbered, outcome) =
        arbitrated-seen validate st run_id request_id actor at_ms response run_path request row
          sound known asked
          (arbitrate-accepts (st.tables.logs run_id) (st.tables.checkpoints run_id) request_id at_ms
            response request unanswered timely pending fits) in
      (
        ap (λ (out : Tables × Result ℕ StoreError). out.1) outcome,
        ap (λ (out : Tables × Result ℕ StoreError). out.0.logs run_id) outcome
            ∙ arbitrated-logs validate st run_id request_id actor at_ms response run_path request
                row (responded_to state request response) numbered,
        ap (λ (out : Tables × Result ℕ StoreError). stands run_id request_id out.0) outcome
            ∙ committed_lem st.tables row
                (next_event st.tables run_id at_ms run_path
                  (response_payload validate request_id actor response request))
                state request_id response request waiting,
      )

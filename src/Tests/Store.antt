-- ===== src/Tests/Store.antt =====
-- The theorems on the store, at a history with a failed transaction, a restart and two responses.
use pointlock.Prelude.{
  suc, ◌≡◌, refl, Bool, true, false, none, some, Option, List, [], ◌∷◌, ok, err, push, length,
}
use pointlock.Ir.Json.{Value}
use pointlock.Ir.Wire.{reread_event}
use pointlock.Ir.RunLog.{RunLogPayload, RunLogEvent}
use pointlock.Store.Fold.State.{RunStatus, root_path, seed}
use pointlock.Store.Fold.Apply.{fold_state, fold_from, fold_step, apply}
use pointlock.Store.Fold.Humans.{retains}
use pointlock.Store.Fold.Finish.{finish}
use pointlock.Store.Shape.{validate_response_shape}
use pointlock.Store.Db.{
  StoreError, HumanResponseRejection, NewRun, RunRow, Store, TxOutcome, empty_store,
}
use pointlock.Store.Append.{append_event, next_event, begin_run, settle_tx, fold_cached}
use pointlock.Store.Respond.{
  arbitrate, find_request, finally_responded, pending_in, past_deadline, submit_human_response,
}
use pointlock.Store.Sound.{IsSound}
use pointlock.Store.Preserve.{empty_store-IsSound}
use pointlock.Store.History.{StoreOp, perform, perform_all, perform_all-IsSound}
use pointlock.Store.Progress.{stands, status_after, submit-unblocks}
use pointlock.Store.Refines.{append_spec, seen, append_event-refines}
use pointlock.Store.Accepted.{arbitrated-commits, answer_event}
use pointlock.Store.Arbitration.{accepted-rejects_later}
use pointlock.Tests.Ledger.{binding, step_path, request, decision}

-- A validator that accepts everything.
abbrev pub lenient : Value → Value → Bool
lenient schema document = true

abbrev pub new_run : NewRun
new_run = record {
  run_id = some "run-1";
  flow_id = "login";
  ir_hash = "h0";
  lockfile_digest = "d0";
  params_snapshot = Value.null;
  binding = binding;
  created_at_ms = 1;
}

abbrev opening : List StoreOp
opening =
    StoreOp.begin new_run "generated"
    ∷ StoreOp.append "run-1" 100 (root_path "login" "h0")
        (RunLogPayload.run_started "h0" "d0" Value.null none) TxOutcome.commits
    ∷ StoreOp.append "run-1" 101 (step_path "tap") (RunLogPayload.human_requested request)
        TxOutcome.fails_after_fold
    ∷ StoreOp.append "run-1" 102 (step_path "tap") (RunLogPayload.human_requested request)
        TxOutcome.commits
    ∷ StoreOp.restart
    ∷ []

abbrev asked_store : Store
asked_store = perform_all lenient empty_store opening

abbrev answer : StoreOp
answer = StoreOp.respond "run-1" "request-1" "ada" 400 (decision "proceed") TxOutcome.commits

abbrev answered_store : Store
answered_store = perform lenient asked_store answer

abbrev first_event : List RunLogEvent → RunLogEvent
first_event [] = next_event empty_store.tables "run-1" 0 [] (RunLogPayload.run_suspended none none)
first_event (e ∷ log) = e

abbrev later_events : List RunLogEvent → List RunLogEvent
later_events [] = []
later_events (e ∷ log) = log

abbrev asked_log : List RunLogEvent
asked_log = asked_store.tables.logs "run-1"

abbrev row_or : Option RunRow → RunRow
row_or (some row) = row
row_or none = record {
  meta = record {
    run_id = "";
    flow_id = "";
    ir_hash = "";
    lockfile_digest = "";
    params_snapshot = Value.null;
    binding = binding;
    created_at_ms = 0;
  };
  status = RunStatus.running;
}

abbrev asked_row : RunRow
asked_row = row_or (asked_store.tables.runs "run-1")

known_lem : asked_store.tables.runs "run-1" ≡ some asked_row
unfolding perform_all perform append_event begin_run settle_tx fold_cached fold_state fold_from
    fold_step apply seed
known_lem = refl

found_lem : find_request "request-1" asked_log ≡ some (step_path "tap", request)
unfolding perform_all perform append_event begin_run settle_tx fold_cached fold_state fold_from
    fold_step apply seed find_request
found_lem = refl

ruling_lem :
    arbitrate lenient asked_log
      (asked_store.tables.checkpoints "run-1")
      "request-1"
      400
      (decision "proceed")
      request
    ≡ ok tt
unfolding perform_all perform append_event begin_run settle_tx fold_cached fold_state fold_from
    fold_step apply seed arbitrate finish validate_response_shape
ruling_lem = refl

accepted_lem :
    submit_human_response lenient asked_store "run-1" "request-1" "ada" 400
      (decision "proceed")
      TxOutcome.commits
    ≡ (answered_store, ok 3)
unfolding perform_all perform append_event begin_run settle_tx fold_cached fold_state fold_from
    fold_step apply seed submit_human_response find_request arbitrate finish validate_response_shape
accepted_lem = refl

abbrev asked_sound : IsSound asked_store
asked_sound = perform_all-IsSound lenient empty_store opening refl empty_store-IsSound

arbitrated-commits_example :
    ((submit_human_response lenient asked_store "run-1" "request-1" "ada" 400
        (decision "proceed")
        TxOutcome.commits).1
      ≡ ok (suc (length asked_log)))
    × ((submit_human_response lenient asked_store "run-1" "request-1" "ada" 400
            (decision "proceed")
            TxOutcome.commits).0.tables.logs
          "run-1"
        ≡ push asked_log (
            answer_event asked_store "run-1" "request-1" "ada" 400
              (decision "proceed")
              (step_path "tap")
              request))
arbitrated-commits_example =
    arbitrated-commits lenient asked_store "run-1" "request-1" "ada" 400 (decision "proceed")
      (step_path "tap") request asked_row asked_sound known_lem found_lem ruling_lem

abbrev afterwards : List StoreOp
afterwards =
    StoreOp.restart
    ∷ StoreOp.append "run-1" 450 (step_path "tap") (RunLogPayload.run_suspended none none)
        TxOutcome.commits
    ∷ []

accepted-rejects_later_example :
    submit_human_response lenient
      (perform_all lenient answered_store afterwards)
      "run-1"
      "request-1"
      "bob"
      460
      (decision "abort")
      TxOutcome.commits
    ≡ (
      perform_all lenient answered_store afterwards,
      err (
          StoreError.human_response_rejected "run-1" "request-1"
            HumanResponseRejection.already_responded),
    )
accepted-rejects_later_example =
    accepted-rejects_later lenient asked_store "run-1" "request-1" "ada" 400 (decision "proceed")
      TxOutcome.commits (step_path "tap") request answered_store 3 afterwards "bob" 460
      (decision "abort") TxOutcome.commits found_lem refl accepted_lem

append_event-refines_example :
    (seen (
        append_event asked_store "run-1" 450
          (step_path "tap")
          (RunLogPayload.run_suspended none none)
          TxOutcome.commits)
      ≡ append_spec asked_store.tables asked_row
          (next_event asked_store.tables "run-1" 450
            (step_path "tap")
            (RunLogPayload.run_suspended none none))
          TxOutcome.commits
          (fold_state asked_row.meta (
            push asked_log (
              reread_event (
                next_event asked_store.tables "run-1" 450
                  (step_path "tap")
                  (RunLogPayload.run_suspended none none))))))
    × ((next_event asked_store.tables "run-1" 450
          (step_path "tap")
          (RunLogPayload.run_suspended none none)).seq
        ≡ suc (length asked_log))
append_event-refines_example =
    append_event-refines asked_store "run-1" 450 (step_path "tap")
      (RunLogPayload.run_suspended none none) TxOutcome.commits asked_row refl asked_sound known_lem

unanswered_lem : finally_responded "request-1" asked_log ≡ false
unfolding perform_all perform append_event begin_run settle_tx fold_cached fold_state fold_from
    fold_step apply seed
unanswered_lem = refl

pending_lem : pending_in "request-1" (asked_store.tables.checkpoints "run-1") ≡ true
unfolding perform_all perform append_event begin_run settle_tx fold_cached fold_state fold_from
    fold_step apply seed finish
pending_lem = refl

timely_lem : past_deadline request.deadline_at_ms 400 ≡ none
unfolding past_deadline
timely_lem = refl

fits_lem : validate_response_shape lenient request (decision "proceed") ≡ ok tt
unfolding validate_response_shape
fits_lem = refl

submit-unblocks_example :
    ((submit_human_response lenient asked_store "run-1" "request-1" "ada" 400
        (decision "proceed")
        TxOutcome.commits).1
      ≡ ok (suc (length asked_log)))
    × ((submit_human_response lenient asked_store "run-1" "request-1" "ada" 400
            (decision "proceed")
            TxOutcome.commits).0.tables.logs
          "run-1"
        ≡ push asked_log (
            answer_event asked_store "run-1" "request-1" "ada" 400
              (decision "proceed")
              (step_path "tap")
              request))
    × (stands "run-1" "request-1"
          (submit_human_response lenient asked_store "run-1" "request-1" "ada" 400
            (decision "proceed")
            TxOutcome.commits).0.tables
        ≡ (
          retains request.purpose (decision "proceed"),
          some (status_after request (decision "proceed")),
        ))
submit-unblocks_example =
    submit-unblocks lenient asked_store "run-1" "request-1" "ada" 400 (decision "proceed")
      (step_path "tap") request asked_row asked_sound known_lem found_lem unanswered_lem timely_lem
      pending_lem fits_lem

-- ===== src/Tests/Reread.antt =====
-- A `null` output that the ledger does not give back: the cached fold and the refold differ.
use pointlock.Prelude.{ℕ, Option, map, map_ok, ◌≡◌, refl, false, none, some, List, [], ◌∷◌, ok}
use pointlock.Ir.Json.{Value}
use pointlock.Ir.Vocab.{StepState}
use pointlock.Ir.RunLog.{RunLogPayload}
use pointlock.Ir.RunPath.{RunPath}
use pointlock.Ir.Record.{CallFrame, StepRecord, CheckpointView}
use pointlock.Store.Fold.State.{root_path, seed}
use pointlock.Store.Db.{Store, TxOutcome, empty_store}
use pointlock.Store.Fold.Apply.{fold_state, fold_from, fold_step, apply}
use pointlock.Store.Fold.Finish.{finish, fold_checkpoint}
use pointlock.Ir.Wire.{reread_value}
use pointlock.Store.Append.{append_event, begin_run, settle_tx, fold_cached}
use pointlock.Store.Verify.{rebuild_checkpoint}
use pointlock.Store.History.{StoreOp, perform, perform_all}
use pointlock.Tests.Ledger.{step_path}
use pointlock.Tests.Store.{lenient, new_run}

abbrev frame : CallFrame
frame = record {
  flow_id = "pay";
  ir_hash = "h1";
  call_step_id = some "tap";
  inputs_snapshot = Value.null;
  vars = [];
  iter_stack = [];
  next_index = 0;
}

abbrev append : RunPath → RunLogPayload → StoreOp
append run_path payload = StoreOp.append "run-1" 100 run_path payload TxOutcome.commits

abbrev null_exit : List StoreOp
null_exit =
    StoreOp.begin new_run "generated"
    ∷ append (root_path "login" "h0") (RunLogPayload.run_started "h0" "d0" Value.null none)
    ∷ append (step_path "tap") (RunLogPayload.step_entered "tap" "e0" "j0" Value.null)
    ∷ append (step_path "tap") (RunLogPayload.call_frame_pushed frame false)
    ∷ append (step_path "tap") (RunLogPayload.call_frame_popped (some (Value.string "paid")))
    ∷ append (step_path "tap")
        (RunLogPayload.step_exited StepState.judged (some Value.null) none [] [])
    ∷ []

abbrev exited : Store
exited = perform_all lenient empty_store null_exit

abbrev outputs_of : CheckpointView → List (Option Value)
outputs_of view = map (λ (step : StepRecord). step.output) view.completed

abbrev stored_outputs : Option (ℕ × CheckpointView) → List (Option Value)
stored_outputs none = []
stored_outputs (some (seq, view)) = outputs_of view

-- The row has no output for the step.
stored_test : stored_outputs (exited.tables.checkpoints "run-1") ≡ none ∷ []
unfolding perform_all perform append_event begin_run settle_tx fold_cached fold_state fold_from
    fold_step apply seed finish reread_value
stored_test = refl

-- The refold gives the step the outputs of the callee.
rebuilt_test :
    map_ok outputs_of (rebuild_checkpoint exited "run-1") ≡ ok (some (Value.string "paid") ∷ [])
unfolding perform_all perform append_event begin_run settle_tx fold_cached fold_state fold_from
    fold_step apply seed finish fold_checkpoint rebuild_checkpoint reread_value
rebuilt_test = refl

-- ===== src/Store/Db.antt =====
-- store.rs: the tables of the store, the errors of its operations and the state of a handle. The
-- tables `evidence` and `evidence_ref` are not modelled.
use pointlock.Prelude.{ℕ, String, Option, none, List, []}
use pointlock.Ir.Vocab.{FlowId, Hash}
use pointlock.Ir.Json.{Value}
use pointlock.Ir.Record.{BindingState, CheckpointView}
use pointlock.Ir.RunLog.{RunLogEvent}
use pointlock.Store.Fold.State.{FoldError, RunMeta, RunStatus, FoldState}

-- Why a response does not have the shape that its request demands; the source formats a message.
pub data ShapeError : Type 0 where
  not_an_object no_mode unexpected_field note_not_a_string missing_field : ShapeError
  no_output_schema schema_failed not_a_string bad_label : ShapeError

pub data HumanResponseRejection : Type 0 where
  unknown_request already_responded settled : HumanResponseRejection
  deadline_expired : (deadline_at_ms received_at_ms : ℕ) → HumanResponseRejection
  invalid_shape : (reason : ShapeError) → HumanResponseRejection

pub data StoreError : Type 0 where
  sqlite : StoreError
  unknown_run duplicate_run no_checkpoint : (run_id : String) → StoreError
  fold : FoldError → StoreError
  stale_checkpoint : (run_id : String) (materialized_seq log_seq : ℕ) → StoreError
  checkpoint_mismatch : (run_id : String) (log_seq : ℕ) → StoreError
  status_mismatch : (run_id : String) (stored folded : RunStatus) → StoreError
  human_response_rejected :
      (run_id request_id : String) (reason : HumanResponseRejection) → StoreError

pub record NewRun : Type 0 where
  pub run_id : Option String
  pub flow_id : FlowId
  pub ir_hash : Hash
  pub lockfile_digest : Hash
  pub params_snapshot : Value
  pub binding : BindingState
  pub created_at_ms : ℕ

-- A row of `run`: the fold's input and the status column.
pub record RunRow : Type 0 where
  pub meta : RunMeta
  pub status : RunStatus

-- The tables by run: `run`, `run_log` in the order of its numbers, and `checkpoint`, a number and
-- a view, each as it is read back from its row. SQLite gives back the text that was written; what
-- serde_json reads of the text is modelled in Ir.Wire.
pub record Tables : Type 0 where
  pub runs : String → Option RunRow
  pub logs : String → List RunLogEvent
  pub checkpoints : String → Option (ℕ × CheckpointView)

-- The tables, and the fold cache of the handle.
pub record Store : Type 0 where
  pub tables : Tables
  pub fold_cache : String → Option (ℕ × FoldState)

-- How a transaction fares: it commits, or it fails before the fold or after it (SQLite rolls back).
pub data TxOutcome : Type 0 where
  commits fails_before_fold fails_after_fold : TxOutcome

-- `Store::open` on an empty root.
abbrev pub empty_store : Store
empty_store = record {
  tables = record { runs = λ _. none; logs = λ _. []; checkpoints = λ _. none };
  fold_cache = λ _. none;
}

-- `Store::open` after the process ended: the tables are durable, the cache is not.
abbrev pub reopen : Store → Store
reopen st = record st { fold_cache = λ _. none }

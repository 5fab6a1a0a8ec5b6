-- ===== src/Store/Append.antt =====
-- store.rs, 213-365: creating a run, and the transaction that appends one event.
use pointlock.Prelude.{
  ℕ, ◌+◌, String, Option, none, some, List, [], ◌∷◌, ◌==◌, Result, ok, err, if◌then◌else◌, push,
  update, is_some,
}
use Prim.Native.Nat.{max}
use pointlock.Ir.Vocab.{ActChannel, ActionName}
use pointlock.Ir.Json.{Value}
use pointlock.Ir.RunPath.{RunPath}
use pointlock.Ir.RunLog.{RunLogPayload, RunLogEvent}
use pointlock.Ir.Wire.{reread_event, reread_view}
use pointlock.Store.Fold.State.{RunMeta, RunStatus, FoldState}
use pointlock.Store.Fold.Steps.{Folded}
use pointlock.Store.Fold.Apply.{apply, fold_state}
use pointlock.Store.Fold.Finish.{finish}
use pointlock.Store.Db.{StoreError, NewRun, RunRow, Tables, Store, TxOutcome}

-- The run id of a new run: the given one, or a generated one.
abbrev pub new_run_id : Option String → String → String
new_run_id none generated = generated
new_run_id (some given) generated = given

abbrev pub new_meta : String → NewRun → RunMeta
new_meta run_id new_run = record {
  run_id = run_id;
  flow_id = new_run.flow_id;
  ir_hash = new_run.ir_hash;
  lockfile_digest = new_run.lockfile_digest;
  params_snapshot = new_run.params_snapshot;
  binding = new_run.binding;
  created_at_ms = new_run.created_at_ms;
}

-- `Store::begin_run`; `generated` is the fresh UUID.
unfoldable pub begin_run : Store → NewRun → String → Store × Result String StoreError
begin_run st new_run generated =
    let run_id = new_run_id new_run.run_id generated in
    if is_some (st.tables.runs run_id) then (st, err (StoreError.duplicate_run run_id)) else (
      record st {
        tables = record (st.tables) {
          runs =
              update st.tables.runs run_id
                (some (record { meta = new_meta run_id new_run; status = RunStatus.running }));
        };
      },
      ok run_id,
    )

-- `COALESCE(MAX(seq), 0)`.
abbrev pub max_seq : List RunLogEvent → ℕ
max_seq [] = 0
max_seq (e ∷ events) = max e.seq (max_seq events)

-- The fallback to the full refold: an error leaves the cache as it is.
unfoldable pub refold_cached : Option (ℕ × FoldState) → ℕ → Folded → Option (ℕ × FoldState) × Folded
refold_cached entry seq (ok state) = (some (seq, state), ok state)
refold_cached entry seq (err x) = (entry, err x)

-- The incremental fold: an error removes the cache entry.
unfoldable pub apply_cached : ℕ → Folded → Option (ℕ × FoldState) × Folded
apply_cached seq (ok state) = (some (seq, state), ok state)
apply_cached seq (err x) = (none, err x)

-- The fold of `append_event` through the cache. `log` is read back and holds the inserted event
-- already; `event` is the one in memory.
unfoldable pub fold_cached :
    Option (ℕ × FoldState)
    → RunMeta
    → List RunLogEvent
    → RunLogEvent
    → Option (ℕ × FoldState) × Folded
unfolding refold_cached apply_cached
fold_cached none meta log event = refold_cached none event.seq (fold_state meta log)
fold_cached (some (cached_seq, state)) meta log event =
    if (cached_seq + 1) == event.seq
    then apply_cached event.seq (apply state event)
    else refold_cached (some (cached_seq, state)) event.seq (fold_state meta log)

-- The event that `append_event` writes.
abbrev pub next_event : Tables → String → ℕ → RunPath → RunLogPayload → RunLogEvent
next_event tables run_id at_ms run_path payload = record {
  run_id = run_id;
  seq = max_seq (tables.logs run_id) + 1;
  at_ms = at_ms;
  run_path = run_path;
  payload = payload;
}

-- The rows that the transaction leaves, as they are read back: the log, the checkpoint and the status
-- of the run.
abbrev pub commit_event : Tables → RunRow → RunLogEvent → FoldState → Tables
commit_event tables row event state =
    let folded = finish state in
    record {
      runs = update tables.runs event.run_id (some (record row { status = folded.status }));
      logs = update tables.logs event.run_id (push (tables.logs event.run_id) (reread_event event));
      checkpoints =
          update tables.checkpoints event.run_id (some (event.seq, reread_view folded.view));
    }

-- The end of the transaction, once the fold has answered.
unfoldable pub settle_tx :
    Store
    → RunRow
    → RunLogEvent
    → TxOutcome
    → Option (ℕ × FoldState) × Folded
    → Store × Result ℕ StoreError
settle_tx st row event tx (entry, err x) =
    (record st { fold_cache = update st.fold_cache event.run_id entry }, err (StoreError.fold x))
settle_tx st row event TxOutcome.commits (entry, ok state) = (
  record {
    tables = commit_event st.tables row event state;
    fold_cache = update st.fold_cache event.run_id entry;
  },
  ok event.seq,
)
settle_tx st row event _ (entry, ok state) =
    (record st { fold_cache = update st.fold_cache event.run_id entry }, err StoreError.sqlite)

unfoldable pub append_known : Store → RunRow → RunLogEvent → TxOutcome → Store × Result ℕ StoreError
append_known st row event TxOutcome.fails_before_fold = (st, err StoreError.sqlite)
append_known st row event tx = settle_tx st row event tx (
    fold_cached (st.fold_cache event.run_id) row.meta
      (push (st.tables.logs event.run_id) (reread_event event)) event)

-- `Store::append_event`.
unfoldable pub append_event :
    Store → String → ℕ → RunPath → RunLogPayload → TxOutcome → Store × Result ℕ StoreError
unfolding append_known
append_event st run_id at_ms run_path payload tx = elim (st.tables.runs run_id) [
  | none ↦ (st, err (StoreError.unknown_run run_id))
  | some row ↦ append_known st row (next_event st.tables run_id at_ms run_path payload) tx
]

-- The dispatch identity of an intent.
pub record IntentDispatch : Type 0 where
  pub chain_index : ℕ
  pub channel : ActChannel
  pub action_name : ActionName

abbrev pub intent_payload : String → Value → Option IntentDispatch → RunLogPayload
intent_payload call_id args_snapshot none =
    RunLogPayload.action_intent call_id args_snapshot none none none
intent_payload call_id args_snapshot (some dispatch) =
    RunLogPayload.action_intent call_id args_snapshot (some dispatch.chain_index)
      (some dispatch.channel) (some dispatch.action_name)

-- `Store::write_action_intent`.
unfoldable pub write_action_intent :
    Store
    → String
    → ℕ
    → RunPath
    → String
    → Value
    → Option IntentDispatch
    → TxOutcome
    → Store × Result ℕ StoreError
write_action_intent st run_id at_ms run_path call_id args_snapshot dispatch tx =
    append_event st run_id at_ms run_path (intent_payload call_id args_snapshot dispatch) tx

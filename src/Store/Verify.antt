-- ===== src/Store/Verify.antt =====
-- store.rs, 498-552, 624-657 and 725-759: reading back, rebuilding, and the runtime self-check.
use pointlock.Prelude.{
  ℕ, String, not, Option, none, some, List, ◌==◌, Result, ok, err, ◌>>=◌, map_ok, if◌then◌else◌,
  last?,
}
use pointlock.Ir.Record.{CheckpointView}
use pointlock.Ir.RunLog.{RunLogEvent}
use pointlock.Store.Fold.State.{FoldError, FoldedRun}
use pointlock.Store.Fold.Finish.{fold_checkpoint}
use pointlock.Store.Equality.{view_eq, run_status_eq}
use pointlock.Store.Db.{StoreError, RunRow, Store}
use pointlock.Store.Append.{max_seq}

-- `read_meta`, with the status column beside it.
abbrev pub read_row : Store → String → Result RunRow StoreError
read_row st run_id = elim (st.tables.runs run_id) [
  | none ↦ err (StoreError.unknown_run run_id)
  | some row ↦ ok row
]

abbrev pub lift_fold {ℓ} : {A : Type ℓ} → Result A FoldError → Result A StoreError
lift_fold (ok a) = ok a
lift_fold (err x) = err (StoreError.fold x)

-- `Store::events`.
unfoldable pub events : Store → String → Result (List RunLogEvent) StoreError
events st run_id = map_ok (λ _. st.tables.logs run_id) (read_row st run_id)

-- `Store::revision`.
unfoldable pub revision : Store → String → Result ℕ StoreError
revision st run_id = map_ok (λ _. max_seq (st.tables.logs run_id)) (read_row st run_id)

-- `refold`.
unfoldable pub refold : Store → String → Result FoldedRun StoreError
refold st run_id =
    read_row st run_id >>= λ row. lift_fold (fold_checkpoint row.meta (st.tables.logs run_id))

-- `Store::rebuild_checkpoint`.
unfoldable pub rebuild_checkpoint : Store → String → Result CheckpointView StoreError
unfolding refold
rebuild_checkpoint st run_id = map_ok (λ (folded : FoldedRun). folded.view) (refold st run_id)

-- The number of the log's last event.
abbrev pub head_seq : List RunLogEvent → ℕ
head_seq log = elim (last? log) [ none ↦ 0 | some e ↦ e.seq ]

-- The comparisons of the self-check, against the stored checkpoint row and status.
check_folded : String → RunRow → ℕ × CheckpointView → FoldedRun → Result CheckpointView StoreError
check_folded run_id row (log_seq, stored) folded =
    if not (view_eq folded.view stored)
    then err (StoreError.checkpoint_mismatch run_id log_seq)
    else if not (run_status_eq row.status folded.status)
    then err (StoreError.status_mismatch run_id row.status folded.status)
    else ok folded.view

check_row : Store → String → RunRow → Option (ℕ × CheckpointView) → Result CheckpointView StoreError
unfolding check_folded
check_row st run_id row none = err (StoreError.no_checkpoint run_id)
check_row st run_id row (some (log_seq, stored)) =
    let log = st.tables.logs run_id in
    if not (log_seq == head_seq log)
    then err (StoreError.stale_checkpoint run_id log_seq (head_seq log))
    else lift_fold (fold_checkpoint row.meta log) >>= check_folded run_id row (log_seq, stored)

-- `Store::verify_checkpoint`.
unfoldable pub verify_checkpoint : Store → String → Result CheckpointView StoreError
unfolding check_row
verify_checkpoint st run_id =
    read_row st run_id >>= λ row. check_row st run_id row (st.tables.checkpoints run_id)
